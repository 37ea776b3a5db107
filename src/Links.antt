-- ===== src/Links.antt =====
-- Chains of nodes that are linked in both directions.
use pthipth.Prelude.{
  ℕ, ◌≡◌, ◌≢◌, true, false, List, [], ◌∷◌, ◌++◌, arith, ◌==◌, if◌then◌else◌, has, Distinct, erase,
  has-append, ==_iff, Bool-cases, inl, inr,
}

abbrev pub update : (ℕ → ℕ) → ℕ → ℕ → ℕ → ℕ
update f p v q = if p == q then v else f q

-- From `u` the successors lead through the nodes of the list to `v`, and the predecessors lead back.
abbrev pub Chain : (ℕ → ℕ) → (ℕ → ℕ) → ℕ → List ℕ → ℕ → Type 0
Chain nx pv u [] v = (nx u ≡ v) × (pv v ≡ u)
Chain nx pv u (x ∷ xs) v = (nx u ≡ x) × (pv x ≡ u) × Chain nx pv x xs v

module _ (nx pv : ℕ → ℕ) where
  pub Chain-snoc :
      (u : ℕ) (xs : List ℕ) (v w : ℕ)
      → Chain nx pv u xs v
      → nx v ≡ w
      → pv w ≡ v
      → Chain nx pv u (xs ++ (v ∷ [])) w
  Chain-snoc u [] v w c e f = (c.0, c.1, (e, f))
  Chain-snoc u (x ∷ xs) v w c e f = (c.0, c.1, Chain-snoc x xs v w c.2 e f)

  -- The predecessor of a node on the chain is the start or on the chain.
  pub has-prev :
      (u : ℕ) (xs : List ℕ) (v n : ℕ)
      → Chain nx pv u xs v
      → has n xs ≡ true
      → has (pv n) (u ∷ xs) ≡ true
  has-prev u [] v n c h = cc
  has-prev u (x ∷ xs) v n c h = ground (arith, has-prev x xs v n c.2)

  pub has-next :
      (u : ℕ) (xs : List ℕ) (v n : ℕ)
      → Chain nx pv u xs v
      → has n xs ≡ true
      → has (nx n) (xs ++ (v ∷ [])) ≡ true
  has-next u [] v n c h = cc
  has-next u (x ∷ []) v n c h = ground arith
  has-next u (x ∷ y ∷ xs) v n c h = ground (arith, has-next x (y ∷ xs) v n c.2)

  -- The two directions undo one another along the chain.
  pub prev-next :
      (u : ℕ) (xs : List ℕ) (v n : ℕ) → Chain nx pv u xs v → has n (u ∷ xs) ≡ true → pv (nx n) ≡ n
  prev-next u [] v n c h = ground arith
  prev-next u (x ∷ xs) v n c h = ground (arith, prev-next x xs v n c.2)

  pub next-prev :
      (u : ℕ) (xs : List ℕ) (v n : ℕ)
      → Chain nx pv u xs v
      → has n (xs ++ (v ∷ [])) ≡ true
      → nx (pv n) ≡ n
  next-prev u [] v n c h = ground arith
  next-prev u (x ∷ xs) v n c h = ground (arith, next-prev x xs v n c.2)

  pub has-first :
      (u : ℕ) (xs : List ℕ) (v : ℕ) → Chain nx pv u xs v → has (nx u) (xs ++ (v ∷ [])) ≡ true
  has-first u [] v c = ground arith
  has-first u (x ∷ xs) v c = ground arith

  pub has-last : (u : ℕ) (xs : List ℕ) (v : ℕ) → Chain nx pv u xs v → has (pv v) (u ∷ xs) ≡ true
  has-last u [] v c = ground arith
  has-last u (x ∷ xs) v c = ground (arith, has-last x xs v c.2)

module _ (nx pv nx' pv' : ℕ → ℕ) where
  pub Chain-frame :
      (u : ℕ) (xs : List ℕ) (v : ℕ)
      → Chain nx pv u xs v
      → ((p : ℕ) → has p (u ∷ xs) ≡ true → nx' p ≡ nx p)
      → ((p : ℕ) → has p (xs ++ (v ∷ [])) ≡ true → pv' p ≡ pv p)
      → Chain nx' pv' u xs v
  Chain-frame u [] v c f g = ground (arith, f u, g v)
  Chain-frame u (x ∷ xs) v c f g =
      let rest = Chain-frame x xs v c.2 (λ p h. f p (ground arith)) (λ p h. g p (ground arith)) in
      ground (arith, f u, g x, rest)

  module _ (n : ℕ) (f : (p : ℕ) → p ≢ n → nx' p ≡ update nx (pv n) (nx n) p)
      (g : (p : ℕ) → p ≢ n → pv' p ≡ update pv (nx n) (pv n) p) where
    Chain-skip :
        (u : ℕ) (xs : List ℕ) (v : ℕ)
        → Chain nx pv u (n ∷ xs) v
        → Distinct (u ∷ n ∷ xs)
        → Distinct (n ∷ (xs ++ (v ∷ [])))
        → Chain nx' pv' u xs v
    Chain-skip u [] v c d e = ground (arith, f u, g v)
    Chain-skip u (y ∷ ys) v c d e =
        let rest =
          Chain-frame y ys v c.2.2 (λ p h. ground (arith, f p)) (λ p h. ground (arith, g p)) in
        ground (arith, f u, g y, rest)

    -- Unlinking a node: its neighbours come to point at one another, all else stays.
    pub Chain-erase :
        (u : ℕ) (xs : List ℕ) (v : ℕ)
        → Chain nx pv u xs v
        → has n xs ≡ true
        → Distinct (u ∷ xs)
        → Distinct (xs ++ (v ∷ []))
        → Chain nx' pv' u (erase n xs) v
    Chain-erase u [] v c h d e = cc
    Chain-erase u (x ∷ xs) v c h d e = elim (Bool-cases (n == x)) [
      | inl hit ↦ rw hit (
          Chain-skip u xs v (rw ((==_iff n x).0 hit) c) (rw ((==_iff n x).0 hit) d)
            (rw ((==_iff n x).0 hit) e))
      | inr miss ↦ rw miss (
          let rest = Chain-erase x xs v c.2 (ground arith) d.1 e.1 in
          ground (arith, f u, g x, rest, has-prev nx pv x xs v n c.2, has-next nx pv x xs v n c.2))
    ]

  -- Linking a new node in before the end of the chain.
  pub Chain-insert :
      (n u : ℕ) (xs : List ℕ) (v : ℕ)
      → Chain nx pv u xs v
      → has n (u ∷ xs) ≡ false
      → has n (xs ++ (v ∷ [])) ≡ false
      → Distinct (u ∷ xs)
      → Distinct (xs ++ (v ∷ []))
      → ((p : ℕ) → nx' p ≡ update (update nx (pv v) n) n v p)
      → ((p : ℕ) → pv' p ≡ update (update pv v n) n (pv v) p)
      → Chain nx' pv' u (xs ++ (n ∷ [])) v
  Chain-insert n u [] v c h k d e f g = ground (arith, f u, f n, g v, g n)
  Chain-insert n u (x ∷ xs) v c h k d e f g =
      let rest = Chain-insert n x xs v c.2 (ground arith) (ground arith) d.1 e.1 f g in
      ground (arith, f u, g x, rest, has-last nx pv x xs v c.2, has-append v xs (v ∷ []))
