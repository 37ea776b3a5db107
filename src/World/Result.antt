-- ===== src/World/Result.antt =====
-- The results of the entry points that do not yield.
use pthipth.Prelude.{◌≡◌, refl, Option, none, some, ◌>>=◌, ℤ}
use pthipth.World.{World}
use pthipth.World.Moves.{Returns}

-- The code returns `z`, and the state it leaves satisfies `P`.
abbrev pub ReturnsWith : ℤ → (World → Type 0) → Option (World × ℤ) → Type 0
ReturnsWith z P none = ⊥
ReturnsWith z P (some (w, r)) = P w × (r ≡ z)

pub ReturnsWith-mono :
    (z : ℤ) (P Q : World → Type 0)
    → ((w : World) → P w → Q w)
    → (o : Option (World × ℤ)) → ReturnsWith z P o
    → ReturnsWith z Q o
ReturnsWith-mono z P Q f none r = elim r [ ]
ReturnsWith-mono z P Q f (some (w, v)) r = (f w r.0, r.1)

pub with-value :
    (z : ℤ) (P : World → Type 0) (o : Option World)
    → Returns P o
    → ReturnsWith z P (o >>= λ w. some (w, z))
with-value z P none r = elim r [ ]
with-value z P (some w) r = (r, refl)
