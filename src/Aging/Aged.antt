-- ===== src/Aging/Aged.antt =====
-- The arithmetic of src/pthipth_aging.c.
use pthipth.Prelude.{
  ℕ, ◌+◌, ◌-◌, ◌*◌, ◌/◌, ◌%◌, ◌^◌, ◌≤◌, ◌<◌, ◌≡◌, max, arith, ltb, leb, ◌||◌, if◌then◌else◌,
}
use pthipth.World.{highest_priority}
use pthipth.Aging.{aged}

-- The new priority is in the range of the `int`, and no better than `HIGHEST_PRIORITY`.
pub aged_bounds :
    (old now last time factor : ℕ)
    → (highest_priority ≤ aged old now last time factor) × (aged old now last time factor < 2 ^ 31)
unfolding aged
aged_bounds old now last time factor = ground arith

elapsed : (now last : ℕ) → last ≤ now → now < 2 ^ 64 → (now + 2 ^ 64 - last) % 2 ^ 64 ≡ now - last
elapsed now last l n = omega arith

lowered :
    (old p : ℕ)
    → old < 2 ^ 31
    → p < 2 ^ 31
    → (let raw = (old + 2 ^ 64 - p % 2 ^ 64) % 2 ^ 32 in
        if ltb raw highest_priority || leb (2 ^ 31) raw then highest_priority else raw)
      ≡ max highest_priority (old - p)
lowered old p o l = ground arith

-- As long as the time does not run backwards and is one of 64 bits, and the old priority and the steps
-- taken are below 2 ^ 31, the new priority is
-- the old one less the steps, and at least `HIGHEST_PRIORITY`.
pub aged-max :
    (old now last time factor : ℕ)
    → old < 2 ^ 31
    → last ≤ now
    → now < 2 ^ 64
    → (now - last) / time * factor < 2 ^ 31
    → aged old now last time factor ≡ max highest_priority (old - (now - last) / time * factor)
unfolding aged
aged-max old now last time factor o l n s =
    rw (elapsed now last l n) (lowered old ((now - last) / time * factor) o s)
