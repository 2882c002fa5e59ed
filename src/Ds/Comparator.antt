-- ===== src/Ds/Comparator.antt =====
-- kernel/ds/comparator.h. A comparator returns an `int8_t`, here its bit pattern: 1, 0, or 255 for -1.
use native.Mathlib.Decide.{dec_lt}
use hydrangea.Prelude.{ℕ, ◌≡◌, ◌<◌, ◌≤◌, ◌≢◌, ltb, ◌==◌, if◌then◌else◌, arith}

abbrev pub above : ℕ
above = 1

abbrev pub same : ℕ
same = 0

abbrev pub below : ℕ
below = 255

abbrev pub Comparator : Type 0
Comparator = ℕ → ℕ → ℕ

-- `default_comparator`: compares the two pointers as addresses.
unfoldable pub default_comparator : Comparator
default_comparator x y = if x == y then same else if ltb y x then above else below

-- What the structures need of a comparator: it orders by a rank.
pub record Ranks (cmp : Comparator) (rank : ℕ → ℕ) : Type 0 where
  pub above_of_lt : (x y : ℕ) → rank y < rank x → cmp x y ≡ above
  pub same_of_eq : (x y : ℕ) → rank x ≡ rank y → cmp x y ≡ same
  pub below_of_lt : (x y : ℕ) → rank x < rank y → cmp x y ≡ below

-- The default comparator orders by the address itself.
pub default_comparator-Ranks : Ranks default_comparator (λ x. x)
unfolding default_comparator
default_comparator-Ranks = record {
  above_of_lt = λ x y h. ground arith;
  same_of_eq = λ x y h. ground arith;
  below_of_lt = λ x y h. ground arith;
}

module _ {cmp : Comparator} {rank : ℕ → ℕ} (r : Ranks cmp rank) where
  -- The test `cmp(x, y) == 1` decides which rank is greater.
  pub not_below : (x y : ℕ) → cmp x y ≡ above → rank y ≤ rank x
  not_below x y e = elim (dec_lt (rank x) (rank y)) [
    | yes p ↦ omega (arith, r.below_of_lt x y p)
    | no p ↦ omega arith
  ]

  pub not_above : (x y : ℕ) → cmp x y ≢ above → rank x ≤ rank y
  not_above x y e = elim (dec_lt (rank y) (rank x)) [
    | yes p ↦ absurd (e (r.above_of_lt x y p))
    | no p ↦ omega arith
  ]
