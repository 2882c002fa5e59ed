-- ===== src/Mem/Pmm/First.antt =====
-- The search of `frame_bmp_get_first` (pmm.c): the lowest frame that is not taken.
use mathlib.Core.Path.{subst}
use Prim.Native.Nat.{bit_and}
use native.Mathlib.Decide.{ℕ_discrete, dec_lt}
use hydrangea.Prelude.{
  ℕ, zero, suc, ◌+◌, ◌*◌, ◌/◌, ◌%◌, ◌^◌, ◌≤◌, ◌<◌, ◌≡◌, inl, inr, refl, ap, sym, ◌∙◌, arith, ◌==◌,
  Option, none, some, true, false, eq→==, ne→not_==, Bool-cases, Option-cases, ==→eq,
}
use hydrangea.Prelude.Bits.{bit, bit-le-one, pow-pos, bit_and-pow, bit-complement, bit-zero}
use hydrangea.Mem.Pmm.{Pmm, first_clear, scan_words, frame_bmp_get_first}
use hydrangea.Mem.Pmm.Frames.{taken}

-- `r` is the first `k` in `[lo, hi)` with `f k ≡ 0`, or `none` and there is no such `k`.
abbrev pub First : (ℕ → ℕ) → (lo hi : ℕ) → Option ℕ → Type 0
First f lo hi none = (k : ℕ) → lo ≤ k → k < hi → f k ≡ 1
First f lo hi (some k) = (lo ≤ k) × (k < hi) × (f k ≡ 0) × ((m : ℕ) → lo ≤ m → m < k → f m ≡ 1)

-- One more element in front that is no hit.
First-skip :
    (f : ℕ → ℕ) (lo mid hi : ℕ) (r : Option ℕ)
    → lo ≤ mid
    → ((k : ℕ) → lo ≤ k → k < mid → f k ≡ 1)
    → First f mid hi r
    → First f lo hi r
First-skip f lo mid hi none le before rest =
    λ k a b. elim (dec_lt k mid) [ yes p ↦ before k a p | no p ↦ rest k (omega arith) b ]
First-skip f lo mid hi (some k) le before (a, b, c, d) = (
  omega arith,
  b,
  c,
  λ m x y. elim (dec_lt m mid) [ yes p ↦ before m x p | no p ↦ d m (omega arith) y ],
)

test_clear : (w j : ℕ) → bit w j ≡ 0 → (bit_and w (2 ^ j) == 0) ≡ true
test_clear w j e = eq→== _ _ (bit_and-pow w j ∙ rw e (omega arith))

test_set : (w j : ℕ) → bit w j ≡ 1 → (bit_and w (2 ^ j) == 0) ≡ false
test_set w j e = ne→not_== _ _ (omega (arith, bit_and-pow w j ∙ ap (λ b. b * 2 ^ j) e, pow-pos j))

first_clear-First : (w j n hi : ℕ) → j + n ≡ hi → First (bit w) j hi (first_clear w j n)
unfolding first_clear
first_clear-First w j zero hi e = λ k a b. absurd (omega arith)
first_clear-First w j (suc n) hi e = elim (ℕ_discrete (bit w j) 0) [
  | yes clear ↦
      rw (test_clear w j clear) (omega arith, omega arith, clear, λ m a b. absurd (omega arith))
  | no set ↦
      let one : bit w j ≡ 1 = omega (arith, bit-le-one w j) in
      rw (test_set w j one) (
        First-skip (bit w) j (suc j) hi (first_clear w (suc j) n) (omega arith)
          (λ k a b. let at : k ≡ j = omega arith in rw at one)
          (first_clear-First w (suc j) n hi (omega arith)))
]

module _ (bitmap : ℕ → ℕ) where
  abbrev bit_at : ℕ → ℕ
  bit_at f = bit (bitmap (f / 32)) (f % 32)

  scan_zero : (i : ℕ) → scan_words bitmap i zero ≡ none
  unfolding scan_words
  scan_zero i = refl

  scan_none :
      (i n : ℕ)
      → (bitmap i == 0xFFFF_FFFF) ≡ false
      → first_clear (bitmap i) 0 32 ≡ none
      → scan_words bitmap i (suc n) ≡ scan_words bitmap (suc i) n
  unfolding scan_words
  scan_none i n other e = rw (other, e)

  scan_some :
      (i n j : ℕ)
      → (bitmap i == 0xFFFF_FFFF) ≡ false
      → first_clear (bitmap i) 0 32 ≡ some j
      → scan_words bitmap i (suc n) ≡ some (32 * i + j)
  unfolding scan_words
  scan_some i n j other e = rw (other, e)

  scan_full :
      (i n : ℕ)
      → (bitmap i == 0xFFFF_FFFF) ≡ true
      → scan_words bitmap i (suc n) ≡ scan_words bitmap (suc i) n
  unfolding scan_words
  scan_full i n full = rw full

  -- A word that the search passes over has all its frames taken.
  passed :
      (i : ℕ)
      → ((k : ℕ) → k < 32 → bit (bitmap i) k ≡ 1)
      → (f : ℕ) → 32 * i ≤ f
      → f < 32 * suc i
      → bit_at f ≡ 1
  passed i all f a b = let word : f / 32 ≡ i = omega arith in rw word (all (f % 32) (omega arith))

  skip :
      (i n hi : ℕ)
      → ((f : ℕ) → 32 * i ≤ f → f < 32 * suc i → bit_at f ≡ 1)
      → First bit_at (32 * suc i) (32 * hi) (scan_words bitmap (suc i) n)
      → First bit_at (32 * i) (32 * hi) (scan_words bitmap (suc i) n)
  skip i n hi before rest =
      First-skip bit_at (32 * i) (32 * suc i) (32 * hi) (scan_words bitmap (suc i) n) (omega arith)
        before rest

  here :
      (i n hi j : ℕ)
      → i + suc n ≡ hi
      → j < 32
      → bit (bitmap i) j ≡ 0
      → ((m : ℕ) → 0 ≤ m → m < j → bit (bitmap i) m ≡ 1)
      → First bit_at (32 * i) (32 * hi) (some (32 * i + j))
  here i n hi j e small clear before = (
    omega arith,
    omega arith,
    at j small clear,
    λ m a b.
        let word : m / 32 ≡ i = omega arith in
        rw word (before (m % 32) (omega arith) (omega arith)),
  )
    where
      at : (k : ℕ) → k < 32 → bit (bitmap i) k ≡ 0 → bit_at (32 * i + k) ≡ 0
      at k h z =
          let word : (32 * i + k) / 32 ≡ i = omega arith in
          let place : (32 * i + k) % 32 ≡ k = omega arith in rw (word, place) z

  scan_words-First :
      (i n hi : ℕ) → i + n ≡ hi → First bit_at (32 * i) (32 * hi) (scan_words bitmap i n)
  scan_words-First i zero hi e =
      subst (First bit_at (32 * i) (32 * hi)) (sym (scan_zero i)) (λ k a b. absurd (omega arith))
  scan_words-First i (suc n) hi e = elim (Bool-cases (bitmap i == 0xFFFF_FFFF)) [
    | inl full ↦
        let ones : (k : ℕ) → k < 32 → bit (bitmap i) k ≡ 1 = λ k h.
          ap (λ w. bit w k) (==→eq _ _ full)
          ∙ bit-complement 32 0 k (omega arith) h
          ∙ omega (arith, bit-zero k) in
        subst (First bit_at (32 * i) (32 * hi)) (sym (scan_full i n full))
          (skip i n hi (passed i ones) (scan_words-First (suc i) n hi (omega arith)))
    | inr other ↦ elim (Option-cases (first_clear (bitmap i) 0 32)) [
      | inl nothing ↦
          let all =
            subst (First (bit (bitmap i)) 0 32) nothing
              (first_clear-First (bitmap i) 0 32 32 (omega arith)) in
          subst (First bit_at (32 * i) (32 * hi)) (sym (scan_none i n other nothing)) (
            skip i n hi (passed i (λ k h. all k (omega arith) h))
              (scan_words-First (suc i) n hi (omega arith)))
      | inr (j, found) ↦
          let (a, b, c, d) =
            subst (First (bit (bitmap i)) 0 32) found
              (first_clear-First (bitmap i) 0 32 32 (omega arith)) in
          subst (First bit_at (32 * i) (32 * hi)) (sym (scan_some i n j other found))
            (here i n hi j e b c d)
    ]
  ]

-- `frame_bmp_get_first` returns the lowest frame that is not taken among those that the words of the
-- bitmap below `memory_size / 4096 / 32` stand for; it panics exactly when all of these are taken.
pub frame_bmp_get_first-First :
    (p : Pmm) → First (taken p) 0 (32 * (p.memory_size / 4096 / 32)) (frame_bmp_get_first p)
unfolding frame_bmp_get_first
frame_bmp_get_first-First p =
    scan_words-First p.bitmap 0 (p.memory_size / 4096 / 32) (p.memory_size / 4096 / 32)
      (omega arith)
