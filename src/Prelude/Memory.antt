-- ===== src/Prelude/Memory.antt =====
-- Memory as a function from addresses (or indices) to values, and what a block of it holds.
use Prim.Native.Nat.{ℕ, zero, suc, ◌+◌, ◌<◌}
use mathlib.Core.Path.{◌≡◌, refl, ap}
use mathlib.Core.Logic.{◌≢◌}
use mathlib.Core.List.{List, [], ◌∷◌, ◌++◌}
use native.Mathlib.Omega.{arith}
use hydrangea.Prelude.Tests.{◌==◌, if◌then◌else◌}
use hydrangea.Prelude.Lists.{length}

module _ {ℓ} {A : Type ℓ} where
  -- `m[p] = v`
  abbrev pub update : (ℕ → A) → ℕ → A → ℕ → A
  update m p v q = if q == p then v else m q

  -- the `n` values from address `p` on
  abbrev pub block : (ℕ → A) → ℕ → ℕ → List A
  block m p zero = []
  block m p (suc n) = m p ∷ block m (suc p) n

module _ {ℓ} {A : Type ℓ} where
  pub block_ext :
      (f g : ℕ → A) (p q n : ℕ)
      → ((i : ℕ) → i < n → f (p + i) ≡ g (q + i))
      → block f p n ≡ block g q n
  block_ext f g p q zero h = refl
  block_ext f g p q (suc n) h =
      let tail = block_ext f g (suc p) (suc q) n (λ i l. ground (arith, h (i + 1))) in
      let start : f p ≡ g q = ground (arith, h 0) in ground arith

  pub length-block : (f : ℕ → A) (p n : ℕ) → length (block f p n) ≡ n
  length-block f p zero = refl
  length-block f p (suc n) = omega (arith, length-block f (suc p) n)

  pub block-append : (f : ℕ → A) (p m n : ℕ) → block f p (m + n) ≡ block f p m ++ block f (p + m) n
  block-append f p zero n =
      let e : zero + n ≡ n = omega arith in let e' : p + zero ≡ p = omega arith in rw (e, e') refl
  block-append f p (suc m) n =
      let e : suc m + n ≡ suc (m + n) = omega arith in
      let e' : p + suc m ≡ suc p + m = omega arith in
      rw (e, e') (ap (λ l. f p ∷ l) (block-append f (suc p) m n))

  -- A write outside the block leaves what the block holds.
  pub block-update_ne :
      (f : ℕ → A) (p n q : ℕ) (v : A)
      → ((i : ℕ) → i < n → p + i ≢ q)
      → block (update f q v) p n ≡ block f p n
  block-update_ne f p n q v h = block_ext (update f q v) f p p n λ i l. ground (arith, h i)

  pub update_ne : (f : ℕ → A) (p : ℕ) (v : A) (q : ℕ) → p ≢ q → update f p v q ≡ f q
  update_ne f p v q h = ground arith
