-- ===== src/Pipe/Window.antt =====
-- The bytes that a ring buffer holds, and how a write to one slot changes them.
use mathlib.Core.Path.{ap₂}
use native.Mathlib.Nat.{add-zero, mod-add-mod, mod-eq_of_lt, mod-eq-sub-mod}
use native.Mathlib.Decide.{dec_lt}
use hydrangea.Prelude.{
  ℕ, zero, suc, ◌+◌, ◌-◌, ◌%◌, ◌^◌, ◌≤◌, ◌<◌, ◌≡◌, refl, ◌≢◌, ◌⊎◌, inl, inr, ap, sym, ◌∙◌, List, [],
  ◌∷◌, ◌++◌, arith, length, get_or, set, get_or-set_self, get_or-set_ne,
}

module _ (buffer : List ℕ) (size : ℕ) where
  -- the `n` bytes from slot `i` on, going round at `size`
  abbrev pub held : ℕ → ℕ → List ℕ
  held i zero = []
  held i (suc n) = get_or buffer i 0 ∷ held ((i + 1) % size) n

  pub length-held : (i n : ℕ) → length (held i n) ≡ n
  length-held i zero = refl
  length-held i (suc n) = ap suc (length-held ((i + 1) % size) n)

-- One step round the ring, or one lap less.
lap :
    (size i d : ℕ)
    → i < size
    → d < size
    → ((i + d < size) × ((i + d) % size ≡ i + d))
      ⊎ ((size ≤ i + d) × ((i + d) % size ≡ i + d - size))
lap size i d hi hd = elim (dec_lt (i + d) size) [
  | yes p ↦ inl (p, mod-eq_of_lt p)
  | no p ↦
      let below : i + d - size < size = omega arith in
      inr (omega arith, mod-eq-sub-mod {n = i + d} {m = size} (omega arith) ∙ mod-eq_of_lt below)
]

-- Different distances lead to different slots.
pub slots_ne :
    (size i a b : ℕ) → i < size → a < size → b < size → a ≢ b → (i + a) % size ≢ (i + b) % size
slots_ne size i a b hi ha hb ne = omega (arith, lap size i a hi ha, lap size i b hi hb)

pub slot_shift : (size i d : ℕ) → ((i + 1) % size + d) % size ≡ (i + suc d) % size
slot_shift size i d = mod-add-mod (i + 1) size d ∙ ap (λ k. k % size) (omega arith)

start_slot : (size i : ℕ) → i < size → (i + 0) % size ≡ i
start_slot size i hi = ap (λ k. k % size) (add-zero i) ∙ mod-eq_of_lt hi

-- The 8-bit increment of an index agrees with a step round the ring.
pub index_step : (size i : ℕ) → i < size → size ≤ 2 ^ 8 → (i + 1) % 2 ^ 8 % size ≡ (i + 1) % size
index_step size i hi hs = elim (dec_lt (i + 1) 256) [
  | yes p ↦ ap (λ k. k % size) (mod-eq_of_lt p)
  | no p ↦ let e : size ≡ 256 = omega arith in let e' : i ≡ 255 = omega arith in rw (e, e') refl
]

module _ (buffer : List ℕ) (size : ℕ) where
  -- A slot that is none of the `n` slots may be written.
  pub held-set_ne :
      (x j i n : ℕ)
      → i < size
      → ((k : ℕ) → k < n → (i + k) % size ≢ j)
      → held (set buffer j x) size i n ≡ held buffer size i n
  held-set_ne x j i zero hi apart = refl
  held-set_ne x j i (suc n) hi apart =
      let here : j ≢ i = λ e. apart 0 (omega arith) (start_slot size i hi ∙ sym e) in
      let rest =
        held-set_ne x j ((i + 1) % size) n (omega arith)
          (λ k hk e. apart (suc k) (omega arith) (sym (slot_shift size i k) ∙ e)) in
      ap₂ ◌∷◌ (get_or-set_ne buffer j i x 0 here) rest

  -- A write just behind the `n` bytes held appends to them.
  pub held-set_end :
      (x j i n : ℕ)
      → size ≤ length buffer
      → i < size
      → n < size
      → j ≡ (i + n) % size
      → held (set buffer j x) size i (suc n) ≡ held buffer size i n ++ (x ∷ [])
  held-set_end x j i zero hl hi hn e =
      let at : j ≡ i = e ∙ start_slot size i hi in
      ap (λ b. b ∷ []) (rw at (get_or-set_self buffer i x 0 (omega arith)))
  held-set_end x j i (suc n) hl hi hn e =
      let apart : j ≢ i = λ e'.
        slots_ne size i (suc n) 0 hi hn (omega arith) (omega arith)
          (sym e ∙ e' ∙ sym (start_slot size i hi)) in
      ap₂ ◌∷◌ (get_or-set_ne buffer j i x 0 apart) (
        held-set_end x j ((i + 1) % size) n hl (omega arith) (omega arith)
          (e ∙ sym (slot_shift size i n)))

  -- A write to the first slot replaces the first byte.
  pub held-set_start :
      (x i n : ℕ)
      → size ≤ length buffer
      → i < size
      → n < size
      → held (set buffer i x) size i (suc n) ≡ x ∷ held buffer size ((i + 1) % size) n
  held-set_start x i n hl hi hn = ap₂ ◌∷◌ (get_or-set_self buffer i x 0 (omega arith)) (
      held-set_ne x i ((i + 1) % size) n (omega arith) λ k hk e.
        slots_ne size i (suc k) 0 hi (omega arith) (omega arith) (omega arith)
          (sym (slot_shift size i k) ∙ e ∙ sym (start_slot size i hi)))
