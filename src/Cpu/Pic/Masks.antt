-- ===== src/Cpu/Pic/Masks.antt =====
-- Which requests the interrupt controllers let through.
use Prim.Native.Nat.{bit_and, bit_or}
use native.Mathlib.Decide.{dec_lt}
use hydrangea.Prelude.{
  ℕ, ◌-◌, ◌%◌, ◌^◌, ◌<◌, ◌≡◌, ap, ◌∙◌, arith, [], ◌∷◌, ltb, ◌==◌, if◌then◌else◌, lt→ltb, le→not_ltb,
}
use hydrangea.Prelude.Bits.{
  bit, bit-le-one, bit-bit_or, bit-bit_and, bit-pow_self, bit-pow_ne, bit-complement, bit_or-lt,
  bit_and-le, pow-lt-pow,
}
use hydrangea.Cpu.Pic.{Outputs, pic_get_mask, pic_set_mask, pic_mask, pic_unmask}

-- The last byte written to a port, 0 if there is none.
unfoldable pub latest : Outputs → (port : ℕ) → ℕ
latest [] port = 0
latest ((p, value) ∷ o) port = let rest = latest o port in if p == port then value else rest

-- An interrupt controller gives back the mask that was written last.
abbrev pub KeepsMasks : (Outputs → (port : ℕ) → ℕ) → Type 0
KeepsMasks io_inb =
    (o : Outputs) → (io_inb o 0x21 ≡ latest o 0x21) × (io_inb o 0xA1 ≡ latest o 0xA1)

-- 1 if the request `irq` is masked.
unfoldable pub masked : Outputs → (irq : ℕ) → ℕ
masked o irq = if ltb irq 8 then bit (latest o 0x21) irq else bit (latest o 0xA1) (irq - 8)

set_bit :
    (m j k : ℕ)
    → m < 256
    → j < 8
    → bit (bit_or m (2 ^ j) % 2 ^ 8) k ≡ (if k == j then 1 else bit m k)
set_bit m j k hm hj =
    let small = bit_or-lt 8 m (2 ^ j) hm (pow-lt-pow j 8 hj) in
    let whole : bit_or m (2 ^ j) % 2 ^ 8 ≡ bit_or m (2 ^ j) = omega (arith, small) in
    ap (λ z. bit z k) whole
    ∙ ground (arith, bit-bit_or m (2 ^ j) k, bit-pow_self j, bit-pow_ne j k, bit-le-one m k)

clear_bit :
    (m j k : ℕ)
    → m < 256
    → j < 8
    → k < 8
    → bit (bit_and m (2 ^ 32 - 1 - 2 ^ j) % 2 ^ 8) k ≡ (if k == j then 0 else bit m k)
clear_bit m j k hm hj hk =
    let mask = 2 ^ 32 - 1 - 2 ^ j in
    let small = bit_and-le m m mask (omega arith) in
    let whole : bit_and m mask % 2 ^ 8 ≡ bit_and m mask = omega (arith, small, hm) in
    ap (λ z. bit z k) whole
    ∙ ground (
      arith,
      bit-bit_and m mask k,
      bit-pow_self j,
      bit-complement 32 (2 ^ j) k (pow-lt-pow j 32 (omega arith)) (omega arith),
      bit-pow_ne j k,
      bit-le-one m k,
    )

-- `pic_unmask` takes the mask off a request and `pic_mask` puts it on, and no other of the 16 requests
-- changes, for controllers that give back the masks written to them, which are bytes.
pub pic_unmask-masked :
    (io_inb : Outputs → (port : ℕ) → ℕ) (o : Outputs) (irq k : ℕ)
    → KeepsMasks io_inb
    → latest o 0x21 < 256
    → latest o 0xA1 < 256
    → irq < 16
    → k < 16
    → (masked (pic_unmask io_inb o irq) k ≡ (if k == irq then 0 else masked o k))
      × (masked (pic_mask io_inb o irq) k ≡ (if k == irq then 1 else masked o k))
unfolding pic_unmask pic_mask pic_set_mask pic_get_mask masked latest
pic_unmask-masked io_inb o irq k keeps h1 h2 hi hk =
    let (first, second) = keeps o in
    elim (dec_lt irq 8) [
      | yes l ↦
          let c = clear_bit (latest o 0x21) irq k h1 l in
          let s = set_bit (latest o 0x21) irq k h1 l in
          rw (lt→ltb irq 8 l, first) (ground (arith, c, s), ground (arith, s))
      | no ge ↦
          let c = clear_bit (latest o 0xA1) (irq - 8) (k - 8) h2 (omega arith) (omega arith) in
          let s = set_bit (latest o 0xA1) (irq - 8) (k - 8) h2 (omega arith) in
          rw (le→not_ltb irq 8 (omega arith), second) (ground (arith, c), ground (arith, s))
    ]
