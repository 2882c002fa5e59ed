-- ===== src/Mem/Pmm/Frames.antt =====
-- The frame bitmap of pmm.c as a set of frames: marking, clearing and testing one frame.
use hydrangea.Prelude.{ℕ, ◌-◌, ◌*◌, ◌/◌, ◌%◌, ◌^◌, ◌<◌, ◌≡◌, arith, ◌==◌, if◌then◌else◌}
use hydrangea.Prelude.Bits.{
  bit, bit-le-one, bit-bit_or, bit-bit_and, pow-lt-pow, bit-pow_self, bit-pow_ne, bit_and-pow,
  bit-complement, bit_or-lt, bit_and-le,
}
use hydrangea.Mem.Pmm.{Pmm, frame_of, frame_bmp_set, frame_bmp_reset, frame_bmp_test}

-- Every word of the bitmap has 32 bits.
abbrev pub Words : Pmm → Type 0
Words p = (i : ℕ) → p.bitmap i < 2 ^ 32

-- The bit of frame `f`: 1 if it is taken.
abbrev pub taken : Pmm → ℕ → ℕ
taken p f = bit (p.bitmap (f / 32)) (f % 32)

-- Marking a frame takes it and no other.
pub taken-frame_bmp_set :
    (p : Pmm) (addr f : ℕ)
    → taken (frame_bmp_set p addr) f ≡ (if f == frame_of addr then 1 else taken p f)
unfolding frame_bmp_set
taken-frame_bmp_set p addr f =
    let n = frame_of addr in
    let w = p.bitmap (n / 32) in
    ground (
      arith,
      bit-bit_or w (2 ^ (n % 32)) (f % 32),
      bit-pow_self (n % 32),
      bit-pow_ne (n % 32) (f % 32),
      bit-le-one w (f % 32),
    )

pub taken-frame_bmp_reset :
    (p : Pmm) (addr f : ℕ)
    → taken (frame_bmp_reset p addr) f ≡ (if f == frame_of addr then 0 else taken p f)
unfolding frame_bmp_reset
taken-frame_bmp_reset p addr f =
    let n = frame_of addr in
    let w = p.bitmap (n / 32) in
    let small = pow-lt-pow (n % 32) 32 (omega arith) in
    ground (
      arith,
      bit-bit_and w (2 ^ 32 - 1 - 2 ^ (n % 32)) (f % 32),
      bit-pow_self (n % 32),
      bit-complement 32 (2 ^ (n % 32)) (f % 32) small (omega arith),
      bit-pow_ne (n % 32) (f % 32),
      bit-le-one w (f % 32),
    )

pub frame_bmp_test_iff :
    (p : Pmm) (addr : ℕ)
    → frame_bmp_test p addr ≡ taken p (frame_of addr) * 2 ^ (frame_of addr % 32)
unfolding frame_bmp_test
frame_bmp_test_iff p addr = bit_and-pow (p.bitmap (frame_of addr / 32)) (frame_of addr % 32)

pub frame_bmp_set-Words : (p : Pmm) (addr : ℕ) → Words p → Words (frame_bmp_set p addr)
unfolding frame_bmp_set
frame_bmp_set-Words p addr w i =
    let n = frame_of addr in
    ground (
      arith,
      w i,
      w (n / 32),
      bit_or-lt 32 (p.bitmap (n / 32)) (2 ^ (n % 32)),
      pow-lt-pow (n % 32) 32,
    )

pub frame_bmp_reset-Words : (p : Pmm) (addr : ℕ) → Words p → Words (frame_bmp_reset p addr)
unfolding frame_bmp_reset
frame_bmp_reset-Words p addr w i =
    let n = frame_of addr in
    let old = p.bitmap (n / 32) in
    ground (arith, w i, w (n / 32), bit_and-le old old (2 ^ 32 - 1 - 2 ^ (n % 32)))
