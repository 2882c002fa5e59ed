-- ===== src/Cpu/Tables/Segments.antt =====
-- What the processor reads from a segment's descriptor.
use Prim.Native.Nat.{bit_and, bit_or}
use hydrangea.Prelude.{ℕ, ◌+◌, ◌-◌, ◌*◌, ◌/◌, ◌%◌, ◌^◌, ◌<◌, ◌≡◌, refl, ap, ◌∙◌, arith, eq→==}
use hydrangea.Prelude.Bits.Fields.{bit_and-low, bit_and-high, bit_or-field, bit_or_comm}
use hydrangea.Cpu.Tables.{SegmentEntry, gdt_set_entry}

-- The base and the limit that an entry stands for, and its upper four flags.
abbrev pub base_of : SegmentEntry → ℕ
base_of e = e.base_hi * 2 ^ 24 + e.base_mid * 2 ^ 16 + e.base_lo

abbrev pub limit_of : SegmentEntry → ℕ
limit_of e = e.lim_hi_and_flags % 16 * 2 ^ 16 + e.limit_lo

abbrev pub flags_of : SegmentEntry → ℕ
flags_of e = e.lim_hi_and_flags / 16

-- A mask of `n` bits above the lowest `k`.
field :
    (k n x : ℕ) (q r : ℕ)
    → x ≡ q * 2 ^ k + r
    → r < 2 ^ k
    → (q' r' : ℕ) → q ≡ q' * 2 ^ n + r'
    → r' < 2 ^ n
    → bit_and x ((2 ^ n - 1) * 2 ^ k) ≡ r' * 2 ^ k
field k n x q r e h q' r' e' h' =
    ap (λ z. bit_and z ((2 ^ n - 1) * 2 ^ k)) e
    ∙ bit_and-high k q r (2 ^ n - 1) h
    ∙ ap (λ z. bit_and z (2 ^ n - 1) * 2 ^ k) e'
    ∙ ap (λ z. z * 2 ^ k) (bit_and-low n q' r' h')

-- `gdt_set_entry` encodes a segment: the entry's base is the 32-bit base given, its limit the lowest 20
-- bits of the limit, its flags the upper half of the flags, and its rights the rights.
pub gdt_set_entry_lem :
    (entries : ℕ → SegmentEntry) (index base limit rights flags : ℕ)
    → base < 2 ^ 32
    → limit < 2 ^ 32
    → flags < 2 ^ 8
    → let e = gdt_set_entry entries index base limit rights flags index in
      (base_of e ≡ base)
      × (limit_of e ≡ limit % 2 ^ 20)
      × (flags_of e ≡ flags / 16)
      × (e.rights ≡ rights)
unfolding gdt_set_entry
gdt_set_entry_lem entries index base limit rights flags hb hl hf =
    let low =
      field 0 16 base base 0 (omega arith) (omega arith) (base / 2 ^ 16) (base % 2 ^ 16)
        (omega arith) (omega arith) in
    let mid =
      field 16 8 base (base / 2 ^ 16) (base % 2 ^ 16) (omega arith) (omega arith) (base / 2 ^ 24)
        (base / 2 ^ 16 % 2 ^ 8) (omega arith) (omega arith) in
    let high =
      field 24 8 base (base / 2 ^ 24) (base % 2 ^ 24) (omega arith) (omega arith) 0 (base / 2 ^ 24)
        (omega arith) (omega arith) in
    let limit_low =
      field 0 16 limit limit 0 (omega arith) (omega arith) (limit / 2 ^ 16) (limit % 2 ^ 16)
        (omega arith) (omega arith) in
    let limit_high =
      field 16 16 limit (limit / 2 ^ 16) (limit % 2 ^ 16) (omega arith) (omega arith) 0
        (limit / 2 ^ 16) (omega arith) (omega arith) in
    let part = bit_and limit 0xFFFF_0000 / 2 ^ 16 in
    let nibble =
      field 0 4 part part 0 (omega arith) (omega arith) (part / 16) (part % 16) (omega arith)
        (omega arith) in
    let flag =
      field 4 4 flags (flags / 16) (flags % 16) (omega arith) (omega arith) 0 (flags / 16)
        (omega arith) (omega arith) in
    let or : bit_or (bit_and part 0x0F) (bit_and flags 0xF0) ≡ flags / 16 * 16 + part % 16 =
      bit_or_comm (bit_and part 0x0F) (bit_and flags 0xF0)
      ∙ ap (λ z. bit_or z (bit_and part 0x0F)) flag
      ∙ bit_or-field 4 (flags / 16) (bit_and part 0x0F) (omega (arith, nibble))
      ∙ omega (arith, nibble) in
    rw (eq→== index index refl) (
      omega (arith, low, mid, high),
      omega (arith, or, limit_low, limit_high),
      omega (arith, or),
      refl,
    )
