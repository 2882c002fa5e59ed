-- ===== src/Drivers/Pci/Address.antt =====
-- The addresses of the configuration space.
use Prim.Native.Nat.{bit_and, bit_or}
use hydrangea.Prelude.{
  ℕ, zero, suc, ◌+◌, ◌*◌, ◌/◌, ◌%◌, ◌^◌, ◌<◌, ◌≡◌, ap, ◌∙◌, arith, ltb, if◌then◌else◌,
}
use hydrangea.Prelude.Bits.Fields.{bit_or-field, bit_or-high, bit_and-high, bit_and-low}
use hydrangea.Drivers.Pci.{bus_32, config_address}

bus_32_lem :
    (bus : ℕ)
    → bus < 256
    → bus_32 bus * 2 ^ 16 % 2 ^ 32 ≡ (if ltb bus 128 then bus else bus + 0xFF00) * 2 ^ 16
unfolding bus_32
bus_32_lem bus h = let whole : bus % 2 ^ 8 ≡ bus = omega (arith, h) in rw whole (ground (arith, h))

-- An offset that is a multiple of 4 keeps its value under the mask.
aligned : (word : ℕ) → word < 64 → bit_and (word * 4 % 2 ^ 8) 0xFC ≡ word * 4
aligned word h =
    let shape : word * 4 % 2 ^ 8 ≡ word * 2 ^ 2 + 0 = omega (arith, h) in
    let all : word ≡ 0 * 2 ^ 6 + word = omega arith in
    ap (λ z. bit_and z 0xFC) shape
    ∙ bit_and-high 2 word 0 0x3F (omega arith)
    ∙ ap (λ z. z * 2 ^ 2) (ap (λ z. bit_and z 0x3F) all ∙ bit_and-low 6 0 word h)
    ∙ omega arith

-- The parts next to one another
fields :
    (b slot function offset : ℕ)
    → slot < 32
    → function < 8
    → offset < 256
    → bit_or (bit_or (bit_or (b * 2 ^ 16) (slot * 2 ^ 11)) (function * 2 ^ 8)) offset
      ≡ b * 2 ^ 16 + slot * 2 ^ 11 + function * 2 ^ 8 + offset
fields b slot function offset s f o =
    let one : bit_or (b * 2 ^ 16) (slot * 2 ^ 11) ≡ (b * 32 + slot) * 2 ^ 11 =
      bit_or-field 16 b (slot * 2 ^ 11) (omega (arith, s)) ∙ omega arith in
    let two : bit_or ((b * 32 + slot) * 2 ^ 11) (function * 2 ^ 8)
        ≡ ((b * 32 + slot) * 8 + function) * 2 ^ 8 =
      bit_or-field 11 (b * 32 + slot) (function * 2 ^ 8) (omega (arith, f)) ∙ omega arith in
    let three = bit_or-field 8 ((b * 32 + slot) * 8 + function) offset o in
    rw one (rw two (three ∙ omega arith))

enabled : (q r : ℕ) → q < 2 → r < 2 ^ 31 → bit_or (q * 2 ^ 31 + r) 0x8000_0000 ≡ 2 ^ 31 + r
enabled zero r h l = bit_or-high 31 0 r 1 l
enabled (suc zero) r h l = bit_or-high 31 1 r 1 l
enabled (suc (suc q)) r h l = absurd (omega (arith, h))

-- The address that is written for an aligned register is the enable bit and the bus, slot, function and
-- offset in their fields for the buses below 128. For the other half of the buses the seven bits between
-- the enable bit and the bus, which are reserved, are set, too.
pub config_address_lem :
    (bus slot function word : ℕ)
    → bus < 256
    → slot < 32
    → function < 8
    → word < 64
    → config_address bus slot function (word * 4)
      ≡ (if ltb bus 128 then 0x8000_0000 else 0xFF00_0000)
        + (bus * 2 ^ 16 + slot * 2 ^ 11 + function * 2 ^ 8 + word * 4)
unfolding config_address
config_address_lem bus slot function word b s f w =
    let high = if ltb bus 128 then bus else bus + 0xFF00 in
    let sum = high * 2 ^ 16 + slot * 2 ^ 11 + function * 2 ^ 8 + word * 4 in
    let start = bus_32_lem bus b in
    let slot' : slot % 2 ^ 8 ≡ slot = omega (arith, s) in
    let function' : function % 2 ^ 8 ≡ function = omega (arith, f) in
    let parts = fields high slot function (word * 4) s f (omega (arith, w)) in
    let small : high < 2 ^ 16 = ground (arith, b) in
    let split : sum ≡ sum / 2 ^ 31 * 2 ^ 31 + sum % 2 ^ 31 = omega arith in
    let end = enabled (sum / 2 ^ 31) (sum % 2 ^ 31) (omega (arith, small, s, f, w)) (omega arith) in
    rw start (
      rw (slot', function', aligned word w)
        (rw parts (ap (λ z. bit_or z 0x8000_0000) split ∙ end ∙ ground (arith, b, s, f, w))))
