-- ===== src/Term/Vga/Hex.antt =====
-- The number that `vga_term_print_hex` shows.
use Prim.Native.Nat.{bit_and}
use hydrangea.Prelude.{
  ℕ, zero, suc, ◌+◌, ◌*◌, ◌/◌, ◌%◌, ◌^◌, ◌≤◌, ◌<◌, ◌≡◌, refl, ap, ◌∙◌, arith, some, ◌∷◌, length,
  map, All,
}
use hydrangea.Prelude.Bits.Fields.{bit_and-low, bit_and-high}
use hydrangea.Term.Vga.{VgaTerm, hex_digit, put_all, vga_term_print_hex}
use hydrangea.Term.Vga.Print.{Plain, Shown, put_all-Shown, base_16}

-- One digit: the mask 15 << s takes four bits of a word.
digit : (x : ℕ) → bit_and x 15 ≡ x % 16
digit x =
    let e : x ≡ x / 16 * 2 ^ 4 + x % 16 = omega arith in
    ap (λ z. bit_and z 15) e ∙ bit_and-low 4 (x / 16) (x % 16) (omega arith)

nibble : (s q r x : ℕ) → x ≡ q * 2 ^ s + r → r < 2 ^ s → bit_and x (15 * 2 ^ s) ≡ q % 16 * 2 ^ s
nibble s q r x e h =
    ap (λ z. bit_and z (15 * 2 ^ s)) e ∙ bit_and-high s q r 15 h ∙ ap (λ z. z * 2 ^ s) (digit q)

-- `vga_term_print_hex` puts "0x" and the eight digits of `x` to the base 16.
print_hex_digits :
    (t : VgaTerm) (x fuel : ℕ)
    → x < 2 ^ 32
    → vga_term_print_hex t x fuel ≡ put_all t (48 ∷ 120 ∷ map hex_digit (base_16 8 x)) fuel
unfolding vga_term_print_hex base_16
print_hex_digits t x fuel h =
    let d7 : bit_and x 0xF000_0000 / 2 ^ 28 ≡ x / 2 ^ 28 % 16 =
      omega (arith, nibble 28 (x / 2 ^ 28) (x % 2 ^ 28) x (omega arith) (omega arith)) in
    let d6 : bit_and x 0x0F00_0000 / 2 ^ 24 ≡ x / 2 ^ 24 % 16 =
      omega (arith, nibble 24 (x / 2 ^ 24) (x % 2 ^ 24) x (omega arith) (omega arith)) in
    let d5 : bit_and x 0x00F0_0000 / 2 ^ 20 ≡ x / 2 ^ 20 % 16 =
      omega (arith, nibble 20 (x / 2 ^ 20) (x % 2 ^ 20) x (omega arith) (omega arith)) in
    let d4 : bit_and x 0x000F_0000 / 2 ^ 16 ≡ x / 2 ^ 16 % 16 =
      omega (arith, nibble 16 (x / 2 ^ 16) (x % 2 ^ 16) x (omega arith) (omega arith)) in
    let d3 : bit_and x 0x0000_F000 / 2 ^ 12 ≡ x / 2 ^ 12 % 16 =
      omega (arith, nibble 12 (x / 2 ^ 12) (x % 2 ^ 12) x (omega arith) (omega arith)) in
    let d2 : bit_and x 0x0000_0F00 / 2 ^ 8 ≡ x / 2 ^ 8 % 16 =
      omega (arith, nibble 8 (x / 2 ^ 8) (x % 2 ^ 8) x (omega arith) (omega arith)) in
    let d1 : bit_and x 0x0000_00F0 / 2 ^ 4 ≡ x / 2 ^ 4 % 16 =
      omega (arith, nibble 4 (x / 2 ^ 4) (x % 2 ^ 4) x (omega arith) (omega arith)) in
    let d0 : bit_and x 0xF ≡ x / 1 % 16 = digit x ∙ omega arith in
    rw (d7, d6, d5, d4, d3, d2, d1, d0) refl

Plain-hex_digit : (d : ℕ) → Plain (hex_digit d)
unfolding hex_digit
Plain-hex_digit d =
    let high : 48 ≤ hex_digit d = ground arith in
    ((λ e. omega (arith, e, high)), (λ e. omega (arith, e, high)), (λ e. omega (arith, e, high)))

All-base_16 : (n x : ℕ) → All Plain (map hex_digit (base_16 n x))
unfolding base_16
All-base_16 zero x = tt
All-base_16 (suc n) x = (Plain-hex_digit (x / 16 ^ n % 16), All-base_16 n x)

length-digits : (n x : ℕ) → length (map hex_digit (base_16 n x)) ≡ n
unfolding base_16
length-digits zero x = refl
length-digits (suc n) x = ap suc (length-digits n x)

-- `vga_term_print_hex` of a 32-bit word shows "0x" and the word's eight digits to the base 16, the
-- highest first, from the cursor on, where the row has room for them before its last column.
pub vga_term_print_hex-Shown :
    (t : VgaTerm) (x fuel : ℕ)
    → x < 2 ^ 32
    → t.row < 25
    → t.column + 10 < 80
    → (t' : VgaTerm) × (vga_term_print_hex t x fuel ≡ some t')
      × Shown t (48 ∷ 120 ∷ map hex_digit (base_16 8 x)) t'
vga_term_print_hex-Shown t x fuel h hr hc =
    let plain : (c : ℕ) → 47 < c → Plain c = λ c high. (
      (λ e. omega (arith, e, high)),
      (λ e. omega (arith, e, high)),
      (λ e. omega (arith, e, high)),
    ) in
    rw (print_hex_digits t x fuel h) (
      put_all-Shown t (48 ∷ 120 ∷ map hex_digit (base_16 8 x)) fuel hr
        (omega (arith, length-digits 8 x))
        (plain 48 (omega arith), (plain 120 (omega arith), All-base_16 8 x)))
