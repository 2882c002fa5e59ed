-- ===== src/Term/Vga/Cursor.antt =====
-- The hardware cursor of the text mode: the two halves of its position go through the index and data
-- ports of the display controller.
use mathlib.Core.Path.{ap₂}
use Prim.Native.Nat.{bit_and, bit_or}
use hydrangea.Prelude.{
  ℕ, ◌+◌, ◌*◌, ◌/◌, ◌%◌, ◌^◌, ◌<◌, ◌≡◌, ap, ◌∙◌, arith, List, [], ◌∷◌, ◌==◌, ◌&&◌, if◌then◌else◌,
}
use hydrangea.Prelude.Bits.Fields.{bit_and-byte, bit_or-field, bit_or_comm}
use hydrangea.Prelude.Bits.{zero-bit_or}
use hydrangea.Term.Vga.{VgaTerm, io_outb, vga_term_cur_mov, vga_term_cur_pos}

-- The register that the last write to the index port selects.
unfoldable pub selected : List (ℕ × ℕ) → ℕ
selected [] = 0
selected ((port, value) ∷ outputs) =
    let rest = selected outputs in if port == 0x3D4 then value else rest

-- What the register `index` of the display controller holds: the last byte written to the data port
-- while it was selected.
unfoldable pub register : List (ℕ × ℕ) → (index : ℕ) → ℕ
register [] index = 0
register ((port, value) ∷ outputs) index =
    let rest = register outputs index in
    if port == 0x3D5 && selected outputs == index then value else rest

-- A display controller answers a read of its data port with the selected register.
abbrev pub IsController : (List (ℕ × ℕ) → (port : ℕ) → ℕ) → Type 0
IsController io_inb =
    (outputs : List (ℕ × ℕ)) → io_inb outputs 0x3D5 ≡ register outputs (selected outputs)

-- The position that `vga_term_cur_pos` reads back after `vga_term_cur_mov` is the cell of the screen
-- that the cursor was moved to, for a display controller that answers with the registers it was given.
pub vga_term_cur_pos-vga_term_cur_mov :
    (io_inb : List (ℕ × ℕ) → (port : ℕ) → ℕ) (t : VgaTerm) (x y : ℕ)
    → IsController io_inb
    → x < 80
    → y < 25
    → (vga_term_cur_pos io_inb (vga_term_cur_mov t x y)).0 ≡ x + 80 * y
unfolding vga_term_cur_pos vga_term_cur_mov io_outb register selected
vga_term_cur_pos-vga_term_cur_mov io_inb t x y answers hx hy =
    let index = (x + 80 * y) % 2 ^ 32 % 2 ^ 16 in
    let low : ℕ = bit_and index 0xFF in
    let high : ℕ = bit_and (index / 2 ^ 8) 0xFF in
    let moved = (0x3D5, high) ∷ (0x3D4, 0x0E) ∷ (0x3D5, low) ∷ (0x3D4, 0x0F) ∷ t.outputs in
    let asked = (0x3D4, 0x0F) ∷ moved in
    let first : bit_or 0 (io_inb asked 0x3D5) ≡ low =
      ap (λ b. bit_or 0 b) (answers asked) ∙ zero-bit_or low in
    let second : io_inb ((0x3D4, 0x0E) ∷ asked) 0x3D5 ≡ high = answers ((0x3D4, 0x0E) ∷ asked) in
    let lo = bit_and-byte index in
    let hi = bit_and-byte (index / 2 ^ 8) in
    let shifted : high * 2 ^ 8 % 2 ^ 16 ≡ high * 2 ^ 8 = omega arith in
    ap₂ (λ a b. bit_or a (b * 2 ^ 8 % 2 ^ 16)) first second
    ∙ ap (λ b. bit_or low b) shifted
    ∙ bit_or_comm low (high * 2 ^ 8)
    ∙ bit_or-field 8 high low (omega arith)
    ∙ omega arith
