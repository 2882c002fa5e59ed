-- ===== src/Tests/Term.antt =====
-- The text terminal with the cursor in the third row, and a screen of four by three pixels.
use Prim.Native.Nat.{ℕ}
use hydrangea.Prelude.{ℕ, ◌≡◌, refl, List, [], ◌∷◌, arith, some, none, ◌==◌, if◌then◌else◌}
use hydrangea.Term.Vga.{VgaTerm, vga_term_putchar, tab_stop, vga_term_print}
use hydrangea.Term.Vesa.{Vesa}
use hydrangea.Term.Vga.Cursor.{selected, register}
use hydrangea.Term.Vga.Putchar.{Kept, vga_term_putchar-OnScreen}
use hydrangea.Term.Vga.Print.{Shown, vga_term_print-Shown}

abbrev terminal : VgaTerm
terminal = record { color = 0xF; row = 2; column = 5; frame_buffer = λ q. q; outputs = [] }

-- The display controller that answers with its registers.
abbrev controller : List (ℕ × ℕ) → (port : ℕ) → ℕ
controller outputs port = if port == 0x3D5 then register outputs (selected outputs) else 0

-- Three bytes of a string "Hi" at address 16.
abbrev greeting : ℕ → ℕ
greeting p = if p == 16 then 72 else if p == 17 then 105 else 0

-- A backspace twice in the first column leaves a column at which the loop for a tabulator passes every
-- stop and begins again.
stops_wrap : tab_stop 0xFFFF_FFFE 0xFFFF_FFFC 1 ≡ none
unfolding tab_stop
stops_wrap = refl

vga_term_putchar-OnScreen_example :
    (t' : VgaTerm) × (vga_term_putchar terminal 9 21 ≡ some t') × Kept terminal t'
vga_term_putchar-OnScreen_example =
    vga_term_putchar-OnScreen terminal 9 21 (omega arith, omega arith) (λ e. omega arith)
      (λ e. omega arith) (omega arith)

vga_term_print-Shown_example :
    (t' : VgaTerm) × (vga_term_print terminal greeting 16 3 ≡ some t')
    × Shown terminal (72 ∷ 105 ∷ []) t'
vga_term_print-Shown_example =
    vga_term_print-Shown terminal greeting 16 3 (72 ∷ 105 ∷ [])
      (refl, (λ e. omega (arith, e)), (refl, (λ e. omega (arith, e)), refl))
      (
        ((λ e. omega (arith, e)), (λ e. omega (arith, e)), (λ e. omega (arith, e))),
        (((λ e. omega (arith, e)), (λ e. omega (arith, e)), (λ e. omega (arith, e))), tt),
      )
      (omega arith) (omega arith) (omega arith)

abbrev screen : Vesa
screen = record { fb = λ p. 0; back_buffer = λ p. p; width = 4; height = 3; pitch = 16; bpp = 32 }
