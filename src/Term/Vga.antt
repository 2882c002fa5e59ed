-- ===== src/Term/Vga.antt =====
-- kernel/vga/vga.c and kernel/term/vga/vga_term.c: the text terminal of 80 by 25 cells. `frame_buffer k`
-- is the 16-bit word `vga_term_frame_buffer[k]`; the screen is its first 2000 cells, and no index is
-- checked. `size_t` has 32 bits. A loop that has used up its fuel is `none`.
pub mod Cursor
pub mod Hex
pub mod Print
pub mod Putchar
pub mod Scroll
use Prim.Native.Nat.{bit_and, bit_or}
use hydrangea.Prelude.{
  ℕ, zero, suc, ◌+◌, ◌-◌, ◌*◌, ◌/◌, ◌%◌, ◌^◌, Option, none, some, List, [], ◌∷◌, ltb, ◌==◌,
  if◌then◌else◌, update,
}
use hydrangea.Libk.Bytes.{Memory}

abbrev pub vga_width : ℕ
vga_width = 80

abbrev pub vga_height : ℕ
vga_height = 25

-- `vga_color`
abbrev pub vga_black : ℕ
vga_black = 0x0

abbrev pub vga_white : ℕ
vga_white = 0xF

-- `vga_color_byte`
unfoldable pub vga_color_byte : (fg bg : ℕ) → ℕ
vga_color_byte fg bg = bit_or (bg * 2 ^ 4) fg % 2 ^ 8

-- `vga_char`
unfoldable pub vga_char : (c color : ℕ) → ℕ
vga_char c color = bit_or (color % 2 ^ 8 * 2 ^ 8) (c % 2 ^ 8)

-- `c_vga_term_state`, the video memory, and the bytes written to ports, the newest first
pub record VgaTerm : Type 0 where
  pub color : ℕ
  pub row : ℕ
  pub column : ℕ
  pub frame_buffer : ℕ → ℕ
  pub outputs : List (ℕ × ℕ)

-- `io_outb`
unfoldable pub io_outb : VgaTerm → (port value : ℕ) → VgaTerm
io_outb t port value = record t { outputs = (port, value) ∷ t.outputs }

unfoldable pub vga_term_use_color : VgaTerm → (fg bg : ℕ) → VgaTerm
vga_term_use_color t fg bg = record t { color = vga_color_byte fg bg }

-- The cases of `vga_term_use_vesa_color`: a colour of nice_colors.h, and the foreground it stands for.
abbrev pub palette : List (ℕ × ℕ)
palette =
    (0x1d2342, 0xF)
    ∷ (0x0A050F, 0x0)
    ∷ (0x686868, 0x0)
    ∷ (0x101116, 0x0)
    ∷ (0xff6e67, 0x4)
    ∷ (0xff5680, 0xC)
    ∷ (0x5ffa68, 0x2)
    ∷ (0x00ff9c, 0xA)
    ∷ (0xfffc67, 0x6)
    ∷ (0xfffc58, 0xE)
    ∷ (0x6871ff, 0x1)
    ∷ (0x00b0ff, 0x9)
    ∷ (0xd682ec, 0x5)
    ∷ (0xd57bff, 0xD)
    ∷ (0x60fdff, 0x3)
    ∷ (0x76c1ff, 0xB)
    ∷ (0xffffff, 0x8)
    ∷ (0xc7c7c7, 0xF)
    ∷ []

-- The choice of a case; no case, no change.
unfoldable pub use_case : VgaTerm → (color : ℕ) → List (ℕ × ℕ) → VgaTerm
use_case t color [] = t
use_case t color ((nice, fg) ∷ cases) =
    let rest = use_case t color cases in
    if color == nice then vga_term_use_color t fg vga_black else rest

unfoldable pub vga_term_use_vesa_color : VgaTerm → (color : ℕ) → VgaTerm
vga_term_use_vesa_color t color = use_case t color palette

unfoldable pub vga_term_cur_mov : VgaTerm → (x y : ℕ) → VgaTerm
unfolding io_outb
vga_term_cur_mov t x y =
    let index = (x + vga_width * y) % 2 ^ 32 % 2 ^ 16 in
    let t = io_outb t 0x3D4 0x0F in
    let t = io_outb t 0x3D5 (bit_and index 0xFF) in
    let t = io_outb t 0x3D4 0x0E in
    let t = io_outb t 0x3D5 (bit_and (index / 2 ^ 8) 0xFF) in record t { row = y; column = x }

-- `vga_term_cur_pos`; `io_inb` answers from what has been written to the ports, and gives bytes.
unfoldable pub vga_term_cur_pos : (io_inb : List (ℕ × ℕ) → (port : ℕ) → ℕ) → VgaTerm → ℕ × VgaTerm
unfolding io_outb
vga_term_cur_pos io_inb t =
    let t = io_outb t 0x3D4 0x0F in
    let low = bit_or 0x0 (io_inb t.outputs 0x3D5) in
    let t = io_outb t 0x3D4 0x0E in (bit_or low (io_inb t.outputs 0x3D5 * 2 ^ 8 % 2 ^ 16), t)

unfoldable pub vga_term_cur_step : VgaTerm → VgaTerm
vga_term_cur_step t = vga_term_cur_mov t t.column t.row

-- The inner loop of `vga_term_scroll` in row `i` from column `j` on, with `n` rounds to go.
unfoldable pub scroll_row : (ℕ → ℕ) → (i j n : ℕ) → ℕ → ℕ
scroll_row fb i j zero = fb
scroll_row fb i j (suc n) =
    scroll_row (update fb (i * vga_width + j) (fb ((i + 1) * vga_width + j))) i (suc j) n

-- The outer loop from row `i` on.
unfoldable pub scroll_rows : (ℕ → ℕ) → (i n : ℕ) → ℕ → ℕ
scroll_rows fb i zero = fb
scroll_rows fb i (suc n) = scroll_rows (scroll_row fb i 0 vga_width) (suc i) n

unfoldable pub vga_term_scroll : VgaTerm → VgaTerm
vga_term_scroll t = record t { frame_buffer = scroll_rows t.frame_buffer 0 vga_height }

-- The loop of `vga_term_clear`
unfoldable pub scroll_times : VgaTerm → (n : ℕ) → VgaTerm
scroll_times t zero = t
scroll_times t (suc n) = scroll_times (vga_term_scroll t) n

unfoldable pub vga_term_clear : VgaTerm → VgaTerm
vga_term_clear t = vga_term_cur_mov (scroll_times t vga_height) 0 0

-- The loop of `vga_term_init` from `k` on.
unfoldable pub fill_blank : (ℕ → ℕ) → (color k n : ℕ) → ℕ → ℕ
fill_blank fb color k zero = fb
fill_blank fb color k (suc n) = fill_blank (update fb k (vga_char 32 color)) color (suc k) n

-- `vga_term_init`; `frame_buffer` is the memory at 0xB8000.
unfoldable pub vga_term_init : VgaTerm → VgaTerm
vga_term_init t =
    let t = vga_term_use_color (record t { row = 0; column = 0 }) vga_white vga_black in
    let t = vga_term_cur_mov t 0 0 in
    record t { frame_buffer = fill_blank t.frame_buffer t.color 0 (vga_width * vga_height) }

unfoldable pub vga_term_putat : VgaTerm → (c x y : ℕ) → VgaTerm
vga_term_putat t c x y = vga_term_cur_step (record t {
  frame_buffer = update t.frame_buffer ((x + y * vga_width) % 2 ^ 32) (vga_char c t.color);
})

-- The loops of `vga_term_fill`
unfoldable pub fill_row : VgaTerm → (i j n : ℕ) → VgaTerm
fill_row t i j zero = t
fill_row t i j (suc n) = fill_row (vga_term_putat t 32 j i) i (suc j) n

unfoldable pub fill_rows : VgaTerm → (i n : ℕ) → VgaTerm
fill_rows t i zero = t
fill_rows t i (suc n) = fill_rows (fill_row t i 0 vga_width) (suc i) n

unfoldable pub vga_term_fill : VgaTerm → (color : ℕ) → VgaTerm
vga_term_fill t color =
    vga_term_use_color (fill_rows (vga_term_use_color t color color) 0 vga_height) vga_white
      vga_black

-- The beginning of a line in `vga_term_putchar`, which scrolls at the end of the screen.
unfoldable pub next_row : VgaTerm → VgaTerm
next_row t =
    let row = (t.row + 1) % 2 ^ 32 in
    let t = record t { row = row; column = 0 } in
    if row == vga_height then vga_term_scroll (record t { row = row - 1 }) else t

-- The loop for a tabulator
unfoldable pub tab_stop : (column i fuel : ℕ) → Option ℕ
tab_stop column i zero = none
tab_stop column i (suc n) =
    let rest = tab_stop column ((i + 4) % 2 ^ 32) n in
    if ltb i ((column + 1) % 2 ^ 32) then rest else some i

-- The last branch of `vga_term_putchar`
unfoldable pub put_here : VgaTerm → (c : ℕ) → VgaTerm
put_here t c =
    let t = if (t.column + 1) % 2 ^ 32 == vga_width then next_row t else t in
    vga_term_putat (record t { column = (t.column + 1) % 2 ^ 32 }) c t.column t.row

-- The branch for a backspace
unfoldable pub rub_out : VgaTerm → VgaTerm
rub_out t =
    let t = vga_term_cur_step (record t { column = (t.column + 2 ^ 32 - 1) % 2 ^ 32 }) in
    vga_term_putat t 32 t.column t.row

unfoldable pub vga_term_putchar : VgaTerm → (c fuel : ℕ) → Option VgaTerm
vga_term_putchar t c fuel =
    if c == 10
    then some (vga_term_cur_step (next_row t))
    else if c == 8
    then some (rub_out t)
    else if c == 9
    then elim (tab_stop t.column 0 fuel) [
      | none ↦ none
      | some i ↦ some (vga_term_cur_step (record t { column = i }))
    ]
    else some (put_here t c)

-- `vga_term_print`
unfoldable pub vga_term_print : VgaTerm → Memory → (string fuel : ℕ) → Option VgaTerm
vga_term_print t m p zero = none
vga_term_print t m p (suc n) =
    if m p == 0 then some t else elim (vga_term_putchar t (m p) (suc n)) [
      | none ↦ none
      | some t' ↦ vga_term_print t' m (suc p) n
    ]

-- The digits `n` of `vga_term_print_hex`
unfoldable pub hex_digit : ℕ → ℕ
hex_digit d = if ltb d 10 then 48 + d else 55 + d

-- Characters that `vga_term_putchar` takes one after the other.
unfoldable pub put_all : VgaTerm → List ℕ → (fuel : ℕ) → Option VgaTerm
put_all t [] fuel = some t
put_all t (c ∷ cs) fuel = elim (vga_term_putchar t c fuel) [
  | none ↦ none
  | some t' ↦ put_all t' cs fuel
]

-- `vga_term_print_hex`
unfoldable pub vga_term_print_hex : VgaTerm → (x fuel : ℕ) → Option VgaTerm
vga_term_print_hex t x fuel =
    put_all t
      (48
        ∷ 120
        ∷ hex_digit (bit_and x 0xF000_0000 / 2 ^ 28)
        ∷ hex_digit (bit_and x 0x0F00_0000 / 2 ^ 24)
        ∷ hex_digit (bit_and x 0x00F0_0000 / 2 ^ 20)
        ∷ hex_digit (bit_and x 0x000F_0000 / 2 ^ 16)
        ∷ hex_digit (bit_and x 0x0000_F000 / 2 ^ 12)
        ∷ hex_digit (bit_and x 0x0000_0F00 / 2 ^ 8)
        ∷ hex_digit (bit_and x 0x0000_00F0 / 2 ^ 4)
        ∷ hex_digit (bit_and x 0x0000_000F)
        ∷ [])
      fuel
