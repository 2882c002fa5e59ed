-- ===== src/Term/Vga/Print.antt =====
-- Strings on one row of the text screen.
use hydrangea.Prelude.{
  ℕ, zero, suc, ◌+◌, ◌-◌, ◌*◌, ◌/◌, ◌%◌, ◌^◌, ◌<◌, ◌≡◌, ◌≢◌, refl, ap, ◌∙◌, arith, ltb, leb, ◌&&◌,
  if◌then◌else◌, some, ne→not_==, List, [], ◌∷◌, length, get_or, All,
}
use hydrangea.Libk.Bytes.{Memory}
use hydrangea.Libk.Str.Laws.{Holds}
use hydrangea.Term.Vga.{
  VgaTerm, vga_char, put_here, put_all, vga_term_putchar, vga_term_print, vga_term_putat,
  vga_term_cur_step, vga_term_cur_mov,
}
use hydrangea.Term.Vga.Putchar.{put_here_inside}

-- A character that is put into a cell: no new line, backspace or tabulator.
abbrev pub Plain : ℕ → Type 0
Plain c = (c ≢ 8) × (c ≢ 9) × (c ≢ 10)

putchar_on_row :
    (t : VgaTerm) (c fuel : ℕ) → Plain c → vga_term_putchar t c fuel ≡ some (put_here t c)
unfolding vga_term_putchar
putchar_on_row t c fuel (n8, n9, n10) =
    rw (ne→not_== c 10 n10, ne→not_== c 8 n8, ne→not_== c 9 n9) refl

-- The characters `xs` from the cursor of `t` on, in its colour, the cursor behind them, and nothing else.
abbrev pub Shown : (t : VgaTerm) → (xs : List ℕ) → (t' : VgaTerm) → Type 0
Shown t xs t' =
    ((q : ℕ)
      → t'.frame_buffer q ≡ (
          if leb (t.column + t.row * 80) q && ltb q (t.column + t.row * 80 + length xs)
          then vga_char (get_or xs (q - (t.column + t.row * 80)) 0) t.color
          else t.frame_buffer q))
    × (t'.row ≡ t.row)
    × (t'.column ≡ t.column + length xs)
    × (t'.color ≡ t.color)

Shown-empty : (t : VgaTerm) → Shown t [] t
Shown-empty t = (λ q. ground arith, refl, omega arith, refl)

get_or-cons :
    (x : ℕ) (xs : List ℕ) (q p : ℕ)
    → (q ≡ p → get_or (x ∷ xs) (q - p) 0 ≡ x)
      × (p < q → get_or (x ∷ xs) (q - p) 0 ≡ get_or xs (q - suc p) 0)
get_or-cons x xs q p = (
  λ e. ap (λ i. get_or (x ∷ xs) i 0) {x = q - p} {y = 0} (omega arith),
  λ l. ap (λ i. get_or (x ∷ xs) i 0) {x = q - p} {y = suc (q - suc p)} (omega arith),
)

Shown-cons :
    (t : VgaTerm) (x : ℕ) (xs : List ℕ) (t' : VgaTerm)
    → t.row < 25
    → t.column < 79
    → Shown (put_here t x) xs t'
    → Shown t (x ∷ xs) t'
unfolding vga_term_putat vga_term_cur_step vga_term_cur_mov
Shown-cons t x xs t' hr hc shown =
    let (cells, row, column, color) = rw (put_here_inside t x hc) at shown in
    (
      λ q.
          let start = t.column + t.row * 80 in
          let (here, later) = get_or-cons x xs q start in
          let place : t.column + 1 + t.row * 80 ≡ suc start = omega arith in
          let cell = rw place at (cells q) in ground (arith, cell, here, later),
      row,
      column ∙ omega arith,
      color,
    )

put_here_at :
    (t : VgaTerm) (x : ℕ)
    → t.column < 79
    → ((put_here t x).row ≡ t.row) × ((put_here t x).column ≡ t.column + 1)
unfolding vga_term_putat vga_term_cur_step vga_term_cur_mov
put_here_at t x h = rw (put_here_inside t x h) (refl, refl)

pub put_all-Shown :
    (t : VgaTerm) (xs : List ℕ) (fuel : ℕ)
    → t.row < 25
    → t.column + length xs < 80
    → All Plain xs
    → (t' : VgaTerm) × (put_all t xs fuel ≡ some t') × Shown t xs t'
unfolding put_all
put_all-Shown t [] fuel hr hc plain = (t, refl, Shown-empty t)
put_all-Shown t (x ∷ xs) fuel hr hc (px, plain) =
    let inside : t.column < 79 = omega (arith, hc) in
    let (row, column) = put_here_at t x inside in
    let (t', e, shown) =
      put_all-Shown (put_here t x) xs fuel (omega (arith, row)) (omega (arith, column, hc)) plain in
    (t', rw (putchar_on_row t x fuel px, put_all) e, Shown-cons t x xs t' hr inside shown)

-- `vga_term_print` shows a terminated string of characters other than new lines, backspaces and
-- tabulators, if it ends before the last column: its characters stand in the cells from the cursor on,
-- in the terminal's colour, the cursor stands behind them, and no other cell changes. A round for each
-- character and one more is enough.
pub vga_term_print-Shown :
    (t : VgaTerm) (m : Memory) (string fuel : ℕ) (xs : List ℕ)
    → Holds m string xs
    → All Plain xs
    → t.row < 25
    → t.column + length xs < 80
    → length xs < fuel
    → (t' : VgaTerm) × (vga_term_print t m string fuel ≡ some t') × Shown t xs t'
unfolding vga_term_print
vga_term_print-Shown t m p zero xs h plain hr hc f = absurd (omega (arith, f))
vga_term_print-Shown t m p (suc n) [] h plain hr hc f = (t, rw h refl, Shown-empty t)
vga_term_print-Shown t m p (suc n) (x ∷ xs) (e, ne, h) (px, plain) hr hc f =
    let inside : t.column < 79 = omega (arith, hc) in
    let (row, column) = put_here_at t x inside in
    let (t', done, shown) =
      vga_term_print-Shown (put_here t x) m (suc p) n xs h plain (omega (arith, row))
        (omega (arith, column, hc)) (omega arith) in
    (
      t',
      rw e (rw (ne→not_== x 0 ne, putchar_on_row t x (suc n) px) done),
      Shown-cons t x xs t' hr inside shown,
    )

-- The `n` lowest digits of `x` to the base 16, the highest first.
unfoldable pub base_16 : (n x : ℕ) → List ℕ
base_16 zero x = []
base_16 (suc n) x = x / 16 ^ n % 16 ∷ base_16 n x
