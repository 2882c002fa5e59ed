-- ===== src/Term/Vga/Putchar.antt =====
-- One character on the text screen: the bounds of the cursor and of the cells that are written.
use native.Mathlib.Decide.{ℕ_discrete}
use hydrangea.Prelude.{
  ℕ, zero, suc, ◌+◌, ◌*◌, ◌/◌, ◌%◌, ◌^◌, ◌≤◌, ◌<◌, ◌≡◌, refl, ap, ◌∙◌, arith, some, lt→ltb,
  le→not_ltb, ne→not_==,
}
use hydrangea.Term.Vga.{
  VgaTerm, tab_stop, next_row, put_here, rub_out, vga_term_putchar, vga_term_scroll, vga_term_putat,
  vga_term_cur_step, vga_term_cur_mov,
}
use hydrangea.Term.Vga.Scroll.{vga_term_scroll_lem}

-- The cursor is on the screen.
abbrev pub OnScreen : VgaTerm → Type 0
OnScreen t = (t.row < 25) × (t.column < 80)

-- Nothing off the screen has been written.
abbrev pub SameOutside : (t t' : VgaTerm) → Type 0
SameOutside t t' = (q : ℕ) → 2000 ≤ q → t'.frame_buffer q ≡ t.frame_buffer q

tab_stop_from :
    (column k rest fuel : ℕ)
    → column < 2 ^ 31
    → k + rest ≡ column / 4 + 1
    → rest < fuel
    → tab_stop column (k * 4) fuel ≡ some ((column / 4 + 1) * 4)
unfolding tab_stop
tab_stop_from column k rest zero h e f = absurd (omega arith)
tab_stop_from column k zero (suc n) h e f =
    let stop = le→not_ltb (k * 4) ((column + 1) % 2 ^ 32) (omega arith) in
    rw stop (ap some {x = k * 4} {y = (column / 4 + 1) * 4} (omega arith))
tab_stop_from column k (suc rest) (suc n) h e f =
    let go = lt→ltb (k * 4) ((column + 1) % 2 ^ 32) (omega arith) in
    let next : (k * 4 + 4) % 2 ^ 32 ≡ suc k * 4 = omega arith in
    rw (go, next) (tab_stop_from column (suc k) rest n h (omega arith) (omega arith))

-- The loop for a tabulator ends, after a round for each stop passed and two more, at the next column
-- that is a multiple of 4, as long as the column is below 2^31.
pub tab_stop_lem :
    (column fuel : ℕ)
    → column < 2 ^ 31
    → column / 4 + 1 < fuel
    → tab_stop column 0 fuel ≡ some ((column / 4 + 1) * 4)
tab_stop_lem column fuel h f = tab_stop_from column 0 (column / 4 + 1) fuel h (omega arith) f

-- A new line at the end of the screen scrolls, and elsewhere goes down by one row.
next_row_end :
    (t : VgaTerm) → t.row ≡ 24 → next_row t ≡ vga_term_scroll (record t { row = 24; column = 0 })
unfolding next_row
next_row_end t e = rw e refl

next_row_inside : (t : VgaTerm) → t.row < 24 → next_row t ≡ record t { row = t.row + 1; column = 0 }
unfolding next_row
next_row_inside t h =
    let whole : (t.row + 1) % 2 ^ 32 ≡ t.row + 1 = omega arith in
    let inside = ne→not_== (t.row + 1) 25 (λ e. omega (arith, e, h)) in rw (whole, inside) refl

next_row_lem :
    (t : VgaTerm)
    → t.row < 25
    → (next_row t).column ≡ 0 × (next_row t).row < 25 × SameOutside t (next_row t)
unfolding vga_term_scroll
next_row_lem t h = elim (ℕ_discrete t.row 24) [
  | yes e ↦ rw (next_row_end t e) (
    refl,
    omega arith,
    λ q out. ground (arith, vga_term_scroll_lem (record t { row = 24; column = 0 }) q),
  )
  | no ne ↦ rw (next_row_inside t (omega arith)) (refl, omega arith, λ q out. refl)
]

-- What every character does on the screen.
abbrev pub Kept : (t t' : VgaTerm) → Type 0
Kept t t' = OnScreen t' × SameOutside t t'

line_feed_Kept : (t : VgaTerm) → OnScreen t → Kept t (vga_term_cur_step (next_row t))
unfolding vga_term_cur_step vga_term_cur_mov
line_feed_Kept t (hr, hc) =
    let (column, row, same) = next_row_lem t hr in ((row, omega arith), same)

rub_out-Kept : (t : VgaTerm) → OnScreen t → 0 < t.column → Kept t (rub_out t)
unfolding rub_out vga_term_putat vga_term_cur_step vga_term_cur_mov
rub_out-Kept t (hr, hc) some_left = ((hr, omega arith), λ q out. ground arith)

pub put_here_inside :
    (t : VgaTerm) (c : ℕ)
    → t.column < 79
    → put_here t c ≡ vga_term_putat (record t { column = t.column + 1 }) c t.column t.row
unfolding put_here
put_here_inside t c h =
    let whole : (t.column + 1) % 2 ^ 32 ≡ t.column + 1 = omega arith in
    let inside = ne→not_== ((t.column + 1) % 2 ^ 32) 80 (λ e. omega (arith, e, h)) in
    rw inside (rw whole refl)

put_here_edge :
    (t : VgaTerm) (c : ℕ)
    → t.column ≡ 79
    → (next_row t).column ≡ 0
    → put_here t c ≡ vga_term_putat (record (next_row t) { column = 1 }) c 0 (next_row t).row
unfolding put_here vga_term_putat vga_term_cur_step vga_term_cur_mov next_row
put_here_edge t c e start = rw (e, start) refl

putat_Kept :
    (t : VgaTerm) (c x y : ℕ) → OnScreen t → x < 80 → y < 25 → Kept t (vga_term_putat t c x y)
unfolding vga_term_putat vga_term_cur_step vga_term_cur_mov
putat_Kept t c x y on hx hy = (on, λ q out. ground arith)

put_here-Kept : (t : VgaTerm) (c : ℕ) → OnScreen t → Kept t (put_here t c)
put_here-Kept t c (hr, hc) = elim (ℕ_discrete t.column 79) [
  | yes e ↦
      let (column, row, same) = next_row_lem t hr in
      let (on, same') =
        putat_Kept (record (next_row t) { column = 1 }) c 0 (next_row t).row (row, omega arith)
          (omega arith) row in
      rw (put_here_edge t c e column) (on, λ q out. same' q out ∙ same q out)
  | no ne ↦
      rw (put_here_inside t c (omega arith))
        (putat_Kept (record t { column = t.column + 1 }) c t.column t.row (hr, omega arith) hc hr)
]

-- With the cursor on the screen, a character leaves it on the screen and writes no cell off the screen,
-- if it is no backspace in the first column and no tabulator in the last four; 21 rounds are enough.
pub vga_term_putchar-OnScreen :
    (t : VgaTerm) (c fuel : ℕ)
    → OnScreen t
    → (c ≡ 8 → 0 < t.column)
    → (c ≡ 9 → t.column < 76)
    → 20 < fuel
    → (t' : VgaTerm) × (vga_term_putchar t c fuel ≡ some t') × Kept t t'
unfolding vga_term_putchar vga_term_cur_step vga_term_cur_mov
vga_term_putchar-OnScreen t c fuel on back tab f = elim (ℕ_discrete c 10) [
  | yes e ↦ (vga_term_cur_step (next_row t), rw e refl, line_feed_Kept t on)
  | no nl ↦ elim (ℕ_discrete c 8) [
    | yes e ↦ (rub_out t, rw e refl, rub_out-Kept t on (back e))
    | no nb ↦ elim (ℕ_discrete c 9) [
      | yes e ↦
          let stop = tab_stop_lem t.column fuel (omega (arith, on.1)) (omega (arith, on.1)) in
          let short = tab e in
          (
            vga_term_cur_step (record t { column = (t.column / 4 + 1) * 4 }),
            rw (e, stop) refl,
            ((on.0, omega (arith, short)), λ q out. refl),
          )
      | no nt ↦ (
        put_here t c,
        rw (ne→not_== c 10 nl, ne→not_== c 8 nb, ne→not_== c 9 nt) refl,
        put_here-Kept t c on,
      )
    ]
  ]
]
