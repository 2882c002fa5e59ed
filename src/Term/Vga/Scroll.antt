-- ===== src/Term/Vga/Scroll.antt =====
-- What scrolling, clearing and filling the text screen leave in the video memory.
use hydrangea.Prelude.{
  ℕ, zero, suc, ◌+◌, ◌*◌, ◌%◌, ◌≤◌, ◌<◌, ◌≡◌, refl, ◌∙◌, arith, ltb, leb, ◌&&◌, if◌then◌else◌,
  update,
}
use hydrangea.Term.Vga.{
  VgaTerm, vga_char, vga_color_byte, scroll_row, scroll_rows, vga_term_scroll, scroll_times,
  vga_term_clear, fill_blank, vga_term_init, fill_row, fill_rows, vga_term_fill, vga_term_putat,
  vga_term_cur_step, vga_term_cur_mov, vga_term_use_color,
}

scroll_row_lem :
    (fb : ℕ → ℕ) (i j n q : ℕ)
    → scroll_row fb i j n q
      ≡ (if leb (i * 80 + j) q && ltb q (i * 80 + j + n) then fb (q + 80) else fb q)
unfolding scroll_row
scroll_row_lem fb i j zero q = ground arith
scroll_row_lem fb i j (suc n) q =
    let old = i * 80 + j in
    let e : (i + 1) * 80 + j ≡ old + 80 = omega arith in
    ground (arith, scroll_row_lem (update fb old (fb ((i + 1) * 80 + j))) i (suc j) n q, e)

scroll_rows_lem :
    (fb : ℕ → ℕ) (i n q : ℕ)
    → scroll_rows fb i n q ≡ (if leb (i * 80) q && ltb q ((i + n) * 80) then fb (q + 80) else fb q)
unfolding scroll_rows
scroll_rows_lem fb i zero q = ground arith
scroll_rows_lem fb i (suc n) q = ground (
  arith,
  scroll_rows_lem (scroll_row fb i 0 80) (suc i) n q,
  scroll_row_lem fb i 0 80 q,
  scroll_row_lem fb i 0 80 (q + 80),
)

-- Scrolling moves every row of the screen up by one: a cell of the screen gets what stood 80 cells
-- further on, the last row what lies behind the screen, and nothing else changes.
pub vga_term_scroll_lem :
    (t : VgaTerm) (q : ℕ)
    → (vga_term_scroll t).frame_buffer q
      ≡ (if ltb q 2000 then t.frame_buffer (q + 80) else t.frame_buffer q)
unfolding vga_term_scroll
vga_term_scroll_lem t q = ground (arith, scroll_rows_lem t.frame_buffer 0 25 q)

-- `n` times scrolled: rows from below, then copies of the row behind the screen.
scrolled : (fb : ℕ → ℕ) → (n q : ℕ) → ℕ
scrolled fb n q =
    if ltb q 2000
    then (if ltb (q + n * 80) 2000 then fb (q + n * 80) else fb (2000 + q % 80))
    else fb q

scroll_times_lem :
    (t : VgaTerm) (n q : ℕ) → (scroll_times t n).frame_buffer q ≡ scrolled t.frame_buffer n q
unfolding scroll_times scrolled
scroll_times_lem t zero q = ground arith
scroll_times_lem t (suc n) q =
    let once = vga_term_scroll_lem t in
    ground (
      arith,
      scroll_times_lem (vga_term_scroll t) n q,
      once q,
      once (q + n * 80),
      once (2000 + q % 80),
    )

-- `vga_term_clear` puts the cursor in the corner and fills every row of the screen with a copy of the
-- row that lies behind the screen in the video memory; cells off the screen stay.
pub vga_term_clear_lem :
    (t : VgaTerm) (q : ℕ)
    → ((vga_term_clear t).frame_buffer q
        ≡ (if ltb q 2000 then t.frame_buffer (2000 + q % 80) else t.frame_buffer q))
      × ((vga_term_clear t).row ≡ 0)
      × ((vga_term_clear t).column ≡ 0)
unfolding vga_term_clear scrolled vga_term_cur_mov
vga_term_clear_lem t q = (ground (arith, scroll_times_lem t 25 q), refl, refl)

fill_blank_lem :
    (fb : ℕ → ℕ) (color k n q : ℕ)
    → fill_blank fb color k n q ≡ (if leb k q && ltb q (k + n) then vga_char 32 color else fb q)
unfolding fill_blank
fill_blank_lem fb color k zero q = ground arith
fill_blank_lem fb color k (suc n) q =
    ground (arith, fill_blank_lem (update fb k (vga_char 32 color)) color (suc k) n q)

-- After `vga_term_init` the cursor is in the corner, the colour is white on black, and exactly the
-- cells of the screen are blanks in that colour.
pub vga_term_init_lem :
    (t : VgaTerm) (q : ℕ)
    → ((vga_term_init t).frame_buffer q
        ≡ (if ltb q 2000 then vga_char 32 (vga_color_byte 0xF 0x0) else t.frame_buffer q))
      × ((vga_term_init t).row ≡ 0)
      × ((vga_term_init t).column ≡ 0)
      × ((vga_term_init t).color ≡ vga_color_byte 0xF 0x0)
unfolding vga_term_init vga_term_use_color vga_term_cur_mov
vga_term_init_lem t q = (
  ground (arith, fill_blank_lem t.frame_buffer (vga_color_byte 0xF 0x0) 0 2000 q),
  refl,
  refl,
  refl,
)

-- What filling `n` cells from cell `k` on leaves of a terminal: the cells, the cursor and the colour.
Filled : (t t' : VgaTerm) → (k n : ℕ) → Type 0
Filled t t' k n =
    ((q : ℕ)
      → t'.frame_buffer q
        ≡ (if leb k q && ltb q (k + n) then vga_char 32 t.color else t.frame_buffer q))
    × (t'.row ≡ t.row)
    × (t'.column ≡ t.column)
    × (t'.color ≡ t.color)

fill_row_lem :
    (t : VgaTerm) (i j n : ℕ) → i < 25 → j + n ≤ 80 → Filled t (fill_row t i j n) (j + i * 80) n
unfolding fill_row Filled vga_term_putat vga_term_cur_step vga_term_cur_mov
fill_row_lem t i j zero hi hj = (λ q. ground arith, refl, refl, refl)
fill_row_lem t i j (suc n) hi hj =
    let (cells, row, column, color) =
      fill_row_lem (vga_term_putat t 32 j i) i (suc j) n hi (omega arith) in
    (λ q. ground (arith, cells q), row, column, color)

fill_rows_lem : (t : VgaTerm) (i n : ℕ) → i + n ≤ 25 → Filled t (fill_rows t i n) (i * 80) (n * 80)
unfolding fill_rows Filled
fill_rows_lem t i zero h = (λ q. ground arith, refl, refl, refl)
fill_rows_lem t i (suc n) h =
    let (cells, row, column, color) = fill_row_lem t i 0 80 (omega arith) (omega arith) in
    let (cells', row', column', color') =
      fill_rows_lem (fill_row t i 0 80) (suc i) n (omega arith) in
    (λ q. ground (arith, cells q, cells' q, color), row' ∙ row, column' ∙ column, color' ∙ color)

-- `vga_term_fill` turns exactly the cells of the screen into blanks of the colour on itself, and leaves
-- the cursor where it was and the colour white on black.
pub vga_term_fill_lem :
    (t : VgaTerm) (color q : ℕ)
    → ((vga_term_fill t color).frame_buffer q
        ≡ (if ltb q 2000 then vga_char 32 (vga_color_byte color color) else t.frame_buffer q))
      × ((vga_term_fill t color).row ≡ t.row)
      × ((vga_term_fill t color).column ≡ t.column)
      × ((vga_term_fill t color).color ≡ vga_color_byte 0xF 0x0)
unfolding vga_term_fill vga_term_use_color Filled
vga_term_fill_lem t color q =
    let t' = record t { color = vga_color_byte color color } in
    let (cells, row, column, kept) = fill_rows_lem t' 0 25 (omega arith) in
    (ground (arith, cells q), row, column, refl)
