-- ===== src/Mem/Paging/Translate.antt =====
-- What the processor finds for a page after `pg_map_pages` of paging.c.
use Prim.Native.Nat.{bit_and}
use hydrangea.Prelude.{
  ℕ, zero, suc, ◌+◌, ◌*◌, ◌/◌, ◌%◌, ◌^◌, ◌≤◌, ◌<◌, ◌≡◌, ◌≢◌, refl, ap, sym, ◌∙◌, arith, some,
  update, ne→not_==, eq→==, ◌⊎◌, inl, inr,
}
use hydrangea.Prelude.Bits.Fields.{bit_and-low, bit_and-page}
use hydrangea.Mem.Pmm.{Pmm, frame_alloc}
use hydrangea.Mem.Paging.{
  Paging, table_index, clear_table, pg_mk_pgtbl, pg_tbl_exists, table_of, pg_is_mapped,
  pg_virt_to_phys, map_from, pg_map_pages,
}
use hydrangea.Mem.Paging.Map.{Points, Points-page_entry, page_entry, present_bit, map_from-Filled}

clear_table_lem :
    (words : ℕ → ℕ) (table i n a : ℕ)
    → (a < table + 4 * i) ⊎ (table + 4 * (i + n) ≤ a)
    → clear_table words table i n a ≡ words a
unfolding clear_table
clear_table_lem words table i zero a out = refl
clear_table_lem words table i (suc n) a out =
    let rest =
      clear_table_lem (update words (table + 4 * i) 0) table (suc i) n a
        (elim out [ inl l ↦ inl (omega arith) | inr l ↦ inr (omega arith) ]) in
    elim out [ inl l ↦ ground (arith, rest) | inr l ↦ ground (arith, rest) ]

-- The directory `dir` sends the page at `virt` to the frame at `phys`.
abbrev pub Translates : (s : Paging) → (dir virt phys : ℕ) → Type 0
Translates s dir virt phys =
    (pg_is_mapped s dir virt ≡ some 1) × (pg_virt_to_phys s dir virt ≡ some phys)

table_of_lem :
    (s : Paging) (dir virt tbl : ℕ)
    → Points tbl (s.words (dir + 4 * (virt / 2 ^ 22)))
    → table_of s dir virt ≡ tbl
table_of_lem s dir virt tbl (small, present, frame) =
    bit_and-page (s.words (dir + 4 * (virt / 2 ^ 22))) small ∙ frame

table_index_lem : (q j : ℕ) → j < 1024 → table_index (q * 2 ^ 22 + j * 4096) ≡ j
table_index_lem q j h =
    let page : (q * 2 ^ 22 + j * 4096) / 2 ^ 12 ≡ q * 2 ^ 10 + j = omega arith in
    ap (λ z. bit_and z 0x3FF) page ∙ bit_and-low 10 q j h

pub exists_lem :
    (s : Paging) (dir virt : ℕ)
    → virt % 4096 ≡ 0
    → pg_tbl_exists s dir virt ≡ some (s.words (dir + 4 * (virt / 2 ^ 22)) % 2)
unfolding pg_tbl_exists
exists_lem s dir virt h = rw h (ap some (present_bit (s.words (dir + 4 * (virt / 2 ^ 22)))))

Translates-Points :
    (s : Paging) (dir q j tbl phys : ℕ)
    → j < 1024
    → Points tbl (s.words (dir + 4 * q))
    → Points phys (s.words (tbl + 4 * j))
    → Translates s dir (q * 2 ^ 22 + j * 4096) phys
unfolding pg_is_mapped pg_virt_to_phys
Translates-Points s dir q j tbl phys hj points (small, present, frame) =
    let virt = q * 2 ^ 22 + j * 4096 in
    let index : virt / 2 ^ 22 ≡ q = omega arith in
    let aligned : virt % 4096 ≡ 0 = omega arith in
    let here : Points tbl (s.words (dir + 4 * (virt / 2 ^ 22))) = rw index points in
    let table = table_of_lem s dir virt tbl here in
    let slot = table_index_lem q j hj in
    let exists : pg_tbl_exists s dir virt ≡ some 1 =
      exists_lem s dir virt aligned ∙ ap some (here.1) in
    let bit : bit_and (s.words (tbl + 4 * j)) 1 ≡ 1 =
      present_bit (s.words (tbl + 4 * j)) ∙ present in
    let page = bit_and-page (s.words (tbl + 4 * j)) small ∙ frame in
    (rw (aligned, exists, table, slot, bit) refl, rw (aligned, table, slot, page) refl)

-- The table for `virt` after the first part of `pg_map_pages`: the one that the directory has, or the
-- frame that `frame_alloc` gives.
abbrev pub TableAt : (s : Paging) → (dir virt tbl : ℕ) → Type 0
TableAt s dir virt tbl =
    let e = s.words (dir + 4 * (virt / 2 ^ 22)) in
    Points tbl e
    ⊎ ((e % 2 ≡ 0)
        × (tbl % 4096 ≡ 0)
        × (tbl < 2 ^ 32)
        × ((pmm : Pmm) × (frame_alloc s.pmm ≡ some (tbl, pmm))))

-- The pages from the start of the region of 4 MiB around `virt`, `num` of them, are mapped to the frames
-- from `phys` on, and only the table and the directory's entry for it have changed.
abbrev pub Mapped : (s s' : Paging) → (dir virt phys num tbl : ℕ) → Type 0
Mapped s s' dir virt phys num tbl =
    ((i : ℕ) → i < num → Translates s' dir (virt / 2 ^ 22 * 2 ^ 22 + i * 4096) (phys + i * 4096))
    × ((a : ℕ)
        → a ≢ dir + 4 * (virt / 2 ^ 22)
        → (a < tbl) ⊎ (tbl + 4096 ≤ a)
        → s'.words a ≡ s.words a)

map_from-Mapped :
    (s : Paging) (dir virt phys tbl flags num : ℕ)
    → virt % 4096 ≡ 0
    → phys % 4096 ≡ 0
    → virt < 2 ^ 32
    → dir % 4096 ≡ 0
    → tbl ≢ dir
    → flags < 4096
    → num ≤ 1024
    → phys + num * 4096 ≤ 2 ^ 32
    → Points tbl (s.words (dir + 4 * (virt / 2 ^ 22)))
    → (s' : Paging) × (map_from s dir virt phys tbl flags 0 num ≡ some s')
      × Mapped s s' dir virt phys num tbl
map_from-Mapped s dir virt phys tbl flags num hv hp small hd apart hf hn fits points =
    let d = dir + 4 * (virt / 2 ^ 22) in
    let frame = points.2 in
    let off : (j : ℕ) → j < 0 + num → d ≢ tbl + 4 * j =
      λ j l e. apart (omega (arith, e, frame, l)) in
    let (s', e, (points', pages, rest)) =
      map_from-Filled s dir virt phys tbl flags 0 num hv hf points off in
    (
      s',
      e,
      (
        λ i l.
            let addr : (phys + i * 0x1000) % 2 ^ 32 ≡ phys + i * 4096 = omega arith in
            let page = pages i (omega arith) (omega (arith, l)) in
            let there : Points (phys + i * 4096) (s'.words (tbl + 4 * i)) =
              rw (page, addr)
                (Points-page_entry (phys + i * 4096) flags (omega arith) (omega arith) hf) in
            Translates-Points s' dir (virt / 2 ^ 22) i tbl (phys + i * 4096) (omega arith) points'
              there,
        λ a ne out. rest a ne λ j l h eq. elim out [
          | inl below ↦ omega (arith, eq, below)
          | inr above ↦ omega (arith, eq, above, h)
        ],
      ),
    )

-- A new table: the directory points to it, and only it and the directory's entry have changed.
pg_mk_pgtbl_lem :
    (s : Paging) (dir virt flags tbl : ℕ) (pmm : Pmm)
    → frame_alloc s.pmm ≡ some (tbl, pmm)
    → tbl % 4096 ≡ 0
    → tbl < 2 ^ 32
    → flags < 4096
    → (s1 : Paging) × (pg_mk_pgtbl s dir (virt / 2 ^ 22) flags ≡ some (tbl, s1))
      × Points tbl (s1.words (dir + 4 * (virt / 2 ^ 22)))
      × ((a : ℕ)
          → a ≢ dir + 4 * (virt / 2 ^ 22)
          → (a < tbl) ⊎ (tbl + 4096 ≤ a)
          → s1.words a ≡ s.words a)
unfolding pg_mk_pgtbl
pg_mk_pgtbl_lem s dir virt flags tbl pmm e aligned small hf =
    let d = dir + 4 * (virt / 2 ^ 22) in
    (
      record s {
        pmm = pmm;
        words = update (clear_table s.words tbl 0 1024) d (page_entry tbl flags);
      },
      rw (e, pg_mk_pgtbl) refl,
      rw (eq→== d d refl) (Points-page_entry tbl flags aligned small hf),
      λ a ne out. rw (ne→not_== a d ne) (
          clear_table_lem s.words tbl 0 1024 a
            (elim out [ inl l ↦ inl (omega arith) | inr l ↦ inr (omega arith) ])),
    )

pg_map_pages_lem :
    (s s1 : Paging) (dir virt phys num flags tbl : ℕ)
    → virt % 4096 ≡ 0
    → phys % 4096 ≡ 0
    → Points tbl (s1.words (dir + 4 * (virt / 2 ^ 22)))
    → ((s.words (dir + 4 * (virt / 2 ^ 22)) % 2 ≡ 1) × (s1 ≡ s))
      ⊎ ((s.words (dir + 4 * (virt / 2 ^ 22)) % 2 ≡ 0)
          × (pg_mk_pgtbl s dir (virt / 2 ^ 22) flags ≡ some (tbl, s1)))
    → pg_map_pages s dir virt phys num flags ≡ map_from s1 dir virt phys tbl flags 0 num
unfolding pg_map_pages
pg_map_pages_lem s s1 dir virt phys num flags tbl hv hp points how =
    let exists = exists_lem s dir virt hv in
    let table = table_of_lem s1 dir virt tbl points in
    elim how [
      | inl (there, same) ↦
          let table : table_of s dir virt ≡ tbl =
            ap (λ z. table_of z dir virt) (sym same) ∙ table in
          rw (hv, hp, exists, there, table)
            (ap (λ z. map_from z dir virt phys tbl flags 0 num) (sym same))
      | inr (missing, made) ↦ rw (hv, hp, exists, missing, made, table) refl
    ]

-- `pg_map_pages` of at most 1024 aligned pages below 4 GiB returns where the directory has a table for
-- `virt`, or `frame_alloc` gives a frame for one, and the table does not lie over the directory. It maps
-- the first `num` pages of the region of 4 MiB around `virt`, whichever page of the region `virt` is, to
-- the frames from `phys` on, also those that were mapped to others; no other word than those of the table and the directory's entry changes.
pub pg_map_pages-Mapped :
    (s : Paging) (dir virt phys num flags tbl : ℕ)
    → virt % 4096 ≡ 0
    → phys % 4096 ≡ 0
    → virt < 2 ^ 32
    → dir % 4096 ≡ 0
    → tbl ≢ dir
    → flags < 4096
    → num ≤ 1024
    → phys + num * 4096 ≤ 2 ^ 32
    → TableAt s dir virt tbl
    → (s' : Paging) × (pg_map_pages s dir virt phys num flags ≡ some s')
      × Mapped s s' dir virt phys num tbl
pg_map_pages-Mapped s dir virt phys num flags tbl hv hp small hd apart hf hn fits (inl points) =
    let (s', e, mapped) =
      map_from-Mapped s dir virt phys tbl flags num hv hp small hd apart hf hn fits points in
    (
      s',
      pg_map_pages_lem s s dir virt phys num flags tbl hv hp points (inl (points.1, refl)) ∙ e,
      mapped,
    )
pg_map_pages-Mapped s dir virt phys num flags tbl hv hp small hd apart hf hn fits
      (inr (missing, aligned, low, (pmm, got))) =
    let (s1, made, points, rest) = pg_mk_pgtbl_lem s dir virt flags tbl pmm got aligned low hf in
    let (s', e, (pages, rest')) =
      map_from-Mapped s1 dir virt phys tbl flags num hv hp small hd apart hf hn fits points in
    (
      s',
      pg_map_pages_lem s s1 dir virt phys num flags tbl hv hp points (inr (missing, made)) ∙ e,
      (pages, λ a ne out. rest' a ne out ∙ rest a ne out),
    )
