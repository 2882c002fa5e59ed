-- ===== src/Mem/Paging/Unmap.antt =====
-- What `pg_unmap_pages` of paging.c gives back.
use Prim.Native.Nat.{bit_or}
use native.Mathlib.Decide.{ℕ_discrete}
use hydrangea.Prelude.{
  ℕ, zero, suc, ◌+◌, ◌-◌, ◌*◌, ◌/◌, ◌%◌, ◌^◌, ◌≤◌, ◌<◌, ◌≡◌, ◌≢◌, refl, ap, ◌∙◌, arith, some, eq→==,
  update, ne→not_==,
}
use hydrangea.Prelude.Bits.{bit_or-half}
use hydrangea.Prelude.Bits.Fields.{bit_or-high, bit_or-ones}
use hydrangea.Mem.Pmm.{frame_of, frame_bmp_reset, frame_free}
use hydrangea.Mem.Pmm.Frames.{taken, taken-frame_bmp_reset}
use hydrangea.Mem.Paging.{
  Paging, pg_frame, entry, pg_tbl_exists, table_of, unmap_from, pg_unmap_pages,
}
use hydrangea.Mem.Paging.Translate.{exists_lem}

-- `tbl[i] | PG_FRAME` lies in the last frame below 4 GiB.
or_frame : (page : ℕ) → page < 2 ^ 32 → frame_of (bit_or page pg_frame) ≡ 0xFFFFF
or_frame page h =
    let split : page ≡ page / 4096 * 4096 + page % 4096 = omega arith in
    let set = bit_or-high 12 (page / 4096) (page % 4096) (2 ^ 20 - 1) (omega arith) in
    let ones = bit_or-ones 20 (page / 4096) (omega arith) in
    let word : bit_or page pg_frame ≡ (2 ^ 20 - 1) * 4096 + page % 4096 =
      ap (λ z. bit_or z pg_frame) split ∙ set ∙ ap (λ z. z * 4096 + page % 4096) ones in
    omega (arith, word)

-- `tbl[i] | PG_PRESENT` is never 0.
or_present : (page : ℕ) → bit_or page 1 ≢ 0
or_present page e = omega (arith, bit_or-half page 1, e)

-- The first `n` entries from `i` on are cleared, and no frame but the last one is given back.
Cleared : (s s' : Paging) → (tbl i n : ℕ) → Type 0
Cleared s s' tbl i n =
    ((a : ℕ) → s'.words a < 2 ^ 32)
    × ((j : ℕ) → i ≤ j → j < i + n → s'.words (tbl + 4 * j) ≡ 0)
    × ((a : ℕ) → ((j : ℕ) → i ≤ j → j < i + n → a ≢ tbl + 4 * j) → s'.words a ≡ s.words a)
    × ((f : ℕ) → f ≢ 0xFFFFF → taken s'.pmm f ≡ taken s.pmm f)

unmap_from_step :
    (s : Paging) (tbl i n : ℕ)
    → unmap_from s tbl i (suc n)
      ≡ unmap_from
          (record s {
            pmm = frame_bmp_reset s.pmm (bit_or (entry s.words tbl i) pg_frame);
            words = update s.words (tbl + 4 * i) 0;
          })
          tbl
          (suc i)
          n
unfolding unmap_from frame_free
unmap_from_step s tbl i n =
    rw (ne→not_== (bit_or (entry s.words tbl i) 1) 0 (or_present (entry s.words tbl i))) refl

unmap_from-Cleared :
    (s : Paging) (tbl i n : ℕ)
    → ((a : ℕ) → s.words a < 2 ^ 32)
    → Cleared s (unmap_from s tbl i n) tbl i n
unfolding unmap_from Cleared
unmap_from-Cleared s tbl i zero small =
    (small, (λ j l h. absurd (omega (arith, l, h))), (λ a out. refl), λ f ne. refl)
unmap_from-Cleared s tbl i (suc n) small =
    let page = entry s.words tbl i in
    let s1 = record s {
      pmm = frame_bmp_reset s.pmm (bit_or page pg_frame);
      words = update s.words (tbl + 4 * i) 0;
    } in
    let (small', zeros, rest, frames) =
      unmap_from-Cleared s1 tbl (suc i) n (λ a. ground (arith, small a)) in
    let this = or_frame page (small (tbl + 4 * i)) in
    rw (unmap_from_step s tbl i n) (
      small',
      (λ j l h. elim (ℕ_discrete j i) [
        | yes e ↦ rw e (
            rest (tbl + 4 * i) (λ k lk hk eq. omega (arith, lk, eq))
            ∙ rw (eq→== (tbl + 4 * i) (tbl + 4 * i) refl) refl)
        | no ne ↦ zeros j (omega arith) (omega arith)
      ]),
      (λ a out.
          let off = out i (omega arith) (omega arith) in
          rest a (λ j l h. out j (omega arith) (omega arith)) ∙ ground (arith, off)),
      λ f ne.
          let reset = taken-frame_bmp_reset s.pmm (bit_or page pg_frame) f in
          frames f ne ∙ ground (arith, reset, this, ne),
    )

-- `pg_unmap_pages` of an aligned page, where the directory has a table, returns and clears the first
-- `num` entries of that table, whichever page of its region `virt` is, and no other word; of the frames
-- that the pages were mapped to it gives none back, unless it is the last frame below 4 GiB.
pub pg_unmap_pages-Cleared :
    (s : Paging) (dir virt num : ℕ)
    → virt % 4096 ≡ 0
    → ((a : ℕ) → s.words a < 2 ^ 32)
    → s.words (dir + 4 * (virt / 2 ^ 22)) % 2 ≡ 1
    → (s' : Paging) × (pg_unmap_pages s dir virt num ≡ some s')
      × ((j : ℕ) → j < num → s'.words (table_of s dir virt + 4 * j) ≡ 0)
      × ((a : ℕ) → ((j : ℕ) → j < num → a ≢ table_of s dir virt + 4 * j) → s'.words a ≡ s.words a)
      × ((f : ℕ) → f ≢ 0xFFFFF → taken s'.pmm f ≡ taken s.pmm f)
unfolding pg_unmap_pages Cleared
pg_unmap_pages-Cleared s dir virt num hv small there =
    let tbl = table_of s dir virt in
    let (_, zeros, rest, frames) = unmap_from-Cleared s tbl 0 num small in
    let exists : pg_tbl_exists s dir virt ≡ some 1 = exists_lem s dir virt hv ∙ ap some there in
    (
      unmap_from s tbl 0 num,
      rw (exists, pg_unmap_pages) refl,
      (λ j l. zeros j (omega arith) (omega (arith, l))),
      (λ a out. rest a (λ j l h. out j (omega (arith, h)))),
      frames,
    )
