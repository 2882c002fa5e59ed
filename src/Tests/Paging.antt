-- ===== src/Tests/Paging.antt =====
-- A page directory at 0x1000 with one table, at 0x2000, for the third region of 4 MiB.
use hydrangea.Prelude.{ℕ, ◌+◌, ◌*◌, ◌<◌, ◌≡◌, ◌≢◌, refl, arith, inl, some, ◌==◌, if◌then◌else◌}
use hydrangea.Mem.Pmm.Frames.{taken}
use hydrangea.Mem.Paging.{Paging, pg_map_pages, pg_unmap_pages, pg_virt_to_phys, table_of}
use hydrangea.Mem.Paging.Translate.{Mapped, pg_map_pages-Mapped}
use hydrangea.Mem.Paging.Unmap.{pg_unmap_pages-Cleared}

abbrev tables : Paging
tables = record {
  pmm = record { placement_addr = 0x200000; bitmap = λ i. 0xFF; memory_size = 0x100000 };
  words = λ a. if a == 0x1008 then 0x2003 else if a == 0x2004 then 0x7003 else 0;
  cur_page_dir = 0x1000;
  ker_page_dir = 0x1000;
}

second_page : pg_virt_to_phys tables 0x1000 0x801000 ≡ some 0x7000
unfolding pg_virt_to_phys
second_page = refl

pg_map_pages-Mapped_example :
    (s' : Paging) × (pg_map_pages tables 0x1000 0x803000 0x5000 2 3 ≡ some s')
    × Mapped tables s' 0x1000 0x803000 0x5000 2 0x2000
pg_map_pages-Mapped_example =
    pg_map_pages-Mapped tables 0x1000 0x803000 0x5000 2 3 0x2000 refl refl (omega arith) refl
      (λ e. omega (arith, e)) (omega arith) (omega arith) (omega arith)
      (inl (omega arith, refl, refl))

pg_unmap_pages-Cleared_example :
    (s' : Paging) × (pg_unmap_pages tables 0x1000 0x801000 2 ≡ some s')
    × ((j : ℕ) → j < 2 → s'.words (table_of tables 0x1000 0x801000 + 4 * j) ≡ 0)
    × ((a : ℕ)
        → ((j : ℕ) → j < 2 → a ≢ table_of tables 0x1000 0x801000 + 4 * j)
        → s'.words a ≡ tables.words a)
    × ((f : ℕ) → f ≢ 0xFFFFF → taken s'.pmm f ≡ taken tables.pmm f)
pg_unmap_pages-Cleared_example =
    pg_unmap_pages-Cleared tables 0x1000 0x801000 2 refl (λ a. ground arith) refl
