-- ===== src/Mem/Paging.antt =====
-- kernel/mem/paging.c: page directories and page tables in physical memory, which is mapped where it
-- lies. `words a` is the 32-bit word at the address `a`, a multiple of 4; an index into a table is not
-- checked. A panic is `none`. `cur_page_dir` also stands for the register cr3.
pub mod Map
pub mod Translate
pub mod Unmap
use Prim.Native.Nat.{bit_and, bit_or}
use hydrangea.Prelude.{
  ℕ, zero, suc, ◌+◌, ◌-◌, ◌*◌, ◌/◌, ◌%◌, ◌^◌, Option, none, some, ◌==◌, if◌then◌else◌, update, not,
  ◌>>=◌,
}
use hydrangea.Mem.Pmm.{Pmm, frame_alloc, frame_free}
use hydrangea.Mem.Heap.{Node, Heap, heap_create}

pub record Paging : Type 0 where
  pub pmm : Pmm
  pub words : ℕ → ℕ
  pub cur_page_dir : ℕ
  pub ker_page_dir : ℕ

abbrev pub pg_present : ℕ
pg_present = 1

abbrev pub pg_rw : ℕ
pg_rw = 2

abbrev pub pg_frame : ℕ
pg_frame = 0xFFFF_F000

abbrev pub pg_flags : ℕ
pg_flags = 0x0000_0FFF

-- `DIRECTORY_INDEX` and `TABLE_INDEX`
abbrev pub directory_index : ℕ → ℕ
directory_index virt = virt / 2 ^ 22

abbrev pub table_index : ℕ → ℕ
table_index virt = bit_and (virt / 2 ^ 12) 0x3FF

-- `((uint32_t *)base)[i]`
abbrev pub entry : (ℕ → ℕ) → (base i : ℕ) → ℕ
entry words base i = words (base + 4 * i)

-- The loop of `pg_mk_pgtbl`
unfoldable pub clear_table : (ℕ → ℕ) → (table i n : ℕ) → ℕ → ℕ
clear_table words table i zero = words
clear_table words table i (suc n) = clear_table (update words (table + 4 * i) 0) table (suc i) n

unfoldable pub pg_mk_pgtbl : Paging → (dir dir_index flags : ℕ) → Option (ℕ × Paging)
pg_mk_pgtbl s dir dir_index flags = elim (frame_alloc s.pmm) [
  | none ↦ none
  | some (new_table, pmm) ↦
      let words = clear_table s.words new_table 0 1024 in
      some (
        new_table,
        record s {
          pmm = pmm;
          words = update words (dir + 4 * dir_index) (bit_or (bit_or new_table pg_present) flags);
        },
      )
]

-- `!IS_ALIGNED(addr)`, on which the callers panic
abbrev pub if_aligned {ℓ} : {A : Type ℓ} → (addr : ℕ) → Option A → Option A
if_aligned addr result = if addr % 0x1000 == 0 then result else none

unfoldable pub pg_tbl_exists : Paging → (dir virt : ℕ) → Option ℕ
pg_tbl_exists s dir virt =
    if_aligned virt (some (bit_and (entry s.words dir (directory_index virt)) pg_present))

-- The table that the directory `dir` has for `virt`.
abbrev pub table_of : Paging → (dir virt : ℕ) → ℕ
table_of s dir virt = bit_and (entry s.words dir (directory_index virt)) pg_frame

-- `pg_is_mapped`, as 0 or 1
unfoldable pub pg_is_mapped : Paging → (dir virt : ℕ) → Option ℕ
pg_is_mapped s dir virt =
    let page = bit_and (entry s.words (table_of s dir virt) (table_index virt)) pg_present in
    if_aligned virt (elim (pg_tbl_exists s dir virt) [
      | none ↦ none
      | some exists ↦ some (if exists == 0 then 0 else if page == 0 then 0 else 1)
    ])

unfoldable pub pg_virt_to_phys : Paging → (dir virt : ℕ) → Option ℕ
pg_virt_to_phys s dir virt =
    if_aligned virt
      (some (bit_and (entry s.words (table_of s dir virt) (table_index virt)) pg_frame))

-- `((uint32_t *)base)[i] |= flags`
unfoldable pub add_flags : Paging → (base i flags : ℕ) → Paging
add_flags s base i flags = record s {
  words = update s.words (base + 4 * i) (bit_or (entry s.words base i) flags);
}

-- The loop of `pg_map_pages` from page `i` on, with `n` rounds to go.
unfoldable pub map_from : Paging → (dir virt phys tbl flags i n : ℕ) → Option Paging
map_from s dir virt phys tbl flags i zero = some s
map_from s dir virt phys tbl flags i (suc n) =
    elim (pg_is_mapped s dir ((virt + i * 0x1000) % 2 ^ 32)) [
      | none ↦ none
      | some mapped ↦
          let flagged = add_flags (add_flags s tbl i flags) dir (directory_index virt) flags in
          let s = if mapped == 0 then s else flagged in
          let page = bit_or (bit_or ((phys + i * 0x1000) % 2 ^ 32) pg_present) flags in
          map_from (record s { words = update s.words (tbl + 4 * i) page }) dir virt phys tbl flags
            (suc i) n
    ]

unfoldable pub pg_map_pages : Paging → (dir virt phys num flags : ℕ) → Option Paging
pg_map_pages s dir virt phys num flags = if_aligned virt (
    if_aligned phys (elim (pg_tbl_exists s dir virt) [
      | none ↦ none
      | some exists ↦
          let with_table : Option Paging =
            if exists == 0
            then elim (pg_mk_pgtbl s dir (directory_index virt) flags) [
              | none ↦ none
              | some (_, s') ↦ some s'
            ]
            else some s in
          elim with_table [
            | none ↦ none
            | some s' ↦ map_from s' dir virt phys (table_of s' dir virt) flags 0 num
          ]
    ]))

-- The loop of `pg_unmap_pages`; `frame_free` is given what the code gives it.
unfoldable pub unmap_from : Paging → (tbl i n : ℕ) → Paging
unmap_from s tbl i zero = s
unmap_from s tbl i (suc n) =
    let page = entry s.words tbl i in
    let cleared = record s {
      pmm = frame_free s.pmm (bit_or page pg_frame);
      words = update s.words (tbl + 4 * i) 0;
    } in
    unmap_from (if bit_or page pg_present == 0 then s else cleared) tbl (suc i) n

unfoldable pub pg_unmap_pages : Paging → (dir virt num : ℕ) → Option Paging
pg_unmap_pages s dir virt num = elim (pg_tbl_exists s dir virt) [
  | none ↦ none
  | some exists ↦ some (if exists == 0 then s else unmap_from s (table_of s dir virt) 0 num)
]

unfoldable pub pg_alloc : Paging → (virt flags : ℕ) → Option (ℕ × Paging)
pg_alloc s virt flags = elim (frame_alloc s.pmm) [
  | none ↦ none
  | some (phys, pmm) ↦
      elim (pg_map_pages (record s { pmm = pmm }) s.cur_page_dir virt phys 1 flags) [
        | none ↦ none
        | some s' ↦ some (phys, s')
      ]
]

unfoldable pub pg_free : Paging → (virt : ℕ) → Option Paging
pg_free s virt = pg_unmap_pages s s.cur_page_dir virt 1

-- The words that `memcpy` copies between frames, from index `i` on.
unfoldable pub copy_words : (ℕ → ℕ) → (dest src i n : ℕ) → ℕ → ℕ
copy_words words dest src i zero = words
copy_words words dest src i (suc n) =
    copy_words (update words (dest + 4 * i) (entry words src i)) dest src (suc i) n

unfoldable pub pg_clone_page_table : Paging → (tbl : ℕ) → Option (ℕ × Paging)
pg_clone_page_table s tbl = elim (frame_alloc s.pmm) [
  | none ↦ none
  | some (new_tbl, pmm) ↦ some (
    bit_or new_tbl (bit_and tbl pg_flags),
    record s { pmm = pmm; words = copy_words s.words new_tbl (bit_and tbl pg_frame) 0 1024 },
  )
]

-- The loop of `pg_clone_page_dir` from entry `i` on.
unfoldable pub clone_from : Paging → (new_dir dir i n : ℕ) → Option Paging
clone_from s new_dir dir i zero = some s
clone_from s new_dir dir i (suc n) =
    let old = entry s.words dir i in
    let cloned : Option Paging =
      if bit_and old pg_present == 0 then some s else elim (pg_clone_page_table s old) [
        | none ↦ none
        | some (table, s') ↦
            let stored = record s' { words = update s'.words (new_dir + 4 * i) table } in
            some (add_flags stored new_dir i (bit_and (entry stored.words dir i) pg_flags))
      ] in
    elim cloned [ none ↦ none | some s' ↦ clone_from s' new_dir dir (suc i) n ]

unfoldable pub pg_clone_page_dir : Paging → (dir : ℕ) → Option (ℕ × Paging)
pg_clone_page_dir s dir = elim (frame_alloc s.pmm) [
  | none ↦ none
  | some (new_dir, pmm) ↦
      let s = record s { pmm = pmm; words = clear_table s.words new_dir 0 1024 } in
      elim (clone_from s new_dir dir 0 1024) [ none ↦ none | some s' ↦ some (new_dir, s') ]
]

unfoldable pub pg_make_user_page_dir : Paging → Option (ℕ × Paging)
pg_make_user_page_dir s = pg_clone_page_dir s s.ker_page_dir

unfoldable pub pg_switch_page_dir : Paging → (dir : ℕ) → Paging
pg_switch_page_dir s dir = record s { cur_page_dir = dir }

-- `HEAP_START`, `HEAP_INITIAL_SIZE` and `HEAP_MAX_SIZE` of heap.h, and `VESA_TERM` of term.h
abbrev pub heap_start : ℕ
heap_start = 0x800000

abbrev pub heap_initial_size : ℕ
heap_initial_size = 0x100000

abbrev pub heap_max_size : ℕ
heap_max_size = 0x100000

abbrev pub vesa_term : ℕ
vesa_term = 1

-- The first loop of `pg_init`
unfoldable pub init_dir : (ℕ → ℕ) → (dir i n : ℕ) → ℕ → ℕ
init_dir words dir i zero = words
init_dir words dir i (suc n) = init_dir (update words (dir + 4 * i) pg_rw) dir (suc i) n

-- `pg_init` up to the change of cr0: the kernel's heap, and the state. `nodes` is what memory holds for
-- the lists of the heap.
unfoldable pub pg_init :
    Paging → (nodes : ℕ → Node) → (type framebuffer_addr : ℕ) → Option (Heap × Paging)
pg_init s nodes type framebuffer_addr = do
  let dir = s.ker_page_dir
  let s = record s { words = init_dir s.words dir 0 1024 }
  s ← pg_map_pages s dir 0 0 1024 pg_rw
  let page = bit_and framebuffer_addr 0xFFF0_0000
  s ← if type == vesa_term then some s else pg_map_pages s dir page page (2 * 1024) pg_rw
  s ← pg_map_pages s dir heap_start heap_start 1024 pg_rw
  let kheap = heap_create s.pmm nodes heap_start heap_initial_size heap_max_size 0
  some (kheap, pg_switch_page_dir (record s { pmm = kheap.pmm }) dir)
