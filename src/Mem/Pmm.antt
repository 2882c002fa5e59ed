-- ===== src/Mem/Pmm.antt =====
-- kernel/mem/pmm.c: placement allocation and the bitmap of physical frames. `bitmap i` is the 32-bit
-- word `frames_bmp[i]`; the code checks no index against the bitmap's size. A panic is `none`.
pub mod Alloc
pub mod First
pub mod Frames
pub mod Init
use Prim.Native.Nat.{bit_and, bit_or}
use hydrangea.Prelude.{
  ℕ, zero, suc, ◌+◌, ◌-◌, ◌*◌, ◌/◌, ◌%◌, ◌^◌, Bool, true, false, ◌&&◌, not, Option, none, some,
  List, [], ◌∷◌, ltb, leb, ◌==◌, if◌then◌else◌, update,
}

-- `placement_addr`, `frames_bmp` and `memory_size`
pub record Pmm : Type 0 where
  pub placement_addr : ℕ
  pub bitmap : ℕ → ℕ
  pub memory_size : ℕ

-- `pmalloc`: the address, and the state with the next one.
unfoldable pub pmalloc : Pmm → ℕ → ℕ × Pmm
pmalloc p size =
    let next = (p.placement_addr + size) % 2 ^ 32 in
    ((next + 2 ^ 32 - size) % 2 ^ 32, record p { placement_addr = next })

-- The rounding up of `placement_addr` in `pmalloc_a` and `pmalloc_ap`.
unfoldable pub page_align : Pmm → (align : ℕ) → Pmm
page_align p align =
    let low = bit_and p.placement_addr 0xFFF in
    if not (align == 0) && not (low == 0)
    then record p { placement_addr = (bit_and p.placement_addr 0xFFFF_F000 + 0x1000) % 2 ^ 32 }
    else p

unfoldable pub pmalloc_a : Pmm → (size align : ℕ) → ℕ × Pmm
unfolding pmalloc page_align
pmalloc_a p size align = pmalloc (page_align p align) size

-- `pmalloc_ap` gives the address a second time, through `physical_addr`.
unfoldable pub pmalloc_ap : Pmm → (size align : ℕ) → (ℕ × ℕ) × Pmm
unfolding pmalloc page_align
pmalloc_ap p size align =
    let aligned = page_align p align in
    let (addr, p') = pmalloc aligned size in ((addr, aligned.placement_addr), p')

abbrev pub frame_of : ℕ → ℕ
frame_of addr = addr / 4096

unfoldable pub frame_bmp_set : Pmm → ℕ → Pmm
frame_bmp_set p addr =
    let n = frame_of addr in
    record p { bitmap = update p.bitmap (n / 32) (bit_or (p.bitmap (n / 32)) (2 ^ (n % 32))) }

unfoldable pub frame_bmp_reset : Pmm → ℕ → Pmm
frame_bmp_reset p addr =
    let n = frame_of addr in
    record p {
      bitmap = update p.bitmap (n / 32) (bit_and (p.bitmap (n / 32)) (2 ^ 32 - 1 - 2 ^ (n % 32)));
    }

pub frame_bmp_test : Pmm → ℕ → ℕ
frame_bmp_test p addr = let n = frame_of addr in bit_and (p.bitmap (n / 32)) (2 ^ (n % 32))

-- The inner loop of `frame_bmp_get_first` over the bits of one word, from `j` on.
pub first_clear : (word j rounds : ℕ) → Option ℕ
first_clear word j zero = none
first_clear word j (suc n) =
    let rest = first_clear word (suc j) n in if bit_and word (2 ^ j) == 0 then some j else rest

-- The outer loop over the words, from `i` on.
pub scan_words : (bitmap : ℕ → ℕ) → (i rounds : ℕ) → Option ℕ
scan_words bitmap i zero = none
scan_words bitmap i (suc n) =
    let rest = scan_words bitmap (suc i) n in
    let inner : Option ℕ = elim (first_clear (bitmap i) 0 32) [
      | none ↦ rest
      | some j ↦ some (32 * i + j)
    ] in
    if bitmap i == 0xFFFF_FFFF then rest else inner

-- `frame_bmp_get_first`; `none` is the panic.
unfoldable pub frame_bmp_get_first : Pmm → Option ℕ
unfolding scan_words first_clear
frame_bmp_get_first p = scan_words p.bitmap 0 (p.memory_size / 4096 / 32)

unfoldable pub frame_alloc : Pmm → Option (ℕ × Pmm)
frame_alloc p = elim (frame_bmp_get_first p) [
  | none ↦ none
  | some ff ↦ let addr = ff * 0x1000 % 2 ^ 32 in some (addr, frame_bmp_set p addr)
]

unfoldable pub frame_free : Pmm → ℕ → Pmm
unfolding frame_bmp_reset
frame_free p addr = frame_bmp_reset p addr

-- An entry of the boot loader's memory map, of 24 bytes each.
pub record MapEntry : Type 0 where
  pub addr_lo : ℕ
  pub addr_hi : ℕ
  pub len_lo : ℕ
  pub type : ℕ

-- Marks the `n` frames behind `frame` from `addr` on.
unfoldable pub mark_frames : Pmm → (addr frame rounds : ℕ) → Pmm
mark_frames p addr frame zero = p
mark_frames p addr frame (suc n) =
    mark_frames (frame_bmp_set p ((addr + frame * 4096) % 2 ^ 32)) addr (suc frame) n

-- One round of the first loop of `pmm_init`.
unfoldable pub add_region : Pmm → MapEntry → Pmm
add_region p e =
    if not (e.addr_hi == 0)
    then p
    else if e.type == 1
    then record p { memory_size = (p.memory_size + e.len_lo) % 2 ^ 64 }
    else mark_frames p e.addr_lo 0 (e.len_lo / 4096)

unfoldable pub add_regions : Pmm → List MapEntry → Pmm
add_regions p [] = p
add_regions p (e ∷ es) = add_regions (add_region p e) es

-- The last loop of `pmm_init`.
pub mark_unavailable : Pmm → List MapEntry → Pmm
mark_unavailable p [] = p
mark_unavailable p (e ∷ es) =
    mark_unavailable (if bit_and e.type 1 == 0 then frame_bmp_set p e.addr_lo else p) es

-- The entry that `mmap` points to after the first loop: the last one, or the first if there is none.
unfoldable pub last_entry : MapEntry → List MapEntry → MapEntry
last_entry e [] = e
last_entry e (e' ∷ es) = last_entry e' es

-- The size of the bitmap that `pmm_init` takes from `pmalloc`, in bytes.
abbrev pub bitmap_bytes : ℕ
bitmap_bytes = 0xffff_ffff / 4096 / 32

-- The beginning of `pmm_init`: no memory counted, and a cleared bitmap from `pmalloc`. `memset` clears
-- whole bytes, which are `bitmap_bytes / 4` words and the three low bytes of one more.
unfoldable pub cleared_bitmap : Pmm → Pmm
cleared_bitmap p =
    let (_, p') = pmalloc (record p { memory_size = 0 }) bitmap_bytes in
    let old = p'.bitmap in
    record p' {
      bitmap = λ i.
          if ltb i (bitmap_bytes / 4)
          then 0
          else if i == bitmap_bytes / 4
          then old i / 2 ^ 24 * 2 ^ 24
          else old i;
    }

-- The frames that `pmm_init` counts for the kernel, from the address `end_of_kernel`.
abbrev pub kernel_frames : ℕ → ℕ
kernel_frames end_of_kernel = (end_of_kernel + 2 ^ 32 - 1024 * 1024) % 2 ^ 32 / 4096

-- `pmm_init` with the map's entries `es`; `first` is what lies at the map's address.
unfoldable pub pmm_init :
    Pmm → (first : MapEntry) → (es : List MapEntry) → (end_of_kernel : ℕ) → Option Pmm
pmm_init p first es end_of_kernel =
    let p = add_regions (cleared_bitmap p) es in
    let p = mark_frames p (last_entry first es).addr_lo 0 (kernel_frames end_of_kernel) in
    elim (frame_alloc p) [ none ↦ none | some (_, p') ↦ some (mark_unavailable p' es) ]

-- `pmm_available_memory`, in KiB
pub pmm_available_memory : Pmm → ℕ
pmm_available_memory p = p.memory_size / 1024 % 2 ^ 32
