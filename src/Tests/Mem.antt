-- ===== src/Tests/Mem.antt =====
-- The frame bitmap of pmm.c at a machine of 256 KiB.
use hydrangea.Prelude.{
  ◌≡◌, ◌≤◌, ◌<◌, ◌+◌, ◌*◌, ◌/◌, ◌%◌, refl, List, [], ◌∷◌, arith, some, ◌==◌, if◌then◌else◌,
}
use hydrangea.Mem.Pmm.{
  Pmm, MapEntry, frame_bmp_set, frame_bmp_reset, frame_bmp_get_first, frame_alloc, frame_free,
  pmalloc_a, pmm_init, mark_frames, add_regions, add_region, mark_unavailable, cleared_bitmap,
  pmalloc, last_entry,
}
use hydrangea.Mem.Pmm.Frames.{taken}
use hydrangea.Mem.Pmm.Alloc.{Allocated, frame_alloc-Allocated}
use hydrangea.Mem.Pmm.Init.{pmm_init-reserved}

-- Frames 0 and 1 of 64 are taken.
abbrev machine : Pmm
machine = record {
  placement_addr = 0x200123;
  bitmap = λ i. if i == 0 then 3 else 0;
  memory_size = 0x40000;
}

abbrev machine' : Pmm
machine' = frame_bmp_set machine 0x2000

aligned_block : (pmalloc_a machine 16 1).0 ≡ 0x201000
unfolding pmalloc_a
aligned_block = refl

third_frame : frame_alloc machine ≡ some (0x2000, machine')
unfolding frame_alloc frame_bmp_get_first
third_frame = refl

frame_alloc-Allocated_example : Allocated machine 0x2000 machine'
frame_alloc-Allocated_example =
    frame_alloc-Allocated machine machine' 0x2000 (omega arith) third_frame

fourth_frame :
    frame_alloc (frame_free machine' 0x1000)
    ≡ some (0x1000, frame_bmp_set (frame_free machine' 0x1000) 0x1000)
unfolding frame_alloc frame_bmp_get_first frame_free frame_bmp_reset frame_bmp_set
fourth_frame = refl

-- 256 KiB of memory, and a reserved region of two frames
abbrev map : List MapEntry
map =
    record { addr_lo = 0; addr_hi = 0; len_lo = 0x40000; type = 1 }
    ∷ record { addr_lo = 0x8000; addr_hi = 0; len_lo = 0x2000; type = 2 }
    ∷ []

abbrev reserved : MapEntry
reserved = record { addr_lo = 0x8000; addr_hi = 0; len_lo = 0x2000; type = 2 }

abbrev booted : Pmm
booted =
    mark_unavailable
      (frame_bmp_set (mark_frames (add_regions (cleared_bitmap machine) map) 0x8000 0 0) 0) map

boots : pmm_init machine reserved map 0x100800 ≡ some booted
unfolding pmm_init last_entry mark_frames add_regions add_region cleared_bitmap pmalloc frame_alloc
    frame_bmp_get_first frame_bmp_set
boots = refl

pmm_init-reserved_example :
    (0x8000 / 4096 ≤ 9 → 9 < 0x8000 / 4096 + 0x2000 / 4096 → taken booted 9 ≡ 1)
    × (0x8000 % 4096 ≡ 0
        → 0x8000 ≤ 9 * 4096
        → 9 * 4096 + 4096 ≤ 0x8000 + 0x2000
        → taken booted 9 ≡ 1)
pmm_init-reserved_example =
    pmm_init-reserved machine booted reserved map 0x100800 1 reserved 9 boots refl refl
      (λ e. omega (arith, e)) (omega arith)
