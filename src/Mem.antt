-- ===== src/Mem.antt =====
-- kernel/mem: the physical memory manager (pmm.c), the kernel heap (heap.c) and paging (paging.c).
pub mod Pmm
pub mod Heap
pub mod Paging
