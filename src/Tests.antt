-- ===== src/Tests.antt =====
-- The theorems at concrete inputs, and runs of the modelled code.
mod Pipe
mod Ds
mod Mem
mod Sched
mod Heap
mod Libk
mod Term
mod Paging
mod Fs
mod Cpu
mod Ext2
mod Libc
mod Drivers
