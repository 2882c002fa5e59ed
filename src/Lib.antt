-- ===== src/Lib.antt =====
-- Verification library for the Hydrangea kernel, a 32-bit x86 kernel in C.
--
-- The kernel's parts, and the module that models each:
-- - kernel/fs/pipe.c, the ring buffer behind pipes and standard input: `Pipe` (`RingBuffer` is
--   `ring_buffer_t`, the functions keep their names).
-- - kernel/ds: `Ds.DynList` (list.c), `Ds.OrderedList` (ordered_list.c), `Ds.Bst` (BST.c),
--   `Ds.Comparator` (comparator.h).
-- - kernel/mem/pmm.c, placement allocation and the bitmap of physical frames: `Mem.Pmm`.
-- - kernel/mem/heap.c, the kernel heap: `Mem.Heap`.
-- - kernel/mem/paging.c, page directories and tables in physical memory: `Mem.Paging`.
-- - kernel/multitasking: the list of tasks and the switch between them (scheduler.c), `Sched`; the end of
--   tasks, `Sched.End`; new kernel tasks (task.c), `Sched.Spawn`.
-- - kernel/fs: the tree of nodes and paths in it (vfs.c), `Fs.Vfs` and `Fs.Path`; files in memory
--   (tmpfs.c, initrd.c, devfs.c), `Fs.Files`; open files and descriptors (file_descriptor.c,
--   file_ops.c), `Fs.Descriptors`.
-- - kernel/cpu: segment and interrupt descriptors (gdt.c, tss.c, idt.c), `Cpu.Tables`; the interrupt
--   controllers and the dispatch of requests (pic.c, irq.c), `Cpu.Pic`; the packets of the mouse
--   (kernel/drivers/mouse.c), `Cpu.Mouse`; the keys (kernel/drivers/kbd.c), `Cpu.Keyboard`;
--   the clock (kernel/drivers/rtc.c), `Cpu.Clock`.
-- - kernel/vga/vga.c and kernel/term/vga/vga_term.c, the text terminal: `Term.Vga`;
--   kernel/vesa/vesa.c, the frame buffer: `Term.Vesa`.
-- - kernel/fs/ext2fs, blocks, inodes, files and directories of a disk: `Fs.Ext2`, which reads the disk
--   by blocks through the drivers' `read`.
-- - kernel/drivers: `Drivers.Ports` (io_inb to io_outw of kernel/io/io.h), `Drivers.Ata` (ata.c),
--   `Drivers.Ps2` (ps2.c and the commands that kbd.c and mouse.c give at the start), `Drivers.Pci`
--   (pci.c), `Drivers.Serial` (serial.c), `Drivers.Pit` (pit.c).
-- - kernel/exec/elf.c, the checks of a program's header: `Exec.Elf`.
-- - libc/string/string.c, the strings of programs: `Libc`.
-- - libk/string.c: `Libk.Bytes` (memcmp to memset), `Libk.Str` (strlen to strtok) and
--   `Libk.Search` (strstr, itoa, atoi) over byte-addressed memory.
--
-- The list of blocks of the heap and the list of tasks are nodes in memory, a function from addresses
-- to structures, and so are the nodes of the file system; strings and blocks lie in a memory of bytes,
-- page tables in one of words. `Ds.DynList` takes its allocator as an
-- argument, the heap takes the nodes of its lists from `pmalloc` and copies with `memcpy`. The other
-- modules keep a structure as a record, and a function that changes it returns the new one.
--
-- Numbers are natural numbers. An integer of w bits that the code counts up or down keeps its
-- wrap-around, `% 2 ^ w`; an address within an object does not wrap. A panic, and a write through the
-- NULL of a failed `krealloc`, is `none`; following NULL in the heap is `null_access`; a reader of an
-- empty ring is `waiting`.
--
-- Loops over a counter recurse on the rounds left: as many as the list has slots for `Ds`, the words of
-- the bitmap and 32 bits for `Mem.Pmm`. Loops to a terminator or a NULL take fuel, one round more than
-- the string or the list is long, which is enough; `none` or `out_of_fuel` says that it is used up.
--
-- What is assumed: the nodes of a tree are not shared, and `pmalloc` finds memory behind the kernel. The
-- entries of the memory map have 24 bytes each. Allocations for `Fs` count up, and the `n`-th one gives
-- the address `kmalloc n`, a parameter; `krealloc` for tmpfs.c is a parameter, too. Accesses to
-- ports are a list, the newest first, and what a device answers to a read is a function of it, a
-- parameter. A disk for ext2 is a function that reads bytes. A driver that polls takes as fuel how often
-- it does; ps2.c has a limit of its own.
--
-- Not modelled: the functions of the file system in pipe.c, mounting, tmpfs_create, the cleaner of
-- tasks, user tasks, the switch of registers and stacks, and the system calls, for which the parts
-- above are the ground; the segments of programs, whose bytes lie behind page tables that are words
-- here; the kernel's entry, assembly, the terminal on the frame buffer and printing are left out.
mod Prelude
pub mod Pipe
pub mod Ds
pub mod Mem
pub mod Libk
pub mod Libc
pub mod Sched
pub mod Term
pub mod Drivers
pub mod Exec
pub mod Fs
pub mod Cpu
mod Tests
