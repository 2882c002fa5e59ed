-- ===== src/Exec.antt =====
-- kernel/exec/elf.c: the checks of a program's header.
pub mod Elf
