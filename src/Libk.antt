-- ===== src/Libk.antt =====
-- libk/string.c: the kernel's memory and string functions over byte-addressed memory.
pub mod Bytes
pub mod Str
pub mod Search
