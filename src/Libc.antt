-- ===== src/Libc.antt =====
-- libc/string/string.c, the string functions of programs: those that the kernel has, too, and the ones
-- that count bytes.
pub mod Strings
pub mod Chars
pub mod Counted
pub mod Padded
