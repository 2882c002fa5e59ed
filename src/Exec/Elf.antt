-- ===== src/Exec/Elf.antt =====
-- The checks of a header in kernel/exec/elf.c, over the bytes of memory. Messages are left out.
use hydrangea.Prelude.{ℕ, ◌+◌, ◌*◌, ◌^◌, Bool, ◌&&◌, ◌==◌}
use hydrangea.Libk.Bytes.{Memory}

abbrev pub read_16 : Memory → (p : ℕ) → ℕ
read_16 m p = m p + 2 ^ 8 * m (p + 1)

abbrev pub read_32 : Memory → (p : ℕ) → ℕ
read_32 m p = read_16 m p + 2 ^ 16 * read_16 m (p + 2)

unfoldable pub elf_verify_magic : Memory → (eh : ℕ) → Bool
elf_verify_magic m eh =
    m eh == 0x7F && m (eh + 1) == b'E' && m (eh + 2) == b'L' && m (eh + 3) == b'F'

-- The class, the endianness, the machine, the version and the type
unfoldable pub elf_is_runnable : Memory → (eh : ℕ) → Bool
elf_is_runnable m eh =
    m (eh + 4) == 1
    && m (eh + 5) == 1
    && read_16 m (eh + 18) == 3
    && read_32 m (eh + 20) == 1
    && read_16 m (eh + 16) == 2
