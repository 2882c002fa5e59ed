-- ===== src/Drivers/Disk.antt =====
-- Reads by bytes of kernel/drivers/ata.c, over the reads by sectors: a `Drive` gives what `ATA_read` of
-- `size` sectors from the sector `block` on leaves in its buffer.
use hydrangea.Prelude.{
  ℕ, ◌+◌, ◌-◌, ◌*◌, ◌/◌, ◌%◌, ◌<◌, ◌≡◌, ◌&&◌, leb, ltb, if◌then◌else◌, ◌≤◌, ◌⊎◌, inl, inr, ap, ◌∙◌,
  arith,
}
use hydrangea.Libk.Bytes.{Memory}

abbrev pub Drive : Type 0
Drive = (block size : ℕ) → Memory

-- `ATA_read_b`: the bytes that it copies, for the indices below `size`.
unfoldable pub ata_read_b : Drive → (offset size : ℕ) → Memory
ata_read_b drive offset size i =
    let start = offset / 512 in
    let last = (offset + size) / 512 in drive start (last - start + 1) (offset % 512 + i)

-- Its `memcpy` into a buffer, which the local array of sectors does not overlap.
abbrev pub copy_in : Memory → (buf size : ℕ) → Memory → Memory
copy_in m buf size bytes q = if leb buf q && ltb q (buf + size) then bytes (q - buf) else m q

-- The drive reads the bytes of a disk.
abbrev pub ReadsDisk : Drive → (disk : Memory) → Type 0
ReadsDisk drive disk =
    (block size i : ℕ) → i < 512 * size → drive block size i ≡ disk (512 * block + i)

-- Every byte that ATA_read_b copies is the disk's, for a drive that reads the disk's sectors.
pub ata_read_b_lem :
    (drive : Drive) (disk : Memory) (offset size i : ℕ)
    → ReadsDisk drive disk
    → i < size
    → ata_read_b drive offset size i ≡ disk (offset + i)
unfolding ata_read_b
ata_read_b_lem drive disk offset size i reads l =
    reads (offset / 512) ((offset + size) / 512 - offset / 512 + 1) (offset % 512 + i)
      (omega (arith, l))
    ∙ ap disk (omega arith)

pub copy_in_inside :
    (m : Memory) (buf size : ℕ) (bytes : Memory) (i : ℕ)
    → i < size
    → copy_in m buf size bytes (buf + i) ≡ bytes i
copy_in_inside m buf size bytes i l =
    let e : bytes (buf + i - buf) ≡ bytes i = ap bytes (omega arith) in ground (arith, e)

pub copy_in_outside :
    (m : Memory) (buf size : ℕ) (bytes : Memory) (a : ℕ)
    → (a < buf) ⊎ (buf + size ≤ a)
    → copy_in m buf size bytes a ≡ m a
copy_in_outside m buf size bytes a (inl l) = ground arith
copy_in_outside m buf size bytes a (inr l) = ground arith
