-- ===== src/Fs/Ext2/Files/Blocks.antt =====
-- What ext2_readfile reads.
use Prim.Native.Nat.{bit_and}
use native.Mathlib.Nat.{div-eq_of_lt-le, div-add-mod, mul_comm}
use hydrangea.Prelude.{
  ℕ, zero, suc, ◌+◌, ◌-◌, ◌*◌, ◌/◌, ◌%◌, ◌^◌, ◌≤◌, ◌<◌, ◌≡◌, ◌≢◌, ◌⊎◌, refl, ap, ◌∙◌, arith, ltb,
  true, if◌then◌else◌, update, eq→==, ne→not_==, lt→ltb, le→not_ltb,
}
use hydrangea.Libk.Bytes.{Memory}
use hydrangea.Drivers.Disk.{
  Drive, ReadsDisk, ata_read_b, ata_read_b_lem, copy_in_inside, copy_in_outside,
}
use hydrangea.Fs.Ext2.{Fs, ext2_get_inode, ext2_get_block_offset}
use hydrangea.Fs.Ext2.Files.{read_into, read_blocks, ext2_readfile}

direct_block :
    (drive : Drive) (fs : Fs) (nr blk : ℕ)
    → blk < 12
    → ext2_get_block_offset drive fs nr blk
      ≡ (ext2_get_inode drive fs nr).direct_block_pointer blk * fs.ext2.block_size % 2 ^ 32
unfolding ext2_get_block_offset
direct_block drive fs nr blk h = rw (lt→ltb blk 12 h) refl

same_block :
    (offset size bs : ℕ) → 0 < bs → offset % bs + size < bs → (offset + size) / bs ≡ offset / bs
same_block offset size bs pos fits =
    let e = div-add-mod offset bs in
    let c = mul_comm bs (offset / bs) in
    div-eq_of_lt-le bs (omega (arith, e, c)) (grind (arith, e, c))

-- The end is cut to the end of the file only where it lies behind it.
whole_end :
    (end size : ℕ)
    → end ≤ size
    → size < 2 ^ 32
    → (if ltb size (end % 2 ^ 64) then size else end % 2 ^ 64) ≡ end
whole_end end size h small = ground arith

one_block_run :
    (drive : Drive) (fs : Fs) (m : Memory) (nr offset size buffer : ℕ)
    → let inode = ext2_get_inode drive fs nr in
      let bs = fs.ext2.block_size in
      let pointer = inode.direct_block_pointer (offset / bs) in
      bit_and inode.type_permissions 0x8000 ≢ 0
      → 0 < size
      → offset + size ≤ inode.size
      → inode.size < 2 ^ 32
      → offset / bs < 12
      → offset % bs + size < bs
      → pointer * bs < 2 ^ 32
      → ext2_readfile drive fs m nr offset size buffer
        ≡ (size, read_into drive m (fs.p_offset + pointer * bs + offset % bs) size buffer)
unfolding ext2_readfile
one_block_run drive fs m nr offset size buffer file pos fits small direct one low =
    let inode = ext2_get_inode drive fs nr in
    let bs = fs.ext2.block_size in
    let not_empty = ne→not_== size 0 (λ e. omega (arith, e, pos)) in
    let is_file = ne→not_== (bit_and inode.type_permissions 0x8000) 0 file in
    let not_zero = ne→not_== inode.size 0 (λ e. omega (arith, e, pos, fits)) in
    let enough = le→not_ltb inode.size size (omega (arith, fits)) in
    let end = whole_end (offset + size) inode.size fits small in
    let same = same_block offset size bs (omega (arith, one)) one in
    let same' = eq→== (offset / bs) (offset / bs) refl in
    let at = direct_block drive fs nr (offset / bs) direct in
    let at' : (inode.direct_block_pointer (offset / bs) * bs) % 2 ^ 32
        ≡ inode.direct_block_pointer (offset / bs) * bs =
      omega (arith, low) in
    rw not_empty
      (rw is_file (rw (not_zero, enough) (rw end (rw same (rw same' (rw at (rw at' refl)))))))

-- ext2_readfile of bytes of a file that lie within one of its first 12 blocks, and do not reach that
-- block's end, puts exactly these bytes of the disk into the buffer and returns their number, where the
-- block lies below 4 GiB.
pub ext2_readfile-one_block :
    (drive : Drive) (disk : Memory) (fs : Fs) (m : Memory) (nr offset size buffer : ℕ)
    → ReadsDisk drive disk
    → let inode = ext2_get_inode drive fs nr in
      let bs = fs.ext2.block_size in
      let pointer = inode.direct_block_pointer (offset / bs) in
      bit_and inode.type_permissions 0x8000 ≢ 0
      → 0 < size
      → offset + size ≤ inode.size
      → inode.size < 2 ^ 32
      → offset / bs < 12
      → offset % bs + size < bs
      → pointer * bs < 2 ^ 32
      → let r = ext2_readfile drive fs m nr offset size buffer in
        (r.0 ≡ size)
        × ((i : ℕ)
            → i < size
            → (r.1) (buffer + i) ≡ disk (fs.p_offset + pointer * bs + offset % bs + i))
        × ((a : ℕ) → (a < buffer) ⊎ (buffer + size ≤ a) → (r.1) a ≡ m a)
ext2_readfile-one_block drive disk fs m nr offset size buffer reads file pos fits small direct one
      low =
    let run = one_block_run drive fs m nr offset size buffer file pos fits small direct one low in
    let bs = fs.ext2.block_size in
    let at =
      fs.p_offset
      + (ext2_get_inode drive fs nr).direct_block_pointer (offset / bs) * bs
      + offset % bs in
    rw run (
      refl,
      λ i l.
          copy_in_inside m buffer size (ata_read_b drive at size) i l
          ∙ ata_read_b_lem drive disk at size i reads l,
      λ a out. copy_in_outside m buffer size (ata_read_b drive at size) a out,
    )

-- Behind the first block of a read, no round of the loop reads anything.
read_blocks-later :
    (drive : Drive) (fs : Fs) (m : Memory) (nr start end so eo buffer blk n : ℕ)
    → start < blk
    → blk + n ≤ end
    → ((b : ℕ) → blk ≤ b → b < end → ext2_get_block_offset drive fs nr b ≢ 0)
    → read_blocks drive fs m nr start end so eo buffer blk n ≡ (true, m)
unfolding read_blocks
read_blocks-later drive fs m nr start end so eo buffer blk zero h k has = refl
read_blocks-later drive fs m nr start end so eo buffer blk (suc n) h k has =
    let rest =
      read_blocks-later drive fs m nr start end so eo buffer (suc blk) n (omega (arith, h))
        (omega (arith, k)) (λ b l. has b (omega (arith, l))) in
    let no_start = ne→not_== blk start (λ e. omega (arith, e, h)) in
    let no_end = ne→not_== blk end (λ e. omega (arith, e, k)) in
    let there =
      ne→not_== (ext2_get_block_offset drive fs nr blk) 0
        (has blk (omega arith) (omega (arith, k))) in
    rw (no_start, no_end, there) rest

moves_on : (offset size bs : ℕ) → offset / bs < (offset + size) / bs → size ≢ 0
moves_on offset size bs later e =
    let same : (offset + size) / bs ≡ offset / bs =
      ap (λ z. z / bs) {x = offset + size} {y = offset} (omega (arith, e)) in
    omega (arith, same, later)

-- A read of bytes of a file that goes on behind its first block, where the blocks before the last one
-- have offsets, returns the size asked for, but reads only the rest of the first block, and puts a 0 at
-- the size of the file behind the buffer.
pub ext2_readfile-later_blocks :
    (drive : Drive) (fs : Fs) (m : Memory) (nr offset size buffer : ℕ)
    → let bs = fs.ext2.block_size in
      let inode = ext2_get_inode drive fs nr in
      bit_and inode.type_permissions 0x8000 ≢ 0
      → offset + size ≤ inode.size
      → inode.size < 2 ^ 32
      → offset / bs < (offset + size) / bs
      → ((b : ℕ)
          → offset / bs ≤ b
          → b < (offset + size) / bs
          → ext2_get_block_offset drive fs nr b ≢ 0)
      → let first = fs.p_offset + ext2_get_block_offset drive fs nr (offset / bs) + offset % bs in
        ext2_readfile drive fs m nr offset size buffer
        ≡ (size, update (read_into drive m first (bs - offset % bs) buffer) (buffer + inode.size) 0)
unfolding ext2_readfile read_blocks
ext2_readfile-later_blocks drive fs m nr offset size buffer file fits small later has =
    let inode = ext2_get_inode drive fs nr in
    let bs = fs.ext2.block_size in
    let start = offset / bs in
    let last = (offset + size) / bs in
    let first = fs.p_offset + ext2_get_block_offset drive fs nr start + offset % bs in
    let m' = read_into drive m first (bs - offset % bs) buffer in
    let wanted = moves_on offset size bs later in
    let not_empty = ne→not_== size 0 wanted in
    let is_file = ne→not_== (bit_and inode.type_permissions 0x8000) 0 file in
    let not_zero = ne→not_== inode.size 0 (λ e. wanted (omega (arith, e, fits))) in
    let enough = le→not_ltb inode.size size (omega (arith, fits)) in
    let end = whole_end (offset + size) inode.size fits small in
    let other = ne→not_== start last (λ e. omega (arith, e, later)) in
    let rounds : last - start ≡ suc (last - start - 1) = omega (arith, later) in
    let there =
      ne→not_== (ext2_get_block_offset drive fs nr start) 0 (has start (omega arith) later) in
    let rest =
      read_blocks-later drive fs m' nr start last (offset % bs) ((offset + size) % bs) buffer
        (suc start) (last - start - 1) (omega arith) (omega (arith, later))
        (λ b l. has b (omega (arith, l))) in
    rw not_empty (
      rw is_file (
        rw (not_zero, enough)
          (rw end (rw other (rw rounds (rw (eq→== start start refl) (rw there (rw rest refl))))))))
