-- ===== src/Tests/Ext2.antt =====
-- A file of 3000 bytes on a partition at the second sector, and a directory of two entries.
use hydrangea.Prelude.{
  ℕ, ◌+◌, ◌-◌, ◌*◌, ◌/◌, ◌%◌, ◌≤◌, ◌<◌, ◌≡◌, ◌≢◌, ◌⊎◌, refl, arith, some, [], ◌∷◌, List, get_or,
  ◌==◌, if◌then◌else◌, update,
}
use hydrangea.Libk.Bytes.{Memory}
use hydrangea.Drivers.Disk.{Drive, ata_read_b}
use hydrangea.Fs.Ext2.{Fs, ext2_get_inode_offset, read_inode, ext2_get_inode, ext2_get_block_offset}
use hydrangea.Fs.Ext2.Files.{ext2_readfile, read_into}
use hydrangea.Fs.Ext2.Files.Blocks.{ext2_readfile-one_block, ext2_readfile-later_blocks}
use hydrangea.Fs.Ext2.Dir.{Dir, Dirent}
use hydrangea.Fs.Ext2.Dir.Listing.{Entry, all_described, read_entries, ext2_readdir-Listed}

-- The inode lies at 1536, and its blocks are 2, 3 and 4; every other byte of the disk is 7 or 0.
abbrev disk : Memory
disk q =
    if q == 1537
    then 0x80
    else if q == 1540
    then 0xB8
    else if q == 1541
    then 0x0B
    else if q == 1576
    then 2
    else if q == 1580
    then 3
    else if q == 1584
    then 4
    else if q == 2570
    then 7
    else 0

abbrev drive : Drive
drive blk size i = disk (512 * blk + i)

abbrev part : Fs
part = record {
  p_offset = 512;
  partition_number = 0;
  ext2 = record {
    superblock = record {
      inodes_count = 8;
      blocks_count = 16;
      log2_block_size_minus_10 = 0;
      blocks_per_group = 16;
      inodes_per_group = 8;
      ext2_signature = 0xEF53;
      fs_state = 1;
      error_handling_method = 1;
      inode_size = 128;
    };
    inode_table = λ g. 1;
    groups_count = 1;
    block_size = 1024;
  };
}

abbrev empty_memory : Memory
empty_memory a = 0

ext2_readfile-one_block_example :
    let r = ext2_readfile drive part empty_memory 1 10 5 100 in
    (r.0 ≡ 5)
    × ((i : ℕ)
        → i < 5
        → (r.1) (100 + i)
          ≡ disk (
              512
              + (ext2_get_inode drive part 1).direct_block_pointer (10 / 1024) * 1024
              + 10 % 1024
              + i))
    × ((a : ℕ) → (a < 100) ⊎ (100 + 5 ≤ a) → (r.1) a ≡ 0)
unfolding ext2_get_inode read_inode ext2_get_inode_offset ata_read_b
ext2_readfile-one_block_example =
    ext2_readfile-one_block drive disk part empty_memory 1 10 5 100 (λ blk size i l. refl)
      (λ e. omega (arith, e)) (omega arith) (omega arith) (omega arith) (omega arith) (omega arith)
      (omega arith)

later : (b : ℕ) → 0 ≤ b → b < 2 → ext2_get_block_offset drive part 1 b ≢ 0
unfolding ext2_get_block_offset ext2_get_inode read_inode ext2_get_inode_offset ata_read_b
later b l u = ground arith

ext2_readfile-later_blocks_example : ext2_readfile drive part empty_memory 1 10 2500 100 ≡ (
  2500,
  update
      (read_into drive empty_memory
        (512 + ext2_get_block_offset drive part 1 (10 / 1024) + 10 % 1024)
        (1024 - 10 % 1024)
        100)
      (100 + (ext2_get_inode drive part 1).size)
      0,
)
unfolding ext2_get_inode read_inode ext2_get_inode_offset ata_read_b
ext2_readfile-later_blocks_example =
    ext2_readfile-later_blocks drive part empty_memory 1 10 2500 100 (λ e. omega (arith, e))
      (omega arith) (omega arith) (omega arith) later

-- "." and "ab"
abbrev entries : List Entry
entries =
    record { inode_number = 11; entry_size = 12; type = 2; name = 46 ∷ [] }
    ∷ record { inode_number = 12; entry_size = 12; type = 1; name = 97 ∷ 98 ∷ [] }
    ∷ []

abbrev listing : Memory
listing q =
    get_or
      (11 ∷ 0 ∷ 0 ∷ 0 ∷ 12 ∷ 0 ∷ 1 ∷ 2 ∷ 46 ∷ 0 ∷ 0 ∷ 0 ∷ 12 ∷ 0 ∷ 0 ∷ 0 ∷ 12 ∷ 0 ∷ 2 ∷ 1 ∷ 97 ∷ 98
        ∷ 0 ∷ 0 ∷ [])
      q 0

abbrev small_part : Fs
small_part = record part { ext2 = record (part.ext2) { block_size = 24 } }

abbrev no_entry : Dirent
no_entry = record { inode_number = 0; size = 0; type = 0; permissions = 0; name = [] }

abbrev opened : Dir
opened = record {
  inode_number = 2;
  block_buffer = listing;
  bp_index = 0;
  so_far = 0;
  next = 0;
  ent = no_entry;
}

ext2_readdir-Listed_example :
    (last : Dir) × (read_entries drive small_part opened 2
      ≡ some (all_described drive small_part entries, last))
    × (last.so_far ≡ 24)
    × (last.bp_index ≡ 0)
ext2_readdir-Listed_example =
    ext2_readdir-Listed drive small_part opened entries refl (omega arith) (
      omega arith,
      refl,
      λ e. omega (arith, e),
      refl,
      refl,
      refl,
      refl,
      (omega arith, refl, λ e. omega (arith, e), refl, refl, refl, refl, refl),
    )
