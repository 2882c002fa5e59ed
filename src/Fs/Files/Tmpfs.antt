-- ===== src/Fs/Files/Tmpfs.antt =====
-- Reading and writing of files in memory (tmpfs.c and initrd.c).
use hydrangea.Prelude.{
  ℕ, ◌+◌, ◌-◌, ◌%◌, ◌^◌, ◌≤◌, ◌<◌, ◌≡◌, ◌⊎◌, inl, inr, refl, ap, ◌∙◌, arith, true, false, leb, min,
  lt→ltb, le→not_ltb, eq→==, block, block_ext,
}
use native.Mathlib.Decide.{dec_lt}
use hydrangea.Libk.Bytes.{Memory, memcpy}
use hydrangea.Libk.Bytes.Laws.{moved, memcpy-moved}
use hydrangea.Fs.Vfs.{Vfs}
use hydrangea.Fs.Files.{tmpfs_vfs_read, tmpfs_vfs_write}

-- `tmpfs_vfs_read` within 32 bits returns the number of bytes that are left behind the offset, `size` at
-- most, copies these bytes of the file into the buffer, and changes no other byte and no file, if the
-- file does not reach into the buffer from below.
pub tmpfs_vfs_read-moved :
    (s : Vfs) (node offset size buffer : ℕ)
    → offset + size < 2 ^ 32
    → (buffer ≤ (s.files node).inode + offset) ⊎ ((s.files node).inode + offset + size ≤ buffer)
    → let count = min size ((s.files node).size - offset) in
      ((tmpfs_vfs_read s node offset size buffer).0 ≡ count)
      × ((q : ℕ)
          → (tmpfs_vfs_read s node offset size buffer).1.bytes q
            ≡ moved s.bytes buffer ((s.files node).inode + offset) count q)
      × ((tmpfs_vfs_read s node offset size buffer).1.files ≡ s.files)
unfolding tmpfs_vfs_read
tmpfs_vfs_read-moved s node offset size buffer fits apart =
    elim (dec_lt offset (s.files node).size) [
      | no beyond ↦
          let past : leb (s.files node).size offset ≡ true = ground arith in
          rw past (omega arith, (λ q. ground arith), refl)
      | yes inside ↦
          let before : leb (s.files node).size offset ≡ false = ground arith in
          let start = (s.files node).inode + offset in
          elim (dec_lt (s.files node).size (offset + size)) [
            | yes cut ↦
                let short = lt→ltb (s.files node).size ((offset + size) % 2 ^ 32) (omega arith) in
                let count : min size ((s.files node).size - offset) ≡ (s.files node).size - offset =
                  omega arith in
                let left = (s.files node).size - offset in
                let near : (buffer ≤ start) ⊎ (start + left ≤ buffer) = elim apart [
                  | inl l ↦ inl l
                  | inr r ↦ inr (omega arith)
                ] in
                rw (before, short, count)
                  (refl, (λ q. memcpy-moved s.bytes buffer start left q near), refl)
            | no whole ↦
                let long =
                  le→not_ltb (s.files node).size ((offset + size) % 2 ^ 32) (omega arith) in
                let count : min size ((s.files node).size - offset) ≡ size = omega arith in
                rw (before, long, count)
                  (refl, (λ q. memcpy-moved s.bytes buffer start size q apart), refl)
          ]
    ]

moved_at : (m : Memory) (d s n i : ℕ) → i < n → moved m d s n (d + i) ≡ m (s + i)
moved_at m d s n i h = let e : s + (d + i - d) ≡ s + i = omega arith in ground (arith, ap m e)

new_file_written :
    (kmalloc : ℕ → ℕ) (krealloc : Memory → (ptr size : ℕ) → ℕ × Memory) (s : Vfs)
    (node size buffer : ℕ)
    → (s.files node).inode ≡ 0
    → (s.files node).size ≡ 0
    → 0 < size
    → size < 2 ^ 32
    → let given = krealloc s.bytes (kmalloc s.allocations) size in
      let s' = (tmpfs_vfs_write kmalloc krealloc s node 0 size buffer).1 in
      ((s'.files node).inode ≡ given.0)
      × ((s'.files node).size ≡ size)
      × ((q : ℕ) → s'.bytes q ≡ memcpy given.1 given.0 buffer size q)
unfolding tmpfs_vfs_write
new_file_written kmalloc krealloc s node size buffer empty no_bytes some_size small =
    let grows = lt→ltb 0 size some_size in
    let whole : (0 + size) % 2 ^ 32 ≡ size = omega arith in
    let given = krealloc s.bytes (kmalloc s.allocations) size in
    let start : given.0 + 0 ≡ given.0 = omega arith in
    rw (empty, no_bytes)
      (rw (grows, eq→== node node refl)
        (refl, whole, λ q. ap (λ p. memcpy given.1 p buffer size q) start))

-- What `tmpfs_vfs_write` puts into a new file, an empty one without memory, comes back from
-- `tmpfs_vfs_read` at offset 0 of the same size, if `krealloc` gives memory away from the buffer and
-- keeps the buffer's bytes, and the buffer that is read into is away from that memory, too.
pub tmpfs_vfs_read-tmpfs_vfs_write :
    (kmalloc : ℕ → ℕ) (krealloc : Memory → (ptr size : ℕ) → ℕ × Memory) (s : Vfs)
    (node size buffer out : ℕ)
    → (s.files node).inode ≡ 0
    → (s.files node).size ≡ 0
    → 0 < size
    → size < 2 ^ 32
    → let given = krealloc s.bytes (kmalloc s.allocations) size in
      ((i : ℕ) → i < size → given.1 (buffer + i) ≡ s.bytes (buffer + i))
      → (given.0 + size ≤ buffer) ⊎ (buffer + size ≤ given.0)
      → (given.0 + size ≤ out) ⊎ (out + size ≤ given.0)
      → let s' = (tmpfs_vfs_write kmalloc krealloc s node 0 size buffer).1 in
        ((tmpfs_vfs_read s' node 0 size out).0 ≡ size)
        × (block (tmpfs_vfs_read s' node 0 size out).1.bytes out size ≡ block s.bytes buffer size)
tmpfs_vfs_read-tmpfs_vfs_write kmalloc krealloc s node size buffer out empty no_bytes some_size
      small keeps away apart =
    let s' = (tmpfs_vfs_write kmalloc krealloc s node 0 size buffer).1 in
    let given = krealloc s.bytes (kmalloc s.allocations) size in
    let (at, length, bytes) =
      new_file_written kmalloc krealloc s node size buffer empty no_bytes some_size small in
    let clear : (out ≤ (s'.files node).inode + 0) ⊎ ((s'.files node).inode + 0 + size ≤ out) =
      elim apart [ inl l ↦ inr (omega (arith, l, at)) | inr r ↦ inl (omega (arith, r, at)) ] in
    let (count, copied, _) = tmpfs_vfs_read-moved s' node 0 size out (omega arith) clear in
    let all : min size ((s'.files node).size - 0) ≡ size = omega (arith, length) in
    let near : (given.0 ≤ buffer) ⊎ (buffer + size ≤ given.0) = elim away [
      | inl l ↦ inl (omega (arith, l))
      | inr r ↦ inr r
    ] in
    (
      count ∙ all,
      block_ext (tmpfs_vfs_read s' node 0 size out).1.bytes s.bytes out buffer size (λ i l.
          let read = copied (out + i) in
          let there : (s'.files node).inode + 0 + i ≡ given.0 + i = omega (arith, at) in
          read
          ∙ ap (λ n. moved s'.bytes out ((s'.files node).inode + 0) n (out + i)) all
          ∙ moved_at s'.bytes out ((s'.files node).inode + 0) size i l
          ∙ bytes ((s'.files node).inode + 0 + i)
          ∙ ap (λ q. memcpy given.1 given.0 buffer size q) there
          ∙ memcpy-moved given.1 given.0 buffer size (given.0 + i) near
          ∙ moved_at given.1 given.0 buffer size i l
          ∙ keeps i l),
    )
