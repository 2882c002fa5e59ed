-- ===== src/Fs/Descriptors.antt =====
-- kernel/fs/file_descriptor.c and kernel/fs/file_ops.c: the global table of open files, the descriptors
-- of the current task, and open, close, read and write. Tables are lists of list.c, entries and
-- descriptors structures in memory. `interrupts` is the flag that get_eflags_and_cli clears and
-- set_eflags restores. A pointer is followed without a test, also a NULL that list_get returns.
pub mod Lock
pub mod Shift
use Prim.Native.Nat.{bit_and}
use hydrangea.Prelude.{
  ℕ, zero, suc, ◌+◌, ◌-◌, ◌*◌, ◌%◌, ◌^◌, Bool, true, false, Option, none, some, List, [], ◌∷◌, ◌==◌,
  ◌||◌, if◌then◌else◌, update, not,
}
use hydrangea.Ds.DynList.{DynList, Grow, make_list, list_push, list_delete, list_get}
use hydrangea.Fs.Vfs.{VfsNode, Vfs, Literals}
use hydrangea.Fs.Path.{vfs_node_from_path}
use hydrangea.Fs.Files.{vfs_read, vfs_write}

-- `gft_entry_t`
pub record GftEntry : Type 0 where
  pub node : ℕ
  pub locked_by : ℕ
  pub ref_count : ℕ

-- `file_descriptor_t`
pub record FileDescriptor : Type 0 where
  pub gft_index : ℕ
  pub offset : ℕ
  pub can_read : ℕ
  pub can_write : ℕ

-- `gft`, the entries and descriptors in memory, the current task's table and pid, the allocations
-- counted and what was given back.
pub record OpenFiles : Type 0 where
  pub gft : DynList
  pub entries : ℕ → GftEntry
  pub descriptors : ℕ → FileDescriptor
  pub file_descriptors : DynList
  pub pid : ℕ
  pub interrupts : Bool
  pub allocations : ℕ
  pub freed : List ℕ

-- `gft_init`; `block` is what `kmalloc` returns for the table.
unfoldable pub gft_init : (block : List ℕ) → OpenFiles → ℕ × OpenFiles
gft_init block s = (0, record s { gft = record (make_list block 1024) { used = 1 } })

-- `get_eflags_and_cli`, and `set_eflags` with the flags saved before
abbrev pub cli : OpenFiles → OpenFiles
cli s = record s { interrupts = false }

abbrev pub set_eflags : OpenFiles → Bool → OpenFiles
set_eflags s ef = record s { interrupts = ef }

-- `gft_entry_exists`, which returns before it looks
unfoldable pub gft_entry_exists : OpenFiles → (node : ℕ) → ℕ
gft_entry_exists s node = 0

-- The entry at an index of the global table.
abbrev pub gft_entry : (beyond : ℕ → ℕ) → OpenFiles → (index : ℕ) → ℕ
gft_entry beyond s index = list_get beyond s.gft index

abbrev pub set_entry : OpenFiles → (p : ℕ) → GftEntry → OpenFiles
set_entry s p e = record s { entries = update s.entries p e }

-- `(flags & a) || (flags & b)`
unfoldable pub has_flag : (flags a b : ℕ) → ℕ
has_flag flags a b = if bit_and flags a == 0 then (if bit_and flags b == 0 then 0 else 1) else 1

module _ (beyond : ℕ → ℕ) (grow : Grow) (kmalloc : ℕ → ℕ) where
  unfoldable pub gft_inc_ref_count : OpenFiles → (index : ℕ) → OpenFiles
  gft_inc_ref_count s index =
      let e = s.entries (gft_entry beyond s index) in
      set_entry s (gft_entry beyond s index) (record e { ref_count = (e.ref_count + 1) % 2 ^ 32 })

  unfoldable pub gft_dec_ref_count : OpenFiles → (index : ℕ) → OpenFiles
  gft_dec_ref_count s index =
      let e = s.entries (gft_entry beyond s index) in
      set_entry s (gft_entry beyond s index)
        (record e { ref_count = (e.ref_count + 2 ^ 32 - 1) % 2 ^ 32 })

  unfoldable pub gft_get_ref_count : OpenFiles → (index : ℕ) → ℕ
  gft_get_ref_count s index = (s.entries (gft_entry beyond s index)).ref_count

  -- `gft_add`; an entry found leaves the interrupts off.
  unfoldable pub gft_add : OpenFiles → (node : ℕ) → Option (ℕ × OpenFiles)
  gft_add s node =
      let ef = s.interrupts in
      let i = gft_entry_exists s node in
      let e = kmalloc s.allocations in
      let new : Option (ℕ × OpenFiles) = elim (list_push grow s.gft e) [
        | none ↦ none
        | some (i, gft) ↦ some (
          i,
          record s {
            gft = gft;
            entries = update s.entries e (record { node = node; locked_by = 0; ref_count = 1 });
            interrupts = ef;
            allocations = s.allocations + 1;
          },
        )
      ] in
      if i == 0 then new else some (i, gft_inc_ref_count (cli s) i)

  unfoldable pub gft_delete : OpenFiles → (index : ℕ) → ℕ × OpenFiles
  gft_delete s index = (0, record s { gft = (list_delete beyond s.gft index).1 })

  unfoldable pub gft_lock : OpenFiles → (index : ℕ) → ℕ × OpenFiles
  gft_lock s index = (
    0,
    set_entry s (gft_entry beyond s index)
        (record (s.entries (gft_entry beyond s index)) { locked_by = s.pid }),
  )

  unfoldable pub gft_unlock : OpenFiles → (index : ℕ) → ℕ × OpenFiles
  gft_unlock s index =
      let e = s.entries (gft_entry beyond s index) in
      if e.locked_by == s.pid
      then (0, set_entry s (gft_entry beyond s index) (record e { locked_by = 0 }))
      else (1, s)

  -- `fd_open`
  unfoldable pub fd_open : OpenFiles → (node flags : ℕ) → Option (ℕ × OpenFiles)
  fd_open s node flags =
      let ef = s.interrupts in
      elim (gft_add (cli s) node) [
        | none ↦ none
        | some (index, s) ↦
            let fd = kmalloc s.allocations in
            some (
              fd,
              record s {
                descriptors = update s.descriptors fd (record {
                  gft_index = index;
                  offset = 0;
                  can_read = has_flag flags 4 1;
                  can_write = has_flag flags 4 2;
                });
                interrupts = ef;
                allocations = s.allocations + 1;
              },
            )
      ]

  unfoldable pub fd_close : OpenFiles → (fd : ℕ) → ℕ × OpenFiles
  fd_close s fd =
      let index = (s.descriptors fd).gft_index in
      let s = gft_dec_ref_count s index in
      let s = if gft_get_ref_count s index == 0 then (gft_delete s index).1 else s in
      (0, record s { freed = fd ∷ s.freed })

  unfoldable pub fd_seek : OpenFiles → (fd offset : ℕ) → ℕ × OpenFiles
  fd_seek s fd offset = (
    0,
    record s {
      descriptors = update s.descriptors fd (record (s.descriptors fd) { offset = offset });
    },
  )

  unfoldable pub fd_lock : OpenFiles → (fd : ℕ) → ℕ × OpenFiles
  fd_lock s fd = (0, (gft_lock s (s.descriptors fd).gft_index).1)

  unfoldable pub fd_unlock : OpenFiles → (fd : ℕ) → ℕ × OpenFiles
  fd_unlock s fd = (0, (gft_unlock s (s.descriptors fd).gft_index).1)

  unfoldable pub fd_locked_by : OpenFiles → (fd : ℕ) → ℕ
  fd_locked_by s fd = (s.entries (gft_entry beyond s (s.descriptors fd).gft_index)).locked_by

  unfoldable pub fd_to_node : OpenFiles → (fd : ℕ) → ℕ
  fd_to_node s fd = (s.entries (gft_entry beyond s (s.descriptors fd).gft_index)).node

  -- `open`: the index in the task's table.
  unfoldable pub open_path :
      OpenFiles → Vfs → Literals → (path flags fuel : ℕ) → Option (ℕ × OpenFiles × Vfs)
  open_path s v lit path flags fuel =
      let ef = s.interrupts in
      let v = record v { allocations = s.allocations } in
      elim (vfs_node_from_path kmalloc v lit v.vfs_root path fuel) [
        | none ↦ none
        | some (node, v) ↦
            let s = record (cli s) { allocations = v.allocations } in
            elim (fd_open s node flags) [
              | none ↦ none
              | some (fd, s) ↦ elim (list_push grow s.file_descriptors fd) [
                | none ↦ none
                | some (i, table) ↦
                    some (i, record s { file_descriptors = table; interrupts = ef }, v)
              ]
            ]
      ]

  -- `close`; a descriptor that is not found leaves the interrupts off.
  unfoldable pub close_fd : OpenFiles → (fd : ℕ) → ℕ × OpenFiles
  close_fd s fd =
      let ef = s.interrupts in
      let d = list_get beyond s.file_descriptors fd in
      let closed = (fd_close (cli s) d).1 in
      if d == 0 then (2 ^ 32 - 1, cli s) else (
        0,
        record closed {
          file_descriptors = (list_delete beyond closed.file_descriptors fd).1;
          interrupts = ef;
        },
      )

  -- `read` and `write`, which leave the flag of the interrupts as it was; `table` has the functions that
  -- files point to.
  unfoldable pub read_fd :
      (table : ℕ → Vfs → ℕ → ℕ → ℕ → ℕ → Option (ℕ × Vfs))
      → OpenFiles
      → Vfs
      → (fd buffer size : ℕ) → Option (ℕ × Vfs)
  read_fd table s v fd buffer size =
      let d = list_get beyond s.file_descriptors fd in
      let file = (v.nodes (fd_to_node s d)).file in
      if d == 0
      then some (0, v)
      else if (s.descriptors d).can_read == 0
      then some (0, v)
      else vfs_read table v file (s.descriptors d).offset size buffer

  unfoldable pub write_fd :
      (table : ℕ → Vfs → ℕ → ℕ → ℕ → ℕ → Option (ℕ × Vfs))
      → OpenFiles
      → Vfs
      → (fd buffer size : ℕ) → Option (ℕ × Vfs)
  write_fd table s v fd buffer size =
      let d = list_get beyond s.file_descriptors fd in
      let file = (v.nodes (fd_to_node s d)).file in
      if d == 0
      then some (0, v)
      else if (s.descriptors d).can_write == 0
      then some (0, v)
      else vfs_write table v file (s.descriptors d).offset size buffer
