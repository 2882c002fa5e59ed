-- ===== src/Tests/Fs.antt =====
-- A root with one child "a", a file of three bytes, and three open files.
use hydrangea.Prelude.{
  ℕ, ◌-◌, ◌≡◌, refl, [], ◌∷◌, arith, inl, inr, true, some, none, ltb, leb, ◌==◌, ◌&&◌,
  if◌then◌else◌, block,
}
use hydrangea.Libk.Bytes.{Memory}
use hydrangea.Ds.DynList.{Grow, list_get}
use hydrangea.Ds.DynList.Laws.{IsValid}
use hydrangea.Fs.Vfs.{VfsNode, VfsFile, Vfs, Literals, vfs_get_child_by_name}
use hydrangea.Fs.Vfs.Find.{LookedUp, vfs_get_child_by_name-LookedUp}
use hydrangea.Fs.Files.{tmpfs_vfs_read, tmpfs_vfs_write}
use hydrangea.Fs.Files.Tmpfs.{tmpfs_vfs_read-tmpfs_vfs_write}
use hydrangea.Fs.Descriptors.{OpenFiles, fd_close, fd_to_node}
use hydrangea.Fs.Descriptors.Shift.{fd_close-fd_to_node}

abbrev node : (name parent childs next : ℕ) → VfsNode
node name parent childs next = record {
  name = name;
  parent = parent;
  childs = childs;
  file = 300;
  next = next;
  prev = 0;
}

abbrev file : (inode size : ℕ) → VfsFile
file inode size = record {
  name = 10;
  type = 0;
  permissions = 0;
  uid = 0;
  gid = 0;
  inode = inode;
  size = size;
  fs = 0;
  read_file = 0;
  write_file = 0;
  open_file = 0;
  close_file = 0;
  readdir = 0;
  finddir = 0;
  ptr = 0;
}

-- "a" at 10 and 20, "." at 30 and ".." at 32.
abbrev text : Memory
text p =
    if p == 10
    then 97
    else if p == 20
    then 97
    else if p == 30
    then 46
    else if p == 32
    then 46
    else if p == 33
    then 46
    else if leb 60 p && ltb p 71
    then 55
    else 0

abbrev tree : Vfs
tree = record {
  nodes = λ p. if p == 100 then node 40 100 200 0 else node 10 100 0 0;
  files = λ p. if p == 300 then file 60 3 else file 0 0;
  bytes = text;
  vfs_root = 100;
  strtok_i = 0;
  allocations = 0;
  freed = [];
}

abbrev literals : Literals
literals = record { dot = 30; dotdot = 32; slash = 36; space = 38 }

abbrev heap : ℕ → ℕ
heap n = if n == 0 then 400 else if n == 1 then 500 else 600

vfs_get_child_by_name-LookedUp_example :
    (r : ℕ) × (vfs_get_child_by_name tree literals 100 20 3 ≡ some r)
    × LookedUp tree 100 ((200, 97 ∷ []) ∷ []) (97 ∷ []) r
vfs_get_child_by_name-LookedUp_example =
    vfs_get_child_by_name-LookedUp tree literals 100 20 3 ((200, 97 ∷ []) ∷ []) (97 ∷ [])
      (refl, (λ e. omega (arith, e)), refl)
      (refl, (λ e. omega (arith, e)), (refl, (λ e. omega (arith, e)), refl))
      (refl, (λ e. omega (arith, e)), (refl, (λ e. omega (arith, e)), refl), refl)
      (refl, (λ e. omega (arith, e)), refl) (omega arith) (omega arith, tt) (omega arith)

abbrev elsewhere : Memory → (ptr size : ℕ) → ℕ × Memory
elsewhere m ptr size = (700, m)

tmpfs_vfs_read-tmpfs_vfs_write_example :
    ((tmpfs_vfs_read (tmpfs_vfs_write heap elsewhere tree 301 0 11 60).1 301 0 11 800).0 ≡ 11)
    × (block
          (tmpfs_vfs_read (tmpfs_vfs_write heap elsewhere tree 301 0 11 60).1 301 0 11 800).1.bytes
          800
          11
        ≡ block text 60 11)
tmpfs_vfs_read-tmpfs_vfs_write_example =
    tmpfs_vfs_read-tmpfs_vfs_write heap elsewhere tree 301 11 60 800 refl refl (omega arith)
      (omega arith) (λ i l. refl) (inr (omega arith)) (inl (omega arith))

-- Entries 1 to 3 of the global table, for the nodes 101 to 103, and descriptors of them.
abbrev open_files : OpenFiles
open_files = record {
  gft = record { items = 0 ∷ 1001 ∷ 1002 ∷ 1003 ∷ 0 ∷ []; used = 4; size = 5 };
  entries = λ p. record { node = p - 900; locked_by = 0; ref_count = 1 };
  descriptors = λ p. record { gft_index = p; offset = 0; can_read = 1; can_write = 1 };
  file_descriptors = record { items = 1 ∷ 2 ∷ 3 ∷ []; used = 3; size = 3 };
  pid = 7;
  interrupts = true;
  allocations = 0;
  freed = [];
}

abbrev zeros : ℕ → ℕ
zeros p = 0

abbrev no_growth : Grow
no_growth items n = none

valid : IsValid open_files.gft
valid = record {
  storage = refl;
  used_le = omega arith;
  size_pos = omega arith;
  size_small = omega arith;
}

fd_close-fd_to_node_example :
    fd_to_node zeros no_growth heap (fd_close zeros no_growth heap open_files 1).1 2 ≡ 103
unfolding list_get
fd_close-fd_to_node_example =
    fd_close-fd_to_node zeros no_growth heap open_files 1 2 valid refl (omega arith) (omega arith)
