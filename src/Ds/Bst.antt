-- ===== src/Ds/Bst.antt =====
-- kernel/ds/BST.c: the binary search tree. A tree is what a `BST_node_t *` points to, `leaf` for NULL;
-- nodes are not shared, so an operation that changes them in place returns the tree that its argument
-- then points to. `pmalloc` does not fail.
pub mod Order
pub mod Removal
use hydrangea.Prelude.{ℕ, Bool, true, false, ◌==◌, if◌then◌else◌}
use hydrangea.Ds.Comparator.{Comparator, above, below}

-- `BST_node_t *`
pub data Tree : Type 0 where
  leaf : Tree
  node : (left : Tree) (key : ℕ) (right : Tree) → Tree

abbrev pub is_leaf : Tree → Bool
is_leaf leaf = true
is_leaf (node l k r) = false

-- A fresh node with no children.
abbrev pub single : ℕ → Tree
single key = node leaf key leaf

-- `BST_add`: on NULL it fills a node that only its own argument points to, so the caller's tree stays
-- NULL; it adds below an existing node.
pub bst_add : Tree → ℕ → Comparator → Tree
bst_add leaf key cmp = leaf
bst_add (node l k r) key cmp =
    let right = if is_leaf r then single key else bst_add r key cmp in
    let left = if is_leaf l then single key else bst_add l key cmp in
    if cmp key k == above
    then node l k right
    else if cmp key k == below
    then node left k r
    else node l k r

-- The key of the leftmost node of `node l k r`, the loop `inorder_s = inorder_s->left`.
abbrev pub leftmost : Tree → ℕ → ℕ
leftmost leaf k = k
leftmost (node l k' r) k = leftmost l k'

-- The branch of `BST_remove` that has found the key; `rest` is `BST_remove(root->right, key)`.
pub unlink : (left : Tree) (key : ℕ) (right rest : Tree) → Tree
unlink leaf key leaf rest = leaf
unlink leaf key (node rl k rr) rest = leaf
unlink (node ll lk lr) key leaf rest = leaf
unlink (node ll lk lr) key (node rl k rr) rest = node (node ll lk lr) (leftmost rl k) rest

pub bst_remove : Tree → ℕ → Comparator → Tree
unfolding unlink
bst_remove leaf key cmp = leaf
bst_remove (node l k r) key cmp =
    let right = bst_remove r key cmp in
    let left = bst_remove l key cmp in
    if cmp key k == above
    then (if is_leaf r then node l k r else node l k right)
    else if cmp key k == below
    then (if is_leaf l then node l k r else node left k r)
    else unlink l k r right

-- `BST_find`: the node found, with what hangs below it.
unfoldable pub bst_find : Tree → ℕ → Comparator → Tree
bst_find leaf key cmp = leaf
bst_find (node l k r) key cmp =
    let right = bst_find r key cmp in
    let left = bst_find l key cmp in
    if cmp key k == above
    then (if is_leaf r then leaf else right)
    else if cmp key k == below
    then (if is_leaf l then leaf else left)
    else node l k r
