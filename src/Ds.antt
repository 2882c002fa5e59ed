-- ===== src/Ds.antt =====
-- kernel/ds: the growing array (list.c), the ordered array (ordered_list.c) and the binary search
-- tree (BST.c), with the comparators of comparator.h.
pub mod Comparator
pub mod DynList
pub mod OrderedList
pub mod Bst
