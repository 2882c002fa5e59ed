-- ===== src/Ds/OrderedList/Insert.antt =====
-- `ol_insert` of ordered_list.c is insertion into a sorted list.
use mathlib.Core.Path.{ap₂, subst}
use mathlib.Core.List.{Perm}
use mathlib.Core.List.Perm
use native.Mathlib.Decide.{ℕ_discrete}
use hydrangea.Prelude.{
  ℕ, zero, suc, ◌+◌, ◌-◌, ◌^◌, ◌≤◌, ◌<◌, ◌≡◌, refl, inl, inr, ap, sym, ◌∙◌, true, false, List, [],
  ◌∷◌, ◌++◌, arith, ltb, ◌==◌, if◌then◌else◌, take, All, update, update_ne, block, block_ext,
  block-append, block-update_ne, ne→not_==, eq→==, not_==→ne, ==→eq, lt→ltb, Bool-cases,
}
use hydrangea.Ds.Comparator.{Comparator, Ranks, above, not_below, not_above}
use hydrangea.Ds.OrderedList.{OrderedList, find_slot, shift_up, ol_insert}

abbrev pub elements : OrderedList → List ℕ
elements ol = block ol.items 0 ol.size

-- Insertion in front of the first item that the new one is not above.
pub insert : Comparator → ℕ → List ℕ → List ℕ
insert cmp x [] = x ∷ []
insert cmp x (y ∷ ys) = if cmp x y == above then y ∷ insert cmp x ys else x ∷ y ∷ ys

-- The slot that the first loop finds splits the array where `insert` does.
record Slot (cmp : Comparator) (x : ℕ) (items : ℕ → ℕ) (i n slot : ℕ) : Type 0 where
  before : ℕ
  place : slot ≡ i + before
  in_range : before ≤ n
  splits :
      insert cmp x (block items i n)
      ≡ block items i before ++ (x ∷ block items (i + before) (n - before))

find_slot-zero :
    (cmp : Comparator) (x : ℕ) (items : ℕ → ℕ) (size i : ℕ) → find_slot cmp x items size i zero ≡ i
unfolding find_slot
find_slot-zero cmp x items size i = refl

find_slot_go :
    (cmp : Comparator) (x : ℕ) (items : ℕ → ℕ) (size i n : ℕ)
    → (cmp x (items i) == above) ≡ true
    → i < size
    → find_slot cmp x items size i (suc n) ≡ find_slot cmp x items size (suc i) n
unfolding find_slot
find_slot_go cmp x items size i n go h =
    let inside : ltb i size ≡ true = lt→ltb i size h in rw (go, inside, find_slot)

find_slot_stop :
    (cmp : Comparator) (x : ℕ) (items : ℕ → ℕ) (size i n : ℕ)
    → (cmp x (items i) == above) ≡ false
    → find_slot cmp x items size i (suc n) ≡ i
unfolding find_slot
find_slot_stop cmp x items size i n stop = rw (stop, find_slot)

find_slot-Slot :
    (cmp : Comparator) (x : ℕ) (items : ℕ → ℕ) (size i n : ℕ)
    → i + n ≡ size
    → Slot cmp x items i n (find_slot cmp x items size i n)
unfolding insert
find_slot-Slot cmp x items size i zero e = record {
  before = 0;
  place = find_slot-zero cmp x items size i ∙ omega arith;
  in_range = omega arith;
  splits = refl;
}
find_slot-Slot cmp x items size i (suc n) e = elim (Bool-cases (cmp x (items i) == above)) [
  | inl go ↦
      let rest = find_slot-Slot cmp x items size (suc i) n (omega arith) in
      let b = rest.before in
      subst (Slot cmp x items i (suc n)) (sym (find_slot_go cmp x items size i n go (omega arith)))
        (record {
          before = suc b;
          place = omega (arith, rest.place);
          in_range = omega (arith, rest.in_range);
          splits = rw go (
              ap (λ l. items i ∷ l) rest.splits
              ∙ ap₂ (λ p k. items i ∷ (block items (suc i) b ++ (x ∷ block items p k)))
                  (omega arith) (omega arith));
        })
  | inr stop ↦
      subst (Slot cmp x items i (suc n)) (sym (find_slot_stop cmp x items size i n stop)) (record {
        before = 0;
        place = omega arith;
        in_range = omega arith;
        splits = rw stop (
            ap₂ (λ p k. x ∷ block items p k) {x = i} {y = i + 0} {u = suc n} {v = suc n - 0}
              (omega arith) (omega arith));
      })
]

-- What the second loop leaves: below its start nothing changes, and behind it all has moved up by one.
shift_up_below : (items : ℕ → ℕ) (tmp i n j : ℕ) → j ≤ i → shift_up items tmp i n j ≡ items j
unfolding shift_up
shift_up_below items tmp i zero j h = refl
shift_up_below items tmp i (suc n) j h =
    ground (arith, shift_up_below (update items (suc i) tmp) (items (suc i)) (suc i) n j)

block-shift_up :
    (items : ℕ → ℕ) (tmp i n : ℕ)
    → block (shift_up items tmp i n) (suc i) n ≡ take n (tmp ∷ block items (suc i) n)
unfolding shift_up
block-shift_up items tmp i zero = refl
block-shift_up items tmp i (suc n) =
    ap₂ ◌∷◌
      (shift_up_below (update items (suc i) tmp) (items (suc i)) (suc i) n (suc i) (omega arith)
        ∙ ground arith)
      (block-shift_up (update items (suc i) tmp) (items (suc i)) (suc i) n
        ∙ ap₂ (λ h l. take n (h ∷ l)) refl
            (block-update_ne items (suc (suc i)) n (suc i) tmp (λ k h. omega arith)))

take-block : (items : ℕ → ℕ) (i n : ℕ) → take n (items i ∷ block items (suc i) n) ≡ block items i n
take-block items i zero = refl
take-block items i (suc n) = ap (λ l. items i ∷ l) (take-block items (suc i) n)

shift_up_above : (items : ℕ → ℕ) (tmp i n j : ℕ) → i + n < j → shift_up items tmp i n j ≡ items j
unfolding shift_up
shift_up_above items tmp i zero j h = refl
shift_up_above items tmp i (suc n) j h =
    ground (arith, shift_up_above (update items (suc i) tmp) (items (suc i)) (suc i) n j)

-- The array after `x` has gone into slot `s`.
abbrev inserted : (ℕ → ℕ) → (x s n : ℕ) → ℕ → ℕ
inserted items x s n = shift_up (update items s x) (items s) s n

block-inserted :
    (items : ℕ → ℕ) (x s n : ℕ)
    → block (inserted items x s n) 0 (s + suc n) ≡ block items 0 s ++ (x ∷ block items s n)
block-inserted items x s n =
    let f = inserted items x s n in
    let at_slot : f s ≡ x =
      shift_up_below (update items s x) (items s) s n s (omega arith) ∙ ground arith in
    let behind : block f (suc s) n ≡ block items s n =
      block-shift_up (update items s x) (items s) s n
      ∙ ap (λ l. take n (items s ∷ l)) (block-update_ne items (suc s) n s x (λ k h. omega arith))
      ∙ take-block items s n in
    let front : block f 0 s ≡ block items 0 s =
      block_ext f items 0 0 s λ k h.
        shift_up_below (update items s x) (items s) s n (0 + k) (omega arith) ∙ ground arith in
    let start : 0 + s ≡ s = omega arith in
    block-append f 0 s (suc n) ∙ ap₂ ◌++◌ front (rw start (ap₂ ◌∷◌ at_slot behind))

items-ol_insert :
    (ol : OrderedList) (x : ℕ) (cmp : Comparator) (slot : ℕ)
    → find_slot cmp x ol.items ol.size 0 ol.size ≡ slot
    → (ol_insert ol x cmp).items ≡ inserted ol.items x slot (ol.size - slot)
unfolding ol_insert shift_up
items-ol_insert ol x cmp slot e = elim (ℕ_discrete slot ol.size) [
  | yes full ↦
      let none_left : ol.size - ol.size ≡ 0 = omega arith in
      rw (e, eq→== _ _ full) (rw (full, none_left) refl)
  | no ne ↦ rw (e, ne→not_== _ _ ne) refl
]

-- While the size does not wrap around, `ol_insert` inserts into the list of items as `insert` does, and
-- counts the new item; no memory behind the slot `size` is written.
pub ol_insert-insert :
    (ol : OrderedList) (x : ℕ) (cmp : Comparator)
    → ol.size + 1 < 2 ^ 32
    → let ol' = ol_insert ol x cmp in
      (elements ol' ≡ insert cmp x (elements ol))
      × (ol'.size ≡ ol.size + 1)
      × ((j : ℕ) → ol.size < j → ol'.items j ≡ ol.items j)
unfolding ol_insert
ol_insert-insert ol x cmp small =
    let slot = find_slot-Slot cmp x ol.items ol.size 0 ol.size (omega arith) in
    let b = slot.before in
    let at = items-ol_insert ol x cmp b (slot.place ∙ omega arith) in
    let count : (ol_insert ol x cmp).size ≡ ol.size + 1 = ground arith in
    (
      ap₂ (λ f n. block f 0 n) at (count ∙ omega (arith, slot.in_range))
          ∙ block-inserted ol.items x b (ol.size - b)
          ∙ ap (λ p. block ol.items 0 b ++ (x ∷ block ol.items p (ol.size - b))) (omega arith)
          ∙ sym slot.splits,
      count,
      λ j h.
          ap (λ f. f j) at
          ∙ shift_up_above (update ol.items b x) (ol.items b) b (ol.size - b) j
              (omega (arith, slot.in_range))
          ∙ update_ne ol.items b x j (omega (arith, slot.in_range)),
    )

-- The items in the order of their ranks.
abbrev pub Sorted : (ℕ → ℕ) → List ℕ → Type 0
Sorted rank [] = Unit
Sorted rank (x ∷ xs) = All (λ y. rank x ≤ rank y) xs × Sorted rank xs

All-insert :
    (cmp : Comparator) (rank : ℕ → ℕ) (x n : ℕ) (ys : List ℕ)
    → n ≤ rank x
    → All (λ y. n ≤ rank y) ys
    → All (λ y. n ≤ rank y) (insert cmp x ys)
unfolding insert
All-insert cmp rank x n [] h a = (h, tt)
All-insert cmp rank x n (y ∷ ys) h a = elim (Bool-cases (cmp x y == above)) [
  | inl go ↦ rw go (a.0, All-insert cmp rank x n ys h a.1)
  | inr stop ↦ rw stop (h, a)
]

All-le :
    (rank : ℕ → ℕ) (m n : ℕ) (ys : List ℕ)
    → m ≤ n
    → All (λ y. n ≤ rank y) ys
    → All (λ y. m ≤ rank y) ys
All-le rank m n [] h a = tt
All-le rank m n (y ∷ ys) h a = (omega (arith, a.0), All-le rank m n ys h a.1)

insert-Sorted :
    (cmp : Comparator) (rank : ℕ → ℕ) (x : ℕ) (ys : List ℕ)
    → Ranks cmp rank
    → Sorted rank ys
    → Sorted rank (insert cmp x ys)
unfolding insert
insert-Sorted cmp rank x [] r s = (tt, tt)
insert-Sorted cmp rank x (y ∷ ys) r s = elim (Bool-cases (cmp x y == above)) [
  | inl go ↦ rw go (
    All-insert cmp rank x (rank y) ys (not_below r x y (==→eq _ _ go)) s.0,
    insert-Sorted cmp rank x ys r s.1,
  )
  | inr stop ↦
      let le = not_above r x y (not_==→ne _ _ stop) in
      rw stop ((le, All-le rank (rank x) (rank y) ys le s.0), s)
]

insert-Perm : (cmp : Comparator) (x : ℕ) (ys : List ℕ) → Perm (insert cmp x ys) (x ∷ ys)
unfolding insert
insert-Perm cmp x [] = Perm.refl (x ∷ [])
insert-Perm cmp x (y ∷ ys) = elim (Bool-cases (cmp x y == above)) [
  | inl go ↦ rw go (Perm.trans (Perm.cons y (insert-Perm cmp x ys)) (Perm.swap x y ys))
  | inr stop ↦ rw stop (Perm.refl (x ∷ y ∷ ys))
]

-- With a comparator that orders by a rank, `ol_insert` into a sorted array leaves a sorted array of
-- the same items and the new one.
pub ol_insert-Sorted :
    (ol : OrderedList) (x : ℕ) (cmp : Comparator) (rank : ℕ → ℕ)
    → Ranks cmp rank
    → ol.size + 1 < 2 ^ 32
    → Sorted rank (elements ol)
    → Sorted rank (elements (ol_insert ol x cmp))
      × Perm (elements (ol_insert ol x cmp)) (x ∷ elements ol)
ol_insert-Sorted ol x cmp rank r small s =
    let (all, _, _) = ol_insert-insert ol x cmp small in
    (
      subst (Sorted rank) (sym all) (insert-Sorted cmp rank x (elements ol) r s),
      subst (λ l. Perm l (x ∷ elements ol)) (sym all) (insert-Perm cmp x (elements ol)),
    )
