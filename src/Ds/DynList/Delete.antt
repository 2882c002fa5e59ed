-- ===== src/Ds/DynList/Delete.antt =====
-- Deletion from the growing array of list.c on every branch.
use mathlib.Core.Path.{ap₂}
use native.Mathlib.Decide.{dec_lt}
use hydrangea.Prelude.{
  ℕ, zero, suc, ◌+◌, ◌-◌, ◌%◌, ◌^◌, ◌≤◌, ◌<◌, ◌≡◌, refl, ap, sym, ◌∙◌, false, List, [], ◌∷◌, ◌++◌,
  arith, ltb, set, length, take, drop, length-set, lt→ltb, le→not_ltb,
}
use hydrangea.Ds.DynList.{DynList, read_word, shift_down, list_delete}
use hydrangea.Ds.DynList.Laws.{IsValid, elements, take-take}

read_word_cons :
    (beyond : ℕ → ℕ) (x : ℕ) (xs : List ℕ) (i : ℕ)
    → read_word beyond (x ∷ xs) (suc i) ≡ read_word beyond xs i
read_word_cons beyond x xs i = elim (dec_lt i (length xs)) [
  | yes p ↦ rw (lt→ltb _ _ p, lt→ltb (suc i) (suc (length xs)) (omega arith))
  | no p ↦
      rw
        (le→not_ltb i (length xs) (omega arith), le→not_ltb (suc i) (suc (length xs)) (omega arith))
        (ap beyond (omega arith))
]

read_word_second : (beyond : ℕ → ℕ) (x y : ℕ) (ys : List ℕ) → read_word beyond (x ∷ y ∷ ys) 1 ≡ y
read_word_second beyond x y ys = rw (lt→ltb 1 (suc (suc (length ys))) (omega arith))

module _ (beyond : ℕ → ℕ) where
  shift_down_cons :
      (x : ℕ) (xs : List ℕ) (i n : ℕ)
      → shift_down beyond (x ∷ xs) (suc i) n ≡ x ∷ shift_down beyond xs i n
  unfolding shift_down
  shift_down_cons x xs i zero = refl
  shift_down_cons x xs i (suc n) =
      rw (read_word_cons beyond x xs (suc i))
        (shift_down_cons x (set xs i (read_word beyond xs (suc i))) (suc i) n)

  length-shift_down : (xs : List ℕ) (i n : ℕ) → length (shift_down beyond xs i n) ≡ length xs
  unfolding shift_down
  length-shift_down xs i zero = refl
  length-shift_down xs i (suc n) =
      length-shift_down (set xs i (read_word beyond xs (suc i))) (suc i) n
      ∙ length-set xs i (read_word beyond xs (suc i))

  shift_down_step :
      (xs : List ℕ) (n : ℕ)
      → shift_down beyond xs 0 (suc n) ≡ shift_down beyond (set xs 0 (read_word beyond xs 1)) 1 n
  unfolding shift_down
  shift_down_step xs n = refl

  -- Shifting the first `suc n` words down by one drops the first.
  shift_down_front :
      (x : ℕ) (xs : List ℕ) (n : ℕ)
      → n ≤ length xs
      → take n (shift_down beyond (x ∷ xs) 0 (suc n)) ≡ take n xs
  shift_down_front x xs zero h = refl
  shift_down_front x [] (suc n) h = absurd (omega arith)
  shift_down_front x (y ∷ ys) (suc n) h =
      ap (take (suc n)) (
        shift_down_step (x ∷ y ∷ ys) (suc n)
        ∙ ap (λ w. shift_down beyond (w ∷ y ∷ ys) 1 (suc n)) (read_word_second beyond x y ys)
        ∙ shift_down_cons y (y ∷ ys) 0 (suc n))
      ∙ ap (λ l. y ∷ l) (shift_down_front y ys n (omega arith))

  shift_down_lem :
      (xs : List ℕ) (i n m : ℕ)
      → m ≡ i + n
      → i + suc n ≤ length xs
      → take m (shift_down beyond xs i (suc n)) ≡ take i xs ++ drop (suc i) (take (suc m) xs)
  shift_down_lem [] i n m e h = absurd (omega arith)
  shift_down_lem (x ∷ xs) zero n m e h =
      let e' : m ≡ n = omega arith in rw e' (shift_down_front x xs n (omega arith))
  shift_down_lem (x ∷ xs) (suc i) n zero e h = absurd (omega arith)
  shift_down_lem (x ∷ xs) (suc i) n (suc m) e h =
      ap (take (suc m)) (shift_down_cons x xs i (suc n))
      ∙ ap (λ l. x ∷ l) (shift_down_lem xs i n m (omega arith) (omega arith))

  -- `list_delete` of an index in use of a valid list removes that element and closes the gap; the status
  -- is 0 and the list stays valid.
  pub list_delete-drop :
      (l : DynList) (index : ℕ)
      → IsValid l
      → index < l.used
      → let (status, l') = list_delete beyond l index in
        (status ≡ 0)
        × (elements l' ≡ take index (elements l) ++ drop (suc index) (elements l))
        × IsValid l'
  unfolding list_delete
  list_delete-drop l index v inside =
      let test : ltb l.used index ≡ false = le→not_ltb _ _ (omega arith) in
      let rounds : l.used - index ≡ suc (l.used - index - 1) = omega arith in
      let count : (l.used + 2 ^ 32 - 1) % 2 ^ 32 ≡ l.used - 1 =
        omega (arith, v.used_le, v.size_small) in
      let last : suc (l.used - 1) ≡ l.used = omega arith in
      rw (test, rounds, count)
        (
          refl,
          shift_down_lem l.items index (l.used - index - 1) (l.used - 1) (omega arith)
                (omega (arith, v.storage, v.used_le))
              ∙ ap₂ (λ a b. a ++ drop (suc index) b)
                  (sym (take-take l.items index l.used (omega arith)))
                  (ap (λ k. take k l.items) last),
          record {
            storage = length-shift_down l.items index (suc (l.used - index - 1)) ∙ v.storage;
            used_le = omega (arith, v.used_le);
            size_pos = v.size_pos;
            size_small = v.size_small;
          },
        )

  -- The index just behind the last element passes the range check of `list_delete`: on a valid non-empty
  -- list the call reports success and drops the last element.
  pub list_delete_at_used :
      (l : DynList)
      → IsValid l
      → 0 < l.used
      → let (status, l') = list_delete beyond l l.used in
        (status ≡ 0) × (elements l' ≡ take (l.used - 1) (elements l))
  unfolding list_delete shift_down
  list_delete_at_used l v some_item =
      let test : ltb l.used l.used ≡ false = le→not_ltb _ _ (omega arith) in
      let rounds : l.used - l.used ≡ 0 = omega arith in
      let count : (l.used + 2 ^ 32 - 1) % 2 ^ 32 ≡ l.used - 1 =
        omega (arith, v.used_le, v.size_small) in
      rw (test, rounds, count) (refl, sym (take-take l.items (l.used - 1) l.used (omega arith)))
