-- ===== src/Ds/DynList/Laws.antt =====
-- The growing array of list.c as a list of its elements, and what a push does to it.
use mathlib.Core.Path.{subst}
use mathlib.Core.Option.{some-injective}
use native.Mathlib.Decide.{dec_lt}
use hydrangea.Prelude.{
  ℕ, zero, suc, ◌+◌, ◌*◌, ◌%◌, ◌^◌, ◌≤◌, ◌<◌, ◌≡◌, refl, ◌⊎◌, inl, inr, ap, sym, ◌∙◌, true, false,
  none, some, List, [], ◌∷◌, ◌++◌, arith, ◌==◌, set, length, take, length-set, ne→not_==, eq→==,
  Option-cases,
}
use hydrangea.Ds.DynList.{DynList, Grow, append_item, list_push}

-- The array has `size` words, of which `used` hold elements; doubling the size does not wrap.
pub record IsValid (l : DynList) : Type 0 where
  pub storage : length l.items ≡ l.size
  pub used_le : l.used ≤ l.size
  pub size_pos : 0 < l.size
  pub size_small : l.size < 2 ^ 31

abbrev pub elements : DynList → List ℕ
elements l = take l.used l.items

-- What `krealloc` promises where it succeeds: the size asked for, and the old words in front.
pub record Grows (grow : Grow) : Type 0 where
  pub keeps :
      (items bigger : List ℕ) (n : ℕ)
      → grow items n ≡ some bigger
      → length items ≤ n
      → (length bigger ≡ n) × (take (length items) bigger ≡ items)

take-set_end :
    (xs : List ℕ) (n v : ℕ) → n < length xs → take (suc n) (set xs n v) ≡ take n xs ++ (v ∷ [])
take-set_end [] n v h = absurd (omega arith)
take-set_end (x ∷ xs) zero v h = refl
take-set_end (x ∷ xs) (suc n) v h = ap (λ l. x ∷ l) (take-set_end xs n v (omega arith))

pub take-take : (xs : List ℕ) (m n : ℕ) → m ≤ n → take m (take n xs) ≡ take m xs
take-take xs zero n h = refl
take-take xs (suc m) zero h = absurd (omega arith)
take-take [] (suc m) (suc n) h = refl
take-take (x ∷ xs) (suc m) (suc n) h = ap (λ l. x ∷ l) (take-take xs m n (omega arith))

append_item_lem :
    (l : DynList) (x : ℕ)
    → IsValid l
    → l.used < l.size
    → let (i, l') = append_item l x in
      (i ≡ l.used) × (elements l' ≡ elements l ++ (x ∷ [])) × IsValid l'
unfolding append_item
append_item_lem l x v room =
    let count : (l.used + 1) % 2 ^ 32 ≡ suc l.used = omega (arith, v.size_small) in
    (
      refl,
      rw count (take-set_end l.items l.used x (omega (arith, v.storage))),
      rw count (record {
        storage = length-set l.items l.used x ∙ v.storage;
        used_le = room;
        size_pos = v.size_pos;
        size_small = v.size_small;
      }),
    )

-- `list_push` into a list with room appends the element and returns its index; it does not grow.
pub list_push_room :
    (grow : Grow) (l : DynList) (x : ℕ)
    → IsValid l
    → l.used < l.size
    → list_push grow l x ≡ some (append_item l x)
unfolding list_push
list_push_room grow l x v room =
    let test : (l.used == l.size) ≡ false = ne→not_== _ _ (omega arith) in rw test

list_push_grow :
    (grow : Grow) (l : DynList) (x : ℕ) (bigger : List ℕ)
    → l.used ≡ l.size
    → grow l.items (l.size * 2 % 2 ^ 32) ≡ some bigger
    → list_push grow l x
      ≡ some (append_item (record l { items = bigger; size = l.size * 2 % 2 ^ 32 }) x)
unfolding list_push
list_push_grow grow l x bigger full got =
    let test : (l.used == l.size) ≡ true = eq→== _ _ full in rw (test, got)

grown_IsValid :
    (grow : Grow) (l : DynList) (bigger : List ℕ)
    → Grows grow
    → IsValid l
    → l.size < 2 ^ 30
    → l.used ≡ l.size
    → grow l.items (l.size * 2 % 2 ^ 32) ≡ some bigger
    → let l' : DynList = record l { items = bigger; size = l.size * 2 % 2 ^ 32 } in
      IsValid l' × (l'.used < l'.size) × (elements l' ≡ elements l)
grown_IsValid grow l bigger g v small full got =
    let (len, front) =
      g.keeps l.items bigger (l.size * 2 % 2 ^ 32) got (omega (arith, v.storage, v.size_pos)) in
    (
      record {
        storage = len;
        used_le = omega (arith, v.size_pos);
        size_pos = omega (arith, v.size_pos);
        size_small = omega arith;
      },
      omega (arith, v.size_pos),
      sym (take-take bigger l.used (length l.items) (omega (arith, v.storage)))
          ∙ ap (take l.used) front,
    )

list_push_null :
    (grow : Grow) (l : DynList) (x : ℕ)
    → l.used ≡ l.size
    → grow l.items (l.size * 2 % 2 ^ 32) ≡ none
    → list_push grow l x ≡ none
unfolding list_push
list_push_null grow l x full got =
    let test : (l.used == l.size) ≡ true = eq→== _ _ full in rw (test, got)

-- what a push leaves behind
abbrev Appended : DynList → ℕ → ℕ × DynList → Type 0
Appended l x r = (r.0 ≡ l.used) × (elements r.1 ≡ elements l ++ (x ∷ [])) × IsValid r.1

pushed_after_growth :
    (grow : Grow) (l l' : DynList) (x i : ℕ)
    → Grows grow
    → IsValid l
    → l.size < 2 ^ 30
    → l.used ≡ l.size
    → list_push grow l x ≡ some (i, l')
    → let block = grow l.items (l.size * 2 % 2 ^ 32) in
      (block ≡ none) ⊎ ((bigger : List ℕ) × (block ≡ some bigger)) → Appended l x (i, l')
pushed_after_growth grow l l' x i g v small full pushed (inl null) =
    cc (list_push_null grow l x full null)
pushed_after_growth grow l l' x i g v small full pushed (inr (bigger, got)) =
    let (valid, room, same) = grown_IsValid grow l bigger g v small full got in
    let grown : DynList = record l { items = bigger; size = l.size * 2 % 2 ^ 32 } in
    let (at, all, ok) = append_item_lem grown x valid room in
    subst (Appended l x)
      (some-injective _ _ (sym (list_push_grow grow l x bigger full got) ∙ pushed))
      (at, all ∙ ap (λ e. e ++ (x ∷ [])) same, ok)

-- Every `list_push` that returns, on a valid list of fewer than 2^30 slots and with a `grow` that keeps
-- what it moves, has appended the element behind the others, whether or not the array had to grow; it
-- returns the element's index and leaves a valid list.
pub list_push-append :
    (grow : Grow) (l l' : DynList) (x i : ℕ)
    → Grows grow
    → IsValid l
    → l.size < 2 ^ 30
    → list_push grow l x ≡ some (i, l')
    → (i ≡ l.used) × (elements l' ≡ elements l ++ (x ∷ [])) × IsValid l'
list_push-append grow l l' x i g v small pushed = elim (dec_lt l.used l.size) [
  | yes room ↦
      subst (Appended l x) (some-injective _ _ (sym (list_push_room grow l x v room) ∙ pushed))
        (append_item_lem l x v room)
  | no full ↦
      pushed_after_growth grow l l' x i g v small (omega (arith, v.used_le)) pushed
        (Option-cases (grow l.items (l.size * 2 % 2 ^ 32)))
]
