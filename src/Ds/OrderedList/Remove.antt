-- ===== src/Ds/OrderedList/Remove.antt =====
-- `ol_remove` of ordered_list.c, and what `ol_find` finds.
use mathlib.Core.Path.{ap₂}
use hydrangea.Prelude.{
  ℕ, zero, suc, ◌+◌, ◌-◌, ◌%◌, ◌^◌, ◌≤◌, ◌<◌, ◌≡◌, refl, ap, sym, ◌∙◌, ◌∷◌, ◌++◌, arith, take, drop,
  update, update_ne, block, block_ext, block-append, block-update_ne,
}
use hydrangea.Ds.OrderedList.{OrderedList, shift_down, ol_remove}
use hydrangea.Ds.OrderedList.Insert.{elements}

shift_down_before : (items : ℕ → ℕ) (i n j : ℕ) → j < i → shift_down items i n j ≡ items j
unfolding shift_down
shift_down_before items i zero j h = refl
shift_down_before items i (suc n) j h =
    shift_down_before (update items i (items (suc i))) (suc i) n j (omega arith)
    ∙ update_ne items i (items (suc i)) j (omega arith)

block-shift_down :
    (items : ℕ → ℕ) (i n : ℕ) → block (shift_down items i n) i n ≡ block items (suc i) n
unfolding shift_down
block-shift_down items i zero = refl
block-shift_down items i (suc n) =
    ap₂ ◌∷◌
      (shift_down_before (update items i (items (suc i))) (suc i) n i (omega arith) ∙ ground arith)
      (block-shift_down (update items i (items (suc i))) (suc i) n
        ∙ block-update_ne items (suc (suc i)) n i (items (suc i)) (λ k h. omega arith))

block-take : (items : ℕ → ℕ) (p m n : ℕ) → m ≤ n → block items p m ≡ take m (block items p n)
block-take items p zero n h = refl
block-take items p (suc m) zero h = absurd (omega arith)
block-take items p (suc m) (suc n) h =
    ap (λ l. items p ∷ l) (block-take items (suc p) m n (omega arith))

block-drop : (items : ℕ → ℕ) (p m n : ℕ) → block items (p + m) n ≡ drop m (block items p (m + n))
block-drop items p zero n =
    let e : p + zero ≡ p = omega arith in let e' : zero + n ≡ n = omega arith in rw (e, e') refl
block-drop items p (suc m) n =
    let e : p + suc m ≡ suc p + m = omega arith in
    let e' : suc m + n ≡ suc (m + n) = omega arith in rw (e, e') (block-drop items (suc p) m n)

-- `ol_remove` of an index in range takes that item out and closes the gap.
pub ol_remove-drop :
    (ol : OrderedList) (index : ℕ)
    → index < ol.size
    → ol.size < 2 ^ 32
    → elements (ol_remove ol index) ≡ take index (elements ol) ++ drop (suc index) (elements ol)
unfolding ol_remove
ol_remove-drop ol index inside small =
    let n = ol.size - index - 1 in
    let rounds : ol.size - index ≡ suc n = omega arith in
    let count : (ol.size + 2 ^ 32 - 1) % 2 ^ 32 ≡ index + n = omega arith in
    let whole : ol.size ≡ suc index + n = omega arith in
    let f = shift_down ol.items index (suc n) in
    let front : block f 0 index ≡ block ol.items 0 index =
      block_ext f ol.items 0 0 index
        (λ k h. shift_down_before ol.items index (suc n) (0 + k) (omega arith)) in
    let back : block f (0 + index) n ≡ block ol.items (suc index) n =
      let start : 0 + index ≡ index = omega arith in
      ap (λ p. block f p n) start
      ∙ block-take f index n (suc n) (omega arith)
      ∙ ap (take n) (block-shift_down ol.items index (suc n))
      ∙ sym (block-take ol.items (suc index) n (suc n) (omega arith)) in
    let dropped : block ol.items (suc index) n ≡ drop (suc index) (elements ol) =
      ap (λ p. block ol.items p n) {x = suc index} {y = 0 + suc index} (omega arith)
      ∙ block-drop ol.items 0 (suc index) n
      ∙ ap (λ k. drop (suc index) (block ol.items 0 k)) (sym whole) in
    let kept : block f 0 index ≡ take index (elements ol) =
      front ∙ block-take ol.items 0 index ol.size (omega arith) in
    rw (rounds, count) (block-append f 0 index n ∙ ap₂ ◌++◌ kept (back ∙ dropped))

-- `ol_remove` of an index out of range of a non-empty list drops the last item.
pub ol_remove_out_of_range :
    (ol : OrderedList) (index : ℕ)
    → ol.size ≤ index
    → 0 < ol.size
    → ol.size < 2 ^ 32
    → elements (ol_remove ol index) ≡ take (ol.size - 1) (elements ol)
unfolding ol_remove shift_down
ol_remove_out_of_range ol index out some_item small =
    let rounds : ol.size - index ≡ 0 = omega arith in
    let count : (ol.size + 2 ^ 32 - 1) % 2 ^ 32 ≡ ol.size - 1 = omega arith in
    rw (rounds, count) (block-take ol.items 0 (ol.size - 1) ol.size (omega arith))
