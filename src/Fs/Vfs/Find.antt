-- ===== src/Fs/Vfs/Find.antt =====
-- Which child of a node vfs.c finds under a name.
use mathlib.Core.List.{List-discrete}
use native.Mathlib.Decide.{ℕ_discrete}
use hydrangea.Prelude.{
  ℕ, zero, suc, ◌<◌, ◌≡◌, ◌≢◌, ◌⊎◌, inl, inr, refl, ap, sym, ◌∙◌, arith, some, List, [], ◌∷◌,
  length, ◌==◌, if◌then◌else◌, ne→not_==,
}
use hydrangea.Libk.Bytes.{Memory}
use hydrangea.Libk.Str.Laws.{Holds, strcmp_lem}
use hydrangea.Fs.Vfs.{VfsNode, Vfs, Literals, child_named, vfs_get_child_by_name}

-- From `child` on, the siblings with these addresses and names.
abbrev pub Kids : (ℕ → VfsNode) → Memory → (child : ℕ) → List (ℕ × List ℕ) → Type 0
Kids nodes m child [] = child ≡ 0
Kids nodes m child ((x, xs) ∷ kids) =
    (child ≡ x) × (x ≢ 0) × Holds m (nodes x).name xs × Kids nodes m (nodes x).next kids

-- `r` is the first of the siblings with the name, or NULL if there is none.
abbrev pub Found : List (ℕ × List ℕ) → (name : List ℕ) → (r : ℕ) → Type 0
Found [] name r = r ≡ 0
Found ((x, xs) ∷ kids) name r = ((xs ≡ name) × (r ≡ x)) ⊎ ((xs ≢ name) × Found kids name r)

-- Every name is shorter than `fuel`.
abbrev pub Short : (fuel : ℕ) → List (ℕ × List ℕ) → Type 0
Short fuel [] = Unit
Short fuel ((x, xs) ∷ kids) = (length xs < fuel) × Short fuel kids

child_named-Found :
    (s : Vfs) (child name bound fuel : ℕ) (kid : ℕ × List ℕ) (kids : List (ℕ × List ℕ))
    (ys : List ℕ)
    → Kids s.nodes s.bytes child (kid ∷ kids)
    → Holds s.bytes name ys
    → Short bound (kid ∷ kids)
    → length kids < fuel
    → (r : ℕ) × (child_named s child name bound fuel ≡ some r) × Found (kid ∷ kids) ys r
unfolding child_named
child_named-Found s child name bound zero (x, xs) kids ys k h short f = absurd (omega (arith, f))
child_named-Found s child name bound (suc n) (x, xs) [] ys (e, ne, holds, k) h (short, _) f =
    let (equal, differ) = strcmp_lem s.bytes (s.nodes x).name name bound xs ys holds h short in
    elim (List-discrete ℕ_discrete xs ys) [
      | yes eq ↦ (x, rw e (rw (equal eq, child_named) refl), inl (eq, refl))
      | no other ↦ (0, rw e (rw (differ other, child_named) (rw k refl)), inr (other, refl))
    ]
child_named-Found s child name bound (suc n) (x, xs) ((y, zs) ∷ kids) ys (e, ne, holds, k) h
      (short, shorts) f =
    let (equal, differ) = strcmp_lem s.bytes (s.nodes x).name name bound xs ys holds h short in
    let (r, found, first) =
      child_named-Found s (s.nodes x).next name bound n (y, zs) kids ys k h shorts (omega arith) in
    let more : (s.nodes x).next ≢ 0 = λ z. k.1 (sym k.0 ∙ z) in
    elim (List-discrete ℕ_discrete xs ys) [
      | yes eq ↦ (x, rw e (rw (equal eq, child_named) refl), inl (eq, refl))
      | no other ↦ (
        r,
        rw e (rw (differ other, child_named) (rw (ne→not_== (s.nodes x).next 0 more) found)),
        inr (other, first),
      )
    ]

-- What a name stands for in a directory: itself, its parent, or the first child of that name.
abbrev pub LookedUp :
    (s : Vfs) → (parent : ℕ) → List (ℕ × List ℕ) → (name : List ℕ) → (r : ℕ) → Type 0
LookedUp s parent kids ys r =
    ((ys ≡ 46 ∷ []) × (r ≡ parent))
    ⊎ (((ys ≡ 46 ∷ 46 ∷ []) × (r ≡ (s.nodes parent).parent))
        ⊎ ((ys ≢ 46 ∷ []) × (ys ≢ 46 ∷ 46 ∷ []) × Found kids ys r))

search_lem :
    (s : Vfs) (child name fuel : ℕ) (kids : List (ℕ × List ℕ)) (ys : List ℕ)
    → Kids s.nodes s.bytes child kids
    → Holds s.bytes name ys
    → Short fuel kids
    → length kids < fuel
    → (r : ℕ) × ((if child == 0 then some 0 else child_named s child name fuel fuel) ≡ some r)
      × Found kids ys r
search_lem s child name fuel [] ys k h short f = (0, rw k refl, refl)
search_lem s child name fuel ((x, xs) ∷ kids) ys k h short f =
    let (r, e, found) =
      child_named-Found s child name fuel fuel (x, xs) kids ys k h short (omega arith) in
    (r, rw (ne→not_== child 0 (λ z. k.1 (sym k.0 ∙ z))) e, found)

-- `vfs_get_child_by_name` gives the node itself for ".", its parent for "..", and otherwise the first
-- child of that name, or NULL if there is none; fuel above the length of every name and the number of
-- children is enough.
pub vfs_get_child_by_name-LookedUp :
    (s : Vfs) (lit : Literals) (parent name fuel : ℕ) (kids : List (ℕ × List ℕ)) (ys : List ℕ)
    → Holds s.bytes lit.dot (46 ∷ [])
    → Holds s.bytes lit.dotdot (46 ∷ 46 ∷ [])
    → Kids s.nodes s.bytes (s.nodes parent).childs kids
    → Holds s.bytes name ys
    → length ys < fuel
    → Short fuel kids
    → length kids < fuel
    → (r : ℕ) × (vfs_get_child_by_name s lit parent name fuel ≡ some r)
      × LookedUp s parent kids ys r
unfolding vfs_get_child_by_name
vfs_get_child_by_name-LookedUp s lit parent name fuel kids ys dot dotdot k h l short f =
    let (is_dot, no_dot) = strcmp_lem s.bytes name lit.dot fuel ys (46 ∷ []) h dot l in
    let (is_dotdot, no_dotdot) =
      strcmp_lem s.bytes name lit.dotdot fuel ys (46 ∷ 46 ∷ []) h dotdot l in
    let (r, e, found) = search_lem s (s.nodes parent).childs name fuel kids ys k h short f in
    elim (List-discrete ℕ_discrete ys (46 ∷ [])) [
      | yes one ↦
          let other : ys ≢ 46 ∷ 46 ∷ [] = λ two. omega (arith, ap length (sym one ∙ two)) in
          (
            parent,
            rw (is_dot one, vfs_get_child_by_name) (rw (no_dotdot other) refl),
            inl (one, refl),
          )
      | no not_one ↦ elim (List-discrete ℕ_discrete ys (46 ∷ 46 ∷ [])) [
        | yes two ↦ (
          (s.nodes parent).parent,
          rw (no_dot not_one, vfs_get_child_by_name) (rw (is_dotdot two) refl),
          inr (inl (two, refl)),
        )
        | no not_two ↦ (
          r,
          rw (no_dot not_one, vfs_get_child_by_name) (rw (no_dotdot not_two) e),
          inr (inr (not_one, not_two, found)),
        )
      ]
    ]
