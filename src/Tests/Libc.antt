-- ===== src/Tests/Libc.antt =====
-- The functions of libc on the strings "a" at 1 and "ab" at 4.
use hydrangea.Prelude.{ltb, if◌then◌else◌, ◌++◌, ◌≡◌, inr, refl, arith, some, [], ◌∷◌, get_or}
use hydrangea.Libk.Bytes.{Memory}
use hydrangea.Libk.Str.Laws.{find, address_of}
use hydrangea.Libc.Strings
use hydrangea.Libc.Counted.{strncpy}
use hydrangea.Libc.Padded.{Written, strncpy-Written}
use hydrangea.Libc.Chars.{strchr-find}

abbrev text : Memory
text q = get_or (0 ∷ 97 ∷ 0 ∷ 0 ∷ 97 ∷ 98 ∷ []) q 0

strncpy-Written_example :
    (m' : Memory) × (strncpy text 20 4 5 9 ≡ some m')
    × Written text m' 20 5 (λ i. get_or (97 ∷ 98 ∷ []) i 0)
strncpy-Written_example =
    strncpy-Written text 20 4 5 9 (97 ∷ 98 ∷ [])
      (refl, λ e. omega (arith, e), (refl, λ e. omega (arith, e), refl)) (inr (omega arith))
      (omega arith) (omega arith) (omega arith)

strchr-find_example :
    Strings.strchr text 4 98 9
    ≡ some (if ltb 98 128 then address_of 4 (find 98 ((97 ∷ 98 ∷ []) ++ (0 ∷ []))) else 0)
strchr-find_example =
    strchr-find text 4 98 9 (97 ∷ 98 ∷ [])
      (refl, λ e. omega (arith, e), (refl, λ e. omega (arith, e), refl)) (omega arith) (omega arith)
