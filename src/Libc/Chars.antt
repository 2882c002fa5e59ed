-- ===== src/Libc/Chars.antt =====
-- Which characters `strchr` of libc/string/string.c finds.
use hydrangea.Prelude.{
  ℕ, zero, suc, ◌<◌, ◌≡◌, arith, ltb, if◌then◌else◌, some, List, [], ◌∷◌, ◌++◌, length,
  Option-cases, inl, inr,
}
use hydrangea.Libk.Bytes.{Memory}
use hydrangea.Libk.Str.Laws.{Holds, find, address_of}
use hydrangea.Libc.Strings.{strchr}

-- `strchr` of libc finds a character below 128 where it first is in a terminated string, the terminator
-- included, or gives NULL. Of the numbers from 128 to 255, as which a caller without signs names the other
-- characters, it finds none: it gives NULL, also if the string has the byte.
pub strchr-find :
    (m : Memory) (s c fuel : ℕ) (xs : List ℕ)
    → Holds m s xs
    → length xs < fuel
    → c < 256
    → strchr m s c fuel ≡ some (if ltb c 128 then address_of s (find c (xs ++ (0 ∷ []))) else 0)
unfolding strchr
strchr-find m p c zero xs h f b = absurd (omega (arith, f))
strchr-find m p c (suc n) [] h f b = ground (arith, h, b)
strchr-find m p c (suc n) (x ∷ xs) (e, ne, h) f b =
    let rest = strchr-find m (suc p) c n xs h (omega arith) b in
    elim (Option-cases (find c (xs ++ (0 ∷ [])))) [
      | inl none_found ↦ ground arith
      | inr (i, found) ↦ ground arith
    ]
