-- ===== src/Tests/Libk.antt =====
-- Runs of libk/string.c's functions, and its theorems on concrete memory.
use hydrangea.Prelude.{ℕ, ◌<◌, ◌≡◌, ◌≢◌, refl, arith, List, [], ◌∷◌, get_or, some}
use hydrangea.Libk.Bytes.{Memory, memmove}
use hydrangea.Libk.Bytes.Laws.{memmove-moved}
use hydrangea.Libk.Str.{strtok}
use hydrangea.Libk.Search.{itoa, atoi}
use hydrangea.Libk.Search.Numbers.{atoi-itoa}
use hydrangea.Libk.Str.Laws.{Holds}
use hydrangea.Libk.Str.Tokens.{Token, strtok-Token}

-- The strings ",ab,c" at 1 and "," at 7.
abbrev text : Memory
text q = get_or (0 ∷ 44 ∷ 97 ∷ 98 ∷ 44 ∷ 99 ∷ 0 ∷ 44 ∷ 0 ∷ []) q 0

abbrev words : List ℕ
words = 44 ∷ 97 ∷ 98 ∷ 44 ∷ 99 ∷ []

abbrev comma : List ℕ
comma = 44 ∷ []

words_held : Holds text 1 words
words_held =
    let w : ◌≢◌ {A = ℕ} 44 0 = λ e. omega (arith, e) in
    let a : ◌≢◌ {A = ℕ} 97 0 = λ e. omega (arith, e) in
    let b : ◌≢◌ {A = ℕ} 98 0 = λ e. omega (arith, e) in
    let c : ◌≢◌ {A = ℕ} 99 0 = λ e. omega (arith, e) in
    (refl, w, (refl, a, (refl, b, (refl, w, (refl, c, refl)))))

comma_held : Holds text 7 comma
comma_held = (refl, λ e. omega (arith, e), refl)

memmove-moved_example : memmove text 3 2 3 4 ≡ 98
memmove-moved_example = memmove-moved text 3 2 3 4

-- The first token of ",ab,c" is "ab" at 2, and "c" is left.
strtok-Token_example :
    (r : ℕ × Memory × ℕ) × (strtok text 0 1 7 10 ≡ some r)
    × (◌≡◌ {A = ℕ} 2 0 → r ≡ (0, text, 0))
    × (0 < 2 → Token 2 2 (97 ∷ 98 ∷ 44 ∷ 99 ∷ []) r)
strtok-Token_example =
    strtok-Token text 0 1 7 10 words comma (omega arith) words_held comma_held (omega arith)
      (omega arith) (omega arith) (omega arith)

-- The number 120, written at 100
atoi-itoa_example :
    (m' : Memory) × (itoa text 120 100 10 10 ≡ some m') × (atoi m' 100 11 ≡ some 120)
atoi-itoa_example = atoi-itoa text 120 100 10 (omega arith) (omega arith)
