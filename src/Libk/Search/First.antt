-- ===== src/Libk/Search/First.antt =====
-- Where `strstr` finds a string.
use hydrangea.Prelude.{
  ℕ, zero, suc, ◌+◌, ◌-◌, ◌%◌, ◌^◌, ◌<◌, ◌≡◌, ◌≢◌, ◌⊎◌, inl, inr, refl, ap, ◌∙◌, arith, some, List,
  length, block, lt→ltb, le→not_ltb, eq→==, ne→not_==, sym,
}
use native.Mathlib.Decide.{ℕ_discrete, dec_lt}
use hydrangea.Libk.Bytes.{Memory, memcmp}
use hydrangea.Libk.Bytes.Laws.{memcmp-block}
use hydrangea.Libk.Str.Laws.{Holds, strlen_lem}
use hydrangea.Libk.Search.{search_from, strstr}

-- `r` is the first of the `n` addresses from `p` on at which the `size` bytes of `str2` stand, or NULL
-- if there is none.
abbrev pub FirstMatch : Memory → (p str2 size n r : ℕ) → Type 0
FirstMatch m p str2 size n r =
    ((r ≡ 0) × ((i : ℕ) → i < n → block m (p + i) size ≢ block m str2 size))
    ⊎ ((k : ℕ) × (k < n)
        × (r ≡ p + k)
        × (block m r size ≡ block m str2 size)
        × ((i : ℕ) → i < k → block m (p + i) size ≢ block m str2 size))

search_from-FirstMatch :
    (m : Memory) (p str2 size n : ℕ) → FirstMatch m p str2 size n (search_from m p str2 size n)
unfolding search_from
search_from-FirstMatch m p str2 size zero = inl (refl, λ i l. absurd (omega arith))
search_from-FirstMatch m p str2 size (suc n) =
    let (to, from) = memcmp-block m p str2 size in
    let here : p + 0 ≡ p = omega arith in
    elim (ℕ_discrete (memcmp m p str2 size) 0) [
      | yes e ↦
          rw (eq→== (memcmp m p str2 size) 0 e)
            (inr (0, omega arith, sym here, to e, λ i l. absurd (omega arith)))
      | no ne ↦
          let other : block m (p + 0) size ≢ block m str2 size =
            λ eq. ne (from (ap (λ q. block m q size) (sym here) ∙ eq)) in
          rw (ne→not_== (memcmp m p str2 size) 0 ne)
            (elim (search_from-FirstMatch m (suc p) str2 size n) [
              | inl (r0, nowhere) ↦
                  inl (r0, λ i l. before i other (λ j jl. nowhere j (omega (arith, jl, l))))
              | inr (k, kl, at, found, earlier) ↦ inr (
                suc k,
                omega (arith, kl),
                at ∙ omega arith,
                found,
                λ i l. before i other (λ j jl. earlier j (omega (arith, jl, l))),
              )
            ])
    ]
  where
    before :
        (i : ℕ)
        → block m (p + 0) size ≢ block m str2 size
        → ((j : ℕ) → suc j ≡ i → block m (suc p + j) size ≢ block m str2 size)
        → block m (p + i) size ≢ block m str2 size
    before zero first later = first
    before (suc i) first later = λ eq.
        later i refl (ap (λ q. block m q size) {x = suc p + i} {y = p + suc i} (omega arith) ∙ eq)

-- `strstr` of two terminated strings shorter than 2^31 returns the first address in the first one at
-- which the bytes of the second one stand, or NULL if there is none; fuel above both lengths is enough.
pub strstr-FirstMatch :
    (m : Memory) (str1 str2 fuel : ℕ) (xs ys : List ℕ)
    → Holds m str1 xs
    → Holds m str2 ys
    → length xs < 2 ^ 31
    → length ys < 2 ^ 31
    → length xs < fuel
    → length ys < fuel
    → (r : ℕ) × (strstr m str1 str2 fuel ≡ some r)
      × FirstMatch m str1 str2 (length ys) (length xs + 1 - length ys) r
unfolding strstr
strstr-FirstMatch m str1 str2 fuel xs ys h k sx sy fx fy =
    let n1 = strlen_lem m str1 fuel xs h sx fx in
    let n2 = strlen_lem m str2 fuel ys k sy fy in
    elim (dec_lt (length xs) (length ys)) [
      | yes l ↦
          let no_room : length xs + 1 - length ys ≡ 0 = omega arith in
          (
            0,
            rw (n1, strstr) (rw (n2, lt→ltb (length xs) (length ys) l) refl),
            inl (refl, λ i il. absurd (omega (arith, il, no_room))),
          )
      | no ge ↦
          let rounds : (length xs - length ys + 1) % 2 ^ 32 ≡ length xs + 1 - length ys =
            omega arith in
          (
            search_from m str1 str2 (length ys) (length xs + 1 - length ys),
            rw (n1, strstr)
                (rw (n2, le→not_ltb (length xs) (length ys) (omega arith), rounds) refl),
            search_from-FirstMatch m str1 str2 (length ys) (length xs + 1 - length ys),
          )
    ]
