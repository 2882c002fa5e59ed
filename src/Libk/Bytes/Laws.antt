-- ===== src/Libk/Bytes/Laws.antt =====
-- What the memory functions of libk/string.c leave at every address, and what `memcmp` decides.
use mathlib.Core.Path.{ap₂}
use native.Mathlib.Decide.{dec_lt}
use hydrangea.Prelude.{
  ℕ, zero, suc, ◌+◌, ◌-◌, ◌%◌, ◌^◌, ◌≤◌, ◌<◌, ◌≡◌, ◌⊎◌, inl, inr, ◌↔◌, refl, ap, sym, ◌∙◌, arith,
  ◌&&◌, lt→ltb, le→not_ltb, get_or, drop, ltb, leb, if◌then◌else◌, ◌∷◌, update, block,
}
use hydrangea.Libk.Bytes.{Memory, memcmp, memcpy, copy_up, copy_down, memmove, fill, memset}

-- What copying the `n` bytes at `s` of memory `m` to `d` leaves at the address `q`.
abbrev pub moved : Memory → (d s n q : ℕ) → ℕ
moved m d s n q = if leb d q && ltb q (d + n) then m (s + (q - d)) else m q

copy_up-moved :
    (m o : Memory) (d s i n : ℕ)
    → d < s
    → ((q : ℕ) → o q ≡ moved m d s i q)
    → (q : ℕ) → copy_up o d s i n q ≡ moved m d s (i + n) q
unfolding copy_up
copy_up-moved m o d s i zero l h q = ground (arith, h q)
copy_up-moved m o d s i (suc n) l h q =
    let e : suc i + n ≡ i + suc n = omega arith in
    rw (← e) (
      copy_up-moved m (update o (d + i) (o (s + i))) d s (suc i) n l
        (λ r. ground (arith, h r, h (s + i))) q)

-- Memory in which the bytes from `i` on, below `n`, have been moved.
copied_down : Memory → (d s i n q : ℕ) → ℕ
copied_down m d s i n q = if leb (d + i) q && ltb q (d + n) then m (s + (q - d)) else m q

copy_down-moved :
    (m o : Memory) (d s i n : ℕ)
    → s ≤ d
    → i ≤ n
    → ((q : ℕ) → o q ≡ copied_down m d s i n q)
    → (q : ℕ) → copy_down o d s i q ≡ moved m d s n q
unfolding copy_down copied_down
copy_down-moved m o d s zero n l b h q = ground (arith, h q)
copy_down-moved m o d s (suc i) n l b h q =
    copy_down-moved m (update o (d + i) (o (s + i))) d s i n l (omega arith)
      (λ r. ground (arith, h r, h (s + i))) q

unmoved : (m : Memory) (d s n r : ℕ) → m r ≡ copied_down m d s n n r
unfolding copied_down
unmoved m d s n r = ground arith

-- After `memmove` the destination holds what the source held before, also when the two overlap, and
-- every other address is as before.
pub memmove-moved :
    (m : Memory) (dest src size q : ℕ) → memmove m dest src size q ≡ moved m dest src size q
unfolding memmove
memmove-moved m d s n q = elim (dec_lt d s) [
  | yes l ↦ rw (lt→ltb d s l) (
      copy_up-moved m m d s 0 n l (λ r. ground arith) q
      ∙ ap (λ k. moved m d s k q) {x = 0 + n} {y = n} (omega arith))
  | no ge ↦
      rw (le→not_ltb d s (omega arith))
        (copy_down-moved m m d s n n (omega arith) (omega arith) (unmoved m d s n) q)
]

pub memcpy-moved :
    (m : Memory) (d s n q : ℕ) → (d ≤ s) ⊎ (s + n ≤ d) → memcpy m d s n q ≡ moved m d s n q
unfolding memcpy
memcpy-moved m d s zero q apart = ground arith
memcpy-moved m d s (suc n) q apart =
    let rest =
      memcpy-moved (update m d (m s)) (suc d) (suc s) n q
        (elim apart [ inl l ↦ inl (omega arith) | inr l ↦ inr (omega arith) ]) in
    elim apart [ inl l ↦ ground (arith, rest) | inr l ↦ ground (arith, rest) ]

-- `memcpy` leaves the memory as `memmove` does, as long as the source does not reach into the
-- destination from below.
pub memcpy-memmove :
    (m : Memory) (dest src size q : ℕ)
    → (dest ≤ src) ⊎ (src + size ≤ dest)
    → memcpy m dest src size q ≡ memmove m dest src size q
memcpy-memmove m d s n q apart = memcpy-moved m d s n q apart ∙ sym (memmove-moved m d s n q)

fill-value :
    (m : Memory) (d v i n q : ℕ)
    → fill m d v i n q ≡ (if leb (d + i) q && ltb q (d + (i + n)) then v else m q)
unfolding fill
fill-value m d v i zero q = ground arith
fill-value m d v i (suc n) q = ground (arith, fill-value (update m (d + i) v) d v (suc i) n q)

-- `memset` writes the byte `value` to the `n` bytes from `dest` on and to no other; a negative `n`
-- writes nothing.
pub memset_lem :
    (m : Memory) (dest value n q : ℕ)
    → memset m dest value n q
      ≡ (if ltb n (2 ^ 31) && (leb dest q && ltb q (dest + n)) then value % 2 ^ 8 else m q)
unfolding memset
memset_lem m d v n q = ground (arith, fill-value m d (v % 2 ^ 8) 0 n q)

-- `memcmp` returns 0 exactly if the two blocks hold the same bytes.
pub memcmp-block :
    (m : Memory) (p1 p2 size : ℕ) → (memcmp m p1 p2 size ≡ 0) ↔ (block m p1 size ≡ block m p2 size)
unfolding memcmp
memcmp-block m p1 p2 zero = (λ e. refl, λ e. refl)
memcmp-block m p1 p2 (suc n) =
    let (to, from) = memcmp-block m (suc p1) (suc p2) n in
    (
      λ e.
          let first : m p1 ≡ m p2 = ground arith in
          let rest : memcmp m (suc p1) (suc p2) n ≡ 0 = ground arith in ap₂ ◌∷◌ first (to rest),
      λ e. ground (arith, ap (λ l. get_or l 0 0) e, from (ap (drop 1) e)),
    )
