-- ===== src/Mem/Paging/Map.antt =====
-- What `pg_map_pages` of paging.c makes the processor see.
use Prim.Native.Nat.{bit_and, bit_or}
use native.Mathlib.Decide.{ℕ_discrete}
use hydrangea.Prelude.{
  ℕ, zero, suc, ◌+◌, ◌*◌, ◌/◌, ◌%◌, ◌^◌, ◌≤◌, ◌<◌, ◌≡◌, ◌≢◌, refl, ap, sym, ◌∙◌, arith, some, ◌==◌,
  if◌then◌else◌, update, eq→==, ne→not_==, ◌&&◌, not, update_ne,
}
use hydrangea.Prelude.Bits.{bit_or-half, bit_or-lt}
use hydrangea.Prelude.Bits.Fields.{bit_and-low, bit_or-flags}
use hydrangea.Mem.Paging.{Paging, directory_index, pg_tbl_exists, pg_is_mapped, add_flags, map_from}

-- A present entry for the frame at `addr`.
abbrev pub Points : (addr e : ℕ) → Type 0
Points addr e = (e < 2 ^ 32) × (e % 2 ≡ 1) × (e / 4096 * 4096 ≡ addr)

or_flags : (e flags : ℕ) → flags < 4096 → bit_or e flags ≡ e / 4096 * 4096 + bit_or (e % 4096) flags
or_flags e flags h =
    let split : e ≡ e / 4096 * 4096 + e % 4096 = omega arith in
    ap (λ z. bit_or z flags) split ∙ bit_or-flags 12 (e / 4096) (e % 4096) flags (omega arith) h

pub Points-flags : (addr e flags : ℕ) → flags < 4096 → Points addr e → Points addr (bit_or e flags)
Points-flags addr e flags h (small, present, frame) =
    let low : bit_or (e % 4096) flags < 4096 = bit_or-lt 12 (e % 4096) flags (omega arith) h in
    let split = or_flags e flags h in
    let bits = bit_or-half e flags in
    (omega (arith, low, split), omega (arith, bits), omega (arith, low, split))

-- The entry that maps a page to the frame at `addr`.
abbrev pub page_entry : (addr flags : ℕ) → ℕ
page_entry addr flags = bit_or (bit_or addr 1) flags

pub Points-page_entry :
    (addr flags : ℕ)
    → addr % 4096 ≡ 0
    → addr < 2 ^ 32
    → flags < 4096
    → Points addr (page_entry addr flags)
Points-page_entry addr flags aligned small h =
    let split = or_flags addr 1 (omega arith) in
    let none_low : addr % 4096 ≡ 0 = aligned in
    let one : bit_or (addr % 4096) 1 ≡ 1 = rw none_low refl in
    Points-flags addr (bit_or addr 1) flags h
      (omega (arith, split, one), omega (arith, split, one), omega (arith, split, one))

pub present_bit : (e : ℕ) → bit_and e 1 ≡ e % 2
present_bit e =
    let split : e ≡ e / 2 * 2 + e % 2 = omega arith in
    ap (λ z. bit_and z 1) split ∙ bit_and-low 1 (e / 2) (e % 2) (omega arith)

-- One page mapped: what the state's words are after a round of the loop.
after_round : (words : ℕ → ℕ) → (d t flags page : ℕ) → (mapped : ℕ) → ℕ → ℕ
after_round words d t flags page mapped a =
    if a == t then page else if a == d && not (mapped == 0) then bit_or (words d) flags else words a

-- Every page has an answer of `pg_is_mapped`.
is_mapped_some :
    (s : Paging) (dir virt : ℕ) → virt % 4096 ≡ 0 → (b : ℕ) × (pg_is_mapped s dir virt ≡ some b)
unfolding pg_is_mapped pg_tbl_exists
is_mapped_some s dir virt h = rw h (_, refl)

-- The state after a round of the loop, where `pg_is_mapped` has answered `mapped`.
round : Paging → (dir virt tbl flags i page mapped : ℕ) → Paging
round s dir virt tbl flags i page mapped =
    let flagged = add_flags (add_flags s tbl i flags) dir (directory_index virt) flags in
    let s = if mapped == 0 then s else flagged in
    record s { words = update s.words (tbl + 4 * i) page }

round_words :
    (s : Paging) (dir virt tbl flags i page mapped a : ℕ)
    → dir + 4 * (virt / 2 ^ 22) ≢ tbl + 4 * i
    → (round s dir virt tbl flags i page mapped).words a
      ≡ after_round s.words (dir + 4 * (virt / 2 ^ 22)) (tbl + 4 * i) flags page mapped a
unfolding round add_flags after_round
round_words s dir virt tbl flags i page mapped a apart = elim (ℕ_discrete mapped 0) [
  | yes e ↦ rw (eq→== mapped 0 e) (ground arith)
  | no ne ↦
      let other =
        update_ne s.words (tbl + 4 * i) (bit_or (s.words (tbl + 4 * i)) flags)
          (dir + 4 * (virt / 2 ^ 22)) (λ e. apart (sym e)) in
      rw (ne→not_== mapped 0 ne) (ground (arith, other))
]

map_from_next :
    (s : Paging) (dir virt phys tbl flags i n mapped : ℕ)
    → pg_is_mapped s dir ((virt + i * 0x1000) % 2 ^ 32) ≡ some mapped
    → map_from s dir virt phys tbl flags i (suc n)
      ≡ map_from
          (round s dir virt tbl flags i (page_entry ((phys + i * 0x1000) % 2 ^ 32) flags) mapped)
          dir
          virt
          phys
          tbl
          flags
          (suc i)
          n
unfolding map_from round
map_from_next s dir virt phys tbl flags i n mapped e = rw (e, map_from) refl

-- What the loop leaves for the pages from `i` on, `n` of them; `d` is the address of the directory's
-- entry for the table.
abbrev pub Filled : (words words' : ℕ → ℕ) → (d tbl phys flags i n : ℕ) → Type 0
Filled words words' d tbl phys flags i n =
    Points tbl (words' d)
    × ((j : ℕ)
        → i ≤ j
        → j < i + n
        → words' (tbl + 4 * j) ≡ page_entry ((phys + j * 0x1000) % 2 ^ 32) flags)
    × ((a : ℕ) → a ≢ d → ((j : ℕ) → i ≤ j → j < i + n → a ≢ tbl + 4 * j) → words' a ≡ words a)

after_round-Filled :
    (words words' : ℕ → ℕ) (d tbl phys flags i mapped : ℕ)
    → ((a : ℕ)
        → words' a
          ≡ after_round words d
              (tbl + 4 * i)
              flags
              (page_entry ((phys + i * 0x1000) % 2 ^ 32) flags)
              mapped
              a)
    → flags < 4096
    → Points tbl (words d)
    → d ≢ tbl + 4 * i
    → Filled words words' d tbl phys flags i 1
unfolding after_round
after_round-Filled words words' d tbl phys flags i mapped now hf points apart =
    let page = page_entry ((phys + i * 0x1000) % 2 ^ 32) flags in
    let at_d : words' d ≡ (if mapped == 0 then words d else bit_or (words d) flags) =
      ground (arith, now d) in
    let kept : Points tbl (words' d) = elim (ℕ_discrete mapped 0) [
      | yes e ↦ rw at_d (rw (eq→== mapped 0 e) points)
      | no ne ↦ rw at_d (rw (ne→not_== mapped 0 ne) (Points-flags tbl (words d) flags hf points))
    ] in
    let here : words' (tbl + 4 * i) ≡ page = ground (arith, now (tbl + 4 * i)) in
    (
      kept,
      (λ j l h. let e : j ≡ i = omega arith in rw e here),
      λ a ne out. let off = out i (omega arith) (omega arith) in ground (arith, now a, off, ne),
    )

-- One round of the loop.
map_from-round :
    (s : Paging) (dir virt phys tbl flags i n : ℕ)
    → virt % 4096 ≡ 0
    → flags < 4096
    → Points tbl (s.words (dir + 4 * (virt / 2 ^ 22)))
    → dir + 4 * (virt / 2 ^ 22) ≢ tbl + 4 * i
    → (s1 : Paging) × (map_from s dir virt phys tbl flags i (suc n)
        ≡ map_from s1 dir virt phys tbl flags (suc i) n)
      × Filled s.words s1.words (dir + 4 * (virt / 2 ^ 22)) tbl phys flags i 1
map_from-round s dir virt phys tbl flags i n hv hf points apart =
    let d = dir + 4 * (virt / 2 ^ 22) in
    let page = page_entry ((phys + i * 0x1000) % 2 ^ 32) flags in
    let (mapped, e) = is_mapped_some s dir ((virt + i * 0x1000) % 2 ^ 32) (omega arith) in
    let s1 = round s dir virt tbl flags i page mapped in
    (
      s1,
      map_from_next s dir virt phys tbl flags i n mapped e,
      after_round-Filled s.words s1.words d tbl phys flags i mapped
          (λ a. round_words s dir virt tbl flags i page mapped a apart) hf points apart,
    )

pub map_from-Filled :
    (s : Paging) (dir virt phys tbl flags i n : ℕ)
    → virt % 4096 ≡ 0
    → flags < 4096
    → Points tbl (s.words (dir + 4 * (virt / 2 ^ 22)))
    → ((j : ℕ) → j < i + n → dir + 4 * (virt / 2 ^ 22) ≢ tbl + 4 * j)
    → (s' : Paging) × (map_from s dir virt phys tbl flags i n ≡ some s')
      × Filled s.words s'.words (dir + 4 * (virt / 2 ^ 22)) tbl phys flags i n
unfolding map_from
map_from-Filled s dir virt phys tbl flags i zero hv hf points apart =
    (s, refl, (points, (λ j l h. absurd (omega (arith, l, h))), λ a ne out. refl))
map_from-Filled s dir virt phys tbl flags i (suc n) hv hf points apart =
    let (s1, e1, (points1, page, rest)) =
      map_from-round s dir virt phys tbl flags i n hv hf points (apart i (omega arith)) in
    let (s', e', (points', pages, rest')) =
      map_from-Filled s1 dir virt phys tbl flags (suc i) n hv hf points1
        (λ j l. apart j (omega arith)) in
    (
      s',
      e1 ∙ e',
      (
        points',
        (λ j l h. elim (ℕ_discrete j i) [
          | yes e ↦ rw e (
              rest' (tbl + 4 * i) (λ eq. apart i (omega arith) (sym eq))
                (λ k lk hk eq. omega (arith, lk, eq))
              ∙ page i (omega arith) (omega arith))
          | no ne ↦ pages j (omega arith) (omega arith)
        ]),
        λ a ne out.
            rest' a ne (λ j l h. out j (omega arith) (omega arith))
            ∙ rest a ne (λ j l h. out j (omega arith) (omega arith)),
      ),
    )
