-- ===== src/Drivers/Ata/Probe/Sectors.antt =====
-- What a drive's identification tells the kernel.
use Prim.Native.Nat.{bit_and}
use native.Mathlib.Decide.{ℕ_discrete, dec_lt}
use hydrangea.Prelude.{
  ◌≤◌, ℕ, zero, suc, ◌+◌, ◌-◌, ◌*◌, ◌%◌, ◌^◌, ◌<◌, ◌≡◌, ap, ◌∙◌, arith, ◌==◌, if◌then◌else◌, update,
  refl, update_ne,
}
use hydrangea.Libk.Bytes.{Memory}
use hydrangea.Prelude.Bits.{zero-bit_and}
use hydrangea.Prelude.Bits.Fields.{bit_and-high}
use hydrangea.Drivers.Ata.Probe.{AtaDrive, read_16, read_32, copy_name, identified}

-- The byte of the model that stands at the index `q` when the bytes of each pair are exchanged.
abbrev pub exchanged : Memory → (q : ℕ) → ℕ
exchanged buf q = if q % 2 == 0 then buf (54 + q + 1) else buf (54 + (q - 1))

pair_exchanged :
    (name buf : Memory) (i q : ℕ)
    → i % 2 ≡ 0
    → i ≤ q
    → q < i + 2
    → update (update name i (buf (54 + i + 1))) (i + 1) (buf (54 + i)) q ≡ exchanged buf q
pair_exchanged name buf i q even l u = elim (ℕ_discrete q i) [
  | yes e ↦
      let a : buf (54 + q + 1) ≡ buf (54 + i + 1) = ap (λ z. buf (54 + z + 1)) e in
      ground (arith, a, e)
  | no ne ↦
      let b : buf (54 + (q - 1)) ≡ buf (54 + i) = ap buf (omega (arith, ne, l, u)) in
      ground (arith, b, ne)
]

copy_name_lem :
    (name buf : Memory) (i n : ℕ)
    → i % 2 ≡ 0
    → ((q : ℕ) → i ≤ q → q < i + 2 * n → copy_name name buf i n q ≡ exchanged buf q)
      × ((q : ℕ) → q < i → copy_name name buf i n q ≡ name q)
unfolding copy_name
copy_name_lem name buf i zero even = (λ q l u. absurd (omega arith), λ q l. refl)
copy_name_lem name buf i (suc n) even =
    let m = update (update name i (buf (54 + i + 1))) (i + 1) (buf (54 + i)) in
    let (ins, out) = copy_name_lem m buf (i + 2) n (omega (arith, even)) in
    (
      λ q l u. elim (dec_lt q (i + 2)) [
        | yes here ↦ out q here ∙ pair_exchanged name buf i q even l here
        | no later ↦ ins q (omega (arith, later)) (omega (arith, u))
      ],
      λ q l.
          out q (omega (arith, l))
          ∙ update_ne (update name i (buf (54 + i + 1))) (i + 1) (buf (54 + i)) q
              (λ e. omega (arith, e, l))
          ∙ update_ne name i (buf (54 + i + 1)) q (λ e. omega (arith, e, l)),
    )

no_bit_26 : (w : ℕ) → w < 2 ^ 16 → bit_and w (2 ^ 26) ≡ 0
no_bit_26 w h =
    let shape : w ≡ 0 * 2 ^ 26 + w = omega arith in
    ap (λ z. bit_and z (2 ^ 26)) shape
    ∙ bit_and-high 26 0 w 1 (omega (arith, h))
    ∙ ap (λ z. z * 2 ^ 26) (zero-bit_and 1)

-- The number of sectors of a drive that identifies itself in bytes is always the one of 28 bits: the bit
-- that would select the longer number is looked for in a half word. The name is the model with the
-- bytes of each pair exchanged, and ends at 40.
pub identified-sectors :
    (drive : AtaDrive) (buf : Memory)
    → ((i : ℕ) → buf i < 256)
    → ((identified drive buf).sectors ≡ read_32 buf 120)
      × ((q : ℕ) → q < 40 → (identified drive buf).name q ≡ exchanged buf q)
      × ((identified drive buf).name 40 ≡ 0)
unfolding identified
identified-sectors drive buf bytes =
    let none_set = no_bit_26 (read_16 buf 164) (omega (arith, bytes 164, bytes 165)) in
    let (ins, out) = copy_name_lem (drive.name) buf 0 20 refl in
    (
      rw none_set refl,
      λ q l.
          update_ne (copy_name drive.name buf 0 20) 40 0 q (λ e. omega (arith, e, l))
          ∙ ins q (omega arith) (omega (arith, l)),
      refl,
    )
