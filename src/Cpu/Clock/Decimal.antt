-- ===== src/Cpu/Clock/Decimal.antt =====
-- What the clock of kernel/drivers/rtc.c reads in its decimal mode.
use Prim.Native.Nat.{bit_and}
use hydrangea.Prelude.{
  ℕ, suc, ◌+◌, ◌*◌, ◌/◌, ◌^◌, ◌<◌, ◌≡◌, ◌≢◌, get_or, [], ◌∷◌, ap, ◌∙◌, sym, arith, refl, eq→==,
  some,
}
use hydrangea.Prelude.Bits.{zero-bit_and}
use hydrangea.Prelude.Bits.Fields.{bit_and-low, bit_and-high, bit_or-zero}
use hydrangea.Cpu.Clock.{TimeDate, changed, read_registers, from_bcd, decimal_hour, decode, rtc_now}

-- The registers in the order in which they are read.
abbrev pub register : ℕ → ℕ
register i = get_or (0x00 ∷ 0x02 ∷ 0x04 ∷ 0x07 ∷ 0x08 ∷ 0x09 ∷ []) i 0

-- Two decimal digits, each in half a byte.
from_bcd_lem : (t u : ℕ) → t < 10 → u < 10 → from_bcd (16 * t + u) ≡ 10 * t + u
from_bcd_lem t u ht hu =
    let shape : 16 * t + u ≡ t * 16 + u = omega arith in
    let low : bit_and (16 * t + u) 0x0F ≡ u =
      ap (λ z. bit_and z 0x0F) shape ∙ bit_and-low 4 t u (omega arith) in
    omega (arith, low)

no_top : (x : ℕ) → x < 128 → bit_and x 0x80 ≡ 0
no_top x h =
    let shape : x ≡ 0 * 2 ^ 7 + x = omega arith in
    ap (λ z. bit_and z 0x80) shape ∙ bit_and-high 7 0 x 1 h ∙ ap (λ z. z * 128) (zero-bit_and 1)

decimal_hour_lem : (pm t u : ℕ) → t < 8 → u < 10 → decimal_hour (128 * pm + 16 * t + u) ≡ 10 * t + u
unfolding decimal_hour
decimal_hour_lem pm t u ht hu =
    let h = 128 * pm + 16 * t + u in
    let shape : h ≡ (pm * 8 + t) * 16 + u = omega arith in
    let low : bit_and h 0x0F ≡ u =
      ap (λ z. bit_and z 0x0F) shape ∙ bit_and-low 4 (pm * 8 + t) u (omega arith) in
    let high : bit_and h 0x70 ≡ t * 16 =
      ap (λ z. bit_and z 0x70) shape
      ∙ bit_and-high 4 (pm * 8 + t) u 7 (omega arith)
      ∙ ap (λ z. z * 16) (bit_and-low 3 pm t ht) in
    let sum : bit_and h 0x0F + bit_and h 0x70 / 16 * 10 ≡ 10 * t + u = omega (arith, low, high) in
    let top = no_top (10 * t + u) (omega arith) in rw (sum, top) (bit_or-zero (10 * t + u))

decode-hour :
    (b : ℕ) (now : TimeDate) (pm t u : ℕ)
    → t < 8
    → u < 10
    → bit_and b 0x04 ≡ 0
    → now.hour ≡ 128 * pm + 16 * t + u
    → decode b now ≡ record now {
      second = from_bcd now.second;
      minute = from_bcd now.minute;
      hour = 10 * t + u;
      day = from_bcd now.day;
      month = from_bcd now.month;
      year = from_bcd now.year;
    }
unfolding decode
decode-hour b now pm t u ht hu decimal h =
    let hour = ap decimal_hour h ∙ decimal_hour_lem pm t u ht hu in
    let top = no_top (10 * t + u) (omega arith) in
    rw decimal (rw hour (rw top (ground (arith, hour, top))))

read_registers-stable :
    (answers : ℕ → ℕ → ℕ) (fuel : ℕ)
    → ((i : ℕ) → i < 6 → answers (register i) (i + 6) ≡ answers (register i) i)
    → read_registers answers 0 (suc fuel)
      ≡ some (
        12,
        record {
          second = answers 0x00 0;
          minute = answers 0x02 1;
          hour = answers 0x04 2;
          day = answers 0x07 3;
          month = answers 0x08 4;
          century = 0;
          year = answers 0x09 5;
        },
      )
unfolding read_registers changed
read_registers-stable answers fuel same =
    let e0 = eq→== (answers 0x00 0) (answers 0x00 6) (sym (same 0 (omega arith))) in
    let e1 = eq→== (answers 0x02 1) (answers 0x02 7) (sym (same 1 (omega arith))) in
    let e2 = eq→== (answers 0x04 2) (answers 0x04 8) (sym (same 2 (omega arith))) in
    let e3 = eq→== (answers 0x07 3) (answers 0x07 9) (sym (same 3 (omega arith))) in
    let e4 = eq→== (answers 0x08 4) (answers 0x08 10) (sym (same 4 (omega arith))) in
    let e5 = eq→== (answers 0x09 5) (answers 0x09 11) (sym (same 5 (omega arith))) in
    rw e0 (rw e1 (rw e2 (rw e3 (rw e4 (rw e5 refl)))))

-- If the six registers hold two decimal digits each, the hour's besides the flag for the afternoon, and do
-- not change while they are read twice, rtc_now in the decimal mode gives these numbers; the hour is the
-- same with the flag and without, in the mode of 12 hours, too.
pub rtc_now-decimal :
    (answers : ℕ → ℕ → ℕ) (tens units : ℕ → ℕ) (pm fuel : ℕ)
    → ((i : ℕ) → i < 6 → answers (register i) (i + 6) ≡ answers (register i) i)
    → ((i : ℕ) → i < 6 → (tens i < 10) × (units i < 10))
    → ((i : ℕ) → i < 6 → i ≢ 2 → answers (register i) i ≡ 16 * tens i + units i)
    → tens 2 < 8
    → answers 0x04 2 ≡ 128 * pm + 16 * tens 2 + units 2
    → bit_and (answers 0x0B 12) 0x04 ≡ 0
    → rtc_now answers (suc fuel)
      ≡ some (record {
        second = 10 * tens 0 + units 0;
        minute = 10 * tens 1 + units 1;
        hour = 10 * tens 2 + units 2;
        day = 10 * tens 3 + units 3;
        month = 10 * tens 4 + units 4;
        century = 0;
        year = 10 * tens 5 + units 5;
      })
unfolding rtc_now
rtc_now-decimal answers tens units pm fuel same digits held small hour decimal =
    let number : (i : ℕ)
        → i < 6
        → i ≢ 2
        → from_bcd (answers (register i) i) ≡ 10 * tens i + units i =
      λ i l n.
        let (t, u) = digits i l in ap from_bcd (held i l n) ∙ from_bcd_lem (tens i) (units i) t u in
    let now = read_registers-stable answers fuel same in
    let e0 = number 0 (omega arith) (λ e. omega (arith, e)) in
    let e1 = number 1 (omega arith) (λ e. omega (arith, e)) in
    let e3 = number 3 (omega arith) (λ e. omega (arith, e)) in
    let e4 = number 4 (omega arith) (λ e. omega (arith, e)) in
    let e5 = number 5 (omega arith) (λ e. omega (arith, e)) in
    let (t2, u2) = digits 2 (omega arith) in
    let decoded =
      decode-hour (answers 0x0B 12)
        (record {
          second = answers 0x00 0;
          minute = answers 0x02 1;
          hour = answers 0x04 2;
          day = answers 0x07 3;
          month = answers 0x08 4;
          century = 0;
          year = answers 0x09 5;
        })
        pm (tens 2) (units 2) small u2 decimal hour in
    rw (now, rtc_now) (ap some (decoded ∙ rw (e0, e1, e3, e4, e5) refl))
