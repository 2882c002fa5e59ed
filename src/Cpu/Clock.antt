-- ===== src/Cpu/Clock.antt =====
-- The clock of kernel/drivers/rtc.c. `answers reg n` is what the n-th call of `rtc_get_reg` gives, for
-- the register `reg`; a loop that has used up its fuel is `none`. Waiting until the clock is ready, and
-- printing, are left out.
pub mod Decimal
use Prim.Native.Nat.{bit_and, bit_or}
use hydrangea.Prelude.{
  ℕ, zero, suc, ◌+◌, ◌*◌, ◌/◌, ◌%◌, ◌==◌, ◌&&◌, not, if◌then◌else◌, List, [], ◌∷◌, Option, none,
  some, Bool, true, false,
}

pub record TimeDate : Type 0 where
  pub second : ℕ
  pub minute : ℕ
  pub hour : ℕ
  pub day : ℕ
  pub month : ℕ
  pub century : ℕ
  pub year : ℕ

-- The condition of the loop, which stops at the first register that has changed: the number of bytes
-- read so far, and whether one has.
unfoldable pub changed : (answers : ℕ → ℕ → ℕ) (n : ℕ) → List (ℕ × ℕ) → ℕ × Bool
changed answers n [] = (n, false)
changed answers n ((reg, v) ∷ vs) =
    if v == answers reg n then changed answers (suc n) vs else (suc n, true)

-- The loop, from the `n`-th byte on.
unfoldable pub read_registers : (answers : ℕ → ℕ → ℕ) (n fuel : ℕ) → Option (ℕ × TimeDate)
read_registers answers n zero = none
read_registers answers n (suc fuel) =
    let now : TimeDate = record {
      second = answers 0x00 n;
      minute = answers 0x02 (n + 1);
      hour = answers 0x04 (n + 2);
      day = answers 0x07 (n + 3);
      month = answers 0x08 (n + 4);
      century = 0;
      year = answers 0x09 (n + 5);
    } in
    let (n', again) = changed answers (n + 6) (
      (0x00, now.second)
      ∷ (0x02, now.minute)
      ∷ (0x04, now.hour)
      ∷ (0x07, now.day)
      ∷ (0x08, now.month)
      ∷ (0x09, now.year)
      ∷ []) in
    let rest = read_registers answers n' fuel in if again then rest else some (n', now)

abbrev pub from_bcd : ℕ → ℕ
from_bcd v = (bit_and v 0x0F + v / 16 * 10) % 256

unfoldable pub decimal_hour : ℕ → ℕ
decimal_hour h = let h = bit_and h 0x0F + bit_and h 0x70 / 16 * 10 in bit_or h (bit_and h 0x80)

-- The two tests of the register B.
unfoldable pub decode : (b_reg : ℕ) → TimeDate → TimeDate
decode b now =
    let now =
      if bit_and b 0x04 == 0
      then record now {
        second = from_bcd now.second;
        minute = from_bcd now.minute;
        hour = decimal_hour now.hour;
        day = from_bcd now.day;
        month = from_bcd now.month;
        year = from_bcd now.year;
      }
      else now in
    if bit_and b 0x02 == 0 && not (bit_and now.hour 0x80 == 0)
    then record now { hour = (bit_and now.hour 0x7F + 12) % 24 }
    else now

unfoldable pub rtc_now : (answers : ℕ → ℕ → ℕ) (fuel : ℕ) → Option TimeDate
rtc_now answers fuel = elim (read_registers answers 0 fuel) [
  | none ↦ none
  | some (n, now) ↦ some (decode (answers 0x0B n) now)
]
