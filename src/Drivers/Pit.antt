-- ===== src/Drivers/Pit.antt =====
-- kernel/drivers/pit.c: the timer. pit_sleep waits for the timer's value to get to 0.
use hydrangea.Prelude.{ℕ, ◌+◌, ◌-◌, ◌*◌, ◌/◌, ◌%◌, ◌^◌, Option, none, some, ◌∷◌}
use hydrangea.Drivers.Ports.{wrote, Log}
use hydrangea.Sched.{Scheduler, mt_schedule}

-- `pit_infos_t`
pub record PitInfos : Type 0 where
  pub timer_value : ℕ
  pub freq : ℕ

-- The outputs of `pit_init`, for a frequency that is not 0
unfoldable pub pit_init : Log → (freq : ℕ) → PitInfos × Log
pit_init log freq =
    let div = (7159090 + 3) / (6 * freq % 2 ^ 32) % 2 ^ 16 in
    (
      record { timer_value = 0; freq = freq },
      wrote 0x40 (div / 2 ^ 8 % 2 ^ 8) ∷ wrote 0x40 (div % 2 ^ 8) ∷ wrote 0x43 0x36 ∷ log,
    )

-- `pit_event`
unfoldable pub pit_event : PitInfos → Scheduler → (fuel : ℕ) → Option (PitInfos × Scheduler)
pit_event pit s fuel = elim (mt_schedule s fuel) [
  | none ↦ none
  | some s' ↦ some (record pit { timer_value = pit.timer_value - 1 }, s')
]
