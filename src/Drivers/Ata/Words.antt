-- ===== src/Drivers/Ata/Words.antt =====
-- The loop of ATA_PIO_read, for a device that keeps to the protocol.
use Prim.Native.Nat.{bit_and}
use mathlib.Core.Path.{subst}
use native.Mathlib.Decide.{ℕ_discrete}
use hydrangea.Prelude.{
  ℕ, zero, suc, ◌+◌, ◌*◌, ◌/◌, ◌%◌, ◌^◌, ◌≤◌, ◌<◌, ◌≡◌, ◌⊎◌, inl, inr, refl, sym, ◌∙◌, arith, some,
  ◌∷◌, update, eq→==, ne→not_==,
}
use hydrangea.Libk.Bytes.{Memory}
use hydrangea.Drivers.Ports.{asked, Log, Device}
use hydrangea.Drivers.Ata.{reg_status, reg_altstatus, wait_data, read_words}
use hydrangea.Drivers.Ata.Protocol.{IsReady, Serves}

-- The bytes of the words from `i` on, below `n`, in the buffer
abbrev pub HoldsWords : Memory → (words : ℕ → ℕ) (buf i n : ℕ) → Type 0
HoldsWords m words buf i n =
    (k : ℕ)
    → i ≤ k
    → k < n
    → (m (buf + k * 2) ≡ words k % 2 ^ 8) × (m (buf + k * 2 + 1) ≡ words k / 2 ^ 8 % 2 ^ 8)

pub IsReady-or : (status : ℕ) → IsReady status ⊎ (IsReady status → ⊥)
IsReady-or status = elim (ℕ_discrete (bit_and status 0x80) 0) [
  | yes free ↦ elim (ℕ_discrete (bit_and status 0x08) 0) [
    | yes no_data ↦ inr (λ r. r.1 no_data)
    | no data' ↦ inl (free, data')
  ]
  | no busy ↦ inr (λ r. busy (r.0))
]

pub wait_data-ready :
    (answer : Device) (log : Log) (base n : ℕ)
    → IsReady (answer log (base + reg_status))
    → wait_data answer log base (suc n) ≡ some (asked (base + reg_status) ∷ log)
unfolding wait_data
wait_data-ready answer log base n (free, has) =
    rw
      (
        eq→== (bit_and (answer log (base + reg_status)) 0x80) 0 free,
        ne→not_== (bit_and (answer log (base + reg_status)) 0x08) 0 has,
      )
      refl

pub wait_data-busy :
    (answer : Device) (log : Log) (base n : ℕ)
    → (IsReady (answer log (base + reg_status)) → ⊥)
    → wait_data answer log base (suc n) ≡ wait_data answer (asked (base + reg_status) ∷ log) base n
unfolding wait_data
wait_data-busy answer log base n not_ready =
    let status = answer log (base + reg_status) in
    elim (ℕ_discrete (bit_and status 0x80) 0) [
      | yes free ↦ elim (ℕ_discrete (bit_and status 0x08) 0) [
        | yes no_data ↦ ground (arith, no_data)
        | no has ↦ absurd (not_ready (free, has))
      ]
      | no busy ↦ ground (arith, busy)
    ]

module _ (answer : Device) (base ms limit : ℕ) (disk : Memory)
    (Stage : (block size k d : ℕ) → Log → Type 0) (device : Serves answer base ms limit disk Stage)
    (block size : ℕ) where
  abbrev pub words : ℕ → ℕ
  words k = disk (512 * block + 2 * k) + 256 * disk (512 * block + 2 * k + 1)

  -- Polling ends when the drive asks for data.
  wait_data_lem :
      (k d : ℕ) (log : Log) (fuel : ℕ)
      → k < 256 * size
      → Stage block size k d log
      → d < fuel
      → (log' : Log) × (d' : ℕ) × (wait_data answer log base fuel
          ≡ some (asked (base + reg_status) ∷ log'))
        × IsReady (answer log' (base + reg_status))
        × Stage block size k d' log'
  wait_data_lem k d log zero l at f = absurd (omega (arith, f))
  wait_data_lem k d log (suc n) l at f = elim (IsReady-or (answer log (base + reg_status))) [
    | inl ready ↦ (log, d, wait_data-ready answer log base n ready, ready, at)
    | inr not_ready ↦
        let (d', e, at') = device.busy block size k d log l at not_ready in
        let (log', d'', run, ready, at'') =
          wait_data_lem k d' (asked (base + reg_status) ∷ log) n l at' (omega (arith, e, f)) in
        (log', d'', wait_data-busy answer log base n not_ready ∙ run, ready, at'')
  ]

  -- Memory with the word `i` in the buffer
  stored : Memory → (buf i : ℕ) → Memory
  stored m buf i =
      let m' = update m (buf + i * 2) (words i % 2 ^ 8) in
      update m' (buf + i * 2 + 1) (words i / 2 ^ 8 % 2 ^ 8)

  read_words-step :
      (log ready : Log) (m : Memory) (buf i n fuel : ℕ)
      → wait_data answer (asked (base + reg_altstatus) ∷ log) base fuel ≡ some ready
      → answer ready base ≡ words i
      → read_words answer log m base buf i (suc n) fuel
        ≡ read_words answer (asked base ∷ ready) (stored m buf i) base buf (suc i) n fuel
  unfolding read_words stored
  read_words-step log ready m buf i n fuel run got = rw (run, read_words) (rw got refl)

  stored_low : (m : Memory) (buf i : ℕ) → stored m buf i (buf + i * 2) ≡ words i % 2 ^ 8
  unfolding stored
  stored_low m buf i = ground arith

  stored_high :
      (m : Memory) (buf i : ℕ) → stored m buf i (buf + i * 2 + 1) ≡ words i / 2 ^ 8 % 2 ^ 8
  unfolding stored
  stored_high m buf i = ground arith

  stored_outside :
      (m : Memory) (buf i a : ℕ)
      → (a < buf + i * 2) ⊎ (buf + suc i * 2 ≤ a)
      → stored m buf i a ≡ m a
  unfolding stored
  stored_outside m buf i a (inl l) = ground arith
  stored_outside m buf i a (inr l) = ground arith

  read_words-zero :
      (log : Log) (m : Memory) (buf i fuel : ℕ)
      → read_words answer log m base buf i 0 fuel ≡ some (m, log)
  unfolding read_words
  read_words-zero log m buf i fuel = refl

  pub read_words_lem :
      (log : Log) (m : Memory) (buf i n d fuel : ℕ)
      → Stage block size i d log
      → d < fuel
      → limit < fuel
      → i + n ≤ 256 * size
      → (r : Memory × Log) × (read_words answer log m base buf i n fuel ≡ some r)
        × HoldsWords (r.0) words buf i (i + n)
        × ((a : ℕ) → (a < buf + i * 2) ⊎ (buf + (i + n) * 2 ≤ a) → (r.0) a ≡ m a)
  read_words_lem log m buf i zero d fuel at f g h =
      ((m, log), read_words-zero log m buf i fuel, λ k l u. absurd (omega arith), λ a o. refl)
  read_words_lem log m buf i (suc n) d fuel at f g h =
      let here : i < 256 * size = omega (arith, h) in
      let (log', d', run', ready, at') =
        wait_data_lem i d (asked (base + reg_altstatus) ∷ log) fuel here
          (device.waited block size i d log at) f in
      let (word, next) = device.taken block size i d' log' here at' ready in
      let behind = asked base ∷ asked (base + reg_status) ∷ log' in
      let (r, run, ins, out) =
        read_words_lem behind (stored m buf i) buf (suc i) n limit fuel next g g
          (omega (arith, h)) in
      (
        r,
        read_words-step log (asked (base + reg_status) ∷ log') m buf i n fuel run' word ∙ run,
        λ k l u. elim (ℕ_discrete k i) [
          | yes e ↦
              subst
                (λ (k : ℕ).
                  (r.0 (buf + k * 2) ≡ words k % 2 ^ 8)
                  × (r.0 (buf + k * 2 + 1) ≡ words k / 2 ^ 8 % 2 ^ 8))
                (sym e)
                (
                  out (buf + i * 2) (inl (omega arith)) ∙ stored_low m buf i,
                  out (buf + i * 2 + 1) (inl (omega arith)) ∙ stored_high m buf i,
                )
          | no ne ↦ ins k (omega (arith, ne, l)) (omega (arith, u))
        ],
        λ a o. elim o [
          | inl l ↦ out a (inl (omega (arith, l))) ∙ stored_outside m buf i a (inl l)
          | inr l ↦
              out a (inr (omega (arith, l))) ∙ stored_outside m buf i a (inr (omega (arith, l)))
        ],
      )

-- The poll of ATA_check_for_errors
pub first_poll :
    (answer : Device) (base ms limit : ℕ) (disk : Memory)
    (Stage : (block size k d : ℕ) → Log → Type 0)
    → Serves answer base ms limit disk Stage
    → (block size : ℕ) (log : Log) → Stage block size 0 limit log
    → 0 < 256 * size
    → (d : ℕ) × Stage block size 0 d (asked (base + reg_status) ∷ log) × (d ≤ limit)
first_poll answer base ms limit disk Stage device block size log at s =
    elim (IsReady-or (answer log (base + reg_status))) [
      | inl ready ↦ (limit, device.polled block size 0 limit log at ready, omega arith)
      | inr not_ready ↦
          let (d, e, at') = device.busy block size 0 limit log s at not_ready in
          (d, at', omega (arith, e))
    ]
