-- ===== src/Drivers/Ata.antt =====
-- Reads and writes of sectors in kernel/drivers/ata.c. `answer` is the device; waiting for it takes
-- `fuel` polls at most, and `none` says that they are used up.
pub mod Pio
pub mod Probe
pub mod Protocol
pub mod Told
pub mod Words
use Prim.Native.Nat.{bit_and, bit_or}
use hydrangea.Prelude.{
  ℕ, zero, suc, ◌+◌, ◌*◌, ◌/◌, ◌%◌, ◌^◌, ◌==◌, ◌||◌, not, if◌then◌else◌, Option, none, some, List,
  ◌∷◌, update, ◌>>=◌,
}
use hydrangea.Libk.Bytes.{Memory}
use hydrangea.Drivers.Ports.{IoEvent, wrote, asked, Log, Device}

-- The registers, as offsets from the channel's base
abbrev pub reg_error : ℕ
reg_error = 0x01

abbrev pub reg_status : ℕ
reg_status = 0x07

abbrev pub reg_altstatus : ℕ
reg_altstatus = 0x0C

-- `ATA_400_nano_sec`
unfoldable pub ata_400_nano_sec : Log → (base : ℕ) → Log
ata_400_nano_sec log base = let alt = asked (base + reg_altstatus) in alt ∷ alt ∷ alt ∷ alt ∷ log

-- The log when the drive has been selected, and the bytes that tell it the sectors.
unfoldable pub select_drive : Log → (base ms block : ℕ) → Log
unfolding ata_400_nano_sec
select_drive log base ms block =
    let head = bit_or (if ms == 0 then 0xF0 else 0xE0) (bit_and (block / 2 ^ 24) 0x0F) in
    ata_400_nano_sec (wrote (base + 0x06) head ∷ log) base

unfoldable pub give_sectors : Log → (base block size : ℕ) → Log
give_sectors log base block size =
    wrote (base + 0x0B) 0
    ∷ wrote (base + 0x0A) 0
    ∷ wrote (base + 0x09) 0
    ∷ wrote (base + 0x05) (block / 2 ^ 16 % 2 ^ 8)
    ∷ wrote (base + 0x04) (block / 2 ^ 8 % 2 ^ 8)
    ∷ wrote (base + 0x03) (block % 2 ^ 8)
    ∷ wrote (base + 0x08) 0
    ∷ wrote (base + 0x02) (size % 2 ^ 8)
    ∷ wrote (base + reg_error) 0
    ∷ log

module _ (answer : Device) where
  -- `do … while (busy || data request)`
  unfoldable pub wait_idle : Log → (base fuel : ℕ) → Option Log
  wait_idle log base zero = none
  wait_idle log base (suc n) =
      let status = answer log (base + reg_status) in
      let rest = wait_idle (asked (base + reg_status) ∷ log) base n in
      if not (bit_and status 0x80 == 0) || not (bit_and status 0x08 == 0)
      then rest
      else some (asked (base + reg_status) ∷ log)

  -- `do … while (busy || no data request)`
  unfoldable pub wait_data : Log → (base fuel : ℕ) → Option Log
  wait_data log base zero = none
  wait_data log base (suc n) =
      let status = answer log (base + reg_status) in
      let rest = wait_data (asked (base + reg_status) ∷ log) base n in
      if not (bit_and status 0x80 == 0) || bit_and status 0x08 == 0
      then rest
      else some (asked (base + reg_status) ∷ log)

  unfoldable pub ata_pio_prepare : Log → (base ms block size fuel : ℕ) → Option Log
  ata_pio_prepare log base ms block size fuel = do
    log ← wait_idle (select_drive log base ms block) base fuel
    some (give_sectors log base block size)

  -- `ATA_check_for_errors`; the port that ATA_print_error reads from is the error's code.
  unfoldable pub ata_check_for_errors : Log → (base : ℕ) → ℕ × Log
  unfolding ata_400_nano_sec
  ata_check_for_errors log base =
      let status = answer log (base + reg_status) in
      let log = asked (base + reg_status) ∷ log in
      let err = answer log (base + reg_error) in
      let log' = asked (err + reg_error) ∷ ata_400_nano_sec (asked (base + reg_error) ∷ log) err in
      if not (bit_and status 0x01 == 0)
      then (err, log')
      else if bit_and status 0x08 == 0
      then (0xFF, log)
      else (0, log)

  -- The loop of `ATA_PIO_read` at the word `i`, with `n` words to go
  unfoldable pub read_words : Log → Memory → (base buf i n fuel : ℕ) → Option (Memory × Log)
  read_words log m base buf i zero fuel = some (m, log)
  read_words log m base buf i (suc n) fuel =
      elim (wait_data (asked (base + reg_altstatus) ∷ log) base fuel) [
        | none ↦ none
        | some ready ↦
            let word = answer ready base in
            let m' = update m (buf + i * 2) (word % 2 ^ 8) in
            let m' = update m' (buf + i * 2 + 1) (word / 2 ^ 8 % 2 ^ 8) in
            read_words (asked base ∷ ready) m' base buf (suc i) n fuel
      ]

  -- `ATA_PIO_read` of a drive at `base`: the sectors read, the memory and the log.
  unfoldable pub ata_pio_read :
      Log → Memory → (base ms block size buf fuel : ℕ) → Option (ℕ × Memory × Log)
  ata_pio_read log m base ms block size buf fuel =
      elim (ata_pio_prepare log base ms block size fuel) [
        | none ↦ none
        | some prepared ↦
            let (err, log) = ata_check_for_errors (wrote (base + 0x07) 0x20 ∷ prepared) base in
            let all : Option (ℕ × Memory × Log) = do
              (m, log) ← read_words log m base buf 0 (256 * size) fuel
              some (size, m, asked (base + reg_status) ∷ asked (base + reg_altstatus) ∷ log)
            in if err == 0x04 then some (0, m, log) else all
      ]

  -- The loop of `ATA_PIO_write`
  unfoldable pub write_words : Log → Memory → (base buf i n fuel : ℕ) → Option Log
  write_words log m base buf i zero fuel = some log
  write_words log m base buf i (suc n) fuel =
      elim (wait_data (asked (base + reg_altstatus) ∷ log) base fuel) [
        | none ↦ none
        | some ready ↦
            let word = m (buf + i * 2 + 1) * 2 ^ 8 + m (buf + i * 2) in
            write_words (wrote base word ∷ ready) m base buf (suc i) n fuel
      ]

  unfoldable pub ata_pio_write : Log → Memory → (base ms block size buf fuel : ℕ) → Option (ℕ × Log)
  ata_pio_write log m base ms block size buf fuel =
      elim (ata_pio_prepare log base ms block size fuel) [
        | none ↦ none
        | some prepared ↦ elim (wait_idle prepared base fuel) [
          | none ↦ none
          | some idle ↦
              let (err, log) = ata_check_for_errors (wrote (base + 0x07) 0x30 ∷ idle) base in
              let all : Option (ℕ × Log) = do
                log ← write_words log m base buf 0 (256 * size) fuel
                some (size, asked (base + reg_status) ∷ asked (base + reg_altstatus) ∷ log)
              in if err == 0x04 then some (0, log) else all
        ]
      ]
