-- ===== src/Drivers/Ata/Told.antt =====
-- What ATA_PIO_prepare of kernel/drivers/ata.c tells the drive.
use Prim.Native.Nat.{bit_and, bit_or}
use native.Mathlib.Decide.{ℕ_discrete}
use hydrangea.Prelude.{
  ℕ, suc, ◌+◌, ◌*◌, ◌/◌, ◌%◌, ◌^◌, ◌<◌, ◌≡◌, refl, sym, ◌∙◌, arith, some, ◌∷◌, ◌==◌, if◌then◌else◌,
  eq→==, ne→not_==,
}
use hydrangea.Prelude.Bits.Fields.{bit_and-low, bit_or-field}
use hydrangea.Libk.Bytes.{Memory}
use hydrangea.Drivers.Ports.{asked, Log, Device}
use hydrangea.Drivers.Ata.{
  reg_error, reg_status, ata_400_nano_sec, select_drive, give_sectors, wait_idle, ata_pio_prepare,
}
use hydrangea.Drivers.Ata.Protocol.{written, addressed, IsIdle, Serves}

-- The log when the drive, idle, has been told the sectors
unfoldable pub given : Log → (base ms block size : ℕ) → Log
given log base ms block size =
    give_sectors (asked (base + reg_status) ∷ select_drive log base ms block) base block size

pub prepare_lem :
    (answer : Device) (log : Log) (base ms block size fuel : ℕ)
    → IsIdle (answer (select_drive log base ms block) (base + reg_status))
    → ata_pio_prepare answer log base ms block size (suc fuel) ≡ some (given log base ms block size)
unfolding ata_pio_prepare wait_idle given
prepare_lem answer log base ms block size fuel (free, no_data) =
    rw (eq→== _ 0 free, eq→== _ 0 no_data) refl

pub head_field : (q r : ℕ) → r < 2 ^ 4 → bit_or (q * 2 ^ 4) (bit_and r 0x0F) ≡ q * 2 ^ 4 + r
head_field q r h =
    let low : bit_and (0 * 2 ^ 4 + r) 0x0F ≡ r = bit_and-low 4 0 r h in
    let plain : 0 * 2 ^ 4 + r ≡ r = omega arith in
    let low' : bit_and r 0x0F ≡ r = rw (← plain) (low ∙ sym plain) in rw low' (bit_or-field 4 q r h)

-- The drive register: the drive in the high half, the highest bits of the sector in the low one
pub head_lem :
    (ms block : ℕ)
    → block < 2 ^ 28
    → bit_or (if ms == 0 then 0xF0 else 0xE0) (bit_and (block / 2 ^ 24) 0x0F)
      ≡ (if ms == 0 then 0xF else 0xE) * 2 ^ 4 + block / 2 ^ 24
head_lem ms block h =
    let first = head_field 0xF (block / 2 ^ 24) (omega (arith, h)) in
    let second = head_field 0xE (block / 2 ^ 24) (omega (arith, h)) in
    elim (ℕ_discrete ms 0) [
      | yes e ↦ rw (eq→== ms 0 e) first
      | no ne ↦ rw (ne→not_== ms 0 ne) second
    ]

pub given-head :
    (log : Log) (base ms block size : ℕ)
    → block < 2 ^ 28
    → written (given log base ms block size) (base + 6)
      ≡ (if ms == 0 then 0xF else 0xE) * 2 ^ 4 + block / 2 ^ 24
unfolding given give_sectors select_drive ata_400_nano_sec
given-head log base ms block size h = rw (head_lem ms block h) (ground arith)

pub given-drive :
    (log : Log) (base ms block size : ℕ)
    → block < 2 ^ 28
    → written (given log base ms block size) (base + 6) / 2 ^ 4 ≡ (if ms == 0 then 0xF else 0xE)
given-drive log base ms block size h =
    rw (given-head log base ms block size h)
      (let q : ℕ = if ms == 0 then 0xF else 0xE in omega (arith, h))

pub given-low :
    (log : Log) (base ms block size : ℕ)
    → (written (given log base ms block size) (base + 3) ≡ block % 2 ^ 8)
      × (written (given log base ms block size) (base + 4) ≡ block / 2 ^ 8 % 2 ^ 8)
      × (written (given log base ms block size) (base + 5) ≡ block / 2 ^ 16 % 2 ^ 8)
unfolding given give_sectors
given-low log base ms block size = (ground arith, ground arith, ground arith)

pub given-addressed :
    (log : Log) (base ms block size : ℕ)
    → block < 2 ^ 28
    → addressed (given log base ms block size) base ≡ block
given-addressed log base ms block size h =
    let (b0, b1, b2) = given-low log base ms block size in
    let q : ℕ = if ms == 0 then 0xF else 0xE in
    let head : written (given log base ms block size) (base + 6) % 2 ^ 4 ≡ block / 2 ^ 24 =
      rw (given-head log base ms block size h) (omega (arith, h)) in
    omega (arith, b0, b1, b2, head, h)

pub given-size :
    (log : Log) (base ms block size : ℕ)
    → size < 256
    → written (given log base ms block size) (base + 2) ≡ size
unfolding given give_sectors
given-size log base ms block size h = ground (arith, h)

pub given-IsIdle :
    (answer : Device) (base ms limit : ℕ) (disk : Memory)
    (Stage : (block size k d : ℕ) → Log → Type 0)
    → Serves answer base ms limit disk Stage
    → (log : Log) (block size : ℕ)
    → IsIdle (answer (select_drive log base ms block) (base + reg_status))
    → IsIdle (answer (given log base ms block size) (base + reg_status))
unfolding given give_sectors
given-IsIdle answer base ms limit disk Stage device log block size idle =
    let w = device.idle_written in
    w _ (base + 0x0B) 0 (λ e. omega (arith, e)) (λ e. omega (arith, e))
      (w _ (base + 0x0A) 0 (λ e. omega (arith, e)) (λ e. omega (arith, e))
        (w _ (base + 0x09) 0 (λ e. omega (arith, e)) (λ e. omega (arith, e))
          (w _ (base + 0x05) (block / 2 ^ 16 % 2 ^ 8) (λ e. omega (arith, e))
            (λ e. omega (arith, e))
            (w _ (base + 0x04) (block / 2 ^ 8 % 2 ^ 8) (λ e. omega (arith, e))
              (λ e. omega (arith, e))
              (w _ (base + 0x03) (block % 2 ^ 8) (λ e. omega (arith, e)) (λ e. omega (arith, e))
                (w _ (base + 0x08) 0 (λ e. omega (arith, e)) (λ e. omega (arith, e))
                  (w _ (base + 0x02) (size % 2 ^ 8) (λ e. omega (arith, e)) (λ e. omega (arith, e))
                    (w _ (base + reg_error) 0 (λ e. omega (arith, e)) (λ e. omega (arith, e))
                      (device.idle_polled _ idle)))))))))
