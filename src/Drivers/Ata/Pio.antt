-- ===== src/Drivers/Ata/Pio.antt =====
-- What ATA_PIO_read leaves in its buffer, for a device that keeps to the protocol.
use Prim.Native.Nat.{bit_and}
use native.Mathlib.Decide.{ℕ_discrete}
use hydrangea.Prelude.{
  ℕ, zero, suc, ◌+◌, ◌*◌, ◌/◌, ◌%◌, ◌^◌, ◌≤◌, ◌<◌, ◌≡◌, ◌≢◌, ◌⊎◌, inl, inr, refl, ap, ◌∙◌, arith,
  some, ◌∷◌, eq→==, ne→not_==,
}
use hydrangea.Libk.Bytes.{Memory}
use hydrangea.Drivers.Ports.{wrote, asked, Log, Device}
use hydrangea.Drivers.Ata.{
  reg_status, reg_altstatus, select_drive, ata_check_for_errors, read_words, ata_pio_read,
}
use hydrangea.Drivers.Ata.Protocol.{IsIdle, Serves}
use hydrangea.Drivers.Ata.Words.{HoldsWords, read_words_lem, first_poll}
use hydrangea.Drivers.Ata.Told.{
  prepare_lem, given, given-drive, given-addressed, given-size, given-IsIdle,
}

check_lem :
    (answer : Device) (log : Log) (base : ℕ)
    → bit_and (answer log (base + reg_status)) 0x01 ≡ 0
    → (err : ℕ) × (ata_check_for_errors answer log base ≡ (err, asked (base + reg_status) ∷ log))
      × (err ≢ 4)
unfolding ata_check_for_errors
check_lem answer log base fine =
    let status = answer log (base + reg_status) in
    rw (eq→== (bit_and status 0x01) 0 fine) (elim (ℕ_discrete (bit_and status 0x08) 0) [
      | yes e ↦ (0xFF, rw (eq→== (bit_and status 0x08) 0 e) refl, λ i. omega (arith, i))
      | no ne ↦ (0, rw (ne→not_== (bit_and status 0x08) 0 ne) refl, λ i. omega (arith, i))
    ])

pio_read-run :
    (answer : Device) (log : Log) (m m' : Memory) (log' : Log) (base ms block size buf fuel : ℕ)
    → IsIdle (answer (select_drive log base ms block) (base + reg_status))
    → bit_and
        (answer (wrote (base + 7) 0x20 ∷ given log base ms block size) (base + reg_status))
        0x01
      ≡ 0
    → read_words answer
        (asked (base + reg_status) ∷ wrote (base + 7) 0x20 ∷ given log base ms block size)
        m
        base
        buf
        0
        (256 * size)
        (suc fuel)
      ≡ some (m', log')
    → ata_pio_read answer log m base ms block size buf (suc fuel)
      ≡ some (size, m', asked (base + reg_status) ∷ asked (base + reg_altstatus) ∷ log')
unfolding ata_pio_read
pio_read-run answer log m m' log' base ms block size buf fuel idle fine run =
    let (err, checked, other) =
      check_lem answer (wrote (base + 7) 0x20 ∷ given log base ms block size) base fine in
    rw (prepare_lem answer log base ms block size fuel idle, ata_pio_read)
      (rw (checked, ata_pio_read) (rw (ne→not_== err 4 other) (rw run refl)))

-- The bytes of a word are those of the disk.
word_low : (a b : ℕ) → a < 256 → (a + 256 * b) % 2 ^ 8 ≡ a
word_low a b h = omega (arith, h)

word_high : (a b : ℕ) → a < 256 → b < 256 → (a + 256 * b) / 2 ^ 8 % 2 ^ 8 ≡ b
word_high a b h k = omega (arith, h, k)

disk_bytes :
    (m disk : Memory) (at buf size : ℕ)
    → ((q : ℕ) → disk q < 256)
    → HoldsWords m (λ k. disk (at + 2 * k) + 256 * disk (at + 2 * k + 1)) buf 0 (0 + 256 * size)
    → (i : ℕ) → i < 512 * size
    → m (buf + i) ≡ disk (at + i)
disk_bytes m disk at buf size bytes held i l =
    let k = i / 2 in
    let (low, high) = held k (omega arith) (omega (arith, l)) in
    let first = bytes (at + 2 * k) in
    let second = bytes (at + 2 * k + 1) in
    elim (ℕ_discrete (i % 2) 0) [
      | yes even ↦
          ap m {x = buf + i} {y = buf + k * 2} (omega (arith, even))
          ∙ low
          ∙ word_low (disk (at + 2 * k)) (disk (at + 2 * k + 1)) first
          ∙ ap disk (omega (arith, even))
      | no odd ↦
          ap m {x = buf + i} {y = buf + k * 2 + 1} (omega (arith, odd))
          ∙ high
          ∙ word_high (disk (at + 2 * k)) (disk (at + 2 * k + 1)) first second
          ∙ ap disk (omega (arith, odd))
    ]

-- ATA_PIO_read of up to 255 sectors, whose numbers start below 2^28, from a drive that is idle when it has been
-- selected and keeps to the protocol, busy for a while before any word or not, returns their number and leaves the bytes of
-- these sectors of the disk in the buffer, and all other memory as it was. One poll more than the drive is
-- busy in a row is enough fuel.
pub ata_pio_read-Serves :
    (answer : Device) (disk : Memory) (Stage : (block size k d : ℕ) → Log → Type 0)
    → (log : Log) (m : Memory) (base ms block size buf limit fuel : ℕ) → ((q : ℕ) → disk q < 256)
    → Serves answer base ms limit disk Stage
    → IsIdle (answer (select_drive log base ms block) (base + reg_status))
    → block < 2 ^ 28
    → 0 < size
    → size < 256
    → limit < fuel
    → (m' : Memory) × (log' : Log) × (ata_pio_read answer log m base ms block size buf fuel
        ≡ some (size, m', log'))
      × ((i : ℕ) → i < 512 * size → m' (buf + i) ≡ disk (512 * block + i))
      × ((a : ℕ) → (a < buf) ⊎ (buf + 512 * size ≤ a) → m' a ≡ m a)
ata_pio_read-Serves answer disk Stage log m base ms block size buf limit zero bytes device idle b s
      s' f =
    absurd (omega (arith, f))
ata_pio_read-Serves answer disk Stage log m base ms block size buf limit (suc fuel) bytes device
      idle b s s' f =
    let start = given log base ms block size in
    let command = wrote (base + 7) 0x20 ∷ start in
    let (at, fine) =
      device.started start block size
        (given-IsIdle answer base ms limit disk Stage device log block size idle)
        (given-drive log base ms block size b) (given-addressed log base ms block size b)
        (given-size log base ms block size s') s in
    let (d, at', low) =
      first_poll answer base ms limit disk Stage device block size command at (omega (arith, s)) in
    let (r, run, held, outside) =
      read_words_lem answer base ms limit disk Stage device block size
        (asked (base + reg_status) ∷ command) m buf 0 (256 * size) d (suc fuel) at'
        (omega (arith, low, f)) f (omega arith) in
    (
      r.0,
      asked (base + reg_status) ∷ asked (base + reg_altstatus) ∷ r.1,
      pio_read-run answer log m (r.0) (r.1) base ms block size buf fuel idle fine run,
      disk_bytes (r.0) disk (512 * block) buf size bytes held,
      λ a o. outside a (elim o [ inl l ↦ inl (omega (arith, l)) | inr l ↦ inr (omega (arith, l)) ]),
    )
