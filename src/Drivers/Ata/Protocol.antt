-- ===== src/Drivers/Ata/Protocol.antt =====
-- A device that keeps to the protocol for reads of kernel/drivers/ata.c.
use Prim.Native.Nat.{bit_and}
use hydrangea.Prelude.{ℕ, suc, ◌+◌, ◌*◌, ◌/◌, ◌%◌, ◌^◌, ◌<◌, ◌≡◌, ◌≢◌, [], ◌∷◌, ◌==◌, if◌then◌else◌}
use hydrangea.Libk.Bytes.{Memory}
use hydrangea.Drivers.Ports.{wrote, asked, Log, Device}
use hydrangea.Drivers.Ata.{reg_status, reg_altstatus}

-- What has been written to a port last, or 0.
abbrev pub written : Log → (port : ℕ) → ℕ
written [] port = 0
written (wrote p v ∷ log) port = if port == p then v else written log port
written (asked p ∷ log) port = written log port

-- The sector of 28 bits that the registers of the channel name, with its highest bits in the drive register.
abbrev pub addressed : Log → (base : ℕ) → ℕ
addressed log base =
    written log (base + 3)
    + 2 ^ 8 * written log (base + 4)
    + 2 ^ 16 * written log (base + 5)
    + 2 ^ 24 * (written log (base + 6) % 2 ^ 4)

-- Whether a status says that the drive is idle, and whether it says that a word can be taken.
abbrev pub IsIdle : ℕ → Type 0
IsIdle status = (bit_and status 0x80 ≡ 0) × (bit_and status 0x08 ≡ 0)

abbrev pub IsReady : ℕ → Type 0
IsReady status = (bit_and status 0x80 ≡ 0) × (bit_and status 0x08 ≢ 0)

-- A device at `base` that keeps to the protocol for reads. An idle one stays idle until it gets a command
-- or another drive is selected. The command to read, to the drive that `ms` stands for, starts without an
-- error a transfer of the words of the sectors that the registers name. `Stage block size k d` holds of
-- the logs of a transfer of `size` sectors from `block` on, after which `k` words have been taken and the
-- drive is busy for at most `d` more polls, until it asks for the next word to be taken; after the command
-- and each word it is for at most `limit` polls. Nothing is said of it behind the last word.
pub record Serves (answer : Device) (base ms limit : ℕ) (disk : Memory)
    (Stage : (block size k d : ℕ) → Log → Type 0) : Type 0 where
  pub idle_written :
      (log : Log) (port value : ℕ)
      → port ≢ base + 6
      → port ≢ base + 7
      → IsIdle (answer log (base + reg_status))
      → IsIdle (answer (wrote port value ∷ log) (base + reg_status))
  pub idle_polled :
      (log : Log)
      → IsIdle (answer log (base + reg_status))
      → IsIdle (answer (asked (base + reg_status) ∷ log) (base + reg_status))
  pub started :
      (log : Log) (block size : ℕ)
      → IsIdle (answer log (base + reg_status))
      → written log (base + 6) / 2 ^ 4 ≡ (if ms == 0 then 0xF else 0xE)
      → addressed log base ≡ block
      → written log (base + 2) ≡ size
      → 0 < size
      → Stage block size 0 limit (wrote (base + 7) 0x20 ∷ log)
        × (bit_and (answer (wrote (base + 7) 0x20 ∷ log) (base + reg_status)) 0x01 ≡ 0)
  pub busy :
      (block size k d : ℕ) (log : Log)
      → k < 256 * size
      → Stage block size k d log
      → (IsReady (answer log (base + reg_status)) → ⊥)
      → (d' : ℕ) × (d ≡ suc d') × Stage block size k d' (asked (base + reg_status) ∷ log)
  pub polled :
      (block size k d : ℕ) (log : Log)
      → Stage block size k d log
      → IsReady (answer log (base + reg_status))
      → Stage block size k d (asked (base + reg_status) ∷ log)
  pub waited :
      (block size k d : ℕ) (log : Log)
      → Stage block size k d log
      → Stage block size k d (asked (base + reg_altstatus) ∷ log)
  pub taken :
      (block size k d : ℕ) (log : Log)
      → k < 256 * size
      → Stage block size k d log
      → IsReady (answer log (base + reg_status))
      → let ready = asked (base + reg_status) ∷ log in
        (answer ready base ≡ disk (512 * block + 2 * k) + 256 * disk (512 * block + 2 * k + 1))
        × Stage block size (suc k) limit (asked base ∷ ready)
