-- ===== src/Tests/Drivers.antt =====
-- A drive at 0x1F0 that hands out the words of the sector named in its registers, and is busy for one poll
-- before each; devices that never answer, and others.
use mathlib.Core.Option.{some-injective}
use hydrangea.Prelude.{
  ltb, ◌^◌, ℕ, suc, Option, ◌∙◌, ne→not_==, none, zero, ◌≢◌, ◌||◌, ◌+◌, ◌*◌, ◌≤◌, ◌<◌, ◌≡◌, ◌⊎◌,
  refl, ap, arith, some, [], ◌∷◌, ◌==◌, if◌then◌else◌, Bool, true, false,
}
use hydrangea.Libk.Bytes.{Memory}
use hydrangea.Drivers.Ps2.{poll, ps2_outb}
use hydrangea.Drivers.Ps2.Stuck.{ps2_outb-stuck}
use hydrangea.Drivers.Ata.Probe.{AtaDrive, read_32, identified}
use hydrangea.Drivers.Ata.Probe.Sectors.{exchanged, identified-sectors}
use hydrangea.Drivers.Pci.{config_address}
use hydrangea.Drivers.Pci.Address.{config_address_lem}
use hydrangea.Drivers.Ports.{wrote, asked, Log, Device}
use hydrangea.Drivers.Ata.{ata_pio_read, select_drive}
use hydrangea.Drivers.Ata.Pio.{ata_pio_read-Serves}
use hydrangea.Drivers.Ata.Protocol.{IsIdle, IsReady, Serves, addressed}

abbrev disk : Memory
disk q = if q == 513 then 7 else 1

disk-lt : (q : ℕ) → disk q < 256
disk-lt q = ground arith

-- The words taken since the last command, if there was one
abbrev phase : Log → Option ℕ
phase [] = none
phase (wrote p v ∷ log) = if p == 0x1F7 then some 0 else phase log
phase (asked p ∷ log) =
    if p == 0x1F0 then (elim (phase log) [ none ↦ none | some k ↦ some (suc k) ]) else phase log

-- Whether the status has been asked for since the last word or the command
abbrev settled : Log → Bool
settled [] = true
settled (wrote p v ∷ log) = if p == 0x1F7 then false else settled log
settled (asked p ∷ log) = if p == 0x1F0 then false else p == 0x1F7 || settled log

abbrev serve : (k : ℕ) → Log → ℕ
serve k log = let at = 512 * addressed log 0x1F0 + 2 * k in disk at + 256 * disk (at + 1)

-- Busy for one poll before each word
abbrev answers : Option ℕ → (settled : Bool) → (ℕ → ℕ) → (port : ℕ) → ℕ
answers none b w port = if port == 0x1F7 then 0x50 else 0
answers (some k) b w port =
    if port == 0x1F0 then w k else if port == 0x1F7 then (if b then 0x58 else 0x80) else 0

abbrev drive : Device
drive log port = answers (phase log) (settled log) (λ k. serve k log) port

abbrev Stage : (block size k d : ℕ) → Log → Type 0
Stage block size k d log =
    (phase log ≡ some k) × (addressed log 0x1F0 ≡ block) × (d ≡ 0 → settled log ≡ true)

idle_phase : (o : Option ℕ) (b : Bool) (w : ℕ → ℕ) → IsIdle (answers o b w 0x1F7) → o ≡ none
idle_phase none b w idle = refl
idle_phase (some k) true w (a, c) = absurd (omega (arith, c))
idle_phase (some k) false w (a, c) = absurd (omega (arith, a))

stay-IsIdle : (o : Option ℕ) (b : Bool) (w : ℕ → ℕ) → o ≡ none → IsIdle (answers o b w 0x1F7)
stay-IsIdle none b w e = (refl, refl)
stay-IsIdle (some k) b w e = cc

still_idle :
    (log : Log) (port value : ℕ)
    → port ≢ 0x1F7
    → phase log ≡ none
    → phase (wrote port value ∷ log) ≡ none
still_idle log port value ne e = rw (ne→not_== port 0x1F7 ne) e

settled-IsReady :
    (o : Option ℕ) (b : Bool) (w : ℕ → ℕ) (k : ℕ)
    → o ≡ some k
    → b ≡ true
    → IsReady (answers o b w 0x1F7)
settled-IsReady none b w k e t = cc
settled-IsReady (some k') true w k e t = (refl, λ i. omega (arith, i))
settled-IsReady (some k') false w k e t = cc

word_of : (o : Option ℕ) (b : Bool) (w : ℕ → ℕ) (k : ℕ) → o ≡ some k → answers o b w 0x1F0 ≡ w k
word_of none b w k e = cc
word_of (some k') b w k e = ap w (some-injective _ _ e)

drive-busy :
    (block size k d : ℕ) (log : Log)
    → Stage block size k d log
    → (IsReady (drive log 0x1F7) → ⊥)
    → (d' : ℕ) × (d ≡ suc d') × Stage block size k d' (asked 0x1F7 ∷ log)
drive-busy block size k zero log (at, named, done) not_ready =
    absurd
      (not_ready (settled-IsReady (phase log) (settled log) (λ k. serve k log) k at (done refl)))
drive-busy block size k (suc d) log (at, named, done) not_ready = (d, refl, (at, named, λ e. refl))

drive-taken :
    (block size k d : ℕ) (log : Log)
    → Stage block size k d log
    → (drive (asked 0x1F7 ∷ log) 0x1F0
        ≡ disk (512 * block + 2 * k) + 256 * disk (512 * block + 2 * k + 1))
      × Stage block size (suc k) 1 (asked 0x1F0 ∷ asked 0x1F7 ∷ log)
drive-taken block size k d log (at, named, done) = (
  word_of (phase log) true (λ k. serve k (asked 0x1F7 ∷ log)) k at ∙ rw named refl,
  (rw at refl, named, λ e. absurd (omega (arith, e))),
)

drive-Serves : Serves drive 0x1F0 1 1 disk Stage
drive-Serves = record {
  idle_written = λ log port value same ne idle.
      stay-IsIdle (phase (wrote port value ∷ log)) (settled (wrote port value ∷ log))
        (λ k. serve k (wrote port value ∷ log))
        (still_idle log port value ne
          (idle_phase (phase log) (settled log) (λ k. serve k log) idle));
  idle_polled = λ log idle.
      stay-IsIdle (phase log) true (λ k. serve k (asked 0x1F7 ∷ log))
        (idle_phase (phase log) (settled log) (λ k. serve k log) idle);
  started =
      λ log block size idle selected at count s. ((refl, at, λ e. absurd (omega (arith, e))), refl);
  busy = λ block size k d log l s not_ready. drive-busy block size k d log s not_ready;
  polled = λ block size k d log s ready. (s.0, s.1, λ e. refl);
  waited = λ block size k d log s. s;
  taken = λ block size k d log l s ready. drive-taken block size k d log s;
}

ata_pio_read-Serves_example :
    (m' : Memory) × (log' : Log) × (ata_pio_read drive [] disk 0x1F0 1 1 1 2000 2
      ≡ some (1, m', log'))
    × ((i : ℕ) → i < 512 * 1 → m' (2000 + i) ≡ disk (512 * 1 + i))
    × ((a : ℕ) → (a < 2000) ⊎ (2000 + 512 * 1 ≤ a) → m' a ≡ disk a)
unfolding select_drive
ata_pio_read-Serves_example =
    ata_pio_read-Serves drive disk Stage [] disk 0x1F0 1 1 1 2000 1 2 disk-lt drive-Serves
      (refl, refl) (omega arith) (omega arith) (omega arith) (omega arith)

-- A controller whose buffers are always full
abbrev full : Device
full log port = 0xFF

ps2_outb-stuck_example : ps2_outb full 0x60 7 [] ≡ (0, wrote 0x60 7 ∷ (poll full 0x02 512 []).1)
ps2_outb-stuck_example = ps2_outb-stuck full 0x60 7 [] (λ log e. omega (arith, e))

abbrev unknown : AtaDrive
unknown = record {
  present = 0;
  ps = 0;
  ms = 1;
  sig = 0;
  cap = 0;
  command_sets = 0;
  sectors = 0;
  name = λ i. 0;
}

identified-sectors_example :
    ((identified unknown disk).sectors ≡ read_32 disk 120)
    × ((q : ℕ) → q < 40 → (identified unknown disk).name q ≡ exchanged disk q)
    × ((identified unknown disk).name 40 ≡ 0)
identified-sectors_example = identified-sectors unknown disk disk-lt

-- The 33rd word of the function 1 in the slot 3 of the bus 200
config_address_lem_example :
    config_address 200 3 1 (33 * 4)
    ≡ (if ltb 200 128 then 0x8000_0000 else 0xFF00_0000)
      + (200 * 2 ^ 16 + 3 * 2 ^ 11 + 1 * 2 ^ 8 + 33 * 4)
config_address_lem_example =
    config_address_lem 200 3 1 33 (omega arith) (omega arith) (omega arith) (omega arith)
