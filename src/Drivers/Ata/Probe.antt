-- ===== src/Drivers/Ata/Probe.antt =====
-- ATA_init of kernel/drivers/ata.c: the registers of the two channels, and which drives there are.
-- pit_sleep takes time only.
pub mod Sectors
use Prim.Native.Nat.{bit_and}
use hydrangea.Prelude.{
  ℕ, zero, suc, ◌+◌, ◌*◌, ◌/◌, ◌%◌, ◌^◌, ◌==◌, ◌&&◌, not, if◌then◌else◌, Option, none, some, List,
  [], ◌∷◌, update, ◌>>=◌,
}
use hydrangea.Libk.Bytes.{Memory}
use hydrangea.Drivers.Ports.{IoEvent, wrote, asked, Log, Device}
use hydrangea.Drivers.Ata.{reg_status, ata_400_nano_sec}

-- `ch_regs[ps]`
pub record Channel : Type 0 where
  pub base : ℕ
  pub ctrl : ℕ
  pub bus_master_ide : ℕ

-- A port from a base address register, or the usual one if that is 0; the fields are of 16 bits.
unfoldable pub port_of : (bar usual : ℕ) → ℕ
port_of bar usual = (bit_and bar 0xFFFF_FFFC + (if bar == 0 then usual else 0)) % 2 ^ 16

-- The two channels of the controller with the base address registers `bar`
unfoldable pub channels : (bar : ℕ → ℕ) → Channel × Channel
unfolding port_of
channels bar = (
  record {
    base = port_of (bar 0) 0x1F0;
    ctrl = port_of (bar 1) 0x3F6;
    bus_master_ide = bit_and (bar 4) 0xFFFF_FFFC % 2 ^ 16;
  },
  record {
    base = port_of (bar 2) 0x170;
    ctrl = port_of (bar 3) 0x376;
    bus_master_ide = (bit_and (bar 4) 0xFFFF_FFFC + 8) % 2 ^ 16;
  },
)

-- `ATA_drive_t`
pub record AtaDrive : Type 0 where
  pub present : ℕ
  pub ps : ℕ
  pub ms : ℕ
  pub sig : ℕ
  pub cap : ℕ
  pub command_sets : ℕ
  pub sectors : ℕ
  pub name : ℕ → ℕ

-- A drive that is not there; `old` is what the fields held before.
unfoldable pub absent : AtaDrive → (ps ms : ℕ) → AtaDrive
absent old ps ms = record old { present = 0; ps = ps; ms = ms }

-- The `uint16_t` and the `uint32_t` at `p` of a buffer
abbrev pub read_16 : Memory → (p : ℕ) → ℕ
read_16 m p = m p + 2 ^ 8 * m (p + 1)

abbrev pub read_32 : Memory → (p : ℕ) → ℕ
read_32 m p = read_16 m p + 2 ^ 16 * read_16 m (p + 2)

-- The loop that copies the model, two bytes at a time with their order changed, from the index `i` on
unfoldable pub copy_name : (name buf : Memory) (i n : ℕ) → Memory
copy_name name buf i zero = name
copy_name name buf i (suc n) =
    copy_name (update (update name i (buf (54 + i + 1))) (i + 1) (buf (54 + i))) buf (i + 2) n

-- A drive from the 512 bytes with which it identifies itself
unfoldable pub identified : AtaDrive → Memory → AtaDrive
identified drive buf =
    let command_sets = read_16 buf 164 in
    record drive {
      present = 1;
      sig = read_16 buf 0;
      cap = read_16 buf 98;
      command_sets = command_sets;
      sectors = if bit_and command_sets (2 ^ 26) == 0 then read_32 buf 120 else read_32 buf 200;
      name = update (copy_name drive.name buf 0 20) 40 0;
    }

-- How the wait for a drive to identify itself ends.
pub data Answer : Type 0 where
  has_error : Answer
  is_ready : Answer
  timed_out : Answer

module _ (answer : Device) where
  -- `while (status & ATA_STATUS_BUSY)`
  unfoldable pub wait_free : Log → (base fuel : ℕ) → Option Log
  wait_free log base zero = none
  wait_free log base (suc n) =
      let log' = asked (base + reg_status) ∷ log in
      let rest = wait_free log' base n in
      if bit_and (answer log (base + reg_status)) 0x80 == 0 then some log' else rest

  -- The loop with `timeout`; a soft reset when 10 rounds are left.
  unfoldable pub wait_answer : Log → (base ctrl timeout : ℕ) → Answer × Log
  wait_answer log base ctrl zero = (timed_out, log)
  wait_answer log base ctrl (suc timeout) =
      let status = answer log (base + reg_status) in
      let log = asked (base + reg_status) ∷ log in
      let reset = wrote ctrl 0 ∷ ata_400_nano_sec (wrote ctrl 0x04 ∷ log) base in
      let rest = wait_answer (if timeout == 10 then reset else log) base ctrl timeout in
      if not (bit_and status 0x01 == 0)
      then (has_error, log)
      else if bit_and status 0x80 == 0 && not (bit_and status 0x08 == 0)
      then (is_ready, log)
      else rest

  -- The bytes of `n` words from the data port, from the index `i` of the buffer on
  unfoldable pub read_identity : Log → Memory → (base i n : ℕ) → Memory × Log
  read_identity log buf base i zero = (buf, log)
  read_identity log buf base i (suc n) =
      let w = answer log base in
      read_identity (asked base ∷ log)
        (update (update buf i (bit_and w 0xFF)) (i + 1) (bit_and (w / 2 ^ 8) 0xFF)) base (i + 2) n

  -- The body of the loops over the drives, for the drive `ms` of the channel `ps` at `base`
  unfoldable pub probe : Log → AtaDrive → (base ctrl ps ms fuel : ℕ) → Option (AtaDrive × Log)
  probe log old base ctrl ps ms fuel = do
    let none_here = absent old ps ms
    log ← wait_free (wrote ctrl 0 ∷ ata_400_nano_sec (wrote ctrl 0x04 ∷ log) base) base fuel
    let log = ata_400_nano_sec (wrote (base + 0x06) (if ms == 0 then 0xB0 else 0xA0) ∷ log) base
    let log =
        wrote (base + 0x05) 0
        ∷ wrote (base + 0x04) 0
        ∷ wrote (base + 0x03) 0
        ∷ wrote (base + 0x02) 0
        ∷ log
    log ← wait_free log base fuel
    let log = ata_400_nano_sec (wrote (base + 0x07) 0xEC ∷ log) base
    let status = answer log (base + reg_status)
    let log = asked (base + reg_status) ∷ log
    let (end, log') = wait_answer log base ctrl 20
    let packet =
        ata_400_nano_sec
          (wrote (base + 0x07) 0xA1 ∷ asked (base + 0x05) ∷ asked (base + 0x04) ∷ log') base
    let (buf, log'') = read_identity log' (λ i. 0) base 0 256
    some (
        if status == 0 then (none_here, log) else elim end [
          | has_error ↦ (none_here, packet)
          | timed_out ↦ (none_here, log')
          | is_ready ↦ (identified none_here buf, log'')
        ])
