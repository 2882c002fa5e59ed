-- ===== src/Drivers/Serial.antt =====
-- kernel/drivers/serial.c: the serial ports. Registering them as devices is in `Fs.Files`.
use Prim.Native.Nat.{bit_and}
use hydrangea.Prelude.{
  ℕ, zero, suc, ◌+◌, ◌%◌, ◌^◌, ◌==◌, if◌then◌else◌, Option, none, some, ◌∷◌, update,
}
use hydrangea.Libk.Bytes.{Memory}
use hydrangea.Drivers.Ports.{wrote, asked, Log, Device, Io, io_outb, ◌>>◌}

-- `serial_device_ports[p]`; `behind` is what memory holds behind the four entries.
unfoldable pub serial_device_port : (behind : ℕ → ℕ) (p : ℕ) → ℕ
serial_device_port behind p =
    if p == 0
    then 0x3F8
    else if p == 1
    then 0x2F8
    else if p == 2
    then 0x3E8
    else if p == 3
    then 0x2E8
    else behind p

-- The outputs of `serial_init`
unfoldable pub serial_init : (behind : ℕ → ℕ) (p : ℕ) → Io (Unit {0})
serial_init behind p = do
  let port = serial_device_port behind p
  io_outb (port + 1) 0x00
  io_outb (port + 3) 0x80
  io_outb port 0x03
  io_outb (port + 1) 0x00
  io_outb (port + 3) 0x03
  io_outb (port + 2) 0xC7
  io_outb (port + 4) 0x0B

module _ (behind : ℕ → ℕ) (answer : Device) where
  -- `serial_available` and `serial_tx_empty`
  unfoldable pub serial_available : Log → (p : ℕ) → ℕ × Log
  serial_available log p =
      let port = serial_device_port behind p + 5 in
      (bit_and 0x01 (answer log port), asked port ∷ log)

  unfoldable pub serial_tx_empty : Log → (p : ℕ) → ℕ × Log
  serial_tx_empty log p =
      let port = serial_device_port behind p + 5 in
      (bit_and 0x20 (answer log port), asked port ∷ log)

  -- `serial_read_byte`, with `fuel` polls at most
  unfoldable pub serial_read_byte : Log → (p fuel : ℕ) → Option (ℕ × Log)
  serial_read_byte log p zero = none
  serial_read_byte log p (suc n) =
      let port = serial_device_port behind p in
      let (available, log) = serial_available log port in
      let rest = serial_read_byte log p n in
      if available == 0 then rest else some (answer log port, asked port ∷ log)

  unfoldable pub serial_write_byte : Log → (p value fuel : ℕ) → Option Log
  serial_write_byte log p value zero = none
  serial_write_byte log p value (suc n) =
      let port = serial_device_port behind p in
      let (empty, log) = serial_tx_empty log port in
      let rest = serial_write_byte log p value n in
      if empty == 0 then rest else some (wrote port value ∷ log)

  -- The loop of `serial_read` at the index `i`
  unfoldable pub serial_read_from : Log → Memory → (p at i n fuel : ℕ) → Option (Memory × Log)
  serial_read_from log m p at i zero fuel = some (m, log)
  serial_read_from log m p at i (suc n) fuel = elim (serial_read_byte log p fuel) [
    | none ↦ none
    | some (c, log') ↦ serial_read_from log' (update m (at + i) c) p at (suc i) n fuel
  ]

  -- `serial_read`, which returns 0
  unfoldable pub serial_read :
      Log → Memory → (inode offset size buffer fuel : ℕ) → Option (Memory × Log)
  serial_read log m inode offset size buffer fuel =
      serial_read_from log m (inode % 2 ^ 16) (buffer + offset) 0 size fuel

  unfoldable pub serial_write_from : Log → Memory → (p at i n fuel : ℕ) → Option Log
  serial_write_from log m p at i zero fuel = some log
  serial_write_from log m p at i (suc n) fuel = elim (serial_write_byte log p (m (at + i)) fuel) [
    | none ↦ none
    | some log' ↦ serial_write_from log' m p at (suc i) n fuel
  ]

  unfoldable pub serial_write : Log → Memory → (inode offset size buffer fuel : ℕ) → Option Log
  serial_write log m inode offset size buffer fuel =
      serial_write_from log m (inode % 2 ^ 16) (buffer + offset) 0 size fuel
