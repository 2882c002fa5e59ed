-- ===== src/Drivers/Ps2.antt =====
-- kernel/drivers/ps2.c, and the set-up of the keyboard and the mouse (kbd.c, mouse.c), as far as they talk
-- to the controller: registering the handlers and the interrupt masks are in `Cpu.Pic`. Messages are
-- left out.
pub mod Stuck
use Prim.Native.Nat.{bit_and, bit_or}
use hydrangea.Prelude.{
  ℕ, zero, suc, ◌+◌, ◌-◌, ◌*◌, ◌/◌, ◌%◌, ◌^◌, ◌==◌, ◌&&◌, ◌||◌, not, if◌then◌else◌, Bool, false,
}
use hydrangea.Drivers.Ports.{Log, Device, Io, pure, ◌>>=◌, ◌>>◌, io_outb, io_inb}

abbrev pub ps2_data : ℕ
ps2_data = 0x60

abbrev pub ps2_status : ℕ
ps2_status = 0x64

abbrev pub ps2_ack : ℕ
ps2_ack = 0xFA

-- `ps2_device_id`; `(w & 0xFF) >> 8` is written out.
unfoldable pub ps2_device_id : (w : ℕ) → ℕ
ps2_device_id w =
    let high = bit_and w 0xFF / 2 ^ 8 in
    if w == 0xFFFF
    then 1
    else if w == 0x00FF
    then 2
    else if w == 0x03FF
    then 3
    else if w == 0x41AB || w == 0xC1AB
    then 4
    else if w == 0x83AB
    then 5
    else if w == 0
    then 7
    else if high == 0x0 || high == 0x3 || high == 0x4
    then 6
    else 0

-- Whether an answer of two bytes to a reset is a success.
unfoldable pub ack_success : (a0 a1 : ℕ) → Bool
ack_success a0 a1 =
    (a0 == ps2_ack && a1 == 0xAA)
    || (a1 == ps2_ack && a0 == 0xAA)
    || (a0 == 0xAA && (a1 == ps2_ack || a1 == 0))
    || ((a0 == ps2_ack || a0 == 0) && a1 == 0xAA)

module _ (answer : Device) where
  -- `while ((io_inb(PS2_STATUS) & mask) && t-- > 0)`: the value of `t` behind the loop
  unfoldable pub poll : (mask t : ℕ) → Io ℕ
  poll mask zero = do
    status ← io_inb answer ps2_status
    pure (if bit_and status mask == 0 then 0 else 2 ^ 32 - 1)
  poll mask (suc t) = do
    status ← io_inb answer ps2_status
    let rest = poll mask t
    if bit_and status mask == 0 then pure (suc t) else rest

  unfoldable pub ps2_outb : (port value : ℕ) → Io ℕ
  ps2_outb port value = do
    t ← poll 0x02 512
    if t == 0 then pure 0xFF else do io_outb port value; pure 0

  unfoldable pub ps2_inb : (port : ℕ) → Io ℕ
  ps2_inb port = do t ← poll 0x01 512; if t == 0 then pure 0xFF else io_inb answer port

  unfoldable pub ps2_ctrlr_cmd : (cmd : ℕ) → Io ℕ
  ps2_ctrlr_cmd cmd = ps2_outb 0x64 cmd

  -- `if (dev == 2) ps2_ctrlr_cmd(PS2_CMD_PORT2_IN)`
  unfoldable pub to_second : (dev : ℕ) → Io ℕ
  to_second dev = if dev == 2 then ps2_ctrlr_cmd 0xD4 else pure 0

  -- The loop of `ps2_dev_cmd`
  unfoldable pub try_cmd : (dev cmd t : ℕ) → Io ℕ
  try_cmd dev cmd zero = do
    to_second dev
    ps2_outb ps2_data cmd
    result ← ps2_inb ps2_data
    pure (if result == ps2_ack then 0 else 1)
  try_cmd dev cmd (suc t) = do
    to_second dev
    ps2_outb ps2_data cmd
    result ← ps2_inb ps2_data
    let rest = try_cmd dev cmd t
    if result == ps2_ack then pure 1 else rest

  unfoldable pub ps2_dev_cmd : (dev cmd : ℕ) → Io ℕ
  ps2_dev_cmd dev cmd = try_cmd dev cmd 20

  unfoldable pub ps2_dev_cmd_expect_nothing : (dev cmd : ℕ) → Io ℕ
  ps2_dev_cmd_expect_nothing dev cmd = do to_second dev; ps2_outb ps2_data cmd

  unfoldable pub ps2_expect : (d : ℕ) → Io ℕ
  ps2_expect d = ps2_inb ps2_data

  -- `ps2_ctrlr_cmd(PS2_CMD_READ_CFG)` and the byte it answers, and the way back
  unfoldable pub read_cfg : Io ℕ
  read_cfg = do ps2_ctrlr_cmd 0x20; ps2_inb ps2_data

  unfoldable pub write_cfg : (cfg : ℕ) → Io ℕ
  write_cfg cfg = do ps2_ctrlr_cmd 0x60; ps2_outb ps2_data cfg

  unfoldable pub kbd_init : (ch : ℕ) → Io ℕ
  kbd_init ch = do
    cfg ← read_cfg
    let cfg = bit_or (bit_or cfg (if ch == 2 then 0x02 else 0x01)) 0x40
    write_cfg (bit_and cfg (255 - (if ch == 2 then 0x20 else 0x10)))
    ps2_dev_cmd ch 0xF4
    ps2_expect ps2_ack

  unfoldable pub mouse_init : (ch : ℕ) → Io ℕ
  mouse_init ch = do
    cfg ← read_cfg
    let cfg = bit_or cfg (if ch == 2 then 0x02 else 0x01)
    write_cfg (bit_and cfg (255 - (if ch == 2 then 0x20 else 0x10)))
    ps2_dev_cmd ch 0xF4
    ps2_dev_cmd ch 0xF3
    to_second ch
    ps2_outb ps2_data 80
    ps2_dev_cmd ch 0xE8
    to_second ch
    ps2_outb ps2_data 0

  -- `ps2_device_drivers`, by the device's number
  unfoldable pub ps2_device_driver : (id ch : ℕ) → Io ℕ
  ps2_device_driver id ch =
      if id == 0
      then pure 0
      else if id == 1 || id == 4 || id == 5 || id == 7
      then kbd_init ch
      else mouse_init ch

  -- The body of the loop of `ps2_initialize_present_devices`, for the channel `ch`
  unfoldable pub initialize_device : (ch : ℕ) → Io ℕ
  initialize_device ch = do
    ps2_ctrlr_cmd (if ch == 1 then 0xAE else 0xA8)
    ps2_dev_cmd ch 0xF5
    ps2_dev_cmd ch 0xF2
    b1 ← ps2_inb ps2_data
    b2 ← ps2_inb ps2_data
    ps2_device_driver (ps2_device_id (b1 + b2 * 2 ^ 8)) ch

  unfoldable pub ps2_initialize_present_devices : (first second : Bool) → Io ℕ
  ps2_initialize_present_devices first second = do
    if first then initialize_device 1 else pure 0
    if second then initialize_device 2 else pure 0
    pure 0

  -- The reset of the device of the second channel: whether it answers.
  unfoldable pub reset_second : Io Bool
  reset_second = do
    ps2_ctrlr_cmd 0xA8
    ps2_dev_cmd_expect_nothing 2 0xFF
    a0 ← ps2_inb ps2_data
    a1 ← ps2_inb ps2_data
    ps2_ctrlr_cmd 0xA7
    pure (ack_success a0 a1)

  unfoldable pub reset_first : Io ℕ
  reset_first = do ps2_ctrlr_cmd 0xAE; ps2_dev_cmd_expect_nothing 1 0xFF; ps2_expect ps2_ack

  -- Whether there is a second channel, where the first look said no.
  unfoldable pub look_again : Io Bool
  look_again = do
    ps2_ctrlr_cmd 0xA8
    cfg ← read_cfg
    ps2_ctrlr_cmd 0xA7
    pure (bit_and cfg 0x20 == 0)

  -- Whether the test of a port succeeds.
  unfoldable pub test_port : (cmd : ℕ) → Io Bool
  test_port cmd = do ps2_ctrlr_cmd cmd; r ← ps2_inb ps2_data; pure (r == 0)

  -- What follows the test of the controller
  unfoldable pub init_channels : (cfg : ℕ) (dual : Bool) → Io ℕ
  init_channels cfg dual = do
    write_cfg cfg
    dual ← if dual then pure dual else look_again
    first ← test_port 0xAB
    second ← if dual then test_port 0xA9 else pure false
    if first then reset_first else pure 0
    second ← if second then reset_second else pure false
    ps2_initialize_present_devices first second

  -- `ps2_init`, with the interrupts off
  unfoldable pub ps2_init : Io ℕ
  ps2_init = do
    ps2_ctrlr_cmd 0xAD
    ps2_ctrlr_cmd 0xA7
    ps2_inb ps2_data
    cfg ← read_cfg
    let dual = bit_and cfg 0x20 == 0
    let cfg = bit_and cfg (255 - 0x43)
    write_cfg cfg
    ps2_ctrlr_cmd 0xAA
    result ← ps2_inb ps2_data
    if result == 0xFC then pure 1 else init_channels cfg dual
