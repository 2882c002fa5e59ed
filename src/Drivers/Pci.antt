-- ===== src/Drivers/Pci.antt =====
-- kernel/drivers/pci.c: reading the configuration space, and the detection of devices.
pub mod Address
use Prim.Native.Nat.{bit_and, bit_or}
use hydrangea.Prelude.{
  ℕ, zero, suc, ◌+◌, ◌-◌, ◌*◌, ◌/◌, ◌%◌, ◌^◌, ltb, ◌==◌, ◌&&◌, not, if◌then◌else◌, Option, none,
  some, List, [], ◌∷◌, Bool,
}
use hydrangea.Drivers.Ports.{Log, Device, Io, pure, ◌>>=◌, ◌>>◌, io_outb, io_inb}

-- The `int8_t` for the bus, extended to 32 bits
unfoldable pub bus_32 : (bus : ℕ) → ℕ
bus_32 bus = let b = bus % 2 ^ 8 in if ltb b 128 then b else b + (2 ^ 32 - 2 ^ 8)

-- The address that `PCI_read_word` writes
unfoldable pub config_address : (bus slot function offset : ℕ) → ℕ
config_address bus slot function offset =
    bit_or
      (bit_or
        (bit_or (bit_or (bus_32 bus * 2 ^ 16 % 2 ^ 32) (slot % 2 ^ 8 * 2 ^ 11))
          (function % 2 ^ 8 * 2 ^ 8))
        (bit_and (offset % 2 ^ 8) 0xFC))
      0x8000_0000

-- `PCI_device_t`, with its header as the six base addresses and the interrupt pin and line
pub record PciDevice : Type 0 where
  pub bus : ℕ
  pub slot : ℕ
  pub function : ℕ
  pub vendor_id : ℕ
  pub device_id : ℕ
  pub command : ℕ
  pub class_code : ℕ
  pub subclass : ℕ
  pub prog_if : ℕ
  pub header_type : ℕ
  pub rev_id : ℕ
  pub bar : List ℕ
  pub int_pin : ℕ
  pub int_line : ℕ

module _ (answer : Device) where
  -- `PCI_read_word`; the 32-bit write and read are one event each.
  unfoldable pub pci_read_word : (bus slot function offset : ℕ) → Io ℕ
  pci_read_word bus slot function offset = do
    io_outb 0xCF8 (config_address bus slot function offset)
    w ← io_inb answer 0xCFC
    pure (w / 2 ^ (bit_and offset 2 * 8) % 2 ^ 16)

  -- `PCI_get_base_address`, whose result is a `uint16_t`
  unfoldable pub pci_get_base_address : (bus device function address : ℕ) → Io ℕ
  pci_get_base_address bus device function address = do
    high ← pci_read_word bus device function (0xF + address * 4)
    low ← pci_read_word bus device function (0xF + address * 4 + 2)
    pure (bit_or (high * 2 ^ 16) low % 2 ^ 16)

  -- The loop of `PCI_parse_header0` from the register `i` on, with `n` to go
  unfoldable pub base_addresses : (bus slot function i n : ℕ) → Io (List ℕ)
  base_addresses bus slot function i zero = pure []
  base_addresses bus slot function i (suc n) = do
    b ← pci_get_base_address bus slot function i
    bs ← base_addresses bus slot function (suc i) n
    pure (b ∷ bs)

  -- `PCI_parse_header0` of a device
  unfoldable pub pci_parse_header0 : PciDevice → Io PciDevice
  pci_parse_header0 dev = do
    bs ← base_addresses dev.bus dev.slot dev.function 0 6
    pin ← pci_read_word dev.bus dev.slot dev.function 0x3E
    line ← pci_read_word dev.bus dev.slot dev.function 0x3C
    pure (record dev { bar = bs; int_pin = pin % 2 ^ 8; int_line = line % 2 ^ 8 })

  -- The body of the loops of `PCI_detect`, for a function that has a vendor
  unfoldable pub pci_describe : (bus slot function vendor : ℕ) → Io PciDevice
  pci_describe bus slot function vendor = do
    device_id ← pci_read_word bus slot function 0x2
    command ← pci_read_word bus slot function 0x4
    class ← pci_read_word bus slot function 0xA
    sub ← pci_read_word bus slot function 0xA
    prog ← pci_read_word bus slot function 0x8
    type ← pci_read_word bus slot function 0xE
    let dev : PciDevice = record {
      bus = bus;
      slot = slot;
      function = function;
      vendor_id = vendor;
      device_id = device_id;
      command = command;
      class_code = class / 2 ^ 8;
      subclass = sub % 2 ^ 8;
      prog_if = prog / 2 ^ 8;
      header_type = type % 2 ^ 8;
      rev_id = 0;
      bar = [];
      int_pin = 0;
      int_line = 0;
    }
    dev ← if dev.header_type == 0 then pci_parse_header0 dev else pure dev
    rev ← pci_read_word bus slot function 0x8
    pure (record dev { rev_id = rev % 2 ^ 8 })

  -- The loops of `PCI_detect`: the devices from the function `i`, counted over all buses and slots, on,
  -- with `n` to go.
  unfoldable pub detect_from : (i n : ℕ) → Io (List PciDevice)
  detect_from i zero = pure []
  detect_from i (suc n) = do
    let bus = i / 256
    let slot = i / 8 % 32
    let function = i % 8
    vendor ← pci_read_word bus slot function 0x0
    let rest = detect_from (suc i) n
    let found = do dev ← pci_describe bus slot function vendor; devs ← rest; pure (dev ∷ devs)
    if vendor == 0xFFFF then rest else found

  unfoldable pub pci_detect : Io (List PciDevice)
  pci_detect = detect_from 0 (256 * 32 * 8)

-- `PCI_is_known`
unfoldable pub pci_is_known : PciDevice → Bool
pci_is_known dev = dev.class_code == 1 && dev.subclass == 1
