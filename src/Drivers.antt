-- ===== src/Drivers.antt =====
-- kernel/drivers: ports, the disk (ata.c), the PS/2 controller (ps2.c), PCI (pci.c), the serial ports
-- (serial.c) and the timer (pit.c).
pub mod Ports
pub mod Disk
pub mod Ata
pub mod Ps2
pub mod Pci
pub mod Serial
pub mod Pit
