-- ===== src/Cpu.antt =====
-- kernel/cpu: descriptor tables (gdt.c, idt.c, tss.c) and the interrupt controllers (pic.c, irq.c); the
-- mouse, the keyboard and the clock (mouse.c, kbd.c and rtc.c of kernel/drivers).
pub mod Tables
pub mod Pic
pub mod Mouse
pub mod Keyboard
pub mod Clock
