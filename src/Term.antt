-- ===== src/Term.antt =====
-- The terminals of kernel/term: the text mode of kernel/vga is `Vga`, the frame buffer of kernel/vesa `Vesa`.
pub mod Vesa
pub mod Vga
