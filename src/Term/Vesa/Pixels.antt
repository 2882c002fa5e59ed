-- ===== src/Term/Vesa/Pixels.antt =====
-- What is on the screen after `vesa_swap_buffers`.
use hydrangea.Prelude.{◌*◌, ◌^◌, ◌≡◌, ◌<◌, ◌≤◌}
use hydrangea.Term.Vesa.{Vesa}

-- The screen of `vesa_init` in the mode with 32 bits for a pixel and rows without a rest, with the offsets in
-- 32 bits, and as high as its back buffer, of `pitch * bpp` bytes, is.
pub record IsScreen (v : Vesa) : Type 0 where
  pub word : v.bpp ≡ 32
  pub rows : v.pitch ≡ 4 * v.width
  pub bytes : v.height * v.pitch < 2 ^ 32
  pub bits : v.width * 32 < 2 ^ 32
  pub buffer : v.height * v.pitch ≤ v.pitch * v.bpp
