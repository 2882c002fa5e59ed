-- ===== src/Term/Vesa.antt =====
-- kernel/vesa/vesa.c. The frame buffer and the buffer behind it are words at their byte offsets, so that a
-- pixel is a word where it has 32 bits and a row has no rest.
pub mod Pixels
use hydrangea.Prelude.{ℕ, zero, suc, ◌+◌, ◌*◌, ◌/◌, ◌%◌, ◌^◌, ◌==◌, if◌then◌else◌, update}

pub record Vesa : Type 0 where
  pub fb : ℕ → ℕ
  pub back_buffer : ℕ → ℕ
  pub width : ℕ
  pub height : ℕ
  pub pitch : ℕ
  pub bpp : ℕ

-- The loop of `vesa_swap_buffers` from `i` on, with `n` words to go.
unfoldable pub swap_words : (a b : ℕ → ℕ) → (i n : ℕ) → ℕ → ℕ
swap_words a b i zero = a
swap_words a b i (suc n) =
    swap_words (if a (4 * i) == b (4 * i) then a else update a (4 * i) (b (4 * i))) b (i + 1) n

unfoldable pub vesa_swap_buffers : Vesa → Vesa
vesa_swap_buffers v = record v {
  fb = swap_words v.fb v.back_buffer 0 (v.height * v.width % 2 ^ 32);
}

-- The loop of `vesa_clear` and `vesa_back_buffer_clear`
unfoldable pub clear_words : (a : ℕ → ℕ) → (i n : ℕ) → ℕ → ℕ
clear_words a i zero = a
clear_words a i (suc n) = clear_words (update a (4 * i) 0) (i + 1) n

unfoldable pub vesa_clear : Vesa → Vesa
vesa_clear v = record v { fb = clear_words v.fb 0 (v.height * v.width % 2 ^ 32) }

unfoldable pub vesa_back_buffer_clear : Vesa → Vesa
vesa_back_buffer_clear v = record v {
  back_buffer = clear_words v.back_buffer 0 (v.height * v.width % 2 ^ 32);
}

-- Where a pixel is in a buffer: products are words of 32 bits.
unfoldable pub pixel_at : Vesa → (x y : ℕ) → ℕ
pixel_at v x y = y * v.pitch % 2 ^ 32 + x * v.bpp % 2 ^ 32 / 8

unfoldable pub vesa_put_pixel : Vesa → (x y color : ℕ) → Vesa
vesa_put_pixel v x y color = record v { fb = update v.fb (pixel_at v x y) color }

unfoldable pub vesa_back_buffer_put_pixel : Vesa → (x y color : ℕ) → Vesa
vesa_back_buffer_put_pixel v x y color = record v {
  back_buffer = update v.back_buffer (pixel_at v x y) color;
}
