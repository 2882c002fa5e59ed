-- ===== src/Cpu/Mouse.antt =====
-- The packets of the mouse in kernel/drivers/mouse.c: three bytes each, one per interrupt. An `int32_t`
-- is its 32-bit word, negative from 2^31 on.
pub mod Bounds
use Prim.Native.Nat.{bit_and}
use hydrangea.Prelude.{ℕ, ◌+◌, ◌-◌, ◌%◌, ◌^◌, ◌&&◌, ltb, leb, ◌==◌, not, ◌||◌, if◌then◌else◌}

-- `mouse_current_byte`, the position, the last movement, and the signs
pub record MouseState : Type 0 where
  pub current_byte : ℕ
  pub x : ℕ
  pub y : ℕ
  pub vx : ℕ
  pub vy : ℕ
  pub xs : ℕ
  pub ys : ℕ

-- `sign ? (int8_t)p : p`
unfoldable pub movement : (sign p : ℕ) → ℕ
movement sign p = if sign == 0 then p else if ltb p 128 then p else p + (2 ^ 32 - 256)

-- A coordinate between 0 and `top`.
unfoldable pub clamp : (top v : ℕ) → ℕ
clamp top v =
    let v = if ltb v (2 ^ 31) && ltb top v then top else v in if ltb v (2 ^ 31) then v else 0

-- `mouse_event` with the byte `p` read from the controller.
unfoldable pub mouse_event : MouseState → (p : ℕ) → MouseState
mouse_event s p =
    let overflow = not (bit_and p 0x40 == 0) || not (bit_and p 0x80 == 0) in
    let signs = record s { xs = bit_and p 0x10; ys = bit_and p 0x20; current_byte = 1 } in
    let vy = movement s.ys p in
    if s.current_byte == 0
    then (if overflow then s else signs)
    else if s.current_byte == 1
    then record s { vx = movement s.xs p; current_byte = 2 }
    else record s {
      vy = vy;
      x = clamp 1024 ((s.x + s.vx) % 2 ^ 32);
      y = clamp 768 ((s.y + 2 ^ 32 - vy) % 2 ^ 32);
      current_byte = 0;
    }
