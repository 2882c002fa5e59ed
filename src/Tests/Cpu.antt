-- ===== src/Tests/Cpu.antt =====
-- Handlers at fixed addresses, controllers that remember their masks, and a mouse at rest.
use hydrangea.Prelude.{
  zero, suc, some, ◌+◌, ◌*◌, ◌==◌, if◌then◌else◌, get_or, true, List, ℕ, ◌<◌, ◌≡◌, ◌≢◌, refl, [],
  ◌∷◌, arith,
}
use hydrangea.Cpu.Tables.{SegmentEntry}
use hydrangea.Cpu.Pic.{Outputs, pic_init}
use hydrangea.Cpu.Pic.Masks.{latest}
use hydrangea.Cpu.Keyboard.{first_state, kbd_get}
use hydrangea.Cpu.Keyboard.Keys.{
  KbdAction, byte, get, run_actions, pressed_last, held_half, kbd_get-kbd_event,
}
use hydrangea.Cpu.Clock.{rtc_now}
use hydrangea.Cpu.Clock.Decimal.{register, rtc_now-decimal}
use hydrangea.Cpu.Mouse.{MouseState}
use hydrangea.Cpu.Mouse.Bounds.{OnDesk, mouse_events, mouse_events-OnDesk}

abbrev isr : ℕ → ℕ
isr n = 0x10_0000

abbrev irq : ℕ → ℕ
irq n = 0x10_2000

abbrev segment : SegmentEntry
segment = record {
  limit_lo = 0;
  base_lo = 0;
  base_mid = 0;
  rights = 0;
  lim_hi_and_flags = 0;
  base_hi = 0;
}

abbrev controllers : Outputs → (port : ℕ) → ℕ
controllers o port = latest o port

after_init : latest (pic_init []) 0x21 ≡ 0xFB
unfolding pic_init latest
after_init = refl

after_init_2 : latest (pic_init []) 0xA1 ≡ 0xFF
unfolding pic_init latest
after_init_2 = refl

abbrev mouse : MouseState
mouse = record { current_byte = 0; x = 0; y = 768; vx = 0; vy = 0; xs = 1; ys = 1 }

mouse_events-OnDesk_example : OnDesk (mouse_events mouse (0x18 ∷ 0xFF ∷ 0xFF ∷ []))
mouse_events-OnDesk_example =
    mouse_events-OnDesk mouse (0x18 ∷ 0xFF ∷ 0xFF ∷ []) (omega arith, omega arith, omega arith)

-- Shift is pressed, which counts as shift until the character of a key with the same low half, here of shift
-- itself, is taken, and then 9, which counts as shift, and q.
abbrev typed : List KbdAction
typed = byte true 0x2A ∷ get ∷ byte true 0x0A ∷ byte true 0x10 ∷ []

kbd_get-kbd_event_example : (kbd_get (run_actions typed first_state)).0 ≡ (
    if held_half 0xA typed 0 0 == 0
    then get_or first_state.layout (pressed_last typed 0) 0
    else get_or first_state.layout_cap (pressed_last typed 0) 0)
kbd_get-kbd_event_example = kbd_get-kbd_event typed first_state

-- 11 minutes and 11 seconds past 11, on 11 November, with the flag for the afternoon
abbrev clock : ℕ → ℕ → ℕ
clock reg n = if reg == 0x0B then 0 else if reg == 0x04 then 0x91 else 0x11

rtc_now-decimal_example :
    rtc_now clock 1
    ≡ some (record {
      second = 11;
      minute = 11;
      hour = 11;
      day = 11;
      month = 11;
      century = 0;
      year = 11;
    })
rtc_now-decimal_example =
    rtc_now-decimal clock (λ i. 1) (λ i. 1) 1 0 (λ i l. refl) (λ i l. (omega arith, omega arith))
      clock_digits (omega arith) refl refl
  where
    clock_digits : (i : ℕ) → i < 6 → i ≢ 2 → clock (register i) i ≡ 16 * 1 + 1
    clock_digits zero l n = refl
    clock_digits (suc zero) l n = refl
    clock_digits (suc (suc zero)) l n = absurd (n refl)
    clock_digits (suc (suc (suc zero))) l n = refl
    clock_digits (suc (suc (suc (suc zero)))) l n = refl
    clock_digits (suc (suc (suc (suc (suc zero))))) l n = refl
    clock_digits (suc (suc (suc (suc (suc (suc i)))))) l n = absurd (omega (arith, l))
