-- ===== src/Cpu/Mouse/Bounds.antt =====
-- Where the mouse may be.
use hydrangea.Prelude.{ℕ, ◌+◌, ◌-◌, ◌%◌, ◌^◌, ◌≤◌, ◌<◌, arith, List, [], ◌∷◌}
use hydrangea.Cpu.Mouse.{MouseState, movement, clamp, mouse_event}

-- The position lies on the screen, and one of the three bytes of a packet is expected.
abbrev pub OnDesk : MouseState → Type 0
OnDesk s = (s.x ≤ 1024) × (s.y ≤ 768) × (s.current_byte < 3)

-- The bytes of several interrupts.
unfoldable pub mouse_events : MouseState → List ℕ → MouseState
mouse_events s [] = s
mouse_events s (p ∷ ps) = mouse_events (mouse_event s p) ps

clamp-le : (top v : ℕ) → top < 2 ^ 31 → clamp top v ≤ top
unfolding clamp
clamp-le top v h = ground arith

mouse_event-OnDesk : (s : MouseState) (p : ℕ) → OnDesk s → OnDesk (mouse_event s p)
unfolding mouse_event
mouse_event-OnDesk s p on =
    let cx = clamp-le 1024 ((s.x + s.vx) % 2 ^ 32) (omega arith) in
    let cy = clamp-le 768 ((s.y + 2 ^ 32 - movement s.ys p) % 2 ^ 32) (omega arith) in
    ground (arith, cx, cy, on)

-- Whatever bytes the controller sends, the position of the mouse stays between 0 and 1024 to the right
-- and between 0 and 768 down, and the state machine expects one of the three bytes of a packet.
pub mouse_events-OnDesk : (s : MouseState) (ps : List ℕ) → OnDesk s → OnDesk (mouse_events s ps)
unfolding mouse_events
mouse_events-OnDesk s [] on = on
mouse_events-OnDesk s (p ∷ ps) on =
    mouse_events-OnDesk (mouse_event s p) ps (mouse_event-OnDesk s p on)
