-- ===== src/Cpu/Keyboard/Keys.antt =====
-- What the keyboard knows of the keys that are held.
use Prim.Native.Nat.{bit_and}
use native.Mathlib.Decide.{ℕ_discrete, dec_lt}
use hydrangea.Prelude.{
  ℕ, zero, suc, ◌+◌, ◌≤◌, ◌<◌, ◌≡◌, ◌≢◌, ◌⊎◌, inl, inr, refl, ◌∙◌, arith, ◌==◌, if◌then◌else◌, List,
  [], ◌∷◌, get_or, Bool, ne→not_==, eq→==, sym, ap, ◌*◌, ◌/◌, ◌%◌,
}
use hydrangea.Prelude.Bits.Fields.{bit_and-low}
use hydrangea.Cpu.Keyboard.{Keyboard, keydown_from, kbd_keydown, kbd_get, kbd_event}

-- The bytes of several interrupts, and whether there was a task in the foreground.
unfoldable pub kbd_events : List (Bool × ℕ) → Keyboard → Keyboard
kbd_events [] k = k
kbd_events ((fg, c) ∷ cs) k = kbd_events cs ((kbd_event fg c k).0)

-- 1 if the last of the bytes with the low half `i` was sent for a press, 0 if for a release; `before` if
-- there is none.
unfoldable pub last_press : (i : ℕ) → List (Bool × ℕ) → (before : ℕ) → ℕ
last_press i [] b = b
last_press i ((fg, c) ∷ cs) b =
    last_press i cs (if i == bit_and c 0xF then (if bit_and c 0x80 == 0 then 1 else 0) else b)

kbd_event-held :
    (fg : Bool) (c : ℕ) (k : Keyboard) (i : ℕ)
    → ((kbd_event fg c k).0).key_states i
      ≡ (if i == bit_and c 0xF then (if bit_and c 0x80 == 0 then 1 else 0) else k.key_states i)
unfolding kbd_event
kbd_event-held fg c k i = ground arith

kbd_events-held :
    (cs : List (Bool × ℕ)) (k : Keyboard) (i : ℕ)
    → (kbd_events cs k).key_states i ≡ last_press i cs (k.key_states i)
unfolding kbd_events last_press
kbd_events-held [] k i = refl
kbd_events-held ((fg, c) ∷ cs) k i =
    kbd_events-held cs ((kbd_event fg c k).0) i ∙ rw (kbd_event-held fg c k i) refl

kbd_events-layouts :
    (cs : List (Bool × ℕ)) (k : Keyboard)
    → ((kbd_events cs k).layout ≡ k.layout) × ((kbd_events cs k).layout_cap ≡ k.layout_cap)
unfolding kbd_events kbd_event
kbd_events-layouts [] k = (refl, refl)
kbd_events-layouts ((fg, c) ∷ cs) k =
    let rest = kbd_events-layouts cs ((kbd_event fg c k).0) in ground (arith, rest)

-- What happens to the keyboard: a byte in an interrupt, with or without a task in the foreground, or a call of
-- kbd_get.
pub data KbdAction : Type 0 where
  byte : (fg : Bool) (scancode : ℕ) → KbdAction
  get : KbdAction

unfoldable pub run_actions : List KbdAction → Keyboard → Keyboard
run_actions [] k = k
run_actions (byte fg c ∷ as') k = run_actions as' ((kbd_event fg c k).0)
run_actions (get ∷ as') k = run_actions as' ((kbd_get k).1)

-- The last byte of the actions that was sent for a press, or `key`.
unfoldable pub pressed_last : List KbdAction → (key : ℕ) → ℕ
pressed_last [] key = key
pressed_last (byte fg c ∷ as') key = pressed_last as' (if bit_and c 0x80 == 0 then c else key)
pressed_last (get ∷ as') key = pressed_last as' key

-- Whether the low half `i` counts as held: 1 since a byte for a press with this low half, 0 since one for a
-- release, or since a kbd_get while the last byte for a press had it; `before` if there was none of these.
unfoldable pub held_half : (i : ℕ) → List KbdAction → (key before : ℕ) → ℕ
held_half i [] key b = b
held_half i (byte fg c ∷ as') key b =
    held_half i as' (if bit_and c 0x80 == 0 then c else key)
      (if i == bit_and c 0xF then (if bit_and c 0x80 == 0 then 1 else 0) else b)
held_half i (get ∷ as') key b = held_half i as' key (if i == bit_and key 0xF then 0 else b)

kbd_event-last :
    (fg : Bool) (c : ℕ) (k : Keyboard)
    → ((kbd_event fg c k).0).last_key ≡ (if bit_and c 0x80 == 0 then c else k.last_key)
unfolding kbd_event
kbd_event-last fg c k = ground arith

kbd_event-layouts :
    (fg : Bool) (c : ℕ) (k : Keyboard)
    → (((kbd_event fg c k).0).layout ≡ k.layout)
      × (((kbd_event fg c k).0).layout_cap ≡ k.layout_cap)
unfolding kbd_event
kbd_event-layouts fg c k = ground arith

run_actions-last :
    (as' : List KbdAction) (k : Keyboard)
    → (run_actions as' k).last_key ≡ pressed_last as' k.last_key
unfolding run_actions pressed_last kbd_get
run_actions-last [] k = refl
run_actions-last (byte fg c ∷ as') k =
    run_actions-last as' ((kbd_event fg c k).0) ∙ rw (kbd_event-last fg c k) refl
run_actions-last (get ∷ as') k = run_actions-last as' ((kbd_get k).1)

run_actions-held :
    (as' : List KbdAction) (k : Keyboard) (i : ℕ)
    → (run_actions as' k).key_states i ≡ held_half i as' k.last_key (k.key_states i)
unfolding run_actions held_half kbd_get
run_actions-held [] k i = refl
run_actions-held (byte fg c ∷ as') k i =
    run_actions-held as' ((kbd_event fg c k).0) i
    ∙ rw (kbd_event-last fg c k, kbd_event-held fg c k i) refl
run_actions-held (get ∷ as') k i = run_actions-held as' ((kbd_get k).1) i

run_actions-layouts :
    (as' : List KbdAction) (k : Keyboard)
    → ((run_actions as' k).layout ≡ k.layout) × ((run_actions as' k).layout_cap ≡ k.layout_cap)
unfolding run_actions kbd_get
run_actions-layouts [] k = (refl, refl)
run_actions-layouts (byte fg c ∷ as') k =
    let (l, c') = run_actions-layouts as' ((kbd_event fg c k).0) in
    let (e, e') = kbd_event-layouts fg c k in (l ∙ e, c' ∙ e')
run_actions-layouts (get ∷ as') k = run_actions-layouts as' ((kbd_get k).1)

-- After any bytes from the controller and calls of kbd_get, in any order, kbd_get gives the character of the last byte
-- for a press: from the layout for shift exactly if the low half 0xA counts as held. It does since the last byte with
-- that low half, be it of a shift key or not, if that was sent for a press, and if there was no kbd_get after it
-- while the last byte for a press had that low half; with none of these, if its state was set before.
pub kbd_get-kbd_event :
    (actions : List KbdAction) (k : Keyboard)
    → let key = pressed_last actions k.last_key in
      (kbd_get (run_actions actions k)).0 ≡ (
        if held_half 0xA actions k.last_key (k.key_states 0xA) == 0
        then get_or k.layout key 0
        else get_or k.layout_cap key 0)
unfolding kbd_get
kbd_get-kbd_event actions k =
    let held = run_actions-held actions k 0xA in
    let last = run_actions-last actions k in
    let (l, cap) = run_actions-layouts actions k in rw (held, last, l, cap) refl

low_half-lt : (c : ℕ) → bit_and c 0xF < 16
low_half-lt c =
    let e : c ≡ c / 16 * 16 + c % 16 = omega arith in
    let low : bit_and c 0xF ≡ c % 16 =
      ap (λ z. bit_and z 0xF) e ∙ bit_and-low 4 (c / 16) (c % 16) (omega arith) in
    omega (arith, low)

last_press_high : (i : ℕ) (cs : List (Bool × ℕ)) → 16 ≤ i → last_press i cs 0 ≡ 0
unfolding last_press
last_press_high i [] h = refl
last_press_high i ((fg, c) ∷ cs) h =
    let rest = last_press_high i cs h in
    let no = ne→not_== i (bit_and c 0xF) (λ e. omega (arith, e, low_half-lt c, h)) in rw no rest

-- With a held key in hand
keydown_from-held :
    (states : ℕ → ℕ) (key i n : ℕ) → states key ≢ 0 → states (keydown_from states key i n) ≢ 0
unfolding keydown_from
keydown_from-held states key i zero h = h
keydown_from-held states key i (suc n) h = elim (ℕ_discrete (states i) 0) [
  | yes e ↦ rw (eq→== (states i) 0 e) (keydown_from-held states key (suc i) n h)
  | no ne ↦ rw (ne→not_== (states i) 0 ne) (elim (ℕ_discrete i 0xA) [
    | yes s ↦ rw (eq→== i 0xA s) (keydown_from-held states i (suc i) n ne)
    | no ns ↦ rw (ne→not_== i 0xA ns) ne
  ])
]

keydown_from_lem :
    (states : ℕ → ℕ) (key i n : ℕ)
    → ((keydown_from states key i n ≡ key) × ((j : ℕ) → i ≤ j → j < i + n → states j ≡ 0))
      ⊎ (states (keydown_from states key i n) ≢ 0)
unfolding keydown_from
keydown_from_lem states key i zero = inl (refl, λ j a b. absurd (omega arith))
keydown_from_lem states key i (suc n) = elim (ℕ_discrete (states i) 0) [
  | yes e ↦ rw (eq→== (states i) 0 e) (elim (keydown_from_lem states key (suc i) n) [
    | inl (same, clear) ↦ inl (
      same,
      λ j a b. elim (ℕ_discrete j i) [
        | yes here ↦ ap states here ∙ e
        | no ne ↦ clear j (omega (arith, ne, a)) (omega (arith, b))
      ],
    )
    | inr held ↦ inr held
  ])
  | no ne ↦ rw (ne→not_== (states i) 0 ne) (elim (ℕ_discrete i 0xA) [
    | yes s ↦ rw (eq→== i 0xA s) (inr (keydown_from-held states i (suc i) n ne))
    | no ns ↦ rw (ne→not_== i 0xA ns) (inr ne)
  ])
]

-- After any bytes from the controller, with no key held before, kbd_keydown gives 0xFF if each low half
-- that was sent, if any, was last sent for a release. Otherwise it gives a low half, below 16, that was
-- last sent for a press, and never the code of another key.
pub kbd_keydown-kbd_events :
    (cs : List (Bool × ℕ)) (k : Keyboard)
    → ((i : ℕ) → k.key_states i ≡ 0)
    → let r = kbd_keydown (kbd_events cs k) in
      ((r ≡ 0xFF) × ((i : ℕ) → last_press i cs 0 ≡ 0)) ⊎ ((r < 16) × (last_press r cs 0 ≢ 0))
unfolding kbd_keydown
kbd_keydown-kbd_events cs k none_held =
    let states = (kbd_events cs k).key_states in
    let at : (i : ℕ) → states i ≡ last_press i cs 0 =
      λ i. kbd_events-held cs k i ∙ ap (last_press i cs) (none_held i) in
    elim (keydown_from_lem states 0xFF 0 128) [
      | inl (same, clear) ↦ inl (
        same,
        λ i. elim (dec_lt i 128) [
          | yes l ↦ sym (at i) ∙ clear i (omega arith) (omega (arith, l))
          | no nl ↦ last_press_high i cs (omega (arith, nl))
        ],
      )
      | inr held ↦
          let r = keydown_from states 0xFF 0 128 in
          let pressed : last_press r cs 0 ≢ 0 = λ e. held (at r ∙ e) in
          elim (dec_lt r 16) [
            | yes l ↦ inr (l, pressed)
            | no nl ↦ absurd (pressed (last_press_high r cs (omega (arith, nl))))
          ]
    ]
