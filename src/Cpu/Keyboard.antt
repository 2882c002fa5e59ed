-- ===== src/Cpu/Keyboard.antt =====
-- The keyboard of kernel/drivers/kbd.c: the state of its keys, its layouts, and what an interrupt does.
-- `kbd_init` is a sequence of commands to the PS/2 controller and left out.
pub mod Keys
use Prim.Native.Nat.{bit_and}
use hydrangea.Prelude.{
  ℕ, zero, suc, ◌==◌, if◌then◌else◌, List, [], ◌∷◌, get_or, Option, none, some, Bool, update,
}
use hydrangea.Libk.Bytes.{Memory}
use hydrangea.Libk.Str.{strcmp}

abbrev kbd_layout_us : List ℕ
kbd_layout_us =
    0 ∷ 27 ∷ 49 ∷ 50 ∷ 51 ∷ 52 ∷ 53 ∷ 54 ∷ 55 ∷ 56 ∷ 57 ∷ 48 ∷ 45 ∷ 61 ∷ 8 ∷ 9 ∷ 113 ∷ 119 ∷ 101
    ∷ 114 ∷ 116 ∷ 121 ∷ 117 ∷ 105 ∷ 111 ∷ 112 ∷ 91 ∷ 93 ∷ 10 ∷ 0 ∷ 97 ∷ 115 ∷ 100 ∷ 102 ∷ 103 ∷ 104
    ∷ 106 ∷ 107 ∷ 108 ∷ 59 ∷ 39 ∷ 96 ∷ 0 ∷ 92 ∷ 122 ∷ 120 ∷ 99 ∷ 118 ∷ 98 ∷ 110 ∷ 109 ∷ 44 ∷ 46 ∷ 47
    ∷ 0 ∷ 42 ∷ 0 ∷ 32 ∷ 0 ∷ 0 ∷ 0 ∷ 0 ∷ 0 ∷ 0 ∷ 0 ∷ 0 ∷ 0 ∷ 0 ∷ 0 ∷ 0 ∷ 0 ∷ 0 ∷ 0 ∷ 0 ∷ 45 ∷ 0 ∷ 0
    ∷ 0 ∷ 43 ∷ []

abbrev kbd_layout_fr : List ℕ
kbd_layout_fr =
    0 ∷ 27 ∷ 38 ∷ 101 ∷ 34 ∷ 39 ∷ 40 ∷ 45 ∷ 101 ∷ 95 ∷ 99 ∷ 97 ∷ 41 ∷ 61 ∷ 8 ∷ 9 ∷ 97 ∷ 122 ∷ 101
    ∷ 114 ∷ 116 ∷ 121 ∷ 117 ∷ 105 ∷ 111 ∷ 112 ∷ 94 ∷ 36 ∷ 10 ∷ 0 ∷ 113 ∷ 115 ∷ 100 ∷ 102 ∷ 103 ∷ 104
    ∷ 106 ∷ 107 ∷ 108 ∷ 109 ∷ 32 ∷ 42 ∷ 0 ∷ 92 ∷ 119 ∷ 120 ∷ 99 ∷ 118 ∷ 98 ∷ 110 ∷ 44 ∷ 59 ∷ 58 ∷ 33
    ∷ 0 ∷ 42 ∷ 0 ∷ 32 ∷ 0 ∷ 0 ∷ 0 ∷ 0 ∷ 0 ∷ 0 ∷ 0 ∷ 0 ∷ 0 ∷ 0 ∷ 0 ∷ 0 ∷ 0 ∷ 0 ∷ 0 ∷ 0 ∷ 45 ∷ 0 ∷ 0
    ∷ 0 ∷ 43 ∷ []

abbrev kbd_layout_us_cap : List ℕ
kbd_layout_us_cap =
    0 ∷ 27 ∷ 49 ∷ 50 ∷ 51 ∷ 52 ∷ 53 ∷ 54 ∷ 55 ∷ 56 ∷ 57 ∷ 48 ∷ 45 ∷ 61 ∷ 8 ∷ 9 ∷ 81 ∷ 87 ∷ 69 ∷ 82
    ∷ 84 ∷ 89 ∷ 85 ∷ 73 ∷ 79 ∷ 80 ∷ 91 ∷ 93 ∷ 10 ∷ 0 ∷ 65 ∷ 83 ∷ 68 ∷ 70 ∷ 71 ∷ 72 ∷ 74 ∷ 75 ∷ 76
    ∷ 59 ∷ 39 ∷ 96 ∷ 0 ∷ 92 ∷ 90 ∷ 88 ∷ 67 ∷ 86 ∷ 66 ∷ 78 ∷ 77 ∷ 44 ∷ 46 ∷ 47 ∷ 0 ∷ 42 ∷ 0 ∷ 32 ∷ 0
    ∷ 0 ∷ 0 ∷ 0 ∷ 0 ∷ 0 ∷ 0 ∷ 0 ∷ 0 ∷ 0 ∷ 0 ∷ 0 ∷ 0 ∷ 0 ∷ 0 ∷ 0 ∷ 45 ∷ 0 ∷ 0 ∷ 0 ∷ 43 ∷ []

abbrev kbd_layout_fr_cap : List ℕ
kbd_layout_fr_cap =
    0 ∷ 27 ∷ 49 ∷ 50 ∷ 51 ∷ 52 ∷ 53 ∷ 54 ∷ 55 ∷ 56 ∷ 57 ∷ 48 ∷ 41 ∷ 43 ∷ 8 ∷ 9 ∷ 65 ∷ 90 ∷ 69 ∷ 82
    ∷ 84 ∷ 89 ∷ 85 ∷ 73 ∷ 79 ∷ 80 ∷ 94 ∷ 36 ∷ 10 ∷ 0 ∷ 81 ∷ 83 ∷ 68 ∷ 70 ∷ 71 ∷ 72 ∷ 74 ∷ 75 ∷ 76
    ∷ 77 ∷ 32 ∷ 42 ∷ 0 ∷ 92 ∷ 87 ∷ 88 ∷ 67 ∷ 86 ∷ 66 ∷ 78 ∷ 63 ∷ 46 ∷ 47 ∷ 32 ∷ 0 ∷ 42 ∷ 0 ∷ 32 ∷ 0
    ∷ 0 ∷ 0 ∷ 0 ∷ 0 ∷ 0 ∷ 0 ∷ 0 ∷ 0 ∷ 0 ∷ 0 ∷ 0 ∷ 0 ∷ 0 ∷ 0 ∷ 0 ∷ 45 ∷ 0 ∷ 0 ∷ 0 ∷ 43 ∷ []

-- `kbd_cur_layout`, `kbd_cur_layout_cap`, `kbd_key_states` and `kbd_last_key`
pub record Keyboard : Type 0 where
  pub layout : List ℕ
  pub layout_cap : List ℕ
  pub key_states : ℕ → ℕ
  pub last_key : ℕ

abbrev pub first_state : Keyboard
first_state = record {
  layout = kbd_layout_us;
  layout_cap = kbd_layout_us_cap;
  key_states = λ i. 0;
  last_key = 0;
}

-- `none` is a NULL layout.
unfoldable pub kbd_set_layout : Option (List ℕ) → List ℕ → Keyboard → ℕ × Keyboard
kbd_set_layout none cap k = (0, k)
kbd_set_layout (some l) cap k = (1, record k { layout = l; layout_cap = cap })

-- The strings "en" and "fr" stand at the addresses `en` and `fr`.
unfoldable pub kbd_switch_layout :
    Memory → (layout_name en fr fuel : ℕ) → Keyboard → Option (ℕ × Keyboard)
kbd_switch_layout m name en fr fuel k = elim (strcmp m name en fuel) [
  | none ↦ none
  | some zero ↦ some (kbd_set_layout (some kbd_layout_us) kbd_layout_us_cap k)
  | some (suc d) ↦ elim (strcmp m name fr fuel) [
    | none ↦ none
    | some e ↦
        some (if e == 0 then kbd_set_layout (some kbd_layout_fr) kbd_layout_fr_cap k else (1, k))
  ]
]

-- The loop of `kbd_keydown` with `n` keys left, from the key `i` on.
unfoldable pub keydown_from : (states : ℕ → ℕ) (key i n : ℕ) → ℕ
keydown_from states key i zero = key
keydown_from states key i (suc n) =
    let rest = keydown_from states key (suc i) n in
    let after_shift = keydown_from states i (suc i) n in
    if states i == 0 then rest else if i == 0xA then after_shift else i

unfoldable pub kbd_keydown : Keyboard → ℕ
kbd_keydown k = keydown_from k.key_states 0xFF 0 128

unfoldable pub kbd_get : Keyboard → ℕ × Keyboard
kbd_get k = (
  if k.key_states 0xA == 0 then get_or k.layout k.last_key 0 else get_or k.layout_cap k.last_key 0,
  record k { key_states = update k.key_states (bit_and k.last_key 0xF) 0 },
)

-- `kbd_event` with the byte read from the controller, and whether there is a task in the foreground. It
-- gives the character that is written to that task's first file, if any.
unfoldable pub kbd_event : (foreground : Bool) (scancode : ℕ) → Keyboard → Keyboard × Option ℕ
kbd_event fg c k =
    let held = update k.key_states (bit_and c 0xF) (if bit_and c 0x80 == 0 then 1 else 0) in
    if bit_and c 0x80 == 0
    then (
      record k { key_states = held; last_key = c },
      if fg then some (get_or k.layout c 0) else none,
    )
    else (record k { key_states = held }, none)
