-- ===== src/Drivers/Ports.antt =====
-- Port input and output: what has been written to ports and asked from them so far, the newest first.
-- A device answers a read from this.
use hydrangea.Prelude.{ℕ, List, ◌∷◌}

pub data IoEvent : Type 0 where
  wrote : (port value : ℕ) → IoEvent
  asked : (port : ℕ) → IoEvent

abbrev pub Log : Type 0
Log = List IoEvent

abbrev pub Device : Type 0
Device = Log → (port : ℕ) → ℕ

-- Code that reads and writes ports: its result, and the log behind it.
abbrev pub Io : Type 0 → Type 0
Io A = Log → A × Log

abbrev pub pure : {A : Type 0} → A → Io A
pure a log = (a, log)

module _ {A B : Type 0} where
  infixl 5 ◌>>=◌ ◌>>◌
  abbrev pub ◌>>=◌ : Io A → (A → Io B) → Io B
  ◌>>=◌ m f log = f ((m log).0) ((m log).1)

  abbrev pub ◌>>◌ : Io A → Io B → Io B
  ◌>>◌ m k log = k ((m log).1)

-- `io_outb` and `io_inb`
abbrev pub io_outb : (port value : ℕ) → Io (Unit {0})
io_outb port value log = (tt, wrote port value ∷ log)

abbrev pub io_inb : Device → (port : ℕ) → Io ℕ
io_inb answer port log = (answer log port, asked port ∷ log)
