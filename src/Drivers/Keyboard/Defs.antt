-- ===== src/Drivers/Keyboard/Defs.antt =====
-- `KeyboardDriver`: what an interrupt with a scan code does. The code is a byte, read from the port.
use pythonos.Prelude.{
  ℕ, ◌/◌, ◌%◌, [], ◌∷◌, Option, none, some, Bool, true, false, ◌&&◌, ◌||◌, not, ◌==◌, if◌then◌else◌,
  bytes_eq, Dict, lookup, Eq-ℕ, String,
}
use pythonos.Prelude.Text.{Text, codes}
use pythonos.Asyncio.Queues.Defs.{Queue, new_queue, put_nowait}

abbrev both : ℕ → String → String → ℕ × (Text × Text)
both code plain shifted = (code, (codes plain, codes shifted))

-- `_SCANCODE_MAP`.
abbrev pub scancode_map : Dict ℕ (Text × Text)
scancode_map =
    both 0x01 "esc" "esc"
    ∷ both 0x02 "1" "!"
    ∷ both 0x03 "2" "@"
    ∷ both 0x04 "3" "#"
    ∷ both 0x05 "4" "$"
    ∷ both 0x06 "5" "%"
    ∷ both 0x07 "6" "^"
    ∷ both 0x08 "7" "&"
    ∷ both 0x09 "8" "*"
    ∷ both 0x0A "9" "("
    ∷ both 0x0B "0" ")"
    ∷ both 0x0C "-" "_"
    ∷ both 0x0D "=" "+"
    ∷ both 0x0E "backspace" "backspace"
    ∷ both 0x0F "tab" "tab"
    ∷ both 0x10 "q" "Q"
    ∷ both 0x11 "w" "W"
    ∷ both 0x12 "e" "E"
    ∷ both 0x13 "r" "R"
    ∷ both 0x14 "t" "T"
    ∷ both 0x15 "y" "Y"
    ∷ both 0x16 "u" "U"
    ∷ both 0x17 "i" "I"
    ∷ both 0x18 "o" "O"
    ∷ both 0x19 "p" "P"
    ∷ both 0x1A "[" "{"
    ∷ both 0x1B "]" "}"
    ∷ both 0x1C "\n" "\n"
    ∷ both 0x1D "lctrl" "lctrl"
    ∷ both 0x1E "a" "A"
    ∷ both 0x1F "s" "S"
    ∷ both 0x20 "d" "D"
    ∷ both 0x21 "f" "F"
    ∷ both 0x22 "g" "G"
    ∷ both 0x23 "h" "H"
    ∷ both 0x24 "j" "J"
    ∷ both 0x25 "k" "K"
    ∷ both 0x26 "l" "L"
    ∷ both 0x27 ";" ":"
    ∷ both 0x28 "'" "\""
    ∷ both 0x29 "`" "~"
    ∷ both 0x2A "lshift" "lshift"
    ∷ both 0x2B "\\" "|"
    ∷ both 0x2C "z" "Z"
    ∷ both 0x2D "x" "X"
    ∷ both 0x2E "c" "C"
    ∷ both 0x2F "v" "V"
    ∷ both 0x30 "b" "B"
    ∷ both 0x31 "n" "N"
    ∷ both 0x32 "m" "M"
    ∷ both 0x33 "," "<"
    ∷ both 0x34 "." ">"
    ∷ both 0x35 "/" "?"
    ∷ both 0x36 "rshift" "rshift"
    ∷ both 0x37 "*" "*"
    ∷ both 0x38 "lalt" "lalt"
    ∷ both 0x39 " " " "
    ∷ both 0x3A "capslock" "capslock"
    ∷ both 0x48 "up" "up"
    ∷ both 0x50 "down" "down"
    ∷ both 0x4B "left" "left"
    ∷ both 0x4D "right" "right"
    ∷ both 0x53 "delete" "delete"
    ∷ []

pub record KeyEvent : Type 0 where
  pub scancode : ℕ
  pub key : Text
  pub char : Text
  pub pressed : Bool
  pub shift : Bool
  pub ctrl : Bool
  pub alt : Bool

-- The modifiers, and the queue.
pub record Keyboard : Type 0 where
  pub queue : Queue KeyEvent
  pub shift : Bool
  pub ctrl : Bool
  pub alt : Bool
  pub capslock : Bool

abbrev pub new_keyboard : Keyboard
new_keyboard = record {
  queue = new_queue KeyEvent 256;
  shift = false;
  ctrl = false;
  alt = false;
  capslock = false;
}

abbrev pub is_release : ℕ → Bool
is_release sc = sc / 128 % 2 == 1

abbrev xor : Bool → Bool → Bool
xor true b = not b
xor false b = b

-- One character, or nothing.
abbrev pub printable : Text → Text
printable (c ∷ []) = c ∷ []
printable _ = []

abbrev pub event_of : ℕ → Text × Text → Keyboard → KeyEvent
event_of sc entry kb = record {
  scancode = sc % 128;
  key = entry.0;
  char = printable (if xor kb.shift kb.capslock then entry.1 else entry.0);
  pressed = not (is_release sc);
  shift = kb.shift;
  ctrl = kb.ctrl;
  alt = kb.alt;
}

-- The event goes to the queue, unless that is full, and to the subscribers.
unfoldable pub emit : KeyEvent → Keyboard → Option KeyEvent × Keyboard
emit e kb = (some e, record kb { queue = (put_nowait KeyEvent e kb.queue).1 })

unfoldable pub handle_key : ℕ → Text × Text → Keyboard → Option KeyEvent × Keyboard
unfolding emit
handle_key sc entry kb =
    if bytes_eq entry.0 (codes "lshift") || bytes_eq entry.0 (codes "rshift")
    then (none, record kb { shift = not (is_release sc) })
    else if bytes_eq entry.0 (codes "lctrl")
    then (none, record kb { ctrl = not (is_release sc) })
    else if bytes_eq entry.0 (codes "lalt")
    then (none, record kb { alt = not (is_release sc) })
    else if bytes_eq entry.0 (codes "capslock") && not (is_release sc)
    then (none, record kb { capslock = not kb.capslock })
    else emit (event_of sc entry kb) kb

unfoldable pub handle_entry : ℕ → Option (Text × Text) → Keyboard → Option KeyEvent × Keyboard
unfolding handle_key
handle_entry sc none kb = (none, kb)
handle_entry sc (some entry) kb = handle_key sc entry kb

-- The event that the subscribers get, if there is one, and the driver.
unfoldable pub handle_irq : ℕ → Keyboard → Option KeyEvent × Keyboard
unfolding handle_entry
handle_irq sc kb = handle_entry sc (lookup (sc % 128) scancode_map) kb
