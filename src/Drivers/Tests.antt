-- ===== src/Drivers/Tests.antt =====
-- Runs of the keyboard driver, and the witness of kernel/drivers.
use pythonos.Prelude.{ℕ, ◌≡◌, refl, List, [], ◌∷◌, take, map, lookup, Eq-ℕ}
use pythonos.Prelude.Text.{codes}
use pythonos.Drivers.Keyboard.Defs.{KeyEvent, new_keyboard}
use pythonos.Drivers.Keyboard.Buffer.{handle_all, handle_all-take}

-- Left shift down, a, left shift up, a, an unknown code, caps lock, 1.
abbrev typed : List ℕ
typed = 0x2A ∷ 0x1E ∷ 0xAA ∷ 0x1E ∷ 0x7F ∷ 0x3A ∷ 0x02 ∷ []

-- Caps lock changes a digit, too.
typed_run :
    map (λ (e : KeyEvent). e.char) (handle_all typed new_keyboard).0
    ≡ codes "A" ∷ codes "a" ∷ codes "!" ∷ []
unfolding handle_all lookup
typed_run = refl

handle_all-take_example :
    (handle_all typed new_keyboard).1.queue.items ≡ take 256 (handle_all typed new_keyboard).0
handle_all-take_example = handle_all-take typed
