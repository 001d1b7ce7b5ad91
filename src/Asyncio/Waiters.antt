-- ===== src/Asyncio/Waiters.antt =====
-- What queues and locks read and write of the futures that they make: `done`, `set_result` and the list
-- of those that wait.
use pythonos.Prelude.{
  ℕ, ◌+◌, List, [], ◌∷◌, Option, some, Bool, true, false, ◌==◌, if◌then◌else◌, Dict, lookup, insert,
  Eq-ℕ,
}

-- `Future._state`.
pub data Signal : Type 0 where
  pending finished cancelled : Signal

-- The futures by number, and the next number.
pub record Board : Type 0 where
  pub signals : Dict ℕ Signal
  pub next : ℕ

abbrev pub no_futures : Board
no_futures = record { signals = []; next = 0 }

abbrev pub is_pending : Option Signal → Bool
is_pending (some pending) = true
is_pending _ = false

abbrev pub waits : ℕ → Board → Bool
waits f b = is_pending (lookup f b.signals)

abbrev pub signal : ℕ → Signal → Board → Board
signal f s b = record b { signals = insert f s b.signals }

-- `loop.create_future()`.
abbrev pub create_future : Board → Board
create_future b = record { signals = insert b.next pending b.signals; next = b.next + 1 }

-- `fut.cancel()`.
abbrev pub cancel_future : ℕ → Board → Board
cancel_future f b = if waits f b then signal f cancelled b else b

-- `waiters.remove(fut)`, where it is there.
unfoldable pub without : ℕ → List ℕ → List ℕ
without f [] = []
without f (g ∷ gs) = let rest = without f gs in if g == f then gs else g ∷ rest
