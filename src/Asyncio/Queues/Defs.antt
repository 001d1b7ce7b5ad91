-- ===== src/Asyncio/Queues/Defs.antt =====
-- `Queue`. A coroutine is cut where it waits: `try_put` and `try_get` are what runs from the test of the
-- loop to the next wait or the end.
use pythonos.Prelude.{
  ℕ, List, [], ◌∷◌, ◌++◌, Option, none, some, Bool, ◌&&◌, ltb, leb, if◌then◌else◌, Outcome, ok, err,
  length, Eq-ℕ,
}
use pythonos.Asyncio.Waiters.{
  finished, Board, no_futures, waits, signal, create_future, cancel_future, without,
}

-- `QueueEmpty` and `QueueFull`.
pub data QueueError : Type 0 where
  queue_empty queue_full : QueueError

-- The loops of `_wakeup_getter` and `_wakeup_putter`: the future that is woken, and those left.
unfoldable pub wake : List ℕ → Board → Option ℕ × List ℕ
wake [] b = (none, [])
wake (f ∷ fs) b = let rest = wake fs b in if waits f b then (some f, fs) else rest

unfoldable pub set_woken : Option ℕ → Board → Board
set_woken none b = b
set_woken (some f) b = signal f finished b

module _ (A : Type 0) where
  pub record Queue : Type 0 where
    pub maxsize : ℕ
    pub items : List A
    pub getters : List ℕ
    pub putters : List ℕ
    pub board : Board

  abbrev pub new_queue : ℕ → Queue
  new_queue n = record { maxsize = n; items = []; getters = []; putters = []; board = no_futures }

  abbrev pub full : Queue → Bool
  full q = ltb 0 q.maxsize && leb q.maxsize (length q.items)

  unfoldable pub wakeup_getter : Queue → Queue
  unfolding wake set_woken
  wakeup_getter q =
      let (woken, rest) = wake q.getters q.board in
      record q { getters = rest; board = set_woken woken q.board }

  unfoldable pub wakeup_putter : Queue → Queue
  unfolding wake set_woken
  wakeup_putter q =
      let (woken, rest) = wake q.putters q.board in
      record q { putters = rest; board = set_woken woken q.board }

  unfoldable pub put_nowait : A → Queue → Outcome QueueError (Unit {0}) × Queue
  unfolding wakeup_getter
  put_nowait a q =
      if full q
      then (err queue_full, q)
      else (ok tt, wakeup_getter (record q { items = q.items ++ a ∷ [] }))

  unfoldable pub get_nowait : Queue → Outcome QueueError A × Queue
  unfolding wakeup_putter
  get_nowait q = elim q.items [
    | [] ↦ (err queue_empty, q)
    | a ∷ items ↦ (ok a, wakeup_putter (record q { items = items }))
  ]

  -- What a coroutine has come to: it waits for a future, or it ends.
  pub data Turn (B : Type 0) : Type 0 where
    waiting : ℕ → Turn B
    ended : Outcome QueueError B → Turn B

  abbrev ending : {B : Type 0} → Outcome QueueError B × Queue → Turn B × Queue
  ending r = (ended r.0, r.1)

  unfoldable pub try_put : A → Queue → Turn (Unit {0}) × Queue
  unfolding put_nowait
  try_put a q =
      if full q
      then (
        waiting q.board.next,
        record q { putters = q.putters ++ q.board.next ∷ []; board = create_future q.board },
      )
      else ending (put_nowait a q)

  unfoldable pub try_get : Queue → Turn A × Queue
  unfolding get_nowait
  try_get q = elim q.items [
    | [] ↦ (
      waiting q.board.next,
      record q { getters = q.getters ++ q.board.next ∷ []; board = create_future q.board },
    )
    | a ∷ items ↦ ending (get_nowait q)
  ]

  -- The task is cancelled at the wait: its future is, and the coroutine takes it off the list.
  unfoldable pub cancel_put : ℕ → Queue → Queue
  unfolding without
  cancel_put f q = record q { putters = without f q.putters; board = cancel_future f q.board }

  unfoldable pub cancel_get : ℕ → Queue → Queue
  unfolding without
  cancel_get f q = record q { getters = without f q.getters; board = cancel_future f q.board }
