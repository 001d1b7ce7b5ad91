-- ===== src/Asyncio/Tests.antt =====
-- Runs of the event loop, futures, queues and locks, and the witnesses of asyncio/.
use pythonos.Prelude.{
  ℕ, ◌+◌, ◌≡◌, refl, List, [], ◌∷◌, none, ok, err, Bool, false, ◌==◌, if◌then◌else◌, lookup, insert,
  Eq-ℕ,
}
use pythonos.Asyncio.Waiters.{waits}
use pythonos.Asyncio.Events.Defs.{
  Loop, Call, soon, at, cancelling, new_loop, make_calls, run_once, run_rounds,
}
use pythonos.Asyncio.Futures.Defs.{without}
use pythonos.Asyncio.Futures.Settles.{
  Op, settle, subscribe, unsubscribe, returned, failed, dropped, unsettled, spec_all, told,
}
use pythonos.Asyncio.Queues.Order.{
  Step, put_now, putting, getting, cancelling_get, steps, new_run, IsInOrder, steps-IsInOrder,
}
use pythonos.Asyncio.Queues.Pending.{signalled}
use pythonos.Asyncio.Queues.Tasks
use pythonos.Asyncio.Locks.Defs.{
  Lock, new_lock, ended, first_pending, try_acquire, acquire_woken, release, not_acquired,
}
use pythonos.Asyncio.Locks.Holders
use pythonos.Asyncio.Locks.Holders.{
  release-acquire_twice, steps-IsCounted, taking, giving, cancelling,
}

-- Callback 0 sets a timer and makes callback 1 ready.
abbrev acts : ℕ → Loop ℕ → List (Call ℕ)
acts fn l = if fn == 0 then at 5 2 ∷ soon 1 ∷ [] else []

abbrev never : Loop ℕ → Bool
never l = false

abbrev start : List (Call ℕ)
start = at 9 3 ∷ soon 0 ∷ []

abbrev two_rounds : List (ℕ × List (Call ℕ))
two_rounds = (1, []) ∷ (2, []) ∷ []

abbrev loop : Loop ℕ
loop = run_rounds ℕ acts never two_rounds (make_calls ℕ start (new_loop ℕ))

-- The handles that are taken, by number.
taken_run :
    (run_once ℕ acts 6 (soon 7 ∷ []) loop).taken
    ≡ record { id = 1; fn = 0 }
      ∷ record { id = 3; fn = 1 }
      ∷ record { id = 4; fn = 7 }
      ∷ record { id = 2; fn = 2 }
      ∷ []
unfolding run_once run_rounds make_calls
taken_run = refl

abbrev ops : List (Op ℕ ℕ ℕ 0 ◌==◌)
ops =
    subscribe 1
    ∷ subscribe 2
    ∷ unsubscribe 1
    ∷ settle (failed 4)
    ∷ settle (returned 5)
    ∷ subscribe 3
    ∷ settle dropped
    ∷ []

told_run : told ℕ ℕ ℕ 0 ◌==◌ (spec_all ℕ ℕ ℕ 0 ◌==◌ ops (unsettled [])).1 ≡ 2 ∷ 3 ∷ []
unfolding spec_all without
told_run = refl

abbrev queue_steps : List (Step ℕ)
queue_steps =
    getting ∷ getting ∷ put_now 5 ∷ cancelling_get 0 ∷ putting 6 ∷ putting 7 ∷ getting ∷ []

-- The getter that was woken is cancelled: an item is there, and the other getter was woken by the next put.
queue_run :
    ((steps ℕ queue_steps (new_run ℕ 2)).given ≡ 5 ∷ [])
    × ((steps ℕ queue_steps (new_run ℕ 2)).queue.items ≡ 6 ∷ [])
unfolding steps lookup insert
queue_run = (refl, refl)

steps-IsInOrder_example : IsInOrder ℕ 2 (steps ℕ queue_steps (new_run ℕ 2))
steps-IsInOrder_example = steps-IsInOrder ℕ 2 queue_steps

-- Two getters wait, a put wakes the first, and another getter takes the item before it runs.
abbrev overtaken : Tasks.Run ℕ
overtaken =
    Tasks.steps ℕ
      (Tasks.getting ∷ Tasks.getting ∷ Tasks.put_now 5 ∷ Tasks.get_now ∷ Tasks.put_now 6 ∷ [])
      (Tasks.new_run ℕ 2)

woken_run : overtaken.woken_get ≡ 2
unfolding Tasks.steps lookup insert signalled
woken_run = refl

abbrev semaphore_steps : List Holders.Step
semaphore_steps = taking ∷ taking ∷ cancelling 0 ∷ giving ∷ taking ∷ []

steps-IsCounted_example :
    (Holders.steps semaphore_steps (Holders.new_run 1)).semaphore.value
      + (Holders.steps semaphore_steps (Holders.new_run 1)).taken
    ≡ 1 + (Holders.steps semaphore_steps (Holders.new_run 1)).given
steps-IsCounted_example = steps-IsCounted 1 semaphore_steps

-- A lock that one task holds and one waits for.
abbrev contended : Lock
contended = (try_acquire (try_acquire new_lock).1).1

release-acquire_twice_example :
    (freed : Lock) × (release contended ≡ (ok tt, freed))
    × (freed.is_locked ≡ false)
    × (waits 0 freed.board ≡ false)
    × (try_acquire freed ≡ (ended, acquire_woken freed))
    × (first_pending freed.waiters freed.board ≡ none
        → release (acquire_woken (acquire_woken freed)) ≡ (ok tt, freed)
          × (release freed ≡ (err not_acquired, freed)))
unfolding try_acquire first_pending lookup insert
release-acquire_twice_example = release-acquire_twice contended 0 refl refl
