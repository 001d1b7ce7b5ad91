-- ===== src/Asyncio/Futures/Defs.antt =====
-- `Future`, for a future that has a loop, as `create_future` makes them: what it schedules is an output, the
-- callbacks that are handed to `call_soon`, in order.
use pythonos.Prelude.{
  ℕ, ◌-◌, List, [], ◌∷◌, ◌++◌, Option, none, some, Bool, true, false, if◌then◌else◌, Outcome, ok,
  err, length,
}

pub data State : Type 0 where
  pending finished cancelled : State

abbrev pub is_pending : State → Bool
is_pending pending = true
is_pending _ = false

-- Values with Python's `None`, exceptions, and callbacks with their test of equality.
module _ (V E C : Type 0) (nothing : V) (same : C → C → Bool) where
  pub record Future : Type 0 where
    pub state : State
    pub value : V
    pub failure : Option E
    pub callbacks : List C

  -- `CancelledError`, `InvalidStateError`, and the exception that was set.
  pub data FutureError : Type 0 where
    cancelled_error invalid_state : FutureError
    raised : E → FutureError

  abbrev pub new_future : Future
  new_future = record { state = pending; value = nothing; failure = none; callbacks = [] }

  unfoldable pub result : Future → Outcome FutureError V
  result f = elim f.state [
    | cancelled ↦ err cancelled_error
    | pending ↦ err invalid_state
    | finished ↦ elim f.failure [ some e ↦ err (raised e) | none ↦ ok f.value ]
  ]

  unfoldable pub exception : Future → Outcome FutureError (Option E)
  exception f = elim f.state [
    | cancelled ↦ err cancelled_error
    | pending ↦ err invalid_state
    | finished ↦ ok f.failure
  ]

  -- What a method answers; it schedules the callbacks beside it.
  pub data Answer : Type 0 where
    nothing_said refused : Answer
    said : Bool → Answer
    removed : ℕ → Answer

  -- `_schedule_callbacks`: the future is left without callbacks.
  abbrev pub schedule_callbacks : Answer → Future → Answer × Future × List C
  schedule_callbacks a f = (a, record f { callbacks = [] }, f.callbacks)

  unfoldable pub set_result : V → Future → Answer × Future × List C
  set_result v f =
      if is_pending f.state
      then schedule_callbacks nothing_said (record f { state = finished; value = v })
      else (refused, f, [])

  unfoldable pub set_exception : E → Future → Answer × Future × List C
  set_exception e f =
      if is_pending f.state
      then schedule_callbacks nothing_said (record f { state = finished; failure = some e })
      else (refused, f, [])

  unfoldable pub cancel : Future → Answer × Future × List C
  cancel f =
      if is_pending f.state
      then schedule_callbacks (said true) (record f { state = cancelled })
      else (said false, f, [])

  unfoldable pub add_done_callback : C → Future → Answer × Future × List C
  add_done_callback c f =
      if is_pending f.state
      then (nothing_said, record f { callbacks = f.callbacks ++ c ∷ [] }, [])
      else (nothing_said, f, c ∷ [])

  unfoldable pub without : C → List C → List C
  without c [] = []
  without c (d ∷ ds) = let rest = without c ds in if same d c then rest else d ∷ rest

  unfoldable pub remove_done_callback : C → Future → Answer × Future × List C
  unfolding without
  remove_done_callback c f = (
    removed (length f.callbacks - length (without c f.callbacks)),
    record f { callbacks = without c f.callbacks },
    [],
  )
