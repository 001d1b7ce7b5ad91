-- ===== src/Asyncio/Futures/Settles.antt =====
-- A future refines a value that is settled once, with subscribers that are called once.
use pythonos.Prelude.{
  ◌-◌, ◌≡◌, List, [], ◌∷◌, ◌++◌, Option, none, some, Bool, true, false, Outcome, ok, err, length,
}
use pythonos.Asyncio.Futures.Defs.{
  State, pending, finished, cancelled, Future, FutureError, cancelled_error, invalid_state, raised,
  Answer, nothing_said, refused, said, removed, set_result, set_exception, cancel,
  add_done_callback, remove_done_callback, without,
}

module _ (V E C : Type 0) (nothing : V) (same : C → C → Bool) where
  pub data Settled : Type 0 where
    returned : V → Settled
    failed : E → Settled
    dropped : Settled

  -- Who is to be told, and what the future was settled with, if it was.
  pub data Promise : Type 0 where
    unsettled : List C → Promise
    settled : Settled → List C → Promise

  pub data Op : Type 0 where
    settle : Settled → Op
    subscribe : C → Op
    unsubscribe : C → Op

  abbrev F : Type 0
  F = Future V E C nothing same

  abbrev A : Type 0
  A = Answer V E C nothing same

  unfoldable pub perform : Op → F → A × F × List C
  unfolding set_result set_exception cancel add_done_callback remove_done_callback
  perform (settle (returned v)) f = set_result V E C nothing same v f
  perform (settle (failed e)) f = set_exception V E C nothing same e f
  perform (settle dropped) f = cancel V E C nothing same f
  perform (subscribe c) f = add_done_callback V E C nothing same c f
  perform (unsubscribe c) f = remove_done_callback V E C nothing same c f

  -- All that a future was asked: the answers, the future, and all callbacks that it scheduled.
  unfoldable pub perform_all : List Op → F → List A × F × List C
  unfolding perform
  perform_all [] f = ([], f, [])
  perform_all (op ∷ ops) f =
      let (a, f', cs) = perform op f in
      let (as', f'', cs') = perform_all ops f' in (a ∷ as', f'', cs ++ cs')

  abbrev settling_answer : Settled → Bool → A
  settling_answer (returned v) true = nothing_said
  settling_answer (returned v) false = refused
  settling_answer (failed e) true = nothing_said
  settling_answer (failed e) false = refused
  settling_answer dropped b = said b

  -- The first settling counts; a subscriber can be taken back until then.
  unfoldable pub spec : Op → Promise → A × Promise
  spec (settle s) (unsettled cs) = (settling_answer s true, settled s cs)
  spec (settle s) (settled t cs) = (settling_answer s false, settled t cs)
  spec (subscribe c) (unsettled cs) = (nothing_said, unsettled (cs ++ c ∷ []))
  spec (subscribe c) (settled t cs) = (nothing_said, settled t (cs ++ c ∷ []))
  spec (unsubscribe c) (unsettled cs) =
      let left = without V E C nothing same c cs in
      (removed (length cs - length left), unsettled left)
  spec (unsubscribe c) (settled t cs) = (removed 0, settled t cs)

  unfoldable pub spec_all : List Op → Promise → List A × Promise
  unfolding spec
  spec_all [] p = ([], p)
  spec_all (op ∷ ops) p =
      let (a, p') = spec op p in let (as', p'') = spec_all ops p' in (a ∷ as', p'')

  -- What `result` says, and who was told, once each.
  abbrev pub result_of : Promise → Outcome (FutureError V E C nothing same) V
  result_of (unsettled cs) = err invalid_state
  result_of (settled (returned v) cs) = ok v
  result_of (settled (failed e) cs) = err (raised e)
  result_of (settled dropped cs) = err cancelled_error

  abbrev pub told : Promise → List C
  told (unsettled cs) = []
  told (settled s cs) = cs

  abbrev to_tell : Promise → List C
  to_tell (unsettled cs) = cs
  to_tell (settled s cs) = []

  abbrev state_of : Settled → State
  state_of (returned v) = finished
  state_of (failed e) = finished
  state_of dropped = cancelled

  abbrev value_of : Settled → V
  value_of (returned v) = v
  value_of _ = nothing

  abbrev failure_of : Settled → Option E
  failure_of (failed e) = some e
  failure_of _ = none

  abbrev shown : Promise → F
  shown (unsettled cs) = record { state = pending; value = nothing; failure = none; callbacks = cs }
  shown (settled s cs) = record {
    state = state_of s;
    value = value_of s;
    failure = failure_of s;
    callbacks = [];
  }

  record Tells (op : Op) (p : Promise) : Type 0 where
    now : List C
    run : perform op (shown p) ≡ ((spec op p).0, shown (spec op p).1, now)
    all_told : told p ++ now ≡ told (spec op p).1

  record TellsAll (ops : List Op) (p : Promise) : Type 0 where
    now : List C
    run : perform_all ops (shown p) ≡ ((spec_all ops p).0, shown (spec_all ops p).1, now)
    all_told : told p ++ now ≡ told (spec_all ops p).1
