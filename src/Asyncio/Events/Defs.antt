-- ===== src/Asyncio/Events/Defs.antt =====
-- `_Handle` and `BareMetalEventLoop`. Times are whole clock ticks. What a callback does to the loop is
-- a parameter, as the list of the calls that it makes; a callback that raises stops calling, and
-- the loop writes a message and goes on.
use pythonos.Prelude.{
  ℕ, zero, suc, ◌+◌, List, [], ◌∷◌, ◌++◌, Bool, true, false, ◌||◌, leb, ◌==◌, if◌then◌else◌, length,
}

module _ (C : Type 0) where
  -- `_Handle`: which one it is, and its function with arguments.
  pub record Handle : Type 0 where
    pub id : ℕ
    pub fn : C

  -- `BareMetalEventLoop`: `cancelled` has the handles whose `_cancelled` is set, and `taken` those that
  -- were taken from `_ready` to be run, oldest first.
  pub record Loop : Type 0 where
    pub ready : List Handle
    pub scheduled : List (ℕ × Handle)
    pub stopping : Bool
    pub next_id : ℕ
    pub cancelled : List ℕ
    pub taken : List Handle

  abbrev pub new_loop : Loop
  new_loop = record {
    ready = [];
    scheduled = [];
    stopping = false;
    next_id = 0;
    cancelled = [];
    taken = [];
  }

  unfoldable pub call_soon : C → Loop → Loop
  call_soon fn l = record l {
    ready = l.ready ++ record { id = l.next_id; fn = fn } ∷ [];
    next_id = l.next_id + 1;
  }

  -- The loop of `call_at`, and `insert`.
  unfoldable pub insert_at : ℕ → Handle → List (ℕ × Handle) → List (ℕ × Handle)
  insert_at at h [] = (at, h) ∷ []
  insert_at at h ((t, g) ∷ s) = if leb t at then (t, g) ∷ insert_at at h s else (at, h) ∷ (t, g) ∷ s

  unfoldable pub call_at : ℕ → C → Loop → Loop
  unfolding insert_at
  call_at at fn l = record l {
    scheduled = insert_at at (record { id = l.next_id; fn = fn }) l.scheduled;
    next_id = l.next_id + 1;
  }

  unfoldable pub call_later : ℕ → ℕ → C → Loop → Loop
  unfolding call_at
  call_later now delay fn l = call_at (now + delay) fn l

  abbrev pub cancel : ℕ → Loop → Loop
  cancel id l = record l { cancelled = id ∷ l.cancelled }

  abbrev pub stop : Loop → Loop
  stop l = record l { stopping = true }

  -- The calls that a callback or an interrupt handler can make; `close`, which drops everything, is not
  -- among them. `later` comes with the time that its call reads.
  pub data Call : Type 0 where
    soon : C → Call
    at : ℕ → C → Call
    later : ℕ → ℕ → C → Call
    cancelling : ℕ → Call
    stopping_it : Call

  unfoldable pub make_call : Call → Loop → Loop
  unfolding call_soon call_later call_at
  make_call (soon fn) l = call_soon fn l
  make_call (at time fn) l = call_at time fn l
  make_call (later now delay fn) l = call_later now delay fn l
  make_call (cancelling id) l = cancel id l
  make_call stopping_it l = stop l

  unfoldable pub make_calls : List Call → Loop → Loop
  unfolding make_call
  make_calls [] l = l
  make_calls (c ∷ cs) l = make_calls cs (make_call c l)

  abbrev pub mentions : ℕ → List ℕ → Bool
  mentions id [] = false
  mentions id (i ∷ is) = i == id || mentions id is

  -- The loop that promotes: the handles that are due, and what stays scheduled.
  unfoldable pub due : ℕ → List (ℕ × Handle) → List Handle
  due now [] = []
  due now ((t, h) ∷ s) = let rest = due now s in if leb t now then h ∷ rest else []

  unfoldable pub not_due : ℕ → List (ℕ × Handle) → List (ℕ × Handle)
  not_due now [] = []
  not_due now ((t, h) ∷ s) = let rest = not_due now s in if leb t now then rest else (t, h) ∷ s

  unfoldable pub promote : ℕ → Loop → Loop
  unfolding due not_due
  promote now l = record l {
    ready = l.ready ++ due now l.scheduled;
    scheduled = not_due now l.scheduled;
  }

  module _ (acts : C → Loop → List Call) where
    -- `_Handle._run`.
    unfoldable pub run_handle : Handle → Loop → Loop
    unfolding make_calls
    run_handle h l = if mentions h.id l.cancelled then l else make_calls (acts h.fn l) l

    -- The loop over the handles that were ready when it began.
    unfoldable pub run_ready : ℕ → Loop → Loop
    unfolding run_handle
    run_ready zero l = l
    run_ready (suc n) l = elim l.ready [
      | [] ↦ l
      | h ∷ hs ↦ run_ready n (run_handle h (record l { ready = hs; taken = l.taken ++ h ∷ [] }))
    ]

    -- `_run_once`, at the time `now`, with the calls of the interrupt handlers that are drained first.
    unfoldable pub run_once : ℕ → List Call → Loop → Loop
    unfolding make_calls promote run_ready
    run_once now interrupts l =
        let p = promote now (make_calls interrupts l) in run_ready (length p.ready) p

    -- The loop of `run_until_complete`, for as many rounds as there are clock readings: it ends when the
    -- future is done or `stop` was called.
    unfoldable pub run_rounds : (Loop → Bool) → List (ℕ × List Call) → Loop → Loop
    unfolding run_once
    run_rounds done [] l = l
    run_rounds done ((now, interrupts) ∷ rounds) l =
        if done l || l.stopping then l else run_rounds done rounds (run_once now interrupts l)
