-- ===== src/Asyncio/Locks/Defs.antt =====
-- `Event`, `Lock` and `Semaphore`. A coroutine is cut where it waits: `try_wait` and `try_acquire` run from
-- the test to the wait or the end, and `acquire_woken` is what follows the wait.
use pythonos.Prelude.{
  ℕ, ◌+◌, ◌-◌, List, [], ◌∷◌, ◌++◌, Option, none, some, Bool, true, false, ◌==◌, if◌then◌else◌,
  Outcome, ok, err, Eq-ℕ,
}
use pythonos.Asyncio.Waiters.{
  finished, Board, no_futures, waits, signal, create_future, cancel_future, without,
}

-- What a coroutine has come to: it waits for a future, or it has ended.
pub data Turn : Type 0 where
  waiting : ℕ → Turn
  ended : Turn

-- The first of the futures that is not done.
unfoldable pub first_pending : List ℕ → Board → Option ℕ
first_pending [] b = none
first_pending (f ∷ fs) b = let rest = first_pending fs b in if waits f b then some f else rest

-- The loop of `Event.set`.
unfoldable pub finish_all : List ℕ → Board → Board
finish_all [] b = b
finish_all (f ∷ fs) b = finish_all fs (if waits f b then signal f finished b else b)

pub record Event : Type 0 where
  pub flag : Bool
  pub waiters : List ℕ
  pub board : Board

abbrev pub new_event : Event
new_event = record { flag = false; waiters = []; board = no_futures }

unfoldable pub set_event : Event → Event
unfolding finish_all
set_event e =
    if e.flag then e else record { flag = true; waiters = []; board = finish_all e.waiters e.board }

abbrev pub clear_event : Event → Event
clear_event e = record e { flag = false }

unfoldable pub try_wait : Event → Turn × Event
try_wait e = if e.flag then (ended, e) else (
  waiting e.board.next,
  record e { waiters = e.waiters ++ e.board.next ∷ []; board = create_future e.board },
)

-- The task is cancelled at the wait.
unfoldable pub cancel_wait : ℕ → Event → Event
unfolding without
cancel_wait f e = record e { waiters = without f e.waiters; board = cancel_future f e.board }

pub record Lock : Type 0 where
  pub is_locked : Bool
  pub waiters : List ℕ
  pub board : Board

abbrev pub new_lock : Lock
new_lock = record { is_locked = false; waiters = []; board = no_futures }

pub data LockError : Type 0 where
  not_acquired : LockError

unfoldable pub try_acquire : Lock → Turn × Lock
try_acquire l =
    if l.is_locked
    then (
      waiting l.board.next,
      record l { waiters = l.waiters ++ l.board.next ∷ []; board = create_future l.board },
    )
    else (ended, record l { is_locked = true })

abbrev pub acquire_woken : Lock → Lock
acquire_woken l = record l { is_locked = true }

unfoldable pub cancel_acquire : ℕ → Lock → Lock
unfolding without
cancel_acquire f l = record l { waiters = without f l.waiters; board = cancel_future f l.board }

unfoldable pub wake_first : Option ℕ → Lock → Lock
unfolding without
wake_first none l = l
wake_first (some f) l = record l {
  waiters = without f l.waiters;
  board = signal f finished l.board;
}

unfoldable pub release : Lock → Outcome LockError (Unit {0}) × Lock
unfolding wake_first first_pending
release l =
    if l.is_locked
    then (ok tt, wake_first (first_pending l.waiters l.board) (record l { is_locked = false }))
    else (err not_acquired, l)

pub record Semaphore : Type 0 where
  pub value : ℕ
  pub waiters : List ℕ
  pub board : Board

-- `Semaphore(value)`; a negative value raises.
abbrev pub new_semaphore : ℕ → Semaphore
new_semaphore n = record { value = n; waiters = []; board = no_futures }

unfoldable pub try_take : Semaphore → Turn × Semaphore
try_take s =
    if s.value == 0
    then (
      waiting s.board.next,
      record s { waiters = s.waiters ++ s.board.next ∷ []; board = create_future s.board },
    )
    else (ended, record s { value = s.value - 1 })

unfoldable pub cancel_take : ℕ → Semaphore → Semaphore
unfolding without
cancel_take f s = record s { waiters = without f s.waiters; board = cancel_future f s.board }

-- The future that is woken stays in the list.
unfoldable pub finish_first : Option ℕ → Board → Board
finish_first none b = b
finish_first (some f) b = signal f finished b

unfoldable pub give_back : Semaphore → Semaphore
unfolding finish_first first_pending
give_back s = record s {
  value = s.value + 1;
  board = finish_first (first_pending s.waiters s.board) s.board;
}
