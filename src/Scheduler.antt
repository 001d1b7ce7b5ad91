-- ===== src/Scheduler.antt =====
-- kernel/scheduler.py: the process table, the timer tick, and the life of a process. A task is named
-- by a number; the event loop is the environment, which ends tasks and later runs the callbacks
-- that `spawn` has registered on them.
pub mod Lifecycle
mod Ticks
pub mod Reachable
mod Tests
use pythonos.Prelude.{
  ℕ, zero, suc, ◌+◌, ◌*◌, ◌/◌, List, [], ◌∷◌, Option, none, some, Bool, true, false, ◌&&◌, not,
  if◌then◌else◌, String, Dict, lookup, insert, erase, values, Eq-ℕ,
}

pub data ProcessState : Type 0 where
  running sleeping zombie : ProcessState

abbrev pub is_running : ProcessState → Bool
is_running running = true
is_running _ = false

pub record Process : Type 0 where
  pub pid : ℕ
  pub name : String
  pub task : ℕ
  pub state : ProcessState
  pub ticks : ℕ

-- `_ticks` counts the timer interrupts.
pub record Scheduler : Type 0 where
  pub processes : Dict ℕ Process
  pub next_pid : ℕ
  pub tick_count : ℕ

-- How a task ended: with a result, by an exception, or cancelled.
pub data Ending : Type 0 where
  returned raised cancelled : Ending

-- A task of the event loop: how it ended, if it did, and whether it was asked to stop.
pub record Task : Type 0 where
  pub ending : Option Ending
  pub must_cancel : Bool

-- The callback that `spawn` adds to its task: `_finish(pid, task, auto_reap)`.
pub record Callback : Type 0 where
  pub pid : ℕ
  pub task : ℕ
  pub auto_reap : Bool

-- The scheduler with the tasks and callbacks of the loop. A callback is `owed` until it has run.
pub record World : Type 0 where
  pub scheduler : Scheduler
  pub open scheduler use *
  pub tasks : Dict ℕ Task
  pub owed : List Callback

abbrev pub init : World
init = record {
  scheduler = record { processes = []; next_pid = 1; tick_count = 0 };
  tasks = [];
  owed = [];
}

-- `task.done()`.
unfoldable pub done_in : ℕ → Dict ℕ Task → Bool
done_in t tasks = elim (lookup t tasks) [
  | none ↦ false
  | some k ↦ elim k.ending [ none ↦ false | some e ↦ true ]
]

abbrev pub done : ℕ → World → Bool
done t w = done_in t w.tasks

-- `name or f"proc-{pid}"`, the default given: an empty name takes it, too.
abbrev pub name_or : Option String → String → String
name_or none d = d
name_or (some String.[]) d = d
name_or (some n) d = n

-- `task` is the new task that `ensure_future` makes.
unfoldable pub spawn : ℕ → Option String → String → Bool → World → ℕ × World
spawn task name default auto_reap w =
    let pid = w.next_pid in
    (
      pid,
      record {
        scheduler = record {
          processes =
              insert pid
                (record {
                  pid = pid;
                  name = name_or name default;
                  task = task;
                  state = running;
                  ticks = 0;
                })
                w.processes;
          next_pid = pid + 1;
          tick_count = w.tick_count;
        };
        tasks = insert task (record { ending = none; must_cancel = false }) w.tasks;
        owed = record { pid = pid; task = task; auto_reap = auto_reap } ∷ w.owed;
      },
    )

unfoldable pub cancel : ℕ → Dict ℕ Task → Dict ℕ Task
cancel t tasks = elim (lookup t tasks) [
  | none ↦ tasks
  | some k ↦ insert t (record { ending = k.ending; must_cancel = true }) tasks
]

unfoldable pub kill_found : Option Process → World → World
unfolding done_in cancel
kill_found none w = w
kill_found (some p) w = if done p.task w then w else record w { tasks = cancel p.task w.tasks }

unfoldable pub kill : ℕ → World → World
unfolding kill_found
kill pid w = kill_found (lookup pid w.processes) w

unfoldable pub ps : World → List Process
ps w = values w.processes

unfoldable pub reap_found : ℕ → Option Process → World → Option Process × World
unfolding done_in
reap_found pid none w = (none, w)
reap_found pid (some p) w =
    if done p.task w
    then (some p, record w { scheduler = record w.scheduler { processes = erase pid w.processes } })
    else (none, w)

unfoldable pub reap : ℕ → World → Option Process × World
unfolding reap_found
reap pid w = reap_found pid (lookup pid w.processes) w

-- The loop of `tick`: the first running process whose task is not done is credited.
unfoldable pub credit : (ℕ → Bool) → Dict ℕ Process → Dict ℕ Process
credit is_done [] = []
credit is_done ((k, p) ∷ ps) =
    if is_running p.state && not (is_done p.task)
    then (k, record p { ticks = p.ticks + 1 }) ∷ ps
    else (k, p) ∷ credit is_done ps

unfoldable pub tick : World → World
unfolding credit done_in
tick w = record w {
  scheduler = record {
    processes = credit (λ t. done t w) w.processes;
    next_pid = w.next_pid;
    tick_count = w.tick_count + 1;
  };
}

abbrev pub tick_hz : ℕ
tick_hz = 100

unfoldable pub uptime_ms : World → ℕ
uptime_ms w = w.tick_count * 1000 / tick_hz

unfoldable pub finish_found : ℕ → Bool → Option Process → Dict ℕ Process → Dict ℕ Process
finish_found pid auto_reap none ps = ps
finish_found pid auto_reap (some p) ps =
    let ps' = insert pid (record p { state = zombie }) ps in
    if auto_reap then erase pid ps' else ps'

-- `_finish`, run by the loop for an owed callback. (The log line about an exception is not modelled.)
unfoldable pub finish : Callback → World → World
unfolding finish_found
finish c w = record w {
  scheduler = record w.scheduler {
    processes = finish_found c.pid c.auto_reap (lookup c.pid w.processes) w.processes;
  };
}
