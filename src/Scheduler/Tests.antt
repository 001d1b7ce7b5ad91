-- ===== src/Scheduler/Tests.antt =====
-- The theorems on kernel/scheduler.py at concrete inputs, and a run.
use pythonos.Prelude.{◌≡◌, refl, [], ◌∷◌, none, some, true, false, lookup, insert, Eq-ℕ}
use pythonos.Scheduler.{
  Process, ProcessState, name_or, World, returned, running, zombie, init, done, done_in, spawn,
  tick, finish,
}
use pythonos.Scheduler.Lifecycle.{spawns, ticks, ends, runs, Reach, start, next, IsValid}
use pythonos.Scheduler.Reachable.{Reach-IsValid, quiet_exact}

abbrev spawned : World
spawned = (spawn 7 none "proc-1" false init).1

no_task : lookup 7 init.tasks ≡ none
unfolding lookup
no_task = refl

Reach-spawned : Reach spawned
Reach-spawned = next start (spawns 7 none "proc-1" false no_task)

Reach-IsValid_example : IsValid (tick spawned)
Reach-IsValid_example = Reach-IsValid (next Reach-spawned ticks)

abbrev shell : Process
shell = record { pid = 1; name = "proc-1"; task = 7; state = running; ticks = 0 }

tick_credits : (tick spawned).processes ≡ (1, record shell { ticks = 1 }) ∷ []
unfolding tick spawn insert lookup
tick_credits = refl

abbrev ended : World
ended = record spawned {
  tasks = insert 7 (record { ending = some returned; must_cancel = false }) spawned.tasks;
}

abbrev finished : World
finished = finish (record { pid = 1; task = 7; auto_reap = false }) (record ended { owed = [] })

Reach-finished : Reach finished
unfolding spawn done_in lookup insert
Reach-finished =
    next (next Reach-spawned (ends 7 (record { ending = none; must_cancel = false }) returned refl))
      (runs (record { pid = 1; task = 7; auto_reap = false }) [] [] refl refl)

at_one : lookup 1 finished.processes ≡ some (record shell { state = zombie })
unfolding spawn lookup insert finish
at_one = refl

quiet_exact_example :
    (◌≡◌ {A = ProcessState} zombie zombie → done 7 finished ≡ true)
    × (done 7 finished ≡ true → ◌≡◌ {A = ProcessState} zombie zombie)
unfolding finish spawn
quiet_exact_example = quiet_exact Reach-finished tt 1 (record shell { state = zombie }) at_one

-- An empty name is replaced by the default.
name_runs : (name_or (some "") "proc-1" ≡ "proc-1") × (name_or (some "sh") "proc-1" ≡ "sh")
name_runs = (refl, refl)
