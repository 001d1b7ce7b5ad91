-- ===== src/Scheduler/Lifecycle.antt =====
-- The scheduler and the event loop as one system: its steps, and the invariant of its reachable states.
use pythonos.Prelude.{
  ℕ, ◌<◌, ◌≡◌, ◌≢◌, refl, List, [], ◌∷◌, ◌++◌, All, Option, none, some, Bool, true, false, ◌&&◌,
  not, Option-cases, Bool-cases, ◌⊎◌, inl, inr, Dict, lookup, insert, lookup-insert, Eq-ℕ, arith,
  String, ◌==◌,
}
use pythonos.Scheduler.{
  Process, World, Callback, Task, Ending, zombie, is_running, init, done, done_in, spawn, kill,
  reap, credit, tick, finish, cancel,
}
use pythonos.Scheduler.Ticks.{IsAccounted}

-- The loop ends a task; the methods of the scheduler are called; an owed callback of a task that is
-- done runs, in whatever order.
pub data Step (w : World) : World → Type 0 where
  spawns :
      (t : ℕ) (n : Option String) (d : String) (auto : Bool)
      → lookup t w.tasks ≡ none
      → Step w (spawn t n d auto w).1
  kills : (pid : ℕ) → Step w (kill pid w)
  reaps : (pid : ℕ) → Step w (reap pid w).1
  ticks : Step w (tick w)
  ends :
      (t : ℕ) (k : Task) (e : Ending)
      → lookup t w.tasks ≡ some k
      → Step w (record w { tasks = insert t (record k { ending = some e }) w.tasks })
  runs :
      (c : Callback) (before after : List Callback)
      → w.owed ≡ before ++ c ∷ after
      → done c.task w ≡ true
      → Step w (finish c (record w { owed = before ++ after }))

pub data Reach : World → Type 0 where
  start : Reach init
  next : {v w : World} → Reach v → Step v w → Reach w

-- A callback for this process and task is still to run.
abbrev pub Owes : ℕ → ℕ → List Callback → Type 0
Owes pid t [] = ⊥
Owes pid t (c ∷ cs) = ((c.pid ≡ pid) × (c.task ≡ t)) ⊎ Owes pid t cs

-- Every callback for this process is on its task.
abbrev pub Agrees : ℕ → ℕ → List Callback → Type 0
Agrees pid t [] = Unit {0}
Agrees pid t (c ∷ cs) = (c.pid ≡ pid → c.task ≡ t) × Agrees pid t cs

-- What holds of the process at a key of the table.
pub record IsProper (w : World) (k : ℕ) (p : Process) : Type 0 where
  pub keyed : p.pid ≡ k
  pub below : k < w.next_pid
  pub zombie_done : p.state ≡ zombie → done p.task w ≡ true
  pub awaited : p.state ≢ zombie → Owes k p.task w.owed
  pub agrees : Agrees k p.task w.owed

pub record IsValid (w : World) : Type 0 where
  pub proper : (k : ℕ) (p : Process) → lookup k w.processes ≡ some p → IsProper w k p
  pub accounted : IsAccounted w
  pub fresh : All (λ c. c.pid < w.next_pid) w.owed

pub done-cancel : (t u : ℕ) (w : World) → done t (record w { tasks = cancel u w.tasks }) ≡ done t w
unfolding done_in cancel
done-cancel t u w = elim (Option-cases (lookup u w.tasks)) [
  | inl e ↦ ground (arith, e)
  | inr (k, e) ↦
      ground
        (arith, lookup-insert u t (record { ending = k.ending; must_cancel = true }) w.tasks, e)
]

pub done-spawn :
    (t u : ℕ) (n : Option String) (d : String) (auto : Bool) (w : World)
    → lookup t w.tasks ≡ none
    → done u w ≡ true
    → done u (spawn t n d auto w).1 ≡ true
unfolding done_in spawn
done-spawn t u n d auto w e h =
    ground (arith, lookup-insert t u (record { ending = none; must_cancel = false }) w.tasks)

pub done-ends :
    (t u : ℕ) (k : Task) (e : Ending) (w : World)
    → done u w ≡ true
    → done u (record w { tasks = insert t (record k { ending = some e }) w.tasks }) ≡ true
unfolding done_in
done-ends t u k e w h = ground (arith, lookup-insert t u (record k { ending = some e }) w.tasks)

-- A credited process keeps all but its ticks.
pub lookup-credit :
    (d : ℕ → Bool) (k : ℕ) (q : Process) (ps : Dict ℕ Process)
    → lookup k (credit d ps) ≡ some q
    → (p : Process) × (lookup k ps ≡ some p)
      × (q.pid ≡ p.pid)
      × (q.task ≡ p.task)
      × (q.state ≡ p.state)
unfolding credit lookup
lookup-credit d k q [] h = cc
lookup-credit d k q ((j, p) ∷ ps) h = elim (Bool-cases (is_running p.state && not (d p.task))) [
  | inl t ↦ elim (Bool-cases (j == k)) [
    | inl e ↦ (p, ground arith, ground arith, ground arith, ground arith)
    | inr e ↦ (q, ground arith, refl, refl, refl)
  ]
  | inr t ↦ elim (Bool-cases (j == k)) [
    | inl e ↦ (p, ground arith, ground arith, ground arith, ground arith)
    | inr e ↦
        let (r, f, a, b, c) = lookup-credit d k q ps (ground arith) in (r, ground arith, a, b, c)
  ]
]

pub Owes-remove :
    (k t : ℕ) (c : Callback) (xs ys : List Callback)
    → Owes k t (xs ++ c ∷ ys)
    → c.pid ≢ k
    → Owes k t (xs ++ ys)
Owes-remove k t c [] ys (inl e) ne = absurd (ne e.0)
Owes-remove k t c [] ys (inr o) ne = o
Owes-remove k t c (x ∷ xs) ys (inl e) ne = inl e
Owes-remove k t c (x ∷ xs) ys (inr o) ne = inr (Owes-remove k t c xs ys o ne)
