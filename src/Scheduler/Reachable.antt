-- ===== src/Scheduler/Reachable.antt =====
-- Each step of the system keeps every process proper.
use pythonos.Prelude.{
  ℕ, ◌+◌, ◌<◌, ◌≤◌, ◌≡◌, ◌≢◌, ◌∙◌, refl, sym, ap, subst, List, [], ◌∷◌, ◌++◌, All, Option, none,
  some, Bool, true, false, Bool-cases, ◌⊎◌, inl, inr, lookup, insert, erase, lookup-insert,
  lookup-erase, Eq-ℕ, arith, String, ◌==◌,
}
use pythonos.Scheduler.{
  Process, name_or, World, Callback, Task, Ending, ProcessState, running, sleeping, zombie, done,
  spawn, kill, kill_found, reap, reap_found, tick, finish, finish_found, cancel,
}
use pythonos.Scheduler.Ticks.{
  tick-IsAccounted, spawn-IsAccounted, kill_found-IsAccounted, reap_found-IsAccounted,
  finish-IsAccounted,
}
use pythonos.Scheduler.Lifecycle.{
  Step, spawns, kills, reaps, ticks, ends, runs, Reach, start, next, Owes, Agrees, IsProper,
  IsValid, done-cancel, done-spawn, done-ends, lookup-credit, Owes-remove,
}

-- A process stays proper where pids only grow, tasks stay done and its callback stays owed.
carry :
    (w w' : World) (k : ℕ) (p q : Process)
    → w.next_pid ≤ w'.next_pid
    → (done p.task w ≡ true → done p.task w' ≡ true)
    → (Owes k p.task w.owed → Owes k p.task w'.owed)
    → (Agrees k p.task w.owed → Agrees k p.task w'.owed)
    → (q.pid ≡ p.pid) × (q.task ≡ p.task) × (q.state ≡ p.state)
    → IsProper w k p
    → IsProper w' k q
carry w w' k p q pids finished owed agree same h = record {
  keyed = same.0 ∙ h.keyed;
  below = omega (arith, h.below);
  zombie_done = λ z. rw same.1 (finished (h.zombie_done (sym same.2 ∙ z)));
  awaited = λ z. rw same.1 (owed (h.awaited (λ e. z (same.2 ∙ e))));
  agrees = rw same.1 (agree h.agrees);
}

Agrees-fresh : (k t : ℕ) (cs : List Callback) → All (λ c. c.pid < k) cs → Agrees k t cs
Agrees-fresh k t [] h = tt
Agrees-fresh k t (c ∷ cs) h = ((λ e. absurd (omega arith)), Agrees-fresh k t cs h.1)

Agrees-remove :
    (k t : ℕ) (c : Callback) (xs ys : List Callback)
    → Agrees k t (xs ++ c ∷ ys)
    → (c.pid ≡ k → c.task ≡ t) × Agrees k t (xs ++ ys)
Agrees-remove k t c [] ys h = h
Agrees-remove k t c (x ∷ xs) ys h = let (a, b) = Agrees-remove k t c xs ys h.1 in (a, (h.0, b))

spawns-IsProper :
    (t : ℕ) (n : Option String) (d : String) (auto : Bool) (w : World)
    → lookup t w.tasks ≡ none
    → IsValid w
    → (k : ℕ) (p : Process) → lookup k (spawn t n d auto w).1.processes ≡ some p
    → IsProper (spawn t n d auto w).1 k p
unfolding spawn
spawns-IsProper t n d auto w fresh v k p h =
    let new : Process = record {
      pid = w.next_pid;
      name = name_or n d;
      task = t;
      state = running;
      ticks = 0;
    } in
    elim (Bool-cases (w.next_pid == k)) [
      | inl e ↦
          let same : new ≡ p = ground (arith, lookup-insert w.next_pid k new w.processes) in
          let is_k : w.next_pid ≡ k = ground arith in
          record {
            keyed = ap (λ (q : Process). q.pid) (sym same) ∙ is_k;
            below = omega (arith, is_k);
            zombie_done = λ z. ground (arith, same);
            awaited = λ z. inl (is_k, ap (λ (q : Process). q.task) same);
            agrees = (
              λ f. ap (λ (q : Process). q.task) same,
              Agrees-fresh k p.task w.owed (rw is_k at v.fresh),
            );
          }
      | inr e ↦
          carry w (spawn t n d auto w).1 k p p (omega arith) (done-spawn t p.task n d auto w fresh)
            inr (λ a. ((λ f. ground (arith, f)), a)) (refl, refl, refl)
            (v.proper k p (ground (arith, lookup-insert w.next_pid k new w.processes)))
    ]

credit-IsProper :
    (w : World)
    → IsValid w
    → (k : ℕ) (q : Process) → lookup k (tick w).processes ≡ some q
    → IsProper (tick w) k q
unfolding tick
credit-IsProper w v k q h =
    let (p, e, a, b, c) = lookup-credit (λ t. done t w) k q w.processes h in
    carry w (tick w) k p q (omega arith) (λ f. f) (λ o. o) (λ o. o) (a, b, c) (v.proper k p e)

kill_found-IsProper :
    (o : Option Process) (w : World)
    → IsValid w
    → (k : ℕ) (p : Process) → lookup k (kill_found o w).processes ≡ some p
    → IsProper (kill_found o w) k p
unfolding kill_found
kill_found-IsProper none w v k p h = v.proper k p h
kill_found-IsProper (some r) w v k p h = elim (Bool-cases (done r.task w)) [
  | inl e ↦ rw e (v.proper k p (rw e at h))
  | inr e ↦ rw e (
      carry w (record w { tasks = cancel r.task w.tasks }) k p p (omega arith)
        (λ f. done-cancel p.task r.task w ∙ f) (λ o. o) (λ o. o) (refl, refl, refl)
        (v.proper k p (rw e at h)))
]

reap_found-IsProper :
    (pid : ℕ) (o : Option Process) (w : World)
    → IsValid w
    → (k : ℕ) (p : Process) → lookup k (reap_found pid o w).1.processes ≡ some p
    → IsProper (reap_found pid o w).1 k p
unfolding reap_found
reap_found-IsProper pid none w v k p h = v.proper k p h
reap_found-IsProper pid (some r) w v k p h = elim (Bool-cases (done r.task w)) [
  | inl e ↦
      let there : lookup k w.processes ≡ some p = ground (arith, lookup-erase pid k w.processes) in
      rw e (
        carry w (record w { scheduler = record w.scheduler { processes = erase pid w.processes } })
          k p p (omega arith) (λ f. f) (λ o. o) (λ o. o) (refl, refl, refl) (v.proper k p there))
  | inr e ↦ rw e (v.proper k p (rw e at h))
]

ends-IsProper :
    (t : ℕ) (j : Task) (e : Ending) (w : World)
    → IsValid w
    → (k : ℕ) (p : Process) → lookup k w.processes ≡ some p
    → IsProper (record w { tasks = insert t (record j { ending = some e }) w.tasks }) k p
ends-IsProper t j e w v k p h =
    carry w _ k p p (omega arith) (done-ends t p.task j e w) (λ o. o) (λ o. o) (refl, refl, refl)
      (v.proper k p h)

-- The process of the callback is a zombie, or gone; the others keep what they are owed.
runs-IsProper :
    (c : Callback) (xs ys : List Callback) (o : Option Process) (w : World)
    → w.owed ≡ xs ++ c ∷ ys
    → done c.task w ≡ true
    → lookup c.pid w.processes ≡ o
    → IsValid w
    → (k : ℕ) (p : Process) → lookup k (finish_found c.pid c.auto_reap o w.processes) ≡ some p
    → IsProper (finish c (record w { owed = xs ++ ys })) k p
unfolding finish finish_found
runs-IsProper c xs ys none w e d l v k p h =
    let there = v.proper k p h in
    carry w _ k p p (omega arith) (λ f. f)
      (λ o. Owes-remove k p.task c xs ys (rw e at o) (λ f. ground (arith, f, l, h)))
      (λ a. (Agrees-remove k p.task c xs ys (rw e at a)).1) (refl, refl, refl) there
runs-IsProper c xs ys (some r) w e d l v k p h = elim (Bool-cases (c.pid == k)) [
  | inl at ↦
      let ck : c.pid ≡ k = ground arith in
      let z : Process = record r { state = zombie } in
      let same : z ≡ p = ground (
        arith,
        lookup-insert c.pid k z w.processes,
        lookup-erase c.pid k (insert c.pid z w.processes),
      ) in
      let there = v.proper c.pid r l in
      let (t, a) = Agrees-remove c.pid r.task c xs ys (rw e at there.agrees) in
      subst (IsProper (finish c (record w { owed = xs ++ ys })) k) same (record {
        keyed = there.keyed ∙ ck;
        below = omega (arith, there.below, ck);
        zombie_done = λ _. subst (λ u. done u w ≡ true) (t refl) d;
        awaited = λ f. absurd (f refl);
        agrees = subst (λ j. Agrees j r.task (xs ++ ys)) ck a;
      })
  | inr off ↦
      let z : Process = record r { state = zombie } in
      let there : lookup k w.processes ≡ some p = ground (
        arith,
        lookup-insert c.pid k z w.processes,
        lookup-erase c.pid k (insert c.pid z w.processes),
      ) in
      carry w _ k p p (omega arith) (λ f. f)
        (λ o. Owes-remove k p.task c xs ys (rw e at o) (λ f. ground (arith, f)))
        (λ a. (Agrees-remove k p.task c xs ys (rw e at a)).1) (refl, refl, refl)
        (v.proper k p there)
]

kill_found-fresh :
    (o : Option Process) (w : World)
    → All (λ c. c.pid < w.next_pid) w.owed
    → All (λ c. c.pid < (kill_found o w).next_pid) (kill_found o w).owed
unfolding kill_found
kill_found-fresh none w h = h
kill_found-fresh (some p) w h = elim (Bool-cases (done p.task w)) [
  | inl e ↦ rw e h
  | inr e ↦ rw e h
]

reap_found-fresh :
    (pid : ℕ) (o : Option Process) (w : World)
    → All (λ c. c.pid < w.next_pid) w.owed
    → All (λ c. c.pid < (reap_found pid o w).1.next_pid) (reap_found pid o w).1.owed
unfolding reap_found
reap_found-fresh pid none w h = h
reap_found-fresh pid (some p) w h = elim (Bool-cases (done p.task w)) [
  | inl e ↦ rw e h
  | inr e ↦ rw e h
]

All-weaken :
    (m n : ℕ) (cs : List Callback) → m ≤ n → All (λ c. c.pid < m) cs → All (λ c. c.pid < n) cs
All-weaken m n [] le h = tt
All-weaken m n (c ∷ cs) le h = (omega arith, All-weaken m n cs le h.1)

All-remove :
    (P : Callback → Type 0) (c : Callback) (xs ys : List Callback)
    → All P (xs ++ c ∷ ys)
    → All P (xs ++ ys)
All-remove P c [] ys h = h.1
All-remove P c (x ∷ xs) ys h = (h.0, All-remove P c xs ys h.1)

-- Every step of the scheduler and of the loop keeps the system valid.
pub Step-IsValid : {w w' : World} → Step w w' → IsValid w → IsValid w'
Step-IsValid {w} (spawns t n d auto fresh) v = record {
  proper = spawns-IsProper t n d auto w fresh v;
  accounted = spawn-IsAccounted t n d auto w v.accounted;
  fresh =
      unfold spawn in
      (omega arith, All-weaken w.next_pid (w.next_pid + 1) w.owed (omega arith) v.fresh);
}
Step-IsValid {w} (kills pid) v =
    unfold kill in
    record {
      proper = kill_found-IsProper (lookup pid w.processes) w v;
      accounted = kill_found-IsAccounted (lookup pid w.processes) w v.accounted;
      fresh = kill_found-fresh (lookup pid w.processes) w v.fresh;
    }
Step-IsValid {w} (reaps pid) v =
    unfold reap in
    record {
      proper = reap_found-IsProper pid (lookup pid w.processes) w v;
      accounted = reap_found-IsAccounted pid (lookup pid w.processes) w v.accounted;
      fresh = reap_found-fresh pid (lookup pid w.processes) w v.fresh;
    }
Step-IsValid {w} ticks v = record {
  proper = credit-IsProper w v;
  accounted = tick-IsAccounted w v.accounted;
  fresh = unfold tick in v.fresh;
}
Step-IsValid {w} (ends t k e there) v = record {
  proper = ends-IsProper t k e w v;
  accounted = v.accounted;
  fresh = v.fresh;
}
Step-IsValid {w} (runs c xs ys e d) v = record {
  proper = λ k p h.
      runs-IsProper c xs ys (lookup c.pid w.processes) w e d refl v k p (unfold finish in h);
  accounted = finish-IsAccounted c (record w { owed = xs ++ ys }) v.accounted;
  fresh = unfold finish in All-remove (λ b. b.pid < w.next_pid) c xs ys (rw e at v.fresh);
}

-- In every state that the scheduler and the loop can reach: a process stands under its own pid, below
-- the next one; a zombie's task has ended; a process that is no zombie has its callback still to
-- run; and the ticks credited are at most the timer interrupts counted.
pub Reach-IsValid : {w : World} → Reach w → IsValid w
Reach-IsValid start = record {
  proper = λ k p h. absurd (unfold lookup in cc h);
  accounted = omega arith;
  fresh = tt;
}
Reach-IsValid (next r s) = Step-IsValid s (Reach-IsValid r)

zombie-cases : (s : ProcessState) → (s ≡ zombie) ⊎ (s ≢ zombie)
zombie-cases running = inr (λ e. cc)
zombie-cases sleeping = inr (λ e. cc)
zombie-cases zombie = inl refl

owed_running :
    (w : World) (k t : ℕ) (cs : List Callback)
    → All (λ c. done c.task w ≡ false) cs
    → Owes k t cs
    → done t w ≡ false
owed_running w k t [] quiet o = absurd o
owed_running w k t (c ∷ cs) quiet (inl e) = subst (λ u. done u w ≡ false) e.1 quiet.0
owed_running w k t (c ∷ cs) quiet (inr o) = owed_running w k t cs quiet.1 o

-- When no owed callback has an ended task any more, a process is a zombie exactly when its task has
-- ended: no exit is lost, and none is made up.
pub quiet_exact :
    {w : World}
    → Reach w
    → All (λ c. done c.task w ≡ false) w.owed
    → (k : ℕ) (p : Process) → lookup k w.processes ≡ some p
    → (p.state ≡ zombie → done p.task w ≡ true) × (done p.task w ≡ true → p.state ≡ zombie)
quiet_exact {w} r quiet k p h =
    let proper = (Reach-IsValid r).proper k p h in
    (
      proper.zombie_done,
      λ d. elim (zombie-cases p.state) [
        | inl z ↦ z
        | inr live ↦ absurd (cc (d, owed_running w k p.task w.owed quiet (proper.awaited live)))
      ],
    )
