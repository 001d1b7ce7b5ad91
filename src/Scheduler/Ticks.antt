-- ===== src/Scheduler/Ticks.antt =====
-- Accounting of the timer: no more ticks are credited than have arrived.
use pythonos.Prelude.{
  ℕ, ◌+◌, ◌≤◌, ◌≡◌, refl, [], ◌∷◌, Option, none, some, Bool, Dict, lookup, insert, erase, Eq-ℕ,
  arith, String,
}
use pythonos.Scheduler.{
  Process, World, Callback, zombie, done, spawn, kill_found, reap_found, credit, tick, finish,
  finish_found,
}

-- The ticks credited to the processes of the table.
abbrev pub credited : Dict ℕ Process → ℕ
credited [] = 0
credited ((k, p) ∷ ps) = p.ticks + credited ps

credited-credit : (d : ℕ → Bool) (ps : Dict ℕ Process) → credited (credit d ps) ≤ credited ps + 1
unfolding credit
credited-credit d [] = omega arith
credited-credit d ((k, p) ∷ ps) = ground (arith, credited-credit d ps)

credited-erase : (k : ℕ) (ps : Dict ℕ Process) → credited (erase k ps) ≤ credited ps
unfolding erase
credited-erase k [] = omega arith
credited-erase k ((j, p) ∷ ps) = ground (arith, credited-erase k ps)

-- Writing a record adds at most its ticks, and none if the old record at the key had them.
credited-insert :
    (k : ℕ) (q : Process) (ps : Dict ℕ Process) → credited (insert k q ps) ≤ credited ps + q.ticks
unfolding insert
credited-insert k q [] = omega arith
credited-insert k q ((j, p) ∷ ps) = ground (arith, credited-insert k q ps)

credited-insert_same :
    (k : ℕ) (p q : Process) (ps : Dict ℕ Process)
    → lookup k ps ≡ some p
    → q.ticks ≡ p.ticks
    → credited (insert k q ps) ≤ credited ps
unfolding insert lookup
credited-insert_same k p q [] e t = cc
credited-insert_same k p q ((j, r) ∷ ps) e t = ground (arith, credited-insert_same k p q ps)

finish_found-le :
    (pid : ℕ) (auto : Bool) (o : Option Process) (ps : Dict ℕ Process)
    → lookup pid ps ≡ o
    → credited (finish_found pid auto o ps) ≤ credited ps
unfolding finish_found
finish_found-le pid auto none ps e = omega arith
finish_found-le pid auto (some p) ps e =
    let q = record p { state = zombie } in
    ground (arith, credited-insert_same pid p q ps, credited-erase pid (insert pid q ps))

-- The credited ticks stay within the interrupts that arrived.
abbrev pub IsAccounted : World → Type 0
IsAccounted w = credited w.processes ≤ w.tick_count

pub tick-IsAccounted : (w : World) → IsAccounted w → IsAccounted (tick w)
unfolding tick
tick-IsAccounted w h = omega (arith, credited-credit (λ t. done t w) w.processes)

pub spawn-IsAccounted :
    (t : ℕ) (n : Option String) (d : String) (auto : Bool) (w : World)
    → IsAccounted w
    → IsAccounted (spawn t n d auto w).1
unfolding spawn
spawn-IsAccounted t n d auto w h = omega (arith, credited-insert w.next_pid _ w.processes)

pub kill_found-IsAccounted :
    (o : Option Process) (w : World) → IsAccounted w → IsAccounted (kill_found o w)
unfolding kill_found
kill_found-IsAccounted none w h = h
kill_found-IsAccounted (some p) w h = ground arith

pub reap_found-IsAccounted :
    (pid : ℕ) (o : Option Process) (w : World) → IsAccounted w → IsAccounted (reap_found pid o w).1
unfolding reap_found
reap_found-IsAccounted pid none w h = h
reap_found-IsAccounted pid (some p) w h = ground (arith, credited-erase pid w.processes)

pub finish-IsAccounted : (c : Callback) (w : World) → IsAccounted w → IsAccounted (finish c w)
unfolding finish
finish-IsAccounted c w h = omega (arith, finish_found-le c.pid c.auto_reap _ w.processes refl)
