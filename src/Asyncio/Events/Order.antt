-- ===== src/Asyncio/Events/Order.antt =====
-- The timers stand in the order of their times, and those of one time in the order of their calls.
use pythonos.Prelude.{
  ℕ, zero, suc, ◌+◌, ◌<◌, ◌≤◌, ◌≡◌, List, [], ◌∷◌, ◌++◌, Bool, Bool-cases, inl, inr, leb, ◌||◌, All,
  arith,
}
use pythonos.Asyncio.Events.Defs.{
  Handle, Loop, Call, soon, at, later, cancelling, stopping_it, new_loop, call_soon, call_at,
  call_later, insert_at, make_call, make_calls, mentions, not_due, promote, run_handle, run_ready,
  run_once, run_rounds,
}

module _ (C : Type 0) where
  abbrev pub Timer : Type 0
  Timer = ℕ × Handle C

  abbrev pub IsBefore : Timer → Timer → Type 0
  IsBefore e f = (e.0 ≤ f.0) × ((e.0 ≡ f.0) → e.1.id < f.1.id)

  abbrev pub IsOrdered : List Timer → Type 0
  IsOrdered [] = Unit {0}
  IsOrdered (e ∷ s) = All (IsBefore e) s × IsOrdered s

  abbrev pub IsOlder : ℕ → Timer → Type 0
  IsOlder n e = e.1.id < n

  pub record IsTimed (l : Loop C) : Type 0 where
    pub order : IsOrdered l.scheduled
    pub older : All (IsOlder l.next_id) l.scheduled

  weaken-All : (n m : ℕ) (s : List Timer) → n ≤ m → All (IsOlder n) s → All (IsOlder m) s
  weaken-All n m [] h k = tt
  weaken-All n m (e ∷ s) h k = (omega (arith, h, k.0), weaken-All n m s h k.1)

  insert_at-All :
      (P : Timer → Type 0) (t : ℕ) (h : Handle C) (s : List Timer)
      → P (t, h)
      → All P s
      → All P (insert_at C t h s)
  unfolding insert_at
  insert_at-All P t h [] p k = (p, tt)
  insert_at-All P t h ((u, g) ∷ s) p k = elim (Bool-cases (leb u t)) [
    | inl e ↦ rw e (k.0, insert_at-All P t h s p k.1)
    | inr e ↦ rw e (p, k)
  ]

  earlier-All :
      (t u : ℕ) (h g : Handle C) (s : List Timer)
      → t < u
      → All (IsBefore (u, g)) s
      → All (IsBefore (t, h)) s
  earlier-All t u h g [] e k = tt
  earlier-All t u h g (f ∷ s) e k = (
    (omega (arith, e, k.0.0), λ same. absurd (omega (arith, e, k.0.0, same))),
    earlier-All t u h g s e k.1,
  )

  insert_at-IsOrdered :
      (t : ℕ) (h : Handle C) (s : List Timer)
      → All (IsOlder h.id) s
      → IsOrdered s
      → IsOrdered (insert_at C t h s)
  unfolding insert_at
  insert_at-IsOrdered t h [] o k = (tt, tt)
  insert_at-IsOrdered t h ((u, g) ∷ s) o k = elim (Bool-cases (leb u t)) [
    | inl e ↦
        let early : u ≤ t = ground (arith, e) in
        rw e (
          insert_at-All (IsBefore (u, g)) t h s (early, λ same. o.0) k.0,
          insert_at-IsOrdered t h s o.1 k.1,
        )
    | inr e ↦
        let late : t < u = ground (arith, e) in
        rw e (
          (
            (omega (arith, late), λ same. absurd (omega (arith, late, same))),
            earlier-All t u h g s late k.0,
          ),
          k,
        )
  ]

  call_at-IsTimed : (t : ℕ) (fn : C) (l : Loop C) → IsTimed l → IsTimed (call_at C t fn l)
  unfolding call_at
  call_at-IsTimed t fn l v =
      let h : Handle C = record { id = l.next_id; fn = fn } in
      record {
        order = insert_at-IsOrdered t h l.scheduled v.older v.order;
        older =
            insert_at-All (IsOlder (l.next_id + 1)) t h l.scheduled (omega arith)
              (weaken-All l.next_id (l.next_id + 1) l.scheduled (omega arith) v.older);
      }

  make_call-IsTimed : (c : Call C) (l : Loop C) → IsTimed l → IsTimed (make_call C c l)
  unfolding make_call call_soon call_later
  make_call-IsTimed (soon fn) l v = record {
    order = v.order;
    older = weaken-All l.next_id (l.next_id + 1) l.scheduled (omega arith) v.older;
  }
  make_call-IsTimed (at t fn) l v = call_at-IsTimed t fn l v
  make_call-IsTimed (later now delay fn) l v = call_at-IsTimed (now + delay) fn l v
  make_call-IsTimed (cancelling id) l v = record { order = v.order; older = v.older }
  make_call-IsTimed stopping_it l v = record { order = v.order; older = v.older }

  pub make_calls-IsTimed :
      (cs : List (Call C)) (l : Loop C) → IsTimed l → IsTimed (make_calls C cs l)
  unfolding make_calls
  make_calls-IsTimed [] l v = v
  make_calls-IsTimed (c ∷ cs) l v =
      make_calls-IsTimed cs (make_call C c l) (make_call-IsTimed c l v)

  not_due-All : (P : Timer → Type 0) (now : ℕ) (s : List Timer) → All P s → All P (not_due C now s)
  unfolding not_due
  not_due-All P now [] k = tt
  not_due-All P now ((t, h) ∷ s) k = elim (Bool-cases (leb t now)) [
    | inl e ↦ rw e (not_due-All P now s k.1)
    | inr e ↦ rw e k
  ]

  not_due-IsOrdered : (now : ℕ) (s : List Timer) → IsOrdered s → IsOrdered (not_due C now s)
  unfolding not_due
  not_due-IsOrdered now [] k = tt
  not_due-IsOrdered now ((t, h) ∷ s) k = elim (Bool-cases (leb t now)) [
    | inl e ↦ rw e (not_due-IsOrdered now s k.1)
    | inr e ↦ rw e k
  ]

  pub promote-IsTimed : (now : ℕ) (l : Loop C) → IsTimed l → IsTimed (promote C now l)
  unfolding promote
  promote-IsTimed now l v = record {
    order = not_due-IsOrdered now l.scheduled v.order;
    older = not_due-All (IsOlder l.next_id) now l.scheduled v.older;
  }

  module _ (acts : C → Loop C → List (Call C)) where
    run_handle-IsTimed : (h : Handle C) (l : Loop C) → IsTimed l → IsTimed (run_handle C acts h l)
    unfolding run_handle
    run_handle-IsTimed h l v = elim (Bool-cases (mentions C h.id l.cancelled)) [
      | inl e ↦ rw e v
      | inr e ↦ rw e (make_calls-IsTimed (acts h.fn l) l v)
    ]

    run_ready-IsTimed : (n : ℕ) (l : Loop C) → IsTimed l → IsTimed (run_ready C acts n l)
    unfolding run_ready
    run_ready-IsTimed zero l v = v
    run_ready-IsTimed (suc n) l v =
        elim l.ready
          as (λ r. IsTimed (elim r [
            | [] ↦ l
            | h ∷ hs ↦
                run_ready C acts n
                  (run_handle C acts h (record l { ready = hs; taken = l.taken ++ h ∷ [] }))
          ])) [
            | [] ↦ v
            | h ∷ hs ↦
                run_ready-IsTimed n _
                  (run_handle-IsTimed h _ (record { order = v.order; older = v.older }))
          ]

    run_once-IsTimed :
        (now : ℕ) (cs : List (Call C)) (l : Loop C) → IsTimed l → IsTimed (run_once C acts now cs l)
    unfolding run_once
    run_once-IsTimed now cs l v =
        run_ready-IsTimed _ _ (promote-IsTimed now _ (make_calls-IsTimed cs l v))

    run_rounds-IsTimed :
        (done : Loop C → Bool) (rounds : List (ℕ × List (Call C))) (l : Loop C)
        → IsTimed l
        → IsTimed (run_rounds C acts done rounds l)
    unfolding run_rounds
    run_rounds-IsTimed done [] l v = v
    run_rounds-IsTimed done ((now, cs) ∷ rounds) l v = elim (Bool-cases (done l || l.stopping)) [
      | inl e ↦ rw e v
      | inr e ↦ rw e (run_rounds-IsTimed done rounds _ (run_once-IsTimed now cs l v))
    ]

    -- In every state that a loop comes to, whatever its callbacks and the interrupt handlers call, the
    -- timers stand in the order of their times, those of one time in the order in which they were set.
    pub run_rounds-IsOrdered :
        (done : Loop C → Bool) (start : List (Call C)) (rounds : List (ℕ × List (Call C)))
        → IsTimed (run_rounds C acts done rounds (make_calls C start (new_loop C)))
    run_rounds-IsOrdered done start rounds =
        run_rounds-IsTimed done rounds _
          (make_calls-IsTimed start (new_loop C) (record { order = tt; older = tt }))
