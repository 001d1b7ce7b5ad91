-- ===== src/Asyncio/Queues/Order.antt =====
-- What is put into a queue comes out in order, whatever tasks do with it.
use pythonos.Prelude.{
  ℕ, ◌+◌, ◌⊎◌, ◌<◌, ◌≤◌, ◌≡◌, refl, sym, ap, ◌∙◌, List, [], ◌∷◌, ◌++◌, Bool-cases, inl, inr, false,
  Outcome, ok, err, length, length-append, append_assoc, arith,
}
use pythonos.Asyncio.Waiters.{create_future}
use pythonos.Asyncio.Queues.Defs.{
  Queue, QueueError, queue_empty, Turn, waiting, ended, new_queue, full, put_nowait, get_nowait,
  try_put, try_get, cancel_put, cancel_get, wakeup_getter, wakeup_putter,
}

module _ (A : Type 0) where
  -- What a task does with the queue from one wait to the next. A coroutine that is woken tries again.
  pub data Step : Type 0 where
    put_now : A → Step
    get_now : Step
    putting : A → Step
    getting : Step
    cancelling_put : ℕ → Step
    cancelling_get : ℕ → Step

  -- The queue, with the items that a put took and those that a get gave, in order.
  pub record Run : Type 0 where
    pub queue : Queue A
    pub taken : List A
    pub given : List A

  abbrev pub new_run : ℕ → Run
  new_run n = record { queue = new_queue A n; taken = []; given = [] }

  abbrev took : A → Run → Outcome QueueError (Unit {0}) × Queue A → Run
  took a r (ok u, q) = record r { queue = q; taken = r.taken ++ a ∷ [] }
  took a r (err e, q) = record r { queue = q }

  abbrev gave : Run → Outcome QueueError A × Queue A → Run
  gave r (ok a, q) = record r { queue = q; given = r.given ++ a ∷ [] }
  gave r (err e, q) = record r { queue = q }

  abbrev after_put : A → Run → Turn A (Unit {0}) × Queue A → Run
  after_put a r (waiting f, q) = record r { queue = q }
  after_put a r (ended o, q) = took a r (o, q)

  abbrev after_get : Run → Turn A A × Queue A → Run
  after_get r (waiting f, q) = record r { queue = q }
  after_get r (ended o, q) = gave r (o, q)

  unfoldable pub step : Step → Run → Run
  unfolding put_nowait get_nowait try_put try_get cancel_put cancel_get
  step (put_now a) r = took a r (put_nowait A a r.queue)
  step get_now r = gave r (get_nowait A r.queue)
  step (putting a) r = after_put a r (try_put A a r.queue)
  step getting r = after_get r (try_get A r.queue)
  step (cancelling_put f) r = record r { queue = cancel_put A f r.queue }
  step (cancelling_get f) r = record r { queue = cancel_get A f r.queue }

  unfoldable pub steps : List Step → Run → Run
  unfolding step
  steps [] r = r
  steps (s ∷ ss) r = steps ss (step s r)

  pub record IsInOrder (n : ℕ) (r : Run) : Type 0 where
    pub size : r.queue.maxsize ≡ n
    pub order : r.taken ≡ r.given ++ r.queue.items
    pub bound : 0 < n → length r.queue.items ≤ n

  room : (n : ℕ) (q : Queue A) → q.maxsize ≡ n → full A q ≡ false → 0 < n → length q.items + 1 ≤ n
  room n q s f h = ground (arith, s, f, h)

  appended-IsInOrder :
      (n : ℕ) (a : A) (r : Run)
      → full A r.queue ≡ false
      → IsInOrder n r
      → IsInOrder n
          (took a r (ok tt, wakeup_getter A (record r.queue { items = r.queue.items ++ a ∷ [] })))
  unfolding wakeup_getter
  appended-IsInOrder n a r e v = record {
    size = v.size;
    order = rw v.order (append_assoc r.given r.queue.items (a ∷ []));
    bound = λ h. omega (arith, room n r.queue v.size e h, length-append r.queue.items (a ∷ []));
  }

  took-IsInOrder :
      (n : ℕ) (a : A) (r : Run) → IsInOrder n r → IsInOrder n (took a r (put_nowait A a r.queue))
  unfolding put_nowait
  took-IsInOrder n a r v = elim (Bool-cases (full A r.queue)) [
    | inl e ↦ rw e v
    | inr e ↦ rw e (appended-IsInOrder n a r e v)
  ]

  List-cases : (xs : List A) → (xs ≡ []) ⊎ ((a : A) × (rest : List A) × (xs ≡ a ∷ rest))
  List-cases [] = inl refl
  List-cases (a ∷ rest) = inr (a, rest, refl)

  none-get_nowait : (q : Queue A) → q.items ≡ [] → get_nowait A q ≡ (err queue_empty, q)
  unfolding get_nowait
  none-get_nowait q e = rw e refl

  first-get_nowait :
      (q : Queue A) (a : A) (rest : List A)
      → q.items ≡ a ∷ rest
      → get_nowait A q ≡ (ok a, wakeup_putter A (record q { items = rest }))
  unfolding get_nowait
  first-get_nowait q a rest e = rw e refl

  none-try_get :
      (q : Queue A)
      → q.items ≡ []
      → try_get A q ≡ (
        waiting q.board.next,
        record q { getters = q.getters ++ q.board.next ∷ []; board = create_future q.board },
      )
  unfolding try_get
  none-try_get q e = rw e refl

  first-try_get :
      (q : Queue A) (a : A) (rest : List A)
      → q.items ≡ a ∷ rest
      → try_get A q ≡ (ended (get_nowait A q).0, (get_nowait A q).1)
  unfolding try_get
  first-try_get q a rest e = rw e refl

  gave-IsInOrder : (n : ℕ) (r : Run) → IsInOrder n r → IsInOrder n (gave r (get_nowait A r.queue))
  unfolding wakeup_putter
  gave-IsInOrder n r v = elim (List-cases r.queue.items) [
    | inl e ↦ rw (none-get_nowait r.queue e) v
    | inr (a, rest, e) ↦ rw (first-get_nowait r.queue a rest e) (record {
      size = v.size;
      order = v.order ∙ ap (◌++◌ r.given) e ∙ sym (append_assoc r.given (a ∷ []) rest);
      bound = λ h. omega (arith, v.bound h, ap length e);
    })
  ]

  after_get-IsInOrder :
      (n : ℕ) (r : Run) → IsInOrder n r → IsInOrder n (after_get r (try_get A r.queue))
  after_get-IsInOrder n r v = elim (List-cases r.queue.items) [
    | inl e ↦
        rw (none-try_get r.queue e) (record { size = v.size; order = v.order; bound = v.bound })
    | inr (a, rest, e) ↦ rw (first-try_get r.queue a rest e) (gave-IsInOrder n r v)
  ]

  after_put-IsInOrder :
      (n : ℕ) (a : A) (r : Run) → IsInOrder n r → IsInOrder n (after_put a r (try_put A a r.queue))
  unfolding try_put
  after_put-IsInOrder n a r v = elim (Bool-cases (full A r.queue)) [
    | inl e ↦ rw e (record { size = v.size; order = v.order; bound = v.bound })
    | inr e ↦ rw e (appended-IsInOrder n a r e v)
  ]

  step-IsInOrder : (n : ℕ) (s : Step) (r : Run) → IsInOrder n r → IsInOrder n (step s r)
  unfolding step cancel_put cancel_get
  step-IsInOrder n (put_now a) r v = took-IsInOrder n a r v
  step-IsInOrder n get_now r v = gave-IsInOrder n r v
  step-IsInOrder n (putting a) r v = after_put-IsInOrder n a r v
  step-IsInOrder n getting r v = after_get-IsInOrder n r v
  step-IsInOrder n (cancelling_put f) r v = record {
    size = v.size;
    order = v.order;
    bound = v.bound;
  }
  step-IsInOrder n (cancelling_get f) r v = record {
    size = v.size;
    order = v.order;
    bound = v.bound;
  }

  steps-kept : (n : ℕ) (ss : List Step) (r : Run) → IsInOrder n r → IsInOrder n (steps ss r)
  unfolding steps
  steps-kept n [] r v = v
  steps-kept n (s ∷ ss) r v = steps-kept n ss (step s r) (step-IsInOrder n s r v)

  -- After any steps of any tasks on a new queue, cancellations included, the items that were put are
  -- the items that were got followed by those in the queue, in order, and a queue with a maximal size
  -- never holds more.
  pub steps-IsInOrder : (n : ℕ) (ss : List Step) → IsInOrder n (steps ss (new_run n))
  steps-IsInOrder n ss =
      steps-kept n ss (new_run n) (record { size = refl; order = refl; bound = λ h. omega arith })
