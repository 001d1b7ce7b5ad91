-- ===== src/Asyncio/Events/Grows.antt =====
-- What the calls of a callback do to the handles that are ready: they append new ones.
use pythonos.Prelude.{
  ℕ, ◌≤◌, ◌≡◌, refl, sym, List, [], ◌∷◌, ◌++◌, All, All-append, append_assoc, append-nil, arith,
}
use pythonos.Asyncio.Events.Defs.{
  Handle, Loop, Call, soon, at, later, cancelling, stopping_it, call_soon, call_at, call_later,
  make_call, make_calls,
}

module _ (C : Type 0) where
  abbrev pub IsNew : ℕ → Handle C → Type 0
  IsNew n h = n ≤ h.id

  -- What calls do to the handles that are ready: they append new ones.
  pub record Grows (n : ℕ) (l l' : Loop C) : Type 0 where
    pub more : List (Handle C)
    pub ready : l'.ready ≡ l.ready ++ more
    pub fresh : All (IsNew n) more
    pub taken : l'.taken ≡ l.taken
    pub later_id : n ≤ l'.next_id

  pub still : (n : ℕ) (l : Loop C) → n ≤ l.next_id → Grows n l l
  still n l k = record {
    more = [];
    ready = sym (append-nil l.ready);
    fresh = tt;
    taken = refl;
    later_id = k;
  }

  make_call-Grows : (n : ℕ) (c : Call C) (l : Loop C) → n ≤ l.next_id → Grows n l (make_call C c l)
  unfolding make_call call_soon call_later call_at
  make_call-Grows n (soon fn) l k = record {
    more = record { id = l.next_id; fn = fn } ∷ [];
    ready = refl;
    fresh = (k, tt);
    taken = refl;
    later_id = omega (arith, k);
  }
  make_call-Grows n (at t fn) l k = record {
    more = [];
    ready = sym (append-nil l.ready);
    fresh = tt;
    taken = refl;
    later_id = omega (arith, k);
  }
  make_call-Grows n (later now delay fn) l k = record {
    more = [];
    ready = sym (append-nil l.ready);
    fresh = tt;
    taken = refl;
    later_id = omega (arith, k);
  }
  make_call-Grows n (cancelling id) l k = record {
    more = [];
    ready = sym (append-nil l.ready);
    fresh = tt;
    taken = refl;
    later_id = k;
  }
  make_call-Grows n stopping_it l k = record {
    more = [];
    ready = sym (append-nil l.ready);
    fresh = tt;
    taken = refl;
    later_id = k;
  }

  Grows-trans : (n : ℕ) (l m k : Loop C) → Grows n l m → Grows n m k → Grows n l k
  Grows-trans n l m k g h = record {
    more = g.more ++ h.more;
    ready = rw (h.ready, g.ready) (append_assoc l.ready g.more h.more);
    fresh = All-append (IsNew n) g.more h.more g.fresh h.fresh;
    taken = rw (h.taken, g.taken) refl;
    later_id = h.later_id;
  }

  pub make_calls-Grows :
      (n : ℕ) (cs : List (Call C)) (l : Loop C) → n ≤ l.next_id → Grows n l (make_calls C cs l)
  unfolding make_calls
  make_calls-Grows n [] l k = still n l k
  make_calls-Grows n (c ∷ cs) l k =
      let first = make_call-Grows n c l k in
      Grows-trans n l (make_call C c l) (make_calls C cs (make_call C c l)) first
        (make_calls-Grows n cs (make_call C c l) first.later_id)
