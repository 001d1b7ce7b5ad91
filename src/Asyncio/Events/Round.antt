-- ===== src/Asyncio/Events/Round.antt =====
-- What a round of the loop runs.
use pythonos.Prelude.{ℕ, ◌≡◌, ◌⊎◌, List, [], ◌∷◌, ◌++◌, All}
use pythonos.Asyncio.Events.Defs.{Handle, Loop, Call, make_calls}
use pythonos.Asyncio.Events.Grows.{IsNew, Grows}

module _ (C : Type 0) where
  abbrev pub In : {A : Type 0} → A → List A → Type 0
  In a [] = ⊥
  In a (x ∷ xs) = (x ≡ a) ⊎ In a xs

  module _ (acts : C → Loop C → List (Call C)) where
    -- The loop without the handle at the front of those that are ready.
    abbrev pub popped : Handle C → List (Handle C) → Loop C → Loop C
    popped h rest l = record l { ready = rest; taken = l.taken ++ h ∷ [] }

    -- These handles are taken one after the other: one that is cancelled when its turn comes does
    -- nothing, and any other makes all the calls of its callback, on the loop as it is then.
    pub data Runs : List (Handle C) → Loop C → Loop C → Type 0 where
      no_more : (l : Loop C) → Runs [] l l
      skipped :
          (h : Handle C) (hs rest : List (Handle C)) (l l' : Loop C)
          → l.ready ≡ h ∷ rest
          → In h.id l.cancelled
          → Runs hs (popped h rest l) l'
          → Runs (h ∷ hs) l l'
      called :
          (h : Handle C) (hs rest : List (Handle C)) (l l' : Loop C)
          → l.ready ≡ h ∷ rest
          → (In h.id l.cancelled → ⊥)
          → Runs hs (make_calls C (acts h.fn (popped h rest l)) (popped h rest l)) l'
          → Runs (h ∷ hs) l l'

    -- A round takes these handles, and leaves only handles that were made in it.
    pub record Takes (n : ℕ) (hs : List (Handle C)) (l l' : Loop C) : Type 0 where
      pub taken : l'.taken ≡ l.taken ++ hs
      pub fresh : All (IsNew C n) l'.ready
