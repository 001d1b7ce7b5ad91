-- ===== src/Prelude/Raising.antt =====
-- Code that may raise: an outcome is a value or an exception. A method that mutates an object
-- and may raise returns the object beside the outcome, since what was written stays written.
use mathlib.Core.Path.{◌≡◌, refl}

pub data Outcome (E A : Type 0) : Type 0 where
  ok : A → Outcome E A
  err : E → Outcome E A

abbrev pub Exec : Type 0 → Type 0 → Type 0 → Type 0
Exec S E A = S → Outcome E A × S

module _ {S E A : Type 0} where
  abbrev pub pure : A → Exec S E A
  pure a s = (ok a, s)

  abbrev pub raise : E → Exec S E A
  raise e s = (err e, s)

-- A step that only writes.
abbrev pub modify : {S E : Type 0} → (S → S) → Exec S E (Unit {0})
modify f s = (ok tt, f s)

abbrev pub continue : {S E A B : Type 0} → Outcome E A × S → (A → Exec S E B) → Outcome E B × S
continue (ok a, s) f = f a s
continue (err e, s) f = (err e, s)

infixl 5 ◌>>=◌ ◌>>◌
abbrev pub ◌>>=◌ : {S E A B : Type 0} → Exec S E A → (A → Exec S E B) → Exec S E B
◌>>=◌ m f s = continue (m s) f

abbrev pub ◌>>◌ : {S E A B : Type 0} → Exec S E A → Exec S E B → Exec S E B
◌>>◌ m n s = continue (m s) (λ _. n)

-- The first step of a run that gives a value gave one.
pub continue_ok :
    {S E A B : Type 0} (r : Outcome E A × S) (f : A → Exec S E B) {b : B} {s' : S}
    → continue r f ≡ (ok b, s')
    → (a : A) × ((s : S) × (r ≡ (ok a, s)) × (f a s ≡ (ok b, s')))
continue_ok (ok a, s) f h = (a, (s, refl, h))
continue_ok (err e, s) f h = cc
