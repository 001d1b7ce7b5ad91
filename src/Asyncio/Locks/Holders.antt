-- ===== src/Asyncio/Locks/Holders.antt =====
-- How many tasks hold a lock or a semaphore at once.
use pythonos.Prelude.{
  ℕ, ◌+◌, ◌≡◌, refl, List, [], ◌∷◌, none, some, true, false, Bool-cases, inl, inr, ◌==◌, ok, err,
  lookup-insert_self, Eq-ℕ, arith,
}
use pythonos.Asyncio.Waiters.{waits, finished}
use pythonos.Asyncio.Locks.Defs.{
  Turn, waiting, ended, first_pending, Lock, not_acquired, try_acquire, acquire_woken, wake_first,
  release, Semaphore, new_semaphore, try_take, cancel_take, give_back,
}

-- What a task does with a semaphore from one wait to the next. A task that is woken tries again.
pub data Step : Type 0 where
  taking : Step
  giving : Step
  cancelling : ℕ → Step

-- The semaphore, and how often an `acquire` ended and a `release` was called.
pub record Run : Type 0 where
  pub semaphore : Semaphore
  pub taken : ℕ
  pub given : ℕ

abbrev pub new_run : ℕ → Run
new_run n = record { semaphore = new_semaphore n; taken = 0; given = 0 }

abbrev took : Run → Turn × Semaphore → Run
took r (waiting f, s) = record r { semaphore = s }
took r (ended, s) = record r { semaphore = s; taken = r.taken + 1 }

unfoldable pub step : Step → Run → Run
unfolding try_take give_back cancel_take
step taking r = took r (try_take r.semaphore)
step giving r = record r { semaphore = give_back r.semaphore; given = r.given + 1 }
step (cancelling f) r = record r { semaphore = cancel_take f r.semaphore }

unfoldable pub steps : List Step → Run → Run
unfolding step
steps [] r = r
steps (s ∷ ss) r = steps ss (step s r)

abbrev IsCounted : ℕ → Run → Type 0
IsCounted n r = r.semaphore.value + r.taken ≡ n + r.given

step-IsCounted : (n : ℕ) (s : Step) (r : Run) → IsCounted n r → IsCounted n (step s r)
unfolding step try_take give_back cancel_take
step-IsCounted n taking r h = elim (Bool-cases (r.semaphore.value == 0)) [
  | inl e ↦ rw e h
  | inr e ↦ rw e (ground (arith, e, h))
]
step-IsCounted n giving r h = omega (arith, h)
step-IsCounted n (cancelling f) r h = h

steps-kept : (n : ℕ) (ss : List Step) (r : Run) → IsCounted n r → IsCounted n (steps ss r)
unfolding steps
steps-kept n [] r h = h
steps-kept n (s ∷ ss) r h = steps-kept n ss (step s r) (step-IsCounted n s r h)

-- After any steps of any tasks on a semaphore that began with `n`, cancellations included, its value and
-- the number of acquires that ended make `n` and the number of releases: no more tasks come in than
-- the semaphore lets.
pub steps-IsCounted :
    (n : ℕ) (ss : List Step)
    → (steps ss (new_run n)).semaphore.value + (steps ss (new_run n)).taken
      ≡ n + (steps ss (new_run n)).given
steps-IsCounted n ss = steps-kept n ss (new_run n) (omega arith)

-- A release of a held lock that someone waits for wakes the first that waits and leaves the lock free. A
-- task that calls `acquire` before the woken one runs gets the lock at once, and the woken one gets it
-- too: both hold it. When one of them releases it the lock is free, though the other holds it, and
-- with no one else waiting the release of the other raises.
pub release-acquire_twice :
    (l : Lock) (f : ℕ)
    → l.is_locked ≡ true
    → first_pending l.waiters l.board ≡ some f
    → (freed : Lock) × (release l ≡ (ok tt, freed))
      × (freed.is_locked ≡ false)
      × (waits f freed.board ≡ false)
      × (try_acquire freed ≡ (ended, acquire_woken freed))
      × (first_pending freed.waiters freed.board ≡ none
          → release (acquire_woken (acquire_woken freed)) ≡ (ok tt, freed)
            × (release freed ≡ (err not_acquired, freed)))
unfolding release try_acquire wake_first
release-acquire_twice l f held first = (
  wake_first (some f) (record l { is_locked = false }),
  rw (held, first) refl,
  refl,
  rw (lookup-insert_self f finished l.board.signals) refl,
  refl,
  λ n. (rw n refl, refl),
)
