-- ===== src/Asyncio/Queues/Tasks.antt =====
-- Tasks on a queue, none of them cancelled, with the number of those that were woken and have not run yet.
use pythonos.Prelude.{ℕ, zero, suc, ◌+◌, List, [], ◌∷◌, Eq-ℕ}
use pythonos.Asyncio.Queues.Defs.{Queue, new_queue, put_nowait, get_nowait, try_put, try_get}
use pythonos.Asyncio.Queues.Pending.{signalled}

module _ (A : Type 0) where
  -- The queue, and how many tasks that wait in `get` and in `put` were woken, which is that their future
  -- has got its result on the board, and have not run yet.
  pub record Run : Type 0 where
    pub queue : Queue A
    pub woken_get : ℕ
    pub woken_put : ℕ

  -- Tasks that put and get at once, that begin to put and get, and that run after they were woken.
  pub data Step : Type 0 where
    put_now : A → Step
    get_now : Step
    putting : A → Step
    getting : Step
    put_woken : A → Step
    get_woken : Step

  -- The queue after a call, with the tasks whose futures the call has given a result.
  abbrev pub with_getters : Run → Queue A → Run
  with_getters r q = record r {
    queue = q;
    woken_get = r.woken_get + signalled r.queue.getters r.queue.board q.board;
  }

  abbrev pub with_putters : Run → Queue A → Run
  with_putters r q = record r {
    queue = q;
    woken_put = r.woken_put + signalled r.queue.putters r.queue.board q.board;
  }

  abbrev pub put_run : A → Run → Run
  put_run a r = with_getters r (try_put A a r.queue).1

  abbrev pub get_run : Run → Run
  get_run r = with_putters r (try_get A r.queue).1

  abbrev pub put_again : A → ℕ → Run → Run
  put_again a zero r = r
  put_again a (suc n) r = put_run a (record r { woken_put = n })

  abbrev pub get_again : ℕ → Run → Run
  get_again zero r = r
  get_again (suc n) r = get_run (record r { woken_get = n })

  unfoldable pub step : Step → Run → Run
  unfolding put_nowait get_nowait try_put try_get
  step (put_now a) r = with_getters r (put_nowait A a r.queue).1
  step get_now r = with_putters r (get_nowait A r.queue).1
  step (putting a) r = put_run a r
  step getting r = get_run r
  step (put_woken a) r = put_again a r.woken_put r
  step get_woken r = get_again r.woken_get r

  unfoldable pub steps : List Step → Run → Run
  unfolding step
  steps [] r = r
  steps (s ∷ ss) r = steps ss (step s r)

  abbrev pub new_run : ℕ → Run
  new_run n = record { queue = new_queue A n; woken_get = 0; woken_put = 0 }
