-- ===== src/Asyncio/Queues/Wakeups.antt =====
-- No wake-up is lost while no task is cancelled.
use pythonos.Prelude.{ℕ, ◌+◌, ◌≤◌, ◌≡◌, All, length, Eq-ℕ}
use pythonos.Asyncio.Queues.Pending.{any_pending, owed, IsUnder}
use pythonos.Asyncio.Queues.Tasks

module _ (A : Type 0) where
  abbrev Run : Type 0
  Run = Tasks.Run A

  -- With `d` tasks fewer woken in `put` and `e` fewer in `get` than the queue counts on.
  record IsAwake (n d e : ℕ) (r : Run) : Type 0 where
    size : r.queue.maxsize ≡ n
    gets : owed (any_pending r.queue.getters r.queue.board) (length r.queue.items) ≤ r.woken_get + e
    puts :
        owed (any_pending r.queue.putters r.queue.board) n ≤ length r.queue.items + r.woken_put + d
    getters : All (IsUnder r.queue.board.next) r.queue.getters
    putters : All (IsUnder r.queue.board.next) r.queue.putters
