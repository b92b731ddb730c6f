-- ===== src/Rma/Exclusion.antt =====
-- Simulator/model/memory.c: a lock that is not shared has one holder.
use dimemas.Base.{ℕ, ◌≤◌, ◌≡◌, ◌≢◌, ◌⊎◌, ◌>>=◌, All, false, length, ◌==◌, Outcome, ok}
use dimemas.Queue.{Ptr, a_nil, Queue, in_fifo_queue}
use dimemas.Rma.Locks.{
  mpi_os_lock_shared, Window, RmaState, Turns, from_rank_to_task, from_taskid_to_task,
}

-- A free window has no holder, and one whose lock is not shared at most one.
pub record WindowOk (win : Window) : Type 0 where
  pub counted : win.threads_with_lock.count ≡ length win.threads_with_lock.items
  pub free : win.task_with_lock ≡ a_nil → length win.threads_with_lock.items ≡ 0
  pub exclusive :
      (win.lock_mode == mpi_os_lock_shared) ≡ false → length win.threads_with_lock.items ≤ 1

-- Every window is in order, and the tasks of an application have addresses.
abbrev pub LocksOk : {S : Type 0} → RmaState S → Type 0
LocksOk s =
    ((id : ℕ) → WindowOk (s.windows id))
    × ((th : Ptr) → All (λ (t : Ptr × ℕ). t.0 ≢ a_nil) (s.tasks th))

module _ {S : Type 0} (turns : Turns S) (th : Ptr) (id : ℕ) (s : RmaState S) where
  -- The task that a request of the thread to the window is for.
  abbrev pub target : Outcome Ptr
  target =
      from_rank_to_task (s.windows id).global_ranks (s.threads th).target_rank
      >>= from_taskid_to_task (s.tasks th)

  -- The thread has the lock of the window in s', and goes on to its next action; or it waits there.
  abbrev pub Locks : Ptr → Outcome (RmaState S) → RmaState S → Type 0
  Locks task_d step s' =
      (((s'.windows id).task_with_lock ≡ task_d)
        × ((s'.windows id).lock_mode ≡ (s.threads th).asked_mode)
        × ((s'.windows id).threads_with_lock ≡ in_fifo_queue tt (s.windows id).threads_with_lock th)
        × (step ≡ turns.next_action th s'))
      ⊎ (((s.windows id).task_with_lock ≢ a_nil)
          × ((s'.windows id).threads_waiting_lock
              ≡ in_fifo_queue tt (s.windows id).threads_waiting_lock th)
          × ((s'.windows id).threads_with_lock ≡ (s.windows id).threads_with_lock)
          × (step ≡ ok s'))
