-- ===== src/Rma/Locks.antt =====
-- Simulator/model/memory.c: os_lock and os_unlock. A window is locked on a task, shared between
-- threads or exclusive to one.
use dimemas.Base.{
  ℕ, zero, suc, panic, undefined, ◌+◌, Bool, ◌&&◌, ◌||◌, List, [], ◌∷◌, ◌==◌, if◌then◌else◌,
  Outcome, ok, ◌>>=◌,
}
use dimemas.Queue.{Ptr, a_nil, Item, Queue, in_fifo_queue, count_queue, extract_from_queue}
use dimemas.Queue.Removal.{drain}

abbrev pub mpi_os_lock_shared : ℕ
mpi_os_lock_shared = 0

abbrev pub window_mode_none : ℕ
window_mode_none = 0

-- The fields of `struct t_window` for locks. `global_ranks` has the integers of that queue.
pub record Window : Type 0 where
  pub global_ranks : List ℕ
  pub mode : ℕ
  pub task_with_lock : Ptr
  pub lock_mode : ℕ
  pub threads_with_lock : Queue Unit
  pub threads_waiting_lock : Queue Unit
  pub threads_waiting_unlock : Queue Unit
  pub lock_operations : Queue Unit

-- The task of a thread, and what its front action, one of MPI_OS, asks for.
pub record RmaThread : Type 0 where
  pub task : Ptr
  pub window_id : ℕ
  pub target_rank : ℕ
  pub asked_mode : ℕ

-- `windows` is what the queue of windows has at each number, and `tasks` what the application of a
-- thread has in its array of tasks, each with its address and its `taskid`; `rest` is the state of
-- the others.
pub record RmaState (S : Type 0) : Type 0 where
  pub windows : ℕ → Window
  pub threads : Ptr → RmaThread
  pub tasks : Ptr → List (Ptr × ℕ)
  pub rest : S

-- The walk over the ranks: the integer behind the first rank is read with no test for NULL. The
-- cursor that it moves is not part of the model.
unfoldable pub from_rank_to_task : List ℕ → ℕ → Outcome ℕ
from_rank_to_task [] zero = undefined
from_rank_to_task [] (suc rank) = panic
from_rank_to_task (task ∷ ranks) zero = ok task
from_rank_to_task (task ∷ []) (suc rank) = panic
from_rank_to_task (task ∷ next ∷ ranks) (suc rank) = from_rank_to_task (next ∷ ranks) rank

unfoldable pub from_taskid_to_task : List (Ptr × ℕ) → ℕ → Outcome Ptr
from_taskid_to_task [] taskid = panic
from_taskid_to_task ((task, id) ∷ tasks) taskid =
    if id == taskid then ok task else from_taskid_to_task tasks taskid

-- The step of a thread to its next action, with `more_actions` and, if it has one,
-- SCHEDULER_thread_to_ready.
pub record Turns (S : Type 0) : Type 0 where
  pub next_action : Ptr → RmaState S → Outcome (RmaState S)

abbrev pub set_window : {S : Type 0} → ℕ → Window → RmaState S → RmaState S
set_window id win s = record s { windows = λ n. if n == id then win else s.windows n }

-- Whether the window is free, or its lock is shared and so is the one that is asked for.
abbrev pub grants : Window → Ptr → ℕ → Bool
grants win task_d asked =
    (win.task_with_lock == a_nil)
    || ((win.task_with_lock == task_d)
        && (asked == mpi_os_lock_shared)
        && (win.lock_mode == mpi_os_lock_shared))

abbrev pub lock_given : Ptr → Ptr → ℕ → Window → Window
lock_given th task_d asked win = record win {
  task_with_lock = task_d;
  lock_mode = asked;
  threads_with_lock = in_fifo_queue tt win.threads_with_lock th;
}

abbrev pub lock_awaited : Ptr → Window → Window
lock_awaited th win = record win {
  threads_waiting_lock = in_fifo_queue tt win.threads_waiting_lock th;
}

-- The first thread of the operations that has the task, or NULL.
unfoldable pub operation_of : (Ptr → RmaThread) → Ptr → List (Item Unit) → Ptr
operation_of threads task [] = a_nil
operation_of threads task (x ∷ xs) =
    let rest = operation_of threads task xs in
    if x.content == a_nil
    then a_nil
    else if (threads x.content).task == task
    then x.content
    else rest

module _ {S : Type 0} (turns : Turns S) where
  unfoldable pub os_lock : Ptr → ℕ → RmaState S → Outcome (RmaState S)
  os_lock th id s =
      let win = s.windows id in
      let asked = (s.threads th).asked_mode in
      from_rank_to_task win.global_ranks (s.threads th).target_rank
      >>= from_taskid_to_task (s.tasks th)
      >>= (λ task_d.
          if grants win task_d asked
          then turns.next_action th (set_window id (lock_given th task_d asked win) s)
          else ok (set_window id (lock_awaited th win) s))

  unfoldable pub lock_all : List Ptr → RmaState S → Outcome (RmaState S)
  lock_all [] s = ok s
  lock_all (th ∷ ths) s = os_lock th (s.threads th).window_id s >>= lock_all ths

  -- The end of an unlock: where no thread has the lock any more, those that wait ask for it again,
  -- all of them, in their order.
  abbrev pub after_unlock : ℕ → RmaState S → Outcome (RmaState S)
  after_unlock id s =
      let win = s.windows id in
      let waiting = win.threads_waiting_lock in
      let drained = drain (count_queue waiting + 1) waiting [] in
      if count_queue win.threads_with_lock == 0
      then if count_queue waiting == 0
        then ok (set_window id (record win { task_with_lock = a_nil; mode = window_mode_none }) s)
        else lock_all drained.1 (
            set_window id (record win { task_with_lock = a_nil; threads_waiting_lock = drained.0 })
              s)
      else ok (set_window id (record win { mode = window_mode_none }) s)

  unfoldable pub os_unlock : Ptr → ℕ → RmaState S → Outcome (RmaState S)
  os_unlock th id s =
      let win = s.windows id in
      if operation_of s.threads (s.threads th).task win.lock_operations.items == a_nil
      then extract_from_queue win.threads_with_lock th
        >>= (λ q. turns.next_action th (set_window id (record win { threads_with_lock = q }) s))
        >>= after_unlock id
      else ok (
          set_window id
            (record win { threads_waiting_unlock = in_fifo_queue tt win.threads_waiting_unlock th })
            s)
