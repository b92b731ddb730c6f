-- ===== src/Rma/Tests.antt =====
-- A run of the locks of Simulator/model/memory.c: thread 5 has an exclusive lock that 6 waits for.
use dimemas.Base.{[], ◌∷◌, ok}
use dimemas.Queue.{Ptr, Queue, null}
use dimemas.Rma.Locks.{RmaState, Turns}
use dimemas.Rma.Exclusion.{Locks}

abbrev queue_of_one : Ptr → Queue Unit
queue_of_one p = record { items = record { order = tt; content = p } ∷ []; curr = null; count = 1 }

abbrev no_threads : Queue Unit
no_threads = record { items = []; curr = null; count = 0 }

abbrev locked_state : RmaState Unit
locked_state = record {
  windows = λ id. record {
    global_ranks = 0 ∷ 1 ∷ [];
    mode = 0;
    task_with_lock = 3;
    lock_mode = 1;
    threads_with_lock = queue_of_one 5;
    threads_waiting_lock = queue_of_one 6;
    threads_waiting_unlock = no_threads;
    lock_operations = no_threads;
  };
  threads = λ th. record { task = th; window_id = 2; target_rank = 0; asked_mode = 1 };
  tasks = λ th. (3, 0) ∷ (4, 1) ∷ [];
  rest = tt;
}

-- Threads that do nothing more.
abbrev quiet_turns : Turns Unit
quiet_turns = record { next_action = λ th s. ok s }
