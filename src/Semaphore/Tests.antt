-- ===== src/Semaphore/Tests.antt =====
-- Runs of Simulator/model/semaphore.c with a scheduler that lists the threads it made ready, and
-- in which the thread at the address 9 has no more actions.
use dimemas.Base.{
  ◌≡◌, refl, true, false, ◌≢◌, not, List, [], ◌∷◌, ◌==◌, ok, negsuc, inc, dec, arith,
}
use dimemas.Queue.{Ptr, a_nil, Item, null, query_prio_queue}
use dimemas.Semaphore.Base.{Semaphore, Scheduler, Task, semaphore_signal, semaphore_wait}
use dimemas.Semaphore.Balance.{
  SemsOk, First, Changes, semaphore_signal-SemsOk, semaphore_wait-SemsOk,
}
use dimemas.Semaphore.Waking.{semaphore_signal-first}

abbrev listing : Scheduler (List Ptr)
listing = record {
  more_actions = λ thread s. (not (thread == 9), s);
  thread_to_ready = λ thread s. ok (thread ∷ s);
  set_loose_cpu = λ loose thread s. s;
}

abbrev waiter : Ptr → Item Unit
waiter thread = record { order = tt; content = thread }

-- A semaphore on which the threads 16 and 32 wait.
abbrev crowded : Semaphore
crowded = record {
  sem_id = 1;
  counter = negsuc 1;
  threads = record { items = waiter 16 ∷ waiter 32 ∷ []; curr = null; count = 2 };
}

abbrev one_semaphore : Task (List Ptr)
one_semaphore = record {
  semaphores = record { items = record { order = 1; content = 500 } ∷ []; curr = null; count = 1 };
  sems = λ p. crowded;
  sched = [];
}

one_semaphore-SemsOk : SemsOk one_semaphore
one_semaphore-SemsOk p = refl

query_500 : query_prio_queue one_semaphore.semaphores 1 ≡ 500
unfolding query_prio_queue
query_500 = refl

known_500 : query_prio_queue one_semaphore.semaphores 1 ≢ a_nil
unfolding query_prio_queue
known_500 h = omega (arith, h)

semaphore_signal-SemsOk_example :
    Changes listing
      (query_prio_queue one_semaphore.semaphores 1)
      8
      one_semaphore
      inc
      true
      (First (waiter 16 ∷ waiter 32 ∷ []))
      (semaphore_signal listing 1 8 one_semaphore)
semaphore_signal-SemsOk_example =
    semaphore_signal-SemsOk listing 1 8 one_semaphore known_500 one_semaphore-SemsOk

semaphore_wait-SemsOk_example :
    Changes listing
      (query_prio_queue one_semaphore.semaphores 1)
      8
      one_semaphore
      dec
      false
      (λ woken. woken ≡ 8)
      (semaphore_wait listing 1 8 one_semaphore)
semaphore_wait-SemsOk_example =
    semaphore_wait-SemsOk listing 1 8 one_semaphore known_500 one_semaphore-SemsOk

semaphore_signal-first_example :
    (t' : Task (List Ptr)) × (semaphore_signal listing 1 8 one_semaphore ≡ ok t')
    × ((t'.sems 500).threads.items ≡ waiter 32 ∷ [])
    × (t'.sched ≡ 16 ∷ [])
semaphore_signal-first_example =
    semaphore_signal-first listing 1 500 8 one_semaphore (waiter 16) (waiter 32 ∷ []) [] (16 ∷ [])
      query_500 (λ h. omega (arith, h)) refl refl refl refl
