-- ===== src/Semaphore/Waking.antt =====
-- Simulator/model/semaphore.c: which thread a signal wakes.
use dimemas.Base.{ℕ, ◌≡◌, refl, ◌≢◌, true, false, List, ◌∷◌, ◌==◌, ==_self, ==_ne, ok}
use dimemas.Queue.{Ptr, a_nil, Item, query_prio_queue}
use dimemas.Queue.Emptying.{out_fifo_queue-cons}
use dimemas.Semaphore.Base.{Scheduler, Task, put_sem, below_zero, released, semaphore_signal}

module _ {S : Type 0} (scheduler : Scheduler S) where
  -- SEMAPHORE_signal on a counter below 0 takes the first waiting thread out of the queue and makes
  -- it ready, if the signaller has more actions.
  pub semaphore_signal-first :
      (sem_id p : ℕ) (thread : Ptr) (t : Task S) (x : Item Unit) (xs : List (Item Unit)) (s s' : S)
      → query_prio_queue t.semaphores sem_id ≡ p
      → p ≢ a_nil
      → below_zero (t.sems p).counter ≡ true
      → (t.sems p).threads.items ≡ x ∷ xs
      → scheduler.more_actions thread t.sched ≡ (true, s)
      → scheduler.thread_to_ready x.content s ≡ ok s'
      → (t' : Task S) × (semaphore_signal scheduler sem_id thread t ≡ ok t')
        × ((t'.sems p).threads.items ≡ xs)
        × (t'.sched ≡ s')
  unfolding semaphore_signal
  semaphore_signal-first sem_id p thread t x xs s s' found known below front more ready =
      let off : (p == a_nil) ≡ false = ==_ne p a_nil known in
      (
        record t { sems = put_sem t.sems p (released (t.sems p)).0; sched = s' },
        rw (found, off, below, more, out_fifo_queue-cons (t.sems p).threads front, ready),
        rw (==_self p) (rw (out_fifo_queue-cons (t.sems p).threads front)),
        refl,
      )
