-- ===== src/Semaphore/Base.antt =====
-- Simulator/model/semaphore.c: the semaphores of one task. `sems` are the blocks that the queue
-- `semaphores` of the task leads to. The scheduler and what it keeps (`S`) are an interface. The
-- counters of the traces for Paraver are left out.
use dimemas.Base.{
  ℕ, zero, suc, ◌+◌, Bool, true, false, ◌==◌, if◌then◌else◌, Outcome, ok, panic, ◌>>=◌, ℤ, pos,
  negsuc, gtz, inc, dec,
}
use dimemas.Queue.{
  Ptr, a_nil, Queue, create_queue, in_fifo_queue, out_fifo_queue, insert_queue, query_prio_queue,
}

-- `struct t_semaphore`
pub record Semaphore : Type 0 where
  pub sem_id : ℕ
  pub counter : ℤ
  pub threads : Queue Unit

-- What the semaphores use of the scheduler: `more_actions` may read the next action of the thread,
-- and `set_loose_cpu` writes the field of the thread.
pub record Scheduler (S : Type 0) : Type 0 where
  pub more_actions : Ptr → S → Bool × S
  pub thread_to_ready : Ptr → S → Outcome S
  pub set_loose_cpu : Bool → Ptr → S → S

pub record Task (S : Type 0) : Type 0 where
  pub semaphores : Queue ℕ
  pub sems : Ptr → Semaphore
  pub sched : S

-- `MAX_SEMAPHORES`
abbrev pub max_semaphores : ℕ
max_semaphores = 100

abbrev pub put_sem : (Ptr → Semaphore) → Ptr → Semaphore → Ptr → Semaphore
put_sem m p sem q = if q == p then sem else m q

abbrev pub below_zero : ℤ → Bool
below_zero (pos n) = false
below_zero (negsuc n) = true

-- The semaphore after `counter++`, and the first waiting thread taken out, if `counter < 0`.
abbrev pub released : Semaphore → Semaphore × Ptr
released sem = (
  record sem { counter = inc sem.counter; threads = (out_fifo_queue sem.threads).0 },
  (out_fifo_queue sem.threads).1,
)

module _ {S : Type 0} (scheduler : Scheduler S) where
  -- The scheduler's own calls leave the action of the signaller in front, so that it has more.
  -- `if (more_actions (thread)) SCHEDULER_thread_to_ready (awaked);`
  abbrev pub wake : Ptr → Ptr → Task S → Outcome (Task S)
  wake thread awaked t =
      let (more, s) = scheduler.more_actions thread t.sched in
      if more
      then (scheduler.thread_to_ready awaked s >>= (λ s'. ok (record t { sched = s' })))
      else ok (record t { sched = s })

  abbrev pub signal_at : Ptr → Ptr → Task S → Outcome (Task S)
  signal_at p thread t =
      let sem = t.sems p in
      if below_zero sem.counter
      then wake thread (released sem).1 (record t { sems = put_sem t.sems p (released sem).0 })
      else ok (record t { sems = put_sem t.sems p (record sem { counter = inc sem.counter }) })

  unfoldable pub semaphore_signal : ℕ → Ptr → Task S → Outcome (Task S)
  semaphore_signal sem_id thread t =
      let p = query_prio_queue t.semaphores sem_id in
      if p == a_nil then panic else signal_at p thread t

  -- A wait on a counter above 0 goes on, and one that blocks gives up the CPU and queues up.
  abbrev pub pass : Ptr → Task S → Outcome (Task S)
  pass thread t =
      let (more, s) = scheduler.more_actions thread t.sched in
      if more
      then (scheduler.thread_to_ready thread (scheduler.set_loose_cpu false thread s)
          >>= (λ s'. ok (record t { sched = s' })))
      else ok (record t { sched = s })

  abbrev pub wait_at : Ptr → Ptr → Task S → Outcome (Task S)
  wait_at p thread t =
      let sem = t.sems p in
      if gtz sem.counter (pos 0)
      then pass thread
          (record t { sems = put_sem t.sems p (record sem { counter = dec sem.counter }) })
      else ok (record t {
        sems = put_sem t.sems p (record sem {
          counter = dec sem.counter;
          threads = in_fifo_queue tt sem.threads thread;
        });
        sched = scheduler.set_loose_cpu true thread t.sched;
      })

  unfoldable pub semaphore_wait : ℕ → Ptr → Task S → Outcome (Task S)
  semaphore_wait sem_id thread t =
      let p = query_prio_queue t.semaphores sem_id in
      if p == a_nil then panic else wait_at p thread t

  unfoldable pub semaphore_signal_n : ℕ → ℕ → Ptr → Task S → Outcome (Task S)
  semaphore_signal_n sem_id zero thread t = ok t
  semaphore_signal_n sem_id (suc n) thread t =
      semaphore_signal sem_id thread t >>= semaphore_signal_n sem_id n thread

module _ {S : Type 0} where
  -- SEMAPHORE_Init for one task; `fresh` gives the address of the block for each round.
  unfoldable pub init_from : ℕ → (ℕ → Ptr) → ℕ → Task S → Task S
  init_from sem_id fresh zero t = t
  init_from sem_id fresh (suc rounds) t = init_from (suc sem_id) fresh rounds (record t {
    semaphores = insert_queue t.semaphores (fresh sem_id) (sem_id + 1);
    sems =
        put_sem t.sems (fresh sem_id)
          (record { sem_id = sem_id + 1; counter = pos 0; threads = create_queue });
  })

  unfoldable pub semaphore_init : (ℕ → Ptr) → Task S → Task S
  semaphore_init fresh t = init_from 0 fresh max_semaphores (record t { semaphores = create_queue })
