-- ===== src/Semaphore/Balance.antt =====
-- Simulator/model/semaphore.c: the counter of a semaphore against the threads that wait on it.
use dimemas.Base.{
  ℕ, zero, suc, ◌+◌, ◌≡◌, refl, ap, sym, subst, ◌&&◌, ◌≢◌, inl, inr, ◌⊎◌, ==_self, Bool, true,
  false, List, [], ◌∷◌, length-append, ◌==◌, ==_ne, if◌then◌else◌, Bool-cases, length, Outcome, ok,
  ◌>>=◌, ℤ, pos, negsuc, gtz, inc, dec, arith,
}
use dimemas.Queue.{Ptr, a_nil, Item, Queue, query_prio_queue, in_fifo_queue}
use dimemas.Queue.Emptying.{out_fifo_queue-cons}
use dimemas.Semaphore.Base.{
  Semaphore, Scheduler, Task, put_sem, below_zero, released, signal_at, semaphore_signal, wait_at,
  semaphore_wait,
}

-- A counter below 0 counts the threads that wait; above it, none waits.
abbrev pub Balanced : ℤ → ℕ → Type 0
Balanced (pos n) waiting = waiting ≡ 0
Balanced (negsuc n) waiting = waiting ≡ suc n

abbrev pub SemOk : Semaphore → Type 0
SemOk sem = Balanced sem.counter (length sem.threads.items)

abbrev pub SemsOk : {S : Type 0} → Task S → Type 0
SemsOk t = (p : Ptr) → SemOk (t.sems p)

put_sem-SemOk :
    (m : Ptr → Semaphore) (p : Ptr) (sem : Semaphore)
    → ((q : Ptr) → SemOk (m q))
    → SemOk sem
    → (q : Ptr) → SemOk (put_sem m p sem q)
put_sem-SemOk m p sem all new q = elim (Bool-cases (q == p)) [
  | inl e ↦ rw e new
  | inr e ↦ rw e (all q)
]

inc-Balanced-pos : (c : ℤ) (w : ℕ) → below_zero c ≡ false → Balanced c w → Balanced (inc c) w
inc-Balanced-pos (pos n) w e b = b
inc-Balanced-pos (negsuc n) w e b = cc

inc-Balanced-neg : (c : ℤ) (w : ℕ) → below_zero c ≡ true → Balanced c (suc w) → Balanced (inc c) w
inc-Balanced-neg (pos n) w e b = cc
inc-Balanced-neg (negsuc zero) w e b = omega arith
inc-Balanced-neg (negsuc (suc n)) w e b = omega arith

dec-Balanced-pos : (c : ℤ) (w : ℕ) → gtz c (pos 0) ≡ true → Balanced c w → Balanced (dec c) w
dec-Balanced-pos (pos zero) w e b = ground arith
dec-Balanced-pos (pos (suc n)) w e b = b
dec-Balanced-pos (negsuc n) w e b = cc

dec-Balanced-neg : (c : ℤ) (w : ℕ) → gtz c (pos 0) ≡ false → Balanced c w → Balanced (dec c) (suc w)
dec-Balanced-neg (pos zero) w e b = omega (arith, b)
dec-Balanced-neg (pos (suc n)) w e b = ground arith
dec-Balanced-neg (negsuc n) w e b = omega (arith, b)

-- A thread waits on a semaphore whose counter is below 0.
some_waiting : (c : ℤ) → below_zero c ≡ true → ¬ Balanced c 0
some_waiting (pos n) e b = cc
some_waiting (negsuc n) e b = omega arith

released-SemOk :
    (sem : Semaphore) (items : List (Item Unit))
    → sem.threads.items ≡ items
    → below_zero sem.counter ≡ true
    → Balanced sem.counter (length items)
    → SemOk (released sem).0
released-SemOk sem [] e below b = absurd (some_waiting sem.counter below b)
released-SemOk sem (x ∷ xs) e below b =
    rw (out_fifo_queue-cons sem.threads e) (inc-Balanced-neg sem.counter (length xs) below b)

-- The thread is the first of those that wait.
abbrev pub First : List (Item Unit) → Ptr → Type 0
First items thread =
    (x : Item Unit) × (xs : List (Item Unit)) × (items ≡ x ∷ xs) × (thread ≡ x.content)

released-First :
    (sem : Semaphore) (items : List (Item Unit))
    → sem.threads.items ≡ items
    → below_zero sem.counter ≡ true
    → Balanced sem.counter (length items)
    → First items (released sem).1
released-First sem [] e below b = absurd (some_waiting sem.counter below b)
released-First sem (x ∷ xs) e below b =
    (x, xs, refl, ap (λ (r : Queue Unit × Ptr). r.1) (out_fifo_queue-cons sem.threads e))

-- A wait that blocks.
queued-SemOk :
    (sem : Semaphore) (thread : Ptr)
    → gtz sem.counter (pos 0) ≡ false
    → SemOk sem
    → SemOk
        (record sem { counter = dec sem.counter; threads = in_fifo_queue tt sem.threads thread })
unfolding in_fifo_queue
queued-SemOk sem thread low b =
    let longer = length-append sem.threads.items (record { order = tt; content = thread } ∷ []) in
    let one_more : length sem.threads.items + 1 ≡ suc (length sem.threads.items) = omega arith in
    rw (longer, one_more) (dec-Balanced-neg sem.counter (length sem.threads.items) low b)

module _ {S : Type 0} (scheduler : Scheduler S) (p thread : Ptr) (t : Task S) where
  -- The balance of every semaphore after a change of the counter of the one at p, where the other
  -- semaphores are as they were.
  pub record Changed (change : ℤ → ℤ) (t' : Task S) : Type 0 where
    pub balanced : SemsOk t'
    pub counter : (t'.sems p).counter ≡ change (t.sems p).counter
    pub same_queue : t'.semaphores ≡ t.semaphores
    pub others : (q : Ptr) → (q ≡ p) ⊎ (t'.sems q ≡ t.sems q)

  -- The call comes to a state so changed. When `wakes`, it ends there with the scheduler making a
  -- thread ready, one as `Woken` says; else it returns.
  abbrev pub Changes : (ℤ → ℤ) → Bool → (Ptr → Type 0) → Outcome (Task S) → Type 0
  Changes change wakes Woken step =
      (t' : Task S) × Changed change t'
      × (((wakes ≡ false) × (step ≡ ok t'))
          ⊎ ((woken : Ptr) × (wakes ≡ true)
              × Woken woken
              × (step ≡ (
                  scheduler.thread_to_ready woken t'.sched
                  >>= (λ s. ok (record t' { sched = s }))))))

  put : Semaphore → S → Task S
  put sem s = record t { sems = put_sem t.sems p sem; sched = s }

  put-Changed :
      (change : ℤ → ℤ) (sem : Semaphore) (s : S)
      → SemsOk t
      → SemOk sem
      → sem.counter ≡ change (t.sems p).counter
      → Changed change (put sem s)
  unfolding put
  put-Changed change sem s all new counted = record {
    balanced = put_sem-SemOk t.sems p sem all new;
    counter = rw (==_self p) counted;
    same_queue = refl;
    others =
        λ q. elim (Bool-cases (q == p)) [ inl e ↦ inl (ground arith) | inr e ↦ inr (rw e refl) ];
  }

  ready_if :
      (change : ℤ → ℤ) (Woken : Ptr → Type 0) (b more : Bool) (woken : Ptr) (sem : Semaphore)
      (s idle : S)
      → Changed change (put sem s)
      → Changed change (put sem idle)
      → b ≡ true
      → Woken woken
      → Changes change (b && more) Woken (
          if more
          then (scheduler.thread_to_ready woken s >>= (λ s'. ok (put sem s')))
          else ok (put sem idle))
  unfolding put
  ready_if change Woken b true woken sem s idle c d on who =
      (put sem s, c, inr (woken, rw on refl, who, refl))
  ready_if change Woken b false woken sem s idle c d on who =
      (put sem idle, d, inl (rw on refl, refl))

  signal_at-Changes :
      SemsOk t
      → Changes inc
          (below_zero (t.sems p).counter && (scheduler.more_actions thread t.sched).0)
          (First (t.sems p).threads.items)
          (signal_at scheduler p thread t)
  unfolding put
  signal_at-Changes all =
      let sem = t.sems p in
      let (more, s) = scheduler.more_actions thread t.sched in
      elim (Bool-cases (below_zero sem.counter)) [
        | inl e ↦
            let c : (z : S) → Changed inc (put (released sem).0 z) = λ z.
              put-Changed inc (released sem).0 z all
                (released-SemOk sem sem.threads.items refl e (all p)) refl in
            let ends =
              ready_if inc (First sem.threads.items) (below_zero sem.counter) more (released sem).1
                (released sem).0 s s (c s) (c s) e
                (released-First sem sem.threads.items refl e (all p)) in
            let is : signal_at scheduler p thread t ≡ (
                if more
                then (scheduler.thread_to_ready (released sem).1 s
                    >>= (λ s'. ok (put (released sem).0 s')))
                else ok (put (released sem).0 s)) =
              rw e refl in
            subst (Changes inc (below_zero sem.counter && more) (First sem.threads.items)) (sym is)
              ends
        | inr e ↦
            let up : Semaphore = record sem { counter = inc sem.counter } in
            (
              put up t.sched,
              put-Changed inc up t.sched all
                  (inc-Balanced-pos sem.counter (length sem.threads.items) e (all p)) refl,
              inl (rw e refl, rw e refl),
            )
      ]

  wait_at-Changes :
      SemsOk t
      → Changes dec
          (gtz (t.sems p).counter (pos 0) && (scheduler.more_actions thread t.sched).0)
          (λ woken. woken ≡ thread)
          (wait_at scheduler p thread t)
  unfolding put
  wait_at-Changes all =
      let sem = t.sems p in
      let (more, s) = scheduler.more_actions thread t.sched in
      elim (Bool-cases (gtz sem.counter (pos 0))) [
        | inl e ↦
            let down : Semaphore = record sem { counter = dec sem.counter } in
            let c : (z : S) → Changed dec (put down z) = λ z.
              put-Changed dec down z all
                (dec-Balanced-pos sem.counter (length sem.threads.items) e (all p)) refl in
            let on_cpu = scheduler.set_loose_cpu false thread s in
            let ends =
              ready_if dec (λ woken. woken ≡ thread) (gtz sem.counter (pos 0)) more thread down
                on_cpu s (c on_cpu) (c s) e refl in
            let is : wait_at scheduler p thread t ≡ (
                if more
                then (scheduler.thread_to_ready thread on_cpu >>= (λ s'. ok (put down s')))
                else ok (put down s)) =
              rw e refl in
            subst (Changes dec (gtz sem.counter (pos 0) && more) (λ woken. woken ≡ thread)) (sym is)
              ends
        | inr e ↦
            let blocked : Semaphore = record sem {
              counter = dec sem.counter;
              threads = in_fifo_queue tt sem.threads thread;
            } in
            let off_cpu = scheduler.set_loose_cpu true thread t.sched in
            (
              put blocked off_cpu,
              put-Changed dec blocked off_cpu all (queued-SemOk sem thread e (all p)) refl,
              inl (rw e refl, rw e refl),
            )
      ]

module _ {S : Type 0} (scheduler : Scheduler S) (sem_id : ℕ) (thread : Ptr) (t : Task S) where
  abbrev sem_at : Ptr
  sem_at = query_prio_queue t.semaphores sem_id

  -- SEMAPHORE_signal on a semaphore of the task takes its counter up by one and leaves the other
  -- semaphores alone. It keeps every counter below 0 at the number of the threads that wait, and
  -- none waits at the others. If the counter was below 0 and the signaller has
  -- more actions, its last step, in the state so changed, is that the scheduler makes the first
  -- thread ready that waited; else it returns that state.
  pub semaphore_signal-SemsOk :
      query_prio_queue t.semaphores sem_id ≢ a_nil
      → SemsOk t
      → Changes scheduler
          (query_prio_queue t.semaphores sem_id)
          thread
          t
          inc
          (below_zero (t.sems (query_prio_queue t.semaphores sem_id)).counter
            && (scheduler.more_actions thread t.sched).0)
          (First (t.sems (query_prio_queue t.semaphores sem_id)).threads.items)
          (semaphore_signal scheduler sem_id thread t)
  unfolding semaphore_signal
  semaphore_signal-SemsOk known all =
      rw (==_ne sem_at a_nil known) (signal_at-Changes scheduler sem_at thread t all)

  -- SEMAPHORE_wait on a semaphore of the task takes its counter down by one and leaves the other
  -- semaphores alone. It keeps every counter below 0 at the number of the threads that wait, and
  -- none waits at the others. If the counter was above 0 and the thread has
  -- more actions, its last step, in the state so changed, is that the scheduler makes the thread
  -- ready; else it returns that state.
  pub semaphore_wait-SemsOk :
      query_prio_queue t.semaphores sem_id ≢ a_nil
      → SemsOk t
      → Changes scheduler
          (query_prio_queue t.semaphores sem_id)
          thread
          t
          dec
          (gtz (t.sems (query_prio_queue t.semaphores sem_id)).counter (pos 0)
            && (scheduler.more_actions thread t.sched).0)
          (λ woken. woken ≡ thread)
          (semaphore_wait scheduler sem_id thread t)
  unfolding semaphore_wait
  semaphore_wait-SemsOk known all =
      rw (==_ne sem_at a_nil known) (wait_at-Changes scheduler sem_at thread t all)
