-- ===== src/Semaphore/Start.antt =====
-- Simulator/model/semaphore.c, SEMAPHORE_Init: each semaphore is found under its number.
use dimemas.Base.{
  ℕ, zero, suc, ◌+◌, ◌<◌, ◌≡◌, ap, sym, ◌∙◌, inl, inr, true, false, ◌&&◌, ltb, leb, ◌==◌,
  Bool-cases, arith, pos,
}
use dimemas.Queue.{Ptr, Queue, create_queue, insert_queue, query_prio_queue}
use dimemas.Queue.Sorted.{IsSorted, has_key, query_prio_queue-insert_queue}
use dimemas.Queue.Keys.{has_key-insert_queue, insert_queue-IsSorted}
use dimemas.Semaphore.Base.{Task, put_sem, max_semaphores, init_from, semaphore_init}

-- The numbers from 1 to `n` are in the queue, each with its own block.
abbrev Numbered : (ℕ → Ptr) → ℕ → Queue ℕ → Type 0
Numbered fresh n q =
    IsSorted q.items
    × ((k : ℕ) → has_key k q.items ≡ (ltb 0 k && leb k n))
    × ((i : ℕ) → i < n → query_prio_queue q (i + 1) ≡ fresh i)

insert_queue-Numbered :
    (fresh : ℕ → Ptr) (n : ℕ) (q : Queue ℕ)
    → Numbered fresh n q
    → Numbered fresh (suc n) (insert_queue q (fresh n) (n + 1))
insert_queue-Numbered fresh n q (sorted, keys, found) = (
  insert_queue-IsSorted q (fresh n) (n + 1) sorted,
  λ k.
      let now = has_key-insert_queue q (fresh n) (n + 1) k in
      let before = keys k in now ∙ (rw before (ground arith)),
  λ i low.
      let asked = query_prio_queue-insert_queue q (fresh n) (n + 1) (i + 1) sorted in
      let before = keys (i + 1) in
      asked ∙ elim (Bool-cases (ltb i n)) [
        | inl e ↦
            let there : (ltb 0 (i + 1) && leb (i + 1) n) ≡ true = ground arith in
            rw (before, there) (found i (ground arith))
        | inr e ↦
            let last : i ≡ n = ground arith in
            let not_there : (ltb 0 (i + 1) && leb (i + 1) n) ≡ false = ground arith in
            let itself : (i + 1 == n + 1) ≡ true = ground arith in
            rw (before, not_there, itself) (ap fresh (sym last))
      ],
)

init_from-Numbered :
    {S : Type 0} (fresh : ℕ → Ptr) (rounds n : ℕ) (t : Task S)
    → Numbered fresh n t.semaphores
    → Numbered fresh (n + rounds) (init_from n fresh rounds t).semaphores
unfolding init_from
init_from-Numbered fresh zero n t numbered = let same : n + 0 ≡ n = omega arith in rw same numbered
init_from-Numbered fresh (suc rounds) n t numbered =
    let next : n + suc rounds ≡ suc n + rounds = omega arith in
    rw next (
      init_from-Numbered fresh rounds (suc n)
        (record t {
          semaphores = insert_queue t.semaphores (fresh n) (n + 1);
          sems =
              put_sem t.sems (fresh n)
                (record { sem_id = n + 1; counter = pos 0; threads = create_queue });
        })
        (insert_queue-Numbered fresh n t.semaphores numbered))

-- After SEMAPHORE_Init the task has MAX_SEMAPHORES semaphores: a number from 1 to it finds the block
-- that was allocated for it, and no other number is in the queue.
semaphore_init-found :
    {S : Type 0} (fresh : ℕ → Ptr) (t : Task S)
    → ((i : ℕ)
        → i < max_semaphores
        → query_prio_queue (semaphore_init fresh t).semaphores (i + 1) ≡ fresh i)
      × ((k : ℕ)
          → has_key k (semaphore_init fresh t).semaphores.items ≡ (ltb 0 k && leb k max_semaphores))
unfolding semaphore_init create_queue
semaphore_init-found fresh t =
    let start : Numbered fresh 0 create_queue =
      (tt, λ k. ground arith, λ i low. absurd (omega arith)) in
    let (sorted, keys, found) =
      init_from-Numbered fresh max_semaphores 0 (record t { semaphores = create_queue }) start in
    (found, keys)
