-- ===== src/Sched/Slices.antt =====
-- Simulator/sched/SCH_rr.c: the slices of a burst, and the place of a thread in the ready queue.
use dimemas.Base.{
  ℕ, zero, suc, ◌+◌, ◌-◌, ◌≤◌, ◌<◌, ◌≡◌, ◌^◌, refl, sym, min, subst, ◌⊎◌, inl, inr, false, List, [],
  ◌∷◌, ◌==◌, if◌then◌else◌, Bool-cases, All, arith, ok,
}
use dimemas.Queue.{Ptr, Queue, in_lifo_queue}
use dimemas.Queue.Stack.{out_fifo_queue-in_lifo_queue}
use dimemas.Sched.RoundRobin.{
  work, Step, RrThread, rr_thread_to_ready, rr_next_thread_to_run, new_turn, ex_time, after_slice,
  run_slice, rr_get_execution_time,
}

-- A machine with no rounding.
abbrev exactly : ℕ → ℕ
exactly n = n

-- No more than a quantum is used.
abbrev pub Bounded : ℕ → RrThread → Type 0
Bounded quantum t = t.last_quantum ≤ quantum

ex_time-low :
    (quantum : ℕ) (t : RrThread) (c : ℕ)
    → (ex_time exactly quantum t c ≤ quantum) × (ex_time exactly quantum t c ≤ c)
ex_time-low quantum t c = (ground arith, ground arith)

ex_time-positive :
    (quantum : ℕ) (t : RrThread) (c : ℕ)
    → 0 < quantum
    → Bounded quantum t
    → 0 < c
    → 0 < ex_time exactly quantum t c
ex_time-positive quantum t c some_time bounded more = ground arith

used :
    (quantum : ℕ) (t : RrThread) (c : ℕ)
    → Bounded quantum t
    → (if new_turn quantum t
        then ex_time exactly quantum t c
        else t.last_quantum + ex_time exactly quantum t c)
      ≤ quantum
used quantum t c bounded = ground arith

-- The burst after a slice.
abbrev Rest : ℕ → ℕ → List Step → List Step → Type 0
Rest c ex others after =
    ((ex ≡ c) × (after ≡ others))
    ⊎ ((ex < c) × (after ≡ record { action = work; cpu_time = c - ex } ∷ others))

left_over :
    (c ex : ℕ) (others : List Step)
    → ex ≤ c
    → Rest c ex others (after_slice (c - ex) (record { action = work; cpu_time = c }) others)
left_over c ex others low = elim (Bool-cases ((c - ex) == 0)) [
  | inl e ↦ inl (ground arith, rw e)
  | inr e ↦ inr (ground arith, rw e)
]

module _ (round : ℕ → ℕ) (exact : (n : ℕ) → n ≤ 2 ^ 53 → round n ≡ n) (quantum : ℕ)
    (held : quantum ≤ 2 ^ 53) where
  -- On times that a double holds exactly, nothing is rounded.
  run_slice-exact :
      (t : RrThread) (c : ℕ) (others : List Step)
      → Bounded quantum t
      → c ≤ 2 ^ 53
      → run_slice round quantum t (record { action = work; cpu_time = c }) others
        ≡ run_slice exactly quantum t (record { action = work; cpu_time = c }) others
  run_slice-exact t c others bounded held' =
      let left : round (quantum - t.last_quantum) ≡ quantum - t.last_quantum =
        exact (quantum - t.last_quantum) (omega arith) in
      let ex = ex_time exactly quantum t c in
      let burst : round (c - ex) ≡ c - ex = exact (c - ex) (omega arith) in
      elim (Bool-cases (new_turn quantum t)) [
        | inl e ↦
            let whole : round (c - min c quantum) ≡ c - min c quantum =
              exact (c - min c quantum) (omega arith) in
            rw (e, whole) refl
        | inr e ↦
            let ex' : ℕ = min (quantum - t.last_quantum) c in
            let part : round (c - ex') ≡ c - ex' = exact (c - ex') (omega arith) in
            let total : round (t.last_quantum + ex') ≡ t.last_quantum + ex' =
              exact (t.last_quantum + ex') (ground (arith, bounded, held)) in
            rw (e, left, part, total) refl
      ]

  -- A thread with a burst in front that has used no more than the quantum gets a slice of at most
  -- a quantum and at most the burst; the slice comes off the burst, which leaves the thread when no
  -- time of it is left, and the use of the quantum stays within it.
  rr_get_execution_time-slice :
      (t : RrThread) (c : ℕ) (others : List Step)
      → Bounded quantum t
      → c ≤ 2 ^ 53
      → t.actions ≡ record { action = work; cpu_time = c } ∷ others
      → (t' : RrThread) × (ex : ℕ) × (rr_get_execution_time round quantum t ≡ ok (t', ex))
        × (ex ≤ quantum)
        × (ex ≤ c)
        × (ex ≡ ex_time exactly quantum t c)
        × Bounded quantum t'
        × (((ex ≡ c) × (t'.actions ≡ others))
            ⊎ ((ex < c) × (t'.actions ≡ record { action = work; cpu_time = c - ex } ∷ others)))
  unfolding rr_get_execution_time
  rr_get_execution_time-slice t c others bounded held' front =
      let a : Step = record { action = work; cpu_time = c } in
      let (low, low') = ex_time-low quantum t c in
      (
        (run_slice exactly quantum t a others).0,
        ex_time exactly quantum t c,
        rw (front, run_slice-exact t c others bounded held') refl,
        low,
        low',
        refl,
        used quantum t c bounded,
        left_over c (ex_time exactly quantum t c) others low',
      )

-- Turns of a thread on its CPU, one call of the policy after another, and their times.
pub data Turns (round : ℕ → ℕ) (quantum : ℕ) : RrThread → List ℕ → RrThread → Type 0 where
  stop : {t : RrThread} → Turns round quantum t [] t
  turn :
      {t t' t'' : RrThread} {ex : ℕ} {exs : List ℕ}
      → rr_get_execution_time round quantum t ≡ ok (t', ex)
      → Turns round quantum t' exs t''
      → Turns round quantum t (ex ∷ exs) t''

abbrev pub sum : List ℕ → ℕ
sum [] = 0
sum (x ∷ xs) = x + sum xs

-- The whole burst, done in turns.
abbrev pub Finishes : (ℕ → ℕ) → ℕ → RrThread → ℕ → List Step → Type 0
Finishes round quantum t c others =
    (exs : List ℕ) × (t' : RrThread) × Turns round quantum t exs t'
    × (sum exs ≡ c)
    × All (λ (ex : ℕ). ex ≤ quantum) exs
    × Bounded quantum t'
    × (t'.actions ≡ others)

module _ (round : ℕ → ℕ) (exact : (n : ℕ) → n ≤ 2 ^ 53 → round n ≡ n) (quantum : ℕ)
    (held : quantum ≤ 2 ^ 53) (some_time : 0 < quantum) where
  finishing :
      (n : ℕ) (t : RrThread) (c : ℕ) (others : List Step)
      → c < n
      → c ≤ 2 ^ 53
      → Bounded quantum t
      → t.actions ≡ record { action = work; cpu_time = c } ∷ others
      → Finishes round quantum t c others
  finishing zero t c others enough held' bounded front = absurd (omega arith)
  finishing (suc n) t c others enough held' bounded front =
      let (t', ex, is, low, low', is_ex, bounded', rest) =
        rr_get_execution_time-slice round exact quantum held t c others bounded held' front in
      elim rest [
        | inl (all, over) ↦
            (ex ∷ [], t', turn is stop, omega (arith, all), (low, tt), bounded', over)
        | inr (part, left) ↦
            let positive : 0 < ex =
              subst (λ x. 0 < x) (sym is_ex)
                (ex_time-positive quantum t c some_time bounded (omega arith)) in
            let (exs, t'', turns, total, each, bounded'', over) =
              finishing n t' (c - ex) others (omega arith) (omega arith) bounded' left in
            (ex ∷ exs, t'', turn is turns, omega arith, (low, each), bounded'', over)
      ]

  -- On a machine that does not round sums and differences up to 2 ^ 53 units of time: a thread with
  -- a burst in front, under a quantum that is not 0 and of which it has used no more than all, both
  -- of at most 2 ^ 53 units, ends the burst in turns of at most a quantum each, whose times sum up to
  -- the burst, and it goes on to the actions behind it.
  pub rr_get_execution_time-Finishes :
      (t : RrThread) (c : ℕ) (others : List Step)
      → c ≤ 2 ^ 53
      → Bounded quantum t
      → t.actions ≡ record { action = work; cpu_time = c } ∷ others
      → Finishes round quantum t c others
  rr_get_execution_time-Finishes t c others held' bounded front =
      finishing (suc c) t c others (omega arith) held' bounded front

-- A thread with actions that keeps its CPU, where sends do not lose it, is the next one to run, and
-- the others wait as before.
rr_next_thread_to_run-kept :
    (ready : Queue Unit) (thread : Ptr) (t : RrThread) (a : Step) (others : List Step)
    → t.loose_cpu ≡ false
    → t.actions ≡ a ∷ others
    → (ready' : Queue Unit) × (rr_thread_to_ready false ready thread t ≡ ok ready')
      × (rr_next_thread_to_run ready' ≡ (ready, thread))
unfolding rr_thread_to_ready rr_next_thread_to_run
rr_next_thread_to_run-kept ready thread t a others keeps front =
    (in_lifo_queue tt ready thread, rw (front, keeps), out_fifo_queue-in_lifo_queue ready tt thread)
