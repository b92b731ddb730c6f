-- ===== src/Sched/Tests.antt =====
-- Runs of Simulator/sched/SCH_rr.c: a burst of 25 under a quantum of 10.
use dimemas.Base.{
  ℕ, ltb, if◌then◌else◌, ◌^◌, ◌*◌, ◌/◌, ◌≤◌, ◌≡◌, refl, true, false, List, [], ◌∷◌, ok, arith,
}
use dimemas.Queue.{Queue, null}
use dimemas.Sched.RoundRobin.{work, Step, RrThread, rr_get_execution_time}
use dimemas.Sched.Slices.{Finishes, rr_get_execution_time-Finishes}

abbrev burst : ℕ → List Step
burst c = record { action = work; cpu_time = c } ∷ []

abbrev runner : RrThread
runner = record { loose_cpu = false; last_quantum = 4; actions = burst 25 }

-- Above 2 ^ 53 the doubles lie two units or more apart; here all of those results go down to the
-- even number.
abbrev to_double : ℕ → ℕ
to_double n = if ltb (2 ^ 53) n then 2 * (n / 2) else n

to_double-exact : (n : ℕ) → n ≤ 2 ^ 53 → to_double n ≡ n
to_double-exact n h = ground arith

first_turn :
    rr_get_execution_time to_double 10 runner
    ≡ ok (record { loose_cpu = true; last_quantum = 10; actions = burst 19 }, 6)
unfolding rr_get_execution_time
first_turn = refl

rr_get_execution_time-Finishes_example : Finishes to_double 10 runner 25 []
rr_get_execution_time-Finishes_example =
    rr_get_execution_time-Finishes to_double to_double-exact 10 (omega arith) (omega arith) runner
      25 [] (omega arith) (omega arith) refl

abbrev idle_node : Queue Unit
idle_node = record { items = []; curr = null; count = 0 }
