-- ===== src/Sched/RoundRobin.antt =====
-- Simulator/sched/SCH_rr.c: round robin, with a quantum for each turn of a thread on its CPU. Times,
-- doubles in C, are whole multiples of a small unit, a power of two of a nanosecond; the machine
-- rounds each sum and difference of them, which `round` stands for. The configuration file that RR_init reads is not modelled.
use dimemas.Base.{
  ℕ, ◌+◌, ◌-◌, Bool, true, ◌||◌, List, [], ◌∷◌, ◌==◌, if◌then◌else◌, min, Outcome, ok, panic,
  undefined,
}
use dimemas.Queue.{Ptr, Queue, in_fifo_queue, in_lifo_queue, out_fifo_queue}

abbrev pub work : ℕ
work = 1

-- The head of a `struct t_action`, with `desc.compute.cpu_time`.
pub record Step : Type 0 where
  pub action : ℕ
  pub cpu_time : ℕ

-- The fields of a thread that the policy reads and writes; `last_quantum` is the one of its
-- `sch_parameters`, and `actions` the chain of its actions.
pub record RrThread : Type 0 where
  pub loose_cpu : Bool
  pub last_quantum : ℕ
  pub actions : List Step

-- `t_SCH_rr` starts at 0: RR_init_scheduler_parameters, RR_clear_parameters.
unfoldable pub rr_clear_parameters : RrThread → RrThread
rr_clear_parameters t = record t { last_quantum = 0 }

unfoldable pub rr_copy_parameters : RrThread → RrThread → RrThread
rr_copy_parameters from to = record to { last_quantum = from.last_quantum }

-- RR_thread_to_ready: `thread` is the address of `t`, `ready` the queue of its node.
abbrev pub to_ready : Bool → Bool → Queue Unit → Ptr → List Step → Outcome (Queue Unit)
to_ready lost_cpu_on_send loose ready thread [] = panic
to_ready lost_cpu_on_send loose ready thread (a ∷ others) = ok (
    if loose || lost_cpu_on_send
    then in_fifo_queue tt ready thread
    else in_lifo_queue tt ready thread)

unfoldable pub rr_thread_to_ready : Bool → Queue Unit → Ptr → RrThread → Outcome (Queue Unit)
rr_thread_to_ready lost_cpu_on_send ready thread t =
    to_ready lost_cpu_on_send t.loose_cpu ready thread t.actions

unfoldable pub rr_next_thread_to_run : Queue Unit → Queue Unit × Ptr
rr_next_thread_to_run ready = out_fifo_queue ready

-- `loose_cpu || last_quantum == quantum`: the thread starts a quantum of its own.
abbrev pub new_turn : ℕ → RrThread → Bool
new_turn quantum t = t.loose_cpu || (t.last_quantum == quantum)

-- The action that is left, or the next ones once no time of it is.
abbrev pub after_slice : ℕ → Step → List Step → List Step
after_slice left a others = if left == 0 then others else record a { cpu_time = left } ∷ others

-- `round` is what the machine makes of the exact result of an addition or a subtraction.
module _ (round : ℕ → ℕ) (quantum : ℕ) where
  abbrev pub ex_time : RrThread → ℕ → ℕ
  ex_time t cpu_time =
      if new_turn quantum t
      then min cpu_time quantum
      else min (round (quantum - t.last_quantum)) cpu_time

  abbrev pub run_slice : RrThread → Step → List Step → RrThread × ℕ
  run_slice t a others =
      let ex = ex_time t a.cpu_time in
      (
        record {
          loose_cpu = true;
          last_quantum = if new_turn quantum t then ex else round (t.last_quantum + ex);
          actions = after_slice (round (a.cpu_time - ex)) a others;
        },
        ex,
      )

  -- The action is read through the pointer with no test for AC_NIL.
  abbrev pub execute : RrThread → List Step → Outcome (RrThread × ℕ)
  execute t [] = undefined
  execute t (a ∷ others) = if a.action == work then ok (run_slice t a others) else panic

  unfoldable pub rr_get_execution_time : RrThread → Outcome (RrThread × ℕ)
  rr_get_execution_time t = execute t t.actions
