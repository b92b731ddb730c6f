-- ===== src/Sched/RunTests.antt =====
-- Runs of Simulator/sched/schedule.c on a node with a busy CPU, a free one and two free GPUs.
use dimemas.Base.{
  ℕ, ◌<◌, ◌≡◌, refl, ◌⊎◌, Bool, true, false, Option, none, some, [], ◌∷◌, ◌==◌, if◌then◌else◌, ok,
  undefined, arith,
}
use dimemas.Queue.{Ptr, a_nil, Item, Cursor, null}
use dimemas.Sched.Dispatch.{
  Cpu, RunThread, NodeState, Policy, is_free, looked_at, select_free_cpu, num_free_cpu, start_run,
  put_thread_on_run,
}
use dimemas.Sched.Selection.{InPlace, Passes, Selected, select_free_cpu-Selected}
use dimemas.Sched.Running.{Placed, Runs, put_thread_on_run-Placed, put_thread_on_run-Runs}

abbrev a_cpu : Ptr → Ptr → Bool → Cpu
a_cpu thread context gpu = record {
  current_thread = thread;
  current_thread_context = context;
  is_gpu = gpu;
}

abbrev four_cpus : Ptr → Option Cpu
four_cpus p =
    if p == 10
    then some (a_cpu 5 5 false)
    else if p == 11
    then some (a_cpu a_nil 3 false)
    else if p == 12
    then some (a_cpu a_nil a_nil true)
    else if p == 13
    then some (a_cpu a_nil a_nil true)
    else none

abbrev cpu_item : Ptr → Item Unit
cpu_item p = record { order = tt; content = p }

-- Thread 7 is a kernel of an accelerator, the others have no accelerator.
abbrev runnable : Ptr → RunThread
runnable th = record {
  accelerator = th == 7;
  kernel = th == 7;
  host = false;
  cpu = a_nil;
  last_paraver = 0;
  put_into_ready = 20;
  time_ready_without_cpu = 0;
  n_th_in_run = 0;
  doing_context_switch = false;
  to_be_preempted = false;
  min_time_to_be_preempted = 0;
  event = a_nil;
}

abbrev busy_node : NodeState Unit
busy_node = record {
  current_time = 30;
  context_switch = 0;
  minimum_quantum = 0;
  cpu_queue = record {
    items = cpu_item 10 ∷ cpu_item 11 ∷ cpu_item 12 ∷ cpu_item 13 ∷ [];
    curr = null;
    count = 4;
  };
  cpus = four_cpus;
  threads = runnable;
  rest = tt;
}

busy_node-InPlace : InPlace busy_node.cpus busy_node.cpu_queue.items
busy_node-InPlace = (
  ((λ h. omega arith), (a_cpu 5 5 false, refl)),
  (
    ((λ h. omega arith), (a_cpu a_nil 3 false, refl)),
    (
      ((λ h. omega arith), (a_cpu a_nil a_nil true, refl)),
      (((λ h. omega arith), (a_cpu a_nil a_nil true, refl)), tt),
    ),
  ),
)

abbrev plain_policy : Policy Unit
plain_policy = record {
  next_thread = λ s. ok (s, 4);
  execution_time = λ th s. ok (s, 50);
  event_timer = λ when th s. ok (s, when);
}

select_free_cpu-Selected_example :
    (c : Cursor) × (p : Ptr) × (n : ℕ) × (select_free_cpu 4 busy_node
      ≡ ok (looked_at busy_node (c, p)))
    × (num_free_cpu busy_node.cpus busy_node.cpu_queue.items ≡ ok n)
    × Selected 4 busy_node.cpus busy_node.cpu_queue.items n p
select_free_cpu-Selected_example = select_free_cpu-Selected 4 busy_node busy_node-InPlace

put_thread_on_run-Placed_example :
    (n : ℕ) × (num_free_cpu busy_node.cpus busy_node.cpu_queue.items ≡ ok n)
    × (((n ≡ 0) × (put_thread_on_run plain_policy 4 busy_node ≡ undefined))
        ⊎ ((p : Ptr) × (s' : NodeState Unit) × (0 < n)
            × Passes is_free busy_node.cpus busy_node.cpu_queue.items p
            × (put_thread_on_run plain_policy 4 busy_node ≡ start_run plain_policy 4 s')
            × Placed 4 busy_node p s'))
put_thread_on_run-Placed_example =
    put_thread_on_run-Placed plain_policy 4 busy_node busy_node-InPlace refl refl

-- Thread 7 takes both GPUs.
put_thread_on_run-Runs_example :
    (s' : NodeState Unit) × (put_thread_on_run plain_policy 7 busy_node
      ≡ start_run plain_policy 7 s')
    × Runs 7 s' 12
    × Runs 7 s' 13
put_thread_on_run-Runs_example =
    put_thread_on_run-Runs plain_policy 7 12 13 busy_node (a_cpu a_nil a_nil true)
      (a_cpu a_nil a_nil true) busy_node-InPlace refl refl refl refl refl refl refl
