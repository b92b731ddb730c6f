-- ===== src/Sched/Dispatch.antt =====
-- Simulator/sched/schedule.c and Simulator/model/cpu.c: the choice of a CPU for a thread, and the
-- start of the thread on it.
use dimemas.Base.{
  ℕ, suc, ◌+◌, ◌-◌, Bool, true, false, not, ◌&&◌, ◌||◌, Option, none, some, List, [], ◌∷◌, ◌==◌,
  if◌then◌else◌, Outcome, ok, panic, undefined, ◌>>=◌,
}
use dimemas.Queue.{Ptr, a_nil, Item, Cursor, null, at, Queue}

abbrev pub no_context_switch : ℕ
no_context_switch = 0

-- The fields of a CPU and of a thread (with those of its task and its current account) that this
-- reads.
pub record Cpu : Type 0 where
  pub current_thread : Ptr
  pub current_thread_context : Ptr
  pub is_gpu : Bool

pub record RunThread : Type 0 where
  pub accelerator : Bool
  pub kernel : Bool
  pub host : Bool
  pub cpu : Ptr
  pub last_paraver : ℕ
  pub put_into_ready : ℕ
  pub time_ready_without_cpu : ℕ
  pub n_th_in_run : ℕ
  pub doing_context_switch : Bool
  pub to_be_preempted : Bool
  pub min_time_to_be_preempted : ℕ
  pub event : Ptr

-- A node, with the settings of its machine; `rest` is the state of the other modules.
pub record NodeState (S : Type 0) : Type 0 where
  pub current_time : ℕ
  pub context_switch : ℕ
  pub minimum_quantum : ℕ
  pub cpu_queue : Queue Unit
  pub cpus : Ptr → Option Cpu
  pub threads : Ptr → RunThread
  pub rest : S

-- What this calls: the policy's choice of a thread and its time, and EVENT_timer for M_SCH.
pub record Policy (S : Type 0) : Type 0 where
  pub next_thread : NodeState S → Outcome (NodeState S × Ptr)
  pub execution_time : Ptr → NodeState S → Outcome (NodeState S × ℕ)
  pub event_timer : ℕ → Ptr → NodeState S → Outcome (NodeState S × Ptr)

abbrev pub cpu_at : Option Cpu → Outcome Cpu
cpu_at none = undefined
cpu_at (some c) = ok c

abbrev pub is_free : Cpu → Bool
is_free c = (c.current_thread == a_nil) && not c.is_gpu

abbrev pub has_affinity : Ptr → Cpu → Bool
has_affinity th c = (c.current_thread == a_nil) && (c.current_thread_context == th) && not c.is_gpu

abbrev pub is_free_gpu : Cpu → Bool
is_free_gpu c = c.is_gpu && (c.current_thread == a_nil)

-- The first CPU that passes a test, by `head_queue` and `next_queue`.
unfoldable pub look_for :
    (Cpu → Bool) → (Ptr → Option Cpu) → ℕ → List (Item Unit) → Outcome (Cursor × Ptr)
look_for test cpus i [] = ok (null, a_nil)
look_for test cpus i (x ∷ xs) =
    let rest = look_for test cpus (suc i) xs in
    if x.content == a_nil
    then ok (at i, a_nil)
    else cpu_at (cpus x.content) >>= (λ c. if test c then ok (at i, x.content) else rest)

-- `num_free_cpu`, on the items of the queue.
unfoldable pub num_free_cpu : (Ptr → Option Cpu) → List (Item Unit) → Outcome ℕ
num_free_cpu cpus [] = ok 0
num_free_cpu cpus (x ∷ xs) =
    let rest = num_free_cpu cpus xs in
    if x.content == a_nil
    then ok 0
    else cpu_at (cpus x.content) >>= (λ c. rest >>= (λ n. ok (if is_free c then suc n else n)))

-- The time without a CPU; PARAVER_Wait is output.
abbrev pub leaves_ready : ℕ → RunThread → RunThread
leaves_ready now t = record t {
  last_paraver = if not t.kernel && not t.host then now else t.last_paraver;
  time_ready_without_cpu = (now - t.put_into_ready) + t.time_ready_without_cpu;
}

module _ {S : Type 0} where
  abbrev pub looked_at : NodeState S → Cursor × Ptr → NodeState S × Ptr
  looked_at s (c, p) = (record s { cpu_queue = record s.cpu_queue { curr = c } }, p)

  unfoldable pub select_free_cpu : Ptr → NodeState S → Outcome (NodeState S × Ptr)
  select_free_cpu th s = look_for (has_affinity th) s.cpus 0 s.cpu_queue.items >>= (λ r.
      if r.1 == a_nil
      then look_for is_free s.cpus 0 s.cpu_queue.items >>= (λ r'. ok (looked_at s r'))
      else ok (looked_at s r))

  abbrev pub on_thread : Ptr → (RunThread → RunThread) → NodeState S → NodeState S
  on_thread th change s = record s {
    threads = λ q. if q == th then change (s.threads th) else s.threads q;
  }

  -- The thread is on the CPU; another thread than the last one counts as a switch.
  abbrev pub run_on : Ptr → Ptr → Cpu → NodeState S → NodeState S
  run_on th p c s =
      let runs : Cpu = record c { current_thread = th; current_thread_context = th } in
      on_thread th
        (λ (t : RunThread). record t {
          cpu = p;
          n_th_in_run = if c.current_thread_context == th then t.n_th_in_run else suc t.n_th_in_run;
        })
        (record s { cpus = λ q. if q == p then some runs else s.cpus q })

  -- The loop over the GPUs goes on after one is taken.
  unfoldable pub take_gpus : Ptr → List (Item Unit) → NodeState S → Outcome (NodeState S)
  take_gpus th [] s = ok (record s { cpu_queue = record s.cpu_queue { curr = null } })
  take_gpus th (x ∷ xs) s =
      if x.content == a_nil
      then ok s
      else cpu_at (s.cpus x.content)
        >>= (λ c. take_gpus th xs (if is_free_gpu c then run_on th x.content c s else s))

  -- `cpu->is_gpu` is read for the assertion before the test for NULL.
  abbrev pub on_free_cpu : Ptr → NodeState S × Ptr → Outcome (NodeState S)
  on_free_cpu th (s, p) =
      if p == a_nil
      then undefined
      else cpu_at (s.cpus p) >>= (λ c. if c.is_gpu then panic else ok (run_on th p c s))

  abbrev pub take_cpu : Ptr → NodeState S → Outcome (NodeState S)
  take_cpu th s =
      let t = s.threads th in
      if t.accelerator && t.kernel
      then take_gpus th s.cpu_queue.items s
      else if not t.accelerator || (t.accelerator && t.host)
      then select_free_cpu th s >>= on_free_cpu th
      else ok s

module _ {S : Type 0} (policy : Policy S) where
  abbrev pub sched_timer : ℕ → Ptr → NodeState S → Outcome (NodeState S)
  sched_timer when th s =
      policy.event_timer when th s
      >>= (λ r. ok (on_thread th (λ (t : RunThread). record t { event = r.1 }) r.0))

  -- The time of the switch of context comes before the run, or the run starts.
  abbrev pub start_run : Ptr → NodeState S → Outcome (NodeState S)
  start_run th s =
      let now = s.current_time in
      if not (s.context_switch == no_context_switch)
      then sched_timer (now + s.context_switch) th (
          on_thread th
            (λ (t : RunThread). record t {
              doing_context_switch = true;
              to_be_preempted = false;
              min_time_to_be_preempted = s.context_switch + (now + s.minimum_quantum);
            })
            s)
      else policy.execution_time th (
          on_thread th
            (λ (t : RunThread). record t { min_time_to_be_preempted = now + s.minimum_quantum }) s)
        >>= (λ r. sched_timer (r.0.current_time + r.1) th r.0)

  unfoldable pub put_thread_on_run : Ptr → NodeState S → Outcome (NodeState S)
  put_thread_on_run th s =
      take_cpu th (on_thread th (leaves_ready s.current_time) s) >>= start_run th

  unfoldable pub scheduler_next_thread_to_run : NodeState S → Outcome (NodeState S)
  unfolding put_thread_on_run
  scheduler_next_thread_to_run s =
      policy.next_thread s >>= (λ r. if r.1 == a_nil then panic else put_thread_on_run r.1 r.0)
