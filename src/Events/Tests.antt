-- ===== src/Events/Tests.antt =====
-- Simulator/sched/events.c: a small clock, modules that set a timer or do nothing, and the theorems
-- at them.
use dimemas.Base.{
  ℕ, ◌≡◌, refl, true, false, Option, none, some, [], ◌∷◌, arith, ok, ◌>>=◌, if◌then◌else◌, ◌⊎◌,
}
use dimemas.Queue.{Ptr, a_nil, Item, null, count_queue}
use dimemas.Events.Timers.{Event, Sim, store, event_timer, queue_event, m_sch, m_mem}
use dimemas.Events.Manager.{Modules, round}
use dimemas.Events.Invariant.{Inv, event_timer-Inv, event_timer-Entered, Entered}
use dimemas.Events.Run.{Handed, entries, call_module, round-handle}

abbrev entry : Ptr → ℕ → Item ℕ
entry c t = record { order = t; content = c }

abbrev sched_event : Event
sched_event = record { event_time = 30; event_module = m_sch; thread = 7; info = 0; daemon = false }

abbrev daemon_event : Event
daemon_event = record { event_time = 50; event_module = m_mem; thread = 7; info = 0; daemon = true }

abbrev blocks : Ptr → Option Event
blocks = store (store (λ p. none) 100 (some sched_event)) 101 (some daemon_event)

-- At time 20: a timer of the scheduler at 30 and a daemon at 50.
abbrev clock : Sim
clock = record {
  event_queue = record { items = entry 100 30 ∷ entry 101 50 ∷ []; curr = null; count = 2 };
  current_time = 20;
  are_only_daemons = 1;
  reload_done = true;
  events = blocks;
  threads = λ p. record { loose_cpu = false; next_event_timer = 0; event = a_nil };
}

clock-Inv : Inv clock
clock-Inv = record {
  counted = refl;
  sorted = omega arith;
  future = omega arith;
  live = ((sched_event, refl, refl), ((daemon_event, refl, refl), tt));
  distinct = omega arith;
  proper = omega arith;
  daemons_counted = refl;
}

-- Modules that return and change nothing.
abbrev quiet : Modules
quiet = record {
  scheduler_general = λ thread s. ok s;
  communic_general = λ info thread s. ok s;
  fs_general = λ info thread s. ok s;
  port_general = λ thread s. ok s;
  memory_general = λ thread s. ok s;
  scheduler_info = λ info s. ok s;
  reload_events = λ s. ok s;
}

round-handle_example :
    (t : Sim) × Handed quiet 1000 (entry 100 30) (entry 101 50 ∷ []) clock sched_event t
    × (round quiet 1000 clock ≡ (
        call_module (entries quiet) sched_event t >>= (λ s₁.
          (if s₁.reload_done
            then (quiet.reload_events s₁ >>= (λ s₂. ok (record s₂ { reload_done = false })))
            else ok s₁)
          >>= (λ s₂. ok (record s₂ { events = store s₂.events 100 none })))))
round-handle_example =
    round-handle quiet 1000 (entry 100 30) (entry 101 50 ∷ []) clock sched_event refl refl clock-Inv

-- A second timer for thread 7.
abbrev armed : Sim
armed = queue_event 102 sched_event (record clock {
  threads =
      store clock.threads 7 (record (clock.threads 7) { loose_cpu = true; next_event_timer = 30 });
})

event_timer-Inv_example : Inv armed
unfolding event_timer count_queue
event_timer-Inv_example =
    event_timer-Inv 102 sched_event clock {t = armed} {p = 102} (omega arith) (omega arith)
      (omega arith) clock-Inv refl

event_timer-Entered_example :
    ((false ≡ true) × (event_timer 102 sched_event clock ≡ ok (clock, a_nil)))
    ⊎ ((false ≡ false)
        × ((t : Sim) × (event_timer 102 sched_event clock ≡ ok (t, 102))
            × Entered 102 sched_event clock t))
event_timer-Entered_example = event_timer-Entered 102 sched_event clock (λ h. omega (arith, h))
