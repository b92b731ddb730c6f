-- ===== src/Events/Manager.antt =====
-- Simulator/sched/events.c, `event_manager`, and the loop of Simulator/main.cpp that feeds it.
-- The modules that an event is handed to are the fields of `Modules`.
use dimemas.Base.{
  ℕ, zero, suc, ◌-◌, false, Option, none, some, ltb, ◌==◌, if◌then◌else◌, Outcome, ok, panic, ◌>>=◌,
}
use dimemas.Queue.{Ptr, a_nil, top_event, out_fifo_event}
use dimemas.Events.Timers.{Event, Sim, store, deref, m_sch, m_com, m_fs, m_port, m_mem, m_ctxt_sw}

-- The entry points of the other modules, by the name of the C function. The first argument is the
-- event's `info`, the second its thread.
pub record Modules : Type 0 where
  pub scheduler_general : Ptr → Sim → Outcome Sim
  pub communic_general : ℕ → Ptr → Sim → Outcome Sim
  pub fs_general : ℕ → Ptr → Sim → Outcome Sim
  pub port_general : Ptr → Sim → Outcome Sim
  pub memory_general : Ptr → Sim → Outcome Sim
  pub scheduler_info : ℕ → Sim → Outcome Sim
  pub reload_events : Sim → Outcome Sim

-- The clock and the count of daemons when the event reaches its module. The count is a C `int`,
-- which would pass below 0 where it stops here; a queued daemon has been counted, so it is above 0.
abbrev pub advance : Event → Sim → Sim
advance e s = record s {
  current_time = e.event_time;
  are_only_daemons = if e.daemon then s.are_only_daemons - 1 else s.are_only_daemons;
}

abbrev pub free_event : Ptr → Sim → Sim
free_event p s = record s { events = store s.events p none }

module _ (m : Modules) where
  unfoldable pub dispatch : Event → Sim → Outcome Sim
  dispatch e s =
      if e.event_module == m_sch
      then m.scheduler_general e.thread s
      else if e.event_module == m_com
      then m.communic_general e.info e.thread s
      else if e.event_module == m_fs
      then m.fs_general e.info e.thread s
      else if e.event_module == m_port
      then m.port_general e.thread s
      else if e.event_module == m_mem
      then m.memory_general e.thread s
      else if e.event_module == m_ctxt_sw
      then m.scheduler_info e.info s
      else panic

  abbrev pub reload : Sim → Outcome Sim
  reload s =
      if s.reload_done
      then (do s' ← m.reload_events s; ok (record s' { reload_done = false }))
      else ok s

  -- The part after the two tests on the time.
  unfoldable pub handle : Ptr → Event → Sim → Outcome Sim
  handle p e s = do s₁ ← dispatch e (advance e s); s₂ ← reload s₁; ok (free_event p s₂)

  -- `limit` is the configured `TIME_LIMIT`.
  unfoldable pub event_manager : (limit : ℕ) → Ptr → Sim → Outcome Sim
  event_manager limit p s = do
    e ← deref (s.events p)
    if ltb e.event_time s.current_time
        then panic
        else if ltb limit e.event_time
        then panic
        else handle p e s

  -- One round of the loop: the event leaves the queue and is handled.
  unfoldable pub round : (limit : ℕ) → Sim → Outcome Sim
  round limit s =
      let (q, p) = out_fifo_event s.event_queue in
      event_manager limit p (record s { event_queue = q })

  -- `while (top_event (&Event_queue) != E_NIL)`, with no reboot; `none` when the fuel runs out.
  unfoldable pub simulate : (limit : ℕ) → ℕ → Sim → Outcome (Option Sim)
  simulate limit zero s = ok none
  simulate limit (suc fuel) s =
      let rest : Outcome (Option Sim) = (do s' ← round limit s; simulate limit fuel s') in
      (do
        p ← top_event s.event_queue
        if p == a_nil then ok (some s) else if ltb limit s.current_time then ok (some s) else rest)
