-- ===== src/Events/Run.antt =====
-- Simulator/sched/events.c and the loop of Simulator/main.cpp: the round that hands the first event to its module.
use dimemas.Base.{
  ℕ, ◌+◌, ◌-◌, ◌≤◌, ◌≡◌, refl, ap, ◌∙◌, sym, subst, false, none, some, [], ◌∷◌, ltb, ◌==◌, List,
  if◌then◌else◌, Outcome, ok, panic, ◌>>=◌, All, length, arith,
}
use dimemas.Queue.{a_nil, Item, Queue, out_fifo_event}
use dimemas.Queue.Removal.{out_event}
use dimemas.Queue.Sorted.{IsSorted}
use dimemas.Queue.Insertion.{Absent, Distinct}
use dimemas.Events.Timers.{Event, Sim, store, m_sch, m_com, m_fs, m_port, m_mem, m_ctxt_sw}
use dimemas.Events.Manager.{Modules, dispatch, advance, handle, event_manager, round}
use dimemas.Events.Invariant.{IsClock, Inv, Items, Live, is_daemon, daemons}

pub head-Live :
    {x : Item ℕ} {xs : Items} (s : Sim) → s.event_queue.items ≡ x ∷ xs → Inv s → Live s.events x
head-Live s is v = (subst (All (Live s.events)) is v.live).0

-- The first event leaves the queue and the clock moves to its time.
module _ {x : Item ℕ} {xs : Items} (s : Sim) (e : Event) (is : s.event_queue.items ≡ x ∷ xs)
    (held : s.events x.content ≡ some e) (v : Inv s) where
  abbrev tail_queue : Queue ℕ
  tail_queue = (out_event s.event_queue (x ∷ xs)).0

  pub due : e.event_time ≡ x.order
  due =
      let (f, found, time) = head-Live s is v in
      let same : some e ≡ some f = sym held ∙ found in
      let is_f : e ≡ f = cc in ap (λ (g : Event). g.event_time) is_f ∙ time

  pub not_past : s.current_time ≤ e.event_time
  not_past =
      let h : s.current_time ≤ x.order =
        (subst (All (λ (y : Item ℕ). s.current_time ≤ y.order)) is v.future).0 in
      omega (arith, due)

  less_daemons :
      (if e.daemon then s.are_only_daemons - 1 else s.are_only_daemons) ≡ daemons s.events xs
  less_daemons =
      let all : s.are_only_daemons ≡ is_daemon (s.events x.content) + daemons s.events xs =
        v.daemons_counted ∙ ap (daemons s.events) is in
      let first : is_daemon (s.events x.content) ≡ is_daemon (some e) = ap is_daemon held in
      ground (arith, all, first)

  pub popped-IsClock :
      IsClock tail_queue e.event_time
        (if e.daemon then s.are_only_daemons - 1 else s.are_only_daemons)
        s.events
  popped-IsClock = record {
    counted = omega (arith, v.counted, ap length is);
    sorted = (subst IsSorted is v.sorted).1;
    future = subst (λ n. All (λ y. n ≤ y.order) xs) (sym due) (subst IsSorted is v.sorted).0;
    live = (subst (All (Live s.events)) is v.live).1;
    distinct = (subst Distinct is v.distinct).1;
    proper = (subst (Absent a_nil) is v.proper).1;
    daemons_counted = less_daemons;
  }

  pub popped-Aside : Absent x.content xs
  popped-Aside = (subst Distinct is v.distinct).0

  abbrev popped : Sim
  popped = advance e (record s { event_queue = tail_queue })

pub out_fifo_event-cons :
    (q : Queue ℕ) {x : Item ℕ} {xs : Items}
    → q.items ≡ x ∷ xs
    → out_fifo_event q ≡ out_event q (x ∷ xs)
unfolding out_fifo_event
out_fifo_event-cons q is = ap (out_event q) is

-- The entry points of the modules, with the number of each.
abbrev pub entries : Modules → List (ℕ × (Event → Sim → Outcome Sim))
entries m =
    (m_sch, λ e. m.scheduler_general e.thread)
    ∷ (m_com, λ e. m.communic_general e.info e.thread)
    ∷ (m_fs, λ e. m.fs_general e.info e.thread)
    ∷ (m_port, λ e. m.port_general e.thread)
    ∷ (m_mem, λ e. m.memory_general e.thread)
    ∷ (m_ctxt_sw, λ e. m.scheduler_info e.info)
    ∷ []

-- The call of the entry point with the number of the event's module.
abbrev pub call_module : List (ℕ × (Event → Sim → Outcome Sim)) → Event → Sim → Outcome Sim
call_module [] e s = panic
call_module ((number, entry) ∷ rest) e s =
    if e.event_module == number then entry e s else call_module rest e s

module _ (m : Modules) (limit : ℕ) (x : Item ℕ) (xs : Items) (s : Sim) (e : Event) where
  -- The state that the event's module gets: the event has left the queue, the clock shows its time,
  -- and a daemon is off the count. The clock keeps its invariant, and the queue does not hold the
  -- event's address.
  pub record Handed (t : Sim) : Type 0 where
    pub rest : t.event_queue.items ≡ xs
    pub time : t.current_time ≡ e.event_time
    pub count :
        t.are_only_daemons ≡ (if e.daemon then s.are_only_daemons - 1 else s.are_only_daemons)
    pub blocks : t.events ≡ s.events
    pub others : (t.threads ≡ s.threads) × (t.reload_done ≡ s.reload_done)
    pub clock : Inv t
    pub aside : Absent x.content xs

  -- A round on a clock that keeps its invariant, with the event e first in its queue, stops the
  -- program when e lies past the limit. Else the module of e is called in a state in which e has
  -- left the queue, the clock shows its time, a daemon is off the count, and the invariant holds;
  -- when the module returns, the events are reloaded if the flag for this is set, and e is freed.
  pub round-handle :
      s.event_queue.items ≡ x ∷ xs
      → s.events x.content ≡ some e
      → Inv s
      → (t : Sim) × Handed t
        × (round m limit s ≡ (
            if ltb limit e.event_time
            then panic
            else (call_module (entries m) e t >>= (λ s₁.
                (if s₁.reload_done
                  then (m.reload_events s₁ >>= (λ s₂. ok (record s₂ { reload_done = false })))
                  else ok s₁)
                >>= (λ s₂. ok (record s₂ { events = store s₂.events x.content none }))))))
  unfolding round event_manager handle dispatch
  round-handle is held v =
      let on_time : ltb e.event_time s.current_time ≡ false =
        ground (arith, not_past s e is held v) in
      (
        popped s e is held v,
        record {
          rest = refl;
          time = refl;
          count = refl;
          blocks = refl;
          others = (refl, refl);
          clock = popped-IsClock s e is held v;
          aside = popped-Aside s e is held v;
        },
        rw (out_fifo_event-cons s.event_queue is, held, on_time) refl,
      )
