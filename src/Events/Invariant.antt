-- ===== src/Events/Invariant.antt =====
-- Simulator/sched/events.c: the invariant of the event queue, and that a timer keeps it.
use dimemas.Base.{
  ℕ, ◌+◌, ◌≤◌, ◌≡◌, ◌≢◌, refl, ap, ◌&&◌, ◌||◌, not, ◌==◌, ==_ne, ◌∙◌, sym, subst, Bool, true, false,
  Option, none, some, List, [], ◌∷◌, if◌then◌else◌, Outcome, ok, panic, undefined, ◌>>=◌, All,
  length, arith, Bool-cases, inl, inr, ◌⊎◌,
}
use dimemas.Queue.{Ptr, a_nil, Item, Queue, insert_event, count_queue}
use dimemas.Queue.Sorted.{IsSorted}
use dimemas.Queue.Insertion.{
  Absent, Distinct, total, insert_event-All, insert_event-total, insert_event-Distinct,
  insert_event-IsSorted, insert_event-count,
}
use dimemas.Events.Timers.{
  Event, Thread, Sim, store, m_ctxt_sw, m_com, com_ext_net_traffic_timer, waits, mark_thread,
  queue_event, count_daemon, refused, event_timer, schedule,
}

abbrev pub Items : Type 0
Items = List (Item ℕ)

abbrev pub Blocks : Type 0
Blocks = Ptr → Option Event

-- The item holds the address of an allocated event, and is sorted by that event's time.
abbrev pub Live : Blocks → Item ℕ → Type 0
Live events x = (e : Event) × (events x.content ≡ some e) × (e.event_time ≡ x.order)

abbrev pub is_daemon : Option Event → ℕ
is_daemon none = 0
is_daemon (some e) = if e.daemon then 1 else 0

-- How many of the queued events are daemons.
abbrev pub daemons : Blocks → Items → ℕ
daemons events = total (λ x. is_daemon (events x.content))

-- The queue, the clock, the count of daemons and the blocks agree, and no event lies in the past.
pub record IsClock (q : Queue ℕ) (now count : ℕ) (events : Blocks) : Type 0 where
  pub counted : q.count ≡ length q.items
  pub sorted : IsSorted q.items
  pub future : All (λ x. now ≤ x.order) q.items
  pub live : All (Live events) q.items
  pub distinct : Distinct q.items
  pub proper : Absent a_nil q.items
  pub daemons_counted : count ≡ daemons events q.items

abbrev pub Inv : Sim → Type 0
Inv s = IsClock s.event_queue s.current_time s.are_only_daemons s.events

-- A write at an address that is not in the queue goes unnoticed.
module _ (h : Blocks) (p : Ptr) (o : Option Event) where
  store_ne : (q : Ptr) → q ≢ p → store h p o q ≡ h q
  store_ne q ne = ground arith

  pub Live-store : (xs : Items) → Absent p xs → All (Live h) xs → All (Live (store h p o)) xs
  Live-store [] a l = tt
  Live-store (x ∷ xs) a (e, l) = ((e.0, store_ne x.content a.0 ∙ e.1, e.2), Live-store xs a.1 l)

  pub daemons-store : (xs : Items) → Absent p xs → daemons (store h p o) xs ≡ daemons h xs
  daemons-store [] a = refl
  daemons-store (x ∷ xs) a = rw (store_ne x.content a.0, daemons-store xs a.1)

-- The parts of the state that the invariant reads.
pub record SameEvents (s t : Sim) : Type 0 where
  pub queue : t.event_queue ≡ s.event_queue
  pub time : t.current_time ≡ s.current_time
  pub count : t.are_only_daemons ≡ s.are_only_daemons
  pub blocks : t.events ≡ s.events

pub SameEvents-Inv : {s t : Sim} → SameEvents s t → Inv s → Inv t
SameEvents-Inv {s} {t} m v =
    subst (λ q. IsClock q t.current_time t.are_only_daemons t.events) (sym m.queue)
      (subst (λ n. IsClock s.event_queue n t.are_only_daemons t.events) (sym m.time)
        (subst (λ n. IsClock s.event_queue s.current_time n t.events) (sym m.count)
          (subst (λ h. IsClock s.event_queue s.current_time s.are_only_daemons h) (sym m.blocks)
            v)))

-- Queueing a new event that lies ahead, at an address that is not in the queue.
module _ (fresh : Ptr) (e : Event) (q : Queue ℕ) {now count : ℕ} {events : Blocks}
    (new : Absent fresh q.items) (proper : fresh ≢ a_nil) (ahead : now ≤ e.event_time) where
  insert_event-IsClock :
      IsClock q now count events
      → IsClock
          (insert_event q fresh e.event_time)
          now
          (if e.daemon then count + 1 else count)
          (store events fresh (some e))
  insert_event-IsClock v = record {
    counted = insert_event-count q fresh e.event_time v.counted;
    sorted = insert_event-IsSorted q fresh e.event_time v.sorted;
    future = insert_event-All q fresh e.event_time _ ahead v.future;
    live =
        insert_event-All q fresh e.event_time _ (e, ground arith, refl)
          (Live-store events fresh (some e) q.items new v.live);
    distinct = insert_event-Distinct q fresh e.event_time new v.distinct;
    proper = insert_event-All q fresh e.event_time _ proper v.proper;
    daemons_counted = grown;
  }
    where
      grown :
          (if e.daemon then count + 1 else count)
          ≡ daemons (store events fresh (some e)) (insert_event q fresh e.event_time).items
      grown = ground (
        arith,
        v.daemons_counted,
        insert_event-total q fresh e.event_time
            (λ x. is_daemon (store events fresh (some e) x.content)),
        daemons-store events fresh (some e) q.items new,
      )

mark_thread-SameEvents :
    (b : Bool) (thread : Ptr) (when : ℕ) (s : Sim) {t : Sim}
    → mark_thread b thread when s ≡ ok t
    → SameEvents s t
mark_thread-SameEvents false thread when s h = ground arith
mark_thread-SameEvents true thread when s h = ground arith

-- Queueing reads the same fields.
queue_event-SameEvents :
    (fresh : Ptr) (e : Event) {s t : Sim}
    → SameEvents s t
    → SameEvents (queue_event fresh e s) (queue_event fresh e t)
queue_event-SameEvents fresh e m = record {
  queue = ap (λ q. insert_event q fresh e.event_time) m.queue;
  time = m.time;
  count = m.count;
  blocks = ap (λ h. store h fresh (some e)) m.blocks;
}

abbrev with_mark : Ptr → ℕ → Sim → Ptr → Thread
with_mark thread when s =
    store s.threads thread (record (s.threads thread) { loose_cpu = true; next_event_timer = when })

mark_thread-ok :
    (b : Bool) (thread : Ptr) (when : ℕ) (s : Sim)
    → thread ≢ a_nil
    → mark_thread b thread when s
      ≡ ok (record s { threads = if b then with_mark thread when s else s.threads })
mark_thread-ok false thread when s proper = refl
mark_thread-ok true thread when s proper = rw (==_ne thread a_nil proper) refl

counted_one : (b : Bool) (n : ℕ) → (if b then n + 1 else n) ≡ n + (if b then 1 else 0)
counted_one b n = ground arith

if_waits :
    {A : Type 0} (x y z : Bool) (u v : A)
    → (if not x && (not y || not z) then v else u) ≡ (if x || (y && z) then u else v)
if_waits true y z u v = refl
if_waits false true true u v = refl
if_waits false true false u v = refl
if_waits false false z u v = refl

module _ (fresh : Ptr) (e : Event) (s : Sim) where
  abbrev Queued : Sim × Ptr → Type 0
  Queued r =
      ((refused e.daemon s ≡ true) × (r ≡ (s, a_nil)))
      ⊎ ((refused e.daemon s ≡ false)
          × SameEvents (queue_event fresh e (count_daemon e.daemon s)) r.0
          × (r.1 ≡ fresh))

  marked :
      (m : Outcome Sim) {r : Sim × Ptr}
      → ((t : Sim) → m ≡ ok t → SameEvents (count_daemon e.daemon s) t)
      → (do t ← m; ok (queue_event fresh e t, fresh)) ≡ ok r
      → SameEvents (queue_event fresh e (count_daemon e.daemon s)) r.0 × (r.1 ≡ fresh)
  marked panic same h = cc
  marked undefined same h = cc
  marked (ok t) {r} same h =
      let is : (queue_event fresh e t, fresh) ≡ r = cc in
      subst
        (λ (p : Sim × Ptr).
          SameEvents (queue_event fresh e (count_daemon e.daemon s)) p.0 × (p.1 ≡ fresh))
        is (queue_event-SameEvents fresh e (same t refl), refl)

  event_timer-Queued : {r : Sim × Ptr} → event_timer fresh e s ≡ ok r → Queued r
  unfolding event_timer
  event_timer-Queued {r} h = elim (Bool-cases (refused e.daemon s)) [
    | inl yes_refused ↦ inl (yes_refused, ground arith)
    | inr taken ↦
        let after : schedule fresh e s ≡ ok r = ground arith in
        let m =
          marked
            (mark_thread (waits e.event_module e.info) e.thread e.event_time
              (count_daemon e.daemon s))
            (λ t.
              mark_thread-SameEvents (waits e.event_module e.info) e.thread e.event_time
                (count_daemon e.daemon s) {t = t})
            after in
        inr (taken, m.0, m.1)
  ]

  -- A timer that lies ahead, for an address that is not in the queue, keeps the invariant, whether
  -- it is refused or not.
  pub event_timer-Inv :
      {t : Sim} {p : Ptr}
      → Absent fresh s.event_queue.items
      → fresh ≢ a_nil
      → s.current_time ≤ e.event_time
      → Inv s
      → event_timer fresh e s ≡ ok (t, p)
      → Inv t
  event_timer-Inv {t} new proper ahead v h = elim (event_timer-Queued h) [
    | inl (_, same) ↦ let is : s ≡ t = cc in subst Inv is v
    | inr (_, same, _) ↦
        SameEvents-Inv same (insert_event-IsClock fresh e s.event_queue new proper ahead v)
  ]

  -- What EVENT_timer gives when it does not refuse the timer.
  pub record Entered (t : Sim) : Type 0 where
    pub queue : t.event_queue ≡ insert_event s.event_queue fresh e.event_time
    pub block : t.events ≡ store s.events fresh (some e)
    pub time : t.current_time ≡ s.current_time
    pub count : t.are_only_daemons ≡ s.are_only_daemons + (if e.daemon then 1 else 0)
    pub threads : t.threads ≡ (
        if (e.event_module == m_ctxt_sw)
          || ((e.event_module == m_com) && (e.info == com_ext_net_traffic_timer))
        then s.threads
        else store s.threads e.thread
            (record (s.threads e.thread) { loose_cpu = true; next_event_timer = e.event_time }))

  schedule-Entered : e.thread ≢ a_nil → (t : Sim) × (schedule fresh e s ≡ ok (t, fresh)) × Entered t
  schedule-Entered proper =
      let waiting : Bool = waits e.event_module e.info in
      let marked = mark_thread-ok waiting e.thread e.event_time (count_daemon e.daemon s) proper in
      (
        queue_event fresh e (record s {
          are_only_daemons = if e.daemon then s.are_only_daemons + 1 else s.are_only_daemons;
          threads = if waiting then with_mark e.thread e.event_time s else s.threads;
        }),
        rw marked refl,
        record {
          queue = refl;
          block = refl;
          time = refl;
          count = counted_one e.daemon s.are_only_daemons;
          threads =
              if_waits (e.event_module == m_ctxt_sw) (e.event_module == m_com)
                (e.info == com_ext_net_traffic_timer) s.threads (with_mark e.thread e.event_time s);
        },
      )

  -- EVENT_timer for a thread that is not NULL returns. It gives NULL and changes nothing for a
  -- daemon, when all the queued events are daemons and the time is not 0. Else it gives the address
  -- of the new event, which is in its block, and in the queue under its time; a daemon is counted,
  -- and unless the timer is a context switch or one of the network's traffic, its thread is marked
  -- as off its CPU until then.
  pub event_timer-Entered :
      e.thread ≢ a_nil
      → (((e.daemon
              && (s.are_only_daemons == count_queue s.event_queue)
              && not (s.current_time == 0))
            ≡ true)
          × (event_timer fresh e s ≡ ok (s, a_nil)))
        ⊎ (((e.daemon
                && (s.are_only_daemons == count_queue s.event_queue)
                && not (s.current_time == 0))
              ≡ false)
            × ((t : Sim) × (event_timer fresh e s ≡ ok (t, fresh)) × Entered t))
  unfolding event_timer
  event_timer-Entered proper = elim (Bool-cases (refused e.daemon s)) [
    | inl yes_refused ↦ inl (yes_refused, rw yes_refused refl)
    | inr taken ↦
        let (t, ran, entered) = schedule-Entered proper in inr (taken, (t, rw taken ran, entered))
  ]
