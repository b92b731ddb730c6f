-- ===== src/Events/Timers.antt =====
-- Simulator/sched/events.c: the state of the simulation clock, and the timers of the threads.
-- Times are whole numbers on a fixed scale (doubles of nanoseconds in C).
use dimemas.Base.{
  ℕ, ◌+◌, Bool, true, false, not, ◌&&◌, ◌||◌, Option, none, some, List, [], ◌∷◌, ◌==◌,
  if◌then◌else◌, Outcome, ok, panic, undefined, ◌>>=◌,
}
use dimemas.Queue.{
  Ptr, a_nil, Item, Queue, create_queue, insert_event, extract_from_queue, count_queue,
}

abbrev pub m_sch : ℕ
m_sch = 1

abbrev pub m_com : ℕ
m_com = 2

abbrev pub m_fs : ℕ
m_fs = 3

abbrev pub m_port : ℕ
m_port = 5

abbrev pub m_mem : ℕ
m_mem = 6

abbrev pub m_ctxt_sw : ℕ
m_ctxt_sw = 7

abbrev pub com_ext_net_traffic_timer : ℕ
com_ext_net_traffic_timer = 4

-- `struct t_event`.
pub record Event : Type 0 where
  pub event_time : ℕ
  pub event_module : ℕ
  pub thread : Ptr
  pub info : ℕ
  pub daemon : Bool

-- The fields of a `struct t_thread` that the timers write.
pub record Thread : Type 0 where
  pub loose_cpu : Bool
  pub next_event_timer : ℕ
  pub event : Ptr

-- The globals of events.c, and the blocks that its pointers lead to: `events p` is the event at the
-- address `p`, if one is allocated there.
pub record Sim : Type 0 where
  pub event_queue : Queue ℕ
  pub current_time : ℕ
  pub are_only_daemons : ℕ
  pub reload_done : Bool
  pub events : Ptr → Option Event
  pub threads : Ptr → Thread

abbrev pub store : {A : Type 0} → (Ptr → A) → Ptr → A → Ptr → A
store h p a q = if q == p then a else h q

-- Whether the timer is one that the thread itself waits for.
abbrev pub waits : ℕ → ℕ → Bool
waits event_module info =
    not (event_module == m_ctxt_sw)
    && (not (event_module == m_com) || not (info == com_ext_net_traffic_timer))

-- The thread is written through the pointer, with no test for NULL.
abbrev pub mark_thread : Bool → Ptr → ℕ → Sim → Outcome Sim
mark_thread false thread when s = ok s
mark_thread true thread when s =
    if thread == a_nil
    then undefined
    else ok (record s {
      threads =
          store s.threads thread
            (record (s.threads thread) { loose_cpu = true; next_event_timer = when });
    })

abbrev pub queue_event : Ptr → Event → Sim → Sim
queue_event fresh e s = record s {
  event_queue = insert_event s.event_queue fresh e.event_time;
  events = store s.events fresh (some e);
}

abbrev pub count_daemon : Bool → Sim → Sim
count_daemon daemon s = record s {
  are_only_daemons = if daemon then s.are_only_daemons + 1 else s.are_only_daemons;
}

-- A daemon timer is refused once only daemons are left.
abbrev pub refused : Bool → Sim → Bool
refused daemon s =
    daemon && (s.are_only_daemons == count_queue s.event_queue) && not (s.current_time == 0)

-- The part after the test for daemons.
abbrev pub schedule : Ptr → Event → Sim → Outcome (Sim × Ptr)
schedule fresh e s = do
  s' ← mark_thread (waits e.event_module e.info) e.thread e.event_time (count_daemon e.daemon s)
  ok (queue_event fresh e s', fresh)

-- `fresh` is the address that `malloc` gives; the other arguments are the fields of the new event.
unfoldable pub event_timer : Ptr → Event → Sim → Outcome (Sim × Ptr)
event_timer fresh e s = if refused e.daemon s then ok (s, a_nil) else schedule fresh e s

-- The fields `module` and `thread` that an extraction asks for.
abbrev pub belongs : ℕ → Ptr → Event → Bool
belongs event_module thread e = (e.event_module == event_module) && (e.thread == thread)

-- Taking the event at an address out of the queue, and freeing it.
abbrev pub take_out : Ptr → Event → Sim → Outcome (Sim × ℕ)
take_out p e s = do
  q ← extract_from_queue s.event_queue p
  ok (record s { event_queue = q; events = store s.events p none }, e.event_time)

abbrev pub deref : Option Event → Outcome Event
deref none = undefined
deref (some e) = ok e

-- The first event of the queue for this module and thread. The search by `head_event` and
-- `next_event` moves the cursor of the event queue, which nothing else reads; that is left out.
unfoldable pub find_event : ℕ → Ptr → (Ptr → Option Event) → List (Item ℕ) → Outcome (Ptr × Event)
find_event event_module thread events [] = panic
find_event event_module thread events (x ∷ xs) =
    let rest = find_event event_module thread events xs in
    (do
      e ← deref (events x.content)
      if belongs event_module thread e then ok (x.content, e) else rest)

unfoldable pub extract_by_search : ℕ → Ptr → Sim → Outcome (Sim × ℕ)
extract_by_search event_module thread s = do
  (p, e) ← find_event event_module thread s.events s.event_queue.items
  take_out p e s

-- Gives the time of the event that was taken out.
unfoldable pub event_extract_timer : ℕ → Ptr → Sim → Outcome (Sim × ℕ)
event_extract_timer event_module thread s =
    let p = (s.threads thread).event in
    let own : Outcome (Sim × ℕ) = (do
      e ← deref (s.events p)
      if belongs event_module thread e
          then take_out p e s
          else extract_by_search event_module thread s) in
    if thread == a_nil
    then undefined
    else if p == a_nil
    then extract_by_search event_module thread s
    else own

unfoldable pub events_for_thread : Ptr → (Ptr → Option Event) → List (Item ℕ) → Outcome Bool
events_for_thread thread events [] = ok false
events_for_thread thread events (x ∷ xs) =
    let rest = events_for_thread thread events xs in
    (do e ← deref (events x.content); if e.thread == thread then ok true else rest)

unfoldable pub event_init : Sim → Sim
event_init s = record s { event_queue = create_queue }
