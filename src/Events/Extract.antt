-- ===== src/Events/Extract.antt =====
-- Simulator/sched/events.c, `EVENT_extract_timer`: a pending timer is taken back.
use dimemas.Base.{
  ℕ, ◌+◌, ◌-◌, ◌≤◌, ◌≡◌, ◌≢◌, refl, ap, ◌∙◌, sym, subst, Bool, true, false, ◌||◌, Option, none,
  some, [], ◌∷◌, ◌==◌, if◌then◌else◌, Outcome, ok, panic, undefined, ◌>>=◌, All, length, arith,
  Bool-cases, inl, inr,
}
use dimemas.Queue.{Ptr, a_nil, Item, Queue}
use dimemas.Queue.Sorted.{IsSorted}
use dimemas.Queue.Insertion.{Absent, Distinct}
use dimemas.Queue.Emptying.{without, holds, extract_from_queue-without}
use dimemas.Events.Timers.{
  Event, Sim, store, deref, belongs, take_out, find_event, extract_by_search, event_extract_timer,
}
use dimemas.Events.Invariant.{
  IsClock, Inv, Items, Live, Blocks, is_daemon, daemons, Live-store, daemons-store,
}

module _ (p : Ptr) where
  pub without-All {κ} : (P : Item ℕ → Type κ) (xs : Items) → All P xs → All P (without p xs)
  without-All P [] a = tt
  without-All P (x ∷ xs) a = elim (Bool-cases (x.content == p)) [
    | inl e ↦ rw e a.1
    | inr e ↦ rw e (a.0, without-All P xs a.1)
  ]

  without-IsSorted : (xs : Items) → IsSorted xs → IsSorted (without p xs)
  without-IsSorted [] s = tt
  without-IsSorted (x ∷ xs) s = elim (Bool-cases (x.content == p)) [
    | inl e ↦ rw e s.1
    | inr e ↦ rw e (without-All (λ y. x.order ≤ y.order) xs s.0, without-IsSorted xs s.1)
  ]

  without-Distinct : (xs : Items) → Distinct xs → Distinct (without p xs)
  without-Distinct [] d = tt
  without-Distinct (x ∷ xs) d = elim (Bool-cases (x.content == p)) [
    | inl e ↦ rw e d.1
    | inr e ↦ rw e (without-All (λ y. y.content ≢ x.content) xs d.0, without-Distinct xs d.1)
  ]

  without-Absent : (xs : Items) → Distinct xs → Absent p (without p xs)
  without-Absent [] d = tt
  without-Absent (x ∷ xs) d = elim (Bool-cases (x.content == p)) [
    | inl e ↦ let is : x.content ≡ p = ground arith in rw e (subst (λ c. Absent c xs) is d.0)
    | inr e ↦ rw e ((λ h. ground arith), without-Absent xs d.1)
  ]

  length-without : (xs : Items) → holds p xs ≡ true → length (without p xs) + 1 ≡ length xs
  length-without [] h = cc
  length-without (x ∷ xs) h = ground (arith, length-without xs)

  daemons-without :
      (events : Blocks) (xs : Items)
      → holds p xs ≡ true
      → daemons events xs ≡ is_daemon (events p) + daemons events (without p xs)
  daemons-without events [] h = cc
  daemons-without events (x ∷ xs) h = elim (Bool-cases (x.content == p)) [
    | inl e ↦ let is : x.content ≡ p = ground arith in rw (e, is)
    | inr e ↦ rw e (omega (arith, daemons-without events xs (ground arith)))
  ]

-- What the extraction of the event `e` at the address `p` leaves.
pub record Taken (s : Sim) (p : Ptr) (e : Event) (t : Sim) : Type 0 where
  pub allocated : s.events p ≡ some e
  pub queued : holds p s.event_queue.items ≡ true
  pub items : t.event_queue.items ≡ without p s.event_queue.items
  pub counted : t.event_queue.count ≡ s.event_queue.count - 1
  pub freed : t.events ≡ store s.events p none
  pub time : t.current_time ≡ s.current_time
  pub daemons_kept : t.are_only_daemons ≡ s.are_only_daemons

-- Some queued event of the module and thread was taken, and its time is the result.
abbrev pub Extracted : ℕ → Ptr → Sim → Sim × ℕ → Type 0
Extracted event_module thread s (t, when) =
    (p : Ptr) × (e : Event) × (belongs event_module thread e ≡ true)
    × Taken s p e t
    × (when ≡ e.event_time)

take_out-Taken :
    (p : Ptr) (e : Event) (s : Sim) {r : Sim × ℕ}
    → s.events p ≡ some e
    → take_out p e s ≡ ok r
    → Taken s p e r.0 × (r.1 ≡ e.event_time)
take_out-Taken p e s {r} live h = elim (extract_from_queue-without s.event_queue p) [
  | inl (_, lost) ↦
      let none_left : panic ≡ ok r = (sym (ap (λ m. m >>= λ q. ok (left q)) lost) ∙ h) in cc
  | inr (q, held, found, items, count) ↦
      let is : ok (left q) ≡ ok r = sym (ap (λ m. m >>= λ q'. ok (left q')) found) ∙ h in
      let same : left q ≡ r = cc in
      subst (λ (z : Sim × ℕ). Taken s p e z.0 × (z.1 ≡ e.event_time)) same
        (
          record {
            allocated = live;
            queued = held;
            items = items;
            counted = count;
            freed = refl;
            time = refl;
            daemons_kept = refl;
          },
          refl,
        )
]
  where
    left : Queue ℕ → Sim × ℕ
    left q = (record s { event_queue = q; events = store s.events p none }, e.event_time)

find_event-belongs :
    (event_module : ℕ) (thread : Ptr) (events : Blocks) (xs : Items) {r : Ptr × Event}
    → find_event event_module thread events xs ≡ ok r
    → (events r.0 ≡ some r.1) × (belongs event_module thread r.1 ≡ true)
unfolding find_event
find_event-belongs m th events [] h = cc
find_event-belongs m th events (x ∷ xs) {r} h =
    go (events x.content) refl (find_event-belongs m th events xs {r = r}) h
  where
    go :
        (o : Option Event)
        → events x.content ≡ o
        → (find_event m th events xs ≡ ok r → (events r.0 ≡ some r.1) × (belongs m th r.1 ≡ true))
        → (do e ← deref o; if belongs m th e then ok (x.content, e) else find_event m th events xs)
          ≡ ok r
        → (events r.0 ≡ some r.1) × (belongs m th r.1 ≡ true)
    go none e rest h = cc
    go (some v) e rest h = elim (Bool-cases (belongs m th v)) [
      | inl its ↦
          let same : (x.content, v) ≡ r = ground arith in
          subst (λ (z : Ptr × Event). (events z.0 ≡ some z.1) × (belongs m th z.1 ≡ true)) same
            (e, its)
      | inr other ↦ rest (ground arith)
    ]

module _ (event_module : ℕ) (thread : Ptr) (s : Sim) where
  extract_by_search-Extracted :
      (o : Outcome (Ptr × Event)) {r : Sim × ℕ}
      → find_event event_module thread s.events s.event_queue.items ≡ o
      → (do (p, e) ← o; take_out p e s) ≡ ok r
      → Extracted event_module thread s r
  extract_by_search-Extracted panic f h = cc
  extract_by_search-Extracted undefined f h = cc
  extract_by_search-Extracted (ok (p, e)) f h =
      let found = find_event-belongs event_module thread s.events s.event_queue.items f in
      let taken = take_out-Taken p e s found.0 h in (p, e, found.1, taken.0, taken.1)

  own_event :
      (o : Option Event) {r : Sim × ℕ}
      → s.events (s.threads thread).event ≡ o
      → (do
        e ← deref o
        if belongs event_module thread e
            then take_out (s.threads thread).event e s
            else extract_by_search event_module thread s)
        ≡ ok r
      → Extracted event_module thread s r
  own_event none f h = cc
  own_event (some e) {r} f h = elim (Bool-cases (belongs event_module thread e)) [
    | inl its ↦
        let taken = take_out-Taken (s.threads thread).event e s f (rw its at h) in
        ((s.threads thread).event, e, its, taken.0, taken.1)
    | inr other ↦ unfold extract_by_search in extract_by_search-Extracted _ refl (rw other at h)
  ]

  -- When `EVENT_extract_timer` returns, it has taken exactly one event out of the queue, one of the
  -- given module and thread, freed it, and given its time; nothing else of the clock changed.
  pub event_extract_timer-Extracted :
      {r : Sim × ℕ}
      → event_extract_timer event_module thread s ≡ ok r
      → Extracted event_module thread s r
  unfolding event_extract_timer
  event_extract_timer-Extracted {r} h = elim (Bool-cases (thread == a_nil)) [
    | inl null ↦ let bad : undefined ≡ ok r = rw null at h in cc
    | inr there ↦ elim (Bool-cases ((s.threads thread).event == a_nil)) [
      | inl null ↦
          let h' : extract_by_search event_module thread s ≡ ok r = rw null at (rw there at h) in
          unfold extract_by_search in extract_by_search-Extracted _ refl h'
      | inr some_event ↦
          own_event (s.events (s.threads thread).event) refl (rw some_event at (rw there at h))
    ]
  ]

  pub Taken-IsClock :
      (p : Ptr) (e : Event) {t : Sim}
      → e.daemon ≡ false
      → Taken s p e t
      → Inv s
      → IsClock t.event_queue t.current_time t.are_only_daemons t.events
  Taken-IsClock p e {t} plain k v =
      let xs : Items = s.event_queue.items in
      let ys : Items = without p xs in
      let gone : Absent p ys = without-Absent p xs v.distinct in
      let no_daemon : is_daemon (s.events p) ≡ 0 = rw k.allocated (ground arith) in
      let fewer : daemons s.events xs ≡ is_daemon (s.events p) + daemons s.events ys =
        daemons-without p s.events xs k.queued in
      let kept : daemons (store s.events p none) ys ≡ daemons s.events ys =
        daemons-store s.events p none ys gone in
      rw (k.freed, k.time, k.daemons_kept)
        (record {
          counted = rw k.items (omega (arith, k.counted, v.counted, length-without p xs k.queued));
          sorted = rw k.items (without-IsSorted p xs v.sorted);
          future = rw k.items (without-All p (λ x. s.current_time ≤ x.order) xs v.future);
          live =
              rw k.items
                (Live-store s.events p none ys gone (without-All p (Live s.events) xs v.live));
          distinct = rw k.items (without-Distinct p xs v.distinct);
          proper = rw k.items (without-All p (λ x. x.content ≢ a_nil) xs v.proper);
          daemons_counted = rw k.items (omega (arith, v.daemons_counted, kept, fewer, no_daemon));
        })

  abbrev pub is_theirs : Option Event → Bool
  is_theirs none = false
  is_theirs (some e) = belongs event_module thread e

  -- Whether some queued event is of the module and thread.
  abbrev pub pending : Items → Bool
  pending [] = false
  pending (x ∷ xs) = is_theirs (s.events x.content) || pending xs
