-- ===== src/Queue/Sorted.antt =====
-- Simulator/utils/list.c: what the sorted insertions promise, against a description by filters.
use dimemas.Base.{
  ℕ, suc, ◌+◌, ◌≤◌, ◌<◌, ◌≡◌, refl, inl, inr, Bool, true, false, List, [], ◌∷◌, ◌++◌, arith, ltb,
  leb, ◌==◌, if◌then◌else◌, length, length-reverse, reverse, Bool-cases, select, All, ap, ◌∙◌,
  append_assoc, append-nil, sym,
}
use mathlib.Core.List.{reverse-cons}
use dimemas.Queue.Base.{Ptr, a_nil, Item, Queue}
use dimemas.Queue.Priority.{
  walk, link, insert_at, insert_queue, insert_first_queue, insert_queue_from_back, insert_event,
  query_from, query_prio_queue,
}

abbrev pub Items : Type 0
Items = List (Item ℕ)

-- The keys do not fall from front to back.
abbrev pub IsSorted : Items → Type 0
IsSorted [] = Unit {0}
IsSorted (x ∷ xs) = All (λ y. x.order ≤ y.order) xs × IsSorted xs

abbrev pub item : Ptr → ℕ → Item ℕ
item c p = record { order = p; content = c }

-- The items whose keys pass a test, in their order.
abbrev pub with_key : (ℕ → Bool) → Items → Items
with_key p = select (λ x. p x.order)

-- The walk stops for good at the first key that stops it.
module _ (p : ℕ) where
  select_none :
      (goes : ℕ → Bool) (b : ℕ) (xs : Items)
      → ((k : ℕ) → b ≤ k → goes k ≡ false)
      → All (λ y. b ≤ y.order) xs
      → with_key goes xs ≡ []
  select_none goes b [] h a = refl
  select_none goes b (x ∷ xs) h a = rw (h x.order a.0) (select_none goes b xs h a.1)

  select_every :
      (goes : ℕ → Bool) (b : ℕ) (xs : Items)
      → ((k : ℕ) → b ≤ k → goes k ≡ true)
      → All (λ y. b ≤ y.order) xs
      → with_key goes xs ≡ xs
  select_every goes b [] h a = refl
  select_every goes b (x ∷ xs) h a =
      rw (h x.order a.0) (ap (λ r. x ∷ r) (select_every goes b xs h a.1))

  link-le :
      (new : Item ℕ) (xs : Items)
      → IsSorted xs
      → link (walk (λ k. leb k p) xs) new xs
        ≡ with_key (λ k. leb k p) xs ++ (new ∷ with_key (λ k. ltb p k) xs)
  unfolding link walk
  link-le new [] s = refl
  link-le new (x ∷ xs) s = elim (Bool-cases (leb x.order p)) [
    | inl goes ↦ ground (arith, link-le new xs s.1)
    | inr stops ↦ ground (
      arith,
      select_none (λ k. leb k p) x.order xs (λ k h. ground arith) s.0,
      select_every (λ k. ltb p k) x.order xs (λ k h. ground arith) s.0,
    )
  ]

  link-lt :
      (new : Item ℕ) (xs : Items)
      → IsSorted xs
      → link (walk (λ k. ltb k p) xs) new xs
        ≡ with_key (λ k. ltb k p) xs ++ (new ∷ with_key (λ k. leb p k) xs)
  unfolding link walk
  link-lt new [] s = refl
  link-lt new (x ∷ xs) s = elim (Bool-cases (ltb x.order p)) [
    | inl goes ↦ ground (arith, link-lt new xs s.1)
    | inr stops ↦ ground (
      arith,
      select_none (λ k. ltb k p) x.order xs (λ k h. ground arith) s.0,
      select_every (λ k. leb p k) x.order xs (λ k h. ground arith) s.0,
    )
  ]

module _ (goes : ℕ → Bool) where
  All-link :
      {b : ℕ} (new : Item ℕ) (xs : Items)
      → b ≤ new.order
      → All (λ y. b ≤ y.order) xs
      → All (λ y. b ≤ y.order) (link (walk goes xs) new xs)
  unfolding link walk
  All-link new [] h a = (h, tt)
  All-link new (x ∷ xs) h a = elim (Bool-cases (goes x.order)) [
    | inl e ↦ rw e (a.0, All-link new xs h a.1)
    | inr e ↦ rw e (h, a)
  ]

  walk-append_one :
      (xs : Items) (x : Item ℕ)
      → walk goes (xs ++ x ∷ []) ≡ (
          if walk goes xs == length xs
          then length xs + (if goes x.order then 1 else 0)
          else walk goes xs)
  unfolding walk
  walk-append_one [] x = ground arith
  walk-append_one (y ∷ xs) x = ground (arith, walk-append_one xs x)

  walk-le : (xs : Items) → walk goes xs ≤ length xs
  unfolding walk
  walk-le [] = omega arith
  walk-le (x ∷ xs) = ground (arith, walk-le xs)

All-mono : {b c : ℕ} (xs : Items) → b ≤ c → All (λ y. c ≤ y.order) xs → All (λ y. b ≤ y.order) xs
All-mono [] h a = tt
All-mono (x ∷ xs) h a = (omega arith, All-mono xs h a.1)

module _ (p : ℕ) where
  pub link-IsSorted_le :
      (c : Ptr) (xs : Items) → IsSorted xs → IsSorted (link (walk (λ k. leb k p) xs) (item c p) xs)
  unfolding link walk
  link-IsSorted_le c [] s = (tt, tt)
  link-IsSorted_le c (x ∷ xs) s = elim (Bool-cases (leb x.order p)) [
    | inl e ↦
        rw e (All-link (λ k. leb k p) (item c p) xs (ground arith) s.0, link-IsSorted_le c xs s.1)
    | inr e ↦ rw e ((ground arith, All-mono xs (ground arith) s.0), s)
  ]

  link-IsSorted_lt :
      (c : Ptr) (xs : Items) → IsSorted xs → IsSorted (link (walk (λ k. ltb k p) xs) (item c p) xs)
  unfolding link walk
  link-IsSorted_lt c [] s = (tt, tt)
  link-IsSorted_lt c (x ∷ xs) s = elim (Bool-cases (ltb x.order p)) [
    | inl e ↦
        rw e (All-link (λ k. ltb k p) (item c p) xs (ground arith) s.0, link-IsSorted_lt c xs s.1)
    | inr e ↦ rw e ((ground arith, All-mono xs (ground arith) s.0), s)
  ]

  walk-above : (xs : Items) → All (λ y. suc p ≤ y.order) xs → walk (λ k. leb k p) xs ≡ 0
  unfolding walk
  walk-above [] a = refl
  walk-above (x ∷ xs) a = ground arith

  -- From the back the walk stops at the same gap.
  walk-reverse :
      (xs : Items)
      → IsSorted xs
      → walk (λ k. ltb p k) (reverse xs) + walk (λ k. leb k p) xs ≡ length xs
  unfolding walk
  walk-reverse [] s = refl
  walk-reverse (x ∷ xs) s = rw (reverse-cons x xs) (
      ground (
        arith,
        walk-append_one (λ k. ltb p k) (reverse xs) x,
        walk-reverse xs s.1,
        length-reverse xs,
        λ (h : suc p ≤ x.order). walk-above xs (All-mono xs h s.0),
      ))

-- On a sorted queue `insert_queue` puts the item behind every item whose priority is not greater,
-- and before the others, whose order it keeps; the queue stays sorted.
pub insert_queue-with_key :
    (q : Queue ℕ) (c p : ℕ)
    → IsSorted q.items
    → ((insert_queue q c p).items
        ≡ with_key (λ k. leb k p) q.items ++ (item c p ∷ with_key (λ k. ltb p k) q.items))
      × IsSorted (insert_queue q c p).items
unfolding insert_queue
insert_queue-with_key q c p s = (link-le p (item c p) q.items s, link-IsSorted_le p c q.items s)

-- On a sorted queue `insert_first_queue` puts the item before every item whose priority is not
-- less, and behind the others, whose order it keeps; the queue stays sorted.
insert_first_queue-with_key :
    (q : Queue ℕ) (c p : ℕ)
    → IsSorted q.items
    → ((insert_first_queue q c p).items
        ≡ with_key (λ k. ltb k p) q.items ++ (item c p ∷ with_key (λ k. leb p k) q.items))
      × IsSorted (insert_first_queue q c p).items
unfolding insert_first_queue
insert_first_queue-with_key q c p s =
    (link-lt p (item c p) q.items s, link-IsSorted_lt p c q.items s)

-- On a sorted queue the insertion that searches from the back and the one that searches from the
-- front leave the same queue: chain, cursor and count.
pub insert_queue_from_back-insert_queue :
    (q : Queue ℕ) (c p : ℕ) → IsSorted q.items → insert_queue_from_back q c p ≡ insert_queue q c p
unfolding insert_queue_from_back insert_queue
insert_queue_from_back-insert_queue q c p s =
    ap (λ i. insert_at i q c p) (omega (arith, walk-reverse p q.items s))

-- Whether some item has this key.
abbrev pub has_key : ℕ → Items → Bool
has_key k [] = false
has_key k (x ∷ xs) = if x.order == k then true else has_key k xs

query_from-absent : (k : ℕ) (xs : Items) → has_key k xs ≡ false → query_from xs k ≡ a_nil
unfolding query_from
query_from-absent k [] h = refl
query_from-absent k (x ∷ xs) h = ground (arith, query_from-absent k xs)

has_key-above : (p k : ℕ) (xs : Items) → k < p → All (λ y. p ≤ y.order) xs → has_key k xs ≡ false
has_key-above p k [] h a = refl
has_key-above p k (x ∷ xs) h a = ground (arith, has_key-above p k xs h a.1)

module _ (p : ℕ) where
  query_from-link :
      (c : Ptr) (xs : Items) (k : ℕ)
      → IsSorted xs
      → query_from (link (walk (λ j. leb j p) xs) (item c p) xs) k
        ≡ (if has_key k xs then query_from xs k else if k == p then c else a_nil)
  unfolding query_from link walk
  query_from-link c [] k s = ground arith
  query_from-link c (x ∷ xs) k s = elim (Bool-cases (leb x.order p)) [
    | inl e ↦ rw e (ground (arith, query_from-link c xs k s.1))
    | inr e ↦ rw e (
        ground
          (arith, query_from-absent k xs, λ (h : k < x.order). has_key-above x.order k xs h s.0))
  ]

-- After `insert_queue` on a sorted queue, `query_prio_queue` still gives what it gave for every
-- priority that had an item; else it gives the new content at the new priority, and NULL elsewhere.
pub query_prio_queue-insert_queue :
    (q : Queue ℕ) (c p k : ℕ)
    → IsSorted q.items
    → query_prio_queue (insert_queue q c p) k
      ≡ (if has_key k q.items then query_prio_queue q k else if k == p then c else a_nil)
unfolding query_prio_queue insert_queue
query_prio_queue-insert_queue q c p k s = query_from-link p c q.items k s

-- Items of one key, in order.
module _ (p k : ℕ) where
  with_key-link :
      (c : Ptr) (xs : Items)
      → IsSorted xs
      → with_key (λ j. j == k) (link (walk (λ j. leb j p) xs) (item c p) xs)
        ≡ with_key (λ j. j == k) xs ++ (if p == k then item c p ∷ [] else [])
  unfolding link walk
  with_key-link c [] s = ground arith
  with_key-link c (x ∷ xs) s = elim (Bool-cases (leb x.order p)) [
    | inl e ↦ rw e (ground (arith, with_key-link c xs s.1))
    | inr e ↦ rw e (
        ground (
          arith,
          λ (h : p ≡ k). select_none p (λ j. j == k) x.order xs (λ j b. ground arith) s.0,
          append-nil (with_key (λ j. j == k) xs),
        ))
  ]

-- The queue of events after a series of insertions into the empty queue.
unfoldable pub insert_all : Queue ℕ → List (Ptr × ℕ) → Queue ℕ
insert_all q [] = q
insert_all q ((e, t) ∷ es) = insert_all (insert_event q e t) es

-- The events with this time, in the order of their insertion.
abbrev pub timed : ℕ → List (Ptr × ℕ) → Items
timed t [] = []
timed t ((e, u) ∷ es) = if u == t then item e u ∷ timed t es else timed t es

-- Whatever is inserted, in whatever order, into a sorted event queue, the queue is sorted by time,
-- and the events of one time stand in the order of their insertion, behind the old ones.
pub insert_all-timed :
    (q : Queue ℕ) (es : List (Ptr × ℕ)) (t : ℕ)
    → IsSorted q.items
    → IsSorted (insert_all q es).items
      × (with_key (λ j. j == t) (insert_all q es).items
          ≡ with_key (λ j. j == t) q.items ++ timed t es)
unfolding insert_all insert_event
insert_all-timed q [] t s = (s, sym (append-nil _))
insert_all-timed q ((e, u) ∷ es) t s =
    let ih = insert_all-timed (insert_event q e u) es t (link-IsSorted_le u e q.items s) in
    (ih.0, ih.1 ∙ ap (λ r. r ++ timed t es) (with_key-link u t e q.items s) ∙ regroup)
  where
    regroup :
        (with_key (λ j. j == t) q.items ++ (if u == t then item e u ∷ [] else [])) ++ timed t es
        ≡ with_key (λ j. j == t) q.items ++ timed t ((e, u) ∷ es)
    regroup = elim (Bool-cases (u == t)) [
      | inl h ↦ rw h (append_assoc (with_key (λ j. j == t) q.items) (item e u ∷ []) (timed t es))
      | inr h ↦ rw h (ap (λ r. r ++ timed t es) (append-nil (with_key (λ j. j == t) q.items)))
    ]
