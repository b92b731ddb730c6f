-- ===== src/Queue/Priority.antt =====
-- Simulator/utils/list.c: the insertions of the sorted queues, by priority and by event time, and
-- the search by priority. The key is a double in C; here it is a number on a fixed scale.
-- Each C loop walks a pair of neighbours `tmp2`, `tmp1` until a key stops it; here the loop gives
-- the place of `tmp1`, and the item is linked in before that place.
use dimemas.Base.{
  ℕ, zero, suc, ◌+◌, ◌-◌, Bool, List, [], ◌∷◌, ltb, leb, ◌==◌, if◌then◌else◌, length, reverse,
}
use dimemas.Queue.Base.{Ptr, a_nil, Item, Queue, after_insert}

-- The number of items in front that let the walk go on.
unfoldable pub walk : (ℕ → Bool) → List (Item ℕ) → ℕ
walk goes [] = 0
walk goes (x ∷ xs) = if goes x.order then suc (walk goes xs) else 0

-- Linking a new item in before the place `i`.
unfoldable pub link : ℕ → Item ℕ → List (Item ℕ) → List (Item ℕ)
link zero new xs = new ∷ xs
link (suc i) new [] = new ∷ []
link (suc i) new (x ∷ xs) = x ∷ link i new xs

abbrev pub insert_at : ℕ → Queue ℕ → Ptr → ℕ → Queue ℕ
insert_at i q content prio = record q {
  items = link i (record { order = prio; content = content }) q.items;
  curr = after_insert i q.curr;
  count = q.count + 1;
}

-- `while (tmp1->order.priority <= prio)` from the front.
unfoldable pub insert_queue : Queue ℕ → Ptr → ℕ → Queue ℕ
insert_queue q content prio = insert_at (walk (λ p. leb p prio) q.items) q content prio

-- `while (tmp1->order.priority > prio)` from the back, by the `prev` pointers.
unfoldable pub insert_queue_from_back : Queue ℕ → Ptr → ℕ → Queue ℕ
insert_queue_from_back q content prio =
    insert_at (length q.items - walk (λ p. ltb prio p) (reverse q.items)) q content prio

-- `while (tmp1->order.priority < prio)` from the front.
unfoldable pub insert_first_queue : Queue ℕ → Ptr → ℕ → Queue ℕ
insert_first_queue q content prio = insert_at (walk (λ p. ltb p prio) q.items) q content prio

-- `while LE_TIMER(tmp1->order.list_time, e->event_time)`; `time` is `e->event_time`.
unfoldable pub insert_event : Queue ℕ → Ptr → ℕ → Queue ℕ
insert_event q e time = insert_at (walk (λ t. leb t time) q.items) q e time

unfoldable pub query_from : List (Item ℕ) → ℕ → Ptr
query_from [] prio = a_nil
query_from (x ∷ xs) prio = if x.order == prio then x.content else query_from xs prio

unfoldable pub query_prio_queue : Queue ℕ → ℕ → Ptr
unfolding query_from
query_prio_queue q prio = query_from q.items prio
