-- ===== src/Queue/Removal.antt =====
-- Simulator/utils/list.c: taking out an item by its content, the event queue's front, and the
-- operations that empty a queue.
use dimemas.Base.{
  ℕ, zero, suc, ◌+◌, ◌-◌, Bool, Option, none, some, List, [], ◌∷◌, ◌++◌, ltb, ◌==◌, if◌then◌else◌,
  Outcome, ok, panic, undefined, ◌>>=◌,
}
use dimemas.Queue.Base.{
  Ptr, a_nil, Item, Cursor, null, at, dangling, Queue, after_free, in_fifo_queue, out_fifo_queue,
}

-- Where `curr` points after the extraction of the item at place `i`: to the predecessor `tmp2`,
-- which is NULL in front, if it pointed to the item.
abbrev pub before : ℕ → Cursor
before zero = null
before (suc k) = at k

abbrev pub step_back : ℕ → Cursor → Cursor
step_back i null = null
step_back i (at j) = if ltb j i then at j else if j == i then before i else at (j - 1)
step_back i dangling = dangling

abbrev pub one_more : Option ℕ → Option ℕ
one_more none = none
one_more (some i) = some (suc i)

module _ {K : Type 0} where
  -- `while (tmp1->content != content)`: the place of the first item with this content.
  unfoldable pub place_of : Ptr → List (Item K) → Option ℕ
  place_of c [] = none
  place_of c (x ∷ xs) = if x.content == c then some 0 else one_more (place_of c xs)

  -- Linking the neighbours of the item at place `i` to one another.
  unfoldable pub unlink : ℕ → List (Item K) → List (Item K)
  unlink i [] = []
  unlink zero (x ∷ xs) = xs
  unlink (suc i) (x ∷ xs) = x ∷ unlink i xs

  abbrev pub extract_at : Queue K → Option ℕ → Outcome (Queue K)
  extract_at q none = panic
  extract_at q (some i) =
      ok (record q { items = unlink i q.items; curr = step_back i q.curr; count = q.count - 1 })

  unfoldable pub extract_from_queue : Queue K → Ptr → Outcome (Queue K)
  extract_from_queue q content = extract_at q (place_of content q.items)

  -- `out_fifo_queue` until it returns NULL. Gives the contents that were freed.
  unfoldable pub drain : ℕ → Queue K → List Ptr → Queue K × List Ptr
  drain zero q freed = (q, freed)
  drain (suc fuel) q freed =
      let (q', element) = out_fifo_queue q in
      let rest = drain fuel q' (freed ++ element ∷ []) in
      if element == a_nil then (q', freed) else rest

  -- The assertion that ends `remove_queue_elements`, after the three pointers were cleared.
  abbrev pub assert_empty : Queue K × List Ptr → Outcome (Queue K × List Ptr)
  assert_empty (q, freed) =
      if q.count == 0
      then ok (record { items = []; curr = null; count = q.count }, freed)
      else panic

  unfoldable pub remove_queue_elements : Queue K → Outcome (Queue K × List Ptr)
  unfolding drain
  remove_queue_elements q =
      if q.count == 0 then ok (q, []) else assert_empty (drain (q.count + 1) q [])

  unfoldable pub move_loop : K → ℕ → Queue K → Queue K → Queue K × Queue K
  move_loop left zero from to = (from, to)
  move_loop left (suc n) from to =
      let (from', c) = out_fifo_queue from in move_loop left n from' (in_fifo_queue left to c)

  -- `while (from->count > 0)`, and each round takes one from the count: the count is the fuel.
  unfoldable pub move_queue_elements : K → Queue K → Queue K → Queue K × Queue K
  unfolding move_loop
  move_queue_elements left from to = move_loop left from.count from to

abbrev pub front : List (Item ℕ) → Outcome Ptr
front [] = undefined
front (x ∷ xs) = ok x.content

unfoldable pub top_event : Queue ℕ → Outcome Ptr
top_event q = if q.count == 0 then ok a_nil else front q.items

unfoldable pub empty_event : Queue ℕ → Outcome Bool
unfolding top_event
empty_event q = do e ← top_event q; ok (e == a_nil)

-- Without VENUS: the first item, or NULL.
abbrev pub out_event : Queue ℕ → List (Item ℕ) → Queue ℕ × Ptr
out_event q [] = (q, a_nil)
out_event q (e ∷ rest) =
    (record q { items = rest; curr = after_free 0 q.curr; count = q.count - 1 }, e.content)

unfoldable pub out_fifo_event : Queue ℕ → Queue ℕ × Ptr
out_fifo_event q = out_event q q.items
