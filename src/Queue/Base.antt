-- ===== src/Queue/Base.antt =====
-- Simulator/utils/list.c: the queues that every module of the simulator keeps its objects in.
-- The doubly linked chain `first … last` is the list `items`, front first. A `t_item` is known by
-- its place in the chain, so the pointer `curr` is a place, NULL, or `dangling` once its item has
-- been freed. `count` is the field of the struct, kept beside the chain as the code keeps it.
-- `K` is what the union `order` holds; the plain queues never read it.
use dimemas.Base.{
  ℕ, zero, suc, ◌+◌, ◌-◌, Bool, List, [], ◌∷◌, ◌++◌, ltb, ◌==◌, if◌then◌else◌, length, Outcome, ok,
  undefined,
}

-- An address; 0 is NULL.
abbrev pub Ptr : Type 0
Ptr = ℕ

abbrev pub a_nil : Ptr
a_nil = 0

pub record Item (K : Type 0) : Type 0 where
  pub order : K
  pub content : Ptr

pub data Cursor : Type 0 where
  null : Cursor
  at : ℕ → Cursor
  dangling : Cursor

pub record Queue (K : Type 0) : Type 0 where
  pub items : List (Item K)
  pub curr : Cursor
  pub count : ℕ

-- The place that `curr` points to after the item at place `i` is linked in, or is freed.
abbrev pub after_insert : ℕ → Cursor → Cursor
after_insert i null = null
after_insert i (at j) = if ltb j i then at j else at (j + 1)
after_insert i dangling = dangling

abbrev pub after_free : ℕ → Cursor → Cursor
after_free i null = null
after_free i (at j) = if ltb j i then at j else if j == i then dangling else at (j - 1)
after_free i dangling = dangling

module _ {K : Type 0} where
  unfoldable pub create_queue : Queue K
  create_queue = record { items = []; curr = null; count = 0 }

  -- `left` is what the block from `malloc` happens to hold in `order`, which is not written here.
  unfoldable pub in_fifo_queue : K → Queue K → Ptr → Queue K
  in_fifo_queue left q content = record q {
    items = q.items ++ record { order = left; content = content } ∷ [];
    count = q.count + 1;
  }

  unfoldable pub in_lifo_queue : K → Queue K → Ptr → Queue K
  in_lifo_queue left q content = record q {
    items = record { order = left; content = content } ∷ q.items;
    curr = after_insert 0 q.curr;
    count = q.count + 1;
  }

  abbrev pub out_first : Queue K → List (Item K) → Queue K × Ptr
  out_first q [] = (q, a_nil)
  out_first q (e ∷ rest) =
      (record q { items = rest; curr = after_free 0 q.curr; count = q.count - 1 }, e.content)

  unfoldable pub out_fifo_queue : Queue K → Queue K × Ptr
  out_fifo_queue q = out_first q q.items

  -- The items but the last, and the last.
  abbrev pub split_last : Item K → List (Item K) → List (Item K) × Item K
  split_last x [] = ([], x)
  split_last x (y ∷ ys) = (x ∷ (split_last y ys).0, (split_last y ys).1)

  abbrev pub out_last : Queue K → List (Item K) → Queue K × Ptr
  out_last q [] = (q, a_nil)
  out_last q (x ∷ xs) = (
    record q {
      items = (split_last x xs).0;
      curr = after_free (length xs) q.curr;
      count = q.count - 1;
    },
    (split_last x xs).1.content,
  )

  unfoldable pub out_lifo_queue : Queue K → Queue K × Ptr
  out_lifo_queue q = out_last q q.items

  unfoldable pub count_queue : Queue K → ℕ
  count_queue q = q.count

  unfoldable pub empty_queue : Queue K → Bool
  empty_queue q = q.count == 0

  -- The content at a place, or `A_NIL` past the end.
  abbrev pub content_at : List (Item K) → ℕ → Ptr
  content_at [] i = a_nil
  content_at (x ∷ xs) zero = x.content
  content_at (x ∷ xs) (suc i) = content_at xs i

  -- The place as a pointer: NULL past the end.
  abbrev pub place : List (Item K) → ℕ → Cursor
  place xs i = if ltb i (length xs) then at i else null

  unfoldable pub head_queue : Queue K → Queue K × Ptr
  head_queue q = (record q { curr = place q.items 0 }, content_at q.items 0)

  abbrev pub next_from : Queue K → Cursor → Outcome (Queue K × Ptr)
  next_from q null = ok (q, a_nil)
  next_from q (at i) = ok (record q { curr = place q.items (suc i) }, content_at q.items (suc i))
  next_from q dangling = undefined

  unfoldable pub next_queue : Queue K → Outcome (Queue K × Ptr)
  next_queue q = next_from q q.curr

  abbrev pub tail_from : Queue K → List (Item K) → Queue K × Ptr
  tail_from q [] = (record q { curr = null }, a_nil)
  tail_from q (x ∷ xs) = (record q { curr = at (length xs) }, (split_last x xs).1.content)

  unfoldable pub tail_queue : Queue K → Queue K × Ptr
  tail_queue q = tail_from q q.items

  -- `prev_queue` reads `e->content` with no test for NULL.
  abbrev pub prev_from : Queue K → Cursor → Outcome (Queue K × Ptr)
  prev_from q null = ok (q, a_nil)
  prev_from q (at zero) = undefined
  prev_from q (at (suc i)) = ok (record q { curr = at i }, content_at q.items i)
  prev_from q dangling = undefined

  unfoldable pub prev_queue : Queue K → Outcome (Queue K × Ptr)
  prev_queue q = prev_from q q.curr
