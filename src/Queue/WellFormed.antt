-- ===== src/Queue/WellFormed.antt =====
-- Simulator/utils/list.c: the count and the cursor agree with the chain.
use dimemas.Base.{
  ℕ, zero, suc, ◌+◌, ◌-◌, ◌≤◌, ◌<◌, ◌≡◌, refl, inl, inr, Bool, Option, none, some, List, [], ◌∷◌,
  arith, ltb, length, length-append, ok, ◌>>=◌, reverse, Option-cases,
}
use dimemas.Queue.Base.{
  Ptr, Item, Cursor, null, at, dangling, Queue, in_fifo_queue, in_lifo_queue, head_queue, next_from,
  prev_from, tail_from, out_fifo_queue, split_last, out_last, out_first,
}
use dimemas.Queue.Priority.{walk, link, insert_at, insert_queue_from_back}
use dimemas.Queue.Removal.{place_of, unlink, extract_at, extract_from_queue, out_event}

abbrev pub InChain : ℕ → Cursor → Type 0
InChain n null = Unit {0}
InChain n (at i) = i < n
InChain n dangling = Unit {0}

-- The count is the length of the chain, and a cursor that is no dangling pointer lies in the chain.
pub record IsQueue {K : Type 0} (q : Queue K) : Type 0 where
  pub counted : q.count ≡ length q.items
  pub placed : InChain (length q.items) q.curr

length-link : (i : ℕ) (new : Item ℕ) (xs : List (Item ℕ)) → length (link i new xs) ≡ length xs + 1
unfolding link
length-link zero new xs = omega arith
length-link (suc i) new [] = omega arith
length-link (suc i) new (x ∷ xs) = omega (arith, length-link i new xs)

insert_at-IsQueue :
    (i : ℕ) (q : Queue ℕ) (c p : ℕ) → i ≤ length q.items → IsQueue q → IsQueue (insert_at i q c p)
insert_at-IsQueue i q c p h v =
    ground (arith, length-link i (record { order = p; content = c }) q.items)

walk-le : (goes : ℕ → Bool) (xs : List (Item ℕ)) → walk goes xs ≤ length xs
unfolding walk
walk-le goes [] = omega arith
walk-le goes (x ∷ xs) = ground (arith, walk-le goes xs)

pub insert_walk-IsQueue :
    (goes : ℕ → Bool) (q : Queue ℕ) (c p : ℕ)
    → IsQueue q
    → IsQueue (insert_at (walk goes q.items) q c p)
insert_walk-IsQueue goes q c p v =
    insert_at-IsQueue (walk goes q.items) q c p (walk-le goes q.items) v

module _ {K : Type 0} where
  length-split_last : (x : Item K) (xs : List (Item K)) → length (split_last x xs).0 ≡ length xs
  length-split_last x [] = refl
  length-split_last x (y ∷ ys) = omega (arith, length-split_last y ys)

  out_first-IsQueue :
      (q : Queue K) (xs : List (Item K)) → q.items ≡ xs → IsQueue q → IsQueue (out_first q xs).0
  out_first-IsQueue q [] e v = v
  out_first-IsQueue q (x ∷ xs) e v = ground arith

  pub out_fifo_queue-IsQueue : (q : Queue K) → IsQueue q → IsQueue (out_fifo_queue q).0
  unfolding out_fifo_queue
  out_fifo_queue-IsQueue q v = out_first-IsQueue q q.items refl v

  pub out_last-IsQueue :
      (q : Queue K) (xs : List (Item K)) → q.items ≡ xs → IsQueue q → IsQueue (out_last q xs).0
  out_last-IsQueue q [] e v = v
  out_last-IsQueue q (x ∷ xs) e v = ground (arith, length-split_last x xs)

  place_of-lt : (c : Ptr) (xs : List (Item K)) {i : ℕ} → place_of c xs ≡ some i → i < length xs
  unfolding place_of
  place_of-lt c [] h = cc
  place_of-lt c (x ∷ xs) {i} h = elim (Option-cases (place_of c xs)) [
    | inl e ↦ ground arith
    | inr (j, e) ↦ ground (arith, place_of-lt c xs e)
  ]

  length-unlink :
      (i : ℕ) (xs : List (Item K)) → i < length xs → length (unlink i xs) + 1 ≡ length xs
  unfolding unlink
  length-unlink i [] h = absurd (omega arith)
  length-unlink zero (x ∷ xs) h = omega arith
  length-unlink (suc i) (x ∷ xs) h = omega (arith, length-unlink i xs)

  extract_at-IsQueue :
      (q : Queue K) (o : Option ℕ) {q' : Queue K}
      → ((i : ℕ) → o ≡ some i → i < length q.items)
      → IsQueue q
      → extract_at q o ≡ ok q'
      → IsQueue q'
  extract_at-IsQueue q none h v e = cc
  extract_at-IsQueue q (some i) h v e = ground (arith, h i refl, length-unlink i q.items)

  pub extract_from_queue-IsQueue :
      (q : Queue K) (c : Ptr) {q' : Queue K}
      → IsQueue q
      → extract_from_queue q c ≡ ok q'
      → IsQueue q'
  unfolding extract_from_queue
  extract_from_queue-IsQueue q c v e =
      extract_at-IsQueue q (place_of c q.items) (λ i h. place_of-lt c q.items h) v e

pub next_queue-IsQueue :
    (q : Queue ℕ) (k : Cursor) {q' : Queue ℕ}
    → IsQueue q
    → InChain (length q.items) k
    → (do (r, c) ← next_from q k; ok r) ≡ ok q'
    → IsQueue q'
next_queue-IsQueue q null v h e = ground arith
next_queue-IsQueue q (at i) v h e = ground arith
next_queue-IsQueue q dangling v h e = cc

pub prev_queue-IsQueue :
    (q : Queue ℕ) (k : Cursor) {q' : Queue ℕ}
    → IsQueue q
    → InChain (length q.items) k
    → (do (r, c) ← prev_from q k; ok r) ≡ ok q'
    → IsQueue q'
prev_queue-IsQueue q null v h e = ground arith
prev_queue-IsQueue q (at zero) v h e = cc
prev_queue-IsQueue q (at (suc i)) v h e = ground arith
prev_queue-IsQueue q dangling v h e = cc

pub tail_from-IsQueue :
    (q : Queue ℕ) (xs : List (Item ℕ)) → q.items ≡ xs → IsQueue q → IsQueue (tail_from q xs).0
tail_from-IsQueue q [] e v = ground arith
tail_from-IsQueue q (x ∷ xs) e v = ground arith

pub ok_IsQueue : {q q' : Queue ℕ} → IsQueue q → ok q ≡ ok q' → IsQueue q'
ok_IsQueue v e = ground arith

module _ (q : Queue ℕ) (v : IsQueue q) where
  pub in_fifo_queue-IsQueue : (left : ℕ) (c : Ptr) → IsQueue (in_fifo_queue left q c)
  unfolding in_fifo_queue
  in_fifo_queue-IsQueue left c =
      ground (arith, length-append q.items (record { order = left; content = c } ∷ []))

  pub in_lifo_queue-IsQueue : (left : ℕ) (c : Ptr) → IsQueue (in_lifo_queue left q c)
  unfolding in_lifo_queue
  in_lifo_queue-IsQueue left c = ground arith

  pub out_fifo_event-IsQueue : (xs : List (Item ℕ)) → q.items ≡ xs → IsQueue (out_event q xs).0
  out_fifo_event-IsQueue [] e = v
  out_fifo_event-IsQueue (x ∷ xs) e = ground arith

  pub head_queue-IsQueue : IsQueue (head_queue q).0
  unfolding head_queue
  head_queue-IsQueue = ground arith

  pub insert_queue_from_back-IsQueue : (c p : ℕ) → IsQueue (insert_queue_from_back q c p)
  unfolding insert_queue_from_back
  insert_queue_from_back-IsQueue c p =
      insert_at-IsQueue (length q.items - walk (λ k. ltb p k) (reverse q.items)) q c p (omega arith)
        v
