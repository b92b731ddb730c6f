-- ===== src/Queue/Calls.antt =====
-- Simulator/utils/list.c: the calls that a module makes on one queue, and when they leave its
-- cursor dangling.
use dimemas.Base.{
  ℕ, zero, suc, ◌+◌, ◌-◌, ◌≡◌, ◌∙◌, refl, ap, sym, subst, inl, inr, Bool, true, false, ◌&&◌, ◌||◌,
  List, [], ◌∷◌, arith, ◌==◌, ==_iff, if◌then◌else◌, length, Outcome, ok, panic, ◌>>=◌, Bool-cases,
  Option, none, some,
}
use dimemas.Queue.Base.{
  Ptr, Item, Cursor, null, at, dangling, Queue, in_fifo_queue, in_lifo_queue, next_queue,
  tail_queue, prev_queue, head_queue, next_from, prev_from, tail_from, out_fifo_queue,
  out_lifo_queue, out_last, out_first, after_free, after_insert, place,
}
use dimemas.Queue.Priority.{insert_queue, insert_first_queue, insert_queue_from_back, insert_event}
use dimemas.Queue.Removal.{
  place_of, extract_at, extract_from_queue, step_back, out_fifo_event, out_event, drain,
  remove_queue_elements, assert_empty, move_loop, move_queue_elements,
}
use dimemas.Queue.WellFormed.{
  IsQueue, InChain, in_fifo_queue-IsQueue, in_lifo_queue-IsQueue, out_fifo_queue-IsQueue,
  out_last-IsQueue, out_fifo_event-IsQueue, head_queue-IsQueue, next_queue-IsQueue,
  tail_from-IsQueue, prev_queue-IsQueue, insert_walk-IsQueue, insert_queue_from_back-IsQueue,
  extract_from_queue-IsQueue,
}

-- Every call that changes a queue. A move is a call on the queue that it empties, and one on the
-- queue that it fills; each has the other queue as its argument.
pub data Call : Type 0 where
  in_fifo in_lifo : ℕ → Ptr → Call
  out_fifo out_lifo event_out head next tail prev remove_elements : Call
  insert insert_back insert_first insert_timed : Ptr → ℕ → Call
  extract : Ptr → Call
  move_to move_from : ℕ → Queue ℕ → Call

-- The queue that a call leaves.
unfoldable pub apply : Queue ℕ → Call → Outcome (Queue ℕ)
apply q (in_fifo left c) = ok (in_fifo_queue left q c)
apply q (in_lifo left c) = ok (in_lifo_queue left q c)
apply q out_fifo = ok (out_fifo_queue q).0
apply q out_lifo = ok (out_lifo_queue q).0
apply q event_out = ok (out_fifo_event q).0
apply q head = ok (head_queue q).0
apply q next = do (q', c) ← next_queue q; ok q'
apply q tail = ok (tail_queue q).0
apply q prev = do (q', c) ← prev_queue q; ok q'
apply q remove_elements = do (q', freed) ← remove_queue_elements q; ok q'
apply q (insert c p) = ok (insert_queue q c p)
apply q (insert_back c p) = ok (insert_queue_from_back q c p)
apply q (insert_first c p) = ok (insert_first_queue q c p)
apply q (insert_timed c p) = ok (insert_event q c p)
apply q (extract c) = extract_from_queue q c
apply q (move_to left to) = ok (move_queue_elements left q to).0
apply q (move_from left from) = ok (move_queue_elements left from q).1

abbrev pub dangles : Cursor → Bool
dangles null = false
dangles (at i) = false
dangles dangling = true

-- The cursor stands at the place.
abbrev pub stands : ℕ → Cursor → Bool
stands n null = false
stands n (at i) = i == n
stands n dangling = false

abbrev pub at_item : Cursor → Bool
at_item null = false
at_item (at i) = true
at_item dangling = false

-- Whether the cursor dangles after a call that returns: where it dangled and the call does not set
-- it, and where the call frees the item at which it stands.
abbrev pub dangles_after : Queue ℕ → Call → Bool
dangles_after q out_fifo = dangles q.curr || stands 0 q.curr
dangles_after q event_out = dangles q.curr || stands 0 q.curr
dangles_after q out_lifo = dangles q.curr || stands (length q.items - 1) q.curr
dangles_after q head = false
dangles_after q tail = false
dangles_after q remove_elements = dangles q.curr && (q.count == 0)
dangles_after q (move_to left to) = dangles q.curr || at_item q.curr
dangles_after q next = dangles q.curr
dangles_after q prev = dangles q.curr
dangles_after q (in_fifo left c) = dangles q.curr
dangles_after q (in_lifo left c) = dangles q.curr
dangles_after q (insert c p) = dangles q.curr
dangles_after q (insert_back c p) = dangles q.curr
dangles_after q (insert_first c p) = dangles q.curr
dangles_after q (insert_timed c p) = dangles q.curr
dangles_after q (extract c) = dangles q.curr
dangles_after q (move_from left from) = dangles q.curr

after_free-dangles : (n : ℕ) (k : Cursor) → dangles (after_free n k) ≡ (dangles k || stands n k)
after_free-dangles n null = refl
after_free-dangles n (at i) = ground arith
after_free-dangles n dangling = refl

after_insert-dangles : (n : ℕ) (k : Cursor) → dangles (after_insert n k) ≡ dangles k
after_insert-dangles n null = refl
after_insert-dangles n (at i) = ground arith
after_insert-dangles n dangling = refl

step_back-dangles : (n : ℕ) (k : Cursor) → dangles (step_back n k) ≡ dangles k
step_back-dangles n null = refl
step_back-dangles zero (at i) = ground arith
step_back-dangles (suc n) (at i) = ground arith
step_back-dangles n dangling = refl

-- A cursor in an empty chain stands nowhere.
nowhere : (k : Cursor) (n : ℕ) → InChain 0 k → dangles k ≡ (dangles k || stands n k)
nowhere null n h = refl
nowhere (at i) n h = absurd (omega (arith, h))
nowhere dangling n h = refl

no_item : (k : Cursor) → InChain 0 k → dangles k ≡ (dangles k || at_item k)
no_item null h = refl
no_item (at i) h = absurd (omega (arith, h))
no_item dangling h = refl

-- What the front loses, the cursor that stands at an item loses in the end.
after_first :
    (k : Cursor) → (dangles (after_free 0 k) || at_item (after_free 0 k)) ≡ (dangles k || at_item k)
after_first null = refl
after_first (at i) = ground arith
after_first dangling = refl

module _ (q : Queue ℕ) where
  first-dangles :
      (xs : List (Item ℕ))
      → q.items ≡ xs
      → IsQueue q
      → dangles (out_first q xs).0.curr ≡ (dangles q.curr || stands 0 q.curr)
  first-dangles [] e v = nowhere q.curr 0 (subst (λ ys. InChain (length ys) q.curr) e v.placed)
  first-dangles (x ∷ xs) e v = after_free-dangles 0 q.curr

  event-dangles :
      (xs : List (Item ℕ))
      → q.items ≡ xs
      → IsQueue q
      → dangles (out_event q xs).0.curr ≡ (dangles q.curr || stands 0 q.curr)
  event-dangles [] e v = nowhere q.curr 0 (subst (λ ys. InChain (length ys) q.curr) e v.placed)
  event-dangles (x ∷ xs) e v = after_free-dangles 0 q.curr

  last-dangles :
      (xs : List (Item ℕ))
      → q.items ≡ xs
      → IsQueue q
      → dangles (out_last q xs).0.curr ≡ (dangles q.curr || stands (length q.items - 1) q.curr)
  last-dangles [] e v =
      nowhere q.curr (length q.items - 1) (subst (λ ys. InChain (length ys) q.curr) e v.placed)
  last-dangles (x ∷ xs) e v =
      let last : length xs ≡ length q.items - 1 = omega (arith, ap length e) in
      after_free-dangles (length xs) q.curr ∙ ap (λ n. dangles q.curr || stands n q.curr) last

  -- One round of a move, on a queue that is not empty.
  first-shrinks :
      (n : ℕ) (xs : List (Item ℕ))
      → q.items ≡ xs
      → suc n ≡ length xs
      → (n ≡ length (out_first q xs).0.items)
        × ((dangles (out_first q xs).0.curr || at_item (out_first q xs).0.curr)
            ≡ (dangles q.curr || at_item q.curr))
  first-shrinks n [] e h = absurd (omega (arith, h))
  first-shrinks n (x ∷ xs) e h = (omega (arith, h), after_first q.curr)

move_loop-from :
    (left n : ℕ) (from to : Queue ℕ)
    → n ≡ length from.items
    → IsQueue from
    → IsQueue (move_loop left n from to).0
      × (dangles (move_loop left n from to).0.curr ≡ (dangles from.curr || at_item from.curr))
unfolding move_loop out_fifo_queue
move_loop-from left zero from to e v =
    (v, no_item from.curr (subst (λ k. InChain k from.curr) (sym e) v.placed))
move_loop-from left (suc n) from to e v =
    let (less, same) = first-shrinks from n from.items refl e in
    let step = out_fifo_queue from in
    let (kept, rest) =
      move_loop-from left n step.0 (in_fifo_queue left to step.1) less
        (out_fifo_queue-IsQueue from v) in
    (kept, rest ∙ same)

move_loop-to :
    (left n : ℕ) (from to : Queue ℕ)
    → IsQueue to
    → IsQueue (move_loop left n from to).1
      × (dangles (move_loop left n from to).1.curr ≡ dangles to.curr)
unfolding move_loop in_fifo_queue
move_loop-to left zero from to v = (v, refl)
move_loop-to left (suc n) from to v =
    let step = out_fifo_queue from in
    move_loop-to left n step.0 (in_fifo_queue left to step.1)
      (in_fifo_queue-IsQueue to v left step.1)

-- What a call leaves: the count and the cursor agree with the chain, and the cursor dangles or not.
abbrev Fine : Queue ℕ → Call → Queue ℕ → Type 0
Fine q call q' = IsQueue q' × (dangles q'.curr ≡ dangles_after q call)

as_returned : (P : Queue ℕ → Type 0) {r q' : Queue ℕ} → P r → ok r ≡ ok q' → P q'
as_returned P {r} {q'} has h = let is : r ≡ q' = cc in subst P is has

emptied-Fine :
    (r : Queue ℕ × List Ptr) {q' : Queue ℕ}
    → (do (t, freed) ← assert_empty r; ok t) ≡ ok q'
    → IsQueue q' × (dangles q'.curr ≡ false)
emptied-Fine (t, freed) {q'} h = elim (Bool-cases (t.count == 0)) [
  | inl e ↦
      let none_left : t.count ≡ 0 = (==_iff t.count 0).0 e in
      let cleared : ok (record { items = []; curr = null; count = t.count }) ≡ ok q' =
        sym (ap (λ b. assert_if b t freed >>= (λ x. ok x.0)) e) ∙ h in
      as_returned (λ r. IsQueue r × (dangles r.curr ≡ false))
        (record { counted = none_left; placed = tt }, refl) cleared
  | inr e ↦
      let failed : panic ≡ ok q' = sym (ap (λ b. assert_if b t freed >>= (λ x. ok x.0)) e) ∙ h in cc
]
  where
    assert_if : Bool → Queue ℕ → List Ptr → Outcome (Queue ℕ × List Ptr)
    assert_if b t freed =
        if b then ok (record { items = []; curr = null; count = t.count }, freed) else panic

and-false : (b : Bool) → (b && false) ≡ false
and-false true = refl
and-false false = refl

and-true : (b : Bool) → (b && true) ≡ b
and-true true = refl
and-true false = refl

remove_elements-Fine :
    (q : Queue ℕ) {q' : Queue ℕ}
    → IsQueue q
    → (do (t, freed) ← remove_queue_elements q; ok t) ≡ ok q'
    → Fine q Call.remove_elements q'
unfolding remove_queue_elements
remove_elements-Fine q {q'} v h = elim (Bool-cases (q.count == 0)) [
  | inl e ↦
      let same : ok q ≡ ok q' = sym (ap (λ b. remove_if b >>= (λ x. ok x.0)) e) ∙ h in
      as_returned (Fine q Call.remove_elements) (v, rw e (sym (and-true (dangles q.curr)))) same
  | inr e ↦
      let drained = sym (ap (λ b. remove_if b >>= (λ x. ok x.0)) e) ∙ h in
      let (fine, clear) = emptied-Fine (drain (q.count + 1) q []) drained in
      (fine, rw e (clear ∙ sym (and-false (dangles q.curr))))
]
  where
    remove_if : Bool → Outcome (Queue ℕ × List Ptr)
    remove_if b = if b then ok (q, []) else assert_empty (drain (q.count + 1) q [])

place-dangles : (xs : List (Item ℕ)) (i : ℕ) → dangles (place xs i) ≡ false
place-dangles xs i = ground arith

next-Fine :
    (q : Queue ℕ) (k : Cursor) {q' : Queue ℕ}
    → q.curr ≡ k
    → (do (r, c) ← next_from q k; ok r) ≡ ok q'
    → dangles q'.curr ≡ dangles q.curr
next-Fine q null is h = as_returned (λ r. dangles r.curr ≡ dangles q.curr) refl h
next-Fine q (at i) is h =
    as_returned (λ r. dangles r.curr ≡ dangles q.curr)
      (place-dangles q.items (suc i) ∙ ap dangles (sym is)) h
next-Fine q dangling is h = cc

prev-Fine :
    (q : Queue ℕ) (k : Cursor) {q' : Queue ℕ}
    → q.curr ≡ k
    → (do (r, c) ← prev_from q k; ok r) ≡ ok q'
    → dangles q'.curr ≡ dangles q.curr
prev-Fine q null is h = as_returned (λ r. dangles r.curr ≡ dangles q.curr) refl h
prev-Fine q (at zero) is h = cc
prev-Fine q (at (suc i)) is h =
    as_returned (λ r. dangles r.curr ≡ dangles q.curr) (ap dangles (sym is)) h
prev-Fine q dangling is h = cc

tail-dangles : (q : Queue ℕ) (xs : List (Item ℕ)) → dangles (tail_from q xs).0.curr ≡ false
tail-dangles q [] = refl
tail-dangles q (x ∷ xs) = refl

extract_at-dangles :
    (q : Queue ℕ) (o : Option ℕ) {q' : Queue ℕ}
    → extract_at q o ≡ ok q'
    → dangles q'.curr ≡ dangles q.curr
extract_at-dangles q none h = cc
extract_at-dangles q (some i) h =
    as_returned (λ r. dangles r.curr ≡ dangles q.curr) (step_back-dangles i q.curr) h

-- When a call on a queue whose count and cursor agree with its chain returns, they agree in the
-- queue that it leaves: the count is the length of the chain, and a cursor that is not NULL and
-- does not dangle stands at an item. The cursor dangles there exactly when it dangled before and
-- the call does not set it, or when the call has freed the item at which it stood: the first for
-- outFIFO_queue and outFIFO_event, the last for outLIFO_queue, and any for a move to another queue.
pub apply-IsQueue :
    (q : Queue ℕ) (call : Call) {q' : Queue ℕ}
    → IsQueue q
    → apply q call ≡ ok q'
    → IsQueue q' × (dangles q'.curr ≡ dangles_after q call)
unfolding apply in_fifo_queue in_lifo_queue out_fifo_queue out_lifo_queue out_fifo_event head_queue
    tail_queue next_queue prev_queue insert_queue insert_queue_from_back insert_first_queue
    insert_event extract_from_queue move_queue_elements
apply-IsQueue q (in_fifo left c) v e =
    as_returned (Fine q (Call.in_fifo left c)) (in_fifo_queue-IsQueue q v left c, refl) e
apply-IsQueue q (in_lifo left c) v e =
    as_returned (Fine q (Call.in_lifo left c))
      (in_lifo_queue-IsQueue q v left c, after_insert-dangles 0 q.curr) e
apply-IsQueue q out_fifo v e =
    as_returned (Fine q Call.out_fifo) (out_fifo_queue-IsQueue q v, first-dangles q q.items refl v)
      e
apply-IsQueue q out_lifo v e =
    as_returned (Fine q Call.out_lifo)
      (out_last-IsQueue q q.items refl v, last-dangles q q.items refl v) e
apply-IsQueue q event_out v e =
    as_returned (Fine q Call.event_out)
      (out_fifo_event-IsQueue q v q.items refl, event-dangles q q.items refl v) e
apply-IsQueue q head v e =
    as_returned (Fine q Call.head) (head_queue-IsQueue q v, place-dangles q.items 0) e
apply-IsQueue q next v e = (next_queue-IsQueue q q.curr v v.placed e, next-Fine q q.curr refl e)
apply-IsQueue q tail v e =
    as_returned (Fine q Call.tail) (tail_from-IsQueue q q.items refl v, tail-dangles q q.items) e
apply-IsQueue q prev v e = (prev_queue-IsQueue q q.curr v v.placed e, prev-Fine q q.curr refl e)
apply-IsQueue q remove_elements v e = remove_elements-Fine q v e
apply-IsQueue q (insert c p) v e =
    as_returned (Fine q (Call.insert c p))
      (insert_walk-IsQueue _ q c p v, after_insert-dangles _ q.curr) e
apply-IsQueue q (insert_back c p) v e =
    as_returned (Fine q (Call.insert_back c p))
      (insert_queue_from_back-IsQueue q v c p, after_insert-dangles _ q.curr) e
apply-IsQueue q (insert_first c p) v e =
    as_returned (Fine q (Call.insert_first c p))
      (insert_walk-IsQueue _ q c p v, after_insert-dangles _ q.curr) e
apply-IsQueue q (insert_timed c p) v e =
    as_returned (Fine q (Call.insert_timed c p))
      (insert_walk-IsQueue _ q c p v, after_insert-dangles _ q.curr) e
apply-IsQueue q (extract c) v e =
    (extract_from_queue-IsQueue q c v e, extract_at-dangles q (place_of c q.items) e)
apply-IsQueue q (move_to left to) v e =
    as_returned (Fine q (Call.move_to left to)) (move_loop-from left q.count q to v.counted v) e
apply-IsQueue q (move_from left from) v e =
    as_returned (Fine q (Call.move_from left from)) (move_loop-to left from.count from q v) e
