-- ===== src/Queue/Tests.antt =====
-- Simulator/utils/list.c: runs of the queue operations on small queues, and the theorems at them.
use dimemas.Base.{ℕ, ◌≡◌, refl, true, false, [], ◌∷◌, arith, ok, panic, undefined, ◌>>=◌, ◌⊎◌, ◌==◌}
use dimemas.Queue.Removal.{place_of, unlink}
use dimemas.Queue.{
  prev_queue, Ptr, a_nil, Item, null, at, Queue, create_queue, insert_queue, insert_queue_from_back,
  extract_from_queue, next_queue,
}
use dimemas.Queue.WellFormed.{IsQueue}
use dimemas.Queue.Calls.{Call, apply, dangles, apply-IsQueue}
use dimemas.Queue.Sorted.{
  IsSorted, with_key, insert_queue-with_key, insert_queue_from_back-insert_queue, insert_all,
  insert_all-timed,
}
use dimemas.Queue.Walk.{extract_head-next}
use dimemas.Queue.Emptying.{holds, extract_from_queue-without}

abbrev entry : Ptr → ℕ → Item ℕ
entry c p = record { order = p; content = c }

-- Priorities 2, 5, 5 and 9.
abbrev graded : Queue ℕ
graded = record {
  items = entry 11 2 ∷ entry 12 5 ∷ entry 13 5 ∷ entry 14 9 ∷ [];
  curr = at 1;
  count = 4;
}

graded-IsQueue : IsQueue graded
graded-IsQueue = record { counted = refl; placed = omega arith }

graded-IsSorted : IsSorted graded.items
graded-IsSorted = omega arith

apply-IsQueue_example :
    IsQueue (insert_queue graded 15 5) × (dangles (insert_queue graded 15 5).curr ≡ false)
apply-IsQueue_example =
    apply-IsQueue graded (Call.insert 15 5) graded-IsQueue (unfold apply in refl)

insert_queue-with_key_example :
    ((insert_queue graded 15 5).items
      ≡ entry 11 2 ∷ entry 12 5 ∷ entry 13 5 ∷ entry 15 5 ∷ entry 14 9 ∷ [])
    × IsSorted (insert_queue graded 15 5).items
insert_queue-with_key_example = insert_queue-with_key graded 15 5 graded-IsSorted

insert_queue_from_back-insert_queue_example :
    insert_queue_from_back graded 15 5 ≡ insert_queue graded 15 5
insert_queue_from_back-insert_queue_example =
    insert_queue_from_back-insert_queue graded 15 5 graded-IsSorted

-- Two events of time 30 leave in the order in which they came.
insert_all-timed_example :
    IsSorted (insert_all create_queue ((1, 30) ∷ (2, 10) ∷ (3, 30) ∷ [])).items
    × (with_key (λ j. j == 30) (insert_all create_queue ((1, 30) ∷ (2, 10) ∷ (3, 30) ∷ [])).items
        ≡ entry 1 30 ∷ entry 3 30 ∷ [])
unfolding create_queue
insert_all-timed_example = insert_all-timed create_queue ((1, 30) ∷ (2, 10) ∷ (3, 30) ∷ []) 30 tt

abbrev at_front : Queue ℕ
at_front = record graded { curr = at 0 }

extract_head-next_example :
    (extract_from_queue at_front 11 >>= next_queue)
    ≡ ok (
      record { items = entry 12 5 ∷ entry 13 5 ∷ entry 14 9 ∷ []; curr = null; count = 3 },
      a_nil,
    )
unfolding place_of unlink
extract_head-next_example = extract_head-next at_front 11 refl refl

extract_from_queue-without_example :
    ((holds 13 graded.items ≡ false) × (extract_from_queue graded 13 ≡ panic))
    ⊎ ((q' : Queue ℕ) × (holds 13 graded.items ≡ true)
        × (extract_from_queue graded 13 ≡ ok q')
        × (q'.items ≡ entry 11 2 ∷ entry 12 5 ∷ entry 14 9 ∷ [])
        × (q'.count ≡ 3))
extract_from_queue-without_example = extract_from_queue-without graded 13

-- A queue with a NULL content in the middle.
abbrev holed : Queue ℕ
holed = record { items = entry 11 0 ∷ entry a_nil 0 ∷ entry 13 0 ∷ []; curr = null; count = 3 }

-- `prev_queue` at the first item reads through NULL.
prev_queue_first : prev_queue at_front ≡ undefined
unfolding prev_queue
prev_queue_first = refl
