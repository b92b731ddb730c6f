-- ===== src/Queue/Keys.antt =====
-- Simulator/utils/list.c: the keys of a queue after `insert_queue`.
use dimemas.Base.{
  ℕ, ◌≡◌, refl, inl, inr, true, [], ◌∷◌, arith, leb, ◌==◌, if◌then◌else◌, Bool-cases,
}
use dimemas.Queue.Base.{Ptr, Queue}
use dimemas.Queue.Priority.{walk, link, insert_queue}
use dimemas.Queue.Sorted.{Items, item, has_key, IsSorted, insert_queue-with_key}

has_key-link :
    (c : Ptr) (p k : ℕ) (xs : Items)
    → has_key k (link (walk (λ j. leb j p) xs) (item c p) xs)
      ≡ (if p == k then true else has_key k xs)
unfolding link walk
has_key-link c p k [] = refl
has_key-link c p k (x ∷ xs) = elim (Bool-cases (leb x.order p)) [
  | inl e ↦ rw e (ground (arith, has_key-link c p k xs))
  | inr e ↦ rw e
]

pub has_key-insert_queue :
    (q : Queue ℕ) (c p k : ℕ)
    → has_key k (insert_queue q c p).items ≡ (if p == k then true else has_key k q.items)
unfolding insert_queue
has_key-insert_queue q c p k = has_key-link c p k q.items

pub insert_queue-IsSorted :
    (q : Queue ℕ) (c p : ℕ) → IsSorted q.items → IsSorted (insert_queue q c p).items
insert_queue-IsSorted q c p sorted = (insert_queue-with_key q c p sorted).1
