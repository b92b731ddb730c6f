-- ===== src/Queue/Insertion.antt =====
-- Simulator/utils/list.c, `insert_event`: properties of the items that an insertion carries over.
use dimemas.Base.{
  ℕ, ◌+◌, ◌≡◌, ◌≢◌, refl, inl, inr, Bool, List, [], ◌∷◌, All, arith, length, Bool-cases, leb,
}
use dimemas.Queue.Base.{Ptr, Item, Queue}
use dimemas.Queue.Priority.{walk, link, insert_event}
use dimemas.Queue.Sorted.{IsSorted, item, link-IsSorted_le}

-- The address is in no item.
abbrev pub Absent : Ptr → List (Item ℕ) → Type 0
Absent p = All (λ x. x.content ≢ p)

-- No address stands in the queue twice.
abbrev pub Distinct : List (Item ℕ) → Type 0
Distinct [] = Unit {0}
Distinct (x ∷ xs) = Absent x.content xs × Distinct xs

-- The sum of a weight over the items.
abbrev pub total : (Item ℕ → ℕ) → List (Item ℕ) → ℕ
total w [] = 0
total w (x ∷ xs) = w x + total w xs

module _ (goes : ℕ → Bool) (new : Item ℕ) where
  All-link {κ} :
      (P : Item ℕ → Type κ) (xs : List (Item ℕ))
      → P new
      → All P xs
      → All P (link (walk goes xs) new xs)
  unfolding link walk
  All-link P [] h a = (h, tt)
  All-link P (x ∷ xs) h a = elim (Bool-cases (goes x.order)) [
    | inl e ↦ rw e (a.0, All-link P xs h a.1)
    | inr e ↦ rw e (h, a)
  ]

  total-link :
      (w : Item ℕ → ℕ) (xs : List (Item ℕ))
      → total w (link (walk goes xs) new xs) ≡ w new + total w xs
  unfolding link walk
  total-link w [] = refl
  total-link w (x ∷ xs) = ground (arith, total-link w xs)

  Distinct-link :
      (xs : List (Item ℕ))
      → Absent new.content xs
      → Distinct xs
      → Distinct (link (walk goes xs) new xs)
  unfolding link walk
  Distinct-link [] a d = (tt, tt)
  Distinct-link (x ∷ xs) a d = elim (Bool-cases (goes x.order)) [
    | inl e ↦
        rw e (
          All-link (λ y. y.content ≢ x.content) xs (λ h. ground arith) d.0,
          Distinct-link xs a.1 d.1,
        )
    | inr e ↦ rw e (a, d)
  ]

module _ (q : Queue ℕ) (c : Ptr) (t : ℕ) where
  pub insert_event-All {κ} :
      (P : Item ℕ → Type κ) → P (item c t) → All P q.items → All P (insert_event q c t).items
  unfolding insert_event
  insert_event-All P h a = All-link (λ k. leb k t) (item c t) P q.items h a

  pub insert_event-total :
      (w : Item ℕ → ℕ) → total w (insert_event q c t).items ≡ w (item c t) + total w q.items
  unfolding insert_event
  insert_event-total w = total-link (λ k. leb k t) (item c t) w q.items

  pub insert_event-Distinct :
      Absent c q.items → Distinct q.items → Distinct (insert_event q c t).items
  unfolding insert_event
  insert_event-Distinct a d = Distinct-link (λ k. leb k t) (item c t) q.items a d

  pub insert_event-IsSorted : IsSorted q.items → IsSorted (insert_event q c t).items
  unfolding insert_event
  insert_event-IsSorted s = link-IsSorted_le t c q.items s

  pub insert_event-count :
      q.count ≡ length q.items → (insert_event q c t).count ≡ length (insert_event q c t).items
  unfolding insert_event
  insert_event-count h = omega (
    arith,
    total-link (λ k. leb k t) (item c t) (λ x. 1) q.items,
    lengths q.items,
    lengths (insert_event q c t).items,
  )
    where
      lengths : (xs : List (Item ℕ)) → total (λ x. 1) xs ≡ length xs
      lengths [] = refl
      lengths (x ∷ xs) = omega (arith, lengths xs)
