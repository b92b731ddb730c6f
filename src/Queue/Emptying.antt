-- ===== src/Queue/Emptying.antt =====
-- Simulator/utils/list.c: taking items out by content, and the operations that empty a queue.
use dimemas.Base.{
  ℕ, zero, suc, ◌+◌, ◌-◌, ◌<◌, ◌≡◌, refl, ◌⊎◌, inl, inr, Bool, true, false, none, some, List, [],
  ◌∷◌, ◌++◌, arith, ◌==◌, if◌then◌else◌, length, ok, panic, Bool-cases, ap, ◌∙◌, sym, append_assoc,
  append-nil, Option-cases, subst,
}
use dimemas.Queue.Base.{
  Ptr, a_nil, Item, null, Queue, in_fifo_queue, out_fifo_queue, out_first, after_free,
}
use dimemas.Queue.Removal.{
  place_of, unlink, extract_from_queue, step_back, drain, assert_empty, remove_queue_elements,
  move_loop, move_queue_elements,
}
use dimemas.Queue.WellFormed.{IsQueue}
use dimemas.Queue.Walk.{contents}

module _ {K : Type 0} where
  -- The items without the first one of this content.
  abbrev pub without : Ptr → List (Item K) → List (Item K)
  without c [] = []
  without c (x ∷ xs) = if x.content == c then xs else x ∷ without c xs

  abbrev pub holds : Ptr → List (Item K) → Bool
  holds c [] = false
  holds c (x ∷ xs) = if x.content == c then true else holds c xs

  place_of-without :
      (c : Ptr) (xs : List (Item K)) {i : ℕ}
      → place_of c xs ≡ some i
      → (unlink i xs ≡ without c xs) × (holds c xs ≡ true)
  unfolding place_of unlink
  place_of-without c [] h = cc
  place_of-without c (x ∷ xs) {i} h = elim (Bool-cases (x.content == c)) [
    | inl e ↦ let z : i ≡ 0 = ground arith in rw (z, e) (refl, refl)
    | inr e ↦ elim (Option-cases (place_of c xs)) [
      | inl f ↦ ground arith
      | inr (j, f) ↦
          let z : i ≡ suc j = ground arith in
          let ih = place_of-without c xs f in rw (z, e) (ap (λ r. x ∷ r) ih.0, ih.1)
    ]
  ]

  place_of-absent : (c : Ptr) (xs : List (Item K)) → place_of c xs ≡ none → holds c xs ≡ false
  unfolding place_of
  place_of-absent c [] h = refl
  place_of-absent c (x ∷ xs) h = ground (arith, place_of-absent c xs)

  -- `extract_from_queue` panics when no item has the content, and else takes out the first item
  -- that has it, keeps the order of the others, and counts one less.
  pub extract_from_queue-without :
      (q : Queue K) (c : Ptr)
      → ((holds c q.items ≡ false) × (extract_from_queue q c ≡ panic))
        ⊎ ((q' : Queue K) × (holds c q.items ≡ true)
            × (extract_from_queue q c ≡ ok q')
            × (q'.items ≡ without c q.items)
            × (q'.count ≡ q.count - 1))
  unfolding extract_from_queue
  extract_from_queue-without q c = elim (Option-cases (place_of c q.items)) [
    | inl e ↦ inl (place_of-absent c q.items e, rw (e, extract_from_queue))
    | inr (i, e) ↦
        let w = place_of-without c q.items e in
        inr (
          record { items = unlink i q.items; curr = step_back i q.curr; count = q.count - 1 },
          w.1,
          rw (e, extract_from_queue),
          w.0,
          refl,
        )
  ]

  pub out_fifo_queue-cons :
      (q : Queue K) {x : Item K} {xs : List (Item K)}
      → q.items ≡ x ∷ xs
      → out_fifo_queue q
        ≡ (record { items = xs; curr = after_free 0 q.curr; count = q.count - 1 }, x.content)
  unfolding out_fifo_queue
  out_fifo_queue-cons q e = ap (out_first q) e

  pub out_fifo_queue-nil : (q : Queue K) → q.items ≡ [] → out_fifo_queue q ≡ (q, a_nil)
  unfolding out_fifo_queue
  out_fifo_queue-nil q e = ap (out_first q) e

  contents-append_one :
      (xs : List (Item K)) (k : K) (c : Ptr)
      → contents (xs ++ record { order = k; content = c } ∷ []) ≡ contents xs ++ c ∷ []
  contents-append_one [] k c = refl
  contents-append_one (x ∷ xs) k c = ap (λ r. x.content ∷ r) (contents-append_one xs k c)

  -- What the moves of all of `xs` leave.
  abbrev pub Moved : (from to : Queue K) → List (Item K) → Queue K × Queue K → Type 0
  Moved from to xs r =
      (r.0.items ≡ [])
      × (r.0.count ≡ from.count - length xs)
      × (contents r.1.items ≡ contents to.items ++ contents xs)
      × (r.1.count ≡ to.count + length xs)

  move_loop-Moved :
      (left : K) (from to : Queue K) (xs : List (Item K))
      → from.items ≡ xs
      → Moved from to xs (move_loop left (length xs) from to)
  unfolding move_loop
  move_loop-Moved left from to [] e = (e, omega arith, sym (append-nil _), omega arith)
  move_loop-Moved left from to (x ∷ xs) e =
      let from' : Queue K = record {
        items = xs;
        curr = after_free 0 from.curr;
        count = from.count - 1;
      } in
      let to' = in_fifo_queue left to x.content in
      subst
        (λ (r : Queue K × Ptr).
          Moved from to (x ∷ xs) (move_loop left (length xs) r.0 (in_fifo_queue left to r.1)))
        (sym (out_fifo_queue-cons from e))
        (moved (move_loop left (length xs) from' to') (move_loop-Moved left from' to' xs refl))
    where
      moved :
          (r : Queue K × Queue K)
          → Moved
              (record { items = xs; curr = after_free 0 from.curr; count = from.count - 1 })
              (in_fifo_queue left to x.content)
              xs
              r
          → Moved from to (x ∷ xs) r
      moved r m =
          unfold in_fifo_queue in
          (
            m.0,
            omega (arith, m.1),
            m.2
                ∙ ap (λ l. l ++ contents xs) (contents-append_one to.items left x.content)
                ∙ append_assoc (contents to.items) (x.content ∷ []) (contents xs),
            omega (arith, m.3),
          )

  -- `move_queue_elements` empties the source and appends its contents, in their order, to the
  -- destination; both counts follow.
  move_queue_elements-append :
      (left : K) (from to : Queue K)
      → IsQueue from
      → let r = move_queue_elements left from to in
        (r.0.items ≡ [])
        × (r.0.count ≡ 0)
        × (contents r.1.items ≡ contents to.items ++ contents from.items)
        × (r.1.count ≡ to.count + from.count)
  unfolding move_queue_elements
  move_queue_elements-append left from to v =
      let m =
        subst (λ n. Moved from to from.items (move_loop left n from to)) (sym v.counted)
          (move_loop-Moved left from to from.items refl) in
      (m.0, omega (arith, m.1, v.counted), m.2, omega (arith, m.3, v.counted))

  -- The drain of a queue takes contents up to the first NULL, which it takes out too.
  abbrev pub until_null : List (Item K) → List Ptr
  until_null [] = []
  until_null (x ∷ xs) = if x.content == a_nil then [] else x.content ∷ until_null xs

  abbrev pub past_null : List (Item K) → List (Item K)
  past_null [] = []
  past_null (x ∷ xs) = if x.content == a_nil then xs else past_null xs

  abbrev pub Drained : List (Item K) → List Ptr → Queue K × List Ptr → Type 0
  Drained xs freed r = (r.1 ≡ freed ++ until_null xs) × (r.0.count ≡ length (past_null xs))

  drain-Drained :
      (fuel : ℕ) (q : Queue K) (xs : List (Item K)) (freed : List Ptr)
      → q.items ≡ xs
      → q.count ≡ length xs
      → length xs < fuel
      → Drained xs freed (drain fuel q freed)
  unfolding drain
  drain-Drained zero q xs freed e n h = absurd (omega arith)
  drain-Drained (suc fuel) q [] freed e n h =
      subst
        (λ (r : Queue K × Ptr).
          Drained [] freed
            (if r.1 == a_nil then (r.0, freed) else drain fuel r.0 (freed ++ r.1 ∷ [])))
        (sym (out_fifo_queue-nil q e)) (sym (append-nil freed), n)
  drain-Drained (suc fuel) q (x ∷ xs) freed e n h =
      let q' : Queue K = record { items = xs; curr = after_free 0 q.curr; count = q.count - 1 } in
      subst
        (λ (r : Queue K × Ptr).
          Drained (x ∷ xs) freed
            (if r.1 == a_nil then (r.0, freed) else drain fuel r.0 (freed ++ r.1 ∷ [])))
        (sym (out_fifo_queue-cons q e))
        (elim (Bool-cases (x.content == a_nil)) [
          | inl last ↦ rw last (sym (append-nil freed), omega arith)
          | inr more ↦
              let ih =
                drain-Drained fuel q' xs (freed ++ x.content ∷ []) refl (omega arith)
                  (omega arith) in
              rw more (ih.0 ∙ append_assoc freed (x.content ∷ []) (until_null xs), ih.1)
        ])

  abbrev cleared : Queue K
  cleared = record { items = []; curr = null; count = 0 }

  -- `remove_queue_elements` frees the contents in front of the first NULL content, in their order.
  -- It then leaves the empty queue if no item follows that NULL (or there is none), and else its
  -- assertion on the count fails. An empty queue is left as it is.
  remove_queue_elements-until_null :
      (q : Queue K)
      → IsQueue q
      → remove_queue_elements q ≡ (
          if q.count == 0
          then ok (q, [])
          else if length (past_null q.items) == 0
          then ok (cleared, until_null q.items)
          else panic)
  unfolding remove_queue_elements
  remove_queue_elements-until_null q v = elim (Bool-cases (q.count == 0)) [
    | inl e ↦ rw e
    | inr e ↦ rw e (
        drained (drain (q.count + 1) q [])
          (drain-Drained (q.count + 1) q q.items [] refl v.counted (omega arith)))
  ]
    where
      drained :
          (r : Queue K × List Ptr)
          → Drained q.items [] r
          → assert_empty r
            ≡ (if length (past_null q.items) == 0 then ok (cleared, until_null q.items) else panic)
      drained (r, freed) d = ground arith
