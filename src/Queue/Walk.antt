-- ===== src/Queue/Walk.antt =====
-- Simulator/utils/list.c: the sequential search `for (x = head_queue (q); x != NIL; x = next_queue
-- (q))` that every module runs, and what an extraction does to a search under way.
use dimemas.Base.{
  ℕ, zero, suc, ◌+◌, ◌-◌, ◌≤◌, ◌<◌, ◌≡◌, ◌≢◌, refl, inl, inr, false, some, List, [], ◌∷◌, map,
  arith, ltb, ◌==◌, if◌then◌else◌, length, All, Outcome, ok, undefined, ◌>>=◌, Bool-cases, drop, ap,
  ◌∙◌,
}
use dimemas.Queue.Base.{
  Ptr, a_nil, Item, Cursor, null, at, Queue, head_queue, next_queue, next_from, content_at, place,
}
use dimemas.Queue.Removal.{place_of, unlink, extract_from_queue, step_back}

module _ {K : Type 0} where
  abbrev pub contents : List (Item K) → List Ptr
  contents = map (λ x. x.content)

  -- The loop body's arguments, one after another; `none` when the fuel runs out.
  search_from : ℕ → Queue K → Ptr → Outcome (List Ptr)
  search_from zero q c = undefined
  search_from (suc fuel) q c =
      let rest = (do (q', c') ← next_queue q; cs ← search_from fuel q' c'; ok (c ∷ cs)) in
      if c == a_nil then ok [] else rest

  unfoldable pub search_all : ℕ → Queue K → Outcome (List Ptr)
  unfolding search_from
  search_all fuel q = let (q', c) = head_queue q in search_from fuel q' c

  content_at-past : (i : ℕ) (xs : List (Item K)) → length xs ≤ i → content_at xs i ≡ a_nil
  content_at-past i [] h = refl
  content_at-past zero (x ∷ xs) h = absurd (omega arith)
  content_at-past (suc i) (x ∷ xs) h = content_at-past i xs (omega arith)

  content_at-ne :
      (i : ℕ) (xs : List (Item K))
      → All (λ x. x.content ≢ a_nil) xs
      → i < length xs
      → content_at xs i ≢ a_nil
  content_at-ne i [] a h = absurd (omega arith)
  content_at-ne zero (x ∷ xs) a h = a.0
  content_at-ne (suc i) (x ∷ xs) a h = content_at-ne i xs a.1 (omega arith)

  drop-past : (i : ℕ) (xs : List (Item K)) → length xs ≤ i → drop i xs ≡ []
  drop-past i [] h = elim i as (λ k. drop {A = Item K} k [] ≡ []) [ zero ↦ refl | suc k ↦ refl ]
  drop-past zero (x ∷ xs) h = absurd (omega arith)
  drop-past (suc i) (x ∷ xs) h = drop-past i xs (omega arith)

  contents-drop :
      (i : ℕ) (xs : List (Item K))
      → i < length xs
      → contents (drop i xs) ≡ content_at xs i ∷ contents (drop (suc i) xs)
  contents-drop i [] h = absurd (omega arith)
  contents-drop zero (x ∷ xs) h = refl
  contents-drop (suc i) (x ∷ xs) h = contents-drop i xs (omega arith)

  next_queue-at :
      (q : Queue K) (i : ℕ)
      → q.curr ≡ at i
      → next_queue q ≡ ok (record q { curr = place q.items (suc i) }, content_at q.items (suc i))
  unfolding next_queue
  next_queue-at q i e = ap (next_from q) e

  search_from-drop :
      (fuel : ℕ) (q : Queue K) (i : ℕ)
      → All (λ x. x.content ≢ a_nil) q.items
      → q.curr ≡ place q.items i
      → i ≤ length q.items
      → length q.items < i + fuel
      → search_from fuel q (content_at q.items i) ≡ ok (contents (drop i q.items))
  unfolding search_from
  search_from-drop zero q i a e le h = absurd (omega arith)
  search_from-drop (suc fuel) q i a e le h = elim (Bool-cases (ltb i (length q.items))) [
    | inl more ↦
        let here : (content_at q.items i == a_nil) ≡ false =
          ground (arith, content_at-ne i q.items a) in
        let step = next_queue-at q i (ground arith) in
        let q' : Queue K = record q { curr = place q.items (suc i) } in
        let ih : search_from fuel q' (content_at q.items (suc i))
            ≡ ok (contents (drop (suc i) q.items)) =
          search_from-drop fuel q' (suc i) a refl (ground arith) (omega arith) in
        rw (here, step, ih, contents-drop i q.items (ground arith))
    | inr past ↦
        let over : length q.items ≤ i = ground arith in
        rw (content_at-past i q.items over, drop-past i q.items over)
  ]

  -- Over a queue without NULL contents the loop from `head_queue` by `next_queue` meets the
  -- contents of all items, front first, and ends; a round for each item and one more are enough.
  search_all-contents :
      (q : Queue K)
      → All (λ x. x.content ≢ a_nil) q.items
      → search_all (length q.items + 1) q ≡ ok (contents q.items)
  unfolding search_all head_queue
  search_all-contents q a =
      search_from-drop (length q.items + 1) (record q { curr = place q.items 0 }) 0 a refl
        (omega arith) (omega arith)

  content_at-unlink :
      (i : ℕ) (xs : List (Item K)) → content_at (unlink i xs) i ≡ content_at xs (suc i)
  unfolding unlink
  content_at-unlink zero [] = refl
  content_at-unlink (suc i) [] = refl
  content_at-unlink zero (x ∷ xs) = refl
  content_at-unlink (suc i) (x ∷ xs) = content_at-unlink i xs

  next_queue-curr : (q : Queue K) {k : Cursor} → q.curr ≡ k → next_queue q ≡ next_from q k
  unfolding next_queue
  next_queue-curr q e = ap (next_from q) e

  -- Taking out the current item of a search, when it is not the first, sets the search back by one
  -- item, so that the next round meets the item that followed the one taken out.
  extract-next :
      (q : Queue K) (c : Ptr) (i : ℕ)
      → q.curr ≡ at (suc i)
      → place_of c q.items ≡ some (suc i)
      → (extract_from_queue q c >>= next_queue)
        ≡ ok (
          record {
            items = unlink (suc i) q.items;
            curr = place (unlink (suc i) q.items) (suc i);
            count = q.count - 1;
          },
          content_at q.items (suc (suc i)),
        )
  unfolding extract_from_queue
  extract-next q c i e p =
      let r : Queue K = record {
        items = unlink (suc i) q.items;
        curr = step_back (suc i) q.curr;
        count = q.count - 1;
      } in
      rw (p, extract_from_queue)
        (next_queue-curr r (ap (step_back (suc i)) e ∙ back)
          ∙ ap (λ d. ok (record r { curr = place r.items (suc i) }, d))
              (content_at-unlink (suc i) q.items))
    where
      back : step_back (suc i) (at (suc i)) ≡ at i
      back = ground arith

  -- Taking out the first item while it is the current one ends the search: the next round meets
  -- NULL, whatever items follow in the queue.
  pub extract_head-next :
      (q : Queue K) (c : Ptr)
      → q.curr ≡ at 0
      → place_of c q.items ≡ some 0
      → (extract_from_queue q c >>= next_queue)
        ≡ ok (record { items = unlink 0 q.items; curr = null; count = q.count - 1 }, a_nil)
  unfolding extract_from_queue
  extract_head-next q c e p =
      rw (p, extract_from_queue)
        (ground (
          arith,
          next_queue-curr
              (record { items = unlink 0 q.items; curr = step_back 0 q.curr; count = q.count - 1 })
              {k = null} (ap (step_back 0) e),
        ))
