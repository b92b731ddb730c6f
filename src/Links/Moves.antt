-- ===== src/Links/Moves.antt =====
-- Simulator/model/links.c: a link that is taken or given back moves between the free and the busy
-- ones of its owner.
use dimemas.Base.{
  ◌≡◌, refl, ap, sym, subst, ◌∙◌, ◌≢◌, ◌⊎◌, inl, inr, true, false, List, [], ◌∷◌, ◌++◌, length,
  length-append, ◌==◌, ==_ne, ok, arith,
}
use dimemas.Queue.{Ptr, a_nil, Item, Queue, in_fifo_queue, out_fifo_queue}
use dimemas.Queue.Emptying.{
  without, holds, out_fifo_queue-cons, out_fifo_queue-nil, extract_from_queue-without,
}
use dimemas.Links.Base.{Dir, in_link, out_link, other, Owner, free, busy, with_free, with_busy}
use dimemas.Links.Acquire.{move_first, moved}
use dimemas.Links.Release.{give_back}
use dimemas.Links.Conserved.{copies, Counts, Known, copies-append_one, copies-without, Taken}

-- The owner once the first free link, with `q` behind it, is busy.
abbrev taken_link : Dir → Owner → Queue Unit → Ptr → Owner
taken_link d o q link = with_busy d (in_fifo_queue tt (busy d o) link) (with_free d q o)

abbrev First : Dir → Owner → Queue Unit → Ptr → Type 0
First d o q link = (free d o).items ≡ record { order = tt; content = link } ∷ q.items

taken_link-Counts :
    (d : Dir) (o : Owner) (q : Queue Unit) (link : Ptr)
    → First d o q link
    → Counts o (taken_link d o q link)
unfolding in_fifo_queue
taken_link-Counts in_link o q link front in_link c =
    let before = ap (copies c) front in
    let behind = copies-append_one c link o.busy_in_links.items in omega (arith, before, behind)
taken_link-Counts in_link o q link front out_link c = refl
taken_link-Counts out_link o q link front in_link c = refl
taken_link-Counts out_link o q link front out_link c =
    let before = ap (copies c) front in
    let behind = copies-append_one c link o.busy_out_links.items in omega (arith, before, behind)

taken_link-Known :
    (d : Dir) (o : Owner) (q : Queue Unit) (link : Ptr)
    → First d o q link
    → ((e : Dir) → Known (free e o).items)
    → (e : Dir) → Known (free e (taken_link d o q link)).items
taken_link-Known in_link o q link front known in_link = (subst Known front (known in_link)).1
taken_link-Known in_link o q link front known out_link = known out_link
taken_link-Known out_link o q link front known in_link = known in_link
taken_link-Known out_link o q link front known out_link = (subst Known front (known out_link)).1

taken_link-Taken :
    (d : Dir) (o : Owner) (q : Queue Unit) (link : Ptr)
    → First d o q link
    → ((e : Dir) → Known (free e o).items)
    → Taken d o (taken_link d o q link)
taken_link-Taken in_link o q link front known = record {
  policy = refl;
  duplex = refl;
  same = record { counts = taken_link-Counts in_link o q link front; ident = refl; duplex = refl };
  known = taken_link-Known in_link o q link front known;
  one_less = ap length front;
  others = refl;
}
taken_link-Taken out_link o q link front known = record {
  policy = refl;
  duplex = refl;
  same = record { counts = taken_link-Counts out_link o q link front; ident = refl; duplex = refl };
  known = taken_link-Known out_link o q link front known;
  one_less = ap length front;
  others = refl;
}

with_free-free : (d : Dir) (o : Owner) → with_free d (free d o) o ≡ o
with_free-free in_link o = refl
with_free-free out_link o = refl

items_cases :
    (xs : List (Item Unit))
    → (xs ≡ []) ⊎ ((x : Item Unit) × (ys : List (Item Unit)) × (xs ≡ x ∷ ys))
items_cases [] = inl refl
items_cases (x ∷ ys) = inr (x, ys, refl)

pub move_first-Taken :
    (d : Dir) (o : Owner)
    → ((e : Dir) → Known (free e o).items)
    → ((move_first d o ≡ (o, a_nil)) × ((free d o).items ≡ []))
      ⊎ ((o' : Owner) × (link : Ptr) × (move_first d o ≡ (o', link))
          × (link ≢ a_nil)
          × Taken d o o')
unfolding move_first
move_first-Taken d o known = elim (items_cases (free d o).items) [
  | inl e ↦
      let none_out = out_fifo_queue-nil (free d o) e in
      inl (ap (moved d o) none_out ∙ ap (λ r. (r, a_nil)) (with_free-free d o), e)
  | inr (x, xs, e) ↦
      let out = out_fifo_queue-cons (free d o) e in
      let known_x : x.content ≢ a_nil = (subst Known e (known d)).0 in
      let away : (x.content == a_nil) ≡ false = ==_ne x.content a_nil known_x in
      let q = (out_fifo_queue (free d o)).0 in
      let rest : q.items ≡ xs = ap (λ r. r.0.items) out in
      let link : (out_fifo_queue (free d o)).1 ≡ x.content = ap (λ r. r.1) out in
      let front : First d o q x.content = e ∙ ap (λ r. x ∷ r) (sym rest) in
      inr (
        taken_link d o q x.content,
        x.content,
        rw (link, away) refl,
        known_x,
        taken_link-Taken d o q x.content front known,
      )
]

Known-append_one :
    (xs : List (Item Unit)) (link : Ptr)
    → link ≢ a_nil
    → Known xs
    → Known (xs ++ record { order = tt; content = link } ∷ [])
Known-append_one [] link there known = (there, tt)
Known-append_one (x ∷ xs) link there (first, others) =
    (first, Known-append_one xs link there others)

-- The owner once a busy link is given back; `q` is what is left of the busy ones.
abbrev returned : Dir → Owner → Queue Unit → Ptr → Owner
returned d o q link = with_busy d q (with_free d (in_fifo_queue tt (free d o) link) o)

-- The return of a link is the taking of a link the other way round.
returned-Taken :
    (d : Dir) (o : Owner) (q : Queue Unit) (link : Ptr)
    → ((e : Dir) → Known (free e o).items)
    → holds link (busy d o).items ≡ true
    → q.items ≡ without link (busy d o).items
    → Taken d (returned d o q link) o
unfolding in_fifo_queue
returned-Taken in_link o q link known held rest = record {
  policy = refl;
  duplex = refl;
  same = record { counts = returned-Counts; ident = refl; duplex = refl };
  known = known;
  one_less =
      let more = length-append o.free_in_links.items (record { order = tt; content = link } ∷ []) in
      omega (arith, more);
  others = refl;
}
  where
    returned-Counts : Counts (returned in_link o q link) o
    returned-Counts in_link c =
        let before = copies-append_one c link o.free_in_links.items in
        let behind = copies-without c link o.busy_in_links.items held in
        let left = ap (copies c) rest in omega (arith, before, behind, left)
    returned-Counts out_link c = refl
returned-Taken out_link o q link known held rest = record {
  policy = refl;
  duplex = refl;
  same = record { counts = returned-Counts; ident = refl; duplex = refl };
  known = known;
  one_less =
      let more =
        length-append o.free_out_links.items (record { order = tt; content = link } ∷ []) in
      omega (arith, more);
  others = refl;
}
  where
    returned-Counts : Counts (returned out_link o q link) o
    returned-Counts in_link c = refl
    returned-Counts out_link c =
        let before = copies-append_one c link o.free_out_links.items in
        let behind = copies-without c link o.busy_out_links.items held in
        let left = ap (copies c) rest in omega (arith, before, behind, left)

returned-Known :
    (d : Dir) (o : Owner) (q : Queue Unit) (link : Ptr)
    → link ≢ a_nil
    → ((e : Dir) → Known (free e o).items)
    → (e : Dir) → Known (free e (returned d o q link)).items
unfolding in_fifo_queue
returned-Known in_link o q link there known in_link =
    Known-append_one o.free_in_links.items link there (known in_link)
returned-Known in_link o q link there known out_link = known out_link
returned-Known out_link o q link there known in_link = known in_link
returned-Known out_link o q link there known out_link =
    Known-append_one o.free_out_links.items link there (known out_link)

returned-others :
    (d : Dir) (o : Owner) (q : Queue Unit) (link : Ptr)
    → busy (other d) (returned d o q link) ≡ busy (other d) o
returned-others in_link o q link = refl
returned-others out_link o q link = refl

-- A busy link is given back.
pub give_back-Taken :
    (d : Dir) (link : Ptr) (o : Owner)
    → link ≢ a_nil
    → ((e : Dir) → Known (free e o).items)
    → holds link (busy d o).items ≡ true
    → (o' : Owner) × (give_back d link o ≡ ok o')
      × Taken d o' o
      × ((e : Dir) → Known (free e o').items)
      × (busy (other d) o' ≡ busy (other d) o)
unfolding give_back
give_back-Taken d link o there known held = elim (extract_from_queue-without (busy d o) link) [
  | inl (gone, failed) ↦ cc
  | inr (q, is_held, taken, items, count) ↦ (
    returned d o q link,
    rw taken refl,
    returned-Taken d o q link known held items,
    returned-Known d o q link there known,
    returned-others d o q link,
  )
]
