-- ===== src/Links/Granted.antt =====
-- Simulator/model/links.c: a thread that asks for one link gets it, or waits for it.
use dimemas.Base.{
  ℕ, ◌≡◌, refl, ◌≢◌, ◌⊎◌, inr, Bool, true, false, List, [], ◌∷◌, ◌++◌, ==_self, Outcome, ok,
}
use dimemas.Queue.{Ptr, a_nil, Item, Queue, in_fifo_queue}
use dimemas.Links.Base.{
  Dir, in_link, out_link, other, Owner, free, waiting, with_waiting, LinkThread, link_of, with_link,
  with_pair, LinkState, set_owner, on_owner, assign_time,
}
use dimemas.Links.Acquire.{
  wait_in_queue, mem_link_busy, machine_link_busy, connection_link_busy, assign,
}
use dimemas.Links.Conserved.{
  OwnerOk, StateOk, Kept, Kept-trans, on_owner-Kept, on_thread-Kept, SameLinks,
}

-- The thread is the last one in the queue.
abbrev pub Last : Ptr → List (Item Unit) → Type 0
Last th items =
    (before : List (Item Unit)) × (items ≡ before ++ record { order = tt; content = th } ∷ [])

-- The thread has no link, no link is free, and it is the last one that waits.
abbrev pub Denied : {S : Type 0} → Dir → Ptr → Ptr → LinkState S → Type 0
Denied d th owner s =
    (link_of d (s.threads th) ≡ a_nil)
    × ((free d (s.owners owner)).items ≡ [])
    × Last th (waiting d (s.owners owner)).items

-- The thread has a link, or it waits.
abbrev pub Side : {S : Type 0} → Dir → Ptr → Ptr → LinkState S → Bool → Type 0
Side d th owner s got =
    ((got ≡ true) × (link_of d (s.threads th) ≢ a_nil)) ⊎ ((got ≡ false) × Denied d th owner s)

pub link_of-with_link : (d : Dir) (p : Ptr) (t : LinkThread) → link_of d (with_link d p t) ≡ p
link_of-with_link in_link p t = refl
link_of-with_link out_link p t = refl

pub others-with_link :
    (d : Dir) (p : Ptr) (t : LinkThread) → link_of (other d) (with_link d p t) ≡ link_of (other d) t
others-with_link in_link p t = refl
others-with_link out_link p t = refl

pub link_of-with_pair :
    (d e : Dir) (p : Ptr) (t : LinkThread) → link_of e (with_pair d p t) ≡ link_of e t
link_of-with_pair in_link in_link p t = refl
link_of-with_pair in_link out_link p t = refl
link_of-with_pair out_link in_link p t = refl
link_of-with_pair out_link out_link p t = refl

policy-with_link : (d : Dir) (p : Ptr) (t : LinkThread) → (with_link d p t).policy ≡ t.policy
policy-with_link in_link p t = refl
policy-with_link out_link p t = refl

pub policy-with_pair : (d : Dir) (p : Ptr) (t : LinkThread) → (with_pair d p t).policy ≡ t.policy
policy-with_pair in_link p t = refl
policy-with_pair out_link p t = refl

link_of-started :
    (d : Dir) (now : ℕ) (t : LinkThread)
    → link_of d (record t { initial_wait_link_time = now }) ≡ link_of d t
link_of-started in_link now t = refl
link_of-started out_link now t = refl

free-with_waiting :
    (d e : Dir) (o : Owner) (q : Queue Unit) → free e (with_waiting d q o) ≡ free e o
free-with_waiting in_link in_link o q = refl
free-with_waiting in_link out_link o q = refl
free-with_waiting out_link in_link o q = refl
free-with_waiting out_link out_link o q = refl

waiting-with_waiting : (d : Dir) (o : Owner) (q : Queue Unit) → waiting d (with_waiting d q o) ≡ q
waiting-with_waiting in_link o q = refl
waiting-with_waiting out_link o q = refl

-- Who waits does not matter for the links.
pub with_waiting-OwnerOk :
    (d : Dir) (o : Owner) (q : Queue Unit)
    → OwnerOk o
    → OwnerOk (with_waiting d q o) × SameLinks o (with_waiting d q o)
with_waiting-OwnerOk in_link o q good = (
  record {
    policy = good.policy;
    known = elim [ in_link ↦ good.known in_link | out_link ↦ good.known out_link ];
    paired =
        λ half. elim [ in_link ↦ good.paired half in_link | out_link ↦ good.paired half out_link ];
  },
  record {
    counts = elim [ in_link ↦ λ c. refl | out_link ↦ λ c. refl ];
    ident = refl;
    duplex = refl;
  },
)
with_waiting-OwnerOk out_link o q good = (
  record {
    policy = good.policy;
    known = elim [ in_link ↦ good.known in_link | out_link ↦ good.known out_link ];
    paired =
        λ half. elim [ in_link ↦ good.paired half in_link | out_link ↦ good.paired half out_link ];
  },
  record {
    counts = elim [ in_link ↦ λ c. refl | out_link ↦ λ c. refl ];
    ident = refl;
    duplex = refl;
  },
)

module _ {S : Type 0} where
  pub wait_in_queue-Kept :
      (d : Dir) (th owner : Ptr) (s : LinkState S) → StateOk s → Kept s (wait_in_queue d th owner s)
  wait_in_queue-Kept d th owner s good =
      let change : Owner → Owner = λ o. with_waiting d (in_fifo_queue tt (waiting d o) th) o in
      let (fine, same) =
        with_waiting-OwnerOk d (s.owners owner) (in_fifo_queue tt (waiting d (s.owners owner)) th)
          (good.owners owner) in
      let first = on_owner-Kept s owner change good fine same in
      Kept-trans first (
        on_thread-Kept (on_owner owner change s) th
          (λ (t : LinkThread). record t { initial_wait_link_time = s.current_time }) first.good
          refl)

  pub wait_in_queue-Side :
      (d : Dir) (th owner : Ptr) (s : LinkState S)
      → link_of d (s.threads th) ≡ a_nil
      → (free d (s.owners owner)).items ≡ []
      → Side d th owner (wait_in_queue d th owner s) false
  unfolding in_fifo_queue
  wait_in_queue-Side d th owner s without empty =
      let o = s.owners owner in
      let q = in_fifo_queue tt (waiting d o) th in
      inr (
        refl,
        (
          rw (==_self th, link_of-started d s.current_time (s.threads th)) without,
          rw (==_self owner, free-with_waiting d d o q) empty,
          ((waiting d o).items, rw (==_self owner, waiting-with_waiting d o q) refl),
        ),
      )

  pub wait_in_queue-others :
      (d e : Dir) (th owner : Ptr) (s : LinkState S)
      → link_of e ((wait_in_queue d th owner s).threads th) ≡ link_of e (s.threads th)
  wait_in_queue-others d e th owner s =
      rw (==_self th) (link_of-started e s.current_time (s.threads th))

  -- What makes a thread wait puts it into the queue.
  abbrev pub Waits : (Dir → Ptr → Ptr → LinkState S → Outcome (LinkState S)) → Type 0
  Waits link_busy =
      (d : Dir) (th owner : Ptr) (s : LinkState S)
      → StateOk s
      → link_busy d th owner s ≡ ok (wait_in_queue d th owner s)

  pub mem_link_busy-Waits : Waits mem_link_busy
  unfolding mem_link_busy
  mem_link_busy-Waits d th owner s good = rw (good.policies th) refl

  pub machine_link_busy-Waits : Waits machine_link_busy
  unfolding machine_link_busy
  machine_link_busy-Waits d th owner s good = rw (good.owners owner).policy refl

  pub connection_link_busy-Waits : Waits connection_link_busy
  unfolding connection_link_busy
  connection_link_busy-Waits d th owner s good = refl

  pub assign-Kept :
      (d : Dir) (th owner link : Ptr) (o : Owner) (s : LinkState S)
      → StateOk s
      → OwnerOk o
      → SameLinks (s.owners owner) o
      → Kept s (assign d th owner link o s)
  assign-Kept d th owner link o s good fine same =
      let first = on_owner-Kept s owner (λ old. o) good fine same in
      let timed : Kept s (assign_time link (set_owner owner o s)) = record {
        good = record { owners = first.good.owners; policies = first.good.policies };
        same = first.same;
        nodes = first.nodes;
      } in
      Kept-trans timed (
        on_thread-Kept (assign_time link (set_owner owner o s)) th (with_link d link) timed.good
          (policy-with_link d link (s.threads th)))
