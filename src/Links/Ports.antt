-- ===== src/Links/Ports.antt =====
-- Simulator/model/links.c: the network links of a node for ports, LINKS_get_port_links, and
-- LINKS_free_network_link, which gives them back.
use dimemas.Base.{
  ℕ, ◌+◌, ◌≡◌, refl, ap, sym, ◌∙◌, ◌≢◌, inl, inr, Bool, true, false, List, [], ◌∷◌, ◌==◌, ==_self,
  ==_ne, if◌then◌else◌, Bool-cases, Outcome, panic, ◌>>=◌, arith,
}
use dimemas.Queue.{Ptr, a_nil, Item, Queue, out_fifo_queue, extract_from_queue}
use dimemas.Queue.Emptying.{holds, out_fifo_queue-cons, extract_from_queue-without}
use dimemas.Ports.Base.{Link, l_nil, l_nul, link_at}
use dimemas.Ports.Transfer.{is_nil}
use dimemas.Links.Base.{
  Dir, in_link, out_link, Owner, free, waiting, with_free, with_waiting, LinkThread, pair_of,
  LinkState, Wakers, on_owner, set_owner, on_thread,
}
use dimemas.Links.Release.{give_back, give_back_pair, resumed, go_on, wake_pair}
use dimemas.Links.Conserved.{copies, held}

-- A port link of a thread: out of the sender, into the receiver.
abbrev pub port_link_of : Dir → LinkThread → Link
port_link_of in_link t = t.port_recv_link
port_link_of out_link t = t.port_send_link

abbrev pub with_port_link : Dir → Link → LinkThread → LinkThread
with_port_link in_link p t = record t { port_recv_link = p }
with_port_link out_link p t = record t { port_send_link = p }

abbrev pub link_or_nil : Ptr → Link
link_or_nil p = if p == a_nil then l_nil else link_at p

module _ {S : Type 0} where
  -- The first free link, which leaves the queue of the free ones; FALSE where there is none.
  abbrev pub take_port_link : Dir → Ptr → Ptr → LinkState S → LinkState S × Bool
  take_port_link d th node s =
      let r = out_fifo_queue (free d (s.owners node)) in
      if is_nil (port_link_of d (s.threads th))
      then (
        on_thread th (with_port_link d (link_or_nil r.1)) (on_owner node (with_free d r.0) s),
        if r.1 == a_nil then false else true,
      )
      else (s, true)

  abbrev pub second_port_link : Ptr → Ptr → LinkState S × Bool → LinkState S × Bool
  second_port_link thread_r node_r (s, got) =
      if got then take_port_link in_link thread_r node_r s else (s, false)

  unfoldable pub get_port_links : Ptr → Ptr → Ptr → Ptr → LinkState S → LinkState S × Bool
  get_port_links thread_s node_s thread_r node_r s =
      if node_s == node_r
      then (
        on_thread thread_r (with_port_link in_link l_nul)
            (on_thread thread_s (with_port_link out_link l_nul) s),
        true,
      )
      else second_port_link thread_r node_r (take_port_link out_link thread_s node_s s)

module _ {S : Type 0} (w : Wakers S)
    (wake_others : Dir → Ptr → LinkState S → Outcome (LinkState S)) where
  -- A thread that waits for the direction goes on, or else a pair of a port or a copy of memory.
  abbrev pub wake_one : Dir → Ptr → LinkState S → Outcome (LinkState S)
  wake_one d node s =
      let r = out_fifo_queue (waiting d (s.owners node)) in
      let s' = on_owner node (with_waiting d r.0) s in
      if r.1 == a_nil
      then wake_others d node s'
      else go_on w false r.1 (on_thread r.1 (resumed s.current_time) s')

  unfoldable pub free_network_link : Ptr → Ptr → LinkState S → Outcome (LinkState S)
  free_network_link link th s =
      let d = (s.links link).type in
      let node = (s.links link).info in
      give_back d link (s.owners node)
      >>= give_back_pair d (pair_of d (s.threads th))
      >>= (λ o. wake_pair w false d node (set_owner node o s))
      >>= wake_one d node

-- A link that stands once among those of an owner, at the front of the free ones, is not busy.
copies-absent : (c : Ptr) (xs : List (Item Unit)) → copies c xs ≡ 0 → holds c xs ≡ false
copies-absent c [] none_there = refl
copies-absent c (x ∷ xs) none_there = elim (Bool-cases (x.content == c)) [
  | inl e ↦
      let one : 1 + copies c xs ≡ 0 =
        sym (ap (λ b. (if b then 1 else 0) + copies c xs) e) ∙ none_there in
      let never : Path ℕ 0 1 = omega (arith, one) in cc
  | inr e ↦
      let counted : 0 + copies c xs ≡ 0 =
        sym (ap (λ b. (if b then 1 else 0) + copies c xs) e) ∙ none_there in
      let rest : copies c xs ≡ 0 = omega (arith, counted) in rw e (copies-absent c xs rest)
]

front_not_busy :
    (o : Owner) (x : Item Unit) (xs : List (Item Unit))
    → o.free_out_links.items ≡ x ∷ xs
    → held out_link x.content o ≡ 1
    → holds x.content o.busy_out_links.items ≡ false
front_not_busy o x xs front once =
    let counted : copies x.content o.free_out_links.items ≡ 1 + copies x.content xs =
      ap (copies x.content) front ∙ rw (==_self x.content) refl in
    copies-absent x.content o.busy_out_links.items (omega (arith, counted, once))

-- The state once the thread has the first free link for a port.
abbrev pub port_taken : {S : Type 0} → Dir → Ptr → Ptr → Ptr → LinkState S → LinkState S
port_taken d th node link s =
    on_thread th (with_port_link d (link_at link))
      (on_owner node (with_free d (out_fifo_queue (free d (s.owners node))).0) s)

take_port_link-taken :
    {S : Type 0} (d : Dir) (th node : Ptr) (s : LinkState S) (x : Item Unit) (xs : List (Item Unit))
    → port_link_of d (s.threads th) ≡ l_nil
    → (free d (s.owners node)).items ≡ x ∷ xs
    → x.content ≢ a_nil
    → take_port_link d th node s ≡ (port_taken d th node x.content s, true)
take_port_link-taken d th node s x xs lacks front known =
    let link : (out_fifo_queue (free d (s.owners node))).1 ≡ x.content =
      ap (λ r. r.1) (out_fifo_queue-cons (free d (s.owners node)) front) in
    let away = ==_ne x.content a_nil known in rw (lacks, link, away) refl

module _ {S : Type 0} (w : Wakers S)
    (wake_others : Dir → Ptr → LinkState S → Outcome (LinkState S)) where
  freed_panics :
      (th node link : Ptr) (s : LinkState S)
      → extract_from_queue (s.owners node).busy_out_links link ≡ panic
      → (s.links link).info ≡ node
      → (s.links link).type ≡ out_link
      → free_network_link w wake_others link th s ≡ panic
  unfolding free_network_link give_back
  freed_panics th node link s failed info type = rw (type, info, failed) refl

  -- For a port between two threads on two nodes that have free links, LINKS_get_port_links gives both
  -- a link, but LINKS_free_network_link on the one of the sender then panics, if the node has the link
  -- once: it is not among the busy ones.
  pub get_port_links-panic :
      (thread_s node_s thread_r node_r : Ptr) (s : LinkState S) (x y : Item Unit)
      (xs ys : List (Item Unit))
      → node_s ≢ node_r
      → thread_s ≢ thread_r
      → (s.threads thread_s).port_send_link ≡ l_nil
      → (s.threads thread_r).port_recv_link ≡ l_nil
      → (s.owners node_s).free_out_links.items ≡ x ∷ xs
      → x.content ≢ a_nil
      → (s.owners node_r).free_in_links.items ≡ y ∷ ys
      → y.content ≢ a_nil
      → held out_link x.content (s.owners node_s) ≡ 1
      → (s.links x.content).info ≡ node_s
      → (s.links x.content).type ≡ out_link
      → (s' : LinkState S) × (get_port_links thread_s node_s thread_r node_r s ≡ (s', true))
        × ((s'.threads thread_s).port_send_link ≡ link_at x.content)
        × (free_network_link w wake_others x.content thread_s s' ≡ panic)
  unfolding get_port_links free_network_link give_back
  get_port_links-panic th_s ns th_r nr s x y xs ys apart two no_s no_r front known front' known'
        once info type =
      let nodes = ==_ne ns nr apart in
      let threads = ==_ne th_r th_s (λ e. two (sym e)) in
      let threads' = ==_ne th_s th_r two in
      let nodes' = ==_ne nr ns (λ e. apart (sym e)) in
      let s₁ = port_taken out_link th_s ns x.content s in
      let s₂ = port_taken in_link th_r nr y.content s₁ in
      let first = take_port_link-taken out_link th_s ns s x xs no_s front known in
      let no_r₁ : (s₁.threads th_r).port_recv_link ≡ l_nil = rw threads no_r in
      let front₁ : (s₁.owners nr).free_in_links.items ≡ y ∷ ys = rw nodes' front' in
      let second = take_port_link-taken in_link th_r nr s₁ y ys no_r₁ front₁ known' in
      let same_busy : (s₂.owners ns).busy_out_links ≡ (s.owners ns).busy_out_links =
        rw (nodes, ==_self ns) refl in
      let absent = front_not_busy (s.owners ns) x xs front once in
      let absent₂ : holds x.content (s₂.owners ns).busy_out_links.items ≡ false =
        ap (λ (q : Queue Unit). holds x.content q.items) same_busy ∙ absent in
      (
        s₂,
        rw (nodes, first) second,
        rw (threads', ==_self th_s) refl,
        elim (extract_from_queue-without (s₂.owners ns).busy_out_links x.content) [
          | inl (gone, failed) ↦ freed_panics th_s ns x.content s₂ failed info type
          | inr (q, is_held, taken, left, count) ↦ cc
        ],
      )
