-- ===== src/Ports/Rendezvous.antt =====
-- Simulator/model/ports.c: sending, receiving, creating and deleting keep the ports in order.
use dimemas.Base.{
  ℕ, ◌+◌, ◌≡◌, ◌≢◌, Bool, refl, ap, subst, ◌∙◌, ◌⊎◌, inl, inr, true, false, not, ◌&&◌, some, List,
  [], ◌∷◌, arith, ◌==◌, ==_iff, ==_self, ==_ne, Bool-cases, Outcome, ok, ◌>>=◌, length,
}
use dimemas.Queue.{Ptr, a_nil, Item, Queue, in_fifo_queue, out_fifo_queue, empty_queue, head_queue}
use dimemas.Queue.Emptying.{out_fifo_queue-cons}
use dimemas.Ports.Base.{Thread, Port, World, Modules, set_port, on_thread}
use dimemas.Ports.Transfer.{really_port_send}
use dimemas.Ports.Operations.{
  Side, sender, receiver, own, partners, with_own, with_partners, looked, entered, no_links,
  in_order, meet, exchange_at, exchange, startup, starting,
}
use dimemas.Ports.Invariant.{
  Counted, PortOk, Lacks, WorldOk, locate_port-Located, set_port-WorldOk, empty_queue-items,
  in_fifo_queue-Counted, out_fifo_queue-Counted,
}

-- A write of a field of a thread.
on_thread-WorldOk :
    {S : Type 0} (th : Ptr) (change : Thread → Thread) (w : World S)
    → WorldOk w
    → WorldOk (on_thread th change w)
on_thread-WorldOk th change w good = record { listed = good.listed; kept = good.kept }

-- The two sides of a port.
looked-PortOk : (side : Side) (port : Port) → PortOk port → PortOk (looked side port)
unfolding head_queue
looked-PortOk side port good = elim (Bool-cases (empty_queue (partners side port))) [
  | inl e ↦ rw e good
  | inr e ↦ rw e (seen side)
]
  where
    seen : (side : Side) → PortOk (with_partners side (head_queue (partners side port)).0 port)
    seen sender = record {
      senders = good.senders;
      receivers = good.receivers;
      one_side = good.one_side;
    }
    seen receiver = record {
      senders = good.senders;
      receivers = good.receivers;
      one_side = good.one_side;
    }

waiting-PortOk :
    (side : Side) (th : Ptr) (port : Port)
    → PortOk port
    → empty_queue (partners side port) ≡ true
    → PortOk (with_own side (in_fifo_queue tt (own side port) th) port)
waiting-PortOk sender th port good e = record {
  senders = in_fifo_queue-Counted port.send th good.senders;
  receivers = good.receivers;
  one_side = inr (empty_queue-items port.recv good.receivers e);
}
waiting-PortOk receiver th port good e = record {
  senders = good.senders;
  receivers = in_fifo_queue-Counted port.recv th good.receivers;
  one_side = inl (empty_queue-items port.send good.senders e);
}

-- A side on which somebody waits leaves the other side empty.
other_side :
    (a b : List (Item Unit)) (q : Queue Unit)
    → (a ≡ []) ⊎ (b ≡ [])
    → q.items ≡ b
    → Counted q
    → empty_queue q ≡ false
    → a ≡ []
unfolding empty_queue
other_side a b q (inl z) e c f = z
other_side a b q (inr z) e c f =
    let none_left : q.count ≡ 0 = c ∙ ap length (e ∙ z) in
    let full : (q.count == 0) ≡ true = (==_iff q.count 0).1 none_left in cc

met-PortOk :
    (side : Side) (port : Port)
    → PortOk port
    → empty_queue (partners side port) ≡ false
    → PortOk (with_partners side (out_fifo_queue (partners side port)).0 port)
met-PortOk sender port good e = record {
  senders = good.senders;
  receivers = out_fifo_queue-Counted port.recv good.receivers;
  one_side =
      inl
        (other_side port.send.items port.recv.items port.recv good.one_side refl good.receivers e);
}
met-PortOk receiver port good e = record {
  senders = out_fifo_queue-Counted port.send good.senders;
  receivers = good.receivers;
  one_side = inr (
      other_side port.recv.items port.send.items port.send (swap good.one_side) refl good.senders
        e);
}
  where
    swap : {A B : Type 0} → A ⊎ B → B ⊎ A
    swap (inl a) = inr a
    swap (inr b) = inl b

-- The sender and the receiver, when the thread of a side has met its partner.
abbrev pub ends : Side → Ptr → Ptr → Ptr × Ptr
ends sender th partner = (th, partner)
ends receiver th partner = (partner, th)

partners-with_partners :
    (side : Side) (q : Queue Unit) (port : Port) → partners side (with_partners side q port) ≡ q
partners-with_partners sender q port = refl
partners-with_partners receiver q port = refl

own-with_own : (side : Side) (q : Queue Unit) (port : Port) → own side (with_own side q port) ≡ q
own-with_own sender q port = refl
own-with_own receiver q port = refl

own-with_partners :
    (side : Side) (q : Queue Unit) (port : Port)
    → own side (with_partners side q port) ≡ own side port
own-with_partners sender q port = refl
own-with_partners receiver q port = refl

partners-Counted : (side : Side) (port : Port) → PortOk port → Counted (partners side port)
partners-Counted sender port good = good.receivers
partners-Counted receiver port good = good.senders

looked-line :
    (side : Side) (port : Port)
    → ((partners side (looked side port)).items ≡ (partners side port).items)
      × (own side (looked side port) ≡ own side port)
unfolding head_queue
looked-line side port =
    let seen : Queue Unit = (head_queue (partners side port)).0 in
    elim (Bool-cases (empty_queue (partners side port))) [
      | inl e ↦ rw e (refl, refl)
      | inr e ↦ rw e (
        ap (λ (q : Queue Unit). q.items) (partners-with_partners side seen port),
        own-with_partners side seen port,
      )
    ]

module _ {S : Type 0} (m : Modules S) (side : Side) (p th : Ptr) where
  -- How a call ends for a thread at the port p, where `line` is who waits on the other side and
  -- `mine` the queue of the thread's own side: nobody waits there, and the thread is queued; or the
  -- last step is that the scheduler makes the thread ready for its startup; or the first of the
  -- line leaves it, and the last step is the transfer between the two.
  abbrev pub Ends : List (Item Unit) → Queue Unit → Outcome (World S) → Type 0
  Ends line mine step =
      (w' : World S) × WorldOk w'
      × (((line ≡ [])
            × (step ≡ ok w')
            × ((port : Port) × (w'.ports p ≡ some port)
                × (own side port ≡ in_fifo_queue tt mine th)))
          ⊎ (((cost : ℕ) × (cost ≢ 0)
                × ((w'.threads th).startup_done ≡ false)
                × (step ≡ m.thread_to_ready_return th cost w'))
              ⊎ ((x : Item Unit) × (xs : List (Item Unit)) × (port : Port) × (line ≡ x ∷ xs)
                  × (w'.ports p ≡ some port)
                  × ((partners side port).items ≡ xs)
                  × (step
                      ≡ really_port_send m p (ends side th x.content).0 (ends side th x.content).1
                          w'))))

  paid : (cost : ℕ) (b : Bool) → (not (cost == 0) && not b) ≡ true → cost ≢ 0
  paid cost b e none = ground (arith, e, none)

  fresh : (a b : Bool) → (not a && not b) ≡ true → b ≡ false
  fresh true b e = cc
  fresh false true e = cc
  fresh false false e = refl

  in_order-ends :
      (partner : Ptr) (w : World S) (b : Side)
      → in_order m b p th partner w
        ≡ really_port_send m p (ends b th partner).0 (ends b th partner).1 w
  in_order-ends partner w sender = refl
  in_order-ends partner w receiver = refl

  meet-Ends :
      (line : List (Item Unit)) (port : Port) (w : World S)
      → (partners side port).items ≡ line
      → WorldOk w
      → PortOk port
      → Ends line (own side port) (meet m side p th port w)
  unfolding empty_queue
  meet-Ends [] port w is good new =
      let none_left : (partners side port).count ≡ 0 =
        partners-Counted side port new ∙ ap length is in
      let e : ((partners side port).count == 0) ≡ true =
        (==_iff (partners side port).count 0).1 none_left in
      let q : Queue Unit = in_fifo_queue tt (own side port) th in
      let waits : Port = with_own side q port in
      (
        set_port p waits w,
        set_port-WorldOk p waits w good (waiting-PortOk side th port new e),
        inl (refl, rw e refl, (waits, rw (==_self p) refl, own-with_own side q port)),
      )
  meet-Ends (x ∷ xs) port w is good new =
      let some_left : (partners side port).count ≡ length xs + 1 =
        omega (arith, partners-Counted side port new, ap length is) in
      let e : ((partners side port).count == 0) ≡ false = ground (arith, some_left) in
      let popped = out_fifo_queue-cons (partners side port) is in
      let met : Port = with_partners side (out_fifo_queue (partners side port)).0 port in
      let met_good = set_port-WorldOk p met w good (met-PortOk side port new e) in
      let partner : Ptr = (out_fifo_queue (partners side port)).1 in
      let is_x : partner ≡ x.content = ap (λ (r : Queue Unit × Ptr). r.1) popped in
      let w' : World S = on_thread partner no_links (on_thread th no_links (set_port p met w)) in
      let left : (partners side met).items ≡ xs =
        ap (λ (q : Queue Unit). q.items)
          (partners-with_partners side (out_fifo_queue (partners side port)).0 port)
        ∙ ap (λ (r : Queue Unit × Ptr). r.0.items) popped in
      let sent : in_order m side p th partner w'
          ≡ really_port_send m p (ends side th x.content).0 (ends side th x.content).1 w' =
        in_order-ends partner w' side
        ∙ ap (λ c. really_port_send m p (ends side th c).0 (ends side th c).1 w') is_x in
      (
        w',
        record { listed = met_good.listed; kept = met_good.kept },
        inr (inr (x, xs, met, refl, rw (==_self p) refl, left, rw e sent)),
      )

  exchange_at-Ends :
      (to_module portid siz : ℕ) (port : Port) (w : World S)
      → WorldOk w
      → PortOk port
      → Ends
          (partners side port).items
          (own side port)
          (exchange_at m side to_module portid p th siz port w)
  exchange_at-Ends to_module portid siz port w good old =
      let cost = startup m side th port w in
      let seen = looked-PortOk side port old in
      let w' = set_port p (looked side port) w in
      let good' = set_port-WorldOk p (looked side port) w good seen in
      let (line, mine) = looked-line side port in
      elim (Bool-cases (not (cost == 0) && not (w.threads th).startup_done)) [
        | inl e ↦ (
          starting side to_module portid th siz w',
          record { listed = good'.listed; kept = good'.kept },
          inr (
              inl (
                cost,
                paid cost (w.threads th).startup_done e,
                rw (==_self th) (fresh (cost == 0) (w.threads th).startup_done e),
                rw e refl,
              )),
        )
        | inr e ↦ rw e (
            subst
              (λ q.
                Ends (partners side port).items q
                  (meet m side p th (looked side port) (on_thread th (entered to_module siz) w')))
              mine
              (meet-Ends (partners side port).items (looked side port)
                (on_thread th (entered to_module siz) w') line
                (on_thread-WorldOk th (entered to_module siz) w' good') seen))
      ]

module _ {S : Type 0} (m : Modules S) (side : Side) (to_module portid th siz : ℕ)
    (w : World S) where
  -- PORT_send and PORT_receive on ports in order return FALSE and leave the ports as they are, where
  -- no port has the number, or they come to a port of the number. There the thread is queued on its
  -- side, if nobody waits on the other side; or the last step is that the scheduler makes it ready
  -- for its startup, which costs time and is not done; or the first who waits on the other side
  -- leaves its queue, and the last step is the transfer between the two. The ports are in order
  -- where this step begins: their queue has no dangling or double entries, and each has right
  -- counters and threads that wait on one side at most.
  pub exchange-WorldOk :
      WorldOk w
      → (Lacks w.ports portid w.port_queue.items
          × ((w' : World S) × WorldOk w'
              × (w'.ports ≡ w.ports)
              × (exchange m side to_module portid th siz w ≡ ok (w', false))))
        ⊎ ((p : Ptr) × (port : Port) × (step : Outcome (World S)) × (w.ports p ≡ some port)
            × (port.portid ≡ portid)
            × Ends m side p th (partners side port).items (own side port) step
            × (exchange m side to_module portid th siz w ≡ (step >>= (λ w'. ok (w', true)))))
  unfolding exchange
  exchange-WorldOk good =
      let (w₁, p, is, good₁, ports, queue, located) = locate_port-Located portid w good in
      elim located [
        | inl (z, lacks) ↦
            let there : (p == a_nil) ≡ true = (==_iff p a_nil).1 z in
            inl (lacks, (w₁, good₁, ports, rw (is, there) refl))
        | inr (nz, held, (port, what, num)) ↦
            let away : (p == a_nil) ≡ false = ==_ne p a_nil nz in
            let what' : w₁.ports p ≡ some port = ap (λ ps. ps p) ports ∙ what in
            inr (
              p,
              port,
              exchange_at m side to_module portid p th siz port w₁,
              what,
              num,
              exchange_at-Ends m side p th to_module portid siz port w₁ good₁
                  (good₁.kept p port what'),
              rw (is, away, what') refl,
            )
      ]
