-- ===== src/Ports/Invariant.antt =====
-- Simulator/model/ports.c: what holds of the ports between two calls, and the search for a port.
use dimemas.Base.{
  ℕ, suc, ◌≡◌, refl, ap, sym, subst, ◌∙◌, ◌≢◌, ◌⊎◌, inl, inr, true, false, Option, some, List, [],
  ◌∷◌, All, length, length-append, ◌==◌, ==_iff, ==_self, ==_ne, if◌then◌else◌, Bool-cases, ok,
  arith,
}
use dimemas.Queue.{
  Ptr, a_nil, Item, Cursor, null, at, Queue, in_fifo_queue, out_fifo_queue, empty_queue,
}
use dimemas.Queue.Emptying.{holds, out_fifo_queue-cons, out_fifo_queue-nil}
use dimemas.Ports.Base.{Port, World, put, set_port, locate_from, locate_port}

-- The counter of a queue is right.
abbrev pub Counted : Queue Unit → Type 0
Counted q = q.count ≡ length q.items

-- No port has threads that wait on both sides.
pub record PortOk (port : Port) : Type 0 where
  pub senders : Counted port.send
  pub receivers : Counted port.recv
  pub one_side : (port.send.items ≡ []) ⊎ (port.recv.items ≡ [])

abbrev pub Allocated : (Ptr → Option Port) → Ptr → Type 0
Allocated ports p = (port : Port) × (ports p ≡ some port)

-- The contents of the queue of ports are allocated, and none stands in it twice.
abbrev pub Listed : (Ptr → Option Port) → List (Item Unit) → Type 0
Listed ports [] = Unit
Listed ports (x ∷ xs) =
    (x.content ≢ a_nil) × Allocated ports x.content × (holds x.content xs ≡ false) × Listed ports xs

pub record WorldOk {S : Type 0} (w : World S) : Type 0 where
  pub listed : Listed w.ports w.port_queue.items
  pub kept : (p : Ptr) (port : Port) → w.ports p ≡ some port → PortOk port

-- All ports of the queue have another number.
abbrev pub Lacks : (Ptr → Option Port) → ℕ → List (Item Unit) → Type 0
Lacks ports portid =
    All (λ x. (port : Port) × (ports x.content ≡ some port) × (port.portid ≢ portid))

-- The search gives NULL where no port has the number, or a port of the number in the queue.
abbrev pub Located : (Ptr → Option Port) → ℕ → List (Item Unit) → Ptr → Type 0
Located ports portid items p =
    ((p ≡ a_nil) × Lacks ports portid items)
    ⊎ ((p ≢ a_nil)
        × (holds p items ≡ true)
        × ((port : Port) × (ports p ≡ some port) × (port.portid ≡ portid)))

not_equal : (m n : ℕ) → (m == n) ≡ false → m ≢ n
not_equal m n e h = ground (arith, e, h)

locate_from-Located :
    (ports : Ptr → Option Port) (portid i : ℕ) (items : List (Item Unit))
    → Listed ports items
    → (c : Cursor) × (p : Ptr) × (locate_from ports portid i items ≡ ok (c, p))
      × Located ports portid items p
unfolding locate_from
locate_from-Located ports portid i [] listed = (null, a_nil, refl, inl (refl, tt))
locate_from-Located ports portid i (x ∷ xs) (known, (port, is), apart, others) =
    let off : (x.content == a_nil) ≡ false = ==_ne x.content a_nil known in
    elim (Bool-cases (port.portid == portid)) [
      | inl e ↦ (
        at i,
        x.content,
        rw (off, is, e),
        inr (known, rw (==_self x.content), (port, is, (==_iff port.portid portid).0 e)),
      )
      | inr e ↦
          let (c, p, found, located) = locate_from-Located ports portid (suc i) xs others in
          (
            c,
            p,
            rw (off, is, e) found,
            elim located [
              | inl (z, others_lack) ↦
                  inl (z, ((port, is, not_equal port.portid portid e), others_lack))
              | inr (nz, held, what) ↦ inr (
                nz,
                elim (Bool-cases (x.content == p)) [ inl s ↦ rw s | inr s ↦ rw s held ],
                what,
              )
            ],
          )
    ]

-- A port is written back in place.
pub Listed-put :
    (ports : Ptr → Option Port) (p : Ptr) (port : Port) (items : List (Item Unit))
    → Listed ports items
    → Listed (put ports p (some port)) items
Listed-put ports p port [] listed = tt
Listed-put ports p port (x ∷ xs) (known, (old, is), apart, others) = (
  known,
  elim (Bool-cases (x.content == p)) [ inl e ↦ (port, rw e) | inr e ↦ (old, rw e is) ],
  apart,
  Listed-put ports p port xs others,
)

pub kept-put :
    (ports : Ptr → Option Port) (p : Ptr) (port : Port)
    → ((q : Ptr) (old : Port) → ports q ≡ some old → PortOk old)
    → PortOk port
    → (q : Ptr) (new : Port) → put ports p (some port) q ≡ some new
    → PortOk new
kept-put ports p port all good q new is = elim (Bool-cases (q == p)) [
  | inl e ↦
      let here : some port ≡ some new = sym (ap (λ b. if b then some port else ports q) e) ∙ is in
      let same : port ≡ new = cc in subst PortOk same good
  | inr e ↦ all q new (sym (ap (λ b. if b then some port else ports q) e) ∙ is)
]

module _ {S : Type 0} where
  pub locate_port-Located :
      (portid : ℕ) (w : World S)
      → WorldOk w
      → (w' : World S) × (p : Ptr) × (locate_port portid w ≡ ok (w', p))
        × WorldOk w'
        × (w'.ports ≡ w.ports)
        × (w'.port_queue.items ≡ w.port_queue.items)
        × Located w.ports portid w.port_queue.items p
  unfolding locate_port
  locate_port-Located portid w good =
      let (c, p, is, located) =
        locate_from-Located w.ports portid 0 w.port_queue.items good.listed in
      (
        record w { port_queue = record w.port_queue { curr = c } },
        p,
        rw is,
        record { listed = good.listed; kept = good.kept },
        refl,
        refl,
        located,
      )

  pub set_port-WorldOk :
      (p : Ptr) (port : Port) (w : World S) → WorldOk w → PortOk port → WorldOk (set_port p port w)
  set_port-WorldOk p port w good new = record {
    listed = Listed-put w.ports p port w.port_queue.items good.listed;
    kept = kept-put w.ports p port good.kept new;
  }

-- Queues of one more and one less thread.
pub empty_queue-items : (q : Queue Unit) → Counted q → empty_queue q ≡ true → q.items ≡ []
unfolding empty_queue
empty_queue-items q counted e = nothing q.items (sym counted ∙ (==_iff q.count 0).0 e)
  where
    nothing : (items : List (Item Unit)) → length items ≡ 0 → items ≡ []
    nothing [] l = refl
    nothing (x ∷ xs) l = absurd (omega arith)

pub in_fifo_queue-Counted : (q : Queue Unit) (c : Ptr) → Counted q → Counted (in_fifo_queue tt q c)
unfolding in_fifo_queue
in_fifo_queue-Counted q c counted =
    let longer = length-append q.items (record { order = tt; content = c } ∷ []) in
    omega (arith, longer, counted)

pub out_fifo_queue-Counted : (q : Queue Unit) → Counted q → Counted (out_fifo_queue q).0
out_fifo_queue-Counted q counted = by_items q.items refl
  where
    by_items : (items : List (Item Unit)) → q.items ≡ items → Counted (out_fifo_queue q).0
    by_items [] e = rw (out_fifo_queue-nil q e) counted
    by_items (x ∷ xs) e =
        let longer : length q.items ≡ suc (length xs) = ap length e in
        rw (out_fifo_queue-cons q e) (omega (arith, longer, counted))
