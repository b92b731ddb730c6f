-- ===== src/Ports/Creation.antt =====
-- Simulator/model/ports.c: PORT_create.
use dimemas.Base.{
  ℕ, ◌≡◌, refl, ap, sym, ◌∙◌, ◌≢◌, ◌⊎◌, inl, inr, true, false, Option, none, some, List, [], ◌∷◌,
  ◌++◌, ◌==◌, ==_iff, ==_self, ==_ne, if◌then◌else◌, Bool-cases, ok, panic, pos,
}
use dimemas.Queue.{Ptr, a_nil, Item, create_queue, in_fifo_queue}
use dimemas.Queue.Emptying.{holds}
use dimemas.Queue.Holding.{holds-append}
use dimemas.Ports.Base.{Port, World, put}
use dimemas.Ports.Operations.{new_port, port_create}
use dimemas.Ports.Invariant.{Allocated, Listed, WorldOk, locate_port-Located, Listed-put, kept-put}

-- An address that is not allocated stands in no item.
Listed-fresh :
    (ports : Ptr → Option Port) (fresh : Ptr) (items : List (Item Unit))
    → Listed ports items
    → ports fresh ≡ none
    → holds fresh items ≡ false
Listed-fresh ports fresh [] listed free = refl
Listed-fresh ports fresh (x ∷ xs) (known, (port, is), apart, others) free =
    elim (Bool-cases (x.content == fresh)) [
      | inl e ↦
          let same : x.content ≡ fresh = (==_iff x.content fresh).0 e in
          let both : none ≡ some port = sym free ∙ sym (ap ports same) ∙ is in cc
      | inr e ↦ rw e (Listed-fresh ports fresh xs others free)
    ]

Listed-append :
    (ports : Ptr → Option Port) (fresh : Ptr) (items : List (Item Unit))
    → Listed ports items
    → fresh ≢ a_nil
    → Allocated ports fresh
    → holds fresh items ≡ false
    → Listed ports (items ++ record { order = tt; content = fresh } ∷ [])
Listed-append ports fresh [] listed known there absent = (known, there, refl, tt)
Listed-append ports fresh (x ∷ xs) (known', there', apart, others) known there absent =
    elim (Bool-cases (x.content == fresh)) [
      | inl e ↦ let here : holds fresh (x ∷ xs) ≡ true = rw e in cc
      | inr e ↦
          let off : (fresh == x.content) ≡ false =
            ==_ne fresh x.content (λ s.
              let b : (x.content == fresh) ≡ true = (==_iff x.content fresh).1 (sym s) in cc) in
          (
            known',
            there',
            holds-append x.content fresh xs apart off,
            Listed-append ports fresh xs others known there
                (sym (ap (λ b. if b then true else holds fresh xs) e) ∙ absent),
          )
    ]

module _ {S : Type 0} where
  -- Without `extra_assert` PORT_create returns TRUE and adds a port of the number, at the block that
  -- was allocated, and keeps the ports in order.
  port_create-WorldOk :
      (fresh portid creator : ℕ) (w : World S)
      → WorldOk w
      → fresh ≢ a_nil
      → w.ports fresh ≡ none
      → (w' : World S) × (port : Port) × (port_create false fresh portid creator w ≡ ok (w', true))
        × WorldOk w'
        × (w'.ports fresh ≡ some port)
        × (port.portid ≡ portid)
        × (holds fresh w'.port_queue.items ≡ true)
  unfolding port_create in_fifo_queue create_queue
  port_create-WorldOk fresh portid creator w good known free =
      let port : Port = record {
        portid = portid;
        creator = creator;
        send = create_queue;
        recv = create_queue;
        sending = pos 0;
      } in
      let here : put w.ports fresh (some port) fresh ≡ some port = rw (==_self fresh) in
      let absent = Listed-fresh w.ports fresh w.port_queue.items good.listed free in
      (
        (new_port fresh portid creator w).0,
        port,
        refl,
        record {
          listed =
              Listed-append (put w.ports fresh (some port)) fresh w.port_queue.items
                (Listed-put w.ports fresh port w.port_queue.items good.listed) known (port, here)
                absent;
          kept =
              kept-put w.ports fresh port good.kept
                (record { senders = refl; receivers = refl; one_side = inl refl });
        },
        here,
        refl,
        last_held fresh w.port_queue.items,
      )
    where
      last_held :
          (c : Ptr) (items : List (Item Unit))
          → holds c (items ++ record { order = tt; content = c } ∷ []) ≡ true
      last_held c [] = rw (==_self c)
      last_held c (x ∷ xs) = elim (Bool-cases (x.content == c)) [
        | inl e ↦ rw e
        | inr e ↦ rw e (last_held c xs)
      ]

  -- With `extra_assert` PORT_create adds no port: it fails its assertion, where a port of the number
  -- is in the queue, or it returns FALSE.
  pub port_create-never :
      (fresh portid creator : ℕ) (w : World S)
      → WorldOk w
      → ((port_create true fresh portid creator w ≡ panic)
          × ((p : Ptr) × (port : Port) × (holds p w.port_queue.items ≡ true)
              × (w.ports p ≡ some port)
              × (port.portid ≡ portid)))
        ⊎ ((w' : World S) × (port_create true fresh portid creator w ≡ ok (w', false))
            × (w'.ports ≡ w.ports)
            × (w'.port_queue.items ≡ w.port_queue.items))
  unfolding port_create
  port_create-never fresh portid creator w good =
      let (w₁, p, is, good₁, ports, queue, located) = locate_port-Located portid w good in
      elim located [
        | inl (z, lacks) ↦
            let there : (p == a_nil) ≡ true = (==_iff p a_nil).1 z in
            inr (w₁, rw (is, there), ports, queue)
        | inr (nz, held, (port, what, num)) ↦
            let away : (p == a_nil) ≡ false = ==_ne p a_nil nz in
            inl (rw (is, away), (p, port, held, what, num))
      ]
