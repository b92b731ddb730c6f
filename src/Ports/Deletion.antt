-- ===== src/Ports/Deletion.antt =====
-- Simulator/model/ports.c: PORT_create and PORT_delete.
use dimemas.Base.{
  ℕ, ◌≡◌, refl, ap, sym, subst, ◌∙◌, ◌⊎◌, inl, inr, Bool, true, false, not, ◌||◌, Option, none,
  some, List, [], ◌∷◌, ◌==◌, ==_iff, ==_self, ==_ne, if◌then◌else◌, Bool-cases, ok, ℤ, pos, negsuc,
  eqz,
}
use dimemas.Queue.{Ptr, a_nil, Item, empty_queue}
use dimemas.Queue.Emptying.{without, holds, extract_from_queue-without}
use dimemas.Queue.Holding.{holds-without}
use dimemas.Ports.Base.{Port, World, put}
use dimemas.Ports.Operations.{in_use, delete_at, port_delete}
use dimemas.Ports.Invariant.{PortOk, Listed, WorldOk, locate_port-Located, empty_queue-items}

-- Freeing a block that no item leads to.
Listed-free :
    (ports : Ptr → Option Port) (p : Ptr) (items : List (Item Unit))
    → Listed ports items
    → holds p items ≡ false
    → Listed (put ports p none) items
Listed-free ports p [] listed absent = tt
Listed-free ports p (x ∷ xs) (known, (port, is), apart, others) absent =
    elim (Bool-cases (x.content == p)) [
      | inl e ↦ let here : holds p (x ∷ xs) ≡ true = rw e in cc
      | inr e ↦
          let absent' : holds p xs ≡ false =
            sym (ap (λ b. if b then true else holds p xs) e) ∙ absent in
          (known, (port, rw e is), apart, Listed-free ports p xs others absent')
    ]

Listed-without :
    (ports : Ptr → Option Port) (p : Ptr) (items : List (Item Unit))
    → Listed ports items
    → Listed (put ports p none) (without p items)
Listed-without ports p [] listed = tt
Listed-without ports p (x ∷ xs) (known, (port, is), apart, others) =
    elim (Bool-cases (x.content == p)) [
      | inl e ↦
          let same : x.content ≡ p = (==_iff x.content p).0 e in
          rw e (Listed-free ports p xs others (subst (λ c. holds c xs ≡ false) same apart))
      | inr e ↦ rw e (
        known,
        (port, rw e is),
        holds-without x.content p xs apart,
        Listed-without ports p xs others,
      )
    ]

kept-free :
    (ports : Ptr → Option Port) (p : Ptr)
    → ((q : Ptr) (old : Port) → ports q ≡ some old → PortOk old)
    → (q : Ptr) (new : Port) → put ports p none q ≡ some new
    → PortOk new
kept-free ports p all q new is = elim (Bool-cases (q == p)) [
  | inl e ↦ let here : none ≡ some new = sym (ap (λ b. if b then none else ports q) e) ∙ is in cc
  | inr e ↦ all q new (sym (ap (λ b. if b then none else ports q) e) ∙ is)
]

-- A port that nobody waits on and that carries no transfer.
abbrev pub Idle : Port → Type 0
Idle port = (port.send.items ≡ []) × (port.recv.items ≡ []) × (port.sending ≡ pos 0)

eqz_zero : (a : ℤ) → eqz a (pos 0) ≡ true → a ≡ pos 0
eqz_zero (pos n) h = ap pos ((==_iff n 0).0 h)
eqz_zero (negsuc n) h = cc

not_used : (a b c : Bool) → (not a || not b || not c) ≡ false → (a ≡ true) × (b ≡ true) × (c ≡ true)
not_used true true true h = (refl, refl, refl)
not_used true true false h = cc
not_used true false c h = cc
not_used false b c h = cc

in_use-Idle : (port : Port) → PortOk port → in_use port ≡ false → Idle port
in_use-Idle port good h =
    let (s, r, z) =
      not_used (empty_queue port.send) (empty_queue port.recv) (eqz port.sending (pos 0)) h in
    (
      empty_queue-items port.send good.senders s,
      empty_queue-items port.recv good.receivers r,
      eqz_zero port.sending z,
    )

-- What PORT_delete comes to: nothing, or an idle port of the number is freed and leaves the queue.
abbrev pub Deleted : {S : Type 0} → ℕ → World S → World S → Bool → Type 0
Deleted portid w w' done =
    ((done ≡ false) × (w'.ports ≡ w.ports) × (w'.port_queue.items ≡ w.port_queue.items))
    ⊎ ((p : Ptr) × (port : Port) × (done ≡ true)
        × (w.ports p ≡ some port)
        × (port.portid ≡ portid)
        × Idle port
        × (w'.ports p ≡ none)
        × (w'.port_queue.items ≡ without p w.port_queue.items))

module _ {S : Type 0} where
  delete_at-Deleted :
      (portid : ℕ) (p : Ptr) (port : Port) (w : World S)
      → WorldOk w
      → holds p w.port_queue.items ≡ true
      → w.ports p ≡ some port
      → port.portid ≡ portid
      → (w' : World S) × (done : Bool) × (delete_at p w ≡ ok (w', done))
        × WorldOk w'
        × Deleted portid w w' done
  delete_at-Deleted portid p port w good held is num = elim (Bool-cases (in_use port)) [
    | inl e ↦ (w, false, rw (is, e), good, inl (refl, refl, refl))
    | inr e ↦ elim (extract_from_queue-without w.port_queue p) [
      | inl (gone, failed) ↦ cc
      | inr (q, there, taken, items, count) ↦ (
        record w { port_queue = q; ports = put w.ports p none },
        true,
        rw (is, e, taken),
        record {
          listed = rw items (Listed-without w.ports p w.port_queue.items good.listed);
          kept = kept-free w.ports p good.kept;
        },
        inr (
          p,
          port,
          refl,
          is,
          num,
          in_use-Idle port (good.kept p port is) e,
          rw (==_self p),
          items,
        ),
      )
    ]
  ]

  -- PORT_delete always returns and keeps the ports in order: it gives FALSE and deletes nothing, or
  -- the port of the number had no thread waiting and no transfer, is freed and leaves the queue.
  pub port_delete-Deleted :
      (portid : ℕ) (w : World S)
      → WorldOk w
      → (w' : World S) × (done : Bool) × (port_delete portid w ≡ ok (w', done))
        × WorldOk w'
        × Deleted portid w w' done
  unfolding port_delete
  port_delete-Deleted portid w good =
      let (w₁, p, is, good₁, ports, queue, located) = locate_port-Located portid w good in
      elim located [
        | inl (z, lacks) ↦
            let there : (p == a_nil) ≡ true = (==_iff p a_nil).1 z in
            (w₁, false, rw (is, there), good₁, inl (refl, ports, queue))
        | inr (nz, held, (port, what, num)) ↦
            let away : (p == a_nil) ≡ false = ==_ne p a_nil nz in
            let what' : w₁.ports p ≡ some port = ap (λ ps. ps p) ports ∙ what in
            let held' : holds p w₁.port_queue.items ≡ true = ap (holds p) queue ∙ held in
            let (w₂, done, is', good₂, deleted) =
              delete_at-Deleted portid p port w₁ good₁ held' what' num in
            (
              w₂,
              done,
              rw (is, away) is',
              good₂,
              elim deleted [
                | inl (d, ps, qs) ↦ inl (d, ps ∙ ports, qs ∙ queue)
                | inr (p', port', d, here, num', idle, freed, items) ↦ inr (
                  p',
                  port',
                  d,
                  sym (ap (λ ps. ps p') ports) ∙ here,
                  num',
                  idle,
                  freed,
                  items ∙ ap (without p') queue,
                )
              ],
            )
      ]
