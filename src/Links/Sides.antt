-- ===== src/Links/Sides.antt =====
-- Simulator/model/links.c: the functions that ask for a link on the side of the sender and on that
-- of the receiver.
use dimemas.Base.{
  ◌≡◌, refl, sym, ◌∙◌, ◌≢◌, ◌⊎◌, inl, inr, Bool, true, false, ◌&&◌, ltb, Bool-cases, Outcome, ok,
}
use dimemas.Queue.{Ptr, a_nil}
use dimemas.Links.Base.{Dir, in_link, out_link, LinkState}
use dimemas.Links.Acquire.{
  acquire, and_then, reversed, machine_link_busy, connection_link_busy, get_wan_links,
  get_dedicated_connection_links,
}
use dimemas.Links.Conserved.{StateOk, Kept, Kept-trans}
use dimemas.Links.Granted.{Denied, Waits, machine_link_busy-Waits, connection_link_busy-Waits}
use dimemas.Links.Taking.{acquire-Asked}

-- The thread has both links, or it waits for one of them.
abbrev pub Linked : {S : Type 0} → Ptr → Ptr → Ptr → LinkState S → Bool → Type 0
Linked th src dst s got =
    ((got ≡ true) × ((s.threads th).local_link ≢ a_nil) × ((s.threads th).partner_link ≢ a_nil))
    ⊎ ((got ≡ false) × (Denied out_link th src s ⊎ Denied in_link th dst s))

abbrev Busy : Type 0 → Type 0
Busy S = Dir → Ptr → Ptr → LinkState S → Outcome (LinkState S)

module _ {S : Type 0} where
  -- The step returns, keeps the links, and gives the thread both links or makes it wait.
  abbrev pub Returned : Ptr → Ptr → Ptr → LinkState S → Outcome (LinkState S × Bool) → Type 0
  Returned th src dst s step =
      (s' : LinkState S) × (got : Bool) × (step ≡ ok (s', got))
      × Kept s s'
      × Linked th src dst s' got

  pub out_then_in-Returned :
      (link_busy : Busy S)
      → Waits link_busy
      → (th src dst : Ptr) (s : LinkState S) → StateOk s
      → Returned th src dst s
          (and_then (acquire link_busy out_link th src s) (acquire link_busy in_link th dst))
  out_then_in-Returned link_busy waits th src dst s good =
      let (s₁, got, is, k₁, side, others) = acquire-Asked link_busy waits out_link th src s good in
      elim side [
        | inr (failed, denied) ↦ (s₁, false, rw (is, failed) refl, k₁, inr (refl, inl denied))
        | inl (won, there) ↦
            let (s₂, got₂, is₂, k₂, side₂, others₂) =
              acquire-Asked link_busy waits in_link th dst s₁ k₁.good in
            (
              s₂,
              got₂,
              rw (is, won) is₂,
              Kept-trans k₁ k₂,
              elim side₂ [
                | inr (failed, denied) ↦ inr (failed, inr denied)
                | inl (won₂, there₂) ↦ inl (won₂, (λ gone. there (sym others₂ ∙ gone)), there₂)
              ],
            )
      ]

  pub in_then_out-Returned :
      (link_busy : Busy S)
      → Waits link_busy
      → (th src dst : Ptr) (s : LinkState S) → StateOk s
      → Returned th src dst s
          (and_then (acquire link_busy in_link th dst s) (acquire link_busy out_link th src))
  in_then_out-Returned link_busy waits th src dst s good =
      let (s₁, got, is, k₁, side, others) = acquire-Asked link_busy waits in_link th dst s good in
      elim side [
        | inr (failed, denied) ↦ (s₁, false, rw (is, failed) refl, k₁, inr (refl, inr denied))
        | inl (won, there) ↦
            let (s₂, got₂, is₂, k₂, side₂, others₂) =
              acquire-Asked link_busy waits out_link th src s₁ k₁.good in
            (
              s₂,
              got₂,
              rw (is, won) is₂,
              Kept-trans k₁ k₂,
              elim side₂ [
                | inr (failed, denied) ↦ inr (failed, inl denied)
                | inl (won₂, there₂) ↦ inl (won₂, there₂, λ gone. there (sym others₂ ∙ gone))
              ],
            )
      ]

  -- When the policies are known and half duplex links are free in pairs, LINKS_get_wan_links
  -- returns, in whichever order it takes the sides, with this and the links of every owner kept:
  -- the thread has a link out of the one machine and one into the other, or it is the last that
  -- waits at a machine where no link is free.
  pub get_wan_links-Returned :
      (th s_machine d_machine : Ptr) (s : LinkState S)
      → StateOk s
      → Returned th s_machine d_machine s (get_wan_links th s_machine d_machine s)
  unfolding get_wan_links
  get_wan_links-Returned th src dst s good = elim (Bool-cases (reversed src dst s)) [
    | inl back ↦
        let step =
          in_then_out-Returned machine_link_busy machine_link_busy-Waits th src dst s good in
        rw back step
    | inr straight ↦
        let step =
          out_then_in-Returned machine_link_busy machine_link_busy-Waits th src dst s good in
        rw straight step
  ]

  -- So does LINKS_get_dedicated_connection_links on the two directions of a connection.
  pub get_dedicated_connection_links-Returned :
      (th c : Ptr) (s : LinkState S)
      → StateOk s
      → Returned th c c s (get_dedicated_connection_links th c s)
  unfolding get_dedicated_connection_links
  get_dedicated_connection_links-Returned th c s good =
      elim (Bool-cases (
        (s.owners c).half_duplex
        && ltb (s.connections c).destination_id (s.connections c).source_id)) [
          | inl back ↦
              let step =
                in_then_out-Returned connection_link_busy connection_link_busy-Waits th c c s
                  good in
              rw back step
          | inr straight ↦
              let step =
                out_then_in-Returned connection_link_busy connection_link_busy-Waits th c c s
                  good in
              rw straight step
        ]
