-- ===== src/Links/Memory.antt =====
-- Simulator/model/links.c: LINKS_get_mem_links, from its first jump to its last, if there is one.
use dimemas.Base.{
  ℕ, zero, suc, ◌≡◌, refl, sym, subst, ◌∙◌, ◌≢◌, inl, inr, Bool, true, false, ◌&&◌, not, none, ◌==◌,
  ==_ne, Bool-cases, Outcome, ok,
}
use dimemas.Queue.{a_nil}
use dimemas.Links.Base.{in_link, LinkState}
use dimemas.Links.Acquire.{
  second_src_link, first_dest, goto, acquire, reversed, mem_block, mem_from, get_mem_links,
  mem_link_busy,
}
use dimemas.Links.Conserved.{StateOk, Kept-refl}
use dimemas.Links.Granted.{mem_link_busy-Waits}
use dimemas.Links.Taking.{acquire-Asked}
use dimemas.Links.Jumps.{
  Ended, reversed-Kept, infinite-Kept, go_on-Ended, source_first-Ended, dest_first-Ended,
}

module _ {S : Type 0} where
  -- When the policies are known and half duplex links are free in pairs, the jumps of
  -- LINKS_get_mem_links between two tasks end after two blocks at most, unless the receiver comes
  -- first and only the node of the sender has an infinite number of links. The links of every
  -- owner are kept, and the thread waits as the last for one, or it has the link of each side
  -- whose node has a finite number; that of the sender is left out when the receiver comes first
  -- and its node has an infinite number.
  pub get_mem_links-Ended :
      (fuel th src dst : ℕ) (s : LinkState S)
      → StateOk s
      → (s.owners src).ident ≢ (s.owners dst).ident
      → (reversed src dst s && (s.infinite_mem_links src && not (s.infinite_mem_links dst))) ≡ false
      → Ended th src dst s (get_mem_links (suc (suc fuel)) th src dst s)
  unfolding get_mem_links
  get_mem_links-Ended fuel th src dst s good two ends =
      let apart = ==_ne (s.owners src).ident (s.owners dst).ident two in
      let run = get_mem_links (suc (suc fuel)) th src dst s in
      elim (Bool-cases (reversed src dst s)) [
        | inl back ↦
            let spared =
              subst
                (λ b. (b && (s.infinite_mem_links src && not (s.infinite_mem_links dst))) ≡ false)
                back ends in
            let step : run ≡ mem_from (suc (suc fuel)) th src dst (s, goto first_dest) =
              rw (apart, back) refl in
            go_on-Ended th src dst s s run _ (Kept-refl s good) step
              (dest_first-Ended fuel th src dst s good back spared)
        | inr straight ↦
            let step : run ≡ mem_from (suc (suc fuel)) th src dst (s, goto second_src_link) =
              rw (apart, straight) refl in
            go_on-Ended th src dst s s run _ (Kept-refl s good) step
              (source_first-Ended fuel th src dst s good straight)
      ]

  -- The two blocks jump to one another while the thread has the link of the receiver.
  round_and_round :
      (fuel th src dst : ℕ) (s : LinkState S)
      → reversed src dst s ≡ true
      → s.infinite_mem_links src ≡ true
      → s.infinite_mem_links dst ≡ false
      → ((s.threads th).partner_link == a_nil) ≡ false
      → (mem_from fuel th src dst (s, goto first_dest) ≡ ok none)
        × (mem_from fuel th src dst (s, goto second_src_link) ≡ ok none)
  unfolding mem_from mem_block acquire
  round_and_round zero th src dst s back infinite finite has = (refl, refl)
  round_and_round (suc fuel) th src dst s back infinite finite has =
      let (at_dest, at_source) = round_and_round fuel th src dst s back infinite finite has in
      (rw (finite, has, back) at_source, rw infinite at_dest)

  -- When the policies are known and half duplex links are free in pairs, the receiver comes first
  -- and only the node of the sender has an infinite number of links, LINKS_get_mem_links between
  -- two tasks never returns once the thread gets, or has, the link of the receiver: however many
  -- blocks run, it is between two of them.
  pub get_mem_links-never :
      (fuel th src dst : ℕ) (s : LinkState S)
      → StateOk s
      → (s.owners src).ident ≢ (s.owners dst).ident
      → reversed src dst s ≡ true
      → s.infinite_mem_links src ≡ true
      → s.infinite_mem_links dst ≡ false
      → (s' : LinkState S) → acquire mem_link_busy in_link th dst s ≡ ok (s', true)
      → get_mem_links fuel th src dst s ≡ ok none
  unfolding get_mem_links mem_from mem_block
  get_mem_links-never zero th src dst s good two back infinite finite s' gets =
      let apart = ==_ne (s.owners src).ident (s.owners dst).ident two in rw apart refl
  get_mem_links-never (suc fuel) th src dst s good two back infinite finite s' gets =
      let apart = ==_ne (s.owners src).ident (s.owners dst).ident two in
      let (s₁, got, is, k, side, others) =
        acquire-Asked mem_link_busy mem_link_busy-Waits in_link th dst s good in
      let both : Path (Outcome (LinkState S × Bool)) (ok (s₁, got)) (ok (s', true)) =
        sym is ∙ gets in
      let won : got ≡ true = cc in
      let back' = reversed-Kept src dst s s₁ k ∙ back in
      elim side [
        | inr (failed, denied) ↦ cc
        | inl (given, there) ↦
            let has = ==_ne (s₁.threads th).partner_link a_nil there in
            let (at_dest, at_source) =
              round_and_round fuel th src dst s₁ back' (infinite-Kept src s s₁ k ∙ infinite)
                (infinite-Kept dst s s₁ k ∙ finite) has in
            rw (apart, back, finite, is, won, back') at_source
      ]
