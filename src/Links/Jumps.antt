-- ===== src/Links/Jumps.antt =====
-- Simulator/model/links.c: the jumps of LINKS_get_mem_links, block by block.
use dimemas.Base.{
  ℕ, suc, ◌≡◌, refl, ap, sym, subst, ◌∙◌, ◌≢◌, ◌⊎◌, inl, inr, Bool, true, false, ◌&&◌, not, Option,
  some, Bool-cases, Outcome, ok,
}
use dimemas.Queue.{Ptr, a_nil}
use dimemas.Links.Base.{Dir, in_link, out_link, link_of, LinkState}
use dimemas.Links.Acquire.{
  second_src_link, first_dest, goto, reversed, mem_block, mem_from, mem_link_busy,
}
use dimemas.Links.Conserved.{StateOk, Kept, Kept-trans, Kept-refl}
use dimemas.Links.Granted.{Denied, mem_link_busy-Waits}
use dimemas.Links.Taking.{acquire-Asked}

-- A side has its link, or its node has enough of them.
abbrev pub HasLink : {S : Type 0} → Dir → Ptr → Ptr → LinkState S → Type 0
HasLink d th task s = (s.infinite_mem_links task ≡ true) ⊎ (link_of d (s.threads th) ≢ a_nil)

-- What LINKS_get_mem_links says: TRUE with both links, where the link of the sender is left out when
-- the receiver comes first and its node has an infinite number, or FALSE and the thread waits.
abbrev pub MemLinked : {S : Type 0} → Ptr → Ptr → Ptr → LinkState S → Bool → Type 0
MemLinked th src dst s got =
    ((got ≡ true)
      × HasLink in_link th dst s
      × (HasLink out_link th src s
          ⊎ ((reversed src dst s ≡ true) × (s.infinite_mem_links dst ≡ true))))
    ⊎ ((got ≡ false) × (Denied out_link th src s ⊎ Denied in_link th dst s))

module _ {S : Type 0} where
  abbrev pub Ended : Ptr → Ptr → Ptr → LinkState S → Outcome (Option (LinkState S × Bool)) → Type 0
  Ended th src dst s run =
      (s' : LinkState S) × (got : Bool) × (run ≡ ok (some (s', got)))
      × Kept s s'
      × MemLinked th src dst s' got

  pub reversed-Kept :
      (src dst : Ptr) (s s' : LinkState S) → Kept s s' → reversed src dst s' ≡ reversed src dst s
  reversed-Kept src dst s s' k =
      rw ((k.same src).duplex, (k.same dst).duplex, (k.same src).ident, (k.same dst).ident) refl

  pub infinite-Kept :
      (p : Ptr) (s s' : LinkState S) → Kept s s' → s'.infinite_mem_links p ≡ s.infinite_mem_links p
  infinite-Kept p s s' k = ap (λ f. f p) k.nodes

  -- The side of the receiver, as the second one.
  dest_end-Ended :
      (fuel th src dst : ℕ) (s : LinkState S)
      → StateOk s
      → reversed src dst s ≡ false
      → HasLink out_link th src s
      → Ended th src dst s (mem_from (suc fuel) th src dst (s, goto first_dest))
  unfolding mem_from mem_block
  dest_end-Ended fuel th src dst s good straight has =
      elim (Bool-cases (s.infinite_mem_links dst)) [
        | inl infinite ↦
            (s, true, rw infinite refl, Kept-refl s good, inl (refl, inl infinite, inl has))
        | inr finite ↦
            let (s', got, is, k, side, others) =
              acquire-Asked mem_link_busy mem_link_busy-Waits in_link th dst s good in
            let straight' = reversed-Kept src dst s s' k ∙ straight in
            let has' : HasLink out_link th src s' = elim has [
              | inl infinite ↦ inl (infinite-Kept src s s' k ∙ infinite)
              | inr there ↦ inr (λ gone. there (sym others ∙ gone))
            ] in
            elim side [
              | inr (failed, denied) ↦
                  (s', false, rw (finite, is, failed) refl, k, inr (refl, inr denied))
              | inl (won, there) ↦ (
                s',
                true,
                rw (finite, is, won, straight') refl,
                k,
                inl (refl, inr there, inl has'),
              )
            ]
      ]

  -- The side of the sender, as the second one.
  source_end-Ended :
      (fuel th src dst : ℕ) (s : LinkState S)
      → StateOk s
      → reversed src dst s ≡ true
      → s.infinite_mem_links src ≡ false
      → HasLink in_link th dst s
      → Ended th src dst s (mem_from (suc fuel) th src dst (s, goto second_src_link))
  unfolding mem_from mem_block
  source_end-Ended fuel th src dst s good back finite has =
      let (s', got, is, k, side, others) =
        acquire-Asked mem_link_busy mem_link_busy-Waits out_link th src s good in
      let back' = reversed-Kept src dst s s' k ∙ back in
      let has' : HasLink in_link th dst s' = elim has [
        | inl infinite ↦ inl (infinite-Kept dst s s' k ∙ infinite)
        | inr there ↦ inr (λ gone. there (sym others ∙ gone))
      ] in
      elim side [
        | inr (failed, denied) ↦
            (s', false, rw (finite, is, failed) refl, k, inr (refl, inl denied))
        | inl (won, there) ↦
            (s', true, rw (finite, is, won, back') refl, k, inl (refl, has', inl (inr there)))
      ]

  -- A run that goes on from a state that a step has kept.
  pub go_on-Ended :
      (th src dst : ℕ) (s s₁ : LinkState S) (run next : Outcome (Option (LinkState S × Bool)))
      → Kept s s₁
      → run ≡ next
      → Ended th src dst s₁ next
      → Ended th src dst s run
  go_on-Ended th src dst s s₁ run next k step (s', got, is, k', linked) =
      (s', got, step ∙ is, Kept-trans k k', linked)

  pub source_first-Ended :
      (fuel th src dst : ℕ) (s : LinkState S)
      → StateOk s
      → reversed src dst s ≡ false
      → Ended th src dst s (mem_from (suc (suc fuel)) th src dst (s, goto second_src_link))
  unfolding mem_from mem_block
  source_first-Ended fuel th src dst s good straight =
      let run = mem_from (suc (suc fuel)) th src dst (s, goto second_src_link) in
      elim (Bool-cases (s.infinite_mem_links src)) [
        | inl infinite ↦
            let next = dest_end-Ended fuel th src dst s good straight (inl infinite) in
            let step : run ≡ mem_from (suc fuel) th src dst (s, goto first_dest) =
              rw infinite refl in
            go_on-Ended th src dst s s run _ (Kept-refl s good) step next
        | inr finite ↦
            let (s₁, got, is, k, side, others) =
              acquire-Asked mem_link_busy mem_link_busy-Waits out_link th src s good in
            let straight' = reversed-Kept src dst s s₁ k ∙ straight in
            elim side [
              | inr (failed, denied) ↦
                  (s₁, false, rw (finite, is, failed) refl, k, inr (refl, inl denied))
              | inl (won, there) ↦
                  let next = dest_end-Ended fuel th src dst s₁ k.good straight' (inr there) in
                  let step : run ≡ mem_from (suc fuel) th src dst (s₁, goto first_dest) =
                    rw (finite, is, won, straight') refl in
                  go_on-Ended th src dst s s₁ run _ k step next
            ]
      ]

  pub dest_first-Ended :
      (fuel th src dst : ℕ) (s : LinkState S)
      → StateOk s
      → reversed src dst s ≡ true
      → (s.infinite_mem_links src && not (s.infinite_mem_links dst)) ≡ false
      → Ended th src dst s (mem_from (suc (suc fuel)) th src dst (s, goto first_dest))
  unfolding mem_from mem_block
  dest_first-Ended fuel th src dst s good back ends =
      let run = mem_from (suc (suc fuel)) th src dst (s, goto first_dest) in
      elim (Bool-cases (s.infinite_mem_links dst)) [
        | inl infinite ↦ (
          s,
          true,
          rw infinite refl,
          Kept-refl s good,
          inl (refl, inl infinite, inr (back, infinite)),
        )
        | inr finite ↦
            let (s₁, got, is, k, side, others) =
              acquire-Asked mem_link_busy mem_link_busy-Waits in_link th dst s good in
            let back' = reversed-Kept src dst s s₁ k ∙ back in
            let finite_src : s.infinite_mem_links src ≡ false =
              elim (Bool-cases (s.infinite_mem_links src)) [
                | inl infinite ↦
                    let both : (true && not false) ≡ false =
                      subst (λ b. (b && not false) ≡ false) infinite
                        (subst (λ b. (s.infinite_mem_links src && not b) ≡ false) finite ends) in
                    cc
                | inr f ↦ f
              ] in
            let finite' = infinite-Kept src s s₁ k ∙ finite_src in
            elim side [
              | inr (failed, denied) ↦
                  (s₁, false, rw (finite, is, failed) refl, k, inr (refl, inr denied))
              | inl (won, there) ↦
                  let next = source_end-Ended fuel th src dst s₁ k.good back' finite' (inr there) in
                  let step : run ≡ mem_from (suc fuel) th src dst (s₁, goto second_src_link) =
                    rw (finite, is, won, back') refl in
                  go_on-Ended th src dst s s₁ run _ k step next
            ]
      ]
