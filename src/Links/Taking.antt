-- ===== src/Links/Taking.antt =====
-- Simulator/model/links.c: every way in which a thread asks for one link.
use dimemas.Base.{
  ◌≡◌, refl, sym, subst, ◌∙◌, ◌≢◌, inl, inr, Bool, true, false, [], ◌==◌, ==_iff, ==_self, ==_ne,
  Bool-cases, Outcome, ok,
}
use dimemas.Queue.{Ptr, a_nil}
use dimemas.Links.Base.{
  Dir, other, Owner, free, link_of, with_pair, LinkState, set_owner, on_thread,
}
use dimemas.Links.Acquire.{move_first, assign, acquire, acquire_first, acquire_pair, wait_in_queue}
use dimemas.Links.Conserved.{
  OwnerOk, StateOk, Kept, Kept-trans, Kept-refl, on_owner-Kept, on_thread-Kept, SameLinks,
  SameLinks-refl, SameLinks-trans, Taken,
}
use dimemas.Links.Moves.{move_first-Taken}
use dimemas.Links.Pairs.{single-OwnerOk, pair-OwnerOk, move_pair-Taken}
use dimemas.Links.Granted.{
  Side, Waits, wait_in_queue-Kept, wait_in_queue-Side, wait_in_queue-others, assign-Kept,
  link_of-with_link, others-with_link, link_of-with_pair, policy-with_pair,
}

module _ {S : Type 0} where
  -- A step for the direction of a thread returns, keeps the links, gives the thread a link or makes
  -- it wait, and leaves the link of the other direction with it.
  abbrev pub Asked : Dir → Ptr → Ptr → LinkState S → Outcome (LinkState S × Bool) → Type 0
  Asked d th owner s step =
      (s' : LinkState S) × (got : Bool) × (step ≡ ok (s', got))
      × Kept s s'
      × Side d th owner s' got
      × (link_of (other d) (s'.threads th) ≡ link_of (other d) (s.threads th))

  assign-Asked :
      (d : Dir) (th owner link : Ptr) (o : Owner) (s : LinkState S)
      → StateOk s
      → link ≢ a_nil
      → OwnerOk o
      → SameLinks (s.owners owner) o
      → Asked d th owner s (ok (assign d th owner link o s, true))
  assign-Asked d th owner link o s good there fine same = (
    assign d th owner link o s,
    true,
    refl,
    assign-Kept d th owner link o s good fine same,
    inl (
      refl,
      λ gone. there (sym (rw (==_self th) (link_of-with_link d link (s.threads th))) ∙ gone),
    ),
    rw (==_self th) (others-with_link d link (s.threads th)),
  )

  pair-Asked :
      (d : Dir) (th owner link : Ptr) (o₁ : Owner) (s : LinkState S)
      → StateOk s
      → link ≢ a_nil
      → (s.owners owner).half_duplex ≡ true
      → Taken d (s.owners owner) o₁
      → Asked d th owner s (acquire_pair d th owner link (move_first (other d) o₁) s)
  pair-Asked d th owner link o₁ s good there half first =
      let o = s.owners owner in
      let (o₂, pair, found, known, second) =
        move_pair-Taken d o o₁ (good.owners owner) half first in
      let away : (pair == a_nil) ≡ false = ==_ne pair a_nil known in
      let s₁ = on_thread th (with_pair d pair) s in
      let k₁ =
        on_thread-Kept s th (with_pair d pair) good (policy-with_pair d pair (s.threads th)) in
      let (s', got, is, k₂, side, others) =
        assign-Asked d th owner link o₂ s₁ k₁.good there
          (pair-OwnerOk d o o₁ o₂ (good.owners owner) first second)
          (SameLinks-trans o o₁ o₂ first.same second.same) in
      (
        s',
        got,
        rw (found, away) is,
        Kept-trans k₁ k₂,
        side,
        others ∙ rw (==_self th) (link_of-with_pair d (other d) pair (s.threads th)),
      )

  wait-Asked :
      (link_busy : Dir → Ptr → Ptr → LinkState S → Outcome (LinkState S))
      → Waits link_busy
      → (d : Dir) (th owner : Ptr) (s : LinkState S) → StateOk s
      → link_of d (s.threads th) ≡ a_nil
      → (free d (s.owners owner)).items ≡ []
      → Asked d th owner s (acquire_first link_busy d th owner (s.owners owner, a_nil) s)
  wait-Asked link_busy waits d th owner s good lacks empty =
      let s₁ = set_owner owner (s.owners owner) s in
      let k₁ =
        on_owner-Kept s owner (λ old. s.owners owner) good (good.owners owner)
          (SameLinks-refl (s.owners owner)) in
      let empty₁ : (free d (s₁.owners owner)).items ≡ [] = rw (==_self owner) empty in
      (
        wait_in_queue d th owner s₁,
        false,
        rw (waits d th owner s₁ k₁.good) refl,
        Kept-trans k₁ (wait_in_queue-Kept d th owner s₁ k₁.good),
        wait_in_queue-Side d th owner s₁ lacks empty₁,
        wait_in_queue-others d (other d) th owner s₁,
      )

  -- The thread has a link of the direction, or a free one becomes its own with its pair, or it waits.
  pub acquire-Asked :
      (link_busy : Dir → Ptr → Ptr → LinkState S → Outcome (LinkState S))
      → Waits link_busy
      → (d : Dir) (th owner : Ptr) (s : LinkState S) → StateOk s
      → Asked d th owner s (acquire link_busy d th owner s)
  unfolding acquire
  acquire-Asked link_busy waits d th owner s good =
      elim (Bool-cases (link_of d (s.threads th) == a_nil)) [
        | inr has ↦ (
          s,
          true,
          rw has refl,
          Kept-refl s good,
          inl (refl, λ gone. let is = (==_iff (link_of d (s.threads th)) a_nil).1 gone in cc),
          refl,
        )
        | inl lacks ↦ elim (move_first-Taken d (s.owners owner) (good.owners owner).known) [
          | inl (none_free, empty) ↦
              let without = (==_iff (link_of d (s.threads th)) a_nil).0 lacks in
              let step : acquire link_busy d th owner s
                  ≡ acquire_first link_busy d th owner (s.owners owner, a_nil) s =
                rw (lacks, none_free) refl in
              subst (Asked d th owner s) (sym step)
                (wait-Asked link_busy waits d th owner s good without empty)
          | inr (o₁, link, found, there, taken) ↦
              let away : (link == a_nil) ≡ false = ==_ne link a_nil there in
              elim (Bool-cases (s.owners owner).half_duplex) [
                | inl half ↦
                    let step : acquire link_busy d th owner s
                        ≡ acquire_pair d th owner link (move_first (other d) o₁) s =
                      rw (lacks, found, away, taken.duplex, half) refl in
                    subst (Asked d th owner s) (sym step)
                      (pair-Asked d th owner link o₁ s good there half taken)
                | inr single ↦
                    let step : acquire link_busy d th owner s
                        ≡ ok (assign d th owner link o₁ s, true) =
                      rw (lacks, found, away, taken.duplex, single) refl in
                    let fine =
                      single-OwnerOk d (s.owners owner) o₁ (good.owners owner) single taken in
                    subst (Asked d th owner s) (sym step)
                      (assign-Asked d th owner link o₁ s good there fine taken.same)
              ]
        ]
      ]
