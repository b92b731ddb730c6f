-- ===== src/Comm/Refinement.antt =====
-- Simulator/model/communic.c: COMMUNIC_recv_reached and COMMUNIC_send_reached do on the queues of a
-- site what the matching promises of the lists that they stand for.
use dimemas.Base.{
  ◌≡◌, refl, ap, sym, subst, ◌≢◌, inl, inr, Bool, true, none, ==_self, ==_ne, Outcome, ok,
}
use dimemas.Queue.{Ptr, a_nil, Queue}
use dimemas.Queue.Emptying.{extract_from_queue-without}
use dimemas.Comm.Base.{
  CommThread, Mailbox, Site, of_task, of_thread, same_site, CommState, set_block, set_box,
}
use dimemas.Comm.Posting.{
  Kind, sends, recvs, opposite, unmatched, with_unmatched, looked, left_waiting, post,
}
use dimemas.Comm.Spec.{Pending, pending, arrive}
use dimemas.Comm.Listed.{Tests, Found, find_from-Search}
use dimemas.Comm.Boxes.{BoxFor, looked-BoxFor, removed-BoxFor, appended-BoxFor}
use dimemas.Comm.Order.{take_first-All}

-- The queues of a site stand for these sends and receives.
abbrev pub StandsFor : Site → CommState → Pending → Type 0
StandsFor site s p = BoxFor s.blocks (s.boxes site) p

same_site_self : (site : Site) → same_site site site ≡ true
same_site_self (of_task t) = ==_self t
same_site_self (of_thread t n) = rw (==_self t, ==_self n) refl

unmatched-with_unmatched :
    (k : Kind) (q : Queue Unit) (box : Mailbox) → unmatched k (with_unmatched k q box) ≡ q
unmatched-with_unmatched sends q box = refl
unmatched-with_unmatched recvs q box = refl

unmatched-opposite :
    (k : Kind) (q : Queue Unit) (box : Mailbox)
    → unmatched (opposite k) (with_unmatched k q box) ≡ unmatched (opposite k) box
unmatched-opposite sends q box = refl
unmatched-opposite recvs q box = refl

-- A run that returns and leaves the site with what is promised.
abbrev pub Refines : Site → Outcome (CommState × Bool) → Pending × Bool → Type 0
Refines site run (p, res) = (s' : CommState) × (run ≡ ok (s', res)) × StandsFor site s' p

module _ (k : Kind) (site : Site) (fresh : Ptr) (thread : CommThread) (s : CommState) where
  pub post-Refines :
      (test answer : CommThread → Outcome Bool) (pure said : CommThread → Bool) (p : Pending)
      → StandsFor site s p
      → fresh ≢ a_nil
      → s.blocks fresh ≡ none
      → Tests test pure (pending k p)
      → Tests answer said (pending k p)
      → Refines site (post k site test answer fresh thread s) (arrive k pure said thread p)
  unfolding post arrive
  post-Refines test answer pure said p good known free tests answers =
      let box = s.boxes site in
      elim (find_from-Search test pure s.blocks 0 (unmatched k box).items (pending k p)
        (good.listed k) tests) [
          | inl (c, run, result) ↦
              let good₁ = looked-BoxFor k c s.blocks box p good in
              let box₁ = with_unmatched k (record (unmatched k box) { curr = c }) box in
              let good₂ =
                appended-BoxFor (opposite k) s.blocks box₁ p fresh thread good₁ known free in
              rw (run, result)
                (
                  left_waiting (opposite k) site fresh thread (looked k site c s),
                  refl,
                  rw (same_site_self site) good₂,
                )
          | inr (c, a, b, rest, run, result, found) ↦
              let looked_at : Queue Unit = record (unmatched k box) { curr = c } in
              let box₁ = with_unmatched k looked_at box in
              let good₁ = looked-BoxFor k c s.blocks box p good in
              let same : unmatched k box₁ ≡ looked_at = unmatched-with_unmatched k looked_at box in
              let items = ap (λ (q : Queue Unit). q.items) same in
              let found₁ = subst (λ xs. Found s.blocks xs a b rest) (sym items) found in
              let away = ==_ne a a_nil found.known in
              let says =
                (take_first-All (λ x. answer x ≡ ok (said x)) pure (pending k p) b rest answers
                  result).0 in
              elim (extract_from_queue-without (unmatched k box₁) a) [
                | inl (gone, failed) ↦ let held = found₁.held in cc
                | inr (q, held, taken, less, count) ↦
                    let good₂ = removed-BoxFor k s.blocks box₁ p a b rest q good₁ found₁ less in
                    rw (run, result, away, found.is, says, same_site_self site, taken)
                      (
                        set_block a none
                            (set_box site (with_unmatched k q box₁) (looked k site c s)),
                        refl,
                        rw (same_site_self site) good₂,
                      )
              ]
        ]
