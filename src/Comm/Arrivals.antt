-- ===== src/Comm/Arrivals.antt =====
-- Simulator/model/communic.c: the arrivals of a receive and of a send at a site, for messages of MPI
-- and for the synchronization of threads.
use dimemas.Base.{
  ℕ, ◌≡◌, refl, ◌≢◌, inl, inr, Bool, true, none, All, ◌==◌, Outcome, ok, pos, eqz, eqz_self,
}
use dimemas.Graph.Act
use dimemas.Queue.{Ptr, a_nil}
use dimemas.Comm.Base.{SendDesc, RecvDesc, send_desc, recv_desc, CommThread, Site, CommState}
use dimemas.Comm.Posting.{
  Level, proper, sends, recvs, send_for, recv_for, is_rendez_vous, is_irecv, recv_site, send_site,
  recv_reached, send_reached,
}
use dimemas.Comm.Spec.{Pending, take_first, arrive, meet, rendez_vous_of, receive, send}
use dimemas.Comm.Order.{
  All-map, All-append, take_first-All, NoneMeet, receive-NoneMeet, send-NoneMeet, Option-pair,
}
use dimemas.Comm.Refinement.{StandsFor, post-Refines}

-- A send that waits at a site of the task is one to it.
abbrev pub SentOk : Level → ℕ → CommThread → Type 0
SentOk level task b =
    (m : SendDesc) × (b.desc ≡ send_desc m)
    × (proper level m.dest_thread ≡ true)
    × (eqz m.dest (pos task) ≡ true)

abbrev pub ReceivedOk : ℕ → CommThread → Type 0
ReceivedOk task b = (r : RecvDesc) × (b.desc ≡ recv_desc r) × (b.taskid ≡ task)

-- The sends and receives without a partner are those of the task, and none has its partner here.
pub record PendingOk (level : Level) (task : ℕ) (p : Pending) : Type 0 where
  pub sent : All (SentOk level task) p.sent
  pub received : All (ReceivedOk task) p.received
  pub alone : NoneMeet p

receive-PendingOk :
    (level : Level) (thread : CommThread) (mess : RecvDesc) (p : Pending)
    → thread.desc ≡ recv_desc mess
    → PendingOk level thread.taskid p
    → PendingOk level thread.taskid (receive thread p).0
unfolding arrive
receive-PendingOk level thread mess p is good =
    let test : CommThread → Bool = λ b. meet b thread in
    let alone = receive-NoneMeet thread p good.alone in
    elim (Option-pair (take_first test p.sent)) [
      | inr (b, rest, found) ↦
          let left =
            take_first-All (SentOk level thread.taskid) test p.sent b rest good.sent found in
          record { sent = rw found left.1; received = rw found good.received; alone = alone }
      | inl missed ↦ record {
        sent = rw missed good.sent;
        received = rw missed (
            All-append (ReceivedOk thread.taskid) p.received thread good.received (mess, is, refl));
        alone = alone;
      }
    ]

send-PendingOk :
    (level : Level) (task : ℕ) (thread : CommThread) (mess : SendDesc) (p : Pending)
    → thread.desc ≡ send_desc mess
    → proper level mess.dest_thread ≡ true
    → mess.dest ≡ pos task
    → PendingOk level task p
    → PendingOk level task (send thread p).0
unfolding arrive
send-PendingOk level task thread mess p is lv to good =
    let test : CommThread → Bool = λ b. meet thread b in
    let alone = send-NoneMeet thread p good.alone in
    elim (Option-pair (take_first test p.received)) [
      | inr (b, rest, found) ↦
          let left = take_first-All (ReceivedOk task) test p.received b rest good.received found in
          record { sent = rw found good.sent; received = rw found left.1; alone = alone }
      | inl missed ↦
          let to' : eqz mess.dest (pos task) ≡ true = rw to (eqz_self (pos task)) in
          record {
            sent =
                rw missed
                  (All-append (SentOk level task) p.sent thread good.sent (mess, is, lv, to'));
            received = rw missed good.received;
            alone = alone;
          }
    ]

-- The step does at the site what the matching promises, and leaves there only sends and receives
-- without a partner.
abbrev pub Arrives : Level → ℕ → Site → Outcome (CommState × Bool) → Pending × Bool → Type 0
Arrives level task site run result =
    (s' : CommState) × (run ≡ ok (s', result.1))
    × StandsFor site s' result.0
    × PendingOk level task result.0

-- The queues of the site stand for sends and receives of its task, no two of which meet, and the
-- message names a thread as its level asks. Then COMMUNIC_recv_reached returns: the first send
-- that meets the receive leaves the queue, and the result says whether it is a rendez-vous, or the
-- receive waits behind the others; again no send and receive there meet.
pub recv_reached-Arrives :
    (level : Level) (site : Site) (fresh : Ptr) (thread : CommThread) (mess : RecvDesc)
    (s : CommState) (p : Pending)
    → thread.desc ≡ recv_desc mess
    → proper level mess.ori_thread ≡ true
    → recv_site level thread mess ≡ ok site
    → StandsFor site s p
    → PendingOk level thread.taskid p
    → fresh ≢ a_nil
    → s.blocks fresh ≡ none
    → Arrives level thread.taskid site (recv_reached level fresh thread mess s) (receive thread p)
unfolding recv_reached
recv_reached-Arrives level site fresh thread mess s p is lv at stands good known free =
    let tests =
      All-map p.sent
        (λ b (m, of, proper_m, to).
          let run : send_for level thread mess b ≡ ok (meet b thread) =
            rw (of, proper_m, to, is) refl in
          run)
        good.sent in
    let answers =
      All-map p.sent
        (λ b (m, of, proper_m, to).
          let run : is_rendez_vous b ≡ ok (rendez_vous_of b.desc) = rw of refl in run)
        good.sent in
    let (s', run, stands') =
      post-Refines sends site fresh thread s (send_for level thread mess) is_rendez_vous
        (λ b. meet b thread) (λ (b : CommThread). rendez_vous_of b.desc) p stands known free tests
        answers in
    (s', rw (lv, at) run, stands', receive-PendingOk level thread mess p is good)

-- The queues of the site stand for sends and receives of its task, no two of which meet, and the
-- message names a thread as its level asks. Then COMMUNIC_send_reached returns: the first receive
-- that meets the send leaves the queue, and the result says whether it is an Irecv, or the send
-- waits behind the others; again no send and receive there meet.
pub send_reached-Arrives :
    (level : Level) (task : ℕ) (site : Site) (fresh : Ptr) (thread : CommThread) (mess : SendDesc)
    (s : CommState) (p : Pending)
    → thread.desc ≡ send_desc mess
    → proper level mess.dest_thread ≡ true
    → mess.dest ≡ pos task
    → send_site level mess s ≡ ok site
    → StandsFor site s p
    → PendingOk level task p
    → fresh ≢ a_nil
    → s.blocks fresh ≡ none
    → Arrives level task site (send_reached level fresh thread mess s) (send thread p)
unfolding send_reached
send_reached-Arrives level task site fresh thread mess s p is lv to at stands good known free =
    let tests =
      All-map p.received
        (λ b (r, of, here).
          let addressed : eqz (pos b.taskid) mess.dest ≡ true =
            rw (here, to) (eqz_self (pos task)) in
          let run : recv_for thread mess b ≡ ok (meet thread b) = rw (of, addressed, is) refl in
          run)
        good.received in
    let answers : All (λ b. is_irecv b ≡ ok (b.action == Act.irecv)) p.received =
      All-map p.received (λ b received. refl) good.received in
    let (s', run, stands') =
      post-Refines recvs site fresh thread s (recv_for thread mess) is_irecv (λ b. meet thread b)
        (λ (b : CommThread). b.action == Act.irecv) p stands known free tests answers in
    (s', rw (lv, at) run, stands', send-PendingOk level task thread mess p is lv to good)
