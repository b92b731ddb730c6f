-- ===== src/Links/Waking.antt =====
-- Simulator/model/links.c: a link that is given back stays with its owner, and which threads go on.
use dimemas.Base.{ℕ, ◌≡◌, ◌≢◌, ◌⊎◌, Bool, true, false, ◌==◌, ◌&&◌, if◌then◌else◌, Outcome, ok}
use dimemas.Queue.{Ptr, a_nil, Queue, out_fifo_queue}
use dimemas.Queue.Emptying.{holds}
use dimemas.Graph.Act
use dimemas.Links.Base.{mpi_os, Dir, other, busy, waiting, pair_of, LinkState, Wakers}
use dimemas.Links.Conserved.{Kept}

module _ {S : Type 0} (w : Wakers S) (global_ops : Bool) where
  -- What a woken thread does, by its action.
  abbrev pub continued : Ptr → ℕ → LinkState S → Outcome (LinkState S)
  continued th action s' =
      if action == Act.send
      then w.really_send th s'
      else if action == mpi_os
      then w.really_rma th s'
      else if (global_ops && (action == Act.global_op))
      then w.global_op_reserva_links th s'
      else ok s'

  -- The step wakes the first thread, if any, that waits at the owner for a link of the direction:
  -- in a state with the same links, where it is out of the queue, it goes on.
  abbrev pub Wakes : Dir → Ptr → LinkState S → Outcome (LinkState S) → Type 0
  Wakes d owner s step =
      let popped : Queue Unit × Ptr = out_fifo_queue (waiting d (s.owners owner)) in
      (s' : LinkState S) × Kept s s'
      × (waiting d (s'.owners owner) ≡ popped.0)
      × (((popped.1 ≡ a_nil) × (step ≡ ok s'))
          ⊎ ((popped.1 ≢ a_nil) × (step ≡ continued popped.1 (s'.threads popped.1).action s')))

-- A thread gives back a link of its own: it is busy, and so is its pair with half duplex links.
abbrev pub Holds : {S : Type 0} → Ptr → Ptr → LinkState S → Type 0
Holds link th s =
    let d = (s.links link).type in
    let o = s.owners (s.links link).info in
    let pair = pair_of d (s.threads th) in
    (link ≢ a_nil)
    × (holds link (busy d o).items ≡ true)
    × ((o.half_duplex ≡ false) ⊎ ((pair ≢ a_nil) × (holds pair (busy (other d) o).items ≡ true)))
