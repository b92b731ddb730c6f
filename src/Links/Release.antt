-- ===== src/Links/Release.antt =====
-- Simulator/model/links.c: a thread gives a link back, and the threads that wait for one go on.
use dimemas.Base.{ℕ, Bool, true, false, ◌==◌, if◌then◌else◌, Outcome, ok, ◌>>=◌}
use dimemas.Queue.{Ptr, a_nil, Queue, in_fifo_queue, out_fifo_queue, extract_from_queue}
use dimemas.Graph.Act
use dimemas.Links.Base.{
  mpi_os, Dir, other, Owner, free, busy, waiting, with_free, with_busy, with_waiting, LinkThread,
  pair_of, LinkState, Wakers, on_owner, set_owner, on_thread, accumulate_link_wait_time,
}

-- A busy link becomes free.
unfoldable pub give_back : Dir → Ptr → Owner → Outcome Owner
give_back d link o =
    extract_from_queue (busy d o) link
    >>= (λ q. ok (with_busy d q (with_free d (in_fifo_queue tt (free d o) link) o)))

-- With half duplex links, so does its pair.
abbrev pub give_back_pair : Dir → Ptr → Owner → Outcome Owner
give_back_pair d pair o = if o.half_duplex then give_back (other d) pair o else ok o

-- The end of the wait of a thread.
abbrev pub resumed : ℕ → LinkThread → LinkThread
resumed now t =
    let t' = accumulate_link_wait_time now t in
    if t'.original_thread then record t' { last_paraver = now } else t'

module _ {S : Type 0} (w : Wakers S) where
  -- What a thread goes on with, where only machines wake threads of a global operation.
  abbrev pub go_on : Bool → Ptr → LinkState S → Outcome (LinkState S)
  go_on global_ops th s =
      let action = (s.threads th).action in
      if action == Act.send
      then w.really_send th s
      else if action == mpi_os
      then w.really_rma th s
      else if (if global_ops then action == Act.global_op else false)
      then w.global_op_reserva_links th s
      else ok s

  -- The first thread that waits for the direction, if any.
  abbrev pub wake_with : Bool → Dir → Ptr → Queue Unit × Ptr → LinkState S → Outcome (LinkState S)
  wake_with global_ops d owner (q, first) s =
      let s' = on_owner owner (with_waiting d q) s in
      if first == a_nil
      then ok s'
      else go_on global_ops first (on_thread first (resumed s.current_time) s')

  unfoldable pub wake_first : Bool → Dir → Ptr → LinkState S → Outcome (LinkState S)
  wake_first global_ops d owner s =
      wake_with global_ops d owner (out_fifo_queue (waiting d (s.owners owner))) s

  -- With half duplex links, a thread is woken for the other direction first.
  abbrev pub wake_pair : Bool → Dir → Ptr → LinkState S → Outcome (LinkState S)
  wake_pair global_ops d owner s =
      if (s.owners owner).half_duplex then wake_first global_ops (other d) owner s else ok s

  unfoldable pub free_link : Bool → Ptr → Ptr → LinkState S → Outcome (LinkState S)
  free_link global_ops link th s =
      let d = (s.links link).type in
      let owner = (s.links link).info in
      give_back d link (s.owners owner)
      >>= give_back_pair d (pair_of d (s.threads th))
      >>= (λ o. wake_pair global_ops d owner (set_owner owner o s))
      >>= wake_first global_ops d owner

  abbrev pub free_mem_link : Ptr → Ptr → LinkState S → Outcome (LinkState S)
  free_mem_link = free_link false

  abbrev pub free_wan_link : Ptr → Ptr → LinkState S → Outcome (LinkState S)
  free_wan_link = free_link true

  abbrev pub free_dedicated_connection_link : Ptr → Ptr → LinkState S → Outcome (LinkState S)
  free_dedicated_connection_link = free_link false

  abbrev pub free_acc_link : Ptr → Ptr → LinkState S → Outcome (LinkState S)
  free_acc_link = free_link false
