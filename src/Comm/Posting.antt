-- ===== src/Comm/Posting.antt =====
-- Simulator/model/communic.c: a thread reaches a send or a receive, COMMUNIC_send_reached and
-- COMMUNIC_recv_reached, each for a message of MPI and for the synchronization of two threads.
use dimemas.Base.{
  Bool, false, not, none, some, ◌==◌, if◌then◌else◌, Outcome, ok, ◌>>=◌, ℤ, pos, eqz, minus_one,
}
use dimemas.Queue.{Ptr, a_nil, Cursor, Queue, in_fifo_queue, extract_from_queue}
use dimemas.Graph.Act
use dimemas.Comm.Base.{
  SendDesc, RecvDesc, as_send, as_recv, CommThread, Mailbox, Site, of_task, of_thread, CommState,
  set_box, set_block, block_at, assert_that, locate_task, locate_thread_of_task, meets, find_from,
}

pub data Level : Type 0 where
  real_mpi dependency : Level

-- A message of MPI names no thread, one between threads does.
abbrev pub proper : Level → ℤ → Bool
proper real_mpi thread = eqz thread minus_one
proper dependency thread = not (eqz thread minus_one)

-- The two queues of a site, of the sends without a receive and of the receives without a send.
pub data Kind : Type 0 where
  sends recvs : Kind

abbrev pub opposite : Kind → Kind
opposite sends = recvs
opposite recvs = sends

abbrev pub unmatched : Kind → Mailbox → Queue Unit
unmatched sends box = box.send_without_recv
unmatched recvs box = box.recv_without_send

abbrev pub with_unmatched : Kind → Queue Unit → Mailbox → Mailbox
with_unmatched sends q box = record box { send_without_recv = q }
with_unmatched recvs q box = record box { recv_without_send = q }

-- The partner leaves its queue, and its copy of the thread is freed; what it says of the wait of the
-- other is the result. Without a partner, a copy of the thread is put into the own queue.
abbrev pub paired :
    Kind → Site → (CommThread → Outcome Bool) → Ptr → CommState → Outcome (CommState × Bool)
paired kind site answer p s = block_at (s.blocks p) >>= answer >>= (λ res.
    extract_from_queue (unmatched kind (s.boxes site)) p
    >>= (λ q. ok (set_block p none (set_box site (with_unmatched kind q (s.boxes site)) s), res)))

abbrev pub left_waiting : Kind → Site → Ptr → CommThread → CommState → CommState
left_waiting kind site fresh thread s =
    let box = s.boxes site in
    set_box site (with_unmatched kind (in_fifo_queue tt (unmatched kind box) fresh) box)
      (set_block fresh (some thread) s)

abbrev pub looked : Kind → Site → Cursor → CommState → CommState
looked kind site c s =
    let box = s.boxes site in
    set_box site (with_unmatched kind (record (unmatched kind box) { curr = c }) box) s

unfoldable pub post :
    Kind
    → Site
    → (CommThread → Outcome Bool)
    → (CommThread → Outcome Bool)
    → Ptr
    → CommThread
    → CommState
    → Outcome (CommState × Bool)
post kind site test answer fresh thread s =
    find_from test s.blocks 0 (unmatched kind (s.boxes site)).items >>= (λ r.
      if r.1 == a_nil
      then ok (left_waiting (opposite kind) site fresh thread (looked kind site r.0 s), false)
      else paired kind site answer r.1 (looked kind site r.0 s))

-- The tests of the two searches, with their assertions.
abbrev pub send_for : Level → CommThread → RecvDesc → CommThread → Outcome Bool
send_for level thread mess partner = do
  m ← as_send partner.desc
  a ← assert_that (proper level m.dest_thread)
  b ← assert_that (eqz m.dest (pos thread.taskid))
  ok (meets partner m thread mess)

abbrev pub recv_for : CommThread → SendDesc → CommThread → Outcome Bool
recv_for thread mess partner = do
  r ← as_recv partner.desc
  a ← assert_that (eqz (pos partner.taskid) mess.dest)
  ok (meets thread mess partner r)

-- Whether a send waits for the receive, and whether a receive does not wait for the send.
abbrev pub is_rendez_vous : CommThread → Outcome Bool
is_rendez_vous partner = as_send partner.desc >>= (λ m. ok m.rendez_vous)

abbrev pub is_irecv : CommThread → Outcome Bool
is_irecv partner = ok (partner.action == Act.irecv)

abbrev pub recv_site : Level → CommThread → RecvDesc → Outcome Site
recv_site real_mpi thread mess = ok (of_task thread.taskid)
recv_site dependency thread mess =
    assert_that (eqz mess.ori (pos thread.taskid))
    >>= (λ a. ok (of_thread thread.taskid thread.threadid))

abbrev pub send_site : Level → SendDesc → CommState → Outcome Site
send_site real_mpi mess s = locate_task mess.dest s >>= (λ dest. ok (of_task dest))
send_site dependency mess s =
    locate_task mess.dest s
    >>= (λ dest. locate_thread_of_task dest mess.dest_thread s >>= (λ n. ok (of_thread dest n)))

unfoldable pub recv_reached :
    Level → Ptr → CommThread → RecvDesc → CommState → Outcome (CommState × Bool)
recv_reached level fresh thread mess s = do
  a ← assert_that (proper level mess.ori_thread)
  site ← recv_site level thread mess
  post sends site (send_for level thread mess) is_rendez_vous fresh thread s

unfoldable pub send_reached :
    Level → Ptr → CommThread → SendDesc → CommState → Outcome (CommState × Bool)
send_reached level fresh thread mess s = do
  a ← assert_that (proper level mess.dest_thread)
  site ← send_site level mess s
  post recvs site (recv_for thread mess) is_irecv fresh thread s
