-- ===== src/Links/Base.antt =====
-- Simulator/model/links.c: the state of the links. The memory links of a task, the links of a
-- machine to the external network and those of a dedicated connection are kept in the same queues:
-- an `Owner` is any of the three. The threads have the fields that the links use, and the times
-- that they spend waiting, which stand in their current account.
use dimemas.Base.{ℕ, ◌-◌, ◌+◌, Bool, ◌||◌, ◌==◌, if◌then◌else◌, Outcome}
use dimemas.Queue.{Ptr, Queue}
use dimemas.Ports.Base.{Link}

abbrev pub mpi_os : ℕ
mpi_os = 13

abbrev pub communic_fifo : ℕ
communic_fifo = 0

abbrev pub communic_rr : ℕ
communic_rr = 1

abbrev pub communic_boost : ℕ
communic_boost = 2

-- IN_LINK and OUT_LINK.
pub data Dir : Type 0 where
  in_link out_link : Dir

abbrev pub other : Dir → Dir
other in_link = out_link
other out_link = in_link

pub record Owner : Type 0 where
  pub ident : ℕ
  pub policy : ℕ
  pub half_duplex : Bool
  pub free_in_links : Queue Unit
  pub free_out_links : Queue Unit
  pub busy_in_links : Queue Unit
  pub busy_out_links : Queue Unit
  pub th_for_in : Queue Unit
  pub th_for_out : Queue Unit

abbrev pub free : Dir → Owner → Queue Unit
free in_link o = o.free_in_links
free out_link o = o.free_out_links

abbrev pub busy : Dir → Owner → Queue Unit
busy in_link o = o.busy_in_links
busy out_link o = o.busy_out_links

abbrev pub waiting : Dir → Owner → Queue Unit
waiting in_link o = o.th_for_in
waiting out_link o = o.th_for_out

abbrev pub with_free : Dir → Queue Unit → Owner → Owner
with_free in_link q o = record o { free_in_links = q }
with_free out_link q o = record o { free_out_links = q }

abbrev pub with_busy : Dir → Queue Unit → Owner → Owner
with_busy in_link q o = record o { busy_in_links = q }
with_busy out_link q o = record o { busy_out_links = q }

abbrev pub with_waiting : Dir → Queue Unit → Owner → Owner
with_waiting in_link q o = record o { th_for_in = q }
with_waiting out_link q o = record o { th_for_out = q }

-- `struct t_link`; `info` points to its owner.
pub record LinkBlock : Type 0 where
  pub info : Ptr
  pub type : Dir
  pub assigned_on : ℕ

-- `policy` is that of the machine of the node, and `action` that of the thread's front action.
pub record LinkThread : Type 0 where
  pub policy : ℕ
  pub action : ℕ
  pub local_link : Ptr
  pub partner_link : Ptr
  pub local_hd_link : Ptr
  pub partner_hd_link : Ptr
  pub port_send_link : Link
  pub port_recv_link : Link
  pub original_thread : Bool
  pub last_paraver : ℕ
  pub initial_wait_link_time : ℕ
  pub block_due_link : ℕ

-- A sender holds links out of its own side and into the partner's, each with its pair where the
-- links are half duplex.
abbrev pub link_of : Dir → LinkThread → Ptr
link_of in_link t = t.partner_link
link_of out_link t = t.local_link

abbrev pub pair_of : Dir → LinkThread → Ptr
pair_of in_link t = t.partner_hd_link
pair_of out_link t = t.local_hd_link

abbrev pub with_link : Dir → Ptr → LinkThread → LinkThread
with_link in_link p t = record t { partner_link = p }
with_link out_link p t = record t { local_link = p }

abbrev pub with_pair : Dir → Ptr → LinkThread → LinkThread
with_pair in_link p t = record t { partner_hd_link = p }
with_pair out_link p t = record t { local_hd_link = p }

-- The ends of a dedicated connection.
pub record Ends : Type 0 where
  pub source_id : ℕ
  pub destination_id : ℕ

-- `rest` is the state of the other modules.
pub record LinkState (S : Type 0) : Type 0 where
  pub current_time : ℕ
  pub owners : Ptr → Owner
  pub links : Ptr → LinkBlock
  pub threads : Ptr → LinkThread
  pub connections : Ptr → Ends
  pub infinite_mem_links : Ptr → Bool
  pub rest : S

-- What the links call when a thread gets its turn.
pub record Wakers (S : Type 0) : Type 0 where
  pub really_send : Ptr → LinkState S → Outcome (LinkState S)
  pub really_rma : Ptr → LinkState S → Outcome (LinkState S)
  pub global_op_reserva_links : Ptr → LinkState S → Outcome (LinkState S)

abbrev pub change_at {ℓ} : {A : Type ℓ} → Ptr → (A → A) → (Ptr → A) → Ptr → A
change_at p change m q = if q == p then change (m p) else m q

module _ {S : Type 0} where
  abbrev pub on_owner : Ptr → (Owner → Owner) → LinkState S → LinkState S
  on_owner p change s = record s { owners = change_at p change s.owners }

  abbrev pub set_owner : Ptr → Owner → LinkState S → LinkState S
  set_owner p o = on_owner p (λ old. o)

  abbrev pub on_thread : Ptr → (LinkThread → LinkThread) → LinkState S → LinkState S
  on_thread th change s = record s { threads = change_at th change s.threads }

  abbrev pub assign_time : Ptr → LinkState S → LinkState S
  assign_time link s = record s {
    links = change_at link (λ (b : LinkBlock). record b { assigned_on = s.current_time }) s.links;
  }

  -- START_LINK_WAIT_TIME
  abbrev pub start_link_wait_time : Ptr → LinkState S → LinkState S
  start_link_wait_time th s =
      on_thread th (λ (t : LinkThread). record t { initial_wait_link_time = s.current_time }) s

-- ACCUMULATE_LINK_WAIT_TIME; the clock is not behind the start of the wait.
abbrev pub accumulate_link_wait_time : ℕ → LinkThread → LinkThread
accumulate_link_wait_time now t = if t.initial_wait_link_time == 0 then t else record t {
  block_due_link = (now - t.initial_wait_link_time) + t.block_due_link;
  initial_wait_link_time = 0;
}

abbrev pub known_policy : ℕ → Bool
known_policy p = (p == communic_fifo) || (p == communic_rr) || (p == communic_boost)
