-- ===== src/Ports/Base.antt =====
-- Simulator/model/ports.c: the state of the ports, the fields of the threads that they use, and the
-- modules that they call. `ports p` is the port at the address `p`, if one is allocated there. A
-- pair that waits for links (`struct t_both`) stands in the list of its node.
use dimemas.Base.{
  ℕ, suc, Bool, Option, none, some, List, [], ◌∷◌, ◌==◌, if◌then◌else◌, Outcome, ok, undefined,
  ◌>>=◌, ℤ,
}
use dimemas.Queue.{Ptr, a_nil, Item, Cursor, null, at, Queue}

abbrev pub m_fs : ℕ
m_fs = 3

abbrev pub m_port : ℕ
m_port = 5

abbrev pub port_send_action : ℕ
port_send_action = 8

abbrev pub port_recv_action : ℕ
port_recv_action = 9

-- A pointer to a link: `L_NIL`, `L_NUL` for one that needs no link, or the address of one.
pub data Link : Type 0 where
  l_nil l_nul : Link
  link_at : Ptr → Link

-- The fields of a `struct t_action` for a port, or of any other kind.
pub record PortAction : Type 0 where
  pub action : ℕ
  pub portid : ℕ
  pub size : ℕ
  pub to_module : ℕ

pub record Thread : Type 0 where
  pub node : Ptr
  pub startup_done : Bool
  pub doing_startup : Bool
  pub loose_cpu : Bool
  pub size_port : ℕ
  pub to_module : ℕ
  pub port_send_link : Link
  pub port_recv_link : Link
  pub port : Ptr
  pub event : Ptr
  pub actions : List PortAction

-- `struct t_port`
pub record Port : Type 0 where
  pub portid : ℕ
  pub creator : Ptr
  pub send : Queue Unit
  pub recv : Queue Unit
  pub sending : ℤ

-- `struct t_both`
pub record Both : Type 0 where
  pub port : Ptr
  pub thread_s : Ptr
  pub thread_r : Ptr

-- `rest` is the state of the other modules.
pub record World (S : Type 0) : Type 0 where
  pub current_time : ℕ
  pub port_queue : Queue Unit
  pub ports : Ptr → Option Port
  pub threads : Ptr → Thread
  pub wait_outlink_port : Ptr → List Both
  pub wait_inlink_port : Ptr → List Both
  pub rest : S

-- What the ports call: the costs of a node, LINKS_get_port_links and LINKS_free_network_link,
-- `transferencia` (the time of a transfer of a size, to another node or not), EVENT_timer for
-- M_PORT, SCHEDULER_thread_to_ready_return and FS_general.
pub record Modules (S : Type 0) : Type 0 where
  pub remote_port_startup : Ptr → ℕ
  pub local_port_startup : Ptr → ℕ
  pub get_port_links : Ptr → Ptr → World S → Outcome (World S × Bool)
  pub free_network_link : Link → Ptr → World S → Outcome (World S)
  pub transferencia : ℕ → Bool → Ptr → World S → ℕ
  pub event_timer : ℕ → Ptr → World S → Outcome (World S × Ptr)
  pub thread_to_ready_return : Ptr → ℕ → World S → Outcome (World S)
  pub fs_general : ℕ → Ptr → World S → Outcome (World S)

abbrev pub put {ℓ} : {A : Type ℓ} → (Ptr → A) → Ptr → A → Ptr → A
put m p a q = if q == p then a else m q

-- The port that a pointer leads to.
abbrev pub deref_in : Option Port → Outcome Port
deref_in none = undefined
deref_in (some port) = ok port

-- The loop of `locate_port`, with the place of the item and its content.
unfoldable pub locate_from : (Ptr → Option Port) → ℕ → ℕ → List (Item Unit) → Outcome (Cursor × Ptr)
locate_from ports portid i [] = ok (null, a_nil)
locate_from ports portid i (x ∷ xs) =
    let rest = locate_from ports portid (suc i) xs in
    if x.content == a_nil
    then ok (at i, a_nil)
    else deref_in (ports x.content)
      >>= (λ port. if port.portid == portid then ok (at i, x.content) else rest)

module _ {S : Type 0} where
  abbrev pub set_port : Ptr → Port → World S → World S
  set_port p port w = record w { ports = put w.ports p (some port) }

  abbrev pub on_thread : Ptr → (Thread → Thread) → World S → World S
  on_thread th change w = record w { threads = put w.threads th (change (w.threads th)) }

  abbrev pub located : World S → Cursor × Ptr → Outcome (World S × Ptr)
  located w (curr, p) = ok (record w { port_queue = record w.port_queue { curr = curr } }, p)

  unfoldable pub locate_port : ℕ → World S → Outcome (World S × Ptr)
  locate_port portid w = locate_from w.ports portid 0 w.port_queue.items >>= located w
