-- ===== src/Ports/Operations.antt =====
-- Simulator/model/ports.c: PORT_create, PORT_delete, PORT_send and PORT_receive. The last two are
-- one function of the side on which the thread stands. Their result is the C Boolean.
use dimemas.Base.{
  ℕ, Bool, true, false, not, ◌&&◌, ◌||◌, none, some, ◌∷◌, ◌==◌, if◌then◌else◌, Outcome, ok, panic,
  ◌>>=◌, pos, eqz,
}
use dimemas.Queue.{
  Ptr, a_nil, Queue, create_queue, in_fifo_queue, out_fifo_queue, empty_queue, head_queue,
  extract_from_queue,
}
use dimemas.Ports.Base.{
  port_send_action, port_recv_action, l_nil, Thread, Port, World, Modules, put, set_port, on_thread,
  deref_in, locate_port,
}
use dimemas.Ports.Transfer.{really_port_send}

pub data Side : Type 0 where
  sender receiver : Side

-- The queue of the threads that wait on the side, and the one on the other side.
abbrev pub own : Side → Port → Queue Unit
own sender port = port.send
own receiver port = port.recv

abbrev pub partners : Side → Port → Queue Unit
partners sender port = port.recv
partners receiver port = port.send

abbrev pub with_own : Side → Queue Unit → Port → Port
with_own sender q port = record port { send = q }
with_own receiver q port = record port { recv = q }

abbrev pub with_partners : Side → Queue Unit → Port → Port
with_partners sender q port = record port { recv = q }
with_partners receiver q port = record port { send = q }

abbrev pub action_of : Side → ℕ
action_of sender = port_send_action
action_of receiver = port_recv_action

-- PORT_delete refuses a port in use.
abbrev pub in_use : Port → Bool
in_use port =
    not (empty_queue port.send) || not (empty_queue port.recv) || not (eqz port.sending (pos 0))

-- `head_queue`, which looks at the first partner, moves the cursor of the queue.
abbrev pub looked : Side → Port → Port
looked side port =
    if empty_queue (partners side port)
    then port
    else with_partners side (head_queue (partners side port)).0 port

abbrev pub entered : ℕ → ℕ → Thread → Thread
entered to_module siz t = record t {
  startup_done = false;
  loose_cpu = true;
  size_port = siz;
  to_module = to_module;
}

abbrev pub no_links : Thread → Thread
no_links t = record t { port_send_link = l_nil; port_recv_link = l_nil }

module _ {S : Type 0} where
  -- PORT_create. With `extra_assert` a port of the number fails the assertion, and none gives FALSE.
  abbrev pub new_port : Ptr → ℕ → Ptr → World S → World S × Bool
  new_port fresh portid creator w = (
    record w {
      ports = put w.ports fresh (
          some (record {
            portid = portid;
            creator = creator;
            send = create_queue;
            recv = create_queue;
            sending = pos 0;
          }));
      port_queue = in_fifo_queue tt w.port_queue fresh;
    },
    true,
  )

  unfoldable pub port_create : Bool → Ptr → ℕ → Ptr → World S → Outcome (World S × Bool)
  port_create extra_assert fresh portid creator w =
      if extra_assert
      then (locate_port portid w >>= (λ r. if r.1 == a_nil then ok (r.0, false) else panic))
      else ok (new_port fresh portid creator w)

  abbrev pub delete_at : Ptr → World S → Outcome (World S × Bool)
  delete_at p w = deref_in (w.ports p) >>= (λ port.
      if in_use port
      then ok (w, false)
      else (extract_from_queue w.port_queue p
          >>= (λ q. ok (record w { port_queue = q; ports = put w.ports p none }, true))))

  unfoldable pub port_delete : ℕ → World S → Outcome (World S × Bool)
  port_delete portid w =
      locate_port portid w >>= (λ r. if r.1 == a_nil then ok (r.0, false) else delete_at r.1 r.0)

-- The action is put back, to come again behind the time of its start.
abbrev pub put_back : Side → ℕ → ℕ → ℕ → Thread → Thread
put_back side to_module portid siz t = record t {
  actions =
      record { action = action_of side; portid = portid; size = siz; to_module = to_module }
      ∷ t.actions;
  doing_startup = true;
}

abbrev pub starting : {S : Type 0} → Side → ℕ → ℕ → Ptr → ℕ → World S → World S
starting side to_module portid th siz = on_thread th (put_back side to_module portid siz)

module _ {S : Type 0} (m : Modules S) where
  -- The cost of starting, for a partner on the same node or on another one.
  abbrev pub startup : Side → Ptr → Port → World S → ℕ
  startup side th port w =
      let node = (w.threads th).node in
      if empty_queue (partners side port)
      then m.remote_port_startup node
      else if node == (w.threads (head_queue (partners side port)).1).node
      then m.local_port_startup node
      else m.remote_port_startup node

  abbrev pub do_startup : Side → ℕ → ℕ → Ptr → ℕ → ℕ → World S → Outcome (World S)
  do_startup side to_module portid th siz cost w =
      m.thread_to_ready_return th cost (starting side to_module portid th siz w)

  abbrev pub in_order : Side → Ptr → Ptr → Ptr → World S → Outcome (World S)
  in_order sender p th partner = really_port_send m p th partner
  in_order receiver p th partner = really_port_send m p partner th

  -- A thread with no partner waits, else the first partner is taken.
  abbrev pub meet : Side → Ptr → Ptr → Port → World S → Outcome (World S)
  meet side p th port w =
      let rest = (out_fifo_queue (partners side port)).0 in
      let partner = (out_fifo_queue (partners side port)).1 in
      if empty_queue (partners side port)
      then ok (set_port p (with_own side (in_fifo_queue tt (own side port) th) port) w)
      else in_order side p th partner (
          on_thread partner no_links
            (on_thread th no_links (set_port p (with_partners side rest port) w)))

  abbrev pub exchange_at : Side → ℕ → ℕ → Ptr → Ptr → ℕ → Port → World S → Outcome (World S)
  exchange_at side to_module portid p th siz port w =
      let cost = startup side th port w in
      let w' = set_port p (looked side port) w in
      if not (cost == 0) && not (w.threads th).startup_done
      then do_startup side to_module portid th siz cost w'
      else meet side p th (looked side port) (on_thread th (entered to_module siz) w')

  unfoldable pub exchange : Side → ℕ → ℕ → Ptr → ℕ → World S → Outcome (World S × Bool)
  exchange side to_module portid th siz w = locate_port portid w >>= (λ r.
      if r.1 == a_nil
      then ok (r.0, false)
      else (deref_in (r.0.ports r.1)
          >>= (λ port. exchange_at side to_module portid r.1 th siz port r.0)
          >>= (λ w'. ok (w', true))))

  abbrev pub port_send : ℕ → ℕ → Ptr → ℕ → World S → Outcome (World S × Bool)
  port_send = exchange sender

  abbrev pub port_receive : ℕ → ℕ → Ptr → ℕ → World S → Outcome (World S × Bool)
  port_receive = exchange receiver
