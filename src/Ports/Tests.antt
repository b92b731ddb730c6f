-- ===== src/Ports/Tests.antt =====
-- Runs of Simulator/model/ports.c on a port with a thread that waits to receive.
use dimemas.Base.{
  ℕ, ◌≡◌, refl, ap, sym, ◌∙◌, subst, Bool-cases, inl, inr, ◌⊎◌, Bool, true, false, Option, none,
  some, List, [], ◌∷◌, ◌==◌, if◌then◌else◌, Outcome, ok, ◌>>=◌, panic, pos, arith,
}
use dimemas.Queue.{Ptr, null, out_fifo_queue, head_queue, empty_queue}
use dimemas.Queue.Emptying.{holds}
use dimemas.Ports.Base.{l_nil, Thread, Port, World, Modules, locate_port, locate_from}
use dimemas.Ports.Transfer.{really_port_send}
use dimemas.Ports.Operations.{sender, partners, own, exchange, port_delete, port_create}
use dimemas.Ports.Invariant.{PortOk, Lacks, WorldOk}
use dimemas.Ports.Rendezvous.{Ends, exchange-WorldOk}
use dimemas.Ports.Deletion.{Deleted, port_delete-Deleted}
use dimemas.Ports.Creation.{port_create-never}

-- Modules with links for all, a time of one unit for each byte, and no cost of starting.
abbrev free_links : Modules Unit
free_links = record {
  remote_port_startup = λ node. 0;
  local_port_startup = λ node. 0;
  get_port_links = λ s r w. ok (w, true);
  free_network_link = λ link th w. ok w;
  transferencia = λ size remote th w. size;
  event_timer = λ when th w. ok (w, when);
  thread_to_ready_return = λ th cost w. ok w;
  fs_general = λ value th w. ok w;
}

abbrev quiet_thread : Thread
quiet_thread = record {
  node = 1;
  startup_done = false;
  doing_startup = false;
  loose_cpu = false;
  size_port = 0;
  to_module = 3;
  port_send_link = l_nil;
  port_recv_link = l_nil;
  port = 0;
  event = 0;
  actions = [];
}

abbrev port_5 : Port
port_5 = record {
  portid = 5;
  creator = 7;
  send = record { items = []; curr = null; count = 0 };
  recv = record { items = record { order = tt; content = 7 } ∷ []; curr = null; count = 1 };
  sending = pos 0;
}

abbrev at_64 : Ptr → Option Port
at_64 p = if p == 64 then some port_5 else none

abbrev one_port : World Unit
one_port = record {
  current_time = 10;
  port_queue = record { items = record { order = tt; content = 64 } ∷ []; curr = null; count = 1 };
  ports = at_64;
  threads = λ th. quiet_thread;
  wait_outlink_port = λ node. [];
  wait_inlink_port = λ node. [];
  rest = tt;
}

port_5-PortOk : PortOk port_5
port_5-PortOk = record { senders = refl; receivers = refl; one_side = inl refl }

one_port-WorldOk : WorldOk one_port
one_port-WorldOk = record {
  listed = ((λ h. omega arith), (port_5, refl), refl, tt);
  kept = λ p port is. elim (Bool-cases (p == 64)) [
    | inl e ↦
        let here : some port_5 ≡ some port =
          sym (ap (λ b. if b then some port_5 else none) e) ∙ is in
        let same : port_5 ≡ port = cc in subst PortOk same port_5-PortOk
    | inr e ↦
        let gone : none ≡ some port = sym (ap (λ b. if b then some port_5 else none) e) ∙ is in cc
  ];
}

exchange-WorldOk_example :
    (Lacks one_port.ports 5 one_port.port_queue.items
      × ((w' : World Unit) × WorldOk w'
          × (w'.ports ≡ one_port.ports)
          × (exchange free_links sender 3 5 8 100 one_port ≡ ok (w', false))))
    ⊎ ((p : Ptr) × (port : Port) × (step : Outcome (World Unit)) × (one_port.ports p ≡ some port)
        × (port.portid ≡ 5)
        × Ends free_links sender p 8 (partners sender port).items (own sender port) step
        × (exchange free_links sender 3 5 8 100 one_port ≡ (step >>= (λ w'. ok (w', true)))))
exchange-WorldOk_example = exchange-WorldOk free_links sender 3 5 8 100 one_port one_port-WorldOk

-- The sender and the receiver are both given the time at which the transfer ends.
abbrev times : Outcome (World Unit × Bool) → List ℕ
times panic = []
times Outcome.undefined = []
times (ok (w, done)) = (w.threads 8).event ∷ (w.threads 7).event ∷ []

sent_together : times (exchange free_links sender 3 5 8 100 one_port) ≡ 110 ∷ 110 ∷ []
unfolding exchange locate_port locate_from really_port_send out_fifo_queue head_queue empty_queue
sent_together = refl

port_delete-Deleted_example :
    (w' : World Unit) × (done : Bool) × (port_delete 5 one_port ≡ ok (w', done))
    × WorldOk w'
    × Deleted 5 one_port w' done
port_delete-Deleted_example = port_delete-Deleted 5 one_port one_port-WorldOk

-- With the extra assertions a new number gives FALSE, and nothing is created.
port_create-never_example :
    ((port_create true 96 6 7 one_port ≡ panic)
      × ((p : Ptr) × (port : Port) × (holds p one_port.port_queue.items ≡ true)
          × (one_port.ports p ≡ some port)
          × (port.portid ≡ 6)))
    ⊎ ((w' : World Unit) × (port_create true 96 6 7 one_port ≡ ok (w', false))
        × (w'.ports ≡ one_port.ports)
        × (w'.port_queue.items ≡ one_port.port_queue.items))
port_create-never_example = port_create-never 96 6 7 one_port one_port-WorldOk
