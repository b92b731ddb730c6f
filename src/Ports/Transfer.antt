-- ===== src/Ports/Transfer.antt =====
-- Simulator/model/ports.c: the transfer once two threads have met, and its end.
use dimemas.Base.{
  ℕ, ◌+◌, Bool, true, false, not, ◌||◌, List, [], ◌∷◌, ◌++◌, ◌==◌, if◌then◌else◌, Outcome, ok,
  panic, ◌>>=◌, inc, dec,
}
use dimemas.Queue.{Ptr, a_nil}
use dimemas.Ports.Base.{
  m_fs, port_send_action, port_recv_action, Link, l_nil, l_nul, link_at, PortAction, Thread, Both,
  World, Modules, put, set_port, on_thread, deref_in,
}

abbrev pub fs_port_send_end : ℕ
fs_port_send_end = 3

abbrev pub fs_port_recv_end : ℕ
fs_port_recv_end = 4

abbrev pub port_timer_out : ℕ
port_timer_out = 1

abbrev pub is_nil : Link → Bool
is_nil l_nil = true
is_nil l_nul = false
is_nil (link_at p) = false

abbrev pub is_nul : Link → Bool
is_nul l_nil = false
is_nul l_nul = true
is_nul (link_at p) = false

-- The action that the thread was on, if it is one of a port.
abbrev pub skip_port_action : List PortAction → List PortAction
skip_port_action [] = []
skip_port_action (a ∷ others) =
    if (a.action == port_send_action) || (a.action == port_recv_action) then others else a ∷ others

-- The end of a transfer for a thread: which of its links is given up tells the file system
-- whether it sent or received.
abbrev pub leave_port : Bool → Thread → Thread
leave_port true t = record t {
  port_send_link = l_nil;
  size_port = 0;
  to_module = 0;
  actions = skip_port_action t.actions;
}
leave_port false t = record t {
  port_recv_link = l_nil;
  size_port = 0;
  to_module = 0;
  actions = skip_port_action t.actions;
}

module _ {S : Type 0} where
  -- Without links, the pair waits at the node of the sender or, once it has the link out of it, at
  -- the node of the receiver.
  abbrev pub wait_for_links : Ptr → Ptr → Ptr → World S → World S
  wait_for_links p thread_s thread_r w =
      let both : Both = record { port = p; thread_s = thread_s; thread_r = thread_r } in
      let node_s = (w.threads thread_s).node in
      let node_r = (w.threads thread_r).node in
      if is_nil (w.threads thread_s).port_send_link
      then record w {
        wait_outlink_port =
            put w.wait_outlink_port node_s (w.wait_outlink_port node_s ++ both ∷ []);
      }
      else record w {
        wait_inlink_port = put w.wait_inlink_port node_r (w.wait_inlink_port node_r ++ both ∷ []);
      }

  -- `thread->port->sending--; thread->port = PO_NIL`
  abbrev pub end_sending : Ptr → World S → Outcome (World S)
  end_sending th w = deref_in (w.ports (w.threads th).port) >>= (λ port. ok (
      on_thread th (λ (t : Thread). record t { port = a_nil })
        (set_port (w.threads th).port (record port { sending = dec port.sending }) w)))

module _ {S : Type 0} (m : Modules S) where
  -- A timer for a thread of a transfer.
  abbrev pub set_timer : ℕ → Ptr → World S → Outcome (World S)
  set_timer when th w =
      m.event_timer when th w
      >>= (λ r. ok (on_thread th (λ (t : Thread). record t { event = r.1 }) r.0))

  abbrev pub start_transfer : Ptr → Ptr → Ptr → World S → Outcome (World S)
  start_transfer p thread_s thread_r w =
      let remote = not ((w.threads thread_s).node == (w.threads thread_r).node) in
      let when =
        w.current_time + m.transferencia (w.threads thread_s).size_port remote thread_s w in
      deref_in (w.ports p) >>= (λ port.
        set_timer when thread_s (
          on_thread thread_s (λ (t : Thread). record t { port = p })
            (set_port p (record port { sending = inc port.sending }) w))
        >>= set_timer when thread_r)

  abbrev pub with_links : Ptr → Ptr → Ptr → World S × Bool → Outcome (World S)
  with_links p thread_s thread_r (w, true) = start_transfer p thread_s thread_r w
  with_links p thread_s thread_r (w, false) = ok (wait_for_links p thread_s thread_r w)

  unfoldable pub really_port_send : Ptr → Ptr → Ptr → World S → Outcome (World S)
  really_port_send p thread_s thread_r w =
      m.get_port_links thread_s thread_r w >>= with_links p thread_s thread_r

  unfoldable pub port_to_next_module : Ptr → World S → Outcome (World S)
  port_to_next_module th w =
      let link = (w.threads th).port_send_link in
      let sent = not (is_nil link) || is_nul link in
      if (w.threads th).to_module == m_fs
      then m.fs_general (if sent then fs_port_send_end else fs_port_recv_end) th
          (on_thread th (leave_port sent) w)
      else panic

  unfoldable pub port_general : ℕ → Ptr → World S → Outcome (World S)
  port_general value th w =
      let t = w.threads th in
      if not (value == port_timer_out)
      then panic
      else if is_nul t.port_send_link
      then end_sending th w >>= port_to_next_module th
      else if is_nul t.port_recv_link
      then port_to_next_module th (on_thread th (λ (t' : Thread). record t' { port = a_nil }) w)
      else if is_nil t.port_recv_link
      then m.free_network_link t.port_send_link th w >>= end_sending th >>= port_to_next_module th
      else m.free_network_link t.port_recv_link th w >>= port_to_next_module th
