-- ===== src/Links/PortTests.antt =====
-- A run of the port links of Simulator/model/links.c between two nodes.
use dimemas.Base.{◌≡◌, refl, true, [], Outcome, ok, panic, arith}
use dimemas.Queue.{Ptr}
use dimemas.Ports.Base.{link_at}
use dimemas.Links.Base.{out_link, Dir, LinkState}
use dimemas.Links.Ports.{get_port_links, free_network_link, get_port_links-panic}
use dimemas.Links.Tests.{linked_state, quiet}

abbrev port_state : LinkState Unit
port_state = record (linked_state 0 0) {
  links = λ p. record { info = 1; type = out_link; assigned_on = 0 };
}

abbrev nothing_waits : Dir → Ptr → LinkState Unit → Outcome (LinkState Unit)
nothing_waits d node s = ok s

-- Thread 8 on node 1 sends to thread 9 on node 2.
get_port_links-panic_example :
    (s' : LinkState Unit) × (get_port_links 8 1 9 2 port_state ≡ (s', true))
    × ((s'.threads 8).port_send_link ≡ link_at 21)
    × (free_network_link quiet nothing_waits 21 8 s' ≡ panic)
get_port_links-panic_example =
    get_port_links-panic quiet nothing_waits 8 1 9 2 port_state
      (record { order = tt; content = 21 }) (record { order = tt; content = 11 }) [] []
      (λ h. omega arith) (λ h. omega arith) refl refl refl (λ h. omega arith) refl
      (λ h. omega arith) refl refl refl
