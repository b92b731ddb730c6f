-- ===== src/Deadlock/Tests.antt =====
-- Runs of Simulator/utils/deadlock_analysis.c on two tasks.
use dimemas.Base.{◌≡◌, refl, [], ◌∷◌, ok, ◌>>=◌, pos, arith}
use dimemas.Graph.Act
use dimemas.Graph.Base.{Graph, no_deps}
use dimemas.Graph.Search.{Search, absent, found}
use dimemas.Deadlock.Analysis.{Site, send_event, recv_event}
use dimemas.Deadlock.Crossed.{act, send_event-crossed, recv_event-crossed}

abbrev two_tasks : Graph
two_tasks = record { nodes = 2; graph_map = λ i. no_deps }

abbrev here : Site
here = record { fresh = 64; communicator = 0; offset = 0; fuel = 3 }

abbrev there : Site
there = record { fresh = 96; communicator = 0; offset = 8; fuel = 3 }

send_event-crossed_example :
    (h : Graph) × ((send_event here 0 (act Act.send 1 (pos 5) (pos 0)) two_tasks
        >>= (λ r. send_event there 1 (act Act.send 0 (pos 5) (pos 0)) r.0))
      ≡ ok (h, found (1 ∷ 0 ∷ 1 ∷ [])))
send_event-crossed_example =
    send_event-crossed two_tasks 0 1 (λ h. omega arith) (omega arith) (omega arith) refl refl
      (pos 5) (pos 0) here there 2 1 refl refl

recv_event-crossed_example :
    (h : Graph) × ((recv_event here 0 (act Act.recv 1 (pos 5) (pos 0)) two_tasks
        >>= (λ r. recv_event there 1 (act Act.recv 0 (pos 5) (pos 0)) r.0))
      ≡ ok (h, absent))
    × (h.graph_map 0 ≡ no_deps)
    × (h.graph_map 1 ≡ no_deps)
recv_event-crossed_example =
    recv_event-crossed two_tasks 0 1 (λ h. omega arith) (omega arith) (omega arith) refl refl
      (pos 5) (pos 0) here there 2 refl
