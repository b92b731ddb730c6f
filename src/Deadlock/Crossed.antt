-- ===== src/Deadlock/Crossed.antt =====
-- Simulator/utils/deadlock_analysis.c: two tasks that block on each other. The kinds of actions of
-- define.h are numbers in a row, and graph.c compares them as if each were a bit of its own.
use dimemas.Base.{
  ℕ, suc, ◌<◌, ◌≡◌, ◌≢◌, true, false, none, some, [], ◌∷◌, ltb, ◌==◌, ==_self, arith, ok, ◌>>=◌, ℤ,
  pos, eqz_self,
}
use dimemas.Graph.Act
use dimemas.Graph.Base.{
  strg_dep, soft_dep, soft_action_resolved, Action, Dependency, Graph, no_deps, write,
  new_dependency, insert_dep, graph_add_dependency, graph_remove_dependency, unlink,
}
use dimemas.Graph.Search.{
  absent, found, first_dependency, graph_get_dependency, all_dependencies, graph_get_dependencies,
  look_along, look_from, graph_look_for_cycle,
}
use dimemas.Deadlock.Analysis.{Site, block_on, send_event, recv_event}

-- A blocking action on a task, with a message.
abbrev pub act : ℕ → ℕ → ℤ → ℤ → Action
act kind to tag communic_id = record {
  action = kind;
  partner = to;
  mess_tag = tag;
  communic_id = communic_id;
  rendez_vous = true;
  glop_id = 0;
}

-- A task with no dependency answers every query with NULL.
empty_query :
    (g : Graph) (from : ℕ) (to : ℤ) (type action : ℕ) (tag communic_id : ℤ)
    → from < g.nodes
    → g.graph_map from ≡ no_deps
    → graph_get_dependency from to type action tag communic_id g ≡ ok none
unfolding graph_get_dependency first_dependency
empty_query g from to type action tag communic_id low free =
    let inside : ltb from g.nodes ≡ true = ground arith in rw (inside, free)

empty_queries :
    (g : Graph) (from : ℕ) (to : ℤ) (type action : ℕ) (tag communic_id : ℤ)
    → from < g.nodes
    → g.graph_map from ≡ no_deps
    → graph_get_dependencies from to type action tag communic_id g ≡ ok []
unfolding graph_get_dependencies all_dependencies
empty_queries g from to type action tag communic_id low free =
    let inside : ltb from g.nodes ≡ true = ground arith in rw (inside, free)

module _ (g : Graph) (a b : ℕ) (apart : a ≢ b) (low_a : a < g.nodes) (low_b : b < g.nodes)
    (free_a : g.graph_map a ≡ no_deps) (free_b : g.graph_map b ≡ no_deps)
    (tag communic_id : ℤ) where
  -- The graph once `a` waits for `b`.
  abbrev pub waiting : Site → ℕ → Graph
  waiting site kind = record g {
    graph_map = write g.graph_map a (record {
      deps =
          new_dependency site.fresh a b strg_dep (act kind b tag communic_id) site.communicator
            site.offset
          ∷ [];
      num_deps = 1;
    });
  }

  within_a : ltb a g.nodes ≡ true
  within_a = ground arith

  within_b : ltb b g.nodes ≡ true
  within_b = ground arith

  -- The blocked task adds its dependency, and the search stops at a task that waits for none.
  first_blocks :
      (site : Site) (kind n : ℕ)
      → site.fuel ≡ suc n
      → block_on site a b (act kind b tag communic_id) g ≡ ok (waiting site kind, absent)
  unfolding block_on graph_add_dependency insert_dep graph_look_for_cycle look_along look_from
  first_blocks site kind n enough =
      let off : (b == a) ≡ false = ground arith in
      rw (within_a, free_a, ==_self a, enough, off, within_b, free_b, within_a)

  first_recv :
      (site : Site) (n : ℕ)
      → site.fuel ≡ suc n
      → recv_event site a (act Act.recv b tag communic_id) g ≡ ok (waiting site Act.recv, absent)
  unfolding recv_event block_on
  first_recv site n enough =
      rw
        (
          empty_query g b (pos a) strg_dep Act.send tag communic_id low_b free_b,
          empty_query g b (pos a) soft_dep soft_action_resolved tag communic_id low_b free_b,
        )
        (first_blocks site Act.recv n enough)

  abbrev blocked_dep : Site → ℕ → Dependency
  blocked_dep site kind =
      new_dependency site.fresh a b strg_dep (act kind b tag communic_id) site.communicator
        site.offset

  -- The query of the other task for a strong dependency on it.
  recv-met :
      (site : Site)
      → graph_get_dependency a (pos b) strg_dep Act.send tag communic_id (waiting site Act.recv)
        ≡ ok (some (blocked_dep site Act.recv))
  unfolding graph_get_dependency first_dependency
  recv-met site = rw (within_a, ==_self a, ==_self b, eqz_self tag, eqz_self communic_id)

  send-met :
      (site : Site)
      → graph_get_dependency a (pos b) strg_dep 15 tag communic_id (waiting site Act.send)
        ≡ ok (some (blocked_dep site Act.send))
  unfolding graph_get_dependency first_dependency
  send-met site = rw (within_a, ==_self a, ==_self b, eqz_self tag, eqz_self communic_id)

  send-soft :
      (site : Site)
      → graph_get_dependencies a (pos b) soft_dep Act.irecv tag communic_id (waiting site Act.send)
        ≡ ok []
  unfolding graph_get_dependencies all_dependencies
  send-soft site = rw (within_a, ==_self a, ==_self b)

  second_recv :
      (site site' : Site)
      → (h : Graph) × (recv_event site' b (act Act.recv a tag communic_id) (waiting site Act.recv)
          ≡ ok (h, absent))
        × (h.graph_map a ≡ no_deps)
        × (h.graph_map b ≡ no_deps)
  unfolding recv_event graph_remove_dependency unlink
  second_recv site site' =
      let off : (b == a) ≡ false = ground arith in
      let first = waiting site Act.recv in
      (
        record first { graph_map = write first.graph_map a no_deps },
        rw (recv-met site) (rw (==_self a, ==_self site.fresh)),
        rw (==_self a),
        rw (off) free_b,
      )

  -- The graph once both wait for each other.
  abbrev crossed : Site → Site → ℕ → Graph
  crossed site site' kind = record (waiting site kind) {
    graph_map = write (waiting site kind).graph_map b (record {
      deps =
          new_dependency site'.fresh b a strg_dep (act kind a tag communic_id) site'.communicator
            site'.offset
          ∷ [];
      num_deps = 1;
    });
  }

  crossed-found :
      (site site' : Site) (kind n : ℕ)
      → graph_look_for_cycle (crossed site site' kind) (suc (suc n)) b ≡ found (b ∷ a ∷ b ∷ [])
  unfolding graph_look_for_cycle look_along look_from
  crossed-found site site' kind n =
      let off : (a == b) ≡ false = ground arith in
      rw (within_b, ==_self b, off, within_a, ==_self a, ==_self b)

  second_blocks :
      (site site' : Site) (kind n : ℕ)
      → site'.fuel ≡ suc (suc n)
      → block_on site' b a (act kind a tag communic_id) (waiting site kind)
        ≡ ok (crossed site site' kind, found (b ∷ a ∷ b ∷ []))
  unfolding block_on graph_add_dependency insert_dep
  second_blocks site site' kind n enough =
      let off : (b == a) ≡ false = ground arith in
      rw (within_b, off, free_b, enough, crossed-found site site' kind n)

  second_send :
      (site site' : Site) (n : ℕ)
      → site'.fuel ≡ suc (suc n)
      → send_event site' b (act Act.send a tag communic_id) (waiting site Act.send)
        ≡ ok (crossed site site' Act.send, found (b ∷ a ∷ b ∷ []))
  unfolding send_event block_on
  second_send site site' n enough =
      rw (send-met site, send-soft site) (second_blocks site site' Act.send n enough)

  first_send :
      (site : Site) (n : ℕ)
      → site.fuel ≡ suc n
      → send_event site a (act Act.send b tag communic_id) g ≡ ok (waiting site Act.send, absent)
  unfolding send_event block_on
  first_send site n enough =
      rw
        (
          empty_query g b (pos a) strg_dep 15 tag communic_id low_b free_b,
          empty_queries g b (pos a) soft_dep Act.irecv tag communic_id low_b free_b,
        )
        (first_blocks site Act.send n enough)

  -- Two tasks that wait for nothing and that send to each other with the same tag and communicator,
  -- both blocking until the message is received: the second call finds the cycle of the two.
  pub send_event-crossed :
      (site site' : Site) (n n' : ℕ)
      → site.fuel ≡ suc n
      → site'.fuel ≡ suc (suc n')
      → (h : Graph) × ((send_event site a (act Act.send b tag communic_id) g
            >>= (λ r. send_event site' b (act Act.send a tag communic_id) r.0))
          ≡ ok (h, found (b ∷ a ∷ b ∷ [])))
  send_event-crossed site site' n n' enough enough' = (
    crossed site site' Act.send,
    rw (first_send site n enough) (second_send site site' n' enough'),
  )

  -- Two tasks that wait for nothing and that receive from each other with the same tag and
  -- communicator: the second call takes the first task's receive for a send, drops its dependency,
  -- and finds no cycle.
  pub recv_event-crossed :
      (site site' : Site) (n : ℕ)
      → site.fuel ≡ suc n
      → (h : Graph) × ((recv_event site a (act Act.recv b tag communic_id) g
            >>= (λ r. recv_event site' b (act Act.recv a tag communic_id) r.0))
          ≡ ok (h, absent))
        × (h.graph_map a ≡ no_deps)
        × (h.graph_map b ≡ no_deps)
  recv_event-crossed site site' n enough =
      let (h, is, clear_a, clear_b) = second_recv site site' in
      (h, rw (first_recv site n enough) is, clear_a, clear_b)
