-- ===== src/Graph/Tests.antt =====
-- Runs of the operations of Simulator/utils/graph.c on a ring of three tasks.
use dimemas.Base.{
  ℕ, zero, suc, ◌+◌, ◌<◌, ◌≡◌, refl, subst, inl, inr, ◌⊎◌, true, List, [], ◌∷◌, ok, pos, arith,
  get_elem?,
}
use dimemas.Graph.Act
use dimemas.Graph.Base.{
  strg_dep, soft_dep, Action, Dependency, DependencyQueue, Graph, no_deps, new_dependency,
  graph_add_dependency, graph_remove_dependency,
}
use dimemas.Graph.Search.{
  found, graph_look_for_cycle, look_along, look_from, graph_get_dependency, graph_get_dependencies,
}
use dimemas.Graph.Visit.{Cycle, Counted, InMap, Ranked}
use dimemas.Graph.Cycle.{Decides, graph_look_for_cycle-Decides, graph_look_for_cycle-found}
use dimemas.Graph.Order.{GraphOk}
use dimemas.Graph.Update.{
  added, Leaves, graph_add_dependency-GraphOk, graph_remove_dependency-GraphOk,
}
use dimemas.Graph.Lookup.{graph_get_dependency-first}

abbrev rendezvous : ℕ → Action
rendezvous to = record {
  action = Act.send;
  partner = to;
  mess_tag = pos 7;
  communic_id = pos 0;
  rendez_vous = true;
  glop_id = 0;
}

abbrev waits_for : ℕ → ℕ → DependencyQueue
waits_for from to = record {
  deps = new_dependency (100 + from) from to strg_dep (rendezvous to) 0 0 ∷ [];
  num_deps = 1;
}

abbrev ring_map : ℕ → DependencyQueue
ring_map zero = waits_for 0 1
ring_map (suc zero) = waits_for 1 2
ring_map (suc (suc zero)) = waits_for 2 0
ring_map (suc (suc (suc i))) = no_deps

abbrev ring : Graph
ring = record { nodes = 3; graph_map = ring_map }

ring-found : graph_look_for_cycle ring 3 0 ≡ found (0 ∷ 1 ∷ 2 ∷ 0 ∷ [])
unfolding graph_look_for_cycle look_along look_from
ring-found = refl

ring-Counted : Counted ring
ring-Counted zero = refl
ring-Counted (suc zero) = refl
ring-Counted (suc (suc zero)) = refl
ring-Counted (suc (suc (suc i))) = refl

ring-InMap : InMap ring
ring-InMap zero to (inl (b, e)) = omega arith
ring-InMap (suc zero) to (inl (b, e)) = omega arith
ring-InMap (suc (suc zero)) to (inl (b, e)) = omega arith
ring-InMap zero to (inr arc) = elim arc [ ]
ring-InMap (suc zero) to (inr arc) = elim arc [ ]
ring-InMap (suc (suc zero)) to (inr arc) = elim arc [ ]
ring-InMap (suc (suc (suc i))) to arc = absurd arc

abbrev ring_rank : ℕ → ℕ
ring_rank zero = 0
ring_rank (suc zero) = 2
ring_rank (suc (suc zero)) = 1
ring_rank (suc (suc (suc i))) = 0

ring-Ranked : Ranked ring 0 ring_rank
ring-Ranked zero to other arc = absurd (other refl)
ring-Ranked (suc zero) to other (inl (b, e)) = subst (λ t. ring_rank t < 2) e (omega arith)
ring-Ranked (suc (suc zero)) to other (inl (b, e)) = subst (λ t. ring_rank t < 1) e (omega arith)
ring-Ranked (suc zero) to other (inr arc) = elim arc [ ]
ring-Ranked (suc (suc zero)) to other (inr arc) = elim arc [ ]
ring-Ranked (suc (suc (suc i))) to other arc = absurd arc

ring_rank-low : (i : ℕ) → ring_rank i < 3
ring_rank-low zero = omega arith
ring_rank-low (suc zero) = omega arith
ring_rank-low (suc (suc zero)) = omega arith
ring_rank-low (suc (suc (suc i))) = omega arith

graph_look_for_cycle-Decides_example : Decides ring 0 (graph_look_for_cycle ring 3 0)
graph_look_for_cycle-Decides_example =
    graph_look_for_cycle-Decides ring 0 ring-Counted ring-InMap ring_rank ring-Ranked 3
      ring_rank-low (omega arith)

graph_look_for_cycle-found_example : Cycle ring 0 (0 ∷ 1 ∷ 2 ∷ 0 ∷ [])
graph_look_for_cycle-found_example = graph_look_for_cycle-found ring 0 3 (omega arith) ring-found

-- The order of the ring.
ring-GraphOk : GraphOk ring
ring-GraphOk zero = ((tt, tt), refl, (refl, tt))
ring-GraphOk (suc zero) = ((tt, tt), refl, (refl, tt))
ring-GraphOk (suc (suc zero)) = ((tt, tt), refl, (refl, tt))
ring-GraphOk (suc (suc (suc i))) = (tt, refl, tt)

abbrev first : Dependency
first = new_dependency 100 0 1 strg_dep (rendezvous 1) 0 0

abbrev second : Dependency
second = new_dependency 200 0 2 soft_dep (rendezvous 2) 0 0

graph_add_dependency-GraphOk_example :
    (graph_add_dependency 200 0 2 soft_dep (rendezvous 2) 0 0 ring ≡ ok (added second ring, second))
    × GraphOk (added second ring)
graph_add_dependency-GraphOk_example =
    graph_add_dependency-GraphOk 200 0 2 soft_dep (rendezvous 2) 0 0 ring refl (omega arith)
      ring-GraphOk

graph_remove_dependency-GraphOk_example :
    (h : Graph) × (graph_remove_dependency first ring ≡ ok h)
    × Leaves first.self (ring.graph_map first.from).deps (h.graph_map first.from).deps
    × ((ring.graph_map first.from).num_deps ≡ suc (h.graph_map first.from).num_deps)
    × ((i : ℕ) → (i ≡ first.from) ⊎ (h.graph_map i ≡ ring.graph_map i))
    × GraphOk h
graph_remove_dependency-GraphOk_example =
    graph_remove_dependency-GraphOk first ring refl ring-GraphOk

graph_get_dependency-first_example :
    (ds : List Dependency) × (graph_get_dependencies 0
        (pos 1)
        strg_dep
        Act.send
        (pos 7)
        (pos 0)
        ring
      ≡ ok ds)
    × (graph_get_dependency 0 (pos 1) strg_dep Act.send (pos 7) (pos 0) ring ≡ ok (get_elem? ds 0))
graph_get_dependency-first_example =
    graph_get_dependency-first 1 strg_dep Act.send (pos 7) (pos 0) (λ h. omega arith) 0 ring
      (omega arith) ring-GraphOk
