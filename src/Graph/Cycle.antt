-- ===== src/Graph/Cycle.antt =====
-- Simulator/utils/graph.c: what the search for a cycle finds, against the cycles of the graph.
use dimemas.Base.{ℕ, ◌<◌, ◌≡◌, refl, sym, subst, ◌∙◌, true, List, [], ◌∷◌, ltb, arith}
use dimemas.Graph.Base.{Graph}
use dimemas.Graph.Search.{
  Search, absent, found, out_of_map, out_of_fuel, look_along, look_from, graph_look_for_cycle,
}
use dimemas.Graph.Along.{Ended, look_along-found, look_along-absent, look_along-Ended}
use dimemas.Graph.Visit.{
  Cycle, Counted, InMap, Ranked, look_from-found, look_from-absent, look_from-Ended,
}

module _ (g : Graph) (root : ℕ) where
  graph_look_for_cycle-deps :
      (fuel : ℕ)
      → root < g.nodes
      → graph_look_for_cycle g fuel root
        ≡ look_along (λ to. look_from g fuel to root (root ∷ [])) (g.graph_map root).deps
  unfolding graph_look_for_cycle
  graph_look_for_cycle-deps fuel low = let t : ltb root g.nodes ≡ true = ground arith in rw t

  -- A chain that is returned is a cycle through the root.
  pub graph_look_for_cycle-found :
      (fuel : ℕ) {chain : List ℕ}
      → root < g.nodes
      → graph_look_for_cycle g fuel root ≡ found chain
      → Cycle g root chain
  graph_look_for_cycle-found fuel {chain} low h =
      let (to, arc, visited) =
        look_along-found (λ to. look_from g fuel to root (root ∷ [])) (g.graph_map root).deps
          (sym (graph_look_for_cycle-deps fuel low) ∙ h) in
      let (rest, is, leads) = look_from-found g root fuel to (root ∷ []) visited in
      subst (Cycle g root) (sym is) (refl, (arc, leads))

  -- A search that found nothing missed no cycle, whatever its fuel.
  pub graph_look_for_cycle-absent :
      Counted g
      → (fuel : ℕ) → root < g.nodes
      → graph_look_for_cycle g fuel root ≡ absent
      → (chain : List ℕ) → ¬ Cycle g root chain
  graph_look_for_cycle-absent counted fuel low h [] cycle = cycle
  graph_look_for_cycle-absent counted fuel low h (first ∷ []) cycle = cycle
  graph_look_for_cycle-absent counted fuel low h (first ∷ to ∷ rest) (same, (arc, leads)) =
      look_from-absent g root counted fuel to (root ∷ [])
        (look_along-absent (λ to. look_from g fuel to root (root ∷ [])) (g.graph_map root).deps
          (sym (graph_look_for_cycle-deps fuel low) ∙ h) to arc)
        rest leads

  -- What the search is for.
  abbrev pub Decides : Search → Type 0
  Decides absent = (chain : List ℕ) → ¬ Cycle g root chain
  Decides (found chain) = Cycle g root chain
  Decides out_of_map = ⊥
  Decides out_of_fuel = ⊥

  decided :
      Counted g
      → (fuel : ℕ) → root < g.nodes
      → (result : Search) → graph_look_for_cycle g fuel root ≡ result
      → Ended result
      → Decides result
  decided counted fuel low absent h e = graph_look_for_cycle-absent counted fuel low h
  decided counted fuel low (found chain) h e = graph_look_for_cycle-found fuel low h
  decided counted fuel low out_of_map h e = e
  decided counted fuel low out_of_fuel h e = e

  -- On a graph with right counters and no dependency out of the map, whose cycles all go through
  -- the root, the search ends, and it returns a cycle through the root or there is none, if the
  -- fuel is above every rank.
  pub graph_look_for_cycle-Decides :
      Counted g
      → InMap g
      → (rank : ℕ → ℕ) → Ranked g root rank
      → (fuel : ℕ) → ((i : ℕ) → rank i < fuel)
      → root < g.nodes
      → Decides (graph_look_for_cycle g fuel root)
  graph_look_for_cycle-Decides counted within rank falls fuel enough low =
      decided counted fuel low (graph_look_for_cycle g fuel root) refl (
        subst Ended (sym (graph_look_for_cycle-deps fuel low)) (
          look_along-Ended (λ to. look_from g fuel to root (root ∷ [])) (g.graph_map root).deps
            (λ to arc.
              look_from-Ended g root rank falls within fuel to (root ∷ []) (within root to arc)
                (enough to))))
