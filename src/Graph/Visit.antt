-- ===== src/Graph/Visit.antt =====
-- Simulator/utils/graph.c: the calls of `__look_for_cycle`: the ways that one goes on, and what
-- it returns, against the chains of the graph.
use dimemas.Base.{
  ℕ, zero, suc, ◌<◌, ◌≡◌, refl, sym, subst, ◌∙◌, ◌≢◌, ◌⊎◌, inl, inr, true, false, List, [], ◌∷◌,
  ◌++◌, append_assoc, ltb, ◌==◌, ==_iff, Bool-cases, length, arith,
}
use dimemas.Graph.Base.{Graph}
use dimemas.Graph.Search.{Search, absent, found, out_of_map, out_of_fuel, look_along, look_from}
use dimemas.Graph.Along.{Arc, Ended, look_along-found, look_along-absent, look_along-Ended}

-- The tasks that follow lead to the root, each one waiting for the next.
abbrev pub Leads : Graph → ℕ → ℕ → List ℕ → Type 0
Leads g root from [] = from ≡ root
Leads g root from (next ∷ rest) = Arc next (g.graph_map from).deps × Leads g root next rest

-- A chain of tasks that starts at the root, waits along its arcs, and ends at the root.
abbrev pub Cycle : Graph → ℕ → List ℕ → Type 0
Cycle g root [] = ⊥
Cycle g root (first ∷ []) = ⊥
Cycle g root (first ∷ next ∷ rest) = (first ≡ root) × Leads g root root (next ∷ rest)

-- The counters are right, and no dependency leaves the map.
abbrev pub Counted : Graph → Type 0
Counted g = (i : ℕ) → (g.graph_map i).num_deps ≡ length (g.graph_map i).deps

abbrev pub InMap : Graph → Type 0
InMap g = (from to : ℕ) → Arc to (g.graph_map from).deps → to < g.nodes

-- Every cycle goes through the root: the ranks fall along the arcs of the other tasks.
abbrev pub Ranked : Graph → ℕ → (ℕ → ℕ) → Type 0
Ranked g root rank =
    (from to : ℕ) → from ≢ root → Arc to (g.graph_map from).deps → rank to < rank from

-- The four ways of a call of `__look_for_cycle`.
module _ (g : Graph) (fuel from root : ℕ) (chain : List ℕ) where
  abbrev visit : ℕ → Search
  visit to = look_from g fuel to root (chain ++ from ∷ [])

  look_from-root :
      (from == root) ≡ true → look_from g (suc fuel) from root chain ≡ found (chain ++ from ∷ [])
  unfolding look_from
  look_from-root e = rw e

  look_from-out :
      (from == root) ≡ false
      → ltb from g.nodes ≡ false
      → look_from g (suc fuel) from root chain ≡ out_of_map
  unfolding look_from
  look_from-out e l = rw (e, l)

  look_from-none :
      (from == root) ≡ false
      → ltb from g.nodes ≡ true
      → ((g.graph_map from).num_deps == 0) ≡ true
      → look_from g (suc fuel) from root chain ≡ absent
  unfolding look_from
  look_from-none e l z = rw (e, l, z)

  look_from-deps :
      (from == root) ≡ false
      → ltb from g.nodes ≡ true
      → ((g.graph_map from).num_deps == 0) ≡ false
      → look_from g (suc fuel) from root chain ≡ look_along visit (g.graph_map from).deps
  unfolding look_from
  look_from-deps e l z = rw (e, l, z)

  -- One of the four holds.
  pub look_from-cases :
      ((from ≡ root) × (look_from g (suc fuel) from root chain ≡ found (chain ++ from ∷ [])))
      ⊎ ((from ≢ root)
          × (((ltb from g.nodes ≡ false) × (look_from g (suc fuel) from root chain ≡ out_of_map))
              ⊎ ((((g.graph_map from).num_deps ≡ 0)
                    × (look_from g (suc fuel) from root chain ≡ absent))
                  ⊎ (look_from g (suc fuel) from root chain
                      ≡ look_along visit (g.graph_map from).deps))))
  look_from-cases = elim (Bool-cases (from == root)) [
    | inl e ↦ inl ((==_iff from root).0 e, look_from-root e)
    | inr e ↦ inr (
      (λ same. ground arith),
      elim (Bool-cases (ltb from g.nodes)) [
        | inr l ↦ inl (l, look_from-out e l)
        | inl l ↦ inr (elim (Bool-cases ((g.graph_map from).num_deps == 0)) [
          | inl z ↦ inl ((==_iff (g.graph_map from).num_deps 0).0 z, look_from-none e l z)
          | inr z ↦ inr (look_from-deps e l z)
        ])
      ],
    )
  ]

look_from-zero :
    (g : Graph) (from root : ℕ) (chain : List ℕ) → look_from g 0 from root chain ≡ out_of_fuel
unfolding look_from
look_from-zero g from root chain = refl

-- A task with a counter at 0 has no arc.
Counted-none :
    (g : Graph)
    → Counted g
    → (from to : ℕ) → (g.graph_map from).num_deps ≡ 0
    → ¬ Arc to (g.graph_map from).deps
Counted-none g counted from to z arc =
    elim (g.graph_map from).deps as (λ ds. length ds ≡ 0 → Arc to ds → ⊥) [
      | [] ↦ λ l a. a
      | d ∷ ds ↦ λ l a. omega arith
    ]
      (sym (counted from) ∙ z) arc

module _ (g : Graph) (root : ℕ) where
  pub look_from-found :
      (fuel from : ℕ) (chain : List ℕ) {c : List ℕ}
      → look_from g fuel from root chain ≡ found c
      → (rest : List ℕ) × (c ≡ chain ++ from ∷ rest) × Leads g root from rest
  look_from-found zero from chain h = let never = look_from-zero g from root chain in cc
  look_from-found (suc fuel) from chain h = elim (look_from-cases g fuel from root chain) [
    | inl (same, eq) ↦ let is : found (chain ++ from ∷ []) ≡ found _ = sym eq ∙ h in ([], cc, same)
    | inr (other, inl (l, eq)) ↦ cc
    | inr (other, inr (inl (z, eq))) ↦ cc
    | inr (other, inr (inr eq)) ↦
        let (to, arc, visited) =
          look_along-found (visit g fuel from root chain) (g.graph_map from).deps (sym eq ∙ h) in
        let (rest, is, leads) = look_from-found fuel to (chain ++ from ∷ []) visited in
        (to ∷ rest, is ∙ append_assoc chain (from ∷ []) (to ∷ rest), (arc, leads))
  ]

  onward :
      (from : ℕ)
      → from ≢ root
      → ((to : ℕ) → Arc to (g.graph_map from).deps → (rest : List ℕ) → ¬ Leads g root to rest)
      → (rest : List ℕ) → ¬ Leads g root from rest
  onward from other blocked [] leads = other leads
  onward from other blocked (to ∷ rest) leads = blocked to leads.0 rest leads.1

  pub look_from-absent :
      Counted g
      → (fuel from : ℕ) (chain : List ℕ) → look_from g fuel from root chain ≡ absent
      → (rest : List ℕ) → ¬ Leads g root from rest
  look_from-absent counted zero from chain h rest leads =
      let never = look_from-zero g from root chain in cc
  look_from-absent counted (suc fuel) from chain h rest leads =
      elim (look_from-cases g fuel from root chain) [
        | inl (same, eq) ↦ cc
        | inr (other, inl (l, eq)) ↦ cc
        | inr (other, inr (inl (z, eq))) ↦
            onward from other (λ to arc. absurd (Counted-none g counted from to z arc)) rest leads
        | inr (other, inr (inr eq)) ↦
            onward from other
              (λ to arc. look_from-absent counted fuel to (chain ++ from ∷ []) (
                look_along-absent (visit g fuel from root chain) (g.graph_map from).deps
                  (sym eq ∙ h) to arc))
              rest leads
      ]

  pub look_from-Ended :
      (rank : ℕ → ℕ)
      → Ranked g root rank
      → InMap g
      → (fuel from : ℕ) (chain : List ℕ) → from < g.nodes
      → rank from < fuel
      → Ended (look_from g fuel from root chain)
  look_from-Ended rank falls within zero from chain low enough = absurd (omega arith)
  look_from-Ended rank falls within (suc fuel) from chain low enough =
      elim (look_from-cases g fuel from root chain) [
        | inl (same, eq) ↦ subst Ended (sym eq) tt
        | inr (other, inl (l, eq)) ↦ absurd (ground arith)
        | inr (other, inr (inl (z, eq))) ↦ subst Ended (sym eq) tt
        | inr (other, inr (inr eq)) ↦ subst Ended (sym eq) (
            look_along-Ended (visit g fuel from root chain) (g.graph_map from).deps (λ to arc.
              let lower = falls from to other arc in
              look_from-Ended rank falls within fuel to (chain ++ from ∷ []) (within from to arc)
                (omega arith)))
      ]
