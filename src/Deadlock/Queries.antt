-- ===== src/Deadlock/Queries.antt =====
-- Simulator/utils/deadlock_analysis.c: what a query of the graph finds is still in the graph.
use dimemas.Base.{
  ℕ, ◌<◌, ◌≡◌, refl, ap, sym, subst, ◌∙◌, ◌⊎◌, inl, inr, Bool, true, false, Option, none, some,
  Option-cases, List, [], ◌∷◌, ltb, gtz, ◌==◌, ==_iff, if◌then◌else◌, Bool-cases, arith, ok, ℤ, pos,
  All,
}
use dimemas.Graph.Base.{Dependency, Graph, holds}
use dimemas.Graph.Search.{fits, tag_passes, first_dependency, graph_get_dependency}
use dimemas.Graph.Order.{GraphOk}
use dimemas.Graph.Held.{InGraph}

abbrev pub Found : Graph → Option Dependency → Type 0
Found g none = Unit
Found g (some d) = InGraph d g

-- What a query finds is in the graph.
chosen :
    (b t past : Bool) (e d : Dependency) (rest : Option Dependency)
    → (if b then (if t then some e else rest) else (if past then none else rest)) ≡ some d
    → (e ≡ d) ⊎ (rest ≡ some d)
chosen true true past e d rest h = inl cc
chosen true false past e d rest h = inr h
chosen false t true e d rest h = cc
chosen false t false e d rest h = inr h

first_dependency-held :
    (to : ℤ) (type action : ℕ) (tag communic_id : ℤ) (ds : List Dependency) (d : Dependency)
    → first_dependency to type action tag communic_id ds ≡ some d
    → holds d.self ds ≡ true
unfolding first_dependency
first_dependency-held to type action tag communic_id [] d h = cc
first_dependency-held to type action tag communic_id (e ∷ es) d h =
    elim (chosen (fits to type action e) (tag_passes e action tag communic_id) (gtz (pos e.to) to) e
      d (first_dependency to type action tag communic_id es) h) [
        | inl same ↦
            let self : (e.self == d.self) ≡ true =
              (==_iff e.self d.self).1 (ap (λ x. x.self) same) in
            rw self refl
        | inr later ↦
            let held = first_dependency-held to type action tag communic_id es d later in
            elim (Bool-cases (e.self == d.self)) [ inl a ↦ rw a | inr a ↦ rw (a, held) ]
      ]

first_dependency-from :
    (to : ℤ) (type action : ℕ) (tag communic_id : ℤ) (i : ℕ) (ds : List Dependency) (d : Dependency)
    → All (λ (e : Dependency). e.from ≡ i) ds
    → first_dependency to type action tag communic_id ds ≡ some d
    → d.from ≡ i
unfolding first_dependency
first_dependency-from to type action tag communic_id i [] d hs h = cc
first_dependency-from to type action tag communic_id i (e ∷ es) d (first, others) h =
    elim (chosen (fits to type action e) (tag_passes e action tag communic_id) (gtz (pos e.to) to) e
      d (first_dependency to type action tag communic_id es) h) [
        | inl same ↦ sym (ap (λ x. x.from) same) ∙ first
        | inr later ↦ first_dependency-from to type action tag communic_id i es d others later
      ]

pub query-Found :
    (from : ℕ) (to : ℤ) (type action : ℕ) (tag communic_id : ℤ) (g : Graph)
    → from < g.nodes
    → GraphOk g
    → (o : Option Dependency) × (graph_get_dependency from to type action tag communic_id g ≡ ok o)
      × Found g o
unfolding graph_get_dependency
query-Found from to type action tag communic_id g low all =
    let inside : ltb from g.nodes ≡ true = ground arith in
    let o = first_dependency to type action tag communic_id (g.graph_map from).deps in
    (
      o,
      rw inside,
      elim (Option-cases o) [
        | inl is ↦ subst (Found g) (sym is) tt
        | inr (d, is) ↦
            let from_here =
              first_dependency-from to type action tag communic_id from (g.graph_map from).deps d
                (all from).2 is in
            subst (Found g) (sym is) (
              subst (λ i. holds d.self (g.graph_map i).deps ≡ true) (sym from_here)
                (first_dependency-held to type action tag communic_id (g.graph_map from).deps d is))
      ],
    )
