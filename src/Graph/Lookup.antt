-- ===== src/Graph/Lookup.antt =====
-- Simulator/utils/graph.c: GRAPH_get_dependency, which stops at the first dependency on a later task,
-- against GRAPH_get_dependencies, which reads the whole queue.
use dimemas.Base.{
  ℕ, ◌≤◌, ◌<◌, ◌≡◌, refl, ◌∙◌, ◌≢◌, inl, inr, Bool, true, false, ◌||◌, List, [], ◌∷◌, ltb, ◌==◌,
  Bool-cases, All, arith, ok, ℤ, pos, eqz, get_elem?,
}
use dimemas.Graph.Base.{graph_all_actions, meets, Dependency, Graph}
use dimemas.Graph.Search.{
  tag_passes, fits, fits_any, first_dependency, graph_get_dependency, all_dependencies,
  graph_get_dependencies,
}
use dimemas.Graph.Order.{Sorted, GraphOk}

or_false : (b : Bool) → (b || false) ≡ b
or_false true = refl
or_false false = refl

module _ (to type action : ℕ) (mess_tag communic_id : ℤ) (named : action ≢ graph_all_actions) where
  fits_any-named : (d : Dependency) → fits_any (pos to) type action d ≡ fits (pos to) type action d
  fits_any-named d =
      let off : (action == graph_all_actions) ≡ false = ground arith in
      rw (off, or_false (eqz (pos d.to) (pos to)), or_false (meets 32 d.action action))

  -- Behind a dependency on a later task, none is on this one.
  all_dependencies-past :
      (ds : List Dependency)
      → All (λ (e : Dependency). to < e.to) ds
      → all_dependencies (pos to) type action mess_tag communic_id ds ≡ []
  unfolding all_dependencies
  all_dependencies-past [] hs = refl
  all_dependencies-past (d ∷ ds) (h, hs) =
      let off : fits_any (pos to) type action d ≡ false = ground arith in
      rw off (all_dependencies-past ds hs)

  All-later :
      (a : ℕ)
      → to < a
      → (ds : List Dependency) → All (λ (e : Dependency). a ≤ e.to) ds
      → All (λ (e : Dependency). to < e.to) ds
  All-later a lt [] hs = tt
  All-later a lt (d ∷ ds) (h, hs) = (omega arith, All-later a lt ds hs)

  first-all_dependencies :
      (ds : List Dependency)
      → Sorted ds
      → first_dependency (pos to) type action mess_tag communic_id ds
        ≡ get_elem? (all_dependencies (pos to) type action mess_tag communic_id ds) 0
  unfolding first_dependency all_dependencies
  first-all_dependencies [] sorted = refl
  first-all_dependencies (d ∷ ds) (first, others) =
      let rest = first-all_dependencies ds others in
      elim (Bool-cases (fits (pos to) type action d)) [
        | inl e ↦
            let any = fits_any-named d ∙ e in
            elim (Bool-cases (tag_passes d action mess_tag communic_id)) [
              | inl t ↦ rw (e, any, t)
              | inr t ↦ rw (e, any, t, rest)
            ]
        | inr e ↦
            let any = fits_any-named d ∙ e in
            elim (Bool-cases (ltb to d.to)) [
              | inl past ↦
                  let lt : to < d.to = ground arith in
                  rw (e, any, past, all_dependencies-past ds (All-later d.to lt ds first))
              | inr past ↦ rw (e, any, past, rest)
            ]
      ]

  -- On a graph whose queues are sorted, GRAPH_get_dependency for a task and a kind of action gives the
  -- first dependency of GRAPH_get_dependencies, or NULL where there is none.
  pub graph_get_dependency-first :
      (from : ℕ) (g : Graph)
      → from < g.nodes
      → GraphOk g
      → (ds : List Dependency) × (graph_get_dependencies from
            (pos to)
            type
            action
            mess_tag
            communic_id
            g
          ≡ ok ds)
        × (graph_get_dependency from (pos to) type action mess_tag communic_id g
            ≡ ok (get_elem? ds 0))
  unfolding graph_get_dependencies graph_get_dependency
  graph_get_dependency-first from g low all =
      let inside : ltb from g.nodes ≡ true = ground arith in
      let ds = (g.graph_map from).deps in
      (
        all_dependencies (pos to) type action mess_tag communic_id ds,
        rw inside,
        rw (inside, first-all_dependencies ds (all from).0),
      )
