-- ===== src/Graph/Along.antt =====
-- Simulator/utils/graph.c: the loop over the dependencies of one task in the search for a cycle.
use dimemas.Base.{
  ℕ, ◌≡◌, refl, ap, sym, subst, ◌∙◌, ◌⊎◌, inl, inr, true, false, List, [], ◌∷◌, Bool-cases,
}
use dimemas.Graph.Base.{Dependency}
use dimemas.Graph.Search.{
  Search, absent, found, out_of_map, out_of_fuel, blocks, or_else, look_along,
}

-- A dependency of the chain waits for the task.
abbrev pub Arc : ℕ → List Dependency → Type 0
Arc to [] = ⊥
Arc to (d ∷ ds) = ((blocks d ≡ true) × (d.to ≡ to)) ⊎ Arc to ds

or_else-found :
    (first rest : Search) {c : List ℕ}
    → or_else first rest ≡ found c
    → (first ≡ found c) ⊎ (rest ≡ found c)
or_else-found absent rest h = inr h
or_else-found (found chain) rest h = inl h
or_else-found out_of_map rest h = cc
or_else-found out_of_fuel rest h = cc

or_else-absent :
    (first rest : Search) → or_else first rest ≡ absent → (first ≡ absent) × (rest ≡ absent)
or_else-absent absent rest h = (refl, h)
or_else-absent (found chain) rest h = cc
or_else-absent out_of_map rest h = cc
or_else-absent out_of_fuel rest h = cc

pub look_along-waits :
    (visit : ℕ → Search) (d : Dependency) (ds : List Dependency)
    → blocks d ≡ true
    → look_along visit (d ∷ ds) ≡ or_else (visit d.to) (look_along visit ds)
unfolding look_along
look_along-waits visit d ds e = rw e

pub look_along-free :
    (visit : ℕ → Search) (d : Dependency) (ds : List Dependency)
    → blocks d ≡ false
    → look_along visit (d ∷ ds) ≡ look_along visit ds
unfolding look_along
look_along-free visit d ds e = rw e

pub look_along-found :
    (visit : ℕ → Search) (ds : List Dependency) {c : List ℕ}
    → look_along visit ds ≡ found c
    → (to : ℕ) × Arc to ds × (visit to ≡ found c)
unfolding look_along
look_along-found visit [] h = cc
look_along-found visit (d ∷ ds) h = elim (Bool-cases (blocks d)) [
  | inl e ↦
      elim (or_else-found (visit d.to) (look_along visit ds)
        (sym (look_along-waits visit d ds e) ∙ h)) [
          | inl here ↦ (d.to, inl (e, refl), here)
          | inr later ↦
              let (to, arc, visited) = look_along-found visit ds later in (to, inr arc, visited)
        ]
  | inr e ↦
      let later = look_along-found visit ds (sym (look_along-free visit d ds e) ∙ h) in
      let (to, arc, visited) = later in (to, inr arc, visited)
]

pub look_along-absent :
    (visit : ℕ → Search) (ds : List Dependency)
    → look_along visit ds ≡ absent
    → (to : ℕ) → Arc to ds
    → visit to ≡ absent
look_along-absent visit [] h to arc = absurd arc
look_along-absent visit (d ∷ ds) h to arc = elim (Bool-cases (blocks d)) [
  | inl e ↦
      let (here, later) =
        or_else-absent (visit d.to) (look_along visit ds)
          (sym (look_along-waits visit d ds e) ∙ h) in
      elim arc [
        | inl (w, same) ↦ sym (ap visit same) ∙ here
        | inr other ↦ look_along-absent visit ds later to other
      ]
  | inr e ↦ elim arc [
    | inl (w, same) ↦ cc
    | inr other ↦ look_along-absent visit ds (sym (look_along-free visit d ds e) ∙ h) to other
  ]
]

-- A search that ended: with a chain, or without one.
abbrev pub Ended : Search → Type 0
Ended absent = Unit
Ended (found chain) = Unit
Ended out_of_map = ⊥
Ended out_of_fuel = ⊥

or_else-Ended : (first rest : Search) → Ended first → Ended rest → Ended (or_else first rest)
or_else-Ended absent rest a b = b
or_else-Ended (found chain) rest a b = a
or_else-Ended out_of_map rest a b = absurd a
or_else-Ended out_of_fuel rest a b = absurd a

pub look_along-Ended :
    (visit : ℕ → Search) (ds : List Dependency)
    → ((to : ℕ) → Arc to ds → Ended (visit to))
    → Ended (look_along visit ds)
unfolding look_along
look_along-Ended visit [] each = tt
look_along-Ended visit (d ∷ ds) each =
    let rest = look_along-Ended visit ds (λ to arc. each to (inr arc)) in
    elim (Bool-cases (blocks d)) [
      | inl e ↦
          subst Ended (sym (look_along-waits visit d ds e))
            (or_else-Ended (visit d.to) (look_along visit ds) (each d.to (inl (e, refl))) rest)
      | inr e ↦ subst Ended (sym (look_along-free visit d ds e)) rest
    ]
