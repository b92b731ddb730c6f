-- ===== src/Graph/Held.antt =====
-- Simulator/utils/graph.c: a dependency stays in its queue while others are added and changed.
use dimemas.Base.{
  ℕ, ◌≡◌, refl, subst, ◌∙◌, inl, inr, Bool, true, false, ◌||◌, List, [], ◌∷◌, leb, ◌==◌, ==_iff,
  ==_self, Bool-cases,
}
use dimemas.Queue.{Ptr}
use dimemas.Graph.Base.{
  Dependency, DependencyQueue, Graph, insert_dep, add_to, holds, set_action, set_action_in,
}
use dimemas.Graph.Update.{with_queue, added, changed}

-- The block of a dependency is in the queue of its task.
abbrev pub InGraph : Dependency → Graph → Type 0
InGraph d g = holds d.self (g.graph_map d.from).deps ≡ true

or_kept : (b c c' : Bool) → (c ≡ true → c' ≡ true) → (b || c) ≡ true → (b || c') ≡ true
or_kept true c c' later h = refl
or_kept false c c' later h = later h

or_swap : (b c : Bool) → c ≡ true → (b || c) ≡ true
or_swap true c h = refl
or_swap false c h = h

holds-insert_dep :
    (p : Ptr) (new : Dependency) (ds : List Dependency)
    → holds p ds ≡ true
    → holds p (insert_dep new ds) ≡ true
unfolding insert_dep
holds-insert_dep p new [] h = cc
holds-insert_dep p new (d ∷ ds) h = elim (Bool-cases (leb new.to d.to)) [
  | inl e ↦ rw e (or_swap (new.self == p) (holds p (d ∷ ds)) h)
  | inr e ↦ rw e (
      or_kept (d.self == p) (holds p ds) (holds p (insert_dep new ds)) (holds-insert_dep p new ds)
        h)
]

insert_dep-holds :
    (new : Dependency) (ds : List Dependency) → holds new.self (insert_dep new ds) ≡ true
unfolding insert_dep
insert_dep-holds new [] = rw (==_self new.self)
insert_dep-holds new (d ∷ ds) = elim (Bool-cases (leb new.to d.to)) [
  | inl e ↦ rw (e, ==_self new.self)
  | inr e ↦
      rw e (
        or_swap (d.self == new.self) (holds new.self (insert_dep new ds)) (insert_dep-holds new ds))
]

holds-set_action :
    (p q : Ptr) (a : ℕ) (ds : List Dependency) → holds p (set_action q a ds) ≡ holds p ds
unfolding set_action
holds-set_action p q a [] = refl
holds-set_action p q a (d ∷ ds) = elim (Bool-cases (d.self == q)) [
  | inl e ↦ rw e
  | inr e ↦ let rest = holds-set_action p q a ds in rw (e, rest)
]

-- A write that keeps what its own queue holds keeps what the graph holds.
InGraph-write :
    (d : Dependency) (g : Graph) (from : ℕ) (q : DependencyQueue)
    → (holds d.self (g.graph_map from).deps ≡ true → holds d.self q.deps ≡ true)
    → InGraph d g
    → InGraph d (with_queue g from q)
InGraph-write d g from q keeps h = elim (Bool-cases (d.from == from)) [
  | inl e ↦
      let same : d.from ≡ from = (==_iff d.from from).0 e in
      rw e (keeps (subst (λ i. holds d.self (g.graph_map i).deps ≡ true) same h))
  | inr e ↦ rw e h
]

pub InGraph-added : (d new : Dependency) (g : Graph) → InGraph d g → InGraph d (added new g)
unfolding insert_dep
InGraph-added d new g =
    InGraph-write d g new.from (add_to new (g.graph_map new.from))
      (holds-insert_dep d.self new (g.graph_map new.from).deps)

pub InGraph-new : (new : Dependency) (g : Graph) → InGraph new (added new g)
unfolding insert_dep
InGraph-new new g =
    let own : (new.from == new.from) ≡ true = ==_self new.from in
    rw own (insert_dep-holds new (g.graph_map new.from).deps)

pub InGraph-changed :
    (d e : Dependency) (a : ℕ) (g : Graph) → InGraph d g → InGraph d (changed e a g)
unfolding set_action
InGraph-changed d e a g =
    InGraph-write d g e.from (set_action_in e.self a (g.graph_map e.from))
      (λ h. holds-set_action d.self e.self a (g.graph_map e.from).deps ∙ h)
