-- ===== src/Graph/Order.antt =====
-- Simulator/utils/graph.c: the order of the dependency queues by task and their counters, which
-- GRAPH_get_dependency relies on.
use dimemas.Base.{
  ℕ, suc, ◌≤◌, ◌≡◌, refl, inl, inr, true, List, [], ◌∷◌, leb, ◌==◌, Bool-cases, length, All, arith,
}
use dimemas.Queue.{Ptr}
use dimemas.Graph.Base.{Dependency, DependencyQueue, Graph, insert_dep, unlink, holds, set_action}

abbrev pub Sorted : List Dependency → Type 0
Sorted [] = Unit
Sorted (d ∷ ds) = All (λ (e : Dependency). d.to ≤ e.to) ds × Sorted ds

-- The queue of the task: sorted, counted, and of dependencies of this task.
abbrev pub QueueOk : ℕ → DependencyQueue → Type 0
QueueOk i q =
    Sorted q.deps × (q.num_deps ≡ length q.deps) × All (λ (e : Dependency). e.from ≡ i) q.deps

abbrev pub GraphOk : Graph → Type 0
GraphOk g = (i : ℕ) → QueueOk i (g.graph_map i)

-- insert_dep
pub insert_dep-All {κ} :
    (Holds : Dependency → Type κ) (new : Dependency) (ds : List Dependency)
    → Holds new
    → All Holds ds
    → All Holds (insert_dep new ds)
unfolding insert_dep
insert_dep-All Holds new [] h hs = (h, tt)
insert_dep-All Holds new (d ∷ ds) h (first, others) = elim (Bool-cases (leb new.to d.to)) [
  | inl e ↦ rw e (h, (first, others))
  | inr e ↦ rw e (first, insert_dep-All Holds new ds h others)
]

All-weaken :
    (a b : ℕ)
    → a ≤ b
    → (ds : List Dependency) → All (λ (e : Dependency). b ≤ e.to) ds
    → All (λ (e : Dependency). a ≤ e.to) ds
All-weaken a b le [] hs = tt
All-weaken a b le (d ∷ ds) (h, hs) = (omega arith, All-weaken a b le ds hs)

pub insert_dep-Sorted :
    (new : Dependency) (ds : List Dependency) → Sorted ds → Sorted (insert_dep new ds)
unfolding insert_dep
insert_dep-Sorted new [] s = (tt, tt)
insert_dep-Sorted new (d ∷ ds) (first, others) = elim (Bool-cases (leb new.to d.to)) [
  | inl e ↦
      let le : new.to ≤ d.to = ground arith in
      rw e ((le, All-weaken new.to d.to le ds first), (first, others))
  | inr e ↦
      let le : d.to ≤ new.to = ground arith in
      rw e (
        insert_dep-All (λ (e : Dependency). d.to ≤ e.to) new ds le first,
        insert_dep-Sorted new ds others,
      )
]

pub length-insert_dep :
    (new : Dependency) (ds : List Dependency) → length (insert_dep new ds) ≡ suc (length ds)
unfolding insert_dep
length-insert_dep new [] = refl
length-insert_dep new (d ∷ ds) = elim (Bool-cases (leb new.to d.to)) [
  | inl e ↦ rw e
  | inr e ↦ let rest = length-insert_dep new ds in rw (e, rest)
]

-- unlink
pub unlink-All {κ} :
    (Holds : Dependency → Type κ) (p : Ptr) (ds : List Dependency)
    → All Holds ds
    → All Holds (unlink p ds)
unfolding unlink
unlink-All Holds p [] hs = tt
unlink-All Holds p (d ∷ ds) (h, hs) = elim (Bool-cases (d.self == p)) [
  | inl e ↦ rw e hs
  | inr e ↦ rw e (h, unlink-All Holds p ds hs)
]

pub unlink-Sorted : (p : Ptr) (ds : List Dependency) → Sorted ds → Sorted (unlink p ds)
unfolding unlink
unlink-Sorted p [] s = tt
unlink-Sorted p (d ∷ ds) (first, others) = elim (Bool-cases (d.self == p)) [
  | inl e ↦ rw e others
  | inr e ↦
      rw e (unlink-All (λ (e : Dependency). d.to ≤ e.to) p ds first, unlink-Sorted p ds others)
]

pub length-unlink :
    (p : Ptr) (ds : List Dependency) → holds p ds ≡ true → suc (length (unlink p ds)) ≡ length ds
unfolding unlink
length-unlink p [] h = cc
length-unlink p (d ∷ ds) h = elim (Bool-cases (d.self == p)) [
  | inl e ↦ rw e
  | inr e ↦
      let rest : holds p ds ≡ true = ground arith in
      let shorter = length-unlink p ds rest in rw (e, shorter)
]

-- set_action
pub set_action-All :
    (Kept : ℕ → ℕ → Type 0) (p : Ptr) (a : ℕ) (ds : List Dependency)
    → All (λ (e : Dependency). Kept e.from e.to) ds
    → All (λ (e : Dependency). Kept e.from e.to) (set_action p a ds)
unfolding set_action
set_action-All Kept p a [] hs = tt
set_action-All Kept p a (d ∷ ds) (h, hs) = elim (Bool-cases (d.self == p)) [
  | inl e ↦ rw e (h, hs)
  | inr e ↦ rw e (h, set_action-All Kept p a ds hs)
]

pub set_action-Sorted :
    (p : Ptr) (a : ℕ) (ds : List Dependency) → Sorted ds → Sorted (set_action p a ds)
unfolding set_action
set_action-Sorted p a [] s = tt
set_action-Sorted p a (d ∷ ds) (first, others) = elim (Bool-cases (d.self == p)) [
  | inl e ↦ rw e (first, others)
  | inr e ↦ rw e (set_action-All (λ i j. d.to ≤ j) p a ds first, set_action-Sorted p a ds others)
]

pub length-set_action :
    (p : Ptr) (a : ℕ) (ds : List Dependency) → length (set_action p a ds) ≡ length ds
unfolding set_action
length-set_action p a [] = refl
length-set_action p a (d ∷ ds) = elim (Bool-cases (d.self == p)) [
  | inl e ↦ rw e
  | inr e ↦ let rest = length-set_action p a ds in rw (e, rest)
]
