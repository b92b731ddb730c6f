-- ===== src/Graph/Update.antt =====
-- Simulator/utils/graph.c: the three operations that change the map keep it in order.
use dimemas.Base.{
  ℕ, suc, ◌<◌, ◌≡◌, refl, sym, subst, ◌∙◌, inl, inr, ◌⊎◌, true, false, List, [], ◌∷◌, ◌++◌, ap, ltb,
  ◌==◌, ==_iff, Bool-cases, arith, ok,
}
use dimemas.Queue.{Ptr}
use dimemas.Graph.Base.{
  Action, Dependency, DependencyQueue, Graph, write, new_dependency, insert_dep, known_type, add_to,
  graph_add_dependency, unlink, holds, one_less, unlink_from, graph_remove_dependency, set_action,
  set_action_in, graph_change_action,
}
use dimemas.Graph.Order.{
  QueueOk, GraphOk, insert_dep-All, insert_dep-Sorted, length-insert_dep, unlink-All, unlink-Sorted,
  length-unlink, set_action-All, set_action-Sorted, length-set_action,
}

-- A write into one queue of the map.
write-Ok :
    (m : ℕ → DependencyQueue) (from : ℕ) (q : DependencyQueue)
    → ((i : ℕ) → QueueOk i (m i))
    → QueueOk from q
    → (i : ℕ) → QueueOk i (write m from q i)
write-Ok m from q all new i = elim (Bool-cases (i == from)) [
  | inl e ↦
      let same : i ≡ from = (==_iff i from).0 e in rw e (subst (λ j. QueueOk j q) (sym same) new)
  | inr e ↦ rw e (all i)
]

add_to-Ok :
    (new : Dependency) (q : DependencyQueue) → QueueOk new.from q → QueueOk new.from (add_to new q)
unfolding insert_dep
add_to-Ok new q (sorted, counted, froms) =
    let longer = length-insert_dep new q.deps in
    (
      insert_dep-Sorted new q.deps sorted,
      omega (arith, longer, counted),
      insert_dep-All (λ (e : Dependency). e.from ≡ new.from) new q.deps refl froms,
    )

one_less-suc : (n k : ℕ) → n ≡ suc k → n ≡ suc (one_less n)
one_less-suc n k h = ground arith

unlink_from-Ok :
    (i : ℕ) (p : Ptr) (q : DependencyQueue)
    → holds p q.deps ≡ true
    → QueueOk i q
    → QueueOk i (unlink_from p q)
unfolding unlink
unlink_from-Ok i p q held (sorted, counted, froms) =
    let shorter = length-unlink p q.deps held in
    (
      unlink-Sorted p q.deps sorted,
      ground arith,
      unlink-All (λ (e : Dependency). e.from ≡ i) p q.deps froms,
    )

set_action_in-Ok :
    (i : ℕ) (p : Ptr) (a : ℕ) (q : DependencyQueue) → QueueOk i q → QueueOk i (set_action_in p a q)
unfolding set_action
set_action_in-Ok i p a q (sorted, counted, froms) = (
  set_action-Sorted p a q.deps sorted,
  counted ∙ sym (length-set_action p a q.deps),
  set_action-All (λ j k. j ≡ i) p a q.deps froms,
)

-- The graph after each operation.
abbrev pub with_queue : Graph → ℕ → DependencyQueue → Graph
with_queue g from q = record g { graph_map = write g.graph_map from q }

abbrev pub added : Dependency → Graph → Graph
added new g = with_queue g new.from (add_to new (g.graph_map new.from))

abbrev pub removed : Dependency → Graph → Graph
removed d g = with_queue g d.from (unlink_from d.self (g.graph_map d.from))

abbrev pub changed : Dependency → ℕ → Graph → Graph
changed d a g = with_queue g d.from (set_action_in d.self a (g.graph_map d.from))

-- GRAPH_add_dependency from a task of the map, with one of the three types, returns the new
-- dependency, and it keeps every queue sorted by task, counted and of its own task.
pub graph_add_dependency-GraphOk :
    (fresh : Ptr) (from to type : ℕ) (a : Action) (communicator : Ptr) (offset : ℕ) (g : Graph)
    → known_type type ≡ true
    → from < g.nodes
    → GraphOk g
    → (graph_add_dependency fresh from to type a communicator offset g
        ≡ ok (
          added (new_dependency fresh from to type a communicator offset) g,
          new_dependency fresh from to type a communicator offset,
        ))
      × GraphOk (added (new_dependency fresh from to type a communicator offset) g)
unfolding graph_add_dependency
graph_add_dependency-GraphOk fresh from to type a communicator offset g known low all =
    let new = new_dependency fresh from to type a communicator offset in
    let inside : ltb from g.nodes ≡ true = ground arith in
    (
      rw (known, inside),
      write-Ok g.graph_map from (add_to new (g.graph_map from)) all
          (add_to-Ok new (g.graph_map from) (all from)),
    )

-- The first dependency at the address p leaves the list, and the others stay in order.
pub record Leaves (p : Ptr) (deps left : List Dependency) : Type 0 where
  pub before : List Dependency
  pub gone : Dependency
  pub after : List Dependency
  pub whole : deps ≡ before ++ gone ∷ after
  pub address : gone.self ≡ p
  pub first : holds p before ≡ false
  pub rest : left ≡ before ++ after

unlink-Leaves : (p : Ptr) (ds : List Dependency) → holds p ds ≡ true → Leaves p ds (unlink p ds)
unfolding unlink
unlink-Leaves p [] h = cc
unlink-Leaves p (d ∷ ds) h = elim (Bool-cases (d.self == p)) [
  | inl e ↦ record {
    before = [];
    gone = d;
    after = ds;
    whole = refl;
    address = (==_iff d.self p).0 e;
    first = refl;
    rest = rw e refl;
  }
  | inr e ↦
      let l = unlink-Leaves p ds (ground arith) in
      record {
        before = d ∷ l.before;
        gone = l.gone;
        after = l.after;
        whole = ap (λ (t : List Dependency). d ∷ t) l.whole;
        address = l.address;
        first = rw (e, l.first) refl;
        rest = rw e (ap (λ (t : List Dependency). d ∷ t) l.rest);
      }
]

-- A removal keeps the graph in order.
pub removed-GraphOk :
    (d : Dependency) (g : Graph)
    → holds d.self (g.graph_map d.from).deps ≡ true
    → GraphOk g
    → (graph_remove_dependency d g ≡ ok (removed d g))
      × ((g.graph_map d.from).num_deps ≡ suc ((removed d g).graph_map d.from).num_deps)
      × GraphOk (removed d g)
unfolding graph_remove_dependency unlink
removed-GraphOk d g held all =
    let self_from : (d.from == d.from) ≡ true = ground arith in
    let shorter = length-unlink d.self (g.graph_map d.from).deps held in
    let counted = (all d.from).1 in
    let after =
      write-Ok g.graph_map d.from (unlink_from d.self (g.graph_map d.from)) all
        (unlink_from-Ok d.from d.self (g.graph_map d.from) held (all d.from)) in
    (
      rw held,
      rw self_from (one_less-suc (g.graph_map d.from).num_deps _ (counted ∙ sym shorter)),
      after,
    )

-- GRAPH_remove_dependency_p on a dependency that is in the queue of its task returns. The first
-- dependency at its address leaves that queue, the others stay there in order, the count goes down
-- by one, and the other queues are as they were; every queue stays sorted, counted and of its own
-- task.
pub graph_remove_dependency-GraphOk :
    (d : Dependency) (g : Graph)
    → holds d.self (g.graph_map d.from).deps ≡ true
    → GraphOk g
    → (h : Graph) × (graph_remove_dependency d g ≡ ok h)
      × Leaves d.self (g.graph_map d.from).deps (h.graph_map d.from).deps
      × ((g.graph_map d.from).num_deps ≡ suc (h.graph_map d.from).num_deps)
      × ((i : ℕ) → (i ≡ d.from) ⊎ (h.graph_map i ≡ g.graph_map i))
      × GraphOk h
unfolding unlink
graph_remove_dependency-GraphOk d g held all =
    let (is, less, kept) = removed-GraphOk d g held all in
    let self_from : (d.from == d.from) ≡ true = ground arith in
    (
      removed d g,
      is,
      rw self_from (unlink-Leaves d.self (g.graph_map d.from).deps held),
      less,
      λ i. elim (Bool-cases (i == d.from)) [
        | inl e ↦ inl ((==_iff i d.from).0 e)
        | inr e ↦ inr (rw e refl)
      ],
      kept,
    )

-- GRAPH_change_action on a dependency that is in the graph.
pub graph_change_action-GraphOk :
    (d : Dependency) (new_action : ℕ) (g : Graph)
    → holds d.self (g.graph_map d.from).deps ≡ true
    → GraphOk g
    → (graph_change_action d new_action g ≡ ok (changed d new_action g))
      × GraphOk (changed d new_action g)
unfolding graph_change_action set_action
graph_change_action-GraphOk d new_action g held all = (
  rw held,
  write-Ok g.graph_map d.from (set_action_in d.self new_action (g.graph_map d.from)) all
      (set_action_in-Ok d.from d.self new_action (g.graph_map d.from) (all d.from)),
)
