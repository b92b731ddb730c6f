-- ===== src/Graph/Base.antt =====
-- Simulator/utils/graph.c and graph.h: the map of dependency queues and the operations on it. The
-- doubly linked chain `first_dep … last_dep` of a task is a list, front first, and `num_deps` is
-- kept beside it. A dependency is known by `self`, the address that `malloc` gave; the time stamp,
-- which is always 0, is left out. A task number out of the map is `undefined`.
use dimemas.Base.{
  ℕ, zero, suc, ◌+◌, ◌-◌, ◌/◌, ◌%◌, Bool, false, ◌&&◌, ◌||◌, List, [], ◌∷◌, ltb, leb, ◌==◌,
  if◌then◌else◌, Outcome, ok, panic, undefined, ℤ, pos,
}
use dimemas.Queue.{Ptr, a_nil}
use dimemas.Graph.Act

-- The values of graph.h.
abbrev pub strg_dep : ℕ
strg_dep = 1

abbrev pub soft_dep : ℕ
soft_dep = 2

abbrev pub glop_dep : ℕ
glop_dep = 4

abbrev pub soft_action_resolved : ℕ
soft_action_resolved = 65536

-- `GRAPH_ALL_ACTIONS`, the word of -1.
abbrev pub graph_all_actions : ℕ
graph_all_actions = 4294967295

-- `(a & b) != 0` on words of `n` bits.
abbrev pub meets : ℕ → ℕ → ℕ → Bool
meets zero a b = false
meets (suc n) a b = ((a % 2 == 1) && (b % 2 == 1)) || meets n (a / 2) (b / 2)

-- The fields of a `struct t_action` that the graph reads: one record for the members of the union.
pub record Action : Type 0 where
  pub action : ℕ
  pub partner : ℕ
  pub mess_tag : ℤ
  pub communic_id : ℤ
  pub rendez_vous : Bool
  pub glop_id : ℕ

-- `struct dependency`
pub record Dependency : Type 0 where
  pub self : Ptr
  pub from : ℕ
  pub to : ℕ
  pub action : ℕ
  pub type : ℕ
  pub p2p_tag : ℤ
  pub p2p_communic_id : ℤ
  pub global_op : ℕ
  pub communicator : Ptr
  pub file_offset : ℕ

-- `struct dependency_queue`
pub record DependencyQueue : Type 0 where
  pub deps : List Dependency
  pub num_deps : ℕ

-- `_graph_map` and `_nodes`
pub record Graph : Type 0 where
  pub nodes : ℕ
  pub graph_map : ℕ → DependencyQueue

abbrev pub no_deps : DependencyQueue
no_deps = record { deps = []; num_deps = 0 }

-- GRAPH_init, and GRAPH_reset on a map that is there already.
unfoldable pub graph_init : ℕ → Graph
graph_init nodes = record { nodes = nodes; graph_map = λ i. no_deps }

abbrev pub reset_below : ℕ → (ℕ → DependencyQueue) → ℕ → DependencyQueue
reset_below nodes m i = if ltb i nodes then no_deps else m i

unfoldable pub graph_reset : Graph → Graph
graph_reset g = record g { graph_map = reset_below g.nodes g.graph_map }

abbrev pub write : (ℕ → DependencyQueue) → ℕ → DependencyQueue → ℕ → DependencyQueue
write m from q i = if i == from then q else m i

-- The switch on the kind of the action, where p2p_tag and p2p_communic_id start at 0.
abbrev pub is_p2p : ℕ → Bool
is_p2p action =
    (action == Act.send) || (action == Act.recv) || (action == Act.irecv) || (action == Act.wait)

abbrev pub p2p : ℕ → ℤ → ℤ
p2p action field = if is_p2p action then field else pos 0

-- What GRAPH_add_dependency writes into the new block, by type.
-- The tag and the communicator of an action that is no message, which the code clears under DEBUG
-- only and does not read, are 0 here. `communicator` is the result of locate_communicator, `offset` the one of DAP_get_offset.
abbrev pub new_dependency : Ptr → ℕ → ℕ → ℕ → Action → Ptr → ℕ → Dependency
new_dependency fresh from to type a communicator offset = record {
  self = fresh;
  from = from;
  to = to;
  action = a.action;
  type = type;
  p2p_tag = p2p a.action a.mess_tag;
  p2p_communic_id = p2p a.action a.communic_id;
  global_op = if type == glop_dep then a.glop_id else 0;
  communicator = if type == glop_dep then communicator else a_nil;
  file_offset = offset;
}

-- `for (d = first_dep; d != NULL; d = d->next) if (d->to >= to_taskid) …`
unfoldable pub insert_dep : Dependency → List Dependency → List Dependency
insert_dep new [] = new ∷ []
insert_dep new (d ∷ ds) = if leb new.to d.to then new ∷ d ∷ ds else d ∷ insert_dep new ds

abbrev pub known_type : ℕ → Bool
known_type type = (type == strg_dep) || (type == soft_dep) || (type == glop_dep)

abbrev pub add_to : Dependency → DependencyQueue → DependencyQueue
unfolding insert_dep
add_to new q = record { deps = insert_dep new q.deps; num_deps = q.num_deps + 1 }

unfoldable pub graph_add_dependency :
    Ptr → ℕ → ℕ → ℕ → Action → Ptr → ℕ → Graph → Outcome (Graph × Dependency)
graph_add_dependency fresh from to type a communicator offset g =
    if known_type type
    then (if ltb from g.nodes
        then ok (
          record g {
            graph_map = write g.graph_map from (
                add_to (new_dependency fresh from to type a communicator offset)
                  (g.graph_map from));
          },
          new_dependency fresh from to type a communicator offset,
        )
        else undefined)
    else panic

-- Unlinking the block at an address.
unfoldable pub unlink : Ptr → List Dependency → List Dependency
unlink p [] = []
unlink p (d ∷ ds) = if d.self == p then ds else d ∷ unlink p ds

-- Whether the block is in the chain; one that is not has been freed.
abbrev pub holds : Ptr → List Dependency → Bool
holds p [] = false
holds p (d ∷ ds) = (d.self == p) || holds p ds

-- `num_deps--` on the unsigned field, which makes the assertion `num_deps >= 0` true.
abbrev pub one_less : ℕ → ℕ
one_less n = if n == 0 then 4294967295 else n - 1

abbrev pub unlink_from : Ptr → DependencyQueue → DependencyQueue
unfolding unlink
unlink_from p q = record { deps = unlink p q.deps; num_deps = one_less q.num_deps }

unfoldable pub graph_remove_dependency : Dependency → Graph → Outcome Graph
graph_remove_dependency d g =
    if holds d.self (g.graph_map d.from).deps
    then ok (record g {
      graph_map = write g.graph_map d.from (unlink_from d.self (g.graph_map d.from));
    })
    else undefined

unfoldable pub set_action : Ptr → ℕ → List Dependency → List Dependency
set_action p new_action [] = []
set_action p new_action (d ∷ ds) =
    if d.self == p then record d { action = new_action } ∷ ds else d ∷ set_action p new_action ds

abbrev pub set_action_in : Ptr → ℕ → DependencyQueue → DependencyQueue
unfolding set_action
set_action_in p new_action q = record q { deps = set_action p new_action q.deps }

unfoldable pub graph_change_action : Dependency → ℕ → Graph → Outcome Graph
graph_change_action d new_action g =
    if holds d.self (g.graph_map d.from).deps
    then ok (record g {
      graph_map = write g.graph_map d.from (set_action_in d.self new_action (g.graph_map d.from));
    })
    else undefined
