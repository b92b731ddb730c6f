-- ===== src/Graph/Search.antt =====
-- Simulator/utils/graph.c: the two queries, and the search for a cycle through a task. The chain
-- that the search writes into its array is a list, and `deepness` its length. The C function calls
-- itself with no mark on the tasks it has seen; here it is on fuel, one unit for each call.
use dimemas.Base.{
  ℕ, zero, suc, Bool, true, not, ◌&&◌, ◌||◌, Option, none, some, List, [], ◌∷◌, ◌++◌, ltb, ◌==◌,
  if◌then◌else◌, Outcome, ok, undefined, ℤ, pos, minus_one, eqz, gtz,
}
use dimemas.Graph.Act
use dimemas.Graph.Base.{
  strg_dep, glop_dep, soft_action_resolved, graph_all_actions, meets, Dependency, Graph,
}

-- The four actions with a tag, or the resolved one, asked for alone.
abbrev pub has_tag : ℕ → Bool
has_tag action =
    (action == Act.send)
    || (action == Act.recv)
    || (action == Act.wait)
    || (action == Act.irecv)
    || (action == soft_action_resolved)

abbrev pub same_message : Dependency → ℤ → ℤ → Bool
same_message d mess_tag communic_id =
    (eqz d.p2p_communic_id communic_id && eqz d.p2p_tag mess_tag)
    || (eqz mess_tag minus_one && eqz communic_id minus_one)

abbrev pub tag_passes : Dependency → ℕ → ℤ → ℤ → Bool
tag_passes d action mess_tag communic_id =
    if has_tag action then same_message d mess_tag communic_id else true

-- The first test of GRAPH_get_dependency.
abbrev pub fits : ℤ → ℕ → ℕ → Dependency → Bool
fits to type action d = eqz (pos d.to) to && meets 32 d.type type && meets 32 d.action action

unfoldable pub first_dependency : ℤ → ℕ → ℕ → ℤ → ℤ → List Dependency → Option Dependency
first_dependency to type action mess_tag communic_id [] = none
first_dependency to type action mess_tag communic_id (d ∷ ds) =
    let rest = first_dependency to type action mess_tag communic_id ds in
    if fits to type action d
    then (if tag_passes d action mess_tag communic_id then some d else rest)
    else if gtz (pos d.to) to
    then none
    else rest

unfoldable pub graph_get_dependency : ℕ → ℤ → ℕ → ℕ → ℤ → ℤ → Graph → Outcome (Option Dependency)
unfolding first_dependency
graph_get_dependency from to type action mess_tag communic_id g =
    if ltb from g.nodes
    then ok (first_dependency to type action mess_tag communic_id (g.graph_map from).deps)
    else undefined

-- The tests of GRAPH_get_dependencies: -1 asks for every task, or every action.
abbrev pub fits_any : ℤ → ℕ → ℕ → Dependency → Bool
fits_any to type action d =
    (eqz (pos d.to) to || eqz to minus_one)
    && meets 32 d.type type
    && (meets 32 d.action action || (action == graph_all_actions))

unfoldable pub all_dependencies : ℤ → ℕ → ℕ → ℤ → ℤ → List Dependency → List Dependency
all_dependencies to type action mess_tag communic_id [] = []
all_dependencies to type action mess_tag communic_id (d ∷ ds) =
    let rest = all_dependencies to type action mess_tag communic_id ds in
    if fits_any to type action d
    then (if tag_passes d action mess_tag communic_id then d ∷ rest else rest)
    else rest

-- The array that grows, with its size; the empty set is the NULL result.
unfoldable pub graph_get_dependencies : ℕ → ℤ → ℕ → ℕ → ℤ → ℤ → Graph → Outcome (List Dependency)
unfolding all_dependencies
graph_get_dependencies from to type action mess_tag communic_id g =
    if ltb from g.nodes
    then ok (all_dependencies to type action mess_tag communic_id (g.graph_map from).deps)
    else undefined

-- What the search for a cycle comes to.
pub data Search : Type 0 where
  absent : Search
  found : List ℕ → Search
  out_of_map out_of_fuel : Search

-- `d->type == STRG_DEP || d->type == GLOP_DEP`
abbrev pub blocks : Dependency → Bool
blocks d = (d.type == strg_dep) || (d.type == glop_dep)

-- `if (res) return TRUE`, or the loop goes on.
abbrev pub or_else : Search → Search → Search
or_else absent rest = rest
or_else (found chain) rest = found chain
or_else out_of_map rest = out_of_map
or_else out_of_fuel rest = out_of_fuel

-- The loop over the dependencies of a task, in GRAPH_look_for_cycle and in __look_for_cycle.
unfoldable pub look_along : (ℕ → Search) → List Dependency → Search
look_along visit [] = absent
look_along visit (d ∷ ds) =
    let rest = look_along visit ds in if blocks d then or_else (visit d.to) rest else rest

unfoldable pub look_from : Graph → ℕ → ℕ → ℕ → List ℕ → Search
unfolding look_along
look_from g zero from root chain = out_of_fuel
look_from g (suc fuel) from root chain =
    let visit = λ (to : ℕ). look_from g fuel to root (chain ++ from ∷ []) in
    if from == root
    then found (chain ++ from ∷ [])
    else if not (ltb from g.nodes)
    then out_of_map
    else if (g.graph_map from).num_deps == 0
    then absent
    else look_along visit (g.graph_map from).deps

unfoldable pub graph_look_for_cycle : Graph → ℕ → ℕ → Search
unfolding look_along look_from
graph_look_for_cycle g fuel root =
    if ltb root g.nodes
    then look_along (λ to. look_from g fuel to root (root ∷ [])) (g.graph_map root).deps
    else out_of_map
