-- ===== src/Deadlock/Analysis.antt =====
-- Simulator/utils/deadlock_analysis.c: DEADLOCK_new_communic_event and the global dependencies. The
-- result is the one of `_is_deadlocked`: `found` for TRUE, `absent` for FALSE. What that function
-- does after a cycle (choosing an operation to ignore, and the reboot) is not part of it.
use dimemas.Base.{
  ℕ, Bool, true, false, Option, none, some, List, [], ◌∷◌, ◌==◌, if◌then◌else◌, Outcome, ok, panic,
  undefined, ◌>>=◌, pos, minus_one,
}
use dimemas.Queue.{Ptr}
use dimemas.Graph.Act
use dimemas.Graph.Base.{
  strg_dep, soft_dep, glop_dep, soft_action_resolved, Action, Dependency, Graph,
  graph_add_dependency, graph_remove_dependency, graph_change_action,
}
use dimemas.Graph.Search.{
  Search, absent, found, out_of_map, out_of_fuel, graph_get_dependency, graph_get_dependencies,
  graph_look_for_cycle,
}

-- What a call reads elsewhere: the block from `malloc`, the communicator, the offset in the trace,
-- and the fuel of the search.
pub record Site : Type 0 where
  pub fresh : Ptr
  pub communicator : Ptr
  pub offset : ℕ
  pub fuel : ℕ

-- `RECV|WAIT`: 3 | 15.
abbrev pub recv_or_wait : ℕ
recv_or_wait = 15

abbrev pub add : Site → ℕ → ℕ → ℕ → Action → Graph → Outcome (Graph × Dependency)
add site from to type a g =
    graph_add_dependency site.fresh from to type a site.communicator site.offset g

abbrev pub quiet : Outcome Graph → Outcome (Graph × Search)
quiet step = step >>= (λ g. ok (g, absent))

-- The search ends, or it reads out of the map or, in a cycle that does not pass its root, calls
-- itself until the stack overflows. The fuel stands for the room on the stack.
abbrev pub searched : Graph → Search → Outcome (Graph × Search)
searched g absent = ok (g, absent)
searched g (found chain) = ok (g, found chain)
searched g out_of_map = undefined
searched g out_of_fuel = undefined

-- A new strong dependency, and the search from its task.
unfoldable pub block_on : Site → ℕ → ℕ → Action → Graph → Outcome (Graph × Search)
block_on site from to a g =
    add site from to strg_dep a g >>= (λ r. searched r.0 (graph_look_for_cycle r.0 site.fuel from))

-- A new soft dependency that is resolved from the start.
unfoldable pub add_resolved : Site → ℕ → ℕ → Action → Graph → Outcome Graph
add_resolved site from to a g =
    add site from to soft_dep a g >>= (λ r. graph_change_action r.1 soft_action_resolved r.0)

-- `assert(res == TRUE)`
abbrev pub assert_found : Graph × Search → Outcome (Graph × Search)
assert_found (g, found chain) = ok (g, found chain)
assert_found (g, absent) = panic
assert_found (g, out_of_map) = undefined
assert_found (g, out_of_fuel) = undefined

-- case SEND
abbrev pub send_unmatched : Site → ℕ → Action → Graph → List Dependency → Outcome (Graph × Search)
send_unmatched site from a g (irecv ∷ others) =
    quiet (graph_change_action irecv soft_action_resolved g)
send_unmatched site from a g [] =
    if a.rendez_vous
    then block_on site from a.partner a g
    else quiet (add_resolved site from a.partner a g)

abbrev pub send_to_wait :
    Site → ℕ → Action → Graph → Dependency → List Dependency → Outcome (Graph × Search)
send_to_wait site from a g dep [] = block_on site from a.partner a g >>= assert_found
send_to_wait site from a g dep (irecv ∷ others) =
    if irecv.action == Act.irecv
    then quiet (graph_remove_dependency dep g >>= graph_remove_dependency irecv)
    else panic

abbrev pub send_matched :
    Site → ℕ → Action → Graph → Option Dependency → List Dependency → Outcome (Graph × Search)
send_matched site from a g none deps = send_unmatched site from a g deps
send_matched site from a g (some dep) deps =
    if dep.action == Act.recv
    then quiet (graph_remove_dependency dep g)
    else if dep.action == Act.wait
    then send_to_wait site from a g dep deps
    else send_unmatched site from a g deps

unfoldable pub send_event : Site → ℕ → Action → Graph → Outcome (Graph × Search)
send_event site from a g =
    graph_get_dependency a.partner (pos from) strg_dep recv_or_wait a.mess_tag a.communic_id g
    >>= (λ dep.
        graph_get_dependencies a.partner (pos from) soft_dep Act.irecv a.mess_tag a.communic_id g
        >>= (λ deps. send_matched site from a g dep deps))

-- case RECV
abbrev pub recv_soft : Site → ℕ → Action → Graph → Option Dependency → Outcome (Graph × Search)
recv_soft site from a g (some soft) = quiet (graph_change_action soft soft_action_resolved g)
recv_soft site from a g none = block_on site from a.partner a g

abbrev pub recv_matched : Site → ℕ → Action → Graph → Option Dependency → Outcome (Graph × Search)
recv_matched site from a g (some dep) = quiet (graph_remove_dependency dep g)
recv_matched site from a g none =
    graph_get_dependency a.partner (pos from) soft_dep soft_action_resolved a.mess_tag a.communic_id
      g
    >>= recv_soft site from a g

unfoldable pub recv_event : Site → ℕ → Action → Graph → Outcome (Graph × Search)
recv_event site from a g =
    graph_get_dependency a.partner (pos from) strg_dep Act.send a.mess_tag a.communic_id g
    >>= recv_matched site from a g

-- case WAIT
abbrev pub wait_matched :
    Site → ℕ → Action → Graph → Option Dependency → Option Dependency → Outcome (Graph × Search)
wait_matched site from a g (some dep) aux = quiet (graph_remove_dependency dep g)
wait_matched site from a g none (some aux) = quiet (graph_remove_dependency aux g)
wait_matched site from a g none none = block_on site from a.partner a g

abbrev pub resolved : ℕ → ℕ → Action → Graph → Outcome (Option Dependency)
resolved from to a g =
    graph_get_dependency from (pos to) soft_dep soft_action_resolved a.mess_tag a.communic_id g

unfoldable pub wait_event : Site → ℕ → Action → Graph → Outcome (Graph × Search)
wait_event site from a g =
    resolved from a.partner a g
    >>= (λ dep. resolved a.partner from a g >>= wait_matched site from a g dep)

-- case IRECV
abbrev pub irecv_matched :
    Site → ℕ → Action → Graph → Option Dependency → Option Dependency → Outcome (Graph × Search)
irecv_matched site from a g (some dep) soft =
    quiet (add_resolved site from a.partner a g >>= graph_remove_dependency dep)
irecv_matched site from a g none (some soft) =
    quiet (add_resolved site from a.partner a g >>= graph_remove_dependency soft)
irecv_matched site from a g none none =
    quiet (add site from a.partner soft_dep a g >>= (λ r. ok r.0))

unfoldable pub irecv_event : Site → ℕ → Action → Graph → Outcome (Graph × Search)
irecv_event site from a g =
    graph_get_dependency a.partner (pos from) strg_dep Act.send a.mess_tag a.communic_id g
    >>= (λ dep. resolved a.partner from a g >>= irecv_matched site from a g dep)

-- DEADLOCK_manage_global_dependency: the tasks of the communicator in turn; `freshes` are the
-- blocks that `malloc` gives.
abbrev pub glop_matched : Site → ℕ → ℕ → Action → Graph → Option Dependency → Outcome (Graph × Bool)
glop_matched site from to a g none = add site from to glop_dep a g >>= (λ r. ok (r.0, true))
glop_matched site from to a g (some dep) =
    if dep.global_op == a.glop_id
    then graph_remove_dependency dep g >>= (λ h. ok (h, false))
    else (add site from to glop_dep a g >>= (λ r. ok (r.0, true)))

unfoldable pub manage_global_dependency :
    Site → ℕ → Action → List (ℕ × Ptr) → Graph → Bool → Outcome (Graph × Bool)
manage_global_dependency site from a [] g blocked = ok (g, blocked)
manage_global_dependency site from a ((to, fresh) ∷ others) g blocked =
    let skip = manage_global_dependency site from a others g blocked in
    if from == to
    then skip
    else graph_get_dependency to (pos from) glop_dep a.action minus_one minus_one g
      >>= glop_matched (record site { fresh = fresh }) from to a g
      >>= (λ r. manage_global_dependency site from a others r.0 (if r.1 then true else blocked))

-- case GLOBAL_OP
abbrev pub global_blocked : Site → ℕ → Graph × Bool → Outcome (Graph × Search)
global_blocked site from (g, blocked) =
    if blocked then searched g (graph_look_for_cycle g site.fuel from) else ok (g, absent)

unfoldable pub global_event : Site → ℕ → Action → List (ℕ × Ptr) → Graph → Outcome (Graph × Search)
global_event site from a members g =
    manage_global_dependency site from a members g false >>= global_blocked site from

-- DEADLOCK_new_communic_event. `late` is `prog >= _end_analysis_tpercent`, and the last result is
-- `with_deadlock_analysis`. The query for strong dependencies only prints a warning.
abbrev pub still_on : Outcome (Graph × Search) → Outcome (Graph × Search × Bool)
still_on step = step >>= (λ r. ok (r.0, r.1, true))

-- `switch (action)`
abbrev pub by_kind {ℓ} : {A : Type ℓ} → ℕ → A → A → A → A → A → A → A
by_kind kind send recv wait global irecv other =
    if kind == Act.send
    then send
    else if kind == Act.recv
    then recv
    else if kind == Act.wait
    then wait
    else if kind == Act.global_op
    then global
    else if kind == Act.irecv
    then irecv
    else other

unfoldable pub new_communic_event :
    Site → Bool → List (ℕ × Ptr) → ℕ → Action → Graph → Outcome (Graph × Search × Bool)
new_communic_event site late members from a g =
    graph_get_dependencies from minus_one strg_dep 4294967295 minus_one minus_one g >>= (λ strong.
      if late
      then ok (g, absent, false)
      else by_kind a.action (still_on (send_event site from a g))
          (still_on (recv_event site from a g)) (still_on (wait_event site from a g))
          (still_on (global_event site from a members g)) (still_on (irecv_event site from a g))
          panic)
