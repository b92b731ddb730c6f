-- ===== src/Deadlock/Safety.antt =====
-- Simulator/utils/deadlock_analysis.c: the events of the messages never use a freed dependency, and
-- they keep the graph in order.
use dimemas.Base.{
  ℕ, ◌<◌, ◌≡◌, refl, sym, subst, ◌⊎◌, inl, inr, Bool, true, Option, none, some, Outcome, ok,
  undefined, ◌>>=◌, pos,
}
use dimemas.Graph.Act
use dimemas.Graph.Base.{
  strg_dep, soft_dep, soft_action_resolved, Action, Dependency, Graph, new_dependency,
  graph_remove_dependency, graph_change_action,
}
use dimemas.Graph.Search.{Search, absent, found, out_of_map, out_of_fuel, graph_look_for_cycle}
use dimemas.Graph.Order.{GraphOk}
use dimemas.Graph.Update.{
  added, removed, changed, graph_add_dependency-GraphOk, removed-GraphOk,
  graph_change_action-GraphOk,
}
use dimemas.Graph.Held.{InGraph, InGraph-added, InGraph-new, InGraph-changed}
use dimemas.Deadlock.Analysis.{
  Site, searched, quiet, block_on, add_resolved, recv_soft, recv_matched, recv_event, resolved,
  wait_matched, wait_event, irecv_matched, irecv_event,
}
use dimemas.Deadlock.Queries.{Found, query-Found}

-- The search from a task of a graph does not end on the fuel, or it reads out of the map.
abbrev pub Stuck : Site → ℕ → Graph → Type 0
Stuck site from h =
    (graph_look_for_cycle h site.fuel from ≡ out_of_map)
    ⊎ (graph_look_for_cycle h site.fuel from ≡ out_of_fuel)

-- An event that returns a graph in order, or gets stuck in the search for a cycle on one.
abbrev pub Keeps : Site → ℕ → Graph → Outcome (Graph × Search) → Type 0
Keeps site from g step =
    ((h : Graph) × (r : Search) × (step ≡ ok (h, r)) × GraphOk h × (h.nodes ≡ g.nodes))
    ⊎ ((h : Graph) × (step ≡ undefined) × GraphOk h × (h.nodes ≡ g.nodes) × Stuck site from h)

searched-Keeps :
    (site : Site) (from : ℕ) (g h : Graph) (r : Search)
    → graph_look_for_cycle h site.fuel from ≡ r
    → GraphOk h
    → h.nodes ≡ g.nodes
    → Keeps site from g (searched h r)
searched-Keeps site from g h absent e kept same = inl (h, absent, refl, kept, same)
searched-Keeps site from g h (found chain) e kept same = inl (h, found chain, refl, kept, same)
searched-Keeps site from g h out_of_map e kept same = inr (h, refl, kept, same, inl e)
searched-Keeps site from g h out_of_fuel e kept same = inr (h, refl, kept, same, inr e)

block_on-Keeps :
    (site : Site) (from to : ℕ) (a : Action) (g : Graph)
    → from < g.nodes
    → GraphOk g
    → Keeps site from g (block_on site from to a g)
unfolding block_on
block_on-Keeps site from to a g low all =
    let new = new_dependency site.fresh from to strg_dep a site.communicator site.offset in
    let (is, kept) =
      graph_add_dependency-GraphOk site.fresh from to strg_dep a site.communicator site.offset g
        refl low all in
    rw is (searched-Keeps site from g (added new g) _ refl kept refl)

remove-Keeps :
    (site : Site) (from : ℕ) (d : Dependency) (g : Graph)
    → InGraph d g
    → GraphOk g
    → Keeps site from g (quiet (graph_remove_dependency d g))
remove-Keeps site from d g held all =
    let (is, less, kept) = removed-GraphOk d g held all in
    inl (removed d g, absent, rw is, kept, refl)

change-Keeps :
    (site : Site) (from : ℕ) (d : Dependency) (action : ℕ) (g : Graph)
    → InGraph d g
    → GraphOk g
    → Keeps site from g (quiet (graph_change_action d action g))
change-Keeps site from d action g held all =
    let (is, kept) = graph_change_action-GraphOk d action g held all in
    inl (changed d action g, absent, rw is, kept, refl)

recv_matched-Keeps :
    (site : Site) (from : ℕ) (a : Action) (g : Graph) (o : Option Dependency)
    → Found g o
    → from < g.nodes
    → a.partner < g.nodes
    → GraphOk g
    → Keeps site from g (recv_matched site from a g o)
recv_matched-Keeps site from a g (some d) held low low' all = remove-Keeps site from d g held all
recv_matched-Keeps site from a g none held low low' all =
    let (o, is, held') =
      query-Found a.partner (pos from) soft_dep soft_action_resolved a.mess_tag a.communic_id g low'
        all in
    subst (λ q. Keeps site from g (q >>= recv_soft site from a g)) (sym is) (soft o held')
  where
    soft : (o : Option Dependency) → Found g o → Keeps site from g (recv_soft site from a g o)
    soft none h = block_on-Keeps site from a.partner a g low all
    soft (some d) h = change-Keeps site from d soft_action_resolved g h all

-- A receive between tasks of the map.
pub recv_event-Keeps :
    (site : Site) (from : ℕ) (a : Action) (g : Graph)
    → from < g.nodes
    → a.partner < g.nodes
    → GraphOk g
    → Keeps site from g (recv_event site from a g)
unfolding recv_event
recv_event-Keeps site from a g low low' all =
    let (o, is, held) =
      query-Found a.partner (pos from) strg_dep Act.send a.mess_tag a.communic_id g low' all in
    subst (λ q. Keeps site from g (q >>= recv_matched site from a g)) (sym is)
      (recv_matched-Keeps site from a g o held low low' all)

wait_matched-Keeps :
    (site : Site) (from : ℕ) (a : Action) (g : Graph) (o aux : Option Dependency)
    → Found g o
    → Found g aux
    → from < g.nodes
    → GraphOk g
    → Keeps site from g (wait_matched site from a g o aux)
wait_matched-Keeps site from a g (some d) aux h h' low all = remove-Keeps site from d g h all
wait_matched-Keeps site from a g none (some d) h h' low all = remove-Keeps site from d g h' all
wait_matched-Keeps site from a g none none h h' low all =
    block_on-Keeps site from a.partner a g low all

resolved-Found :
    (from to : ℕ) (a : Action) (g : Graph)
    → from < g.nodes
    → GraphOk g
    → (o : Option Dependency) × (resolved from to a g ≡ ok o) × Found g o
resolved-Found from to a g low all =
    query-Found from (pos to) soft_dep soft_action_resolved a.mess_tag a.communic_id g low all

-- A wait for a message between tasks of the map.
pub wait_event-Keeps :
    (site : Site) (from : ℕ) (a : Action) (g : Graph)
    → from < g.nodes
    → a.partner < g.nodes
    → GraphOk g
    → Keeps site from g (wait_event site from a g)
unfolding wait_event
wait_event-Keeps site from a g low low' all =
    let (o, is, held) = resolved-Found from a.partner a g low all in
    let (aux, is', held') = resolved-Found a.partner from a g low' all in
    subst
      (λ q.
        Keeps site from g
          (q >>= (λ dep. resolved a.partner from a g >>= wait_matched site from a g dep)))
      (sym is)
      (subst (λ q. Keeps site from g (q >>= wait_matched site from a g o)) (sym is')
        (wait_matched-Keeps site from a g o aux held held' low all))

-- A resolved dependency is added, and another one is taken out.
swap-Keeps :
    (site : Site) (from : ℕ) (a : Action) (g : Graph) (d : Dependency)
    → InGraph d g
    → from < g.nodes
    → GraphOk g
    → Keeps site from g (quiet (add_resolved site from a.partner a g >>= graph_remove_dependency d))
unfolding add_resolved
swap-Keeps site from a g d held low all =
    let new = new_dependency site.fresh from a.partner soft_dep a site.communicator site.offset in
    let (is, kept) =
      graph_add_dependency-GraphOk site.fresh from a.partner soft_dep a site.communicator
        site.offset g refl low all in
    let (is', kept') =
      graph_change_action-GraphOk new soft_action_resolved (added new g) (InGraph-new new g) kept in
    let g' = changed new soft_action_resolved (added new g) in
    let (is'', less, kept'') =
      removed-GraphOk d g'
        (InGraph-changed d new soft_action_resolved (added new g) (InGraph-added d new g held))
        kept' in
    inl (removed d g', absent, rw (is, is', is''), kept'', refl)

irecv_matched-Keeps :
    (site : Site) (from : ℕ) (a : Action) (g : Graph) (o soft : Option Dependency)
    → Found g o
    → Found g soft
    → from < g.nodes
    → GraphOk g
    → Keeps site from g (irecv_matched site from a g o soft)
irecv_matched-Keeps site from a g (some d) soft h h' low all = swap-Keeps site from a g d h low all
irecv_matched-Keeps site from a g none (some d) h h' low all = swap-Keeps site from a g d h' low all
irecv_matched-Keeps site from a g none none h h' low all =
    let new = new_dependency site.fresh from a.partner soft_dep a site.communicator site.offset in
    let (is, kept) =
      graph_add_dependency-GraphOk site.fresh from a.partner soft_dep a site.communicator
        site.offset g refl low all in
    inl (added new g, absent, rw is, kept, refl)

-- A receive that does not block, between tasks of the map.
pub irecv_event-Keeps :
    (site : Site) (from : ℕ) (a : Action) (g : Graph)
    → from < g.nodes
    → a.partner < g.nodes
    → GraphOk g
    → Keeps site from g (irecv_event site from a g)
unfolding irecv_event
irecv_event-Keeps site from a g low low' all =
    let (o, is, held) =
      query-Found a.partner (pos from) strg_dep Act.send a.mess_tag a.communic_id g low' all in
    let (soft, is', held') = resolved-Found a.partner from a g low' all in
    subst
      (λ q.
        Keeps site from g
          (q >>= (λ dep. resolved a.partner from a g >>= irecv_matched site from a g dep)))
      (sym is)
      (subst (λ q. Keeps site from g (q >>= irecv_matched site from a g o)) (sym is')
        (irecv_matched-Keeps site from a g o soft held held' low all))

-- The analysis stays on after the event, or the event is stuck.
abbrev GoesOn : Site → ℕ → Graph → Outcome (Graph × Search × Bool) → Type 0
GoesOn site from g step =
    ((h : Graph) × (r : Search) × (step ≡ ok (h, r, true)) × GraphOk h × (h.nodes ≡ g.nodes))
    ⊎ ((h : Graph) × (step ≡ undefined) × GraphOk h × (h.nodes ≡ g.nodes) × Stuck site from h)
