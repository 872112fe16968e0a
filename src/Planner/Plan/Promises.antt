-- ===== src/Planner/Plan/Promises.antt =====
-- What a plan promises.
use shrine.Prelude.{
  List, Option, String, [], ap, arith, eq_int, eq_pair, eq_str, keys, none, refl, some, subst, ◌∷◌,
  ◌≡◌,
}
use shrine.Manifest.{application_kind, resource_kind}
use shrine.Planner.Loader.{ManifestSet}
use shrine.Planner.Filter.{
  Filter, FilterError, FilterKind, filter_app, filter_none, filter_res, filter_team, unknown_filter,
  validate_filter,
}
use shrine.Planner.Policy.{apply_effective_pull_policy, map_values}
use shrine.Planner.Resolve.Whole.{ResolveError, resolve}
use shrine.Planner.Enrich.{
  Enriched, InferredEdge, chain_enrich, enriched, enrichment_failed, missing_manifest,
}
use shrine.Planner.Enrich.Chain.{IsEnrichedSet, chain_enrich-IsEnrichedSet}
use shrine.Planner.HostPorts.{PortConflict, detect_host_port_collisions}
use shrine.Planner.Collisions.{RouteCollision, detect_routing_collisions}
use shrine.Planner.Order.{Ordered, PlannedStep, dependency_cycle, order, out_of_fuel, steps}
use shrine.Planner.Order.Nodes.{IsNamed}
use shrine.Planner.Plan.{filter_steps_by_owner}
use shrine.Planner.Plan.Compose.{
  PlanContext, plan, planned, select_steps, with_enriched, with_filter, with_order, with_ports,
  with_resolved, with_routes,
}

-- What a filter selects of the order of a set.
abbrev pub IsSelected : FilterKind → String → ManifestSet → List PlannedStep → Type 0
IsSelected filter_none name set xs = order set ≡ steps xs
IsSelected filter_team name set xs =
    (whole : List PlannedStep) × (order set ≡ steps whole)
    × (filter_steps_by_owner whole set name ≡ xs)
IsSelected filter_app name set xs =
    ◌≡◌ {A = List PlannedStep} (record { kind = application_kind; name = name } ∷ []) xs
IsSelected filter_res name set xs =
    ◌≡◌ {A = List PlannedStep} (record { kind = resource_kind; name = name } ∷ []) xs
IsSelected (unknown_filter k) name set xs = ⊥

module _ (xs : List PlannedStep) (next : ManifestSet) (edges : List InferredEdge) where
  with_order-planned :
      (keep_steps : List PlannedStep → List PlannedStep) (set : ManifestSet)
      (es : List InferredEdge) (o : Ordered)
      → with_order keep_steps set es o ≡ planned xs next edges
      → (set ≡ next) × ((whole : List PlannedStep) × (o ≡ steps whole) × (keep_steps whole ≡ xs))
  with_order-planned keep_steps set es (steps whole) e = (ground arith, (whole, refl, ground arith))
  with_order-planned keep_steps set es (dependency_cycle stuck) e = absurd (ground arith)
  with_order-planned keep_steps set es out_of_fuel e = absurd (ground arith)

  select_steps-planned :
      (kind : FilterKind) (name : String) (set : ManifestSet) (es : List InferredEdge)
      → select_steps kind name set es ≡ planned xs next edges
      → (set ≡ next) × IsSelected kind name set xs
  unfolding select_steps
  select_steps-planned filter_none name set es e =
      let (same, (whole, o, k)) = with_order-planned (λ ys. ys) set es (order set) e in
      (same, subst (λ ys. order set ≡ steps ys) k o)
  select_steps-planned filter_team name set es e =
      with_order-planned (λ ys. filter_steps_by_owner ys set name) set es (order set) e
  select_steps-planned filter_app name set es e = (ground arith, ground arith)
  select_steps-planned filter_res name set es e = (ground arith, ground arith)
  select_steps-planned (unknown_filter k) name set es e = absurd (ground arith)

  with_routes-planned :
      (f : Filter) (set : ManifestSet) (es : List InferredEdge) (cs : List RouteCollision)
      → with_routes f set es cs ≡ planned xs next edges
      → (cs ≡ []) × (set ≡ next) × IsSelected f.kind f.name set xs
  with_routes-planned f set es [] e =
      let (same, chosen) = select_steps-planned f.kind f.name set es e in (refl, same, chosen)
  with_routes-planned f set es (c ∷ cs) e = absurd (ground arith)

  module _ (ctx : PlanContext) (f : Filter) where
    -- What holds of a set behind the enrichment.
    pub record IsChecked (set : ManifestSet) : Type 0 where
      pub ports : detect_host_port_collisions ctx.port_message set ctx.ports ≡ []
      pub routes : detect_routing_collisions ctx.route_message set f ≡ []
      pub same : set ≡ next
      pub chosen : IsSelected f.kind f.name set xs

    with_ports-planned :
        (set : ManifestSet) (es : List InferredEdge) (cs : List PortConflict)
        → detect_host_port_collisions ctx.port_message set ctx.ports ≡ cs
        → with_ports ctx f set es cs ≡ planned xs next edges
        → IsChecked set
    with_ports-planned set es [] d e =
        let (routes, same, chosen) =
          with_routes-planned f set es (detect_routing_collisions ctx.route_message set f) e in
        record { ports = d; routes = routes; same = same; chosen = chosen }
    with_ports-planned set es (c ∷ cs) d e = absurd (ground arith)

    with_enriched-planned :
        (r : Enriched)
        → with_enriched ctx f r ≡ planned xs next edges
        → (set : ManifestSet) × (es : List InferredEdge) × (r ≡ enriched set es) × IsChecked set
    with_enriched-planned (enriched set es) e = (set, es, refl, with_ports-planned set es _ refl e)
    with_enriched-planned (enrichment_failed w) e = absurd (ground arith)
    with_enriched-planned missing_manifest e = absurd (ground arith)

    with_resolved-planned :
        (set : ManifestSet) (errors : List ResolveError)
        → with_resolved ctx f set errors ≡ planned xs next edges
        → (errors ≡ []) × (with_enriched ctx f (chain_enrich set) ≡ planned xs next edges)
    with_resolved-planned set [] e = (refl, e)
    with_resolved-planned set (x ∷ errors) e = absurd (ground arith)

    with_filter-planned :
        (dflt : String) (set : ManifestSet) (o : Option FilterError)
        → with_filter ctx f dflt set o ≡ planned xs next edges
        → (o ≡ none) × (with_filter ctx f dflt set none ≡ planned xs next edges)
    with_filter-planned dflt set none e = (refl, e)
    with_filter-planned dflt set (some x) e = absurd (ground arith)

keys-map_values {ℓ} :
    {V : Type ℓ} (g : V → V) (m : List (String × V)) → keys (map_values g m) ≡ keys m
keys-map_values g [] = refl
keys-map_values g ((k, v) ∷ m) = ap (λ ks. k ∷ ks) (keys-map_values g m)

pub effective-IsNamed :
    (set : ManifestSet) (dflt : String)
    → IsNamed set
    → IsNamed (apply_effective_pull_policy set dflt)
unfolding apply_effective_pull_policy
effective-IsNamed set dflt h = record {
  apps_once = rw (keys-map_values _ set.applications) h.apps_once;
  resources_once = rw (keys-map_values _ set.resources) h.resources_once;
}

-- What a plan has gone through, and which steps it has.
pub record IsPlanned (ctx : PlanContext) (set : ManifestSet) (f : Filter) (dflt : String)
    (xs : List PlannedStep) (next : ManifestSet) : Type 0 where
  pub accepted : validate_filter f set ≡ none
  pub resolved :
      resolve ctx.parse ctx.load_team (apply_effective_pull_policy set dflt) ctx.registries ≡ []
  pub rich : IsEnrichedSet (apply_effective_pull_policy set dflt) next
  pub ports : detect_host_port_collisions ctx.port_message next ctx.ports ≡ []
  pub routes : detect_routing_collisions ctx.route_message next f ≡ []
  pub chosen : IsSelected f.kind f.name next xs

-- When `Plan` returns steps for a set that holds no name twice in a kind, its filter is accepted by
-- the set; nothing in the set with its effective policies fails to resolve; the set of the result is
-- that set enriched; it has no collision of ports, and none of routes in the scope of the filter;
-- and the steps are all of its order, those of the team that are in its order, or the one that the
-- filter names.
pub plan-IsPlanned :
    (ctx : PlanContext) (set next : ManifestSet) (f : Filter) (dflt : String)
    (xs : List PlannedStep) (edges : List InferredEdge)
    → IsNamed set
    → plan ctx set f dflt ≡ planned xs next edges
    → IsPlanned ctx set f dflt xs next
unfolding plan
plan-IsPlanned ctx set next f dflt xs edges named e =
    let effective = apply_effective_pull_policy set dflt in
    let (accepted, more) =
      with_filter-planned xs next edges ctx f dflt set (validate_filter f set) e in
    let (resolved, rest) =
      with_resolved-planned xs next edges ctx f effective
        (resolve ctx.parse ctx.load_team effective ctx.registries) more in
    let (mid, es, made, checked) =
      with_enriched-planned xs next edges ctx f (chain_enrich effective) rest in
    let named_effective = effective-IsNamed set dflt named in
    let rich =
      chain_enrich-IsEnrichedSet effective mid es named_effective.apps_once
        named_effective.resources_once made in
    rw (← checked.same) (record {
      accepted = accepted;
      resolved = resolved;
      rich = rich;
      ports = checked.ports;
      routes = checked.routes;
      chosen = checked.chosen;
    })
