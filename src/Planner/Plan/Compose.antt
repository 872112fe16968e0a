-- ===== src/Planner/Plan/Compose.antt =====
-- internal/planner/plan.go: `Plan`. What is outside the planner is in a record of parameters: the
-- parser of templates, the store of teams, the configuration, and the texts of the collisions.
use shrine.Prelude.{List, Option, String, [], eq_int, eq_pair, eq_str, none, some, ◌∷◌}
use shrine.Manifest.{TeamManifest, application_kind, resource_kind}
use shrine.Planner.Loader.{ManifestSet}
use shrine.Planner.Filter.{
  Filter, FilterError, FilterKind, filter_app, filter_none, filter_res, filter_team, unknown_filter,
  validate_filter,
}
use shrine.Planner.Policy.{apply_effective_pull_policy}
use shrine.Planner.Templates.{Parser}
use shrine.Planner.Resolve.References.{RegistryConfig}
use shrine.Planner.Resolve.Whole.{ResolveError, resolve}
use shrine.Planner.Enrich.{
  Enriched, EnrichmentError, InferredEdge, chain_enrich, enriched, enrichment_failed,
  missing_manifest,
}
use shrine.Planner.HostPorts.{PortConflict, PortContext, detect_host_port_collisions}
use shrine.Planner.Collisions.{RouteCollision, detect_routing_collisions}
use shrine.Planner.Order.{Ordered, PlannedStep, dependency_cycle, order, out_of_fuel, steps}
use shrine.Planner.Plan.{filter_steps_by_owner}

pub record PlanContext : Type 0 where
  pub parse : Parser
  pub load_team : String → Option TeamManifest
  pub registries : List RegistryConfig
  pub ports : PortContext
  pub port_message : PortConflict → String
  pub route_message : RouteCollision → String

-- PlanResult: its fields of a success, or the kind of error that it holds. `plan_fault` stands for the
-- empty result that `Plan` cannot reach, and for the faults of enrichment and of the sorter.
pub data PlanResult : Type 0 where
  planned : List PlannedStep → ManifestSet → List InferredEdge → PlanResult
  filter_error : FilterError → PlanResult
  validation_errors : List ResolveError → PlanResult
  enrichment_error : EnrichmentError → PlanResult
  port_conflicts : List PortConflict → PlanResult
  route_conflicts : List RouteCollision → PlanResult
  cycle_error : List String → PlanResult
  plan_fault : PlanResult

-- The steps of Order, all or those of a team.
abbrev pub with_order :
    (List PlannedStep → List PlannedStep) → ManifestSet → List InferredEdge → Ordered → PlanResult
with_order keep_steps set edges (steps xs) = planned (keep_steps xs) set edges
with_order keep_steps set edges (dependency_cycle stuck) = cycle_error stuck
with_order keep_steps set edges out_of_fuel = plan_fault

-- The switch on the kind of the filter.
unfoldable pub select_steps : FilterKind → String → ManifestSet → List InferredEdge → PlanResult
unfolding filter_steps_by_owner order
select_steps filter_none name set edges = with_order (λ xs. xs) set edges (order set)
select_steps filter_team name set edges =
    with_order (λ xs. filter_steps_by_owner xs set name) set edges (order set)
select_steps filter_app name set edges =
    planned (record { kind = application_kind; name = name } ∷ []) set edges
select_steps filter_res name set edges =
    planned (record { kind = resource_kind; name = name } ∷ []) set edges
select_steps (unknown_filter k) name set edges = plan_fault

abbrev pub with_routes : Filter → ManifestSet → List InferredEdge → List RouteCollision → PlanResult
with_routes f set edges [] = select_steps f.kind f.name set edges
with_routes f set edges (c ∷ cs) = route_conflicts (c ∷ cs)

abbrev pub with_ports :
    PlanContext → Filter → ManifestSet → List InferredEdge → List PortConflict → PlanResult
with_ports ctx f set edges [] =
    with_routes f set edges (detect_routing_collisions ctx.route_message set f)
with_ports ctx f set edges (c ∷ cs) = port_conflicts (c ∷ cs)

abbrev pub with_enriched : PlanContext → Filter → Enriched → PlanResult
with_enriched ctx f (enriched set edges) =
    with_ports ctx f set edges (detect_host_port_collisions ctx.port_message set ctx.ports)
with_enriched ctx f (enrichment_failed e) = enrichment_error e
with_enriched ctx f missing_manifest = plan_fault

abbrev pub with_resolved : PlanContext → Filter → ManifestSet → List ResolveError → PlanResult
with_resolved ctx f set [] = with_enriched ctx f (chain_enrich set)
with_resolved ctx f set (e ∷ es) = validation_errors (e ∷ es)

abbrev pub with_filter :
    PlanContext → Filter → String → ManifestSet → Option FilterError → PlanResult
with_filter ctx f dflt set (some e) = filter_error e
with_filter ctx f dflt set none =
    let effective = apply_effective_pull_policy set dflt in
    with_resolved ctx f effective (resolve ctx.parse ctx.load_team effective ctx.registries)

unfoldable pub plan : PlanContext → ManifestSet → Filter → String → PlanResult
unfolding select_steps validate_filter resolve
plan ctx set f dflt = with_filter ctx f dflt set (validate_filter f set)
