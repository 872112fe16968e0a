-- ===== src/Planner/Plan.antt =====
-- internal/planner/plan.go: the steps that a filter by team keeps, and the steps of a teardown. The
-- deployments are what the store lists for the team.
pub mod Kept
pub mod Sourced
pub mod Compose
pub mod Promises
pub mod Team
pub mod Examples
use shrine.Prelude.{
  List, Option, String, [], eq_int, eq_pair, eq_str, if◌then◌else◌, lookup, none, some, sort_by,
  ◌++◌, ◌==◌, ◌∷◌,
}
use shrine.Manifest.{application_kind, resource_kind}
use shrine.State.Deployments.{Deployment}
use shrine.Planner.Loader.{ManifestSet}
use shrine.Planner.Enrich.{owner_of}
use shrine.Planner.Order.{PlannedStep}

-- The owner of what is found, and the empty text where nothing is.
abbrev pub owner_or_empty : Option String → String
owner_or_empty none = ""
owner_or_empty (some owner) = owner

unfoldable pub step_owner : ManifestSet → PlannedStep → String
step_owner set step =
    if step.kind == application_kind
    then owner_or_empty (owner_of (λ app. app.metadata.owner) (lookup step.name set.applications))
    else if step.kind == resource_kind
    then owner_or_empty (owner_of (λ res. res.metadata.owner) (lookup step.name set.resources))
    else ""

unfoldable pub filter_steps_by_owner : List PlannedStep → ManifestSet → String → List PlannedStep
filter_steps_by_owner [] set owner = []
filter_steps_by_owner (step ∷ steps) set owner =
    let rest = filter_steps_by_owner steps set owner in
    if step_owner set step == owner then step ∷ rest else rest

-- The steps of the deployments of a kind, in the order of the store.
unfoldable pub steps_of_kind : String → List Deployment → List PlannedStep
steps_of_kind kind [] = []
steps_of_kind kind (d ∷ deployments) =
    let rest = steps_of_kind kind deployments in
    if d.kind == kind then record { kind = d.kind; name = d.name } ∷ rest else rest

-- PlanTeardown, with `none` for the error of the store.
unfoldable pub plan_teardown : Option (List Deployment) → Option (List PlannedStep)
plan_teardown none = none
plan_teardown (some deployments) = some (
    sort_by (λ s. s.name) (steps_of_kind application_kind deployments)
    ++ sort_by (λ s. s.name) (steps_of_kind resource_kind deployments))
