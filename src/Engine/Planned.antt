-- ===== src/Engine/Planned.antt =====
-- The planner and the engine, one after the other.
use shrine.Prelude.{
  All-imp, List, String, [], ap, append-eq-nil_iff, arith, eq_int, eq_pair, eq_str, found_key,
  has_key, inl, inr, lookup, map, refl, some, subst, true, ◌∙◌, ◌∷◌, ◌≡◌,
}
use shrine.Manifest.{ApplicationManifest, ResourceManifest}
use shrine.Planner.Loader.{ManifestSet}
use shrine.Planner.Filter.{Filter, filter_none}
use shrine.Planner.Policy.{
  apply_effective_pull_policy, map_values, with_effective_policy, with_effective_resource_policy,
}
use shrine.Planner.Resolve.{application_names, resource_names, validate_unique_names}
use shrine.Planner.Resolve.Whole.{name_error, resolve}
use shrine.Planner.Enrich.{InferredEdge}
use shrine.Planner.Enrich.Chain.{IsEnrichedSet}
use shrine.Planner.Order.{PlannedStep, order, steps}
use shrine.Planner.Order.Keys.{IsKind, kinds_differ}
use shrine.Planner.Order.Nodes.{IsNamed, has_manifest}
use shrine.Planner.Order.Steps.{OnceEach, has_step, order-HasManifests, order-OnceEach}
use shrine.Planner.Plan.Compose.{PlanContext, plan, planned}
use shrine.Planner.Plan.Promises.{IsPlanned, IsSelected, plan-IsPlanned}
use shrine.Planner.Plan.Sourced.{BehindSources, enriched-BehindSources}
use shrine.Engine.{World}
use shrine.Engine.Deploy.{execute_deploy}
use shrine.Engine.Transcript.{Holds}
use shrine.Engine.Created.Steps.{IsDeployable}
use shrine.Engine.Created.Whole.{IsPlan}
use shrine.Engine.Promises.{IsDeployed, IsFailed, execute_deploy-outcome}

map-eq-nil {ℓ κ} : {A : Type ℓ} {B : Type κ} (f : A → B) (xs : List A) → map f xs ≡ [] → xs ≡ []
map-eq-nil f [] e = refl
map-eq-nil f (x ∷ xs) e = absurd (ground arith)

application_names-named :
    (apps : List (String × ApplicationManifest)) (n : String) (app : ApplicationManifest)
    → application_names apps ≡ []
    → lookup n apps ≡ some app
    → app.metadata.name ≡ n
unfolding application_names lookup
application_names-named [] n app e found = absurd (ground arith)
application_names-named ((k, v) ∷ apps) n app e found =
    ground (
      arith,
      application_names-named apps n app,
      (append-eq-nil_iff _ (application_names apps)).0 e,
    )

resource_names-named :
    (rs : List (String × ResourceManifest)) (n : String) (res : ResourceManifest)
    → resource_names rs ≡ []
    → lookup n rs ≡ some res
    → res.metadata.name ≡ n
unfolding resource_names lookup
resource_names-named [] n res e found = absurd (ground arith)
resource_names-named ((k, v) ∷ rs) n res e found =
    ground (arith, resource_names-named rs n res, (append-eq-nil_iff _ (resource_names rs)).0 e)

module _ (ctx : PlanContext) (set next : ManifestSet) (f : Filter) (dflt : String)
    (xs : List PlannedStep) (p : IsPlanned ctx set f dflt xs next) where
  abbrev effective : ManifestSet
  effective = apply_effective_pull_policy set dflt

  unique_names : validate_unique_names effective ≡ []
  unfolding resolve
  unique_names =
      map-eq-nil name_error (validate_unique_names effective)
        ((append-eq-nil_iff (map name_error (validate_unique_names effective)) _).0 p.resolved).0

  step-IsDeployable :
      (s : PlannedStep)
      → IsKind s.kind
      → has_manifest next s.kind s.name ≡ true
      → IsDeployable next s
  unfolding validate_unique_names
  step-IsDeployable s (inl kind) there =
      let (res, found) = found_key s.name next.resources (ground (arith, there, kind)) in
      let (old, was, same, rich) = p.rich.resources s.name res found in
      let names = (append-eq-nil_iff (application_names effective.applications) _).0 unique_names in
      let old_name = resource_names-named effective.resources s.name old names.1 was in
      inl (res, found, kind, ap (λ m. m.metadata.name) same ∙ old_name)
  step-IsDeployable s (inr kind) there =
      let (app, found) =
        found_key s.name next.applications (ground (arith, there, kind, kinds_differ)) in
      let (old, was, same, rich) = p.rich.applications s.name app found in
      let names = (append-eq-nil_iff (application_names effective.applications) _).0 unique_names in
      let old_name = application_names-named effective.applications s.name old names.0 was in
      inr (app, found, kind, ap (λ m. m.metadata.name) same ∙ old_name)

  next-IsNamed : IsNamed next
  next-IsNamed = record { apps_once = p.rich.apps_once; resources_once = p.rich.resources_once }

  ordered-IsPlan : order next ≡ steps xs → IsPlan next xs
  ordered-IsPlan o = record {
    resources_once = p.rich.resources_once;
    deployable =
        All-imp (λ s h. step-IsDeployable s h.0 h.1) xs (order-HasManifests next xs next-IsNamed o);
  }

has_key-map_values {ℓ} :
    {V : Type ℓ} (g : V → V) (n : String) (m : List (String × V))
    → has_key n (map_values g m) ≡ has_key n m
unfolding lookup
has_key-map_values g n [] = refl
has_key-map_values g n ((k, v) ∷ m) = ground (arith, has_key-map_values g n m)

-- A plan holds the manifests of the set that it is made of.
has_manifest-planned :
    (set next : ManifestSet) (dflt : String)
    → IsEnrichedSet (apply_effective_pull_policy set dflt) next
    → (kind name : String) → has_manifest next kind name ≡ has_manifest set kind name
unfolding apply_effective_pull_policy
has_manifest-planned set next dflt rich kind name = ground (
  arith,
  rich.same_applications name,
  rich.same_resources name,
  has_key-map_values (with_effective_policy dflt) name set.applications,
  has_key-map_values (with_effective_resource_policy dflt) name set.resources,
)

-- What holds of the steps that a plan of a whole set has, of the manifests in its result, and of
-- deploying the steps.
pub record IsCarriedOut (w : World) (set : ManifestSet) (dflt : String) (next : ManifestSet)
    (xs : List PlannedStep) : Type 0 where
  pub complete :
      OnceEach xs
      × ((kind name : String) → IsKind kind → has_step kind name xs ≡ has_manifest set kind name)
  pub manifests : IsEnrichedSet (apply_effective_pull_policy set dflt) next
  pub sourced : BehindSources next [] xs
  pub deployed :
      Holds (λ _ h. IsDeployed w next xs h) (IsFailed w next xs) (execute_deploy w xs next [])

-- When `Plan` without a filter returns steps for a set that holds no name twice in a kind, these are
-- one for each manifest of that set; the manifests of the result are those of the set with their
-- effective pull policies, in which enrichment has changed nothing but the dependencies; each step
-- is behind the steps of the manifests that its variables take values from; and deploying the steps,
-- whatever the backends answer, sends nothing but calls of ResolveImage until the images of all
-- steps are resolved, sends CreateContainer in the order of the steps, one for each when it succeeds
-- and whatever the replicas of a manifest, and stops at the first call that fails, or at a cycle of
-- the resources.
pub plan-IsCarriedOut :
    (ctx : PlanContext) (set next : ManifestSet) (f : Filter) (dflt : String)
    (xs : List PlannedStep) (edges : List InferredEdge) (w : World)
    → IsNamed set
    → f.kind ≡ filter_none
    → plan ctx set f dflt ≡ planned xs next edges
    → IsCarriedOut w set dflt next xs
plan-IsCarriedOut ctx set next f dflt xs edges w named everything e =
    let p = plan-IsPlanned ctx set next f dflt xs edges named e in
    let o : order next ≡ steps xs = subst (λ k. IsSelected k f.name next xs) everything p.chosen in
    let named_next = next-IsNamed ctx set next f dflt xs p in
    let (once, all_of) = order-OnceEach next xs named_next o in
    record {
      complete = (
        once,
        λ kind name k. all_of kind name k ∙ has_manifest-planned set next dflt p.rich kind name,
      );
      manifests = p.rich;
      sourced = enriched-BehindSources _ next p.rich xs o;
      deployed = execute_deploy-outcome w next xs (ordered-IsPlan ctx set next f dflt xs p o);
    }
