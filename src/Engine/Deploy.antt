-- ===== src/Engine/Deploy.antt =====
-- internal/engine/engine.go: ExecuteDeploy.
use shrine.Prelude.{
  List, Option, [], eq_int, eq_pair, eq_str, lookup, none, not, pos, some, ◌&&◌, ◌==◌, ◌∷◌,
}
use shrine.Manifest.{ApplicationManifest, ResourceManifest, application_kind, resource_kind}
use shrine.Planner.Loader.{ManifestSet}
use shrine.Planner.Order.{PlannedStep}
use shrine.Engine.{
  Act, Env, ResolvedDependencies, ResolvedImage, World, act_when, ask, create_container,
  create_network, create_platform_network, nil_manifest, pure, request, resolve_application, stop,
  write_record, write_route, ◌>>=◌, ◌>>◌,
}
use shrine.Engine.Images.{Images, resolve_images, resolved_image_key}
use shrine.Engine.Resources.{Resolved, application_built_ins, resolve_resources}
use shrine.Engine.Requests.{application_op, record_op, resource_op, route_op}
use shrine.Engine.Teardown.{finalize_routing}

-- m[k] of a map from texts, the empty map for a missing key
abbrev env_or_empty : Option Env → Env
env_or_empty none = []
env_or_empty (some env) = env

abbrev no_image : ResolvedImage
no_image = record {
  ref = "";
  digest = "";
  image_id = "";
  source = "";
  requested = "";
  pinned_at = pos 0;
}

abbrev image_or_zero : Option ResolvedImage → ResolvedImage
image_or_zero none = no_image
image_or_zero (some image) = image

unfoldable pub deploy_resource :
    World → PlannedStep → Option ResourceManifest → Env → ResolvedImage → Act (Unit {0})
unfolding ask resource_op
deploy_resource w step none env image = stop (nil_manifest step)
deploy_resource w step (some res) env image = do
  request w (create_network res.metadata.owner)
  request w (create_container (resource_op res env image))

-- `deployApplication` for a manifest: the environment, the network, the container, the routes and
-- the name.
unfoldable pub deploy_manifest :
    World → ApplicationManifest → ResolvedDependencies → ResolvedImage → Act (Unit {0})
unfolding ask application_op route_op record_op
deploy_manifest w app deps image = do
  env ← ask w (resolve_application app deps) (λ h. w.application h app deps)
  request w (create_network app.metadata.owner)
  request w (create_container (application_op app env image))
  act_when
      (not (app.spec.routing.domain == "") && (app.spec.networking.expose_to_platform && w.routed))
      (request w (write_route (route_op app)))
  act_when (not (app.spec.routing.domain == "") && w.named)
      (request w (write_record (record_op app)))

unfoldable pub deploy_application :
    World
    → PlannedStep
    → Option ApplicationManifest
    → ResolvedDependencies
    → ResolvedImage
    → Act (Unit {0})
unfolding deploy_manifest
deploy_application w step none deps image = stop (nil_manifest step)
deploy_application w step (some app) deps image = deploy_manifest w app deps image

-- images[resolvedImageKey(step.Kind, step.Name)]
unfoldable pub image_of_step : Images → PlannedStep → ResolvedImage
unfolding resolved_image_key
image_of_step images step = image_or_zero (lookup (resolved_image_key step.kind step.name) images)

-- The body of the loop of ExecuteDeploy.
unfoldable pub deploy_step : World → ManifestSet → Images → Resolved → PlannedStep → Act (Unit {0})
unfolding deploy_resource deploy_application image_of_step
deploy_step w set images r step = do
  act_when (step.kind == resource_kind) (
      deploy_resource w step (lookup step.name set.resources)
        (env_or_empty (lookup step.name r.env_by_name)) (image_of_step images step))
  act_when (step.kind == application_kind) (
      deploy_application w step (lookup step.name set.applications) r.deps
        (image_of_step images step))

unfoldable pub deploy_steps :
    World → ManifestSet → Images → Resolved → List PlannedStep → Act (Unit {0})
unfolding deploy_step
deploy_steps w set images r [] = pure tt
deploy_steps w set images r (step ∷ steps) = do
  deploy_step w set images r step
  deploy_steps w set images r steps

-- deps before any resource is resolved, and no environment
unfoldable pub initial_deps : ManifestSet → Resolved
unfolding application_built_ins
initial_deps set = record {
  deps = record { resources = []; applications = application_built_ins set.applications };
  env_by_name = [];
}

unfoldable pub execute_deploy : World → List PlannedStep → ManifestSet → Act (Unit {0})
unfolding resolve_images resolve_resources deploy_steps initial_deps finalize_routing ask
execute_deploy w steps set = do
  images ← resolve_images w set steps []
  request w create_platform_network
  r ← resolve_resources w set (initial_deps set)
  deploy_steps w set images r steps
  finalize_routing w
