-- ===== src/Engine/Images.antt =====
-- internal/engine/engine.go: the images of the steps, which a deploy resolves first.
use shrine.Prelude.{
  List, Option, String, [], eq_int, eq_pair, eq_str, if◌then◌else◌, insert, lookup, none, some,
  ◌==◌, ◌∷◌, ◌⊕◌,
}
use shrine.Manifest.{ApplicationManifest, Metadata, ResourceManifest, resource_kind}
use shrine.Manifest.Reference.{effective_pull_policy}
use shrine.Planner.Loader.{ManifestSet}
use shrine.Planner.Order.{PlannedStep}
use shrine.Engine.{
  Act, ResolveImageOp, ResolvedImage, World, ask, nil_manifest, pure, resolve_image, stop, ◌>>=◌,
}

unfoldable pub new_resolve_image_op : String → Metadata → String → String → ResolveImageOp
new_resolve_image_op kind meta image declared = record {
  team = meta.owner;
  name = meta.name;
  kind = kind;
  image = image;
  image_pull_policy = effective_pull_policy image declared;
  repin = "";
}

abbrev resource_image_op : String → Option ResourceManifest → Option ResolveImageOp
resource_image_op kind none = none
resource_image_op kind (some res) =
    some (new_resolve_image_op kind res.metadata res.spec.image res.spec.image_pull_policy)

abbrev application_image_op : String → Option ApplicationManifest → Option ResolveImageOp
application_image_op kind none = none
application_image_op kind (some app) =
    some (new_resolve_image_op kind app.metadata app.spec.image app.spec.image_pull_policy)

-- `none` where the step has no manifest.
unfoldable pub resolve_image_op_for : ManifestSet → PlannedStep → Option ResolveImageOp
unfolding new_resolve_image_op
resolve_image_op_for set step =
    if step.kind == resource_kind
    then resource_image_op step.kind (lookup step.name set.resources)
    else application_image_op step.kind (lookup step.name set.applications)

unfoldable pub resolved_image_key : String → String → String
resolved_image_key kind name = kind ⊕ "/" ⊕ name

abbrev pub Images : Type 0
Images = List (String × ResolvedImage)

-- The body of the loop of `resolveImages`.
unfoldable pub resolve_step_image :
    World → PlannedStep → Option ResolveImageOp → Images → Act Images
unfolding ask insert resolved_image_key
resolve_step_image w step none images = stop (nil_manifest step)
resolve_step_image w step (some op) images = do
  image ← ask w (resolve_image op) (λ h. w.image h op)
  pure (insert (resolved_image_key step.kind step.name) image images)

unfoldable pub resolve_images : World → ManifestSet → List PlannedStep → Images → Act Images
unfolding resolve_step_image
resolve_images w set [] images = pure images
resolve_images w set (step ∷ steps) images = do
  next ← resolve_step_image w step (resolve_image_op_for set step) images
  resolve_images w set steps next
