-- ===== src/Planner/Loader.antt =====
-- internal/planner/loader.go: the manifests of a project, by kind and name.
pub mod Merging
pub mod Steps
pub mod Loaded
use shrine.Prelude.{
  List, Option, String, [], eq_int, eq_pair, eq_str, has_key, if◌then◌else◌, insert, none, some,
  ◌==◌, ◌∷◌,
}
use shrine.Manifest.{
  application_kind, resource_kind, team_kind, ApplicationManifest, ResourceManifest, Manifest,
}

-- internal/planner/policy.go: the layer that supplied a pull policy
pub data PullPolicySource : Type 0 where
  policy_from_manifest policy_from_default policy_from_derived_rule : PullPolicySource

pub record ManifestSet : Type 0 where
  pub applications : List (String × ApplicationManifest)
  pub resources : List (String × ResourceManifest)
  pub pull_policy_sources : List (String × PullPolicySource)

unfoldable pub new_manifest_set : ManifestSet
new_manifest_set = record { applications = []; resources = []; pull_policy_sources = [] }

pub data MergeError : Type 0 where
  duplicate_application duplicate_resource : String → MergeError
  unsupported_kind : String → MergeError
  nil_pointer : MergeError

pub data Merged : Type 0 where
  merged : ManifestSet → Merged
  refused : MergeError → Merged

pub merge_application : ManifestSet → Option ApplicationManifest → Merged
merge_application set none = refused nil_pointer
merge_application set (some app) =
    let name = app.metadata.name in
    if has_key name set.applications
    then refused (duplicate_application name)
    else merged (record set { applications = insert name app set.applications })

pub merge_resource : ManifestSet → Option ResourceManifest → Merged
merge_resource set none = refused nil_pointer
merge_resource set (some res) =
    let name = res.metadata.name in
    if has_key name set.resources
    then refused (duplicate_resource name)
    else merged (record set { resources = insert name res set.resources })

-- A manifest of a kind whose pointer is nil would be a fault in Go: `nil_pointer`.
unfoldable pub merge_manifest : ManifestSet → Manifest → Merged
unfolding merge_application merge_resource
merge_manifest set m =
    let kind = m.type_meta.kind in
    if kind == application_kind
    then merge_application set m.application
    else if kind == resource_kind
    then merge_resource set m.resource
    else if kind == team_kind
    then merged set
    else refused (unsupported_kind kind)

-- The loop of `LoadDir` over the candidates, once each is read, parsed and validated.
unfoldable pub merge_all : ManifestSet → List Manifest → Merged
merge_all set [] = merged set
merge_all set (m ∷ ms) = elim (merge_manifest set m) [
  | merged next ↦ merge_all next ms
  | refused e ↦ refused e
]
