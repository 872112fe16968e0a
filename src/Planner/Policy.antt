-- ===== src/Planner/Policy.antt =====
-- internal/planner/policy.go: the pull policy of each manifest and the versions that it allows. An
-- error is a value with what its message shows.
pub mod Effective
use shrine.Prelude.{
  Bool, List, Option, String, [], eq_int, eq_pair, eq_str, false, if◌then◌else◌, insert, lookup,
  none, not, some, true, ◌&&◌, ◌++◌, ◌==◌, ◌||◌, ◌∷◌, ◌⊕◌,
}
use shrine.Manifest.{
  image_pull_policy_pinned, is_manifest_owned_policy, ApplicationManifest, ResourceManifest,
  ResourceSpec,
}
use shrine.Manifest.Reference.{effective_pull_policy_with_default, is_digest_reference, tag_of}
use shrine.Planner.Loader.{
  ManifestSet, PullPolicySource, policy_from_manifest, policy_from_default,
  policy_from_derived_rule,
}

unfoldable pub pull_policy_source_of : String → String → PullPolicySource
pull_policy_source_of declared default_pull_policy =
    if not (declared == "")
    then policy_from_manifest
    else if not (default_pull_policy == "")
    then policy_from_default
    else policy_from_derived_rule

abbrev pub policy_source_key : String → String → String
policy_source_key kind name = kind ⊕ "/" ⊕ name

abbrev pub Sources : Type 0
Sources = List (String × PullPolicySource)

unfoldable pub record_pull_policy_source : String → String → PullPolicySource → Sources → Sources
unfolding insert
record_pull_policy_source kind name src sources = insert (policy_source_key kind name) src sources

-- The zero value of a missing key is policyFromManifest.
abbrev pub is_default_source : Option PullPolicySource → Bool
is_default_source none = false
is_default_source (some policy_from_manifest) = false
is_default_source (some policy_from_default) = true
is_default_source (some policy_from_derived_rule) = false

unfoldable pub is_policy_from_default : Sources → String → String → Bool
is_policy_from_default sources kind name =
    is_default_source (lookup (policy_source_key kind name) sources)

unfoldable pub with_effective_policy : String → ApplicationManifest → ApplicationManifest
with_effective_policy dflt app = record app {
  spec = record app.spec {
    image_pull_policy =
        effective_pull_policy_with_default app.spec.image app.spec.image_pull_policy dflt;
  };
}

unfoldable pub with_effective_resource_policy : String → ResourceManifest → ResourceManifest
with_effective_resource_policy dflt res = record res {
  spec = record res.spec {
    image_pull_policy =
        effective_pull_policy_with_default res.spec.image res.spec.image_pull_policy dflt;
  };
}

application_sources : String → List (String × ApplicationManifest) → Sources → Sources
unfolding record_pull_policy_source pull_policy_source_of
application_sources dflt [] sources = sources
application_sources dflt ((n, app) ∷ apps) sources = application_sources dflt apps (
    record_pull_policy_source "application" app.metadata.name
      (pull_policy_source_of app.spec.image_pull_policy dflt) sources)

resource_sources : String → List (String × ResourceManifest) → Sources → Sources
unfolding record_pull_policy_source pull_policy_source_of
resource_sources dflt [] sources = sources
resource_sources dflt ((n, res) ∷ rs) sources = resource_sources dflt rs (
    record_pull_policy_source "resource" res.metadata.name
      (pull_policy_source_of res.spec.image_pull_policy dflt) sources)

abbrev pub map_values {ℓ} : {V : Type ℓ} → (V → V) → List (String × V) → List (String × V)
map_values f [] = []
map_values f ((k, v) ∷ m) = (k, f v) ∷ map_values f m

-- Each loop writes one source and one policy for each manifest.
unfoldable pub apply_effective_pull_policy : ManifestSet → String → ManifestSet
unfolding application_sources resource_sources with_effective_policy with_effective_resource_policy
apply_effective_pull_policy set dflt = record {
  applications = map_values (with_effective_policy dflt) set.applications;
  resources = map_values (with_effective_resource_policy dflt) set.resources;
  pull_policy_sources =
      resource_sources dflt set.resources
        (application_sources dflt set.applications set.pull_policy_sources);
}

pub data PolicyError : Type 0 where
  fixed_version_image : String → String → String → Bool → PolicyError
  fixed_version_resource_version : String → String → Bool → PolicyError
  version_required : String → PolicyError

unfoldable pub names_fixed_version : String → Bool
names_fixed_version image =
    if is_digest_reference image
    then true
    else let tag = tag_of image in not (tag == "") && not (tag == "latest")

unfoldable pub is_resource_image_override : ResourceSpec → Bool
is_resource_image_override spec =
    if spec.image == "" || spec.image == spec.type
    then false
    else (spec.version == "" || not (spec.image == spec.type ⊕ ":" ⊕ spec.version))

-- A report when the test holds.
abbrev pub report_when {ℓ} : {A : Type ℓ} → Bool → A → List A
report_when b e = if b then e ∷ [] else []

unfoldable pub validate_resource_version : ResourceManifest → Bool → List PolicyError
validate_resource_version res from_default =
    let name = res.metadata.name in
    if is_manifest_owned_policy res.spec.image_pull_policy && res.spec.version == ""
    then version_required name ∷ []
    else if not (res.spec.image_pull_policy == image_pull_policy_pinned)
    then []
    else report_when (not (res.spec.version == "") && not (res.spec.version == "latest"))
        (fixed_version_resource_version name res.spec.version from_default)
      ++ report_when (is_resource_image_override res.spec && names_fixed_version res.spec.image)
          (fixed_version_image "resource" name res.spec.image from_default)

unfoldable pub application_policy_errors :
    Sources → List (String × ApplicationManifest) → List PolicyError
application_policy_errors sources [] = []
application_policy_errors sources ((n, app) ∷ apps) =
    report_when
      (app.spec.image_pull_policy == image_pull_policy_pinned && names_fixed_version app.spec.image)
      (fixed_version_image "application" app.metadata.name app.spec.image
        (is_policy_from_default sources "application" app.metadata.name))
    ++ application_policy_errors sources apps

unfoldable pub resource_policy_errors :
    Sources → List (String × ResourceManifest) → List PolicyError
resource_policy_errors sources [] = []
resource_policy_errors sources ((n, res) ∷ rs) =
    validate_resource_version res (is_policy_from_default sources "resource" res.metadata.name)
    ++ resource_policy_errors sources rs

unfoldable pub validate_image_policies : ManifestSet → List PolicyError
validate_image_policies set =
    application_policy_errors set.pull_policy_sources set.applications
    ++ resource_policy_errors set.pull_policy_sources set.resources
