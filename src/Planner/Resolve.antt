-- ===== src/Planner/Resolve.antt =====
-- internal/planner/resolve.go: who may depend on what, and the quotas of the teams. An error is a
-- value with what its message shows.
pub mod Access
pub mod References
pub mod Quota
pub mod Whole
use shrine.Prelude.{
  Bool, List, Option, String, [], eq_int, eq_pair, eq_str, false, if◌then◌else◌, insert, int_ltb,
  lookup, mem, none, not, pos, some, suc, true, ℕ, ℤ, ◌&&◌, ◌++◌, ◌==◌, ◌||◌, ◌∷◌,
}
use shrine.Manifest.{
  application_kind, resource_kind, ApplicationManifest, Dependency, EnvVar, Metadata, Networking,
  Output, Quotas, ResourceManifest,
}
use shrine.Planner.Loader.{ManifestSet}

pub record Consumer : Type 0 where
  pub kind_label : String
  pub name : String
  pub owner : String

unfoldable pub app_consumer : ApplicationManifest → Consumer
app_consumer a = record { kind_label = "app"; name = a.metadata.name; owner = a.metadata.owner }

unfoldable pub resource_consumer : ResourceManifest → Consumer
resource_consumer r = record {
  kind_label = "resource";
  name = r.metadata.name;
  owner = r.metadata.owner;
}

pub data DependencyError : Type 0 where
  unsupported_dependency_kind : Consumer → String → DependencyError
  missing_target : Consumer → String → String → DependencyError
  owner_mismatch : Consumer → String → String → String → DependencyError
  no_access : Consumer → String → String → DependencyError
  not_reachable : Consumer → String → String → DependencyError

unfoldable pub has_access : String → String → List String → Bool
has_access consumer owner access_list = if owner == consumer then true else mem consumer access_list

abbrev pub complain {ℓ} : {E : Type ℓ} → Bool → E → List E
complain wrong e = if wrong then e ∷ [] else []

-- The checks that `validateResourceDep` and `validateApplicationDep` make of a target that exists.
validate_target : Consumer → Dependency → Metadata → Networking → List DependencyError
unfolding has_access
validate_target c dep target net =
    if not (target.owner == dep.owner)
    then owner_mismatch c dep.name target.owner dep.owner ∷ []
    else complain (not (has_access c.owner target.owner target.access))
        (no_access c target.name target.owner)
      ++ complain (not (c.owner == target.owner) && not net.expose_to_platform)
          (not_reachable c target.name target.owner)

resource_target : Consumer → Dependency → Option ResourceManifest → List DependencyError
unfolding validate_target
resource_target c dep none = missing_target c resource_kind dep.name ∷ []
resource_target c dep (some res) = validate_target c dep res.metadata res.spec.networking

unfoldable pub validate_resource_dep : ManifestSet → Consumer → Dependency → List DependencyError
unfolding resource_target
validate_resource_dep set c dep = resource_target c dep (lookup dep.name set.resources)

application_target : Consumer → Dependency → Option ApplicationManifest → List DependencyError
unfolding validate_target
application_target c dep none = missing_target c application_kind dep.name ∷ []
application_target c dep (some app) = validate_target c dep app.metadata app.spec.networking

unfoldable pub validate_application_dep : ManifestSet → Consumer → Dependency → List DependencyError
unfolding application_target
validate_application_dep set c dep = application_target c dep (lookup dep.name set.applications)

-- The body of the loop of `resolveDependencies`.
unfoldable pub resolve_dependency : ManifestSet → Consumer → Dependency → List DependencyError
resolve_dependency set c dep =
    if dep.kind == resource_kind
    then validate_resource_dep set c dep
    else if dep.kind == application_kind
    then validate_application_dep set c dep
    else unsupported_dependency_kind c dep.kind ∷ []

unfoldable pub resolve_dependencies :
    ManifestSet → Consumer → List Dependency → List DependencyError
resolve_dependencies set c [] = []
resolve_dependencies set c (dep ∷ deps) =
    resolve_dependency set c dep ++ resolve_dependencies set c deps

-- m[owner]++
unfoldable pub count_up : String → List (String × ℕ) → List (String × ℕ)
unfolding insert
count_up owner counts = elim (lookup owner counts) [
  | none ↦ insert owner 1 counts
  | some n ↦ insert owner (suc n) counts
]

pub data QuotaError : Type 0 where
  team_not_loaded : String → QuotaError
  exceeds_max_apps exceeds_max_resources : String → ℕ → ℤ → QuotaError
  type_not_allowed : String → String → String → QuotaError

-- counts[owner], 0 for a missing key
abbrev pub count_or_zero : Option ℕ → ℕ
count_or_zero none = 0
count_or_zero (some n) = n

-- limit > 0 && count > limit
unfoldable pub exceeds : ℤ → ℕ → Bool
exceeds limit count = int_ltb (pos 0) limit && int_ltb limit (pos count)

-- The checks of `enforceQuota` for one owner whose team is loaded.
unfoldable pub quota_errors : String → Quotas → ℕ → ℕ → List QuotaError
quota_errors owner quotas apps resources =
    complain (exceeds quotas.max_apps apps) (exceeds_max_apps owner apps quotas.max_apps)
    ++ complain (exceeds quotas.max_resources resources)
        (exceeds_max_resources owner resources quotas.max_resources)

-- The body of the loop of `allowedResourceTypes`, for a team that is in the cache.
unfoldable pub allowed_resource_type : Quotas → ResourceManifest → List QuotaError
allowed_resource_type quotas res = elim quotas.allowed_resource_types [
  | [] ↦ []
  | t ∷ types ↦
      complain (not (mem res.spec.type (t ∷ types)))
        (type_not_allowed res.metadata.owner res.spec.type res.metadata.name)
]

unfoldable pub is_exported_output : List Output → String → Bool
is_exported_output [] name = false
is_exported_output (out ∷ outputs) name = out.name == name || is_exported_output outputs name

pub data NameMismatch : Type 0 where
  application_mismatch resource_mismatch : String → String → NameMismatch

unfoldable pub application_names : List (String × ApplicationManifest) → List NameMismatch
application_names [] = []
application_names ((name, app) ∷ apps) =
    complain (not (app.metadata.name == name)) (application_mismatch name app.metadata.name)
    ++ application_names apps

unfoldable pub resource_names : List (String × ResourceManifest) → List NameMismatch
resource_names [] = []
resource_names ((name, res) ∷ rs) =
    complain (not (res.metadata.name == name)) (resource_mismatch name res.metadata.name)
    ++ resource_names rs

unfoldable pub validate_unique_names : ManifestSet → List NameMismatch
validate_unique_names set = application_names set.applications ++ resource_names set.resources
