-- ===== src/Planner/Filter.antt =====
-- internal/planner/filter.go: which manifests of a set yield steps. An error is a value with what
-- its message shows.
pub mod Satisfiable
use shrine.Prelude.{
  Bool, List, Option, String, [], eq_int, eq_pair, eq_str, false, has_key, if◌then◌else◌, none,
  some, sort_strings, true, ℕ, ◌==◌, ◌||◌, ◌∷◌,
}
use shrine.Manifest.{ApplicationManifest, ResourceManifest}
use shrine.Topo.{add_to_set}
use shrine.Planner.Loader.{ManifestSet}

pub data FilterKind : Type 0 where
  filter_none filter_team filter_app filter_res : FilterKind
  unknown_filter : ℕ → FilterKind

pub record Filter : Type 0 where
  pub kind : FilterKind
  pub name : String

unfoldable pub no_filter : Filter
no_filter = record { kind = filter_none; name = "" }

unfoldable pub by_team : String → Filter
by_team name = record { kind = filter_team; name = name }

unfoldable pub by_app : String → Filter
by_app name = record { kind = filter_app; name = name }

unfoldable pub by_resource : String → Filter
by_resource name = record { kind = filter_res; name = name }

pub data FilterError : Type 0 where
  name_required : FilterKind → FilterError
  specs_empty : String → FilterError
  team_not_found : String → List String → FilterError
  application_not_found resource_not_found : String → FilterError
  unknown_kind : ℕ → FilterError

unfoldable pub apps_have_owner : String → List (String × ApplicationManifest) → Bool
apps_have_owner owner [] = false
apps_have_owner owner ((n, app) ∷ apps) = app.metadata.owner == owner || apps_have_owner owner apps

unfoldable pub resources_have_owner : String → List (String × ResourceManifest) → Bool
resources_have_owner owner [] = false
resources_have_owner owner ((n, res) ∷ rs) =
    res.metadata.owner == owner || resources_have_owner owner rs

unfoldable pub has_owner : ManifestSet → String → Bool
has_owner set owner =
    apps_have_owner owner set.applications || resources_have_owner owner set.resources

unfoldable pub app_owners : List (String × ApplicationManifest) → List String → List String
app_owners [] seen = seen
app_owners ((n, app) ∷ apps) seen = app_owners apps (add_to_set app.metadata.owner seen)

unfoldable pub resource_owners : List (String × ResourceManifest) → List String → List String
resource_owners [] seen = seen
resource_owners ((n, res) ∷ rs) seen = resource_owners rs (add_to_set res.metadata.owner seen)

unfoldable pub discovered_owners : ManifestSet → List String
discovered_owners set =
    sort_strings (resource_owners set.resources (app_owners set.applications []))

unfoldable pub team_missing : String → List String → FilterError
team_missing name [] = specs_empty name
team_missing name (o ∷ owners) = team_not_found name (o ∷ owners)

-- The guard on the name that the three named kinds of Filter.Validate share.
unfoldable pub named : Filter → Option FilterError → Option FilterError
named f rest = if f.name == "" then some (name_required f.kind) else rest

unfoldable pub validate_kind : FilterKind → Filter → ManifestSet → Option FilterError
validate_kind filter_none f set = none
validate_kind filter_team f set =
    named f
      (if has_owner set f.name then none else some (team_missing f.name (discovered_owners set)))
validate_kind filter_app f set =
    named f (if has_key f.name set.applications then none else some (application_not_found f.name))
validate_kind filter_res f set =
    named f (if has_key f.name set.resources then none else some (resource_not_found f.name))
validate_kind (unknown_filter k) f set = some (unknown_kind k)

unfoldable pub validate_filter : Filter → ManifestSet → Option FilterError
validate_filter f set = validate_kind f.kind f set

unfoldable pub app_in_scope : FilterKind → String → ApplicationManifest → Bool
app_in_scope filter_none name app = true
app_in_scope filter_team name app = app.metadata.owner == name
app_in_scope filter_app name app = app.metadata.name == name
app_in_scope filter_res name app = false
app_in_scope (unknown_filter k) name app = false

unfoldable pub is_app_in_scope : Filter → ApplicationManifest → Bool
is_app_in_scope f app = app_in_scope f.kind f.name app
