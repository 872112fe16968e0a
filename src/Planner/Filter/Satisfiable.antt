-- ===== src/Planner/Filter/Satisfiable.antt =====
-- A filter passes exactly when it selects something of the set.
use shrine.Prelude.{
  List, String, [], arith, eq_int, eq_pair, eq_str, has_key, mem, mem-sort_by, none, refl, true,
  ◌||◌, ◌↔◌, ◌∷◌, ◌≡◌, ◌≢◌,
}
use shrine.Manifest.{ApplicationManifest, ResourceManifest}
use shrine.Topo.{add_to_set}
use shrine.Topo.Graph.{mem-add_to_set}
use shrine.Planner.Loader.{ManifestSet}
use shrine.Planner.Filter.{
  FilterKind, Filter, filter_none, filter_team, filter_app, filter_res, unknown_filter,
  apps_have_owner, resources_have_owner, has_owner, app_owners, resource_owners, discovered_owners,
  named, validate_kind, validate_filter,
}

-- Some manifest of the set is the filter's.
abbrev Selects : FilterKind → String → ManifestSet → Type 0
Selects filter_none name set = Unit {0}
Selects filter_team name set = (name ≢ "") × (has_owner set name ≡ true)
Selects filter_app name set = (name ≢ "") × (has_key name set.applications ≡ true)
Selects filter_res name set = (name ≢ "") × (has_key name set.resources ≡ true)
Selects (unknown_filter k) name set = ⊥

kind_iff :
    (k : FilterKind) (f : Filter) (set : ManifestSet)
    → (validate_kind k f set ≡ none) ↔ Selects k f.name set
unfolding validate_kind named
kind_iff filter_none f set = (λ h. tt, λ h. refl)
kind_iff filter_team f set = ground arith
kind_iff filter_app f set = ground arith
kind_iff filter_res f set = ground arith
kind_iff (unknown_filter k) f set = ground arith

-- Filter.Validate accepts a filter exactly when it has no name to check, or its name is not empty
-- and is that of an owner, an application or a resource of the set, as its kind says.
validate_filter_iff :
    (f : Filter) (set : ManifestSet) → (validate_filter f set ≡ none) ↔ Selects f.kind f.name set
unfolding validate_filter
validate_filter_iff f set = kind_iff f.kind f set

mem-app_owners :
    (o : String) (apps : List (String × ApplicationManifest)) (seen : List String)
    → mem o (app_owners apps seen) ≡ (mem o seen || apps_have_owner o apps)
unfolding app_owners apps_have_owner
mem-app_owners o [] seen = ground arith
mem-app_owners o ((n, app) ∷ apps) seen = ground (
  arith,
  mem-app_owners o apps (add_to_set app.metadata.owner seen),
  mem-add_to_set o app.metadata.owner seen,
)

mem-resource_owners :
    (o : String) (rs : List (String × ResourceManifest)) (seen : List String)
    → mem o (resource_owners rs seen) ≡ (mem o seen || resources_have_owner o rs)
unfolding resource_owners resources_have_owner
mem-resource_owners o [] seen = ground arith
mem-resource_owners o ((n, res) ∷ rs) seen = ground (
  arith,
  mem-resource_owners o rs (add_to_set res.metadata.owner seen),
  mem-add_to_set o res.metadata.owner seen,
)

-- The known teams that the error lists are exactly the owners that `hasOwner` finds in the set.
discovered_owners-has_owner :
    (set : ManifestSet) (o : String) → mem o (discovered_owners set) ≡ has_owner set o
unfolding discovered_owners has_owner mem
discovered_owners-has_owner set o = ground (
  arith,
  mem-sort_by (λ s. s) o (resource_owners set.resources (app_owners set.applications [])),
  mem-resource_owners o set.resources (app_owners set.applications []),
  mem-app_owners o set.applications [],
)
