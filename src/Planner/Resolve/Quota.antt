-- ===== src/Planner/Resolve/Quota.antt =====
-- `enforceQuota` and `allowedResourceTypes`. What the store of teams loads is a parameter: `none`
-- for a team that cannot be loaded.
use shrine.Prelude.{
  List, Option, String, [], eq_int, eq_pair, eq_str, insert, lookup, none, some, ℕ, ◌++◌, ◌∷◌,
}
use shrine.Manifest.{ApplicationManifest, ResourceManifest, TeamManifest}
use shrine.Topo.{add_to_set}
use shrine.Planner.Resolve.{
  QuotaError, allowed_resource_type, count_or_zero, count_up, quota_errors, team_not_loaded,
}

-- appCounts and resCounts, as the two loops of Resolve fill them
unfoldable pub count_apps :
    List (String × ApplicationManifest) → List (String × ℕ) → List (String × ℕ)
unfolding count_up
count_apps [] counts = counts
count_apps ((n, app) ∷ apps) counts = count_apps apps (count_up app.metadata.owner counts)

unfoldable pub count_resources :
    List (String × ResourceManifest) → List (String × ℕ) → List (String × ℕ)
unfolding count_up
count_resources [] counts = counts
count_resources ((n, res) ∷ rs) counts = count_resources rs (count_up res.metadata.owner counts)

-- owners[owner] = struct{}{} for each key
unfoldable pub add_owners : List (String × ℕ) → List String → List String
add_owners [] owners = owners
add_owners ((owner, n) ∷ counts) owners = add_owners counts (add_to_set owner owners)

abbrev pub TeamCache : Type 0
TeamCache = List (String × TeamManifest)

-- The body of the loop over the owners.
unfoldable pub owner_quota :
    List (String × ℕ) → List (String × ℕ) → String → Option TeamManifest → List QuotaError
unfolding quota_errors
owner_quota app_counts res_counts owner none = team_not_loaded owner ∷ []
owner_quota app_counts res_counts owner (some team) =
    quota_errors owner team.spec.quotas (count_or_zero (lookup owner app_counts))
      (count_or_zero (lookup owner res_counts))

abbrev cached : String → Option TeamManifest → TeamCache → TeamCache
cached owner none cache = cache
cached owner (some team) cache = insert owner team cache

unfoldable pub enforce_each :
    (String → Option TeamManifest)
    → List (String × ℕ)
    → List (String × ℕ)
    → List String
    → TeamCache
    → TeamCache × List QuotaError
unfolding owner_quota insert
enforce_each load app_counts res_counts [] cache = (cache, [])
enforce_each load app_counts res_counts (owner ∷ owners) cache =
    let (final, errors) =
      enforce_each load app_counts res_counts owners (cached owner (load owner) cache) in
    (final, owner_quota app_counts res_counts owner (load owner) ++ errors)

unfoldable pub enforce_quota :
    (String → Option TeamManifest)
    → List (String × ℕ)
    → List (String × ℕ)
    → TeamCache × List QuotaError
unfolding enforce_each add_owners
enforce_quota load app_counts res_counts =
    enforce_each load app_counts res_counts (add_owners res_counts (add_owners app_counts [])) []

abbrev type_of_team : Option TeamManifest → ResourceManifest → List QuotaError
type_of_team none res = []
type_of_team (some team) res = allowed_resource_type team.spec.quotas res

unfoldable pub allowed_resource_types :
    List (String × ResourceManifest) → TeamCache → List QuotaError
unfolding allowed_resource_type lookup
allowed_resource_types [] cache = []
allowed_resource_types ((n, res) ∷ rs) cache =
    type_of_team (lookup res.metadata.owner cache) res ++ allowed_resource_types rs cache
