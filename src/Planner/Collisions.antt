-- ===== src/Planner/Collisions.antt =====
-- internal/planner/collisions.go: two applications that claim one route. `message`, which writes the
-- text of a collision, is a parameter: the texts are only sorted and joined.
pub mod Routes
use shrine.Prelude.{
  Bool, List, Option, String, [], eq_int, eq_pair, eq_str, false, if◌then◌else◌, insert, lookup,
  map, none, not, some, sort_by, sort_strings, str_ltb, trim_right, ◌++◌, ◌==◌, ◌||◌, ◌∷◌, ◌⊕◌,
}
use shrine.Manifest.{ApplicationManifest, RoutingAlias}
use shrine.Planner.Loader.{ManifestSet}
use shrine.Planner.Filter.{Filter, is_app_in_scope}

-- routeKey: the host and the normalised prefix
abbrev pub RouteKey : Type 0
RouteKey = String × String

unfoldable pub normalize_prefix : String → String
unfolding trim_right
normalize_prefix p = trim_right b'/' p

unfoldable pub app_ref : ApplicationManifest → String
app_ref app = app.metadata.owner ⊕ "/" ⊕ app.metadata.name

unfoldable pub alias_keys : List RoutingAlias → List RouteKey
unfolding normalize_prefix
alias_keys [] = []
alias_keys (a ∷ aliases) = (a.host, normalize_prefix a.path_prefix) ∷ alias_keys aliases

-- The routes that the body of the loop adds for one application, in order.
unfoldable pub route_keys : ApplicationManifest → List RouteKey
unfolding alias_keys normalize_prefix
route_keys app =
    let routing = app.spec.routing in
    if routing.domain == ""
    then alias_keys routing.aliases
    else (routing.domain, normalize_prefix routing.path_prefix) ∷ alias_keys routing.aliases

pub record RouteCollision : Type 0 where
  pub key : RouteKey
  pub first : String
  pub second : String

-- A map of applications by reference, as `refToApp`.
abbrev pub Refs : Type 0
Refs = List (String × ApplicationManifest)

unfoldable pub ref_to_app : List (String × ApplicationManifest) → Refs → Refs
unfolding insert app_ref
ref_to_app [] refs = refs
ref_to_app ((n, app) ∷ apps) refs = ref_to_app apps (insert (app_ref app) app refs)

unfoldable pub is_ref_in_scope : Filter → Option ApplicationManifest → Bool
is_ref_in_scope filter none = false
is_ref_in_scope filter (some app) = is_app_in_scope filter app

abbrev pub is_pair_in_scope : Filter → Refs → String → String → Bool
is_pair_in_scope filter refs a b =
    is_ref_in_scope filter (lookup a refs) || is_ref_in_scope filter (lookup b refs)

unfoldable pub collision : RouteKey → String → String → RouteCollision
collision key existing ref =
    if str_ltb ref existing
    then record { key = key; first = ref; second = existing }
    else record { key = key; first = existing; second = ref }

-- The map `seen` and the collisions so far, last first.
abbrev pub Scan : Type 0
Scan = List (RouteKey × String) × List RouteCollision

add_seen : Filter → Refs → RouteKey → String → Option String → Scan → Scan
unfolding collision
add_seen filter refs key ref none (seen, errs) = ((key, ref) ∷ seen, errs)
add_seen filter refs key ref (some existing) (seen, errs) =
    if existing == ref || not (is_pair_in_scope filter refs existing ref)
    then (seen, errs)
    else (seen, collision key existing ref ∷ errs)

-- The closure `addRoute`.
add_route : Filter → Refs → RouteKey → String → Scan → Scan
unfolding add_seen
add_route filter refs key ref (seen, errs) =
    add_seen filter refs key ref (lookup key seen) (seen, errs)

add_routes : Filter → Refs → List (RouteKey × String) → Scan → Scan
unfolding add_route
add_routes filter refs [] scan = scan
add_routes filter refs ((key, ref) ∷ claims) scan =
    add_routes filter refs claims (add_route filter refs key ref scan)

-- The claims of the applications, in the order of their references.
app_claims : String → Option ApplicationManifest → List (RouteKey × String)
unfolding route_keys
app_claims ref none = []
app_claims ref (some app) = map (λ key. (key, ref)) (route_keys app)

pub ref_claims : Refs → List String → List (RouteKey × String)
unfolding app_claims
ref_claims refs [] = []
ref_claims refs (ref ∷ app_refs) = app_claims ref (lookup ref refs) ++ ref_claims refs app_refs

-- The references of all the applications, as `appRefs`.
unfoldable pub app_refs : List (String × ApplicationManifest) → List String
unfolding app_ref
app_refs [] = []
app_refs ((n, app) ∷ apps) = app_ref app ∷ app_refs apps

-- The claims that the two loops visit.
pub all_claims : ManifestSet → List (RouteKey × String)
unfolding ref_claims app_refs
all_claims set =
    ref_claims (ref_to_app set.applications []) (sort_strings (app_refs set.applications))

-- The collisions that the error lists, sorted by their texts.
unfoldable pub detect_routing_collisions :
    (RouteCollision → String) → ManifestSet → Filter → List RouteCollision
unfolding add_routes all_claims
detect_routing_collisions message set filter =
    sort_by message
      ((add_routes filter (ref_to_app set.applications []) (all_claims set) ([], [])).1)
