-- ===== src/Engine/Resources.antt =====
-- internal/engine/engine.go: the resources, which a deploy resolves in the order of their dependencies.
use shrine.Prelude.{
  List, Option, String, [], eq_int, eq_pair, eq_str, has_key, if◌then◌else◌, insert, itoa, lookup,
  none, some, ◌&&◌, ◌==◌, ◌∷◌, ◌⊕◌,
}
use shrine.Manifest.{ApplicationManifest, Dependency, ResourceManifest, resource_kind}
use shrine.Topo.{Graph, SortResult, add_to_set, cycle, exhausted, sorted, topo_sort}
use shrine.Planner.Loader.{ManifestSet}
use shrine.Engine.{
  Act, Env, ResolvedDependencies, World, ask, nil_manifest, pure, resolve_resource, resource_cycle,
  sort_exhausted, stop, ◌>>=◌,
}

-- The set that the inner loop of `resourceResolutionOrder` fills.
unfoldable pub resource_dep_set : ManifestSet → List Dependency → List String → List String
resource_dep_set set [] d = d
resource_dep_set set (dep ∷ deps) d = resource_dep_set set deps (
    if dep.kind == resource_kind && has_key dep.name set.resources
    then add_to_set dep.name d
    else d)

unfoldable pub resource_graph_of : ManifestSet → List (String × ResourceManifest) → Graph
resource_graph_of set [] = []
resource_graph_of set ((name, res) ∷ rs) =
    (name, resource_dep_set set res.spec.dependencies []) ∷ resource_graph_of set rs

abbrev pub resource_graph : ManifestSet → Graph
resource_graph set = resource_graph_of set set.resources

unfoldable pub resource_resolution_order : ManifestSet → SortResult
unfolding resource_graph_of
resource_resolution_order set = topo_sort (resource_graph set)

-- deps.Applications, as the loop over the applications fills it
unfoldable pub application_built_ins : List (String × ApplicationManifest) → List (String × Env)
application_built_ins [] = []
application_built_ins ((name, app) ∷ apps) =
    (
      name,
      ("host", app.metadata.owner ⊕ ("." ⊕ app.metadata.name)) ∷ ("port", itoa app.spec.port) ∷ [],
    )
    ∷ application_built_ins apps

-- What the resolution of the resources fills: the exports for the consumers, and the environments.
pub record Resolved : Type 0 where
  pub deps : ResolvedDependencies
  pub env_by_name : List (String × Env)

-- The body of the loop of `resolveResources`.
unfoldable pub resolve_one : World → String → Option ResourceManifest → Resolved → Act Resolved
unfolding ask insert
resolve_one w name none r = stop (nil_manifest (record { kind = resource_kind; name = name }))
resolve_one w name (some res) r = do
  resolved ← ask w (resolve_resource res r.deps) (λ h. w.resource h res r.deps)
  pure (record {
    deps = record r.deps { resources = insert name resolved.exports r.deps.resources };
    env_by_name = insert name resolved.env r.env_by_name;
  })

unfoldable pub resolve_each : World → ManifestSet → List String → Resolved → Act Resolved
unfolding resolve_one
resolve_each w set [] r = pure r
resolve_each w set (name ∷ names) r = do
  next ← resolve_one w name (lookup name set.resources) r
  resolve_each w set names next

abbrev pub resolve_in_order : World → ManifestSet → SortResult → Resolved → Act Resolved
resolve_in_order w set (sorted names) r = resolve_each w set names r
resolve_in_order w set (cycle names) r = stop (resource_cycle names)
resolve_in_order w set exhausted r = stop sort_exhausted

unfoldable pub resolve_resources : World → ManifestSet → Resolved → Act Resolved
unfolding resolve_each
resolve_resources w set r = resolve_in_order w set (resource_resolution_order set) r
