-- ===== src/Planner/Order.antt =====
-- internal/planner/order.go: the steps of a plan, in dependency order.
pub mod Keys
pub mod Nodes
pub mod Steps
use shrine.Prelude.{
  List, String, [], after, before, eq_int, eq_pair, eq_str, keys, map, ◌++◌, ◌∷◌, ◌⊕◌,
}
use shrine.Manifest.{
  application_kind, resource_kind, ApplicationManifest, Dependency, ResourceManifest,
}
use shrine.Topo.{add_to_set, Graph, SortResult, sorted, cycle, exhausted, topo_sort}
use shrine.Planner.Loader.{ManifestSet}

pub record PlannedStep : Type 0 where
  pub kind : String
  pub name : String

-- A kind and a name as one text, the key of a node
abbrev pub node_key : String → String → String
node_key kind name = kind ⊕ ":" ⊕ name

-- The set that the loop over the dependencies fills.
unfoldable pub dep_set : List Dependency → List String → List String
dep_set [] d = d
dep_set (dep ∷ deps) d = dep_set deps (add_to_set (node_key dep.kind dep.name) d)

-- One pass over the manifests of a kind.
abbrev pub pass {ℓ} : {V : Type ℓ} → String → (V → List Dependency) → List (String × V) → Graph
pass kind deps_of [] = []
pass kind deps_of ((name, v) ∷ m) =
    (node_key kind name, dep_set (deps_of v) []) ∷ pass kind deps_of m

-- The map `deps` after both passes. Each pass sets keys that are new where the names of the set are
-- distinct, so that the map is the list of the entries.
abbrev pub dep_graph : ManifestSet → Graph
dep_graph set =
    pass resource_kind (λ res. res.spec.dependencies) set.resources
    ++ pass application_kind (λ app. app.spec.dependencies) set.applications

-- strings.SplitN(key, ":", 2)
abbrev pub step_of : String → PlannedStep
step_of key = record { kind = before b':' key; name = after b':' key }

pub data Ordered : Type 0 where
  steps : List PlannedStep → Ordered
  dependency_cycle : List String → Ordered
  out_of_fuel : Ordered

unfoldable pub order_of : SortResult → Ordered
order_of (sorted keys) = steps (map step_of keys)
order_of (cycle stuck) = dependency_cycle stuck
order_of exhausted = out_of_fuel

unfoldable pub order : ManifestSet → Ordered
unfolding order_of
order set = order_of (topo_sort (dep_graph set))
