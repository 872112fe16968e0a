-- ===== src/Engine/Graph.antt =====
-- The graph of the resources of a set, by their dependencies on resources.
use shrine.Prelude.{
  All, Bool-cases, List, Nodup, String, [], ap, eq_int, eq_pair, eq_str, has_key, inl, inr, keys,
  refl, ◌&&◌, ◌==◌, ◌∷◌, ◌≡◌,
}
use shrine.Manifest.{Dependency, ResourceManifest, resource_kind}
use shrine.Topo.Graph.{IsGraph, add_to_set-Nodup}
use shrine.Planner.Loader.{ManifestSet}
use shrine.Engine.Resources.{resource_dep_set, resource_graph_of, resource_graph}

resource_dep_set-Nodup :
    (set : ManifestSet) (deps : List Dependency) (d : List String)
    → Nodup d
    → Nodup (resource_dep_set set deps d)
unfolding resource_dep_set
resource_dep_set-Nodup set [] d h = h
resource_dep_set-Nodup set (dep ∷ deps) d h =
    elim (Bool-cases (dep.kind == resource_kind && has_key dep.name set.resources)) [
      | inl e ↦ rw e (resource_dep_set-Nodup set deps _ (add_to_set-Nodup dep.name d h))
      | inr e ↦ rw e (resource_dep_set-Nodup set deps d h)
    ]

pub keys-resource_graph_of :
    (set : ManifestSet) (rs : List (String × ResourceManifest))
    → keys (resource_graph_of set rs) ≡ keys rs
unfolding resource_graph_of
keys-resource_graph_of set [] = refl
keys-resource_graph_of set ((name, res) ∷ rs) = ap (λ ks. name ∷ ks) (keys-resource_graph_of set rs)

resource_graph_of-sets :
    (set : ManifestSet) (rs : List (String × ResourceManifest))
    → All (λ r. Nodup r.1) (resource_graph_of set rs)
unfolding resource_graph_of
resource_graph_of-sets set [] = tt
resource_graph_of-sets set ((name, res) ∷ rs) =
    (resource_dep_set-Nodup set res.spec.dependencies [] tt, resource_graph_of-sets set rs)

pub resource_graph-IsGraph :
    (set : ManifestSet) → Nodup (keys set.resources) → IsGraph (resource_graph set)
resource_graph-IsGraph set once = record {
  nodes = rw (keys-resource_graph_of set set.resources) once;
  sets = resource_graph_of-sets set set.resources;
}
