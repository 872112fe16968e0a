-- ===== src/Engine/Created/Whole.antt =====
-- What a whole deploy does.
use shrine.Prelude.{
  All, All-of_mem, List, Nodup, String, [], arith, eq_int, eq_pair, eq_str, found_key, keys, lookup,
  mem-keys, refl, some, ◌∷◌, ◌≡◌,
}
use shrine.Manifest.{ResourceManifest}
use shrine.Topo.{SortResult, cycle, exhausted, sorted}
use shrine.Topo.Correct.{sorted-IsOrdered, topo_sort-ne-exhausted}
use shrine.Planner.Loader.{ManifestSet}
use shrine.Planner.Order.{PlannedStep}
use shrine.Engine.{
  ◌>>=◌, ◌>>◌, Call, World, create_platform_network, finalize, request, resolve_resource,
}
use shrine.Engine.Teardown.{finalize_routing}
use shrine.Engine.Images.{Images}
use shrine.Engine.Resources.{
  Resolved, resolve_each, resolve_in_order, resolve_one, resolve_resources, resource_graph,
  resource_resolution_order,
}
use shrine.Engine.Deploy.{deploy_steps, initial_deps}
use shrine.Engine.Graph.{keys-resource_graph_of, resource_graph-IsGraph}
use shrine.Engine.Created.{At, Goes, bind-Goes, Plain-At, then-Goes}
use shrine.Engine.Created.Steps.{IsDeployable, act_when-Goes, deploy_steps-Goes}

-- A set and steps of it as the planner makes them.
pub record IsPlan (set : ManifestSet) (steps : List PlannedStep) : Type 0 where
  pub resources_once : Nodup (keys set.resources)
  pub deployable : All (IsDeployable set) steps

module _ (w : World) (set : ManifestSet) (base : List Call) (all : List PlannedStep) where
  resolve_one-Goes :
      (name : String) (res : ResourceManifest) (r : Resolved) (h : List Call)
      → At w set base all [] h
      → Goes w set base all [] (resolve_one w name (some res) r h)
  unfolding resolve_one Goes
  resolve_one-Goes name res r h at =
      bind-Goes w set base all [] [] h _ _
        (Plain-At w set base all (resolve_resource res r.deps) (λ k. w.resource k res r.deps) [] h
          (λ s. refl) at)
        (λ resolved k atk. atk)

  resolve_each-Goes :
      (names : List String) (r : Resolved) (h : List Call)
      → All (λ n. (res : ResourceManifest) × (lookup n set.resources ≡ some res)) names
      → At w set base all [] h
      → Goes w set base all [] (resolve_each w set names r h)
  unfolding resolve_each Goes
  resolve_each-Goes [] r h found at = at
  resolve_each-Goes (name ∷ names) r h found at =
      let (res, e) = found.0 in
      bind-Goes w set base all [] [] h _ _ (rw e (resolve_one-Goes name res r h at))
        (λ next k atk. resolve_each-Goes names next k found.1 atk)

  resolve_in_order-Goes :
      (s : SortResult) (r : Resolved) (h : List Call)
      → Nodup (keys set.resources)
      → resource_resolution_order set ≡ s
      → At w set base all [] h
      → Goes w set base all [] (resolve_in_order w set s r h)
  unfolding Goes resource_resolution_order
  resolve_in_order-Goes (sorted names) r h once e at =
      let (n, all_of, o) =
        sorted-IsOrdered (resource_graph set) names (resource_graph-IsGraph set once) e in
      resolve_each-Goes names r h
        (All-of_mem _ names (λ x m. found_key x set.resources (
          ground
            (arith, all_of x, keys-resource_graph_of set set.resources, mem-keys x set.resources))))
        at
  resolve_in_order-Goes (cycle names) r h once e at = record {
    why = (e, at.ok);
    some_of = rw at.made at.some_of;
    since = at.since;
  }
  resolve_in_order-Goes exhausted r h once e at =
      absurd (topo_sort-ne-exhausted (resource_graph set) (resource_graph-IsGraph set once) e)

  finalize_routing-Goes :
      (xs : List PlannedStep) (h : List Call)
      → At w set base all xs h
      → Goes w set base all xs (finalize_routing w h)
  unfolding finalize_routing
  finalize_routing-Goes xs h at = act_when-Goes w set base all w.routed finalize xs h (λ s. refl) at

  -- The part of a deploy that follows the lookups.
  pub after_images-Goes :
      (images : Images) (h : List Call)
      → IsPlan set all
      → At w set base all [] h
      → Goes w set base all all (
          (request w create_platform_network
              >> (resolve_resources w set (initial_deps set) >>= λ r.
                  (deploy_steps w set images r all >> finalize_routing w)))
            h)
  unfolding resolve_resources
  after_images-Goes images h plan at =
      then-Goes w set base all [] all h _ _
        (Plain-At w set base all create_platform_network (λ _. tt) [] h (λ s. refl) at)
        (λ h1 at1.
          bind-Goes w set base all [] all h1 _ _
            (resolve_in_order-Goes (resource_resolution_order set) (initial_deps set) h1
              plan.resources_once refl at1)
            (λ r h2 at2.
              then-Goes w set base all all all h2 _ _
                (deploy_steps-Goes w set base all images r [] all h2 plan.deployable refl at2)
                (λ h3 at3. finalize_routing-Goes all h3 at3)))
