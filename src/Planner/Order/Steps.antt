-- ===== src/Planner/Order/Steps.antt =====
-- What `Order` promises: a step for each manifest, behind the steps that it depends on.
use shrine.Prelude.{
  All, All-imp, All-zip, Bool, List, Nodup, String, [], arith, eq_int, eq_pair, eq_str, false,
  has_key, if◌then◌else◌, inl, inr, keys, lookup, map, mem, mem-keep, mem-keys, refl, sym, true,
  ◌&&◌, ◌==◌, ◌||◌, ◌∙◌, ◌∷◌, ◌≡◌, ◌≢◌, ◌⊎◌,
}
use shrine.Manifest.{Dependency}
use shrine.Topo.{SortResult, sorted, cycle, exhausted, topo_sort}
use shrine.Topo.Graph.{get_or_empty, deps_in}
use shrine.Topo.Loop.{IsOrdered}
use shrine.Topo.Correct.{IsCyclic, cycle_iff_IsCyclic, sorted-IsOrdered, topo_sort-ne-exhausted}
use shrine.Planner.Loader.{ManifestSet}
use shrine.Planner.Order.{
  node_key, step_of, dep_graph, PlannedStep, steps, dependency_cycle, order_of, order,
}
use shrine.Planner.Order.Keys.{IsKind, node_key-eq, names_key, mem-dep_set}
use shrine.Planner.Order.Nodes.{
  IsNode, has_manifest, deps_of, IsNamed, All-mem, has_key-dep_graph, lookup-dep_graph,
  dep_graph-IsGraph, dep_graph-IsNode,
}

-- Whether the list has a step of a kind and a name.
unfoldable pub has_step : String → String → List PlannedStep → Bool
has_step kind name [] = false
has_step kind name (s ∷ xs) = (s.kind == kind && s.name == name) || has_step kind name xs

-- No step stands twice.
abbrev pub OnceEach : List PlannedStep → Type 0
OnceEach [] = Unit {0}
OnceEach (s ∷ xs) = (has_step s.kind s.name xs ≡ false) × OnceEach xs

-- Whether one of the dependencies is on the manifest of a kind and a name.
unfoldable pub depends_on : String → String → List Dependency → Bool
depends_on kind name [] = false
depends_on kind name (d ∷ ds) = (d.kind == kind && d.name == name) || depends_on kind name ds

-- Each step stands behind the steps of the manifests of the set that its own manifest depends on;
-- `seen` stands before the list.
abbrev pub BehindDeps : ManifestSet → List PlannedStep → List PlannedStep → Type 0
BehindDeps set seen [] = Unit {0}
BehindDeps set seen (s ∷ xs) =
    ((kind name : String)
      → IsKind kind
      → has_manifest set kind name ≡ true
      → depends_on kind name (deps_of set s.kind s.name) ≡ true
      → has_step kind name seen ≡ true)
    × BehindDeps set (s ∷ seen) xs

names_key-depends_on :
    (kind name : String) (ds : List Dependency)
    → depends_on kind name ds ≡ true
    → names_key (node_key kind name) ds ≡ true
unfolding depends_on names_key
names_key-depends_on kind name [] h = absurd (ground arith)
names_key-depends_on kind name (d ∷ ds) h = ground (arith, names_key-depends_on kind name ds)

-- On keys of steps, the steps are as distinct as the keys.
has_step-map :
    (kind name : String) (ks : List String)
    → IsKind kind
    → All IsNode ks
    → has_step kind name (map step_of ks) ≡ mem (node_key kind name) ks
unfolding has_step mem
has_step-map kind name [] h a = refl
has_step-map kind name (k ∷ ks) h a = ground (
  arith,
  has_step-map kind name ks h a.1,
  a.0.rebuilt,
  node_key-eq (step_of k).kind kind (step_of k).name name a.0.kind h,
)

OnceEach-map : (ks : List String) → All IsNode ks → Nodup ks → OnceEach (map step_of ks)
OnceEach-map [] a d = tt
OnceEach-map (k ∷ ks) a d = (
  ground (arith, has_step-map (step_of k).kind (step_of k).name ks a.0.kind a.1, a.0.rebuilt, d.0),
  OnceEach-map ks a.1 d.1,
)

module _ (set : ManifestSet) where
  -- What a key depends on, by the manifest of its step.
  mem-deps_in :
      (k : String) (kind name : String)
      → IsNode k
      → IsKind kind
      → mem (node_key kind name) (deps_in (dep_graph set) k) ≡ (
          if has_manifest set kind name
          then names_key (node_key kind name) (deps_of set (step_of k).kind (step_of k).name)
          else false)
  unfolding mem
  mem-deps_in k kind name node h = ground (
    arith,
    mem-keep (λ d. has_key d (dep_graph set)) (node_key kind name)
        (get_or_empty (lookup k (dep_graph set))),
    has_key-dep_graph set kind name h,
    lookup-dep_graph set (step_of k).kind (step_of k).name node.kind,
    node.rebuilt,
    mem-dep_set (node_key kind name) (deps_of set (step_of k).kind (step_of k).name) [],
  )

  BehindDeps-map :
      (seen ks : List String)
      → All IsNode seen
      → All IsNode ks
      → IsOrdered (deps_in (dep_graph set)) seen ks
      → BehindDeps set (map step_of seen) (map step_of ks)
  BehindDeps-map seen [] b a o = tt
  BehindDeps-map seen (k ∷ ks) b a o = (
    λ kind name h there dep. ground (
      arith,
      has_step-map kind name seen h b,
      o.0 (node_key kind name),
      mem-deps_in k kind name a.0 h,
      names_key-depends_on kind name (deps_of set (step_of k).kind (step_of k).name),
    ),
    BehindDeps-map (k ∷ seen) ks (a.0, b) a.1 o.1,
  )

All-subset :
    (P : String → Type 0) (xs ys : List String)
    → ((x : String) → mem x ys ≡ true → mem x xs ≡ true)
    → All P xs
    → All P ys
unfolding mem
All-subset P xs [] s a = tt
All-subset P xs (y ∷ ys) s a =
    (All-mem P y xs a (s y (ground arith)), All-subset P xs ys (λ x m. s x (ground arith)) a)

order_of-steps :
    (r : SortResult) (xs : List PlannedStep)
    → order_of r ≡ steps xs
    → (ks : List String) × (r ≡ sorted ks) × (map step_of ks ≡ xs)
unfolding order_of
order_of-steps (sorted ks) xs e = (ks, refl, ground arith)
order_of-steps (cycle ks) xs e = absurd (ground arith)
order_of-steps exhausted xs e = absurd (ground arith)

-- For a set that holds no name twice in a kind, the steps that `Order` returns are one for each
-- resource and each application of the set: no step stands twice, and each stands for a manifest.
pub order-OnceEach :
    (set : ManifestSet) (xs : List PlannedStep)
    → IsNamed set
    → order set ≡ steps xs
    → OnceEach xs
      × ((kind name : String) → IsKind kind → has_step kind name xs ≡ has_manifest set kind name)
unfolding order
order-OnceEach set xs h e =
    let (ks, out, same) = order_of-steps (topo_sort (dep_graph set)) xs e in
    let (once, all, o) = sorted-IsOrdered (dep_graph set) ks (dep_graph-IsGraph set h) out in
    let nodes : All IsNode ks =
      All-subset IsNode (keys (dep_graph set)) ks (λ x m. ground (arith, all x))
        (dep_graph-IsNode set) in
    rw (← same) (
      OnceEach-map ks nodes once,
      λ kind name k. ground (
        arith,
        has_step-map kind name ks k nodes,
        all (node_key kind name),
        mem-keys (node_key kind name) (dep_graph set),
        has_key-dep_graph set kind name k,
      ),
    )

-- For a set that holds no name twice in a kind, `Order` puts each step behind the steps of all the
-- manifests of the set that its own manifest lists in its dependencies.
pub order-BehindDeps :
    (set : ManifestSet) (xs : List PlannedStep)
    → IsNamed set
    → order set ≡ steps xs
    → BehindDeps set [] xs
unfolding order
order-BehindDeps set xs h e =
    let (ks, out, same) = order_of-steps (topo_sort (dep_graph set)) xs e in
    let (once, all, o) = sorted-IsOrdered (dep_graph set) ks (dep_graph-IsGraph set h) out in
    let nodes : All IsNode ks =
      All-subset IsNode (keys (dep_graph set)) ks (λ x m. ground (arith, all x))
        (dep_graph-IsNode set) in
    rw (← same) (BehindDeps-map set [] ks tt nodes o)

steps-IsKind : (ks : List String) → All IsNode ks → All (λ s. IsKind s.kind) (map step_of ks)
steps-IsKind [] a = tt
steps-IsKind (k ∷ ks) a = (a.0.kind, steps-IsKind ks a.1)

has_step_self : (xs : List PlannedStep) → All (λ s. has_step s.kind s.name xs ≡ true) xs
unfolding has_step
has_step_self [] = tt
has_step_self (x ∷ xs) = (ground arith, All-imp (λ s h. ground (arith, h)) xs (has_step_self xs))

-- Each step that `Order` returns has one of the two kinds, and a manifest of the set.
pub order-HasManifests :
    (set : ManifestSet) (xs : List PlannedStep)
    → IsNamed set
    → order set ≡ steps xs
    → All (λ s. IsKind s.kind × (has_manifest set s.kind s.name ≡ true)) xs
unfolding order
order-HasManifests set xs h e =
    let (ks, out, same) = order_of-steps (topo_sort (dep_graph set)) xs e in
    let (once, all, o) = sorted-IsOrdered (dep_graph set) ks (dep_graph-IsGraph set h) out in
    let nodes : All IsNode ks =
      All-subset IsNode (keys (dep_graph set)) ks (λ x m. ground (arith, all x))
        (dep_graph-IsNode set) in
    let kinds : All (λ s. IsKind s.kind) xs = rw (← same) (steps-IsKind ks nodes) in
    let each = (order-OnceEach set xs h e).1 in
    All-zip (λ s kind here. (kind, sym (each s.kind s.name kind) ∙ here)) xs kinds
      (has_step_self xs)

order_of-total :
    (r : SortResult)
    → r ≢ exhausted
    → ((xs : List PlannedStep) × (order_of r ≡ steps xs))
      ⊎ ((stuck : List String) × (r ≡ cycle stuck) × (order_of r ≡ dependency_cycle stuck))
unfolding order_of
order_of-total (sorted ks) h = inl (map step_of ks, refl)
order_of-total (cycle ks) h = inr (ks, refl, refl)
order_of-total exhausted h = absurd (h refl)

-- For a set that holds no name twice in a kind, `Order` ends: it returns steps, or the error of a
-- dependency cycle, and then some nonempty set of keys is closed under the dependencies, so that no
-- order of the steps could put each one behind its dependencies.
pub order_total :
    (set : ManifestSet)
    → IsNamed set
    → ((xs : List PlannedStep) × (order set ≡ steps xs))
      ⊎ ((stuck bad : List String) × (order set ≡ dependency_cycle stuck)
          × IsCyclic (dep_graph set) bad)
unfolding order
order_total set h =
    elim (order_of-total (topo_sort (dep_graph set))
      (topo_sort-ne-exhausted (dep_graph set) (dep_graph-IsGraph set h))) [
        | inl (xs, e) ↦ inl (xs, e)
        | inr (stuck, c, e) ↦
            let (bad, cyclic) =
              (cycle_iff_IsCyclic (dep_graph set) (dep_graph-IsGraph set h)).0 (stuck, c) in
            inr (stuck, bad, e, cyclic)
      ]
