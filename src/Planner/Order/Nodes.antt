-- ===== src/Planner/Order/Nodes.antt =====
-- The graph of a set: one node for each manifest, with the dependencies of the manifest.
use shrine.Prelude.{
  All, Bool, Bool-cases, List, Nodup, Option, String, [], ap, arith, before, eq_int, eq_pair,
  eq_str, false, has_key, if◌then◌else◌, inl, inr, keys, length, length-append, lookup, mem,
  mem-keys, none, refl, some, subst, suc, true, ◌&&◌, ◌++◌, ◌+◌, ◌==◌, ◌∷◌, ◌≡◌,
}
use shrine.Manifest.{application_kind, resource_kind, Dependency}
use shrine.Topo.Graph.{IsGraph, get_or_empty}
use shrine.Planner.Loader.{ManifestSet}
use shrine.Planner.Order.{node_key, step_of, dep_set, pass, dep_graph}
use shrine.Planner.Order.Keys.{
  IsKind, node_key-eq, dep_set-Nodup, before-append, after-append, IsKind-no_colon, kinds_differ,
}

-- A key whose step has one of the two kinds, and is the key of that step.
pub record IsNode (key : String) : Type 0 where
  pub kind : IsKind (step_of key).kind
  pub rebuilt : node_key (step_of key).kind (step_of key).name ≡ key

node_key-IsNode : (kind name : String) → IsKind kind → IsNode (node_key kind name)
node_key-IsNode kind name k =
    let plain = IsKind-no_colon kind k in
    record {
      kind = rw (before-append kind name plain) k;
      rebuilt = rw (before-append kind name plain, after-append kind name plain) refl;
    }

-- The dependencies of the manifest of a step; none where there is no manifest.
abbrev pub deps_found {ℓ} : {V : Type ℓ} → (V → List Dependency) → Option V → List Dependency
deps_found deps_of none = []
deps_found deps_of (some v) = deps_of v

abbrev dep_sets_found {ℓ} : {V : Type ℓ} → (V → List Dependency) → Option V → Option (List String)
dep_sets_found deps_of none = none
dep_sets_found deps_of (some v) = some (dep_set (deps_of v) [])

module _ {ℓ} {V : Type ℓ} (kind : String) (is_kind : IsKind kind)
    (deps_of : V → List Dependency) where
  lookup-pass :
      (other n : String) (m : List (String × V))
      → IsKind other
      → lookup (node_key other n) (pass kind deps_of m)
        ≡ (if kind == other then dep_sets_found deps_of (lookup n m) else none)
  unfolding lookup
  lookup-pass other n [] h = ground arith
  lookup-pass other n ((i, v) ∷ m) h =
      ground (arith, lookup-pass other n m h, node_key-eq kind other i n is_kind h)

  pass-Nodup : (m : List (String × V)) → Nodup (keys m) → Nodup (keys (pass kind deps_of m))
  pass-Nodup [] d = tt
  pass-Nodup ((i, v) ∷ m) d = (
    ground (
      arith,
      mem-keys (node_key kind i) (pass kind deps_of m),
      lookup-pass kind i m is_kind,
      mem-keys i m,
      d.0,
    ),
    pass-Nodup m d.1,
  )

  pass-sets : (m : List (String × V)) → All (λ r. Nodup r.1) (pass kind deps_of m)
  pass-sets [] = tt
  pass-sets ((i, v) ∷ m) = (dep_set-Nodup (deps_of v) [] tt, pass-sets m)

  pass-IsNode : (m : List (String × V)) → All IsNode (keys (pass kind deps_of m))
  pass-IsNode [] = tt
  pass-IsNode ((i, v) ∷ m) = (node_key-IsNode kind i is_kind, pass-IsNode m)

  -- Each key of a pass begins with its kind.
  pass-kind :
      (k : String) (m : List (String × V))
      → has_key k (pass kind deps_of m) ≡ true
      → before b':' k ≡ kind
  unfolding lookup
  pass-kind k [] h = absurd (ground arith)
  pass-kind k ((i, v) ∷ m) h =
      ground (arith, pass-kind k m, before-append kind i (IsKind-no_colon kind is_kind))

  length-pass : (m : List (String × V)) → length (pass kind deps_of m) ≡ length m
  length-pass [] = refl
  length-pass (r ∷ m) = ap suc (length-pass m)

-- Whether the set has a manifest of a kind and a name.
abbrev pub has_manifest : ManifestSet → String → String → Bool
has_manifest set kind name =
    if kind == resource_kind
    then has_key name set.resources
    else (kind == application_kind && has_key name set.applications)

-- The dependencies of the manifest of a kind and a name.
abbrev pub deps_of : ManifestSet → String → String → List Dependency
deps_of set kind name =
    if kind == resource_kind
    then deps_found (λ res. res.spec.dependencies) (lookup name set.resources)
    else deps_found (λ app. app.spec.dependencies) (lookup name set.applications)

-- The sets that `MergeManifest` makes: no name twice in a kind.
pub record IsNamed (set : ManifestSet) : Type 0 where
  pub apps_once : Nodup (keys set.applications)
  pub resources_once : Nodup (keys set.resources)

lookup-append {ℓ} :
    {V : Type ℓ} (k : String) (m n : List (String × V))
    → lookup k (m ++ n) ≡ (if has_key k m then lookup k m else lookup k n)
unfolding lookup
lookup-append k [] n = refl
lookup-append k ((j, v) ∷ m) n = ground (arith, lookup-append k m n)

keys-append-Nodup {ℓ} :
    {V : Type ℓ} (m n : List (String × V))
    → Nodup (keys m)
    → Nodup (keys n)
    → ((k : String) → has_key k m ≡ true → has_key k n ≡ false)
    → Nodup (keys (m ++ n))
unfolding lookup mem
keys-append-Nodup [] n d e apart = e
keys-append-Nodup ((j, v) ∷ m) n d e apart = (
  ground (arith, mem-keys j (m ++ n), lookup-append j m n, mem-keys j m, d.0, apart j),
  keys-append-Nodup m n d.1 e (λ k there. apart k (ground arith)),
)

All-append {ℓ κ} :
    {A : Type ℓ} (P : A → Type κ) (xs ys : List A) → All P xs → All P ys → All P (xs ++ ys)
All-append P [] ys h k = k
All-append P (x ∷ xs) ys h k = (h.0, All-append P xs ys h.1 k)

keys-append-All {ℓ κ} :
    {V : Type ℓ} (P : String → Type κ) (m n : List (String × V))
    → All P (keys m)
    → All P (keys n)
    → All P (keys (m ++ n))
keys-append-All P [] n h k = k
keys-append-All P (r ∷ m) n h k = (h.0, keys-append-All P m n h.1 k)

pub All-mem {κ} :
    (P : String → Type κ) (x : String) (xs : List String) → All P xs → mem x xs ≡ true → P x
unfolding mem
All-mem P x [] h m = absurd (ground arith)
All-mem P x (y ∷ xs) h m = elim (Bool-cases (y == x)) [
  | inl same ↦ let e : y ≡ x = ground arith in subst P e h.0
  | inr other ↦ All-mem P x xs h.1 (ground arith)
]

module _ (set : ManifestSet) where
  abbrev res_pass : List (String × List String)
  res_pass = pass resource_kind (λ res. res.spec.dependencies) set.resources

  abbrev app_pass : List (String × List String)
  app_pass = pass application_kind (λ app. app.spec.dependencies) set.applications

  lookup-res :
      (kind n : String)
      → IsKind kind
      → lookup (node_key kind n) res_pass ≡ (
          if resource_kind == kind
          then dep_sets_found (λ res. res.spec.dependencies) (lookup n set.resources)
          else none)
  lookup-res kind n k = lookup-pass resource_kind (inl refl) _ kind n set.resources k

  lookup-app :
      (kind n : String)
      → IsKind kind
      → lookup (node_key kind n) app_pass ≡ (
          if application_kind == kind
          then dep_sets_found (λ app. app.spec.dependencies) (lookup n set.applications)
          else none)
  lookup-app kind n k = lookup-pass application_kind (inr refl) _ kind n set.applications k

  pub has_key-dep_graph :
      (kind n : String)
      → IsKind kind
      → has_key (node_key kind n) (dep_graph set) ≡ has_manifest set kind n
  has_key-dep_graph kind n k = ground (
    arith,
    lookup-append (node_key kind n) res_pass app_pass,
    lookup-res kind n k,
    lookup-app kind n k,
    kinds_differ,
  )

  pub lookup-dep_graph :
      (kind n : String)
      → IsKind kind
      → get_or_empty (lookup (node_key kind n) (dep_graph set)) ≡ dep_set (deps_of set kind n) []
  lookup-dep_graph kind n k =
      unfold dep_set in
      ground (
        arith,
        lookup-append (node_key kind n) res_pass app_pass,
        lookup-res kind n k,
        lookup-app kind n k,
        kinds_differ,
        k,
      )

  pub dep_graph-IsGraph : IsNamed set → IsGraph (dep_graph set)
  dep_graph-IsGraph h = record {
    nodes =
        keys-append-Nodup res_pass app_pass
          (pass-Nodup resource_kind (inl refl) _ set.resources h.resources_once)
          (pass-Nodup application_kind (inr refl) _ set.applications h.apps_once)
          (λ k r. ground (
            arith,
            pass-kind resource_kind (inl refl) (λ res. res.spec.dependencies) k set.resources,
            pass-kind application_kind (inr refl) (λ app. app.spec.dependencies) k set.applications,
            kinds_differ,
          ));
    sets =
        All-append (λ r. Nodup r.1) res_pass app_pass
          (pass-sets resource_kind (inl refl) _ set.resources)
          (pass-sets application_kind (inr refl) _ set.applications);
  }

  pub dep_graph-IsNode : All IsNode (keys (dep_graph set))
  dep_graph-IsNode =
      keys-append-All IsNode res_pass app_pass
        (pass-IsNode resource_kind (inl refl) _ set.resources)
        (pass-IsNode application_kind (inr refl) _ set.applications)

  pub length-dep_graph : length (dep_graph set) ≡ length set.resources + length set.applications
  length-dep_graph = omega (
    arith,
    length-append res_pass app_pass,
    length-pass resource_kind (inl refl) (λ res. res.spec.dependencies) set.resources,
    length-pass application_kind (inr refl) (λ app. app.spec.dependencies) set.applications,
  )
