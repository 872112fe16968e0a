-- ===== src/Planner/Plan/Sourced.antt =====
-- The references of a set and the order of its steps: enrichment and `Order`, one after the other.
use shrine.Prelude.{
  All, All-imp, Bool-cases, List, Option, String, [], ap, arith, eq_int, eq_pair, eq_str,
  if◌then◌else◌, inl, inr, lookup, none, refl, some, subst, sym, true, ◌==◌, ◌∙◌, ◌∷◌, ◌≡◌,
}
use shrine.Manifest.{ApplicationManifest, Dependency, EnvVar, ResourceManifest, resource_kind}
use shrine.Planner.Loader.{ManifestSet}
use shrine.Planner.Enrich.{
  ValueFromRef, parse_value_from_ref, InferredEdge, chain_enrich, enriched, has_explicit_dependency,
}
use shrine.Planner.Enrich.Chain.{
  IsEnrichedSet, IsSatisfied, chain_enrich-IsEnrichedSet, kind_of_ref,
}
use shrine.Planner.Order.{PlannedStep, order, steps}
use shrine.Planner.Order.Keys.{IsKind}
use shrine.Planner.Order.Nodes.{IsNamed, deps_found, deps_of, has_manifest}
use shrine.Planner.Order.Steps.{BehindDeps, depends_on, has_step, order-BehindDeps}

abbrev env_found {ℓ} : {V : Type ℓ} → (V → List EnvVar) → Option V → List EnvVar
env_found env_of none = []
env_found env_of (some v) = env_of v

-- The environment of the manifest of a kind and a name.
abbrev pub env_of : ManifestSet → String → String → List EnvVar
env_of set kind name =
    if kind == resource_kind
    then env_found (λ res. res.spec.env) (lookup name set.resources)
    else env_found (λ app. app.spec.env) (lookup name set.applications)

-- The manifest that a variable refers to has its step in `seen`, if the set has that manifest.
abbrev pub IsSourced : ManifestSet → List PlannedStep → EnvVar → Type 0
IsSourced set seen env =
    (ref : ValueFromRef)
    → parse_value_from_ref env.value_from ≡ some ref
    → has_manifest set (kind_of_ref ref) ref.name ≡ true
    → has_step (kind_of_ref ref) ref.name seen ≡ true

-- Each step stands behind the steps of the manifests that its variables refer to; `seen` stands
-- before the list.
abbrev pub BehindSources : ManifestSet → List PlannedStep → List PlannedStep → Type 0
BehindSources set seen [] = Unit {0}
BehindSources set seen (s ∷ xs) =
    All (IsSourced set seen) (env_of set s.kind s.name) × BehindSources set (s ∷ seen) xs

explicit-depends_on :
    (kind name : String) (deps : List Dependency)
    → has_explicit_dependency deps kind name ≡ depends_on kind name deps
unfolding has_explicit_dependency depends_on
explicit-depends_on kind name [] = refl
explicit-depends_on kind name (d ∷ deps) = ground (arith, explicit-depends_on kind name deps)

kind_of_ref-IsKind : (ref : ValueFromRef) → IsKind (kind_of_ref ref)
kind_of_ref-IsKind ref = elim (Bool-cases (ref.kind == "resource")) [
  | inl e ↦ rw e (inl refl)
  | inr e ↦ rw e (inr refl)
]

module _ (set next : ManifestSet) (rich : IsEnrichedSet set next) where
  resource-IsSatisfied :
      (o : Option ResourceManifest) (name : String)
      → lookup name next.resources ≡ o
      → All
          (IsSatisfied (deps_found (λ res. res.spec.dependencies) o))
          (env_found (λ res. res.spec.env) o)
  resource-IsSatisfied none name e = tt
  resource-IsSatisfied (some res) name e =
      let (old, was, same, r) = rich.resources name res e in
      subst (λ vs. All (IsSatisfied res.spec.dependencies) vs) (sym (ap (λ m. m.spec.env) same))
        r.satisfied

  application-IsSatisfied :
      (o : Option ApplicationManifest) (name : String)
      → lookup name next.applications ≡ o
      → All
          (IsSatisfied (deps_found (λ app. app.spec.dependencies) o))
          (env_found (λ app. app.spec.env) o)
  application-IsSatisfied none name e = tt
  application-IsSatisfied (some app) name e =
      let (old, was, same, r) = rich.applications name app e in
      subst (λ vs. All (IsSatisfied app.spec.dependencies) vs) (sym (ap (λ m. m.spec.env) same))
        r.satisfied

  all-IsSatisfied :
      (kind name : String) → All (IsSatisfied (deps_of next kind name)) (env_of next kind name)
  all-IsSatisfied kind name = elim (Bool-cases (kind == resource_kind)) [
    | inl e ↦ rw e (resource-IsSatisfied (lookup name next.resources) name refl)
    | inr e ↦ rw e (application-IsSatisfied (lookup name next.applications) name refl)
  ]

  BehindDeps-BehindSources :
      (seen xs : List PlannedStep) → BehindDeps next seen xs → BehindSources next seen xs
  BehindDeps-BehindSources seen [] b = tt
  BehindDeps-BehindSources seen (s ∷ xs) b = (
    All-imp
        (λ env ok ref parsed there. b.0 (kind_of_ref ref) ref.name (kind_of_ref-IsKind ref) there (
          sym (explicit-depends_on (kind_of_ref ref) ref.name (deps_of next s.kind s.name))
          ∙ ok ref parsed))
        (env_of next s.kind s.name) (all-IsSatisfied s.kind s.name),
    BehindDeps-BehindSources (s ∷ seen) xs b.1,
  )

-- The order of a set that is enriched.
pub enriched-BehindSources :
    (set next : ManifestSet)
    → IsEnrichedSet set next
    → (xs : List PlannedStep) → order next ≡ steps xs
    → BehindSources next [] xs
enriched-BehindSources set next rich xs o =
    let named_next : IsNamed next = record {
      apps_once = rich.apps_once;
      resources_once = rich.resources_once;
    } in
    BehindDeps-BehindSources set next rich [] xs (order-BehindDeps next xs named_next o)

-- For a set that holds no name twice in a kind: when enrichment succeeds and `Order` then returns
-- steps, every step stands behind the steps of all the manifests of the set that the variables of
-- its own manifest take values from, whether the manifest declares these dependencies or not.
pub order-BehindSources :
    (set next : ManifestSet) (edges : List InferredEdge) (xs : List PlannedStep)
    → IsNamed set
    → chain_enrich set ≡ enriched next edges
    → order next ≡ steps xs
    → BehindSources next [] xs
order-BehindSources set next edges xs named e o =
    enriched-BehindSources set next
      (chain_enrich-IsEnrichedSet set next edges named.apps_once named.resources_once e) xs o
