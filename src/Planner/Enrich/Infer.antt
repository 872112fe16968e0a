-- ===== src/Planner/Enrich/Infer.antt =====
-- What the loop over the environment of one consumer infers.
use shrine.Prelude.{
  All, All-imp, Bool, Bool-cases, List, Option-cases, String, [], ap, arith, eq_int, eq_pair,
  eq_str, false, inl, inr, mem, refl, some, true, ◌++◌, ◌==◌, ◌||◌, ◌↔◌, ◌∷◌, ◌≡◌, ◌≢◌, ◌⊎◌,
}
use shrine.Manifest.{Dependency, EnvVar}
use shrine.Planner.Enrich.{
  ValueFromRef, has_explicit_dependency, ConsumerView, Rule, Decision, skip, fail, add, unresolved,
  inferred_dependency, decide_owned, decide_ref, decide, Inferred, inferred, not_enriched, prepend,
  infer_from, infer_consumer_deps, EnrichmentError, InferredEdge,
}

Decision-cases :
    (d : Decision)
    → (d ≡ skip)
      ⊎ ((e : EnrichmentError) × (d ≡ fail e))
      ⊎ ((dep : Dependency) × (edge : InferredEdge) × (d ≡ add dep edge))
Decision-cases skip = inl refl
Decision-cases (fail e) = inr (inl (e, refl))
Decision-cases (add dep edge) = inr (inr (dep, edge, refl))

pub Inferred-cases :
    (r : Inferred)
    → ((extra : List Dependency) × (edges : List InferredEdge) × (r ≡ inferred extra edges))
      ⊎ ((e : EnrichmentError) × (r ≡ not_enriched e))
Inferred-cases (inferred extra edges) = inl (extra, edges, refl)
Inferred-cases (not_enriched e) = inr (e, refl)

-- Each reference of the variable that the rule reads is to a name that passes the test.
abbrev pub IsCovered : Rule → (String → Bool) → EnvVar → Type 0
IsCovered rule test env =
    (ref : ValueFromRef)
    → (env.value_from == "") ≡ false
    → rule.parse_for env.value_from ≡ some ref
    → test ref.name ≡ true

-- A dependency that the rule may add: of its kind, and on a manifest of the consumer's team.
pub record IsSameTeam (rule : Rule) (cv : ConsumerView) (d : Dependency) : Type 0 where
  pub of_kind : d.kind ≡ rule.target_kind
  pub of_team : d.owner ≡ cv.owner
  pub known : rule.lookup_owner d.name ≡ some cv.owner

dependency_name :
    (rule : Rule) (ref : ValueFromRef) (owner : String) (dep : Dependency)
    → inferred_dependency rule ref owner ≡ dep
    → ref.name ≡ dep.name
unfolding inferred_dependency
dependency_name rule ref owner dep e = ap (λ d. d.name) e

pub has_explicit_dependency-append :
    (ds es : List Dependency) (kind name : String)
    → has_explicit_dependency (ds ++ es) kind name
      ≡ (has_explicit_dependency ds kind name || has_explicit_dependency es kind name)
unfolding has_explicit_dependency
has_explicit_dependency-append [] es kind name = refl
has_explicit_dependency-append (d ∷ ds) es kind name =
    ground (arith, has_explicit_dependency-append ds es kind name)

-- What a consumer may refer to: the manifests that it names in its dependencies, and those of its
-- own team.
abbrev IsReachable : Rule → ConsumerView → EnvVar → Type 0
IsReachable rule cv env =
    (ref : ValueFromRef)
    → (env.value_from == "") ≡ false
    → rule.parse_for env.value_from ≡ some ref
    → (has_explicit_dependency cv.deps rule.target_kind ref.name ≡ true)
      ⊎ (rule.lookup_owner ref.name ≡ some cv.owner)

module _ (rule : Rule) (cv : ConsumerView) where
  -- The names that need no further dependency.
  abbrev covered : List String → List Dependency → String → Bool
  covered seen extra name =
      has_explicit_dependency cv.deps rule.target_kind name
      || mem name seen
      || has_explicit_dependency extra rule.target_kind name

  decide-skip :
      (env : EnvVar) (seen : List String) (extra : List Dependency)
      → decide rule cv env seen ≡ skip
      → IsCovered rule (covered seen extra) env
  unfolding decide decide_ref decide_owned unresolved
  decide-skip env seen extra e ref given found = ground arith

  decide-add :
      (env : EnvVar) (seen : List String) (dep : Dependency) (edge : InferredEdge)
      → decide rule cv env seen ≡ add dep edge
      → (ref : ValueFromRef) × (rule.parse_for env.value_from ≡ some ref)
        × (inferred_dependency rule ref cv.owner ≡ dep)
        × (rule.lookup_owner ref.name ≡ some cv.owner)
  unfolding decide decide_ref decide_owned unresolved
  decide-add env seen dep edge e = elim (Option-cases (rule.parse_for env.value_from)) [
    | inl none_there ↦ absurd (ground arith)
    | inr (ref, found) ↦ elim (Option-cases (rule.lookup_owner ref.name)) [
      | inl unknown ↦ absurd (ground arith)
      | inr (owner, known) ↦
          let mine : owner ≡ cv.owner = ground arith in (ref, found, ground arith, ground arith)
    ]
  ]

  decide-add-IsSameTeam :
      (env : EnvVar) (seen : List String) (dep : Dependency) (edge : InferredEdge)
      → decide rule cv env seen ≡ add dep edge
      → IsSameTeam rule cv dep
  unfolding inferred_dependency
  decide-add-IsSameTeam env seen dep edge e =
      let (ref, found, same, known) = decide-add env seen dep edge e in
      rw (← same) (record { of_kind = refl; of_team = refl; known = known })

  infer_from-IsCovered :
      (envs : List EnvVar) (seen : List String) (extra : List Dependency)
      (edges : List InferredEdge)
      → infer_from rule cv envs seen ≡ inferred extra edges
      → All (IsSameTeam rule cv) extra × All (IsCovered rule (covered seen extra)) envs
  unfolding infer_from prepend has_explicit_dependency mem
  infer_from-IsCovered [] seen extra edges e =
      let same : [] ≡ extra = ground arith in rw (← same) (tt, tt)
  infer_from-IsCovered (env ∷ envs) seen extra edges e =
      elim (Decision-cases (decide rule cv env seen)) [
        | inl s ↦
            let (team, rest) = infer_from-IsCovered envs seen extra edges (ground arith) in
            (team, (decide-skip env seen extra s, rest))
        | inr (inl (why, f)) ↦ absurd (ground arith)
        | inr (inr (dep, edge, a)) ↦
            elim (Inferred-cases (infer_from rule cv envs (dep.name ∷ seen))) [
              | inr (why, f) ↦ absurd (ground arith)
              | inl (more, more_edges, r) ↦
                  let same : dep ∷ more ≡ extra = ground arith in
                  let (team, rest) =
                    infer_from-IsCovered envs (dep.name ∷ seen) more more_edges r in
                  let (ref, found, is_dep, known) = decide-add env seen dep edge a in
                  let mine = decide-add-IsSameTeam env seen dep edge a in
                  let named : ref.name ≡ dep.name = dependency_name rule ref cv.owner dep is_dep in
                  rw (← same) (
                    (mine, team),
                    (
                      λ r given there. ground (arith, mine.of_kind, named),
                      All-imp (λ v h r given there. ground (arith, h r given there, mine.of_kind))
                          envs rest,
                    ),
                  )
            ]
      ]

  decide-fail :
      (env : EnvVar) (seen : List String) (why : EnrichmentError)
      → decide rule cv env seen ≡ fail why
      → ¬ (IsReachable rule cv env)
  unfolding decide decide_ref decide_owned
  decide-fail env seen why e reach = elim (Option-cases (rule.parse_for env.value_from)) [
    | inl none_there ↦ ground arith
    | inr (ref, found) ↦ elim (Bool-cases (env.value_from == "")) [
      | inl bare ↦ ground arith
      | inr given ↦ elim (reach ref given found) [
        | inl explicit ↦ ground arith
        | inr known ↦ ground arith
      ]
    ]
  ]

  unresolved_fails :
      (env : EnvVar) (ref : ValueFromRef)
      → (why : EnrichmentError) × (unresolved cv env ref ≡ fail why)
  unfolding unresolved
  unresolved_fails env ref = (_, refl)

  decide-reach :
      (env : EnvVar) (seen : List String)
      → ((why : EnrichmentError) → decide rule cv env seen ≢ fail why)
      → IsReachable rule cv env
  unfolding decide decide_ref decide_owned
  decide-reach env seen ok ref given found =
      let (why, failed) = unresolved_fails env ref in
      elim (Bool-cases (has_explicit_dependency cv.deps rule.target_kind ref.name)) [
        | inl explicit ↦ inl explicit
        | inr implied ↦ elim (Option-cases (rule.lookup_owner ref.name)) [
          | inl unknown ↦ absurd (ok why (ground (arith, failed)))
          | inr (owner, known) ↦ elim (Bool-cases (owner == cv.owner)) [
            | inl mine ↦ inr (ground arith)
            | inr foreign ↦ absurd (ok why (ground (arith, failed)))
          ]
        ]
      ]

  infer_from-total :
      (envs : List EnvVar) (seen : List String)
      → All (IsReachable rule cv) envs
      → (extra : List Dependency) × (edges : List InferredEdge) × (infer_from rule cv envs seen
          ≡ inferred extra edges)
  unfolding infer_from prepend
  infer_from-total [] seen a = ([], [], refl)
  infer_from-total (env ∷ envs) seen a = elim (Decision-cases (decide rule cv env seen)) [
    | inl s ↦ let (extra, edges, r) = infer_from-total envs seen a.1 in (extra, edges, ground arith)
    | inr (inl (why, f)) ↦ absurd (decide-fail env seen why f a.0)
    | inr (inr (dep, edge, d)) ↦
        let (extra, edges, r) = infer_from-total envs (dep.name ∷ seen) a.1 in
        (dep ∷ extra, edge ∷ edges, ground arith)
  ]

  infer_from-reach :
      (envs : List EnvVar) (seen : List String) (extra : List Dependency)
      (edges : List InferredEdge)
      → infer_from rule cv envs seen ≡ inferred extra edges
      → All (IsReachable rule cv) envs
  unfolding infer_from prepend
  infer_from-reach [] seen extra edges e = tt
  infer_from-reach (env ∷ envs) seen extra edges e =
      elim (Decision-cases (decide rule cv env seen)) [
        | inl s ↦ (
          decide-reach env seen (λ why f. ground arith),
          infer_from-reach envs seen extra edges (ground arith),
        )
        | inr (inl (why, f)) ↦ absurd (ground arith)
        | inr (inr (dep, edge, d)) ↦
            elim (Inferred-cases (infer_from rule cv envs (dep.name ∷ seen))) [
              | inr (why, f) ↦ absurd (ground arith)
              | inl (more, more_edges, r) ↦ (
                decide-reach env seen (λ why f. ground arith),
                infer_from-reach envs (dep.name ∷ seen) more more_edges r,
              )
            ]
      ]

  -- When a rule infers the dependencies of a consumer, each of them is of the rule's kind and on a
  -- manifest that the consumer's own team has; and together with the dependencies that the consumer
  -- lists, they hold one for every reference in its environment that the rule reads.
  pub infer_consumer_deps-IsCovered :
      (extra : List Dependency) (edges : List InferredEdge)
      → infer_consumer_deps rule cv ≡ inferred extra edges
      → All (IsSameTeam rule cv) extra
        × All
            (IsCovered rule
              (λ name. has_explicit_dependency (cv.deps ++ extra) rule.target_kind name))
            cv.env
  unfolding infer_consumer_deps mem
  infer_consumer_deps-IsCovered extra edges e =
      let (team, all) = infer_from-IsCovered cv.env [] extra edges e in
      (
        team,
        All-imp
            (λ v h ref given found. ground (
              arith,
              h ref given found,
              has_explicit_dependency-append cv.deps extra rule.target_kind ref.name,
            ))
            cv.env all,
      )

  -- A rule infers the dependencies of a consumer exactly when every reference in its environment
  -- that the rule reads is to a manifest that the consumer names in its dependencies or that
  -- its own team has; otherwise it reports an error.
  infer_consumer_deps_iff :
      ((extra : List Dependency) × (edges : List InferredEdge) × (infer_consumer_deps rule cv
          ≡ inferred extra edges))
      ↔ All (IsReachable rule cv) cv.env
  unfolding infer_consumer_deps
  infer_consumer_deps_iff =
      (λ (extra, edges, e). infer_from-reach cv.env [] extra edges e, infer_from-total cv.env [])
