-- ===== src/Planner/Enrich/Chain.antt =====
-- What the production rules, one after the other, make of a set.
use shrine.Prelude.{
  All, All-imp, Bool-cases, List, Nodup, Option, String, [], ap, append-nil, append_assoc, arith,
  eq_int, eq_pair, eq_str, false, has_key, if◌then◌else◌, inl, inr, keys, lookup, refl, some, split,
  subst, sym, true, ◌++◌, ◌==◌, ◌||◌, ◌∙◌, ◌∷◌, ◌≡◌,
}
use shrine.Manifest.{
  ApplicationManifest, Dependency, EnvVar, ResourceManifest, application_kind, resource_kind,
}
use shrine.Planner.Loader.{ManifestSet}
use shrine.Planner.Enrich.{
  Rule, ValueFromRef, application_view, resource_view, clone_application_with_deps,
  clone_resource_with_deps, Enriched, enriched, enrichment_failed, missing_manifest,
  apply_enrichment_rule, copy_manifest_set_shallow, InferredEdge, ref_of_parts,
  parse_value_from_ref, parse_resource_ref, parse_application_ref, has_explicit_dependency,
  value_from_resource, value_from_application, chain_from, chain_enrich, after_edges,
}
use shrine.Planner.Enrich.Infer.{has_explicit_dependency-append, infer_consumer_deps-IsCovered}
use shrine.Planner.Enrich.Rules.{AppStep, ResStep, rule-IsMapped, after_edges-enriched}

-- Each reference of a variable that one rule reads is among the dependencies.
abbrev IsCoveredBy : (String → Option ValueFromRef) → String → List Dependency → EnvVar → Type 0
IsCoveredBy parse_for kind deps env =
    (ref : ValueFromRef)
    → (env.value_from == "") ≡ false
    → parse_for env.value_from ≡ some ref
    → has_explicit_dependency deps kind ref.name ≡ true

-- The kind of manifest that a reference is to.
abbrev pub kind_of_ref : ValueFromRef → String
kind_of_ref ref = if ref.kind == "resource" then resource_kind else application_kind

-- The manifest that a variable refers to, if it refers to one, is among the dependencies.
abbrev pub IsSatisfied : List Dependency → EnvVar → Type 0
IsSatisfied deps env =
    (ref : ValueFromRef)
    → parse_value_from_ref env.value_from ≡ some ref
    → has_explicit_dependency deps (kind_of_ref ref) ref.name ≡ true

-- What enrichment makes of the dependencies of a consumer with an environment.
pub record IsEnriched (env : List EnvVar) (deps next : List Dependency) : Type 0 where
  pub kept : (extra : List Dependency) × (next ≡ deps ++ extra)
  pub satisfied : All (IsSatisfied next) env

-- A manifest in which only the dependencies are others.
abbrev pub with_app_deps : ApplicationManifest → List Dependency → ApplicationManifest
with_app_deps app deps = record app { spec = record app.spec { dependencies = deps } }

abbrev pub with_res_deps : ResourceManifest → List Dependency → ResourceManifest
with_res_deps res deps = record res { spec = record res.spec { dependencies = deps } }

clone_application-with_app_deps :
    (app : ApplicationManifest) (extra : List Dependency)
    → clone_application_with_deps app extra ≡ with_app_deps app (app.spec.dependencies ++ extra)
unfolding clone_application_with_deps
clone_application-with_app_deps app [] =
    ap (with_app_deps app) (sym (append-nil app.spec.dependencies))
clone_application-with_app_deps app (d ∷ extra) = refl

clone_resource-with_res_deps :
    (res : ResourceManifest) (extra : List Dependency)
    → clone_resource_with_deps res extra ≡ with_res_deps res (res.spec.dependencies ++ extra)
unfolding clone_resource_with_deps
clone_resource-with_res_deps res [] =
    ap (with_res_deps res) (sym (append-nil res.spec.dependencies))
clone_resource-with_res_deps res (d ∷ extra) = refl

-- What a step of a rule does to the dependencies of a manifest with an environment.
record IsStepped (rule : Rule) (env : List EnvVar) (deps next_deps : List Dependency) : Type 0 where
  kept : (extra : List Dependency) × (next_deps ≡ deps ++ extra)
  covered : All (IsCoveredBy rule.parse_for rule.target_kind next_deps) env

app_step :
    (rule : Rule) (app next : ApplicationManifest)
    → AppStep rule app next
    → (next ≡ with_app_deps app next.spec.dependencies)
      × IsStepped rule app.spec.env app.spec.dependencies next.spec.dependencies
unfolding application_view
app_step rule app next (extra, edges, i, same) =
    let whole = clone_application-with_app_deps app extra in
    let d = ap (λ a. a.spec.dependencies) whole in
    let (team, covered) = infer_consumer_deps-IsCovered rule (application_view app) extra edges i in
    rw (← same) (
      whole ∙ ap (with_app_deps app) (sym d),
      record {
        kept = (extra, d);
        covered =
            subst (λ ds. All (IsCoveredBy rule.parse_for rule.target_kind ds) app.spec.env) (sym d)
              covered;
      },
    )

res_step :
    (rule : Rule) (res next : ResourceManifest)
    → ResStep rule res next
    → (next ≡ with_res_deps res next.spec.dependencies)
      × IsStepped rule res.spec.env res.spec.dependencies next.spec.dependencies
unfolding resource_view
res_step rule res next (extra, edges, i, same) =
    let whole = clone_resource-with_res_deps res extra in
    let d = ap (λ r. r.spec.dependencies) whole in
    let (team, covered) = infer_consumer_deps-IsCovered rule (resource_view res) extra edges i in
    rw (← same) (
      whole ∙ ap (with_res_deps res) (sym d),
      record {
        kept = (extra, d);
        covered =
            subst (λ ds. All (IsCoveredBy rule.parse_for rule.target_kind ds) res.spec.env) (sym d)
              covered;
      },
    )

ref_of_parts-kind :
    (parts : List String) (ref : ValueFromRef)
    → ref_of_parts parts ≡ some ref
    → (ref.kind == "resource" || ref.kind == "application") ≡ true
unfolding ref_of_parts
ref_of_parts-kind [] ref e = absurd (ground arith)
ref_of_parts-kind (a ∷ []) ref e = absurd (ground arith)
ref_of_parts-kind (a ∷ b ∷ []) ref e = absurd (ground arith)
ref_of_parts-kind (a ∷ b ∷ c ∷ []) ref e = ground arith
ref_of_parts-kind (a ∷ b ∷ c ∷ d ∷ rest) ref e = absurd (ground arith)

parse-kind :
    (s : String) (ref : ValueFromRef)
    → parse_value_from_ref s ≡ some ref
    → ((s == "") ≡ false) × ((ref.kind == "resource" || ref.kind == "application") ≡ true)
unfolding parse_value_from_ref
parse-kind s ref e = (ground arith, ground (arith, ref_of_parts-kind (split b'.' s) ref))

-- The two rules together read every reference.
IsSatisfied-of_both :
    (deps : List Dependency) (env : EnvVar)
    → IsCoveredBy parse_resource_ref resource_kind deps env
    → IsCoveredBy parse_application_ref application_kind deps env
    → IsSatisfied deps env
unfolding parse_resource_ref parse_application_ref
IsSatisfied-of_both deps env res app ref e =
    let (full, kinds) = parse-kind env.value_from ref e in
    elim (Bool-cases (ref.kind == "resource")) [
      | inl is_res ↦ rw is_res (res ref full (rw (e, is_res) refl))
      | inr no_res ↦ rw no_res (app ref full (ground (arith, kinds)))
    ]

IsCoveredBy-append :
    (parse_for : String → Option ValueFromRef) (kind : String) (deps extra : List Dependency)
    (env : EnvVar)
    → IsCoveredBy parse_for kind deps env
    → IsCoveredBy parse_for kind (deps ++ extra) env
IsCoveredBy-append parse_for kind deps extra env h ref given found =
    ground (arith, h ref given found, has_explicit_dependency-append deps extra kind ref.name)

both-IsSatisfied :
    (deps : List Dependency) (env : List EnvVar)
    → All (IsCoveredBy parse_resource_ref resource_kind deps) env
    → All (IsCoveredBy parse_application_ref application_kind deps) env
    → All (IsSatisfied deps) env
both-IsSatisfied deps [] h k = tt
both-IsSatisfied deps (e ∷ env) h k =
    (IsSatisfied-of_both deps e h.0 k.0, both-IsSatisfied deps env h.1 k.1)

-- A step of each rule.
two_steps :
    (set mid : ManifestSet) (env mid_env : List EnvVar) (deps mid_deps next_deps : List Dependency)
    → mid_env ≡ env
    → IsStepped (value_from_resource set) env deps mid_deps
    → IsStepped (value_from_application mid) mid_env mid_deps next_deps
    → IsEnriched env deps next_deps
two_steps set mid env mid_env deps mid_deps next_deps same_env h k =
    let (one, e1) = h.kept in
    let (two, e2) = k.kept in
    record {
      kept = (one ++ two, e2 ∙ ap (λ ds. ds ++ two) e1 ∙ append_assoc deps one two);
      satisfied = rw e2 (
          both-IsSatisfied (mid_deps ++ two) env
            (All-imp (λ v c. IsCoveredBy-append parse_resource_ref resource_kind mid_deps two v c)
              env h.covered)
            (subst (λ ds. All (IsCoveredBy parse_application_ref application_kind ds) env) e2
              (subst (λ es. All (IsCoveredBy parse_application_ref application_kind next_deps) es)
                same_env k.covered)));
    }

app_steps :
    (set mid : ManifestSet) (old m app : ApplicationManifest)
    → AppStep (value_from_resource set) old m
    → AppStep (value_from_application mid) m app
    → (app ≡ with_app_deps old app.spec.dependencies)
      × IsEnriched old.spec.env old.spec.dependencies app.spec.dependencies
app_steps set mid old m app one two =
    let (same1, step1) = app_step (value_from_resource set) old m one in
    let (same2, step2) = app_step (value_from_application mid) m app two in
    (
      same2 ∙ ap (λ a. with_app_deps a app.spec.dependencies) same1,
      two_steps set mid _ _ _ _ _ (ap (λ a. a.spec.env) same1) step1 step2,
    )

res_steps :
    (set mid : ManifestSet) (old m res : ResourceManifest)
    → ResStep (value_from_resource set) old m
    → ResStep (value_from_application mid) m res
    → (res ≡ with_res_deps old res.spec.dependencies)
      × IsEnriched old.spec.env old.spec.dependencies res.spec.dependencies
res_steps set mid old m res one two =
    let (same1, step1) = res_step (value_from_resource set) old m one in
    let (same2, step2) = res_step (value_from_application mid) m res two in
    (
      same2 ∙ ap (λ r. with_res_deps r res.spec.dependencies) same1,
      two_steps set mid _ _ _ _ _ (ap (λ r. r.spec.env) same1) step1 step2,
    )

-- What the production rules make of a set: the same names, and under each its manifest, in which only
-- the dependencies are others; these begin with the old ones and cover every reference of its
-- environment.
pub record IsEnrichedSet (set next : ManifestSet) : Type 0 where
  pub apps_once : Nodup (keys next.applications)
  pub resources_once : Nodup (keys next.resources)
  pub same_applications : (n : String) → has_key n next.applications ≡ has_key n set.applications
  pub same_resources : (n : String) → has_key n next.resources ≡ has_key n set.resources
  pub applications :
      (n : String) (app : ApplicationManifest)
      → lookup n next.applications ≡ some app
      → (old : ApplicationManifest) × (lookup n set.applications ≡ some old)
        × (app ≡ with_app_deps old app.spec.dependencies)
        × IsEnriched old.spec.env old.spec.dependencies app.spec.dependencies
  pub resources :
      (n : String) (res : ResourceManifest)
      → lookup n next.resources ≡ some res
      → (old : ResourceManifest) × (lookup n set.resources ≡ some old)
        × (res ≡ with_res_deps old res.spec.dependencies)
        × IsEnriched old.spec.env old.spec.dependencies res.spec.dependencies

chain_round :
    (rule : ManifestSet → Rule) (rules : List (ManifestSet → Rule)) (set next : ManifestSet)
    (edges : List InferredEdge)
    → chain_from (rule ∷ rules) set ≡ enriched next edges
    → (mid : ManifestSet) × (es more : List InferredEdge) × (apply_enrichment_rule (rule set) set
        ≡ enriched mid es)
      × (chain_from rules mid ≡ enriched next more)
unfolding chain_from
chain_round rule rules set next edges e = go (apply_enrichment_rule (rule set) set) refl e
  where
    go :
        (r : Enriched)
        → apply_enrichment_rule (rule set) set ≡ r
        → (elim r [
          | enriched out es ↦ after_edges es (chain_from rules out)
          | enrichment_failed w ↦ enrichment_failed w
          | missing_manifest ↦ missing_manifest
        ])
          ≡ enriched next edges
        → (mid : ManifestSet) × (es more : List InferredEdge) × (apply_enrichment_rule
              (rule set)
              set
            ≡ enriched mid es)
          × (chain_from rules mid ≡ enriched next more)
    go (enriched mid es) was e =
        let (more, rest) = after_edges-enriched es edges (chain_from rules mid) next e in
        (mid, es, more, was, rest)
    go (enrichment_failed w) was e = absurd (ground arith)
    go missing_manifest was e = absurd (ground arith)

-- When the chain of the production rules succeeds on a set that holds no name twice in a kind, the
-- set that it returns holds the same names, and under each the manifest of the set with nothing
-- changed but its dependencies; it keeps these at the front of its new ones, which hold one for
-- every reference in its environment.
pub chain_enrich-IsEnrichedSet :
    (set next : ManifestSet) (edges : List InferredEdge)
    → Nodup (keys set.applications)
    → Nodup (keys set.resources)
    → chain_enrich set ≡ enriched next edges
    → IsEnrichedSet set next
unfolding chain_enrich copy_manifest_set_shallow
chain_enrich-IsEnrichedSet set next edges a r e =
    let start = copy_manifest_set_shallow set in
    let (mid, es, more, first, tail) =
      chain_round value_from_resource (value_from_application ∷ []) start next edges e in
    let (last, fs, nothing, second, done) =
      chain_round value_from_application [] mid next more tail in
    let same : last ≡ next = unfold chain_from in ground (arith, done) in
    let (apps1, ress1) = rule-IsMapped (value_from_resource start) start mid es a r first in
    let (apps2, ress2) =
      rule-IsMapped (value_from_application mid) mid last fs apps1.once ress1.once second in
    rw (← same) (record {
      apps_once = apps2.once;
      resources_once = ress2.once;
      same_applications = λ n. apps2.same_keys n ∙ apps1.same_keys n;
      same_resources = λ n. ress2.same_keys n ∙ ress1.same_keys n;
      applications = λ n app found.
          let (m, was, step2) = apps2.stepped n app found in
          let (old, before_that, step1) = apps1.stepped n m was in
          let (same_rest, rich) = app_steps start mid old m app step1 step2 in
          (old, before_that, same_rest, rich);
      resources = λ n res found.
          let (m, was, step2) = ress2.stepped n res found in
          let (old, before_that, step1) = ress1.stepped n m was in
          let (same_rest, rich) = res_steps start mid old m res step1 step2 in
          (old, before_that, same_rest, rich);
    })
