-- ===== src/Planner/Enrich.antt =====
-- internal/planner/enrich.go and enrich_valuefrom.go: the dependencies that the `valueFrom`
-- references of a manifest imply. Copies share nothing here, so that an input set is never changed.
pub mod Infer
pub mod Rules
pub mod Chain
use shrine.Prelude.{
  Bool, List, Option, String, [], eq_int, eq_pair, eq_str, false, has_prefix, if◌then◌else◌, insert,
  keys, lookup, mem, none, not, some, sort_strings, split, ◌&&◌, ◌++◌, ◌==◌, ◌||◌, ◌∷◌,
}
use shrine.Manifest.{
  application_kind, resource_kind, ApplicationManifest, Dependency, EnvVar, ResourceManifest,
}
use shrine.Planner.Loader.{ManifestSet}

pub record ManifestRef : Type 0 where
  pub kind : String
  pub name : String
  pub owner : String

pub record InferredEdge : Type 0 where
  pub consumer : ManifestRef
  pub target : ManifestRef
  pub env_var : String

-- EnrichmentError; its one kind is ErrCrossTeamOrUnresolvedValueFrom.
pub record EnrichmentError : Type 0 where
  pub consumer_kind : String
  pub consumer_name : String
  pub consumer_owner : String
  pub env_name : String
  pub target_kind : String
  pub target_name : String
  pub target_output : String

pub record ValueFromRef : Type 0 where
  pub kind : String
  pub name : String
  pub output : String

pub ref_of_parts : List String → Option ValueFromRef
ref_of_parts (kind ∷ name ∷ output ∷ []) =
    if kind == "" || name == "" || output == ""
    then none
    else if not (kind == "resource") && not (kind == "application")
    then none
    else some (record { kind = kind; name = name; output = output })
ref_of_parts _ = none

unfoldable pub parse_value_from_ref : String → Option ValueFromRef
unfolding ref_of_parts split has_prefix
parse_value_from_ref s =
    if s == "" then none else if has_prefix s "vault:" then none else ref_of_parts (split b'.' s)

abbrev pub of_kind : String → Option ValueFromRef → Option ValueFromRef
of_kind kind none = none
of_kind kind (some ref) = if ref.kind == kind then some ref else none

unfoldable pub parse_resource_ref : String → Option ValueFromRef
parse_resource_ref s = of_kind "resource" (parse_value_from_ref s)

unfoldable pub parse_application_ref : String → Option ValueFromRef
parse_application_ref s = of_kind "application" (parse_value_from_ref s)

unfoldable pub has_explicit_dependency : List Dependency → String → String → Bool
has_explicit_dependency [] kind name = false
has_explicit_dependency (d ∷ deps) kind name =
    (d.kind == kind && d.name == name) || has_explicit_dependency deps kind name

pub record ConsumerView : Type 0 where
  pub kind : String
  pub name : String
  pub owner : String
  pub env : List EnvVar
  pub deps : List Dependency

-- The two functions that a rule is given, and the kind of its targets.
pub record Rule : Type 0 where
  pub target_kind : String
  pub lookup_owner : String → Option String
  pub parse_for : String → Option ValueFromRef

pub data Decision : Type 0 where
  skip : Decision
  fail : EnrichmentError → Decision
  add : Dependency → InferredEdge → Decision

unfoldable pub unresolved : ConsumerView → EnvVar → ValueFromRef → Decision
unresolved cv env ref = fail (record {
  consumer_kind = cv.kind;
  consumer_name = cv.name;
  consumer_owner = cv.owner;
  env_name = env.name;
  target_kind = ref.kind;
  target_name = ref.name;
  target_output = ref.output;
})

unfoldable pub inferred_dependency : Rule → ValueFromRef → String → Dependency
inferred_dependency rule ref owner = record {
  kind = rule.target_kind;
  name = ref.name;
  owner = owner;
}

unfoldable pub inferred_edge : Rule → ConsumerView → EnvVar → ValueFromRef → String → InferredEdge
inferred_edge rule cv env ref owner = record {
  consumer = record { kind = cv.kind; name = cv.name; owner = cv.owner };
  target = record { kind = rule.target_kind; name = ref.name; owner = owner };
  env_var = env.name;
}

decide_owned : Rule → ConsumerView → EnvVar → ValueFromRef → List String → Option String → Decision
unfolding unresolved inferred_dependency inferred_edge
decide_owned rule cv env ref seen none = unresolved cv env ref
decide_owned rule cv env ref seen (some owner) =
    if not (owner == cv.owner)
    then unresolved cv env ref
    else if mem ref.name seen
    then skip
    else add (inferred_dependency rule ref owner) (inferred_edge rule cv env ref owner)

decide_ref : Rule → ConsumerView → EnvVar → List String → Option ValueFromRef → Decision
unfolding decide_owned has_explicit_dependency
decide_ref rule cv env seen none = skip
decide_ref rule cv env seen (some ref) =
    if has_explicit_dependency cv.deps rule.target_kind ref.name
    then skip
    else decide_owned rule cv env ref seen (rule.lookup_owner ref.name)

-- The body of the loop of `inferConsumerDeps`.
decide : Rule → ConsumerView → EnvVar → List String → Decision
unfolding decide_ref
decide rule cv env seen =
    if env.value_from == ""
    then skip
    else decide_ref rule cv env seen (rule.parse_for env.value_from)

pub data Inferred : Type 0 where
  inferred : List Dependency → List InferredEdge → Inferred
  not_enriched : EnrichmentError → Inferred

unfoldable pub prepend : Dependency → InferredEdge → Inferred → Inferred
prepend dep edge (inferred extra edges) = inferred (dep ∷ extra) (edge ∷ edges)
prepend dep edge (not_enriched e) = not_enriched e

infer_from : Rule → ConsumerView → List EnvVar → List String → Inferred
unfolding decide prepend
infer_from rule cv [] seen = inferred [] []
infer_from rule cv (env ∷ envs) seen = elim (decide rule cv env seen) [
  | skip ↦ infer_from rule cv envs seen
  | fail e ↦ not_enriched e
  | add dep edge ↦ prepend dep edge (infer_from rule cv envs (dep.name ∷ seen))
]

unfoldable pub infer_consumer_deps : Rule → ConsumerView → Inferred
unfolding infer_from
infer_consumer_deps rule cv = infer_from rule cv cv.env []

unfoldable pub application_view : ApplicationManifest → ConsumerView
application_view app = record {
  kind = application_kind;
  name = app.metadata.name;
  owner = app.metadata.owner;
  env = app.spec.env;
  deps = app.spec.dependencies;
}

unfoldable pub resource_view : ResourceManifest → ConsumerView
resource_view res = record {
  kind = resource_kind;
  name = res.metadata.name;
  owner = res.metadata.owner;
  env = res.spec.env;
  deps = res.spec.dependencies;
}

unfoldable pub clone_application_with_deps :
    ApplicationManifest → List Dependency → ApplicationManifest
clone_application_with_deps app [] = app
clone_application_with_deps app (d ∷ extra) = record app {
  spec = record app.spec { dependencies = app.spec.dependencies ++ d ∷ extra };
}

unfoldable pub clone_resource_with_deps : ResourceManifest → List Dependency → ResourceManifest
clone_resource_with_deps res [] = res
clone_resource_with_deps res (d ∷ extra) = record res {
  spec = record res.spec { dependencies = res.spec.dependencies ++ d ∷ extra };
}

unfoldable pub sorted_keys {ℓ} : {V : Type ℓ} → List (String × V) → List String
sorted_keys m = sort_strings (keys m)

pub data Enriched : Type 0 where
  enriched : ManifestSet → List InferredEdge → Enriched
  enrichment_failed : EnrichmentError → Enriched
  missing_manifest : Enriched

-- The edges so far, put before those of the rest of a loop.
unfoldable pub after_edges : List InferredEdge → Enriched → Enriched
after_edges edges (enriched out more) = enriched out (edges ++ more)
after_edges edges (enrichment_failed e) = enrichment_failed e
after_edges edges missing_manifest = missing_manifest

-- The loop over the applications; a name without an entry would be a nil pointer.
pub apply_to_applications : Rule → List String → ManifestSet → Enriched
unfolding infer_consumer_deps application_view clone_application_with_deps after_edges
apply_to_applications rule [] out = enriched out []
apply_to_applications rule (name ∷ names) out = elim (lookup name out.applications) [
  | none ↦ missing_manifest
  | some app ↦ elim (infer_consumer_deps rule (application_view app)) [
    | not_enriched e ↦ enrichment_failed e
    | inferred extra edges ↦ after_edges edges (
        apply_to_applications rule names (record out {
          applications = insert name (clone_application_with_deps app extra) out.applications;
        }))
  ]
]

pub apply_to_resources : Rule → List String → ManifestSet → Enriched
unfolding infer_consumer_deps resource_view clone_resource_with_deps after_edges
apply_to_resources rule [] out = enriched out []
apply_to_resources rule (name ∷ names) out = elim (lookup name out.resources) [
  | none ↦ missing_manifest
  | some res ↦ elim (infer_consumer_deps rule (resource_view res)) [
    | not_enriched e ↦ enrichment_failed e
    | inferred extra edges ↦ after_edges edges (
        apply_to_resources rule names (record out {
          resources = insert name (clone_resource_with_deps res extra) out.resources;
        }))
  ]
]

-- copyManifestSetShallow: the sources of the pull policies are not copied.
unfoldable pub copy_manifest_set_shallow : ManifestSet → ManifestSet
copy_manifest_set_shallow set = record set { pull_policy_sources = [] }

pub then_resources : Rule → Enriched → Enriched
unfolding apply_to_resources after_edges
then_resources rule (enriched out edges) =
    after_edges edges (apply_to_resources rule (sorted_keys out.resources) out)
then_resources rule (enrichment_failed e) = enrichment_failed e
then_resources rule missing_manifest = missing_manifest

pub apply_enrichment_rule : Rule → ManifestSet → Enriched
unfolding apply_to_applications then_resources copy_manifest_set_shallow
apply_enrichment_rule rule set =
    let out = copy_manifest_set_shallow set in
    then_resources rule (apply_to_applications rule (sorted_keys out.applications) out)

abbrev pub owner_of {ℓ} : {V : Type ℓ} → (V → String) → Option V → Option String
owner_of owner none = none
owner_of owner (some v) = some (owner v)

-- enrichValueFromResource and enrichValueFromApplication, over the set that they are given.
abbrev pub value_from_resource : ManifestSet → Rule
value_from_resource set = record {
  target_kind = resource_kind;
  lookup_owner = λ name. owner_of (λ res. res.metadata.owner) (lookup name set.resources);
  parse_for = parse_resource_ref;
}

abbrev pub value_from_application : ManifestSet → Rule
value_from_application set = record {
  target_kind = application_kind;
  lookup_owner = λ name. owner_of (λ app. app.metadata.owner) (lookup name set.applications);
  parse_for = parse_application_ref;
}

-- ChainEnrich over a list of rules, each made for the set that it is given.
pub chain_from : List (ManifestSet → Rule) → ManifestSet → Enriched
unfolding apply_enrichment_rule after_edges
chain_from [] current = enriched current []
chain_from (rule ∷ rules) current = elim (apply_enrichment_rule (rule current) current) [
  | enriched out edges ↦ after_edges edges (chain_from rules out)
  | enrichment_failed e ↦ enrichment_failed e
  | missing_manifest ↦ missing_manifest
]

abbrev pub default_enrichers : List (ManifestSet → Rule)
default_enrichers = value_from_resource ∷ value_from_application ∷ []

unfoldable pub chain_enrich : ManifestSet → Enriched
unfolding chain_from
chain_enrich set = chain_from default_enrichers (copy_manifest_set_shallow set)
