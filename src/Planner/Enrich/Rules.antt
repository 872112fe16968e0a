-- ===== src/Planner/Enrich/Rules.antt =====
-- What a rule and the chain of rules do to a set.
use shrine.Prelude.{
  Bool-cases, List, Nodup, Option-cases, String, [], arith, eq_int, eq_pair, eq_str, false, has_key,
  inl, inr, insert, keys, keys-insert-Nodup, lookup, lookup-insert, mem, mem-keys, mem-sort_by,
  refl, some, sort_by-Nodup, sort_strings, subst, sym, true, ◌==◌, ◌∷◌, ◌≡◌,
}
use shrine.Manifest.{ApplicationManifest, Dependency, ResourceManifest}
use shrine.Planner.Loader.{ManifestSet}
use shrine.Planner.Enrich.{
  Rule, inferred, infer_consumer_deps, application_view, resource_view, clone_application_with_deps,
  clone_resource_with_deps, sorted_keys, Enriched, enriched, enrichment_failed, missing_manifest,
  after_edges, apply_to_applications, apply_to_resources, then_resources, apply_enrichment_rule,
  copy_manifest_set_shallow, InferredEdge,
}
use shrine.Planner.Enrich.Infer.{Inferred-cases}

-- A map whose values at some names are rewritten, each by a step, and that is the same elsewhere.
pub record IsRewritten {ℓ} {V : Type ℓ} (R : V → V → Type 0) (names : List String)
    (m next : List (String × V)) : Type ℓ where
  pub once : Nodup (keys m) → Nodup (keys next)
  pub others : (n : String) → mem n names ≡ false → lookup n next ≡ lookup n m
  pub done :
      (n : String)
      → mem n names ≡ true
      → (v w : V) × (lookup n m ≡ some v) × (lookup n next ≡ some w) × R v w

IsRewritten-nil {ℓ} :
    {V : Type ℓ} (R : V → V → Type 0) (m : List (String × V)) → IsRewritten R [] m m
unfolding mem
IsRewritten-nil R m = record {
  once = λ k. k;
  others = λ n h. refl;
  done = λ n h. absurd (ground arith);
}

IsRewritten-insert {ℓ} :
    {V : Type ℓ} (R : V → V → Type 0) (name : String) (names : List String) (v w : V)
    (m next : List (String × V))
    → mem name names ≡ false
    → lookup name m ≡ some v
    → R v w
    → IsRewritten R names (insert name w m) next
    → IsRewritten R (name ∷ names) m next
unfolding mem
IsRewritten-insert R name names v w m next new found step h = record {
  once = λ k. h.once (keys-insert-Nodup name w m k);
  others = λ n o. ground (arith, h.others n, lookup-insert n name w m);
  done = λ n there. elim (Bool-cases (name == n)) [
    | inl here ↦
        let same : name ≡ n = ground arith in
        rw (← same)
          (v, w, found, ground (arith, h.others name new, lookup-insert name name w m), step)
    | inr other ↦
        let (a, b, was, is, s) = h.done n (ground arith) in
        (a, b, ground (arith, was, lookup-insert n name w m), is, s)
  ];
}

-- What a rule makes of an application, and of a resource.
abbrev pub AppStep : Rule → ApplicationManifest → ApplicationManifest → Type 0
AppStep rule app next =
    (extra : List Dependency) × (edges : List InferredEdge) × (infer_consumer_deps rule
        (application_view app)
      ≡ inferred extra edges)
    × (clone_application_with_deps app extra ≡ next)

abbrev pub ResStep : Rule → ResourceManifest → ResourceManifest → Type 0
ResStep rule res next =
    (extra : List Dependency) × (edges : List InferredEdge) × (infer_consumer_deps rule
        (resource_view res)
      ≡ inferred extra edges)
    × (clone_resource_with_deps res extra ≡ next)

pub after_edges-enriched :
    (edges all : List InferredEdge) (r : Enriched) (next : ManifestSet)
    → after_edges edges r ≡ enriched next all
    → (more : List InferredEdge) × (r ≡ enriched next more)
unfolding after_edges
after_edges-enriched edges all (enriched out more) next e = (more, ground arith)
after_edges-enriched edges all (enrichment_failed w) next e = absurd (ground arith)
after_edges-enriched edges all missing_manifest next e = absurd (ground arith)

module _ (rule : Rule) where
  -- One round of a loop: what it asks of its first name.
  application_round :
      (name : String) (names : List String) (out next : ManifestSet) (edges : List InferredEdge)
      → apply_to_applications rule (name ∷ names) out ≡ enriched next edges
      → (app : ApplicationManifest) × (extra : List Dependency) × (es more : List InferredEdge)
        × (lookup name out.applications ≡ some app)
        × (infer_consumer_deps rule (application_view app) ≡ inferred extra es)
        × (apply_to_applications rule names (record out {
          applications = insert name (clone_application_with_deps app extra) out.applications;
        })
            ≡ enriched next more)
  unfolding apply_to_applications
  application_round name names out next edges e =
      elim (Option-cases (lookup name out.applications)) [
        | inl missing ↦ absurd (ground arith)
        | inr (app, found) ↦
            elim (Inferred-cases (infer_consumer_deps rule (application_view app))) [
              | inr (why, failed) ↦ absurd (ground arith)
              | inl (extra, es, i) ↦
                  let (more, rest) =
                    after_edges-enriched es edges
                      (apply_to_applications rule names (record out {
                        applications =
                            insert name (clone_application_with_deps app extra) out.applications;
                      }))
                      next (ground arith) in
                  (app, extra, es, more, found, i, rest)
            ]
      ]

  resource_round :
      (name : String) (names : List String) (out next : ManifestSet) (edges : List InferredEdge)
      → apply_to_resources rule (name ∷ names) out ≡ enriched next edges
      → (res : ResourceManifest) × (extra : List Dependency) × (es more : List InferredEdge)
        × (lookup name out.resources ≡ some res)
        × (infer_consumer_deps rule (resource_view res) ≡ inferred extra es)
        × (apply_to_resources rule names (record out {
          resources = insert name (clone_resource_with_deps res extra) out.resources;
        })
            ≡ enriched next more)
  unfolding apply_to_resources
  resource_round name names out next edges e = elim (Option-cases (lookup name out.resources)) [
    | inl missing ↦ absurd (ground arith)
    | inr (res, found) ↦ elim (Inferred-cases (infer_consumer_deps rule (resource_view res))) [
      | inr (why, failed) ↦ absurd (ground arith)
      | inl (extra, es, i) ↦
          let (more, rest) =
            after_edges-enriched es edges
              (apply_to_resources rule names (record out {
                resources = insert name (clone_resource_with_deps res extra) out.resources;
              }))
              next (ground arith) in
          (res, extra, es, more, found, i, rest)
    ]
  ]

  applications_done :
      (names : List String) (out next : ManifestSet) (edges : List InferredEdge)
      → Nodup names
      → apply_to_applications rule names out ≡ enriched next edges
      → IsRewritten (AppStep rule) names out.applications next.applications
        × (next.resources ≡ out.resources)
  applications_done [] out next edges d e =
      let same : out ≡ next = unfold apply_to_applications in ground arith in
      rw (← same) (IsRewritten-nil (AppStep rule) out.applications, refl)
  applications_done (name ∷ names) out next edges d e =
      let (app, extra, es, more, found, i, rest) = application_round name names out next edges e in
      let fresh = clone_application_with_deps app extra in
      let mid = record out { applications = insert name fresh out.applications } in
      let (h, same) = applications_done names mid next more d.1 rest in
      (
        IsRewritten-insert (AppStep rule) name names app fresh out.applications next.applications
            d.0 found (extra, es, i, refl) h,
        same,
      )

  resources_done :
      (names : List String) (out next : ManifestSet) (edges : List InferredEdge)
      → Nodup names
      → apply_to_resources rule names out ≡ enriched next edges
      → IsRewritten (ResStep rule) names out.resources next.resources
        × (next.applications ≡ out.applications)
  resources_done [] out next edges d e =
      let same : out ≡ next = unfold apply_to_resources in ground arith in
      rw (← same) (IsRewritten-nil (ResStep rule) out.resources, refl)
  resources_done (name ∷ names) out next edges d e =
      let (res, extra, es, more, found, i, rest) = resource_round name names out next edges e in
      let fresh = clone_resource_with_deps res extra in
      let mid = record out { resources = insert name fresh out.resources } in
      let (h, same) = resources_done names mid next more d.1 rest in
      (
        IsRewritten-insert (ResStep rule) name names res fresh out.resources next.resources d.0
            found (extra, es, i, refl) h,
        same,
      )

  then_resources-enriched :
      (r : Enriched) (next : ManifestSet) (edges : List InferredEdge)
      → then_resources rule r ≡ enriched next edges
      → (mid : ManifestSet) × (es more : List InferredEdge) × (r ≡ enriched mid es)
        × (apply_to_resources rule (sorted_keys mid.resources) mid ≡ enriched next more)
  unfolding then_resources
  then_resources-enriched (enriched mid es) next edges e =
      let (more, rest) =
        after_edges-enriched es edges (apply_to_resources rule (sorted_keys mid.resources) mid) next
          e in
      (mid, es, more, refl, rest)
  then_resources-enriched (enrichment_failed w) next edges e = absurd (ground arith)
  then_resources-enriched missing_manifest next edges e = absurd (ground arith)

-- Every value of a map is rewritten: the step relates what the two maps hold at each key.
pub record IsMapped {ℓ} {V : Type ℓ} (R : V → V → Type 0) (m next : List (String × V))
    : Type ℓ where
  pub once : Nodup (keys next)
  pub same_keys : (n : String) → has_key n next ≡ has_key n m
  pub stepped :
      (n : String) (w : V) → lookup n next ≡ some w → (v : V) × (lookup n m ≡ some v) × R v w

sorted-IsMapped {ℓ} :
    {V : Type ℓ} (R : V → V → Type 0) (m next : List (String × V))
    → Nodup (keys m)
    → IsRewritten R (sorted_keys m) m next
    → IsMapped R m next
unfolding sorted_keys
sorted-IsMapped R m next d h = record {
  once = h.once d;
  same_keys = λ n. elim (Bool-cases (mem n (sort_strings (keys m)))) [
    | inl there ↦ let (v, w, was, is, step) = h.done n there in ground (arith, was, is)
    | inr other ↦ ground (arith, h.others n other)
  ];
  stepped = λ n w found. elim (Bool-cases (mem n (sort_strings (keys m)))) [
    | inl there ↦
        let (v, fresh, was, is, step) = h.done n there in
        let same : fresh ≡ w = ground (arith, is, found) in (v, was, subst (R v) same step)
    | inr other ↦
        absurd
          (ground (arith, h.others n other, found, mem-sort_by (λ s. s) n (keys m), mem-keys n m))
  ];
}

-- A rule maps every application and every resource of the set by its step, and the set stays
-- indexed by distinct names.
pub rule-IsMapped :
    (rule : Rule) (set next : ManifestSet) (edges : List InferredEdge)
    → Nodup (keys set.applications)
    → Nodup (keys set.resources)
    → apply_enrichment_rule rule set ≡ enriched next edges
    → IsMapped (AppStep rule) set.applications next.applications
      × IsMapped (ResStep rule) set.resources next.resources
unfolding apply_enrichment_rule copy_manifest_set_shallow sorted_keys
rule-IsMapped rule set next edges a r e =
    let out = copy_manifest_set_shallow set in
    let (mid, es, more, first, second) = then_resources-enriched rule _ next edges e in
    let (apps, same_res) =
      applications_done rule (sorted_keys set.applications) out mid es
        (sort_by-Nodup (λ s. s) (keys set.applications) a) first in
    let once : Nodup (keys mid.resources) = subst (λ m. Nodup (keys m)) (sym same_res) r in
    let (ress, same_app) =
      resources_done rule (sorted_keys mid.resources) mid next more
        (sort_by-Nodup (λ s. s) (keys mid.resources) once) second in
    (
      subst (λ m. IsMapped (AppStep rule) set.applications m) (sym same_app)
          (sorted-IsMapped (AppStep rule) set.applications mid.applications a apps),
      subst (λ m. IsMapped (ResStep rule) m next.resources) same_res
          (sorted-IsMapped (ResStep rule) mid.resources next.resources once ress),
    )
