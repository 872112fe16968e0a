-- ===== src/Planner/Loader/Merging.antt =====
-- A set that is filled by merging is indexed by the names of its manifests.
use shrine.Prelude.{
  All, Bool-cases, List, Nodup, Option, Option-cases, String, [], arith, eq_int, eq_pair, eq_str,
  has_key, inl, inr, insert, keys, keys-insert-Nodup, lookup, lookup-insert, none, refl, some, true,
  ◌==◌, ◌∷◌, ◌≡◌, ◌⊎◌,
}
use shrine.Manifest.{
  ApplicationManifest, ResourceManifest, Manifest, application_kind, resource_kind, team_kind,
}
use shrine.Planner.Loader.{
  ManifestSet, new_manifest_set, MergeError, Merged, merged, refused, merge_application,
  merge_resource, merge_manifest, merge_all,
}

-- Each entry stands under the name in its metadata, and no name twice in a kind.
pub record IsIndexed (set : ManifestSet) : Type 0 where
  pub apps_named : All (λ r. r.1.metadata.name ≡ r.0) set.applications
  pub resources_named : All (λ r. r.1.metadata.name ≡ r.0) set.resources
  pub apps_once : Nodup (keys set.applications)
  pub resources_once : Nodup (keys set.resources)

insert-named {ℓ} :
    {V : Type ℓ} (name_of : V → String) (v : V) (m : List (String × V))
    → All (λ r. name_of r.1 ≡ r.0) m
    → All (λ r. name_of r.1 ≡ r.0) (insert (name_of v) v m)
unfolding insert
insert-named name_of v [] h = (refl, tt)
insert-named name_of v ((j, w) ∷ m) h = elim (Bool-cases (j == name_of v)) [
  | inl same ↦ rw same (ground arith, h.1)
  | inr other ↦ rw other (h.0, insert-named name_of v m h.1)
]

new_set-IsIndexed : IsIndexed new_manifest_set
unfolding new_manifest_set
new_set-IsIndexed = record {
  apps_named = tt;
  resources_named = tt;
  apps_once = tt;
  resources_once = tt;
}

merge_application-IsIndexed :
    (set next : ManifestSet) (app : Option ApplicationManifest)
    → IsIndexed set
    → merge_application set app ≡ merged next
    → IsIndexed next
unfolding merge_application
merge_application-IsIndexed set next none h e = cc
merge_application-IsIndexed set next (some app) h e =
    elim (Bool-cases (has_key app.metadata.name set.applications)) [
      | inl there ↦ absurd (ground arith)
      | inr fresh ↦
          let same : record set { applications = insert app.metadata.name app set.applications }
              ≡ next =
            ground arith in
          rw (← same) (record {
            apps_named = insert-named (λ a. a.metadata.name) app set.applications h.apps_named;
            resources_named = h.resources_named;
            apps_once = keys-insert-Nodup app.metadata.name app set.applications h.apps_once;
            resources_once = h.resources_once;
          })
    ]

merge_resource-IsIndexed :
    (set next : ManifestSet) (res : Option ResourceManifest)
    → IsIndexed set
    → merge_resource set res ≡ merged next
    → IsIndexed next
unfolding merge_resource
merge_resource-IsIndexed set next none h e = cc
merge_resource-IsIndexed set next (some res) h e =
    elim (Bool-cases (has_key res.metadata.name set.resources)) [
      | inl there ↦ absurd (ground arith)
      | inr fresh ↦
          let same : record set { resources = insert res.metadata.name res set.resources } ≡ next =
            ground arith in
          rw (← same) (record {
            apps_named = h.apps_named;
            resources_named =
                insert-named (λ r. r.metadata.name) res set.resources h.resources_named;
            apps_once = h.apps_once;
            resources_once = keys-insert-Nodup res.metadata.name res set.resources h.resources_once;
          })
    ]

pub Merged-cases :
    (r : Merged) → ((set : ManifestSet) × (r ≡ merged set)) ⊎ ((e : MergeError) × (r ≡ refused e))
Merged-cases (merged set) = inl (set, refl)
Merged-cases (refused e) = inr (e, refl)

merge_manifest-IsIndexed :
    (set next : ManifestSet) (m : Manifest)
    → IsIndexed set
    → merge_manifest set m ≡ merged next
    → IsIndexed next
unfolding merge_manifest
merge_manifest-IsIndexed set next m h e = elim (Bool-cases (m.type_meta.kind == application_kind)) [
  | inl app ↦ merge_application-IsIndexed set next m.application h (ground arith)
  | inr no_app ↦ elim (Bool-cases (m.type_meta.kind == resource_kind)) [
    | inl res ↦ merge_resource-IsIndexed set next m.resource h (ground arith)
    | inr no_res ↦ elim (Bool-cases (m.type_meta.kind == team_kind)) [
      | inl team ↦ let same : set ≡ next = ground arith in rw (← same) h
      | inr no_team ↦ absurd (ground arith)
    ]
  ]
]

merge_all-IsIndexed_from :
    (set next : ManifestSet) (ms : List Manifest)
    → IsIndexed set
    → merge_all set ms ≡ merged next
    → IsIndexed next
unfolding merge_all
merge_all-IsIndexed_from set next [] h e = let same : set ≡ next = cc in rw (← same) h
merge_all-IsIndexed_from set next (m ∷ ms) h e = elim (Merged-cases (merge_manifest set m)) [
  | inl (mid, one) ↦
      merge_all-IsIndexed_from mid next ms (merge_manifest-IsIndexed set mid m h one) (ground arith)
  | inr (why, stop) ↦ absurd (ground arith)
]

-- However many manifests are merged into a new set, when none is refused, each application and each
-- resource of the set stands under its own name and no name stands twice.
pub merge_all-IsIndexed :
    (ms : List Manifest) (set : ManifestSet)
    → merge_all new_manifest_set ms ≡ merged set
    → IsIndexed set
merge_all-IsIndexed ms set = merge_all-IsIndexed_from new_manifest_set set ms new_set-IsIndexed

pub merge_application-merged :
    (set next : ManifestSet) (app : ApplicationManifest)
    → merge_application set (some app) ≡ merged next
    → (lookup app.metadata.name set.applications ≡ none)
      × (record set { applications = insert app.metadata.name app set.applications } ≡ next)
unfolding merge_application
merge_application-merged set next app e =
    elim (Option-cases (lookup app.metadata.name set.applications)) [
      | inl free ↦ (free, ground arith)
      | inr (other, found) ↦ absurd (ground arith)
    ]

pub merge_resource-merged :
    (set next : ManifestSet) (res : ResourceManifest)
    → merge_resource set (some res) ≡ merged next
    → (lookup res.metadata.name set.resources ≡ none)
      × (record set { resources = insert res.metadata.name res set.resources } ≡ next)
unfolding merge_resource
merge_resource-merged set next res e =
    elim (Option-cases (lookup res.metadata.name set.resources)) [
      | inl free ↦ (free, ground arith)
      | inr (other, found) ↦ absurd (ground arith)
    ]

-- The application of a manifest that is merged is found under its name, a name that was free before,
-- and all that stood in the set is still found.
merge_application-Found :
    (set next : ManifestSet) (m : Manifest) (app : ApplicationManifest)
    → m.type_meta.kind ≡ application_kind
    → m.application ≡ some app
    → merge_manifest set m ≡ merged next
    → (lookup app.metadata.name set.applications ≡ none)
      × (lookup app.metadata.name next.applications ≡ some app)
      × ((name : String)
          → has_key name set.applications ≡ true
          → lookup name next.applications ≡ lookup name set.applications)
      × (next.resources ≡ set.resources)
unfolding merge_manifest
merge_application-Found set next m app k a e =
    let (free, same) = merge_application-merged set next app (ground arith) in
    rw (← same) (
      free,
      ground (arith, lookup-insert app.metadata.name app.metadata.name app set.applications),
      λ name there. ground (arith, lookup-insert name app.metadata.name app set.applications),
      refl,
    )
