-- ===== src/Planner/Loader/Loaded.antt =====
-- What a set that is filled by merging holds: every manifest that was merged, and no others.
use shrine.Prelude.{
  All, List, String, [], arith, eq_int, eq_pair, eq_str, inl, inr, length, lookup, some, ◌+◌, ◌∷◌,
  ◌≡◌, ◌⊎◌,
}
use shrine.Manifest.{
  ApplicationManifest, ResourceManifest, Manifest, application_kind, resource_kind,
}
use shrine.Planner.Loader.{ManifestSet, new_manifest_set, merged, merge_manifest, merge_all}
use shrine.Planner.Loader.Merging.{IsIndexed, Merged-cases, merge_all-IsIndexed}
use shrine.Planner.Loader.Steps.{
  IsAppOf, IsHeld, IsKept, IsResOf, count_kind, merge_manifest-IsStep,
}

-- What merging a list of manifests into a set makes of it.
record AreMerged (set next : ManifestSet) (ms : List Manifest) : Type 0 where
  kept : IsKept set next
  held : All (IsHeld next) ms
  app_from :
      (n : String) (app : ApplicationManifest)
      → lookup n next.applications ≡ some app
      → (lookup n set.applications ≡ some app) ⊎ IsAppOf ms app
  res_from :
      (n : String) (res : ResourceManifest)
      → lookup n next.resources ≡ some res
      → (lookup n set.resources ≡ some res) ⊎ IsResOf ms res
  applications : length next.applications ≡ length set.applications + count_kind application_kind ms
  resources : length next.resources ≡ length set.resources + count_kind resource_kind ms

merge_all-AreMerged :
    (set next : ManifestSet) (ms : List Manifest)
    → merge_all set ms ≡ merged next
    → AreMerged set next ms
unfolding merge_all count_kind
merge_all-AreMerged set next [] e =
    let same : set ≡ next = ground arith in
    rw (← same) (record {
      kept = record { applications = λ n v found. found; resources = λ n v found. found };
      held = tt;
      app_from = λ n v found. inl found;
      res_from = λ n v found. inl found;
      applications = omega arith;
      resources = omega arith;
    })
merge_all-AreMerged set next (m ∷ ms) e = elim (Merged-cases (merge_manifest set m)) [
  | inl (mid, one) ↦
      let s = merge_manifest-IsStep set mid m one in
      let rest = merge_all-AreMerged mid next ms (ground arith) in
      record {
        kept = record {
          applications = λ n v found. rest.kept.applications n v (s.kept.applications n v found);
          resources = λ n v found. rest.kept.resources n v (s.kept.resources n v found);
        };
        held = (
          record {
            application =
                λ app k given. rest.kept.applications _ _ (s.held.application app k given);
            resource = λ res k given. rest.kept.resources _ _ (s.held.resource res k given);
          },
          rest.held,
        );
        app_from = λ n v found. elim (rest.app_from n v found) [
          | inl before_it ↦ elim (s.app_from n v before_it) [
            | inl first ↦ inl first
            | inr here ↦ elim here [ inl this ↦ inr (inl this) | inr nothing ↦ absurd nothing ]
          ]
          | inr later ↦ inr (inr later)
        ];
        res_from = λ n v found. elim (rest.res_from n v found) [
          | inl before_it ↦ elim (s.res_from n v before_it) [
            | inl first ↦ inl first
            | inr here ↦ elim here [ inl this ↦ inr (inl this) | inr nothing ↦ absurd nothing ]
          ]
          | inr later ↦ inr (inr later)
        ];
        applications = ground (arith, s.more_applications, rest.applications);
        resources = ground (arith, s.more_resources, rest.resources);
      }
  | inr (why, stop) ↦ absurd (ground arith)
]

-- A set that holds what was loaded, and nothing else.
pub record IsLoaded (set : ManifestSet) (ms : List Manifest) : Type 0 where
  pub indexed : IsIndexed set
  pub held : All (IsHeld set) ms
  pub app_from :
      (n : String) (app : ApplicationManifest)
      → lookup n set.applications ≡ some app
      → IsAppOf ms app
  pub res_from :
      (n : String) (res : ResourceManifest) → lookup n set.resources ≡ some res → IsResOf ms res
  pub applications : length set.applications ≡ count_kind application_kind ms
  pub resources : length set.resources ≡ count_kind resource_kind ms

-- When no manifest of a list is refused, the set that they are merged into holds each application and
-- each resource of the list under its own name, and nothing that is not of the list; no name stands
-- twice in a kind, and the set has as many applications and as many resources as the list.
pub merge_all-IsLoaded :
    (ms : List Manifest) (set : ManifestSet)
    → merge_all new_manifest_set ms ≡ merged set
    → IsLoaded set ms
unfolding new_manifest_set lookup
merge_all-IsLoaded ms set e =
    let all_of = merge_all-AreMerged new_manifest_set set ms e in
    record {
      indexed = merge_all-IsIndexed ms set e;
      held = all_of.held;
      app_from = λ n v found. elim (all_of.app_from n v found) [
        | inl e ↦ absurd (ground (arith, e))
        | inr there ↦ there
      ];
      res_from = λ n v found. elim (all_of.res_from n v found) [
        | inl e ↦ absurd (ground (arith, e))
        | inr there ↦ there
      ];
      applications = omega (arith, all_of.applications);
      resources = omega (arith, all_of.resources);
    }
