-- ===== src/Planner/Loader/Steps.antt =====
-- What merging one manifest makes of a set.
use shrine.Prelude.{
  Bool-cases, List, Option, String, [], ap, arith, dec_str, eq_int, eq_pair, eq_str, false,
  if◌then◌else◌, inl, inr, insert, length, lookup, lookup-insert, none, refl, some, suc, true, ℕ,
  ◌==◌, ◌∙◌, ◌∷◌, ◌≡◌, ◌⊎◌,
}
use shrine.Manifest.{
  ApplicationManifest, ResourceManifest, Manifest, application_kind, resource_kind, team_kind,
}
use shrine.Planner.Loader.{ManifestSet, merged, merge_application, merge_resource, merge_manifest}
use shrine.Planner.Loader.Merging.{merge_application-merged, merge_resource-merged}

-- The manifest of an application or of a resource stands in the set under its name.
pub record IsHeld (set : ManifestSet) (m : Manifest) : Type 0 where
  pub application :
      (app : ApplicationManifest)
      → m.type_meta.kind ≡ application_kind
      → m.application ≡ some app
      → lookup app.metadata.name set.applications ≡ some app
  pub resource :
      (res : ResourceManifest)
      → m.type_meta.kind ≡ resource_kind
      → m.resource ≡ some res
      → lookup res.metadata.name set.resources ≡ some res

-- The application is that of a manifest of the list, and the same for a resource.
abbrev pub IsAppOf : List Manifest → ApplicationManifest → Type 0
IsAppOf [] app = ⊥
IsAppOf (m ∷ ms) app =
    ((m.type_meta.kind ≡ application_kind) × (m.application ≡ some app)) ⊎ IsAppOf ms app

abbrev pub IsResOf : List Manifest → ResourceManifest → Type 0
IsResOf [] res = ⊥
IsResOf (m ∷ ms) res =
    ((m.type_meta.kind ≡ resource_kind) × (m.resource ≡ some res)) ⊎ IsResOf ms res

-- How many of the manifests have a kind.
unfoldable pub count_kind : String → List Manifest → ℕ
count_kind kind [] = 0
count_kind kind (m ∷ ms) =
    let rest = count_kind kind ms in if m.type_meta.kind == kind then suc rest else rest

-- What a step of merging keeps of a set.
pub record IsKept (set next : ManifestSet) : Type 0 where
  pub applications :
      (n : String) (app : ApplicationManifest)
      → lookup n set.applications ≡ some app
      → lookup n next.applications ≡ some app
  pub resources :
      (n : String) (res : ResourceManifest)
      → lookup n set.resources ≡ some res
      → lookup n next.resources ≡ some res

pub record IsStep (set next : ManifestSet) (m : Manifest) : Type 0 where
  pub kept : IsKept set next
  pub held : IsHeld next m
  pub app_from :
      (n : String) (app : ApplicationManifest)
      → lookup n next.applications ≡ some app
      → (lookup n set.applications ≡ some app) ⊎ IsAppOf (m ∷ []) app
  pub res_from :
      (n : String) (res : ResourceManifest)
      → lookup n next.resources ≡ some res
      → (lookup n set.resources ≡ some res) ⊎ IsResOf (m ∷ []) res
  pub more_applications : length next.applications ≡ (
      if m.type_meta.kind == application_kind
      then suc (length set.applications)
      else length set.applications)
  pub more_resources : length next.resources ≡ (
      if m.type_meta.kind == resource_kind
      then suc (length set.resources)
      else length set.resources)

length-insert_new {ℓ} :
    {V : Type ℓ} (k : String) (v : V) (m : List (String × V))
    → lookup k m ≡ none
    → length (insert k v m) ≡ suc (length m)
unfolding lookup insert
length-insert_new k v [] e = refl
length-insert_new k v ((j, w) ∷ m) e = ground (arith, length-insert_new k v m)

not_resource : (kind : String) → (kind == application_kind) ≡ true → (kind == resource_kind) ≡ false
unfolding dec_str
not_resource kind e = let same : kind ≡ application_kind = ground arith in rw same refl

not_application :
    (kind : String) → (kind == resource_kind) ≡ true → (kind == application_kind) ≡ false
unfolding dec_str
not_application kind e = let same : kind ≡ resource_kind = ground arith in rw same refl

application-IsStep :
    (set next : ManifestSet) (m : Manifest) (o : Option ApplicationManifest)
    → m.application ≡ o
    → (m.type_meta.kind == application_kind) ≡ true
    → merge_application set o ≡ merged next
    → IsStep set next m
unfolding merge_application
application-IsStep set next m none a k e = absurd (ground arith)
application-IsStep set next m (some app) a k e =
    let (free, same) = merge_application-merged set next app e in
    let name = app.metadata.name in
    rw (← same) (record {
      kept = record {
        applications =
            λ n v found. ground (arith, free, found, lookup-insert n name app set.applications);
        resources = λ n v found. found;
      };
      held = record {
        application = λ other is_app given.
            let one : app ≡ other = ground (arith, a, given) in
            rw (← one) (ground (arith, lookup-insert name name app set.applications));
        resource =
            λ res is_res given. absurd (ground (arith, not_resource m.type_meta.kind k, is_res));
      };
      app_from = λ n v found. elim (Bool-cases (name == n)) [
        | inl here ↦
            let one : app ≡ v =
              ground (arith, here, found, lookup-insert n name app set.applications) in
            inr (inl (ground (arith, k), a ∙ ap (λ x. some x) one))
        | inr other ↦ inl (ground (arith, other, found, lookup-insert n name app set.applications))
      ];
      res_from = λ n v found. inl found;
      more_applications = ground (arith, k, length-insert_new name app set.applications free);
      more_resources = ground (arith, not_resource m.type_meta.kind k);
    })

resource-IsStep :
    (set next : ManifestSet) (m : Manifest) (o : Option ResourceManifest)
    → m.resource ≡ o
    → (m.type_meta.kind == resource_kind) ≡ true
    → merge_resource set o ≡ merged next
    → IsStep set next m
unfolding merge_resource
resource-IsStep set next m none a k e = absurd (ground arith)
resource-IsStep set next m (some res) a k e =
    let (free, same) = merge_resource-merged set next res e in
    let name = res.metadata.name in
    rw (← same) (record {
      kept = record {
        applications = λ n v found. found;
        resources =
            λ n v found. ground (arith, free, found, lookup-insert n name res set.resources);
      };
      held = record {
        application =
            λ app is_app given. absurd (ground (arith, not_application m.type_meta.kind k, is_app));
        resource = λ other is_res given.
            let one : res ≡ other = ground (arith, a, given) in
            rw (← one) (ground (arith, lookup-insert name name res set.resources));
      };
      app_from = λ n v found. inl found;
      res_from = λ n v found. elim (Bool-cases (name == n)) [
        | inl here ↦
            let one : res ≡ v =
              ground (arith, here, found, lookup-insert n name res set.resources) in
            inr (inl (ground (arith, k), a ∙ ap (λ x. some x) one))
        | inr other ↦ inl (ground (arith, other, found, lookup-insert n name res set.resources))
      ];
      more_applications = ground (arith, not_application m.type_meta.kind k);
      more_resources = ground (arith, k, length-insert_new name res set.resources free);
    })

pub merge_manifest-IsStep :
    (set next : ManifestSet) (m : Manifest) → merge_manifest set m ≡ merged next → IsStep set next m
unfolding merge_manifest
merge_manifest-IsStep set next m e = elim (Bool-cases (m.type_meta.kind == application_kind)) [
  | inl app ↦ application-IsStep set next m m.application refl app (ground arith)
  | inr no_app ↦ elim (Bool-cases (m.type_meta.kind == resource_kind)) [
    | inl res ↦ resource-IsStep set next m m.resource refl res (ground arith)
    | inr no_res ↦ elim (Bool-cases (m.type_meta.kind == team_kind)) [
      | inl team ↦
          let same : set ≡ next = ground arith in
          rw (← same) (record {
            kept = record { applications = λ n v found. found; resources = λ n v found. found };
            held = record {
              application = λ app k given. absurd (ground (arith, no_app, k));
              resource = λ res k given. absurd (ground (arith, no_res, k));
            };
            app_from = λ n v found. inl found;
            res_from = λ n v found. inl found;
            more_applications = ground (arith, no_app);
            more_resources = ground (arith, no_res);
          })
      | inr no_team ↦ absurd (ground arith)
    ]
  ]
]
