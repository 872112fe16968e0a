-- ===== src/Planner/Resolve/Access.antt =====
-- Which dependencies resolve.
use shrine.Prelude.{
  All, Bool-cases, List, Option-cases, String, [], append-eq-nil_iff, arith, dec_str, eq_int,
  eq_pair, eq_str, false, inl, inr, lookup, mem, refl, some, true, ◌==◌, ◌↔◌, ◌∷◌, ◌≡◌, ◌⊎◌,
}
use shrine.Manifest.{
  application_kind, resource_kind, ApplicationManifest, Dependency, Metadata, Networking,
  ResourceManifest,
}
use shrine.Planner.Loader.{ManifestSet}
use shrine.Planner.Resolve.{
  Consumer, has_access, validate_target, resource_target, validate_resource_dep, application_target,
  validate_application_dep, resolve_dependency, resolve_dependencies, application_names,
  resource_names, validate_unique_names,
}
use shrine.Planner.Loader.Merging.{IsIndexed}

-- A target that a consumer may use: the dependency names its owner; and it is of the consumer's own
-- team, or it lists that team in its access and is exposed to the platform.
pub record IsUsable (c : Consumer) (dep : Dependency) (target : Metadata) (net : Networking)
    : Type 0 where
  pub owned : target.owner ≡ dep.owner
  pub open_to :
      (target.owner ≡ c.owner)
      ⊎ ((mem c.owner target.access ≡ true) × (net.expose_to_platform ≡ true))

-- A dependency on a manifest of the set that the consumer may use.
abbrev pub IsResolved : ManifestSet → Consumer → Dependency → Type 0
IsResolved set c dep =
    ((dep.kind ≡ resource_kind)
      × (res : ResourceManifest) × (lookup dep.name set.resources ≡ some res)
      × IsUsable c dep res.metadata res.spec.networking)
    ⊎ ((dep.kind ≡ application_kind)
        × (app : ApplicationManifest) × (lookup dep.name set.applications ≡ some app)
        × IsUsable c dep app.metadata app.spec.networking)

target_sound :
    (c : Consumer) (dep : Dependency) (target : Metadata) (net : Networking)
    → validate_target c dep target net ≡ []
    → IsUsable c dep target net
unfolding validate_target has_access
target_sound c dep target net h = record {
  owned = ground arith;
  open_to = elim (Bool-cases (target.owner == c.owner)) [
    | inl mine ↦ inl (ground arith)
    | inr foreign ↦ inr (ground arith, ground arith)
  ];
}

target_complete :
    (c : Consumer) (dep : Dependency) (target : Metadata) (net : Networking)
    → IsUsable c dep target net
    → validate_target c dep target net ≡ []
unfolding validate_target has_access
target_complete c dep target net h = ground (arith, h.owned, h.open_to)

dependency_sound :
    (set : ManifestSet) (c : Consumer) (dep : Dependency)
    → resolve_dependency set c dep ≡ []
    → IsResolved set c dep
unfolding resolve_dependency validate_resource_dep validate_application_dep resource_target
    application_target
dependency_sound set c dep h = elim (Bool-cases (dep.kind == resource_kind)) [
  | inl is_res ↦ elim (Option-cases (lookup dep.name set.resources)) [
    | inl missing ↦ absurd (ground arith)
    | inr (res, found) ↦ inl (
      ground arith,
      res,
      found,
      target_sound c dep res.metadata res.spec.networking (ground arith),
    )
  ]
  | inr no_res ↦ elim (Bool-cases (dep.kind == application_kind)) [
    | inl is_app ↦ elim (Option-cases (lookup dep.name set.applications)) [
      | inl missing ↦ absurd (ground arith)
      | inr (app, found) ↦ inr (
        ground arith,
        app,
        found,
        target_sound c dep app.metadata app.spec.networking (ground arith),
      )
    ]
    | inr no_app ↦ absurd (ground arith)
  ]
]

kinds_differ : (application_kind == resource_kind) ≡ false
unfolding dec_str
kinds_differ = refl

dependency_complete :
    (set : ManifestSet) (c : Consumer) (dep : Dependency)
    → IsResolved set c dep
    → resolve_dependency set c dep ≡ []
unfolding resolve_dependency validate_resource_dep validate_application_dep resource_target
    application_target
dependency_complete set c dep (inl (kind, res, found, usable)) =
    ground (arith, target_complete c dep res.metadata res.spec.networking usable)
dependency_complete set c dep (inr (kind, app, found, usable)) =
    ground (arith, target_complete c dep app.metadata app.spec.networking usable, kinds_differ)

-- The resolver reports nothing about the dependencies of a consumer exactly when each is on a
-- resource or an application of the set whose owner it names, and which is of the consumer's own
-- team or both lists that team in its access and is exposed to the platform; an empty access list
-- opens it to no other team.
pub resolve_dependencies_iff :
    (set : ManifestSet) (c : Consumer) (deps : List Dependency)
    → (resolve_dependencies set c deps ≡ []) ↔ All (IsResolved set c) deps
unfolding resolve_dependencies
resolve_dependencies_iff set c [] = (λ h. tt, λ h. refl)
resolve_dependencies_iff set c (dep ∷ deps) =
    let (sound, complete) = resolve_dependencies_iff set c deps in
    let (parts, whole) =
      append-eq-nil_iff (resolve_dependency set c dep) (resolve_dependencies set c deps) in
    (
      λ h. (dependency_sound set c dep (parts h).0, sound (parts h).1),
      λ h. whole (dependency_complete set c dep h.0, complete h.1),
    )

application_names_nil :
    (apps : List (String × ApplicationManifest))
    → All (λ r. r.1.metadata.name ≡ r.0) apps
    → application_names apps ≡ []
unfolding application_names
application_names_nil [] h = refl
application_names_nil ((name, app) ∷ apps) h = ground (arith, application_names_nil apps h.1, h.0)

resource_names_nil :
    (rs : List (String × ResourceManifest))
    → All (λ r. r.1.metadata.name ≡ r.0) rs
    → resource_names rs ≡ []
unfolding resource_names
resource_names_nil [] h = refl
resource_names_nil ((name, res) ∷ rs) h = ground (arith, resource_names_nil rs h.1, h.0)

-- The check of the names finds nothing in a set that is indexed by the names of its manifests, as
-- merging makes it.
validate_unique_names-IsIndexed :
    (set : ManifestSet) → IsIndexed set → validate_unique_names set ≡ []
unfolding validate_unique_names
validate_unique_names-IsIndexed set h = ground (
  arith,
  application_names_nil set.applications h.apps_named,
  resource_names_nil set.resources h.resources_named,
)
