-- ===== src/Planner/Policy/Effective.antt =====
-- What a manifest has for a policy once it is effective, and which versions pass.
use shrine.Prelude.{
  All, Bool, List, String, [], append-eq-nil_iff, arith, dec_str, eq_int, eq_pair, eq_str, false,
  refl, true, ◌&&◌, ◌==◌, ◌||◌, ◌↔◌, ◌∷◌, ◌≡◌,
}
use shrine.Manifest.{
  image_pull_policy_always, image_pull_policy_if_not_present, image_pull_policy_pinned,
  is_known_pull_policy, is_manifest_owned_policy, ApplicationManifest, ResourceManifest,
}
use shrine.Manifest.Reference.{effective_pull_policy_with_default}
use shrine.Planner.Loader.{ManifestSet}
use shrine.Planner.Policy.{
  with_effective_policy, with_effective_resource_policy, map_values, apply_effective_pull_policy,
  names_fixed_version, is_resource_image_override, validate_resource_version,
  application_policy_errors, resource_policy_errors, validate_image_policies, Sources,
}

derived_known :
    (is_known_pull_policy image_pull_policy_always ≡ true)
    × (is_known_pull_policy image_pull_policy_if_not_present ≡ true)
unfolding is_known_pull_policy dec_str
derived_known = (refl, refl)

derived_full :
    ((image_pull_policy_always == "") ≡ false) × ((image_pull_policy_if_not_present == "") ≡ false)
unfolding dec_str
derived_full = (refl, refl)

-- Where the policy of the manifest and the default are each empty or known, the effective policy is
-- known: it is not empty, and it is one of the three.
effective_pull_policy-known :
    (image declared dflt : String)
    → (declared == "" || is_known_pull_policy declared) ≡ true
    → (dflt == "" || is_known_pull_policy dflt) ≡ true
    → is_known_pull_policy (effective_pull_policy_with_default image declared dflt) ≡ true
unfolding effective_pull_policy_with_default
effective_pull_policy-known image declared dflt d e =
    let (always, present) = derived_known in ground (arith, always, present)

effective_full :
    (image declared dflt : String)
    → (effective_pull_policy_with_default image declared dflt == "") ≡ false
unfolding effective_pull_policy_with_default
effective_full image declared dflt =
    let (always, present) = derived_full in ground (arith, always, present)

effective_of_declared :
    (image declared dflt : String)
    → (declared == "") ≡ false
    → effective_pull_policy_with_default image declared dflt ≡ declared
unfolding effective_pull_policy_with_default
effective_of_declared image declared dflt full = ground arith

application_twice :
    (dflt other : String) (m : List (String × ApplicationManifest))
    → map_values (with_effective_policy other) (map_values (with_effective_policy dflt) m)
      ≡ map_values (with_effective_policy dflt) m
unfolding with_effective_policy
application_twice dflt other [] = refl
application_twice dflt other ((n, app) ∷ m) =
    rw
      (
        application_twice dflt other m,
        effective_of_declared app.spec.image _ other
            (effective_full app.spec.image app.spec.image_pull_policy dflt),
      )
      refl

resource_twice :
    (dflt other : String) (m : List (String × ResourceManifest))
    → map_values
        (with_effective_resource_policy other)
        (map_values (with_effective_resource_policy dflt) m)
      ≡ map_values (with_effective_resource_policy dflt) m
unfolding with_effective_resource_policy
resource_twice dflt other [] = refl
resource_twice dflt other ((n, res) ∷ m) =
    rw
      (
        resource_twice dflt other m,
        effective_of_declared res.spec.image _ other
            (effective_full res.spec.image res.spec.image_pull_policy dflt),
      )
      refl

-- Once the policies of a set are effective, applying another default changes no manifest: every
-- later reader and a second plan over the same set meet the same policies.
apply_effective_pull_policy_twice :
    (set : ManifestSet) (dflt other : String)
    → let once = apply_effective_pull_policy set dflt in
      let twice = apply_effective_pull_policy once other in
      (twice.applications ≡ once.applications) × (twice.resources ≡ once.resources)
unfolding apply_effective_pull_policy
apply_effective_pull_policy_twice set dflt other =
    (application_twice dflt other set.applications, resource_twice dflt other set.resources)

-- An application that passes: under Pinned its image names no fixed version.
abbrev pub IsUnpinnedImage : ApplicationManifest → Type 0
IsUnpinnedImage app =
    app.spec.image_pull_policy ≡ image_pull_policy_pinned
    → names_fixed_version app.spec.image ≡ false

-- A resource that passes: it has a version under the two policies that the manifest owns, and under
-- Pinned neither its version nor an image of its own names a fixed one.
pub record IsVersioned (res : ResourceManifest) : Type 0 where
  pub versioned :
      is_manifest_owned_policy res.spec.image_pull_policy ≡ true → (res.spec.version == "") ≡ false
  pub floating :
      res.spec.image_pull_policy ≡ image_pull_policy_pinned
      → (res.spec.version == "" || res.spec.version == "latest") ≡ true
  pub unpinned :
      res.spec.image_pull_policy ≡ image_pull_policy_pinned
      → (is_resource_image_override res.spec && names_fixed_version res.spec.image) ≡ false

pinned_not_owned : is_manifest_owned_policy image_pull_policy_pinned ≡ false
unfolding is_manifest_owned_policy dec_str
pinned_not_owned = refl

resource_version_iff :
    (res : ResourceManifest) (b : Bool) → (validate_resource_version res b ≡ []) ↔ IsVersioned res
unfolding validate_resource_version
resource_version_iff res b = (
  λ h. record {
    versioned = λ o. ground arith;
    floating = λ p. ground (arith, pinned_not_owned);
    unpinned = λ p. ground (arith, pinned_not_owned);
  },
  λ h. ground (arith, h.versioned, h.floating, h.unpinned),
)

application_errors_iff :
    (sources : Sources) (apps : List (String × ApplicationManifest))
    → (application_policy_errors sources apps ≡ []) ↔ All (λ r. IsUnpinnedImage r.1) apps
unfolding application_policy_errors
application_errors_iff sources [] = (λ h. tt, λ h. refl)
application_errors_iff sources ((n, app) ∷ apps) =
    let (sound, complete) = application_errors_iff sources apps in
    (λ h. (λ p. ground arith, sound (ground arith)), λ h. ground (arith, h.0, complete h.1))

resource_errors_iff :
    (sources : Sources) (rs : List (String × ResourceManifest))
    → (resource_policy_errors sources rs ≡ []) ↔ All (λ r. IsVersioned r.1) rs
unfolding resource_policy_errors
resource_errors_iff sources [] = (λ h. tt, λ h. refl)
resource_errors_iff sources ((n, res) ∷ rs) =
    let (sound, complete) = resource_errors_iff sources rs in
    let (one_sound, one_complete) = resource_version_iff res _ in
    let (split_nil, join_nil) =
      append-eq-nil_iff (validate_resource_version res _) (resource_policy_errors sources rs) in
    (
      λ h. (one_sound (split_nil h).0, sound (split_nil h).1),
      λ h. join_nil (one_complete h.0, complete h.1),
    )

-- The version rules report nothing exactly when every application and every resource of the set
-- keeps them.
pub validate_image_policies_iff :
    (set : ManifestSet)
    → (validate_image_policies set ≡ [])
      ↔ (All (λ r. IsUnpinnedImage r.1) set.applications × All (λ r. IsVersioned r.1) set.resources)
unfolding validate_image_policies
validate_image_policies_iff set =
    let (sound, complete) = application_errors_iff set.pull_policy_sources set.applications in
    let (res_sound, res_complete) = resource_errors_iff set.pull_policy_sources set.resources in
    let (split_nil, join_nil) =
      append-eq-nil_iff (application_policy_errors set.pull_policy_sources set.applications)
        (resource_policy_errors set.pull_policy_sources set.resources) in
    (
      λ h. (sound (split_nil h).0, res_sound (split_nil h).1),
      λ h. join_nil (complete h.0, res_complete h.1),
    )
