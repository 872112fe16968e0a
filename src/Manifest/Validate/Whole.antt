-- ===== src/Manifest/Validate/Whole.antt =====
-- The verdict on a whole manifest that holds an application.
use shrine.Prelude.{
  All, List, String, [], arith, concat, concat-eq-nil_iff, dec_str, eq_int, eq_pair, eq_str, false,
  none, refl, some, sym, true, ◌==◌, ◌||◌, ◌↔◌, ◌∙◌, ◌∷◌, ◌≡◌,
}
use shrine.Manifest.{ApplicationManifest, Manifest, application_kind, resource_kind, team_kind}
use shrine.Manifest.Validate.{
  ValidationError, validate_application_spec, validate_type_meta, validate_metadata,
  validate_metadata_with_owner, validate_metadata_name, validate_spec, joined, validate,
}
use shrine.Manifest.Validate.Accepts.{IsApplicationSpec, application_spec_iff}

-- What every accepted application has beyond its spec.
pub record IsApplication (m : Manifest) (a : ApplicationManifest) : Type 0 where
  pub kind :
      (m.type_meta.kind == team_kind
        || m.type_meta.kind == resource_kind
        || m.type_meta.kind == application_kind)
      ≡ true
  pub version : (m.type_meta.api_version == "") ≡ false
  pub name : (a.metadata.name == "") ≡ false
  pub owner : (a.metadata.owner == "") ≡ false
  pub spec : IsApplicationSpec a.spec

sections : Manifest → List (List ValidationError)
sections m = validate_type_meta m.type_meta ∷ validate_metadata m ∷ validate_spec m ∷ []

none_left : (es : List ValidationError) → joined es ≡ none → es ≡ []
unfolding joined
none_left [] h = refl
none_left (x ∷ xs) h = cc

validate-sections : (m : Manifest) → (validate m ≡ none) ↔ All (λ xs. xs ≡ []) (sections m)
unfolding validate sections
validate-sections m =
    let (sound, complete) = concat-eq-nil_iff (sections m) in
    (λ h. sound (none_left (concat (sections m)) h), λ h. rw (complete h))

-- None of the three kinds is the empty text.
known_kind :
    (kind : String)
    → (kind == team_kind || kind == resource_kind || kind == application_kind) ≡ true
    → (kind == "") ≡ false
known_kind kind h =
    ground (arith, team_kind-ne-empty, resource_kind-ne-empty, application_kind-ne-empty)
  where
    team_kind-ne-empty : (team_kind == "") ≡ false
    team_kind-ne-empty = unfold dec_str in refl

    resource_kind-ne-empty : (resource_kind == "") ≡ false
    resource_kind-ne-empty = unfold dec_str in refl

    application_kind-ne-empty : (application_kind == "") ≡ false
    application_kind-ne-empty = unfold dec_str in refl

application_metadata :
    (m : Manifest) (a : ApplicationManifest)
    → m.application ≡ some a
    → validate_metadata m ≡ validate_metadata_with_owner a.metadata
unfolding validate_metadata
application_metadata m a e = rw (e, validate_metadata)

application_spec :
    (m : Manifest) (a : ApplicationManifest)
    → m.application ≡ some a
    → validate_spec m ≡ validate_application_spec a.spec
unfolding validate_spec
application_spec m a e = rw (e, validate_spec)

-- A manifest that holds an application is accepted exactly when it names a known kind and an API
-- version, the application has a name and an owner, and its spec is well formed.
pub validate_application_iff :
    (m : Manifest) (a : ApplicationManifest)
    → m.application ≡ some a
    → (validate m ≡ none) ↔ IsApplication m a
unfolding sections validate_type_meta validate_metadata_with_owner validate_metadata_name
validate_application_iff m a e =
    let (sound, complete) = validate-sections m in
    let (spec_sound, spec_complete) = application_spec_iff a.spec in
    (
      λ h.
          let (meta, p) = sound h in
          let (data_ok, q) = p in
          record {
            kind = ground arith;
            version = ground arith;
            name = ground (arith, application_metadata m a e);
            owner = ground (arith, application_metadata m a e);
            spec = spec_sound (sym (application_spec m a e) ∙ q.0);
          },
      λ h. complete (
        ground (arith, h.kind, h.version, known_kind m.type_meta.kind h.kind),
        (
          application_metadata m a e ∙ ground (arith, h.name, h.owner),
          (application_spec m a e ∙ spec_complete h.spec, tt),
        ),
      ),
    )
