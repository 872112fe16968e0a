-- ===== src/Manifest/Validate/Accepts.antt =====
-- The manifests that the validator accepts, described field by field.
use shrine.Prelude.{
  All, All-imp, List, Nodup, NodupFrom-nil_iff, String, [], arith, concat-eq-nil_iff, eq_int,
  eq_pair, eq_str, false, int_leb, mem, none, pos, sym, ◌==◌, ◌↔◌, ◌≡◌,
}
use shrine.Manifest.{EnvVar, Output, ApplicationSpec, ResourceSpec}
use shrine.Manifest.Validate.{
  application_checks, resource_checks, validate_application_spec, validate_resource_spec,
  validate_resource_env,
}
use shrine.Manifest.Validate.Fields.{
  IsPublish, publish_iff, IsPolicy, IsPolicy-iff, IsAppEnv, IsAppEnv-iff, IsResEnv, env_names,
  IsResEnv-iff, res_env_names, IsVolume, volume_names, volume_paths, volumes_iff,
}
use shrine.Manifest.Validate.Exports.{IsOutput, output_names, outputs_iff, IsRouting, routing_iff}

pub record IsApplicationSpec (spec : ApplicationSpec) : Type 0 where
  pub image : (spec.image == "") ≡ false
  pub port : int_leb spec.port (pos 0) ≡ false
  pub env : All IsAppEnv spec.env
  pub routing : IsRouting spec.routing spec.routing.aliases
  pub publish : IsPublish spec.networking.publish
  pub policy : IsPolicy spec.image_pull_policy
  pub volumes : All IsVolume spec.volumes
  pub volume_names_once : Nodup (volume_names spec.volumes)
  pub volume_paths_once : Nodup (volume_paths spec.volumes)

application_sound :
    (spec : ApplicationSpec) → validate_application_spec spec ≡ [] → IsApplicationSpec spec
unfolding validate_application_spec
application_sound spec h =
    let (image, p) = (concat-eq-nil_iff (application_checks spec)).0 h in
    let (port, q) = p in
    let (env, r) = q in
    let (routing, t) = r in
    let (mounts, names, paths) = (volumes_iff 0 spec.volumes [] []).0 t.1.1.0 in
    record {
      image = ground arith;
      port = ground arith;
      env = (IsAppEnv-iff 0 spec.env).0 env;
      routing = (routing_iff spec.routing).0 routing;
      publish = (publish_iff spec.networking.publish).0 t.0;
      policy = (IsPolicy-iff spec.image_pull_policy).0 t.1.0;
      volumes = mounts;
      volume_names_once = (NodupFrom-nil_iff _).0 names;
      volume_paths_once = (NodupFrom-nil_iff _).0 paths;
    }

application_complete :
    (spec : ApplicationSpec) → IsApplicationSpec spec → validate_application_spec spec ≡ []
unfolding validate_application_spec
application_complete spec h =
    let volumes = (volumes_iff 0 spec.volumes [] []).1 (
      h.volumes,
      (NodupFrom-nil_iff _).1 h.volume_names_once,
      (NodupFrom-nil_iff _).1 h.volume_paths_once,
    ) in
    let policy = (IsPolicy-iff spec.image_pull_policy).1 h.policy in
    let publish = (publish_iff spec.networking.publish).1 h.publish in
    let routing = (routing_iff spec.routing).1 h.routing in
    let env = (IsAppEnv-iff 0 spec.env).1 h.env in
    (concat-eq-nil_iff (application_checks spec)).1 (
      ground (arith, h.image),
      (ground (arith, h.port), (env, (routing, (publish, (policy, (volumes, tt)))))),
    )

-- The validator reports nothing about an application spec exactly when the spec has an image, a
-- positive port, well-formed env vars, routes, publish block and pull policy, and volumes with
-- distinct names at distinct absolute paths.
pub application_spec_iff :
    (spec : ApplicationSpec) → (validate_application_spec spec ≡ []) ↔ IsApplicationSpec spec
application_spec_iff spec = (application_sound spec, application_complete spec)

pub record IsResourceSpec (spec : ResourceSpec) : Type 0 where
  pub type : (spec.type == "") ≡ false
  pub unpublished : spec.networking.publish ≡ none
  pub policy : IsPolicy spec.image_pull_policy
  pub env : All IsResEnv spec.env
  pub env_names_once : Nodup (env_names spec.env)
  pub outputs : All (IsOutput (env_names spec.env)) spec.outputs
  pub output_names_once : Nodup (output_names spec.outputs)
  pub volumes : All IsVolume spec.volumes
  pub volume_names_once : Nodup (volume_names spec.volumes)
  pub volume_paths_once : Nodup (volume_paths spec.volumes)

-- Only the members of the set of names count.
IsOutput-same :
    (xs ys : List String)
    → ((x : String) → mem x xs ≡ mem x ys)
    → (os : List Output) → All (IsOutput xs) os
    → All (IsOutput ys) os
IsOutput-same xs ys same = All-imp λ o h. record {
  named = h.named;
  migrated = h.migrated;
  backed = ground (arith, h.backed, same o.name);
}

collected :
    (es : List EnvVar) (x : String)
    → All IsResEnv es
    → mem x (validate_resource_env 0 es []).1 ≡ mem x (env_names es)
unfolding mem
collected es x h = ground (arith, res_env_names 0 es [] x h)

resource_sound : (spec : ResourceSpec) → validate_resource_spec spec ≡ [] → IsResourceSpec spec
unfolding validate_resource_spec
resource_sound spec h =
    let names = (validate_resource_env 0 spec.env []).1 in
    let (type, p) = (concat-eq-nil_iff (resource_checks spec)).0 h in
    let (publish, q) = p in
    let (policy, r) = q in
    let (envs, once) = (IsResEnv-iff 0 spec.env []).0 r.0 in
    let (outs, outs_once) = (outputs_iff 0 spec.outputs names []).0 r.1.0 in
    let (mounts, mount_names, mount_paths) = (volumes_iff 0 spec.volumes [] []).0 r.1.1.0 in
    record {
      type = ground arith;
      unpublished = ground arith;
      policy = (IsPolicy-iff spec.image_pull_policy).0 policy;
      env = envs;
      env_names_once = (NodupFrom-nil_iff _).0 once;
      outputs = IsOutput-same names (env_names spec.env) (λ x. collected spec.env x envs) _ outs;
      output_names_once = (NodupFrom-nil_iff _).0 outs_once;
      volumes = mounts;
      volume_names_once = (NodupFrom-nil_iff _).0 mount_names;
      volume_paths_once = (NodupFrom-nil_iff _).0 mount_paths;
    }

resource_complete : (spec : ResourceSpec) → IsResourceSpec spec → validate_resource_spec spec ≡ []
unfolding validate_resource_spec
resource_complete spec h =
    let names = (validate_resource_env 0 spec.env []).1 in
    let volumes = (volumes_iff 0 spec.volumes [] []).1 (
      h.volumes,
      (NodupFrom-nil_iff _).1 h.volume_names_once,
      (NodupFrom-nil_iff _).1 h.volume_paths_once,
    ) in
    let outputs = (outputs_iff 0 spec.outputs names []).1 (
      IsOutput-same (env_names spec.env) names (λ x. sym (collected spec.env x h.env)) _ h.outputs,
      (NodupFrom-nil_iff _).1 h.output_names_once,
    ) in
    let env = (IsResEnv-iff 0 spec.env []).1 (h.env, (NodupFrom-nil_iff _).1 h.env_names_once) in
    let policy = (IsPolicy-iff spec.image_pull_policy).1 h.policy in
    (concat-eq-nil_iff (resource_checks spec)).1 (
      ground (arith, h.type),
      (ground (arith, h.unpublished), (policy, (env, (outputs, (volumes, tt))))),
    )

-- The validator reports nothing about a resource spec exactly when the spec has a type, no publish
-- block, and a pull policy that is empty or one of the three; its env vars have distinct names that
-- are not empty and not reserved for a built-in, and one source each, of a value, a reference, a
-- template and a generated secret; its outputs have distinct names that are not empty, none of the
-- fields that moved to the env, and each a template or the name of an env var, `host` or `port`; and
-- its volumes have distinct names that are not empty, and distinct absolute paths.
pub resource_spec_iff :
    (spec : ResourceSpec) → (validate_resource_spec spec ≡ []) ↔ IsResourceSpec spec
resource_spec_iff spec = (resource_sound spec, resource_complete spec)
