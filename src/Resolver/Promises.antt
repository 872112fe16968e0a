-- ===== src/Resolver/Promises.antt =====
-- What the live and the dry-run resolver promise.
use shrine.Prelude.{String, arith, eq_int, eq_pair, eq_str, has_key, mem, sym, ◌∙◌, ◌≡◌}
use shrine.Manifest.{ApplicationManifest, EnvVar, ResourceManifest}
use shrine.Resolver.{
  Env, ResolvedDependencies, ResolvedResource, Result, Stores, TemplateEngine, bind-ok, ok, ◌>>=◌,
}
use shrine.Resolver.Filling.{Slot, resolve_env}
use shrine.Resolver.Filling.Named.{env_names, resolve_env-names}
use shrine.Resolver.Exports.{compute_exports}
use shrine.Resolver.Exports.Allowlist.{compute_exports-names, output_names}
use shrine.Resolver.Live.{
  application_context, application_slot, port_text, live_resolve_application, live_resolve_resource,
  resolve_resource_env, resource_context, resource_slot,
}
use shrine.Resolver.DryRun.{
  dry_application_slot, dry_resolve_application, dry_resolve_resource, dry_resource_slot,
  port_placeholder,
}

-- The environment has the variables of the manifest, and the exports its outputs, and no others.
pub record HasInterface (res : ResourceManifest) (r : ResolvedResource) : Type 0 where
  pub env : (k : String) → has_key k r.env ≡ mem k (env_names res.spec.env)
  pub exports : (k : String) → has_key k r.exports ≡ mem k (output_names res.spec.outputs)

has_interface :
    (t : TemplateEngine) (res : ResourceManifest) (slot_of : EnvVar → Result Slot) (built_ins : Env)
    (port : String) (r : ResolvedResource)
    → (resolve_env t slot_of built_ins res.spec.env >>= λ env.
        compute_exports t res env port >>= λ exports. ok (record { env = env; exports = exports }))
      ≡ ok r
    → HasInterface res r
has_interface t res slot_of built_ins port r e =
    let (env, resolved, rest) =
      bind-ok (resolve_env t slot_of built_ins res.spec.env)
        (λ env. compute_exports t res env port >>= λ exports.
          ok (record { env = env; exports = exports }))
        r e in
    let (exports, computed, last) =
      bind-ok (compute_exports t res env port)
        (λ exports. ok (record { env = env; exports = exports })) r rest in
    let same : ◌≡◌ {A = ResolvedResource} (record { env = env; exports = exports }) r =
      ground (arith, last) in
    rw (← same) (record {
      env = resolve_env-names t slot_of built_ins res.spec.env env resolved;
      exports = compute_exports-names t res env port exports computed;
    })

-- When the live resolver resolves a resource, its environment has the variables that the manifest
-- lists and no others, and its exports the outputs that the manifest lists and no others.
pub live_resolve_resource-HasInterface :
    (t : TemplateEngine) (s : Stores) (res : ResourceManifest) (deps : ResolvedDependencies)
    (r : ResolvedResource)
    → live_resolve_resource t s res deps ≡ ok r
    → HasInterface res r
unfolding live_resolve_resource resolve_resource_env
live_resolve_resource-HasInterface t s res deps r e =
    has_interface t res (resource_slot s res deps) (resource_context res (port_text res.spec.port))
      (port_text res.spec.port) r e

dry_resolve_resource-HasInterface :
    (t : TemplateEngine) (res : ResourceManifest) (deps : ResolvedDependencies)
    (r : ResolvedResource)
    → dry_resolve_resource t res deps ≡ ok r
    → HasInterface res r
unfolding dry_resolve_resource
dry_resolve_resource-HasInterface t res deps r e =
    has_interface t res (dry_resource_slot deps) (resource_context res port_placeholder)
      port_placeholder r e

-- Two environments with the same variables.
abbrev pub SameKeys : Env → Env → Type 0
SameKeys a b = (k : String) → has_key k a ≡ has_key k b

-- When the live and the dry-run resolver both resolve a resource, whatever the exports that each
-- reads, they give it the same variables and publish the same outputs.
pub dry_resolve_resource-SameKeys :
    (t : TemplateEngine) (s : Stores) (res : ResourceManifest)
    (deps dry_deps : ResolvedDependencies) (live dry : ResolvedResource)
    → live_resolve_resource t s res deps ≡ ok live
    → dry_resolve_resource t res dry_deps ≡ ok dry
    → SameKeys live.env dry.env × SameKeys live.exports dry.exports
dry_resolve_resource-SameKeys t s res deps dry_deps live dry e f =
    let a = live_resolve_resource-HasInterface t s res deps live e in
    let b = dry_resolve_resource-HasInterface t res dry_deps dry f in
    (λ k. a.env k ∙ sym (b.env k), λ k. a.exports k ∙ sym (b.exports k))

-- The same for an application, which publishes nothing.
pub dry_resolve_application-SameKeys :
    (t : TemplateEngine) (s : Stores) (app : ApplicationManifest)
    (deps dry_deps : ResolvedDependencies) (live dry : Env)
    → live_resolve_application t s app deps ≡ ok live
    → dry_resolve_application t app dry_deps ≡ ok dry
    → SameKeys live dry
unfolding live_resolve_application dry_resolve_application
dry_resolve_application-SameKeys t s app deps dry_deps live dry e f k =
    resolve_env-names t (application_slot s deps) (application_context app) app.spec.env live e k
    ∙ sym (
        resolve_env-names t (dry_application_slot dry_deps) (application_context app) app.spec.env
          dry f k)
