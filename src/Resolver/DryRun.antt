-- ===== src/Resolver/DryRun.antt =====
-- dry_run_resolver.go: the same with placeholders in the place of secrets.
use shrine.Prelude.{String, eq_int, eq_pair, eq_str, if◌then◌else◌, not, ◌==◌, ◌⊕◌}
use shrine.Manifest.{ApplicationManifest, EnvVar, ResourceManifest}
use shrine.Resolver.{
  Env, ResolvedDependencies, ResolvedResource, Result, TemplateEngine, is_vault_ref,
  lookup_resource_or_application, ok, parse_vault_path, pure, ◌>>=◌,
}
use shrine.Resolver.Filling.{Slot, plain, resolve_env}
use shrine.Resolver.Exports.{compute_exports}
use shrine.Resolver.Live.{application_context, resource_context, template_or_none}

abbrev pub port_placeholder : String
port_placeholder = "[PORT]"

-- The cases of the two switches that a value from elsewhere has.
unfoldable pub dry_value_from : ResolvedDependencies → EnvVar → Result Slot
unfolding is_vault_ref parse_vault_path lookup_resource_or_application
dry_value_from deps e =
    if is_vault_ref e.value_from
    then ok (plain ("[VAULT:" ⊕ (parse_vault_path e.value_from ⊕ "]")))
    else if not (e.value_from == "")
    then (lookup_resource_or_application e.value_from deps >>= λ v. ok (plain v))
    else template_or_none e

unfoldable pub dry_resource_slot : ResolvedDependencies → EnvVar → Result Slot
unfolding dry_value_from
dry_resource_slot deps e =
    if not (e.value == "")
    then ok (plain e.value)
    else if e.generated
    then ok (plain "[GENERATED]")
    else dry_value_from deps e

unfoldable pub dry_resolve_resource :
    TemplateEngine → ResourceManifest → ResolvedDependencies → Result ResolvedResource
unfolding dry_resource_slot resolve_env compute_exports
dry_resolve_resource t res deps = do
  env ← resolve_env t (dry_resource_slot deps) (resource_context res port_placeholder) res.spec.env
  exports ← compute_exports t res env port_placeholder
  pure (record { env = env; exports = exports })

unfoldable pub dry_application_slot : ResolvedDependencies → EnvVar → Result Slot
unfolding dry_value_from
dry_application_slot deps e =
    if not (e.value == "") then ok (plain e.value) else dry_value_from deps e

unfoldable pub dry_resolve_application :
    TemplateEngine → ApplicationManifest → ResolvedDependencies → Result Env
unfolding dry_application_slot resolve_env
dry_resolve_application t app deps =
    resolve_env t (dry_application_slot deps) (application_context app) app.spec.env
