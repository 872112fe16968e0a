-- ===== src/Resolver/Live.antt =====
-- LiveResolver: the environments of a deploy.
use shrine.Prelude.{
  Option, String, [], eq_int, eq_pair, eq_str, if◌then◌else◌, itoa, none, not, pos, some, ℕ, ℤ,
  ◌++◌, ◌==◌, ◌∷◌, ◌⊕◌,
}
use shrine.Manifest.{ApplicationManifest, EnvVar, ResourceManifest}
use shrine.Resolver.{
  Env, Reply, ResolvedDependencies, ResolvedResource, ResolveError, Result, Stores, TemplateEngine,
  failed, is_vault_ref, lookup_resource_or_application, no_secrets_plugin, no_value, ok,
  parse_vault_path, pure, refusal, reply, secret_failed, vault_failed, ◌>>=◌,
}
use shrine.Resolver.Filling.{Slot, plain, templated, resolve_env}
use shrine.Resolver.Exports.{compute_exports}

-- An error of a call outside.
abbrev from_reply : {A : Type 0} → (String → ResolveError) → Reply A → Result A
from_reply wrap (reply a) = ok a
from_reply wrap (refusal e) = failed (wrap e)

abbrev vault_secret : String → Option (String → Reply String) → Result String
vault_secret ref none = failed (no_secrets_plugin ref)
vault_secret ref (some get) = from_reply (vault_failed ref) (get (parse_vault_path ref))

-- LiveResolver.lookupValueFrom
unfoldable pub live_value_from : Stores → String → ResolvedDependencies → Result String
unfolding is_vault_ref parse_vault_path lookup_resource_or_application
live_value_from s ref deps =
    if is_vault_ref ref then vault_secret ref s.vault else lookup_resource_or_application ref deps

abbrev plain_of : Result String → Result Slot
plain_of r = r >>= λ v. ok (plain v)

abbrev pub template_or_none : EnvVar → Result Slot
template_or_none e =
    if not (e.template == "") then ok (templated e.template) else failed (no_value e.name)

abbrev pub generated_secret_length : ℕ
generated_secret_length = 32

-- The switch of `resolveResourceEnv`.
unfoldable pub resource_slot :
    Stores → ResourceManifest → ResolvedDependencies → EnvVar → Result Slot
unfolding live_value_from
resource_slot s res deps e =
    if not (e.value == "")
    then ok (plain e.value)
    else if e.generated
    then plain_of (
        from_reply (secret_failed e.name) (
          s.secret res.metadata.owner (res.metadata.name ⊕ ("." ⊕ e.name)) generated_secret_length))
    else if not (e.value_from == "")
    then plain_of (live_value_from s e.value_from deps)
    else template_or_none e

abbrev pub resource_context : ResourceManifest → String → Env
resource_context res port =
    let common : Env =
      ("team", res.metadata.owner)
      ∷ ("name", res.metadata.name)
      ∷ ("host", res.metadata.owner ⊕ ("." ⊕ res.metadata.name))
      ∷ [] in
    if port == "" then common else common ++ (("port", port) ∷ [])

-- The port as a text, the empty text for no port
unfoldable pub port_text : ℤ → String
unfolding itoa
port_text port = if port == pos 0 then "" else itoa port

unfoldable pub resolve_resource_env :
    TemplateEngine → Stores → ResourceManifest → ResolvedDependencies → Result Env
unfolding resource_slot resolve_env port_text
resolve_resource_env t s res deps =
    resolve_env t (resource_slot s res deps) (resource_context res (port_text res.spec.port))
      res.spec.env

unfoldable pub live_resolve_resource :
    TemplateEngine → Stores → ResourceManifest → ResolvedDependencies → Result ResolvedResource
unfolding resolve_resource_env port_text compute_exports
live_resolve_resource t s res deps = do
  env ← resolve_resource_env t s res deps
  exports ← compute_exports t res env (port_text res.spec.port)
  pure (record { env = env; exports = exports })

-- The switch of `ResolveApplication`.
unfoldable pub application_slot : Stores → ResolvedDependencies → EnvVar → Result Slot
unfolding live_value_from
application_slot s deps e =
    if not (e.value == "")
    then ok (plain e.value)
    else if not (e.value_from == "")
    then plain_of (live_value_from s e.value_from deps)
    else template_or_none e

abbrev pub application_context : ApplicationManifest → Env
application_context app = ("team", app.metadata.owner) ∷ ("name", app.metadata.name) ∷ []

unfoldable pub live_resolve_application :
    TemplateEngine → Stores → ApplicationManifest → ResolvedDependencies → Result Env
unfolding application_slot resolve_env
live_resolve_application t s app deps =
    resolve_env t (application_slot s deps) (application_context app) app.spec.env
