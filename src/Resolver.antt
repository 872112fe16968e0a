-- ===== src/Resolver.antt =====
-- internal/resolver/resolver.go and dry_run_resolver.go: the values of the variables and the outputs.
-- Package text/template, the secret store and the vault are outside; an error is a value with what
-- its message shows.
pub mod Templates
pub mod Filling
pub mod Live
pub mod DryRun
pub mod Exports
pub mod Promises
mod Examples
use shrine.Prelude.{
  Bool, List, Option, String, [], arith, eq_int, eq_pair, eq_str, has_prefix, if◌then◌else◌, insert,
  lookup, none, refl, some, split, trim_prefix, ℕ, ◌==◌, ◌∷◌, ◌≡◌,
}
use shrine.Manifest.{ApplicationManifest, EnvVar, Output, ResourceManifest}
use shrine.Manifest.Template.{Node, extract_field_refs}
use shrine.Topo.{Graph, SortResult, add_to_set, cycle, exhausted, sorted, topo_sort}

-- map[string]string
abbrev pub Env : Type 0
Env = List (String × String)

pub record ResolvedDependencies : Type 0 where
  pub resources : List (String × Env)
  pub applications : List (String × Env)

pub record ResolvedResource : Type 0 where
  pub env : Env
  pub exports : Env

-- `template_fault` is the fault of a walk or of a template that is not there.
pub data ResolveError : Type 0 where
  secret_failed : String → String → ResolveError
  vault_failed : String → String → ResolveError
  no_secrets_plugin : String → ResolveError
  no_value : String → ResolveError
  invalid_format : String → ResolveError
  invalid_prefix : String → ResolveError
  unknown_target : String → String → ResolveError
  no_output : String → String → String → ResolveError
  parse_failed : String → String → ResolveError
  template_cycle : List String → ResolveError
  render_failed : String → String → ResolveError
  port_not_set : ResolveError
  output_not_matched : String → ResolveError
  template_fault : String → ResolveError
  sort_exhausted : ResolveError

pub data Result (A : Type 0) : Type 0 where
  ok : A → Result A
  failed : ResolveError → Result A

abbrev pub pure : {A : Type 0} → A → Result A
pure a = ok a

infixl 5 ◌>>=◌
abbrev pub ◌>>=◌ : {A B : Type 0} → Result A → (A → Result B) → Result B
ok a >>= f = f a
failed e >>= f = failed e

-- A chain that succeeds, in its two parts.
pub bind-ok :
    {A B : Type 0} (m : Result A) (f : A → Result B) (b : B)
    → (m >>= f) ≡ ok b
    → (a : A) × (m ≡ ok a) × (f a ≡ ok b)
bind-ok (ok a) f b e = (a, refl, e)
bind-ok (failed x) f b e = absurd (ground arith)

-- What the result of a call outside is, an error being a text.
pub data Reply (A : Type 0) : Type 0 where
  reply : A → Reply A
  refusal : String → Reply A

-- text/template: Parse and Execute.
pub record TemplateEngine : Type 0 where
  pub parse : String → Reply (Option Node)
  pub execute : Option Node → Env → Reply String

-- `secret`, by team, key and length, is the secret that the store has or makes; `vault` is `none`
-- where no plugin is active.
pub record Stores : Type 0 where
  pub secret : String → String → ℕ → Reply String
  pub vault : Option (String → Reply String)

-- maps.Copy(dst, src)
unfoldable pub copy : Env → Env → Env
unfolding insert
copy dst [] = dst
copy dst ((k, v) ∷ src) = copy (insert k v dst) src

unfoldable pub is_vault_ref : String → Bool
unfolding has_prefix
is_vault_ref s = has_prefix s "vault:"

unfoldable pub parse_vault_path : String → String
unfolding trim_prefix
parse_vault_path s = trim_prefix s "vault:"

-- outputs[output], for the target that the reference names
unfoldable pub lookup_output : String → String → String → Option Env → Result String
unfolding lookup
lookup_output kind name output none = failed (unknown_target kind name)
lookup_output kind name output (some outputs) = elim (lookup output outputs) [
  | none ↦ failed (no_output kind name output)
  | some value ↦ ok value
]

-- The parts of the reference; any number of parts but three is an error.
unfoldable pub lookup_parts : String → ResolvedDependencies → List String → Result String
unfolding lookup_output
lookup_parts ref deps (kind ∷ name ∷ output ∷ []) =
    if kind == "resource"
    then lookup_output kind name output (lookup name deps.resources)
    else if kind == "application"
    then lookup_output kind name output (lookup name deps.applications)
    else failed (invalid_prefix kind)
lookup_parts ref deps _ = failed (invalid_format ref)

unfoldable pub lookup_resource_or_application : String → ResolvedDependencies → Result String
unfolding split lookup_parts
lookup_resource_or_application ref deps = lookup_parts ref deps (split b'.' ref)
