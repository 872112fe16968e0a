-- ===== src/Planner/Resolve/References.antt =====
-- internal/planner/resolve.go: aliases of registries in images, and the references of `valueFrom`.
-- An error is a value with what its message shows.
use shrine.Prelude.{
  List, Option, String, [], before, eq_int, eq_pair, eq_str, has_key, has_prefix, if◌then◌else◌,
  insert, lookup, none, not, some, split, strip_prefix, trim_prefix, ◌&&◌, ◌++◌, ◌==◌, ◌||◌, ◌∷◌,
}
use shrine.Manifest.{ApplicationManifest, EnvVar, ResourceManifest}
use shrine.Planner.Loader.{ManifestSet}
use shrine.Planner.Resolve.{complain, is_exported_output}

-- config.RegistryConfig
pub record RegistryConfig : Type 0 where
  pub host : String
  pub alias : String
  pub username : String
  pub password : String

pub data AliasError : Type 0 where
  alias_empty : String → String → String → AliasError
  alias_undefined : String → String → String → String → AliasError

pub build_registry_alias_map : List RegistryConfig → List (String × String) → List (String × String)
unfolding insert
build_registry_alias_map [] m = m
build_registry_alias_map (r ∷ registries) m =
    build_registry_alias_map registries (if r.alias == "" then m else insert r.alias r.host m)

-- The alias ends at the first slash, or at the end of the image.
pub check_image_alias : String → String → String → List (String × String) → List AliasError
unfolding has_prefix strip_prefix before
check_image_alias image kind name alias_map =
    if not (has_prefix image "reg:")
    then []
    else let alias = before b'/' (strip_prefix image "reg:") in
      if alias == ""
      then alias_empty kind name image ∷ []
      else complain (not (has_key alias alias_map)) (alias_undefined kind name image alias)

application_aliases : List (String × String) → List (String × ApplicationManifest) → List AliasError
unfolding check_image_alias
application_aliases alias_map [] = []
application_aliases alias_map ((n, app) ∷ apps) =
    check_image_alias app.spec.image "app" app.metadata.name alias_map
    ++ application_aliases alias_map apps

resource_aliases : List (String × String) → List (String × ResourceManifest) → List AliasError
unfolding check_image_alias
resource_aliases alias_map [] = []
resource_aliases alias_map ((n, res) ∷ rs) =
    (if res.spec.image == ""
      then []
      else check_image_alias res.spec.image "resource" res.metadata.name alias_map)
    ++ resource_aliases alias_map rs

unfoldable pub validate_registry_images : ManifestSet → List RegistryConfig → List AliasError
unfolding application_aliases resource_aliases build_registry_alias_map
validate_registry_images set registries =
    let alias_map = build_registry_alias_map registries [] in
    application_aliases alias_map set.applications ++ resource_aliases alias_map set.resources

pub data ValueFromError : Type 0 where
  invalid_vault_ref : String → String → ValueFromError
  invalid_format : String → String → ValueFromError
  no_such_output : String → String → String → ValueFromError
  no_such_built_in : String → String → String → ValueFromError

-- More than three parts are refused, however many of them SplitN would make.
vault_parts : String → String → List String → List ValueFromError
vault_parts env ref (a ∷ b ∷ c ∷ []) =
    complain (a == "" || b == "" || c == "") (invalid_vault_ref env ref)
vault_parts env ref _ = invalid_vault_ref env ref ∷ []

pub validate_vault_path : String → String → List ValueFromError
unfolding vault_parts split strip_prefix trim_prefix has_prefix
validate_vault_path env ref = vault_parts env ref (split b'/' (trim_prefix ref "vault:"))

resource_output : String → String → String → Option ResourceManifest → List ValueFromError
unfolding is_exported_output
resource_output env name output none = []
resource_output env name output (some res) =
    complain (not (is_exported_output res.spec.outputs output)) (no_such_output env output name)

application_output : String → String → String → Option ApplicationManifest → List ValueFromError
application_output env name output none = []
application_output env name output (some app) =
    complain (not (output == "host") && not (output == "port")) (no_such_built_in env output name)

value_from_parts : ManifestSet → EnvVar → List String → List ValueFromError
unfolding resource_output application_output
value_from_parts set e (kind ∷ name ∷ output ∷ []) =
    if kind == "resource"
    then resource_output e.name name output (lookup name set.resources)
    else if kind == "application"
    then application_output e.name name output (lookup name set.applications)
    else invalid_format e.name e.value_from ∷ []
value_from_parts set e _ = invalid_format e.name e.value_from ∷ []

-- The loop of `validateEnvValueFrom`.
unfoldable pub validate_env_value_from : ManifestSet → List EnvVar → List ValueFromError
unfolding validate_vault_path value_from_parts
validate_env_value_from set [] = []
validate_env_value_from set (e ∷ env) =
    (if e.value_from == ""
      then []
      else if has_prefix e.value_from "vault:"
      then validate_vault_path e.name e.value_from
      else value_from_parts set e (split b'.' e.value_from))
    ++ validate_env_value_from set env
