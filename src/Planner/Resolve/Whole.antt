-- ===== src/Planner/Resolve/Whole.antt =====
-- `Resolve`: all the errors of a set.
use shrine.Prelude.{List, Option, String, [], eq_int, eq_pair, eq_str, map, ◌++◌, ◌∷◌}
use shrine.Manifest.{ApplicationManifest, ResourceManifest, TeamManifest}
use shrine.Planner.Loader.{ManifestSet}
use shrine.Planner.Policy.{PolicyError, validate_image_policies}
use shrine.Planner.Templates.{
  Parser, TemplateError, validate_env_templates, validate_resource_env_templates,
  validate_templates,
}
use shrine.Planner.Resolve.{
  DependencyError, NameMismatch, QuotaError, app_consumer, resolve_dependencies, resource_consumer,
  validate_unique_names,
}
use shrine.Planner.Resolve.References.{
  AliasError, RegistryConfig, ValueFromError, validate_env_value_from, validate_registry_images,
}
use shrine.Planner.Resolve.Quota.{
  allowed_resource_types, count_apps, count_resources, enforce_quota,
}

-- The errors of the parts of `Resolve`, in one list.
pub data ResolveError : Type 0 where
  name_error : NameMismatch → ResolveError
  dependency_error : DependencyError → ResolveError
  value_from_error : ValueFromError → ResolveError
  template_error : TemplateError → ResolveError
  quota_error : QuotaError → ResolveError
  alias_error : AliasError → ResolveError
  policy_error : PolicyError → ResolveError

-- The body of the loop over the applications.
unfoldable pub application_errors : Parser → ManifestSet → ApplicationManifest → List ResolveError
unfolding resolve_dependencies validate_env_templates app_consumer
application_errors parse set app =
    map dependency_error (resolve_dependencies set (app_consumer app) app.spec.dependencies)
    ++ (map value_from_error (validate_env_value_from set app.spec.env)
        ++ map template_error (validate_env_templates parse app))

-- The body of the loop over the resources.
unfoldable pub resource_errors : Parser → ManifestSet → ResourceManifest → List ResolveError
unfolding resolve_dependencies validate_templates validate_resource_env_templates resource_consumer
resource_errors parse set res =
    map dependency_error (resolve_dependencies set (resource_consumer res) res.spec.dependencies)
    ++ (map value_from_error (validate_env_value_from set res.spec.env)
        ++ (map template_error (validate_templates parse res)
            ++ map template_error (validate_resource_env_templates parse res)))

unfoldable pub all_application_errors :
    Parser → ManifestSet → List (String × ApplicationManifest) → List ResolveError
unfolding application_errors
all_application_errors parse set [] = []
all_application_errors parse set ((n, app) ∷ apps) =
    application_errors parse set app ++ all_application_errors parse set apps

unfoldable pub all_resource_errors :
    Parser → ManifestSet → List (String × ResourceManifest) → List ResolveError
unfolding resource_errors
all_resource_errors parse set [] = []
all_resource_errors parse set ((n, res) ∷ rs) =
    resource_errors parse set res ++ all_resource_errors parse set rs

unfoldable pub resolve :
    Parser → (String → Option TeamManifest) → ManifestSet → List RegistryConfig → List ResolveError
unfolding validate_unique_names all_application_errors all_resource_errors enforce_quota count_apps
    count_resources allowed_resource_types validate_image_policies
resolve parse load set registries =
    let (cache, quota_errors) =
      enforce_quota load (count_apps set.applications []) (count_resources set.resources []) in
    map name_error (validate_unique_names set)
    ++ (all_application_errors parse set set.applications
        ++ (all_resource_errors parse set set.resources
            ++ (map quota_error quota_errors
                ++ (map quota_error (allowed_resource_types set.resources cache)
                    ++ (map alias_error (validate_registry_images set registries)
                        ++ map policy_error (validate_image_policies set))))))
