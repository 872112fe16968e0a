-- ===== src/Engine/Requests.antt =====
-- internal/engine/engine.go: what the engine asks the backends for, from the manifests.
use shrine.Prelude.{
  Bool, List, Option, String, [], eq_int, eq_pair, eq_str, keys, lookup, none, not, some,
  sort_strings, trim_right, ℤ, ◌==◌, ◌∷◌, ◌⊕◌,
}
use shrine.Manifest.{
  ApplicationManifest, Publish, ResourceManifest, RoutingAlias, VolumeMount as ManifestVolume,
  application_kind, resource_kind, should_attach_to_platform,
}
use shrine.Manifest.Reference.{effective_pull_policy}
use shrine.Engine.{
  AliasRoute, CreateContainerOp, Env, PublishPort, ResolvedImage, VolumeMount, WriteRecordOp,
  WriteRouteOp,
}

-- flattenEnv over keys that are sorted
unfoldable pub flatten_keys : Env → List String → List String
flatten_keys env [] = []
flatten_keys env (k ∷ ks) = elim (lookup k env) [
  | none ↦ (k ⊕ "=") ∷ flatten_keys env ks
  | some v ↦ (k ⊕ ("=" ⊕ v)) ∷ flatten_keys env ks
]

unfoldable pub flatten_env : Env → List String
unfolding flatten_keys
flatten_env env = flatten_keys env (sort_strings (keys env))

unfoldable pub volumes_of : List ManifestVolume → List VolumeMount
volumes_of [] = []
volumes_of (v ∷ vs) = record { name = v.name; mount_path = v.mount_path } ∷ volumes_of vs

abbrev strip_or_default : String → Option Bool → Bool
strip_or_default prefix none = not (prefix == "")
strip_or_default prefix (some strip) = strip

unfoldable pub resolve_alias_routes : List RoutingAlias → List AliasRoute
unfolding trim_right
resolve_alias_routes [] = []
resolve_alias_routes (a ∷ aliases) =
    let prefix = trim_right b'/' a.path_prefix in
    record {
      host = a.host;
      path_prefix = prefix;
      strip_prefix = strip_or_default prefix a.strip_prefix;
      tls = a.tls;
    }
    ∷ resolve_alias_routes aliases

unfoldable pub resource_op : ResourceManifest → Env → ResolvedImage → CreateContainerOp
unfolding flatten_env volumes_of
resource_op res env image = record {
  team = res.metadata.owner;
  name = res.metadata.name;
  kind = resource_kind;
  image = res.spec.image;
  resolved_ref = image.ref;
  image_id = image.image_id;
  network = res.metadata.owner;
  env = flatten_env env;
  volumes = volumes_of res.spec.volumes;
  expose_to_platform = res.spec.networking.expose_to_platform;
  image_pull_policy = effective_pull_policy res.spec.image res.spec.image_pull_policy;
  restart_policy = "";
  bind_mounts = [];
  port_bindings = [];
  publish = none;
}

abbrev publish_port : ℤ → Option Publish → Option PublishPort
publish_port port none = none
publish_port port (some publish) =
    some (record { host_port = publish.host_port; container_port = port })

unfoldable pub application_op : ApplicationManifest → Env → ResolvedImage → CreateContainerOp
unfolding flatten_env volumes_of
application_op app env image = record {
  team = app.metadata.owner;
  name = app.metadata.name;
  kind = application_kind;
  image = app.spec.image;
  resolved_ref = image.ref;
  image_id = image.image_id;
  network = app.metadata.owner;
  env = flatten_env env;
  volumes = volumes_of app.spec.volumes;
  expose_to_platform = should_attach_to_platform app.spec.networking;
  image_pull_policy = effective_pull_policy app.spec.image app.spec.image_pull_policy;
  restart_policy = "";
  bind_mounts = [];
  port_bindings = [];
  publish = publish_port app.spec.port app.spec.networking.publish;
}

unfoldable pub route_op : ApplicationManifest → WriteRouteOp
unfolding resolve_alias_routes
route_op app = record {
  team = app.metadata.owner;
  domain = app.spec.routing.domain;
  service_name = app.metadata.name;
  service_port = app.spec.port;
  path_prefix = app.spec.routing.path_prefix;
  additional_routes = resolve_alias_routes app.spec.routing.aliases;
}

unfoldable pub record_op : ApplicationManifest → WriteRecordOp
record_op app = record {
  team = app.metadata.owner;
  name = app.spec.routing.domain;
  record_type = "A";
  value = "[IP_ADDRESS]";
}
