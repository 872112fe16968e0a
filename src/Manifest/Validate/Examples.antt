-- ===== src/Manifest/Validate/Examples.antt =====
-- Manifests that the validator meets, and the theorems at them.
use shrine.Prelude.{
  String, [], dec_int, dec_pair, dec_str, eq_int, eq_pair, eq_str, false, has_prefix, mem, negsuc,
  none, pos, refl, some, trim_right, true, ◌↔◌, ◌∷◌, ◌≡◌,
}
use shrine.Manifest.{ApplicationSpec, ResourceSpec, ApplicationManifest, Manifest, EnvVar}
use shrine.Manifest.Validate.{
  validate_application_spec, validate_resource_spec, validate_publish, validate, validate_type_meta,
  validate_metadata, validate_spec, validate_application_env, validate_routing_aliases,
  validate_pull_policy, validate_volume_mounts, host_port_in_auto_range, host_port_out_of_bounds,
}
use shrine.Manifest.Validate.Fields.{IsPublish, publish_iff}
use shrine.Manifest.Validate.Accepts.{
  IsApplicationSpec, application_spec_iff, IsResourceSpec, resource_spec_iff,
}
use shrine.Manifest.Validate.Whole.{IsApplication, validate_application_iff}

abbrev plain_env : String → EnvVar
plain_env name = record {
  name = name;
  value = "1";
  value_from = "";
  template = "";
  generated = false;
}

abbrev pub blog_spec : ApplicationSpec
blog_spec = record {
  image = "ghcr.io/me/blog:1.2";
  port = pos 80;
  replicas = pos 1;
  routing = record {
    domain = "blog.home";
    path_prefix = "";
    aliases =
        record { host = "me.home"; path_prefix = "/blog/"; strip_prefix = none; tls = true } ∷ [];
  };
  dependencies = [];
  env = plain_env "MODE" ∷ [];
  networking = record {
    expose_to_platform = true;
    publish = some (record { host_port = pos 8080 });
  };
  volumes = record { name = "data"; mount_path = "/data" } ∷ [];
  image_pull_policy = "";
}

abbrev pub blog : ApplicationManifest
blog = record {
  type_meta = record { api_version = "shrine/v1"; kind = "Application" };
  metadata = record { resource_id = ""; name = "blog"; owner = "me"; access = [] };
  spec = blog_spec;
}

abbrev pub db_spec : ResourceSpec
db_spec = record {
  type = "postgres";
  version = "16";
  port = pos 5432;
  image = "postgres:16";
  dependencies = [];
  env = plain_env "POSTGRES_DB" ∷ [];
  outputs =
      record { name = "host"; template = ""; value = ""; generated = false; value_from = "" } ∷ [];
  networking = record { expose_to_platform = false; publish = none };
  volumes = [];
  image_pull_policy = "Pinned";
}

abbrev blog_file : Manifest
blog_file = record {
  type_meta = blog.type_meta;
  resource = none;
  application = some blog;
  team = none;
}

ports :
    (validate_publish (some (record { host_port = pos 30000 }))
      ≡ host_port_in_auto_range (pos 30000) ∷ [])
    × (validate_publish (some (record { host_port = negsuc 0 }))
        ≡ host_port_out_of_bounds (negsuc 0) ∷ [])
    × (validate_publish (some (record { host_port = pos 32768 })) ≡ [])
unfolding validate_publish dec_int
ports = (refl, refl, refl)

publish_iff_example :
    (validate_publish (some (record { host_port = pos 8080 })) ≡ [])
    ↔ IsPublish (some (record { host_port = pos 8080 }))
publish_iff_example = publish_iff (some (record { host_port = pos 8080 }))

application_spec_iff_example :
    (validate_application_spec blog_spec ≡ []) ↔ IsApplicationSpec blog_spec
application_spec_iff_example = application_spec_iff blog_spec

resource_spec_iff_example : (validate_resource_spec db_spec ≡ []) ↔ IsResourceSpec db_spec
resource_spec_iff_example = resource_spec_iff db_spec

validate_application_iff_example : (validate blog_file ≡ none) ↔ IsApplication blog_file blog
validate_application_iff_example = validate_application_iff blog_file blog refl

blog_accepted : validate blog_file ≡ none
unfolding validate validate_type_meta dec_str validate_metadata validate_spec
    validate_application_spec validate_application_env validate_routing_aliases has_prefix
    trim_right mem dec_pair validate_publish dec_int validate_pull_policy validate_volume_mounts
blog_accepted = refl
