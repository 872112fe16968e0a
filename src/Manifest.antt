-- ===== src/Manifest.antt =====
-- internal/manifest/types.go: the three kinds of manifest, with a Go pointer as an `Option` and a
-- Go `int` as an integer. The struct tags, which only yaml and json read, are left out.
pub mod Reference
pub mod Template
pub mod Validate
use shrine.Prelude.{Bool, List, Option, String, eq_int, eq_pair, eq_str, is_some, ℕ, ℤ, ◌==◌, ◌||◌}

abbrev pub application_kind : String
application_kind = "Application"

abbrev pub resource_kind : String
resource_kind = "Resource"

abbrev pub team_kind : String
team_kind = "Team"

abbrev pub image_pull_policy_always : String
image_pull_policy_always = "Always"

abbrev pub image_pull_policy_if_not_present : String
image_pull_policy_if_not_present = "IfNotPresent"

abbrev pub image_pull_policy_pinned : String
image_pull_policy_pinned = "Pinned"

unfoldable pub is_known_pull_policy : String → Bool
is_known_pull_policy policy =
    policy == image_pull_policy_always
    || policy == image_pull_policy_if_not_present
    || policy == image_pull_policy_pinned

unfoldable pub is_manifest_owned_policy : String → Bool
is_manifest_owned_policy policy =
    policy == image_pull_policy_always || policy == image_pull_policy_if_not_present

pub record Metadata : Type 0 where
  pub resource_id : String
  pub name : String
  pub owner : String
  pub access : List String

pub record Dependency : Type 0 where
  pub kind : String
  pub name : String
  pub owner : String

pub record EnvVar : Type 0 where
  pub name : String
  pub value : String
  pub value_from : String
  pub template : String
  pub generated : Bool

pub record RoutingAlias : Type 0 where
  pub host : String
  pub path_prefix : String
  pub strip_prefix : Option Bool
  pub tls : Bool

pub record Routing : Type 0 where
  pub domain : String
  pub path_prefix : String
  pub aliases : List RoutingAlias

abbrev pub first_auto_host_port : ℕ
first_auto_host_port = 30000

abbrev pub last_auto_host_port : ℕ
last_auto_host_port = 32767

pub record Publish : Type 0 where
  pub host_port : ℤ

pub record Networking : Type 0 where
  pub expose_to_platform : Bool
  pub publish : Option Publish

unfoldable pub should_attach_to_platform : Networking → Bool
should_attach_to_platform n = n.expose_to_platform || is_some n.publish

pub record VolumeMount : Type 0 where
  pub name : String
  pub mount_path : String

pub record ApplicationSpec : Type 0 where
  pub image : String
  pub port : ℤ
  pub replicas : ℤ
  pub routing : Routing
  pub dependencies : List Dependency
  pub env : List EnvVar
  pub networking : Networking
  pub volumes : List VolumeMount
  pub image_pull_policy : String

pub record Output : Type 0 where
  pub name : String
  pub template : String
  pub value : String
  pub generated : Bool
  pub value_from : String

pub record ResourceSpec : Type 0 where
  pub type : String
  pub version : String
  pub port : ℤ
  pub image : String
  pub dependencies : List Dependency
  pub env : List EnvVar
  pub outputs : List Output
  pub networking : Networking
  pub volumes : List VolumeMount
  pub image_pull_policy : String

pub record Quotas : Type 0 where
  pub max_apps : ℤ
  pub max_resources : ℤ
  pub allowed_resource_types : List String

pub record TeamSpec : Type 0 where
  pub display_name : String
  pub contact : String
  pub quotas : Quotas
  pub registry_user : String

pub record TypeMeta : Type 0 where
  pub api_version : String
  pub kind : String

pub record ApplicationManifest : Type 0 where
  pub type_meta : TypeMeta
  pub metadata : Metadata
  pub spec : ApplicationSpec

pub record ResourceManifest : Type 0 where
  pub type_meta : TypeMeta
  pub metadata : Metadata
  pub spec : ResourceSpec

pub record TeamManifest : Type 0 where
  pub type_meta : TypeMeta
  pub metadata : Metadata
  pub spec : TeamSpec

-- manifest.Manifest of internal/manifest/parser.go
pub record Manifest : Type 0 where
  pub type_meta : TypeMeta
  pub resource : Option ResourceManifest
  pub application : Option ApplicationManifest
  pub team : Option TeamManifest
