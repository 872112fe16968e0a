-- ===== src/Planner/Plan/Examples.antt =====
-- The plan of a blog that takes a variable from a database.
use shrine.Prelude.{
  List, String, [], after, before, dec_int, dec_pair, dec_str, eq_int, eq_pair, eq_str, has_prefix,
  insert, keep, lookup, mem, pos, refl, some, sort_by, split, ◌∷◌, ◌≡◌,
}
use shrine.Manifest.{TeamManifest, ResourceManifest}
use shrine.Manifest.Reference.{effective_pull_policy_with_default}
use shrine.Topo.{topo_sort}
use shrine.Planner.Examples.{db, db_edge, enriched_home, home_steps, referring}
use shrine.Planner.Loader.{ManifestSet}
use shrine.Planner.Filter.{no_filter, by_team}
use shrine.Planner.Order.{order, dep_set}
use shrine.Planner.Order.Nodes.{IsNamed}
use shrine.Planner.Enrich.{chain_enrich, parse_resource_ref, parse_value_from_ref}
use shrine.Planner.Collisions.{ref_to_app, detect_routing_collisions}
use shrine.Planner.HostPorts.{detect_host_port_collisions}
use shrine.Resolver.{refusal}
use shrine.Planner.Resolve.References.{validate_registry_images, validate_env_value_from}
use shrine.Planner.Plan.Compose.{PlanContext, plan, planned}
use shrine.Planner.Plan.Team.{IsTeamPlan, plan-IsTeamPlan}
use shrine.Planner.Plan.{step_owner, filter_steps_by_owner}
use shrine.Planner.Policy.{apply_effective_pull_policy}

abbrev me : TeamManifest
me = record {
  type_meta = record { api_version = "shrine/v1"; kind = "Team" };
  metadata = record { resource_id = ""; name = "me"; owner = ""; access = [] };
  spec = record {
    display_name = "Me";
    contact = "";
    quotas = record { max_apps = pos 1; max_resources = pos 0; allowed_resource_types = [] };
    registry_user = "";
  };
}

-- No templates, one team, and nothing of the gateway.
abbrev pub here : PlanContext
here = record {
  parse = λ src. refusal "no template";
  load_team = λ name. some me;
  registries = [];
  ports = record { reserved = []; persisted = [] };
  port_message = λ c. "";
  route_message = λ c. "";
}

-- The database with a version that the manifest owns.
abbrev kept_resources : List (String × ResourceManifest)
kept_resources =
    ("db", record db { spec = record db.spec { image_pull_policy = "IfNotPresent" } }) ∷ []

abbrev pub versioned : ManifestSet
versioned = record referring { resources = kept_resources }

pub versioned-IsNamed : IsNamed versioned
unfolding mem
versioned-IsNamed = record { apps_once = (refl, tt); resources_once = (refl, tt) }

abbrev pub planned_home : ManifestSet
planned_home =
    record (apply_effective_pull_policy (record enriched_home { resources = kept_resources }) "") {
      pull_policy_sources = [];
    }

pub home-planned : plan here versioned no_filter "" ≡ planned home_steps planned_home (db_edge ∷ [])
unfolding plan no_filter apply_effective_pull_policy validate_registry_images
    validate_env_value_from detect_routing_collisions detect_host_port_collisions dec_str dec_int
    lookup insert mem sort_by keep split has_prefix shrine.Planner.Filter.validate_kind
    shrine.Planner.Resolve.application_names shrine.Planner.Resolve.resource_names
    shrine.Topo.add_to_set shrine.Planner.Resolve.exceeds
    shrine.Planner.Policy.application_policy_errors effective_pull_policy_with_default
    shrine.Manifest.Reference.is_digest_reference shrine.Manifest.Reference.tag_of
    shrine.Manifest.Reference.tag_of_undigested shrine.Planner.Policy.resource_policy_errors
    shrine.Planner.Policy.validate_resource_version shrine.Manifest.is_manifest_owned_policy
    chain_enrich shrine.Planner.Enrich.sorted_keys parse_resource_ref parse_value_from_ref
    shrine.Planner.Enrich.parse_application_ref shrine.Planner.HostPorts.claim_of ref_to_app
    shrine.Prelude.dec_pair topo_sort dep_set after order before
home-planned = refl

team-planned :
    plan here versioned (by_team "me") "" ≡ planned home_steps planned_home (db_edge ∷ [])
unfolding plan by_team step_owner filter_steps_by_owner shrine.Planner.Filter.has_owner
    shrine.Planner.Filter.apps_have_owner apply_effective_pull_policy validate_registry_images
    validate_env_value_from detect_routing_collisions detect_host_port_collisions dec_str dec_int
    lookup insert mem sort_by keep split has_prefix shrine.Planner.Filter.validate_kind
    shrine.Planner.Resolve.application_names shrine.Planner.Resolve.resource_names
    shrine.Topo.add_to_set shrine.Planner.Resolve.exceeds
    shrine.Planner.Policy.application_policy_errors effective_pull_policy_with_default
    shrine.Manifest.Reference.is_digest_reference shrine.Manifest.Reference.tag_of
    shrine.Manifest.Reference.tag_of_undigested shrine.Planner.Policy.resource_policy_errors
    shrine.Planner.Policy.validate_resource_version shrine.Manifest.is_manifest_owned_policy
    chain_enrich shrine.Planner.Enrich.sorted_keys parse_resource_ref parse_value_from_ref
    shrine.Planner.Enrich.parse_application_ref shrine.Planner.HostPorts.claim_of ref_to_app
    shrine.Prelude.dec_pair topo_sort dep_set after order before shrine.Planner.Filter.named
team-planned = refl

plan-IsTeamPlan_example : IsTeamPlan versioned "" "me" planned_home home_steps
unfolding by_team
plan-IsTeamPlan_example =
    plan-IsTeamPlan here versioned planned_home (by_team "me") "" home_steps (db_edge ∷ [])
      versioned-IsNamed refl team-planned
