-- ===== src/Planner/Examples.antt =====
-- A blog that reads from a database: the planner on them, and the theorems at them.
use shrine.Prelude.{
  All, List, String, [], after, before, dec_str, eq_int, eq_pair, eq_str, false, insert, keep,
  lookup, mem, none, pos, refl, some, sort_by, split, ◌↔◌, ◌∷◌, ◌≡◌, ◌⊎◌,
}
use shrine.Manifest.{ApplicationManifest, Dependency, EnvVar, Manifest, ResourceManifest}
use shrine.Manifest.Validate.Examples.{blog, db_spec}
use shrine.Topo.{topo_sort}
use shrine.Planner.Loader.{ManifestSet, new_manifest_set, merged, merge_manifest, merge_all}
use shrine.Planner.Loader.Loaded.{IsLoaded, merge_all-IsLoaded}
use shrine.Planner.Order.{PlannedStep, steps, dependency_cycle, dep_graph, dep_set, order}
use shrine.Planner.Order.Keys.{IsKind}
use shrine.Planner.Order.Nodes.{IsNamed, has_manifest}
use shrine.Planner.Order.Steps.{
  OnceEach, BehindDeps, has_step, order-OnceEach, order-BehindDeps, order_total,
}
use shrine.Topo.Correct.{IsCyclic}
use shrine.Planner.Enrich.{
  chain_enrich, enriched, copy_manifest_set_shallow, inferred, parse_resource_ref,
  parse_value_from_ref, infer_consumer_deps, application_view, value_from_resource, InferredEdge,
  has_explicit_dependency,
}
use shrine.Planner.Resolve.{app_consumer, resolve_dependencies}
use shrine.Planner.Resolve.Access.{IsResolved, resolve_dependencies_iff}
use shrine.Planner.HostPorts.{PortContext, detect_host_port_collisions}
use shrine.Planner.HostPorts.Explicit.{ArePortsFree, detect_host_port_collisions_iff}
use shrine.Planner.Plan.Sourced.{BehindSources, order-BehindSources}
use shrine.Planner.Enrich.Chain.{IsEnrichedSet, chain_enrich-IsEnrichedSet}
use shrine.Planner.Policy.{validate_image_policies}
use shrine.Planner.Policy.Effective.{IsUnpinnedImage, IsVersioned, validate_image_policies_iff}

abbrev pub db : ResourceManifest
db = record {
  type_meta = record { api_version = "shrine/v1"; kind = "Resource" };
  metadata = record { resource_id = ""; name = "db"; owner = "me"; access = [] };
  spec = db_spec;
}

abbrev on_db : Dependency
on_db = record { kind = "Resource"; name = "db"; owner = "me" }

abbrev db_host : EnvVar
db_host = record {
  name = "DB_HOST";
  value = "";
  value_from = "resource.db.host";
  template = "";
  generated = false;
}

abbrev pub reader : ApplicationManifest
reader = record blog { spec = record blog.spec { dependencies = []; env = db_host ∷ [] } }

abbrev pub client : ApplicationManifest
client = record blog { spec = record blog.spec { dependencies = on_db ∷ [] } }

abbrev pub home : ManifestSet
home = record {
  applications = ("blog", client) ∷ [];
  resources = ("db", db) ∷ [];
  pull_policy_sources = [];
}

abbrev client_file : Manifest
client_file = record {
  type_meta = client.type_meta;
  resource = none;
  application = some client;
  team = none;
}

abbrev db_file : Manifest
db_file = record { type_meta = db.type_meta; resource = some db; application = none; team = none }

home-merged : merge_all new_manifest_set (client_file ∷ db_file ∷ []) ≡ merged home
unfolding merge_all merge_manifest new_manifest_set dec_str lookup insert
home-merged = refl

pub home-IsNamed : IsNamed home
unfolding mem
home-IsNamed = record { apps_once = (refl, tt); resources_once = (refl, tt) }

merge_all-IsLoaded_example : IsLoaded home (client_file ∷ db_file ∷ [])
merge_all-IsLoaded_example = merge_all-IsLoaded (client_file ∷ db_file ∷ []) home home-merged

blog-merged :
    merge_manifest new_manifest_set client_file
    ≡ merged (record new_manifest_set { applications = ("blog", client) ∷ [] })
unfolding merge_manifest new_manifest_set dec_str lookup insert
blog-merged = refl

abbrev pub home_steps : List PlannedStep
home_steps =
    record { kind = "Resource"; name = "db" } ∷ record { kind = "Application"; name = "blog" } ∷ []

home-ordered : order home ≡ steps home_steps
unfolding order topo_sort dep_set keep mem lookup sort_by dec_str before after
home-ordered = refl

order-OnceEach_example :
    OnceEach home_steps
    × ((kind name : String)
        → IsKind kind
        → has_step kind name home_steps ≡ has_manifest home kind name)
order-OnceEach_example = order-OnceEach home home_steps home-IsNamed home-ordered

order-BehindDeps_example : BehindDeps home [] home_steps
order-BehindDeps_example = order-BehindDeps home home_steps home-IsNamed home-ordered

order_total_example :
    ((xs : List PlannedStep) × (order home ≡ steps xs))
    ⊎ ((stuck bad : List String) × (order home ≡ dependency_cycle stuck)
        × IsCyclic (dep_graph home) bad)
order_total_example = order_total home home-IsNamed

abbrev pub db_edge : InferredEdge
db_edge = record {
  consumer = record { kind = "Application"; name = "blog"; owner = "me" };
  target = record { kind = "Resource"; name = "db"; owner = "me" };
  env_var = "DB_HOST";
}

reader-inferred :
    infer_consumer_deps (value_from_resource home) (application_view reader)
    ≡ inferred (on_db ∷ []) (db_edge ∷ [])
unfolding infer_consumer_deps application_view dec_str parse_resource_ref parse_value_from_ref
    has_explicit_dependency mem lookup
reader-inferred = refl

-- The set in which the blog only refers to the database.
abbrev pub referring : ManifestSet
referring = record home { applications = ("blog", reader) ∷ [] }

abbrev pub enriched_home : ManifestSet
enriched_home = record home {
  applications =
      ("blog", record reader { spec = record reader.spec { dependencies = on_db ∷ [] } }) ∷ [];
}

referring-enriched : chain_enrich referring ≡ enriched enriched_home (db_edge ∷ [])
unfolding chain_enrich copy_manifest_set_shallow infer_consumer_deps has_explicit_dependency dec_str
    split lookup shrine.Planner.Enrich.sorted_keys sort_by parse_resource_ref parse_value_from_ref
    mem insert shrine.Planner.Enrich.parse_application_ref
referring-enriched = refl

referring-IsNamed : IsNamed referring
unfolding mem
referring-IsNamed = record { apps_once = (refl, tt); resources_once = (refl, tt) }

chain_enrich-IsEnrichedSet_example : IsEnrichedSet referring enriched_home
chain_enrich-IsEnrichedSet_example =
    chain_enrich-IsEnrichedSet referring enriched_home (db_edge ∷ []) referring-IsNamed.apps_once
      referring-IsNamed.resources_once referring-enriched

enriched-ordered : order enriched_home ≡ steps home_steps
unfolding order topo_sort dep_set keep mem lookup sort_by dec_str before after
enriched-ordered = refl

order-BehindSources_example : BehindSources enriched_home [] home_steps
order-BehindSources_example =
    order-BehindSources referring enriched_home (db_edge ∷ []) home_steps referring-IsNamed
      referring-enriched enriched-ordered

validate_image_policies_iff_example :
    (validate_image_policies home ≡ [])
    ↔ (All (λ r. IsUnpinnedImage r.1) home.applications × All (λ r. IsVersioned r.1) home.resources)
validate_image_policies_iff_example = validate_image_policies_iff home

resolve_dependencies_iff_example :
    (resolve_dependencies home (app_consumer client) (on_db ∷ []) ≡ [])
    ↔ All (IsResolved home (app_consumer client)) (on_db ∷ [])
resolve_dependencies_iff_example = resolve_dependencies_iff home (app_consumer client) (on_db ∷ [])

abbrev known_ports : PortContext
known_ports = record { reserved = pos 80 ∷ []; persisted = ("me/blog", pos 8080) ∷ [] }

detect_host_port_collisions_iff_example :
    (detect_host_port_collisions (λ e. "") home known_ports ≡ []) ↔ ArePortsFree home known_ports
unfolding mem
detect_host_port_collisions_iff_example =
    detect_host_port_collisions_iff (λ e. "") home known_ports (refl, tt)
