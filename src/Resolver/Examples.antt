-- ===== src/Resolver/Examples.antt =====
-- The promises at a small resource. The template engine here takes the text of a template for the
-- name of the one field that it prints.
use shrine.Prelude.{
  Option, String, [], dec_int, dec_str, eq_int, eq_pair, eq_str, insert, lookup, none, refl, some,
  true, ◌↔◌, ◌∷◌, ◌≡◌,
}
use shrine.Manifest.Template.{
  Node, extract_field_refs, extract_field_refs-fault_iff, field_node, has_nil_list, if_node,
  list_node, nil_list, no_nodes,
}
use shrine.Planner.Examples.{db}
use shrine.Resolver.{
  Env, Reply, ResolvedDependencies, ResolvedResource, Stores, TemplateEngine, ok, refusal, reply,
}
use shrine.Resolver.Filling.{fill, put_slot, resolve_env, with_templates}
use shrine.Resolver.Exports.{compute_exports, export_each, export_one, plain_output}
use shrine.Resolver.Live.{port_text, live_resolve_resource, resolve_resource_env, resource_slot}
use shrine.Resolver.DryRun.{dry_resolve_resource, dry_resource_slot, dry_value_from}
use shrine.Resolver.Promises.{
  HasInterface, SameKeys, dry_resolve_resource-SameKeys, live_resolve_resource-HasInterface,
}

abbrev field_value : Option String → Reply String
field_value none = refusal "no such field"
field_value (some v) = reply v

abbrev print_field : Option Node → Env → Reply String
print_field (some (field_node (x ∷ xs))) ctx = field_value (lookup x ctx)
print_field _ ctx = refusal "not a field"

abbrev printer : TemplateEngine
printer = record { parse = λ src. reply (some (field_node (src ∷ []))); execute = print_field }

abbrev copies : Env
copies = ("b", "a") ∷ ("a", "host") ∷ []

abbrev given : Env
given = ("host", "me.db") ∷ []

abbrev rendered : Env
rendered = ("a", "me.db") ∷ ("b", "me.db") ∷ []

extract_field_refs-fault_iff_example :
    (extract_field_refs (some (if_node (field_node ("tls" ∷ [])) (list_node no_nodes) nil_list))
      ≡ none)
    ↔ (has_nil_list (if_node (field_node ("tls" ∷ [])) (list_node no_nodes) nil_list) ≡ true)
extract_field_refs-fault_iff_example =
    extract_field_refs-fault_iff (if_node (field_node ("tls" ∷ [])) (list_node no_nodes) nil_list)

abbrev no_stores : Stores
no_stores = record { secret = λ team key n. refusal "no store"; vault = none }

abbrev nothing_resolved : ResolvedDependencies
nothing_resolved = record { resources = []; applications = [] }

abbrev live_db : ResolvedResource
live_db = record { env = ("POSTGRES_DB", "1") ∷ []; exports = ("host", "me.db") ∷ [] }

db-resolved : live_resolve_resource printer no_stores db nothing_resolved ≡ ok live_db
unfolding live_resolve_resource resolve_resource_env resource_slot resolve_env fill put_slot
    with_templates port_text compute_exports export_each export_one plain_output dec_str dec_int
    lookup insert
db-resolved = refl

live_resolve_resource-HasInterface_example : HasInterface db live_db
live_resolve_resource-HasInterface_example =
    live_resolve_resource-HasInterface printer no_stores db nothing_resolved live_db db-resolved

db-dry : dry_resolve_resource printer db nothing_resolved ≡ ok live_db
unfolding dry_resolve_resource dry_resource_slot dry_value_from resolve_env fill put_slot
    with_templates compute_exports export_each export_one plain_output dec_str lookup insert
db-dry = refl

dry_resolve_resource-SameKeys_example :
    SameKeys live_db.env live_db.env × SameKeys live_db.exports live_db.exports
dry_resolve_resource-SameKeys_example =
    dry_resolve_resource-SameKeys printer no_stores db nothing_resolved nothing_resolved live_db
      live_db db-resolved db-dry
