-- ===== src/Manifest/Validate.antt =====
-- internal/manifest/validate.go. A message is a constructor with the values that it prints; a Go
-- map that is only ever set to true is the list of its keys.
pub mod Fields
pub mod Exports
pub mod Accepts
pub mod Whole
pub mod Examples
use shrine.Prelude.{
  Bool, List, Option, String, [], code, concat, eq_int, eq_pair, eq_str, false, has_prefix,
  if◌then◌else◌, int_leb, int_ltb, is_some, ltb, mem, nat_eq, none, not, pos, some, suc, trim_right,
  true, ℕ, ℤ, ◌&&◌, ◌++◌, ◌+◌, ◌==◌, ◌||◌, ◌∷◌,
}
use shrine.Manifest.{
  application_kind, resource_kind, team_kind, is_known_pull_policy, Metadata, EnvVar, RoutingAlias,
  Routing, first_auto_host_port, last_auto_host_port, Publish, VolumeMount, ApplicationSpec, Output,
  ResourceSpec, TeamSpec, TypeMeta, Manifest,
}

pub data ValidationError : Type 0 where
  kind_required kind_unknown api_version_required : ValidationError
  name_required owner_required : ValidationError
  image_required port_not_positive : ValidationError
  env_name_required : ℕ → ValidationError
  env_generated : ℕ → String → ValidationError
  env_reserved_name : ℕ → String → ValidationError
  env_duplicate : String → ValidationError
  no_field_set : String → ℕ → String → String → ValidationError
  exclusive_fields : String → ℕ → String → String → ValidationError
  host_port_out_of_bounds host_port_in_auto_range : ℤ → ValidationError
  type_required publish_on_resource : ValidationError
  output_name_required : ℕ → ValidationError
  output_duplicate : String → ValidationError
  output_deprecated output_unmatched : ℕ → String → ValidationError
  aliases_without_domain : ValidationError
  alias_host_required : ℕ → ValidationError
  alias_host_invalid alias_path_not_rooted alias_path_invalid : ℕ → String → ValidationError
  alias_path_only_slash : ℕ → ValidationError
  duplicate_route : String → String → ℕ → ValidationError
  volume_name_required mount_path_required : ℕ → ValidationError
  volume_duplicate mount_path_duplicate : String → ValidationError
  mount_path_not_absolute : ℕ → String → ValidationError
  display_name_required contact_required : ValidationError
  pull_policy_unknown : ValidationError

-- `if b { errs = append(errs, e) }`
abbrev pub report {ℓ} : {E : Type ℓ} → Bool → E → List E
report true e = e ∷ []
report false e = []

pub validate_type_meta : TypeMeta → List ValidationError
validate_type_meta meta =
    (if meta.kind == ""
      then kind_required ∷ []
      else report
          (not (meta.kind == team_kind)
            && not (meta.kind == resource_kind)
            && not (meta.kind == application_kind))
          kind_unknown)
    ++ report (meta.api_version == "") api_version_required

pub validate_metadata_name : Metadata → List ValidationError
validate_metadata_name meta = report (meta.name == "") name_required

pub validate_metadata_with_owner : Metadata → List ValidationError
unfolding validate_metadata_name
validate_metadata_with_owner meta =
    validate_metadata_name meta ++ report (meta.owner == "") owner_required

pub validate_metadata : Manifest → List ValidationError
unfolding validate_metadata_with_owner
validate_metadata m = elim m.application [
  | some a ↦ validate_metadata_with_owner a.metadata
  | none ↦ elim m.resource [
    | some r ↦ validate_metadata_with_owner r.metadata
    | none ↦ elim m.team [ some t ↦ validate_metadata_name t.metadata | none ↦ [] ]
  ]
]

pub count_set : List Bool → ℕ
count_set [] = 0
count_set (b ∷ bs) = let rest = count_set bs in if b then suc rest else rest

pub validate_exclusive_fields : String → ℕ → String → String → ℕ → List ValidationError
validate_exclusive_fields path index name labels count =
    if nat_eq count 0
    then no_field_set path index name labels ∷ []
    else report (ltb 1 count) (exclusive_fields path index name labels)

-- The checks on the port that a `publish` block names.
pub validate_host_port : ℤ → List ValidationError
validate_host_port port =
    if port == pos 0
    then []
    else if int_ltb port (pos 1024) || int_ltb (pos 65535) port
    then host_port_out_of_bounds port ∷ []
    else report (int_leb (pos first_auto_host_port) port && int_leb port (pos last_auto_host_port))
        (host_port_in_auto_range port)

pub validate_publish : Option Publish → List ValidationError
unfolding validate_host_port
validate_publish none = []
validate_publish (some p) = validate_host_port p.host_port

pub validate_pull_policy : String → List ValidationError
validate_pull_policy policy =
    if policy == "" || is_known_pull_policy policy then [] else pull_policy_unknown ∷ []

-- The loop over spec.env of an Application; `i` is the index.
pub validate_application_env : ℕ → List EnvVar → List ValidationError
unfolding count_set validate_exclusive_fields
validate_application_env i [] = []
validate_application_env i (e ∷ es) =
    (if e.name == ""
      then env_name_required i ∷ []
      else report e.generated (env_generated i e.name)
        ++ validate_exclusive_fields "spec.env" i e.name "value/valueFrom/template" (
            count_set
              (not (e.value == "") ∷ not (e.value_from == "") ∷ not (e.template == "") ∷ [])))
    ++ validate_application_env (i + 1) es

pub reserved_builtin_names : String → Bool
reserved_builtin_names name = name == "host" || name == "port" || name == "team" || name == "name"

-- The errors, and the set `names` that the caller hands on to the outputs.
pub validate_resource_env : ℕ → List EnvVar → List String → List ValidationError × List String
unfolding count_set validate_exclusive_fields reserved_builtin_names
validate_resource_env i [] names = ([], names)
validate_resource_env i (e ∷ es) names =
    let unnamed = e.name == "" in
    let (errs, all) =
      validate_resource_env (i + 1) es (if unnamed then names else e.name ∷ names) in
    (
      (if unnamed
            then env_name_required i ∷ []
            else report (reserved_builtin_names e.name) (env_reserved_name i e.name)
              ++ (report (mem e.name names) (env_duplicate e.name)
                  ++ validate_exclusive_fields "spec.env" i e.name
                      "value/valueFrom/template/generated"
                      (count_set (
                        not (e.value == "")
                        ∷ not (e.value_from == "")
                        ∷ not (e.template == "")
                        ∷ e.generated
                        ∷ []))))
          ++ errs,
      all,
    )

pub validate_resource_outputs : ℕ → List Output → List String → List String → List ValidationError
validate_resource_outputs i [] env_names seen = []
validate_resource_outputs i (o ∷ os) env_names seen =
    (if o.name == ""
      then output_name_required i ∷ []
      else report (mem o.name seen) (output_duplicate o.name)
        ++ (if not (o.value == "") || o.generated || not (o.value_from == "")
            then output_deprecated i o.name ∷ []
            else report
                (o.template == ""
                  && not (mem o.name env_names || o.name == "host" || o.name == "port"))
                (output_unmatched i o.name)))
    ++ validate_resource_outputs (i + 1) os env_names (if o.name == "" then seen else o.name ∷ seen)

-- The runes ' ', below 0x20, and 0x7f.
pub has_invalid_chars : String → Bool
has_invalid_chars String.[] = false
has_invalid_chars (String.◌∷◌ r s) =
    nat_eq (code r) 0x20 || ltb (code r) 0x20 || nat_eq (code r) 0x7f || has_invalid_chars s

pub normalize_path_prefix : String → String
normalize_path_prefix p = trim_right b'/' p

-- What is wrong with the path prefix of an alias, if it has one.
pub validate_alias_path : ℕ → String → List ValidationError
unfolding has_invalid_chars normalize_path_prefix
validate_alias_path i prefix =
    if prefix == ""
    then []
    else if not (has_prefix prefix "/")
    then alias_path_not_rooted i prefix ∷ []
    else if normalize_path_prefix prefix == ""
    then alias_path_only_slash i ∷ []
    else report (has_invalid_chars prefix) (alias_path_invalid i prefix)

-- The key under which the loop over the aliases remembers a route.
abbrev pub route_of : RoutingAlias → String × String
route_of a = (a.host, normalize_path_prefix a.path_prefix)

pub validate_alias_list : ℕ → List RoutingAlias → List (String × String) → List ValidationError
unfolding validate_alias_path
validate_alias_list i [] seen = []
validate_alias_list i (a ∷ rest) seen =
    (if a.host == ""
      then alias_host_required i ∷ []
      else report (has_invalid_chars a.host) (alias_host_invalid i a.host)
        ++ (validate_alias_path i a.path_prefix
            ++ report (mem (route_of a) seen)
                (duplicate_route a.host (normalize_path_prefix a.path_prefix) i)))
    ++ validate_alias_list (i + 1) rest (if a.host == "" then seen else route_of a ∷ seen)

-- The checks on a list of aliases; none is made on an empty one.
pub validate_aliases : Routing → List RoutingAlias → List ValidationError
unfolding validate_alias_list
validate_aliases routing [] = []
validate_aliases routing (a ∷ rest) =
    report (routing.domain == "") aliases_without_domain
    ++ validate_alias_list 0 (a ∷ rest)
        ((routing.domain, normalize_path_prefix routing.path_prefix) ∷ [])

pub validate_routing_aliases : Routing → List ValidationError
unfolding validate_aliases
validate_routing_aliases routing = validate_aliases routing routing.aliases

-- The loop over spec.volumes, with the sets `names` and `paths`.
pub validate_volume_mounts : ℕ → List VolumeMount → List String → List String → List ValidationError
validate_volume_mounts i [] names paths = []
validate_volume_mounts i (m ∷ ms) names paths =
    (if m.name == ""
      then volume_name_required i ∷ []
      else report (mem m.name names) (volume_duplicate m.name)
        ++ (if m.mount_path == ""
            then mount_path_required i ∷ []
            else if not (has_prefix m.mount_path "/")
            then mount_path_not_absolute i m.mount_path ∷ []
            else report (mem m.mount_path paths) (mount_path_duplicate m.mount_path)))
    ++ validate_volume_mounts (i + 1) ms (if m.name == "" then names else m.name ∷ names)
        (if m.name == "" then paths else m.mount_path ∷ paths)

-- The errors of each check, in the order in which the code appends them.
abbrev pub application_checks : ApplicationSpec → List (List ValidationError)
application_checks spec =
    report (spec.image == "") image_required
    ∷ report (int_leb spec.port (pos 0)) port_not_positive
    ∷ validate_application_env 0 spec.env
    ∷ validate_routing_aliases spec.routing
    ∷ validate_publish spec.networking.publish
    ∷ validate_pull_policy spec.image_pull_policy
    ∷ validate_volume_mounts 0 spec.volumes [] []
    ∷ []

pub validate_application_spec : ApplicationSpec → List ValidationError
validate_application_spec spec = concat (application_checks spec)

abbrev pub resource_checks : ResourceSpec → List (List ValidationError)
resource_checks spec =
    let env = validate_resource_env 0 spec.env [] in
    report (spec.type == "") type_required
    ∷ report (is_some spec.networking.publish) publish_on_resource
    ∷ validate_pull_policy spec.image_pull_policy
    ∷ env.0
    ∷ validate_resource_outputs 0 spec.outputs env.1 []
    ∷ validate_volume_mounts 0 spec.volumes [] []
    ∷ []

pub validate_resource_spec : ResourceSpec → List ValidationError
validate_resource_spec spec = concat (resource_checks spec)

pub validate_team_spec : TeamSpec → List ValidationError
validate_team_spec spec =
    report (spec.display_name == "") display_name_required
    ++ report (spec.contact == "") contact_required

pub validate_spec : Manifest → List ValidationError
validate_spec m = elim m.application [
  | some a ↦ validate_application_spec a.spec
  | none ↦ elim m.resource [
    | some r ↦ validate_resource_spec r.spec
    | none ↦ elim m.team [ some t ↦ validate_team_spec t.spec | none ↦ [] ]
  ]
]

-- `nil`, or the error that joins the messages.
pub joined : List ValidationError → Option (List ValidationError)
joined [] = none
joined (e ∷ es) = some (e ∷ es)

pub validate : Manifest → Option (List ValidationError)
unfolding joined
validate m =
    joined (concat (validate_type_meta m.type_meta ∷ validate_metadata m ∷ validate_spec m ∷ []))
