-- ===== src/Manifest/Validate/Exports.antt =====
-- When the loops over the outputs and over the routing aliases report nothing.
use shrine.Prelude.{
  All, List, Nodup, NodupFrom, NodupFrom-nil_iff, String, [], arith, eq_int, eq_pair, eq_str, false,
  has_prefix, map, mem, not, refl, true, ℕ, ◌+◌, ◌==◌, ◌||◌, ◌↔◌, ◌∷◌, ◌≡◌, ◌⊎◌,
}
use shrine.Manifest.{Output, RoutingAlias, Routing}
use shrine.Manifest.Validate.{
  validate_resource_outputs, has_invalid_chars, normalize_path_prefix, validate_alias_path,
  route_of, validate_alias_list, validate_aliases, validate_routing_aliases,
}

-- An output has a name, none of the fields that moved to the env, and a template or a declared name.
pub record IsOutput (names : List String) (o : Output) : Type 0 where
  pub named : (o.name == "") ≡ false
  pub migrated : (not (o.value == "") || o.generated || not (o.value_from == "")) ≡ false
  pub backed :
      ((o.template == "") ≡ false)
      ⊎ ((mem o.name names || o.name == "host" || o.name == "port") ≡ true)

abbrev pub output_names : List Output → List String
output_names = map (λ o. o.name)

pub outputs_iff :
    (i : ℕ) (os : List Output) (names seen : List String)
    → (validate_resource_outputs i os names seen ≡ [])
      ↔ (All (IsOutput names) os × NodupFrom seen (output_names os))
unfolding validate_resource_outputs
outputs_iff i [] names seen = (λ h. (tt, tt), λ h. refl)
outputs_iff i (o ∷ os) names seen =
    let (sound, complete) = outputs_iff (i + 1) os names (o.name ∷ seen) in
    (
      λ h.
          let named : (o.name == "") ≡ false = ground arith in
          let (all, fresh) = sound (ground arith) in ((ground arith, all), (ground arith, fresh)),
      λ h. ground (arith, complete (h.0.1, h.1.1), h.0.0.named, h.0.0.migrated, h.0.0.backed),
    )

-- A path prefix that is empty, or rooted, more than slashes, and free of blanks.
abbrev pub IsAliasPath : String → Type 0
IsAliasPath prefix =
    ((prefix == "") ≡ true)
    ⊎ ((has_prefix prefix "/" ≡ true)
        × ((normalize_path_prefix prefix == "") ≡ false)
        × (has_invalid_chars prefix ≡ false))

pub record IsAlias (a : RoutingAlias) : Type 0 where
  pub hosted : (a.host == "") ≡ false
  pub printable : has_invalid_chars a.host ≡ false
  pub rooted : IsAliasPath a.path_prefix

IsAliasPath-iff :
    (i : ℕ) (prefix : String) → (validate_alias_path i prefix ≡ []) ↔ IsAliasPath prefix
unfolding validate_alias_path
IsAliasPath-iff i prefix = ground arith

abbrev pub routes : List RoutingAlias → List (String × String)
routes = map route_of

pub IsAlias-list_iff :
    (i : ℕ) (aliases : List RoutingAlias) (seen : List (String × String))
    → (validate_alias_list i aliases seen ≡ [])
      ↔ (All IsAlias aliases × NodupFrom seen (routes aliases))
unfolding validate_alias_list
IsAlias-list_iff i [] seen = (λ h. (tt, tt), λ h. refl)
IsAlias-list_iff i (a ∷ rest) seen =
    let (sound, complete) = IsAlias-list_iff (i + 1) rest (route_of a ∷ seen) in
    let (path_sound, path_complete) = IsAliasPath-iff i a.path_prefix in
    (
      λ h.
          let hosted : (a.host == "") ≡ false = ground arith in
          let (all, fresh) = sound (ground arith) in
          (
            (
              record {
                hosted = hosted;
                printable = ground arith;
                rooted = path_sound (ground arith);
              },
              all,
            ),
            (ground arith, fresh),
          ),
      λ h. ground (
        arith,
        complete (h.0.1, h.1.1),
        path_complete h.0.0.rooted,
        h.0.0.hosted,
        h.0.0.printable,
      ),
    )

abbrev pub domain_route : Routing → String × String
domain_route r = (r.domain, normalize_path_prefix r.path_prefix)

-- Without aliases nothing is checked; with aliases there is a domain, and no route is claimed
-- twice, that of the domain included.
abbrev pub IsRouting : Routing → List RoutingAlias → Type 0
IsRouting r [] = Unit {0}
IsRouting r (a ∷ rest) =
    ((r.domain == "") ≡ false) × All IsAlias (a ∷ rest) × Nodup (domain_route r ∷ routes (a ∷ rest))

aliases_iff :
    (r : Routing) (aliases : List RoutingAlias)
    → (validate_aliases r aliases ≡ []) ↔ IsRouting r aliases
unfolding validate_aliases mem
aliases_iff r [] = (λ h. tt, λ h. refl)
aliases_iff r (a ∷ rest) =
    let (sound, complete) = IsAlias-list_iff 0 (a ∷ rest) (domain_route r ∷ []) in
    let (from_empty, to_empty) = NodupFrom-nil_iff (domain_route r ∷ routes (a ∷ rest)) in
    (
      λ h.
          let domain : (r.domain == "") ≡ false = ground arith in
          let (all, fresh) = sound (ground arith) in (domain, all, from_empty (refl, fresh)),
      λ h. ground (arith, complete (h.1, (to_empty h.2).1), h.0),
    )

pub routing_iff : (r : Routing) → (validate_routing_aliases r ≡ []) ↔ IsRouting r r.aliases
unfolding validate_routing_aliases
routing_iff r = aliases_iff r r.aliases
