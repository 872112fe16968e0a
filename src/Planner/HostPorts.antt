-- ===== src/Planner/HostPorts.antt =====
-- internal/planner/hostports.go: explicit host ports that collide. `message`, which writes the text
-- of a collision, is a parameter: the texts are only sorted and joined.
pub mod Claims
pub mod Explicit
use shrine.Prelude.{
  List, Option, String, [], eq_int, eq_pair, eq_str, if◌then◌else◌, insert, int_leb, lookup, mem,
  none, pos, some, sort_by, str_ltb, ℤ, ◌++◌, ◌==◌, ◌∷◌,
}
use shrine.Manifest.{ApplicationManifest, Publish}
use shrine.State.HostPorts.{host_port_key}
use shrine.Planner.Loader.{ManifestSet}

pub record PortContext : Type 0 where
  pub reserved : List ℤ
  pub persisted : List (String × ℤ)

pub record Claim : Type 0 where
  pub ref : String
  pub port : ℤ

pub data PortConflict : Type 0 where
  port_collision : ℤ → String → String → PortConflict
  port_reserved : ℤ → String → PortConflict
  port_taken : ℤ → String → String → PortConflict

-- The claim of one application: none where it publishes nothing or asks for an automatic port.
unfoldable pub claim_of : ApplicationManifest → Option Publish → List Claim
claim_of app none = []
claim_of app (some publish) =
    if int_leb publish.host_port (pos 0)
    then []
    else record {
      ref = host_port_key app.metadata.owner app.metadata.name;
      port = publish.host_port;
    }
      ∷ []

unfoldable pub claims_of : List (String × ApplicationManifest) → List Claim
claims_of [] = []
claims_of ((n, app) ∷ apps) = claim_of app app.spec.networking.publish ++ claims_of apps

-- persistedHolder[p] = key, for each entry
unfoldable pub persisted_holders : List (String × ℤ) → List (ℤ × String) → List (ℤ × String)
unfolding insert
persisted_holders [] holders = holders
persisted_holders ((key, p) ∷ persisted) holders =
    persisted_holders persisted (insert p key holders)

unfoldable pub ordered_collision : ℤ → String → String → PortConflict
ordered_collision port prior ref =
    if str_ltb ref prior then port_collision port ref prior else port_collision port prior ref

-- Whether the first `if` of the loop finds a claim by another reference.
abbrev pub other_ref : String → Option String → Option String
other_ref ref none = none
other_ref ref (some prior) = if prior == ref then none else some prior

abbrev pub collision_errors : Claim → Option String → List PortConflict
collision_errors c none = []
collision_errors c (some prior) = ordered_collision c.port prior c.ref ∷ []

abbrev pub seen_after : Claim → Option String → List (ℤ × String) → List (ℤ × String)
seen_after c none seen = insert c.port c.ref seen
seen_after c (some prior) seen = seen

abbrev pub taken_errors : Claim → Option String → List PortConflict
taken_errors c none = []
taken_errors c (some holder) = port_taken c.port c.ref holder ∷ []

-- The loop over the claims.
scan_claims : List ℤ → List (ℤ × String) → List Claim → List (ℤ × String) → List PortConflict
unfolding ordered_collision
scan_claims reserved holders [] seen = []
scan_claims reserved holders (c ∷ claims) seen =
    let prior = other_ref c.ref (lookup c.port seen) in
    collision_errors c prior
    ++ ((if mem c.port reserved then port_reserved c.port c.ref ∷ [] else [])
        ++ (taken_errors c (other_ref c.ref (lookup c.port holders))
            ++ scan_claims reserved holders claims (seen_after c prior seen)))

unfoldable pub detect_host_port_collisions :
    (PortConflict → String) → ManifestSet → PortContext → List PortConflict
unfolding claims_of persisted_holders scan_claims
detect_host_port_collisions message set ports = sort_by message (
    scan_claims ports.reserved (persisted_holders ports.persisted [])
      (sort_by (λ c. c.ref) (claims_of set.applications)) [])
