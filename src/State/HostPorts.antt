-- ===== src/State/HostPorts.antt =====
-- internal/state/local/hostports.go: which workload holds which port of the host. The outcome of
-- the write of `save`, which the file system decides, is an argument of each operation that writes:
-- true when the file is written.
pub mod Ports
pub mod Invariant
pub mod Rollback
pub mod Entries
pub mod Keeps
pub mod Promises
pub mod Undone
mod Examples
use shrine.Prelude.{
  Bool, List, Option, String, [], delete, eq_int, eq_pair, eq_str, false, has_prefix, if◌then◌else◌,
  insert, keep, lookup, mem, none, pos, some, suc, true, without, zero, ℕ, ℤ, ◌-◌, ◌==◌, ◌∷◌, ◌⊕◌,
}
use shrine.Manifest.{first_auto_host_port, last_auto_host_port}

-- The Go sets `reserved` and `taken` as lists of their members.
pub record HostPortStore : Type 0 where
  pub reserved : List ℤ
  pub ports : List (String × ℤ)
  pub taken : List ℤ

-- state.HostPortKey
abbrev pub host_port_key : String → String → String
host_port_key team app = team ⊕ "/" ⊕ app

-- s[p] = struct{}{}
unfoldable pub add_port : ℤ → List ℤ → List ℤ
add_port p ps = if mem p ps then ps else p ∷ ps

unfoldable pub add_ports : List ℤ → List ℤ → List ℤ
add_ports [] ps = ps
add_ports (p ∷ more) ps = add_ports more (add_port p ps)

-- newHostPortStoreWithFileOps, for a file that is not there.
pub new_store : List ℤ → HostPortStore
unfolding add_ports
new_store reserved =
    let set = add_ports reserved [] in record { reserved = set; ports = []; taken = set }

-- The assignments of `load`, over the lines that parse, as the key and the port of each.
pub load : List (String × ℤ) → HostPortStore → HostPortStore
unfolding insert add_port
load [] s = s
load ((key, port) ∷ lines) s =
    load lines (record s { ports = insert key port s.ports; taken = add_port port s.taken })

-- s.ports[key] = port; s.taken[port] = struct{}{}
unfoldable pub put : String → ℤ → HostPortStore → HostPortStore
put key port s = record s { ports = insert key port s.ports; taken = add_port port s.taken }

-- delete(s.ports, key); delete(s.taken, port)
unfoldable pub drop : String → ℤ → HostPortStore → HostPortStore
drop key port s = record s { ports = delete key s.ports; taken = without port s.taken }

pub data PortResult : Type 0 where
  port_ok : ℤ → PortResult
  not_saved : PortResult
  no_available_host_ports : PortResult

pub data ClaimResult : Type 0 where
  claimed : ClaimResult
  reserved_by_gateway : ClaimResult
  held_by : String → ClaimResult
  claim_not_saved : ClaimResult

-- The loop over the ports of the automatic range; `count` ports are left, from `port` on.
unfoldable pub first_free : ℕ → ℕ → List ℤ → Option ℕ
first_free zero port taken = none
first_free (suc count) port taken =
    let rest = first_free count (suc port) taken in if mem (pos port) taken then rest else some port

abbrev pub auto_host_ports : ℕ
auto_host_ports = suc last_auto_host_port - first_auto_host_port

-- What the loop does with a port that it finds.
pub allocate_at : Bool → String → Option ℕ → HostPortStore → HostPortStore × PortResult
unfolding put drop
allocate_at saved key none s = (s, no_available_host_ports)
allocate_at true key (some port) s = (put key (pos port) s, port_ok (pos port))
allocate_at false key (some port) s = (drop key (pos port) (put key (pos port) s), not_saved)

-- AllocateHostPort, for the key of the team and the app
pub allocate_key : Bool → String → HostPortStore → HostPortStore × PortResult
unfolding allocate_at first_free
allocate_key saved key s = elim (lookup key s.ports) [
  | some port ↦ (s, port_ok port)
  | none ↦ allocate_at saved key (first_free auto_host_ports first_auto_host_port s.taken) s
]

unfoldable pub allocate_host_port :
    Bool → String → String → HostPortStore → HostPortStore × PortResult
unfolding allocate_key
allocate_host_port saved team app s = allocate_key saved (host_port_key team app) s

unfoldable pub holder_of : ℤ → List (String × ℤ) → Option String
holder_of port [] = none
holder_of port ((key, p) ∷ ports) =
    let rest = holder_of port ports in if p == port then some key else rest

-- The writes of ClaimHostPort and, when the file is not written, their undoing.
pub claim_at : Bool → String → ℤ → Option ℤ → HostPortStore → HostPortStore × ClaimResult
unfolding put
claim_at true key port none s = (put key port s, claimed)
claim_at true key port (some previous) s =
    let next = put key port s in (record next { taken = without previous next.taken }, claimed)
claim_at false key port none s =
    let next = put key port s in
    (
      record next { taken = without port next.taken; ports = delete key next.ports },
      claim_not_saved,
    )
claim_at false key port (some previous) s =
    let next = put key port s in
    let gone = without port (without previous next.taken) in
    (
      record next { taken = add_port previous gone; ports = insert key previous next.ports },
      claim_not_saved,
    )

-- holder, held := s.holderOf(port); held && holder != key
abbrev pub other_holder : String → Option String → Option String
other_holder key none = none
other_holder key (some holder) = if holder == key then none else some holder

pub claim_free : Bool → String → ℤ → HostPortStore → HostPortStore × ClaimResult
unfolding claim_at holder_of
claim_free saved key port s =
    if mem port s.reserved
    then (s, reserved_by_gateway)
    else elim (other_holder key (holder_of port s.ports)) [
      | some holder ↦ (s, held_by holder)
      | none ↦ claim_at saved key port (lookup key s.ports) s
    ]

abbrev pub holds : Option ℤ → ℤ → Bool
holds none port = false
holds (some current) port = current == port

pub claim_key : Bool → String → ℤ → HostPortStore → HostPortStore × ClaimResult
unfolding claim_free
claim_key saved key port s =
    if holds (lookup key s.ports) port then (s, claimed) else claim_free saved key port s

unfoldable pub claim_host_port :
    Bool → String → String → ℤ → HostPortStore → HostPortStore × ClaimResult
unfolding claim_key
claim_host_port saved team app port s = claim_key saved (host_port_key team app) port s

-- GetHostPort, with `none` for ErrHostPortNotFound
unfoldable pub get_host_port : String → String → HostPortStore → Option ℤ
get_host_port team app s = lookup (host_port_key team app) s.ports

pub release_at : Bool → String → Option ℤ → HostPortStore → HostPortStore × Bool
unfolding put drop
release_at saved key none s = (s, true)
release_at true key (some port) s = (drop key port s, true)
release_at false key (some port) s = (put key port (drop key port s), false)

-- ReleaseHostPort; the Boolean is false for an error.
unfoldable pub release_host_port : Bool → String → String → HostPortStore → HostPortStore × Bool
unfolding release_at
release_host_port saved team app s =
    let key = host_port_key team app in release_at saved key (lookup key s.ports) s

pub drop_all : List (String × ℤ) → HostPortStore → HostPortStore
unfolding drop
drop_all [] s = s
drop_all ((key, port) ∷ released) s = drop_all released (drop key port s)

pub put_all : List (String × ℤ) → HostPortStore → HostPortStore
unfolding put
put_all [] s = s
put_all ((key, port) ∷ released) s = put_all released (put key port s)

-- The entries that `ReleaseTeamHostPorts` collects.
abbrev pub of_team : String → List (String × ℤ) → List (String × ℤ)
of_team team ports = keep (λ r. has_prefix r.0 (team ⊕ "/")) ports

pub release_each : Bool → List (String × ℤ) → HostPortStore → HostPortStore × Bool
unfolding drop_all put_all
release_each saved [] s = (s, true)
release_each true (r ∷ released) s = (drop_all (r ∷ released) s, true)
release_each false (r ∷ released) s = (put_all (r ∷ released) (drop_all (r ∷ released) s), false)

unfoldable pub release_team_host_ports : Bool → String → HostPortStore → HostPortStore × Bool
unfolding release_each
release_team_host_ports saved team s = release_each saved (of_team team s.ports) s

unfoldable pub list_host_ports : HostPortStore → List (String × ℤ)
list_host_ports s = s.ports
