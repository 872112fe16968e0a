-- ===== src/State/Subnets.antt =====
-- internal/state/subnets.go and internal/state/local/subnets.go: the networks 10.100.X.0/24 of the
-- teams. Whether the file is written is an argument of each operation that writes, and
-- net.ParseCIDR is a parameter.
pub mod Apart
pub mod Promises
mod Examples
use shrine.Prelude.{
  Bool, List, Option, String, [], delete, eq_int, eq_pair, eq_str, false, insert, itoa, lookup,
  none, pos, some, true, without, ℕ, ℤ, ◌∷◌, ◌⊕◌,
}
use shrine.State.HostPorts.{add_port, first_free}

-- The Go set `taken` as the list of its members.
pub record SubnetStore : Type 0 where
  pub subnets : List (String × String)
  pub taken : List ℤ

abbrev pub first_usable_octet : ℕ
first_usable_octet = 5

abbrev pub last_usable_octet : ℕ
last_usable_octet = 255

-- NewSubnetStore, for a file that is not there.
abbrev pub no_subnets : SubnetStore
no_subnets = record { subnets = []; taken = [] }

-- What net.ParseCIDR gives for a text, as far as the store looks at it.
pub data Cidr : Type 0 where
  bad_cidr : Cidr
  not_ipv4 : Cidr
  third_octet : ℤ → Cidr

-- The assignments of `load` for the lines that have two parts, as the two parts of each.
abbrev pub put_cidr : String → String → Cidr → SubnetStore → SubnetStore
put_cidr team cidr bad_cidr s = s
put_cidr team cidr not_ipv4 s = s
put_cidr team cidr (third_octet o) s = record {
  subnets = insert team cidr s.subnets;
  taken = add_port o s.taken;
}

unfoldable pub load_subnets : (String → Cidr) → List (String × String) → SubnetStore → SubnetStore
unfolding insert add_port
load_subnets parse [] s = s
load_subnets parse ((team, cidr) ∷ lines) s =
    load_subnets parse lines (put_cidr team cidr (parse cidr) s)

-- fmt.Sprintf("10.100.%d.0/24", i)
abbrev pub subnet_of : ℤ → String
subnet_of o = "10.100." ⊕ (itoa o ⊕ ".0/24")

pub data SubnetResult : Type 0 where
  allocated : String → SubnetResult
  subnet_not_saved : SubnetResult
  no_available_subnets : SubnetResult

-- What the loop does with an octet that it finds.
unfoldable pub allocate_octet : Bool → String → Option ℕ → SubnetStore → SubnetStore × SubnetResult
unfolding insert delete add_port without itoa
allocate_octet saved team none s = (s, no_available_subnets)
allocate_octet true team (some o) s = (
  record { subnets = insert team (subnet_of (pos o)) s.subnets; taken = add_port (pos o) s.taken },
  allocated (subnet_of (pos o)),
)
allocate_octet false team (some o) s = (
  record {
    subnets = delete team (insert team (subnet_of (pos o)) s.subnets);
    taken = without (pos o) (add_port (pos o) s.taken);
  },
  subnet_not_saved,
)

-- AllocateSubnet
unfoldable pub allocate_subnet : Bool → String → SubnetStore → SubnetStore × SubnetResult
unfolding lookup allocate_octet first_free
allocate_subnet saved team s = elim (lookup team s.subnets) [
  | some cidr ↦ (s, allocated cidr)
  | none ↦ allocate_octet saved team (first_free 251 first_usable_octet s.taken) s
]

-- GetSubnet, with `none` for ErrSubnetNotFound
unfoldable pub get_subnet : String → SubnetStore → Option String
get_subnet team s = lookup team s.subnets

-- What ReleaseSubnet does with the network of the team; the Boolean is false for an error.
abbrev pub release_cidr : Bool → String → Cidr → SubnetStore → SubnetStore × Bool
release_cidr saved team bad_cidr s = (s, false)
release_cidr saved team not_ipv4 s = (record s { subnets = delete team s.subnets }, saved)
release_cidr saved team (third_octet o) s =
    (record { subnets = delete team s.subnets; taken = without o s.taken }, saved)

-- ReleaseSubnet
unfoldable pub release_subnet : (String → Cidr) → Bool → String → SubnetStore → SubnetStore × Bool
unfolding lookup delete without
release_subnet parse saved team s = elim (lookup team s.subnets) [
  | none ↦ (s, true)
  | some cidr ↦ release_cidr saved team (parse cidr) s
]

-- ListSubnets
abbrev list_subnets : SubnetStore → List (String × String)
list_subnets s = s.subnets
