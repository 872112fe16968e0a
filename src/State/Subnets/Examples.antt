-- ===== src/State/Subnets/Examples.antt =====
-- Two teams, and the theorems on their networks.
use shrine.Prelude.{
  Bool, List, String, [], after, ap, arith, before, code, dec_int, dec_str, decimal, eq_int,
  eq_pair, eq_str, false, itoa, lookup, mem, none, pos, refl, some, suc, true, zero, ℕ, ℤ, ◌&&◌,
  ◌*◌, ◌+◌, ◌-◌, ◌<◌, ◌==◌, ◌∷◌, ◌≡◌, ◌≢◌, ◌≤◌, ◌⊎◌,
}
use native.Mathlib.Decide.{ℕ_discrete}
use shrine.State.HostPorts.{first_free}
use shrine.State.Subnets.{
  Cidr, SubnetStore, allocate_octet, allocate_subnet, first_usable_octet, get_subnet,
  last_usable_octet, no_available_subnets, no_subnets, release_subnet, subnet_of, third_octet,
}
use shrine.State.Subnets.Apart.{IsUsable}
use shrine.State.Subnets.Promises.{
  IsGiven, SubnetOp, allocate_op, allocate_subnet_total, release_op, run_ops, run_ops_apart,
}

-- The number that a text of digits shows.
unfoldable digits : ℕ → String → ℕ
digits n String.[] = n
digits n (String.◌∷◌ c s) = digits (n * 10 + (code c - 48)) s

unfoldable octet_text : String → String
unfolding after before
octet_text cidr = before b'.' (after b'.' (after b'.' cidr))

abbrev read_octet : String → ℤ
read_octet cidr = pos (digits 0 (octet_text cidr))

abbrev parse_cidr : String → Cidr
parse_cidr cidr = third_octet (read_octet cidr)

unfoldable all_read : ℕ → ℕ → Bool
all_read zero o = true
all_read (suc n) o = (read_octet (subnet_of (pos o)) == pos o) && all_read n (suc o)

every_octet : all_read 251 5 ≡ true
unfolding all_read digits octet_text itoa dec_int after before shrine.Prelude.decimal
every_octet = refl

all_read-read :
    (count o q : ℕ)
    → all_read count o ≡ true
    → o ≤ q
    → q < o + count
    → read_octet (subnet_of (pos q)) ≡ pos q
unfolding all_read
all_read-read zero o q e a b = absurd (omega arith)
all_read-read (suc count) o q e a b = elim (ℕ_discrete o q) [
  | yes same ↦ rw (← same) (ground arith)
  | no other ↦ all_read-read count (suc o) q (ground arith) (ground arith) (omega arith)
]

reads : (o : ℤ) → IsUsable o → parse_cidr (subnet_of o) ≡ third_octet o
reads o (n, is, low, high) =
    let e = all_read-read 251 5 n every_octet low (omega arith) in ground (arith, is, e)

abbrev two_teams : List (Bool × SubnetOp)
two_teams =
    (true, allocate_op "me")
    ∷ (false, allocate_op "shop")
    ∷ (true, release_op "shop")
    ∷ (true, allocate_op "you")
    ∷ []

mine : get_subnet "me" (run_ops parse_cidr two_teams no_subnets) ≡ some "10.100.5.0/24"
unfolding get_subnet allocate_subnet allocate_octet first_free itoa lookup mem release_subnet
    dec_str dec_int shrine.Prelude.decimal
mine = refl

yours : get_subnet "you" (run_ops parse_cidr two_teams no_subnets) ≡ some "10.100.6.0/24"
unfolding get_subnet allocate_subnet allocate_octet first_free itoa lookup mem release_subnet
    dec_str dec_int shrine.Prelude.decimal
yours = refl

shop_has_none : get_subnet "shop" (run_ops parse_cidr two_teams no_subnets) ≡ none
unfolding get_subnet allocate_subnet allocate_octet first_free itoa lookup mem release_subnet
    dec_str dec_int shrine.Prelude.decimal
shop_has_none = refl

me-ne-you : ◌≢◌ {A = String} "me" "you"
unfolding dec_str
me-ne-you e = let same : true ≡ false = ap (λ t. t == "me") e in absurd (ground (arith, same))

run_ops_apart_example : ◌≢◌ {A = String} "10.100.5.0/24" "10.100.6.0/24"
run_ops_apart_example =
    run_ops_apart parse_cidr reads two_teams "me" "you" "10.100.5.0/24" "10.100.6.0/24" me-ne-you
      mine yours

abbrev networks : SubnetStore
networks = run_ops parse_cidr two_teams no_subnets

allocate_subnet_total_example :
    ((o : ℕ) × IsGiven "shop" networks o (allocate_subnet true "shop" networks))
    ⊎ ((allocate_subnet true "shop" networks ≡ (networks, no_available_subnets))
        × ((q : ℕ)
            → first_usable_octet ≤ q
            → q ≤ last_usable_octet
            → (k : String) × (get_subnet k networks ≡ some (subnet_of (pos q)))))
allocate_subnet_total_example =
    allocate_subnet_total parse_cidr reads two_teams "shop" shop_has_none
