-- ===== src/State/HostPorts/Examples.antt =====
-- A store with one workload, and the theorems at it.
use shrine.Prelude.{
  Bool, List, [], arith, dec_int, eq_int, eq_pair, eq_str, false, has_prefix, if◌then◌else◌, inl,
  inr, lookup, mem, none, pos, refl, some, true, ℕ, ℤ, ◌↔◌, ◌∷◌, ◌≡◌, ◌≢◌, ◌≤◌, ◌⊎◌,
}
use shrine.Manifest.{first_auto_host_port, last_auto_host_port}
use shrine.State.HostPorts.{
  HostPortStore, port_ok, claimed, new_store, allocate_host_port, claim_host_port, get_host_port,
  release_team_host_ports, no_available_host_ports, add_port, allocate_key, claim_key,
}
use shrine.Manifest.Validate.{validate_publish}
use shrine.Manifest.Validate.Fields.{publish_iff}
use shrine.State.HostPorts.Invariant.{IsSound, new_store-IsSound}
use shrine.State.HostPorts.Rollback.{IsSame}
use shrine.State.HostPorts.Undone.{perform-IsSame}
use shrine.State.HostPorts.Keeps.{
  HostPortOp, op_allocate, op_claim, op_release, perform, run, run-IsSound,
}
use shrine.State.HostPorts.Promises.{
  IsLowestFree, IsAllocated, MayHave, allocate_host_port_total, validate_publish-allocate_host_port,
  claim_host_port_iff, release_team_host_ports-lookup,
}

abbrev gateway : List ℤ
gateway = pos 80 ∷ pos 30000 ∷ []

abbrev fresh_store : HostPortStore
fresh_store = new_store gateway

abbrev history : List (Bool × HostPortOp)
history =
    (true, op_allocate "me" "blog")
    ∷ (false, op_claim "me" "shop" (pos 8080))
    ∷ (true, op_claim "me" "blog" (pos 8080))
    ∷ (true, op_release "me" "shop")
    ∷ (true, op_allocate "you" "wiki")
    ∷ []

run-IsSound_example : IsSound (run history (new_store gateway))
run-IsSound_example = run-IsSound gateway history

perform-IsSame_example :
    IsSame fresh_store (perform false (op_claim "me" "blog" (pos 8080)) fresh_store)
perform-IsSame_example =
    perform-IsSame (op_claim "me" "blog" (pos 8080)) fresh_store (new_store-IsSound gateway)

fresh-none : get_host_port "me" "blog" fresh_store ≡ none
unfolding get_host_port new_store lookup
fresh-none = refl

-- The gateway has the first port of the range, so the second is the lowest free one.
allocated : (allocate_host_port true "me" "blog" fresh_store).1 ≡ port_ok (pos 30001)
unfolding allocate_host_port allocate_key lookup new_store mem add_port dec_int
allocated = refl

allocate_host_port_total_example :
    ((p : ℕ) × ((allocate_host_port true "me" "blog" fresh_store).1 ≡ port_ok (pos p))
      × IsLowestFree fresh_store p
      × IsAllocated "me/blog"
          (pos p)
          fresh_store
          (allocate_host_port true "me" "blog" fresh_store).0)
    ⊎ ((allocate_host_port true "me" "blog" fresh_store ≡ (fresh_store, no_available_host_ports))
        × ((q : ℕ)
            → first_auto_host_port ≤ q
            → q ≤ last_auto_host_port
            → mem (pos q) fresh_store.taken ≡ true))
allocate_host_port_total_example = allocate_host_port_total "me" "blog" fresh_store fresh-none

explicit_port : validate_publish (some (record { host_port = pos 8080 })) ≡ []
explicit_port =
    (publish_iff (some (record { host_port = pos 8080 }))).1
      (inr (omega arith, omega arith, inl (omega arith)))

validate_publish-allocate_host_port_example :
    (allocate_host_port true "me" "blog" fresh_store).1 ≢ port_ok (pos 8080)
unfolding dec_int
validate_publish-allocate_host_port_example =
    validate_publish-allocate_host_port (record { host_port = pos 8080 }) "me" "blog" fresh_store
      explicit_port refl fresh-none

claim_host_port_iff_example :
    ((claim_host_port true "me" "blog" (pos 8080) fresh_store).1 ≡ claimed)
    ↔ MayHave "me/blog" (pos 8080) fresh_store
claim_host_port_iff_example =
    claim_host_port_iff "me" "blog" (pos 8080) fresh_store (new_store-IsSound gateway)

free-claimed : (claim_host_port true "me" "blog" (pos 8080) fresh_store).1 ≡ claimed
unfolding claim_host_port claim_key lookup new_store mem add_port dec_int
free-claimed = refl

release_team_host_ports-lookup_example :
    lookup "me/blog" (release_team_host_ports true "me" (run history fresh_store)).0.ports ≡ (
      if has_prefix "me/blog" "me/" then none else lookup "me/blog" (run history fresh_store).ports)
release_team_host_ports-lookup_example =
    release_team_host_ports-lookup "me" "me/blog" (run history fresh_store)
