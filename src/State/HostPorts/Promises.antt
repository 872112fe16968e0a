-- ===== src/State/HostPorts/Promises.antt =====
-- What an operation on the ports promises its caller.
use shrine.Prelude.{
  Bool, Bool-cases, List, Option, Option-cases, String, [], arith, eq_int, eq_pair, eq_str, false,
  has_key, has_prefix, if◌then◌else◌, inl, inr, keep, lookup, lookup-insert, mem, negsuc, none, pos,
  refl, some, true, ℕ, ℤ, ◌&&◌, ◌<◌, ◌==◌, ◌↔◌, ◌∷◌, ◌≡◌, ◌≢◌, ◌≤◌, ◌⊎◌, ◌⊕◌,
}
use shrine.Manifest.{Publish, first_auto_host_port, last_auto_host_port}
use shrine.Manifest.Validate.{validate_publish}
use shrine.Manifest.Validate.Fields.{IsClaimable, publish_iff}
use shrine.State.HostPorts.{
  HostPortStore, port_ok, no_available_host_ports, claimed, host_port_key, put, allocate_at,
  allocate_key, allocate_host_port, first_free, auto_host_ports, holder_of, claim_at, claim_free,
  claim_key, claim_host_port, holds, get_host_port, of_team, release_each, release_team_host_ports,
}
use shrine.State.HostPorts.Ports.{lookup-value, holder_of-lookup, lookup-holder_of}
use shrine.State.HostPorts.Invariant.{IsSound}
use shrine.State.HostPorts.Undone.{lookup-drop_all}
use shrine.State.HostPorts.Keeps.{first_free-some, first_free-none}

-- The lowest port of the automatic range that is free in `s`.
pub record IsLowestFree (s : HostPortStore) (p : ℕ) : Type 0 where
  pub low : first_auto_host_port ≤ p
  pub high : p ≤ last_auto_host_port
  pub free : mem (pos p) s.taken ≡ false
  pub lowest : (q : ℕ) → first_auto_host_port ≤ q → q < p → mem (pos q) s.taken ≡ true

-- The port of a workload after AllocateHostPort, and no other change.
pub record IsAllocated (key : String) (p : ℤ) (s t : HostPortStore) : Type 0 where
  pub held : lookup key t.ports ≡ some p
  pub others : (k : String) → (key == k) ≡ false → lookup k t.ports ≡ lookup k s.ports

allocate_key-total :
    (key : String) (s : HostPortStore)
    → lookup key s.ports ≡ none
    → ((p : ℕ) × ((allocate_key true key s).1 ≡ port_ok (pos p))
        × IsLowestFree s p
        × IsAllocated key (pos p) s (allocate_key true key s).0)
      ⊎ ((allocate_key true key s ≡ (s, no_available_host_ports))
          × ((q : ℕ)
              → first_auto_host_port ≤ q
              → q ≤ last_auto_host_port
              → mem (pos q) s.taken ≡ true))
unfolding allocate_key allocate_at put
allocate_key-total key s fresh =
    elim (Option-cases (first_free auto_host_ports first_auto_host_port s.taken)) [
      | inr (p, found) ↦
          let (low, high, free, lowest) =
            first_free-some auto_host_ports first_auto_host_port s.taken p found in
          inl (
            p,
            rw (fresh, allocate_key, found, allocate_at) refl,
            record { low = low; high = omega arith; free = free; lowest = lowest },
            rw (fresh, allocate_key, found, allocate_at)
                (record {
                  held = ground (arith, lookup-insert key key (pos p) s.ports);
                  others = λ k other. ground (arith, lookup-insert k key (pos p) s.ports);
                }),
          )
      | inl full ↦ inr (
        rw (fresh, allocate_key, full, allocate_at) refl,
        λ q a b.
            first_free-none auto_host_ports first_auto_host_port s.taken full q a (omega arith),
      )
    ]

-- For a workload that has no port, AllocateHostPort, when the file is written, gives it the lowest
-- port of the automatic range that is not taken, and changes the port of no other workload; or it
-- changes nothing and reports that no port is left, and then every port of the range is taken.
pub allocate_host_port_total :
    (team app : String) (s : HostPortStore)
    → get_host_port team app s ≡ none
    → ((p : ℕ) × ((allocate_host_port true team app s).1 ≡ port_ok (pos p))
        × IsLowestFree s p
        × IsAllocated (host_port_key team app) (pos p) s (allocate_host_port true team app s).0)
      ⊎ ((allocate_host_port true team app s ≡ (s, no_available_host_ports))
          × ((q : ℕ)
              → first_auto_host_port ≤ q
              → q ≤ last_auto_host_port
              → mem (pos q) s.taken ≡ true))
unfolding allocate_host_port get_host_port
allocate_host_port_total team app s fresh = allocate_key-total (host_port_key team app) s fresh

-- A host port other than 0 that the validator accepts in a manifest is never the one that
-- AllocateHostPort gives to a workload that has none: a claim does not race an allocation.
pub validate_publish-allocate_host_port :
    (p : Publish) (team app : String) (s : HostPortStore)
    → validate_publish (some p) ≡ []
    → (p.host_port == pos 0) ≡ false
    → get_host_port team app s ≡ none
    → (allocate_host_port true team app s).1 ≢ port_ok p.host_port
unfolding get_host_port
validate_publish-allocate_host_port p team app s ok given fresh e =
    elim (allocate_host_port_total team app s fresh) [
      | inl (q, out, lowest, change) ↦
          apart p.host_port q ((publish_iff (some p)).0 ok) given lowest.low lowest.high
            (ground arith)
      | inr (full, all) ↦ absurd (ground arith)
    ]
  where
    apart :
        (n : ℤ) (q : ℕ)
        → IsClaimable n
        → (n == pos 0) ≡ false
        → first_auto_host_port ≤ q
        → q ≤ last_auto_host_port
        → n ≢ pos q
    apart (pos n) q c z a b e = ground arith
    apart (negsuc n) q c z a b e = c

-- Who may have a port: it is not the gateway's, and no other workload has it.
abbrev pub MayHave : String → ℤ → HostPortStore → Type 0
MayHave key port s =
    (mem port s.reserved ≡ false) × ((k : String) → lookup k s.ports ≡ some port → k ≡ key)

claim_at-claimed :
    (key : String) (port : ℤ) (s : HostPortStore) (old : Option ℤ)
    → (claim_at true key port old s).1 ≡ claimed
unfolding claim_at
claim_at-claimed key port s none = refl
claim_at-claimed key port s (some old) = refl

claim_key_sound :
    (key : String) (port : ℤ) (s : HostPortStore)
    → IsSound s
    → (claim_key true key port s).1 ≡ claimed
    → MayHave key port s
unfolding claim_key claim_free
claim_key_sound key port s h e = elim (Bool-cases (holds (lookup key s.ports) port)) [
  | inl mine ↦
      let own : lookup key s.ports ≡ some port = ground arith in
      (
        h.unreserved port (lookup-value key port s.ports own),
        λ k held. ground (
          arith,
          lookup-holder_of port k s.ports h.ports_once held,
          lookup-holder_of port key s.ports h.ports_once own,
        ),
      )
  | inr other ↦
      (ground arith, λ k held. ground (arith, lookup-holder_of port k s.ports h.ports_once held))
]

claim_key_complete :
    (key : String) (port : ℤ) (s : HostPortStore)
    → IsSound s
    → MayHave key port s
    → (claim_key true key port s).1 ≡ claimed
unfolding claim_key claim_free
claim_key_complete key port s h (free, only) =
    let written = claim_at-claimed key port s (lookup key s.ports) in
    elim (Option-cases (holder_of port s.ports)) [
      | inl nobody ↦ ground (arith, written)
      | inr (k, found) ↦
          let mine : k ≡ key = only k (holder_of-lookup port k s.ports h.keys_once found) in
          ground (arith, written)
    ]

-- On a sound store, when the file is written, ClaimHostPort succeeds exactly when the port is not
-- the gateway's and no other workload has it.
pub claim_host_port_iff :
    (team app : String) (port : ℤ) (s : HostPortStore)
    → IsSound s
    → ((claim_host_port true team app port s).1 ≡ claimed) ↔ MayHave (host_port_key team app) port s
unfolding claim_host_port
claim_host_port_iff team app port s h = (
  claim_key_sound (host_port_key team app) port s h,
  claim_key_complete (host_port_key team app) port s h,
)

claim_at-held :
    (key : String) (port : ℤ) (s : HostPortStore) (old : Option ℤ)
    → IsAllocated key port s (claim_at true key port old s).0
unfolding claim_at put
claim_at-held key port s none = record {
  held = ground (arith, lookup-insert key key port s.ports);
  others = λ k other. ground (arith, lookup-insert k key port s.ports);
}
claim_at-held key port s (some old) = record {
  held = ground (arith, lookup-insert key key port s.ports);
  others = λ k other. ground (arith, lookup-insert k key port s.ports);
}

-- A claim that succeeds leaves the workload with the port, and every other workload with its own.
claim_host_port-get :
    (team app : String) (port : ℤ) (s : HostPortStore)
    → (claim_host_port true team app port s).1 ≡ claimed
    → IsAllocated (host_port_key team app) port s (claim_host_port true team app port s).0
unfolding claim_host_port claim_key claim_free
claim_host_port-get team app port s e =
    let key = host_port_key team app in
    let written = claim_at-held key port s (lookup key s.ports) in
    record {
      held = ground (arith, written.held);
      others = λ k other. ground (arith, written.others k);
    }

lookup-drop_all_team :
    (k : String) (rs : List (String × ℤ)) (s : HostPortStore)
    → lookup k (release_each true rs s).0.ports ≡ (if has_key k rs then none else lookup k s.ports)
unfolding release_each lookup
lookup-drop_all_team k [] s = refl
lookup-drop_all_team k (r ∷ rs) s = lookup-drop_all k (r ∷ rs) s

has_key-keep :
    (q : String → Bool) (k : String) (m : List (String × ℤ))
    → has_key k (keep (λ r. q r.0) m) ≡ (q k && has_key k m)
unfolding keep lookup
has_key-keep q k [] = ground arith
has_key-keep q k ((j, p) ∷ m) = ground (arith, has_key-keep q k m)

-- When the file is written, ReleaseTeamHostPorts takes the port of every workload whose key begins
-- with the team and a slash, and leaves all other workloads their ports.
pub release_team_host_ports-lookup :
    (team k : String) (s : HostPortStore)
    → lookup k (release_team_host_ports true team s).0.ports
      ≡ (if has_prefix k (team ⊕ "/") then none else lookup k s.ports)
unfolding release_team_host_ports
release_team_host_ports-lookup team k s = ground (
  arith,
  lookup-drop_all_team k (of_team team s.ports) s,
  has_key-keep (λ j. has_prefix j (team ⊕ "/")) k s.ports,
)
