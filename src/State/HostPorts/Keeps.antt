-- ===== src/State/HostPorts/Keeps.antt =====
-- Every operation on the ports keeps the store sound.
use shrine.Prelude.{
  Bool, Bool-cases, List, Nodup, Option, Option-cases, String, [], arith, eq_int, eq_pair, eq_str,
  false, inl, inr, insert, lookup, lookup-delete, lookup-insert, mem, none, pos, refl, some, suc,
  true, without, zero, ℕ, ℤ, ◌+◌, ◌<◌, ◌∷◌, ◌≡◌, ◌≤◌,
}
use shrine.State.HostPorts.{
  HostPortStore, host_port_key, new_store, put, drop, allocate_at, allocate_key, allocate_host_port,
  first_free, auto_host_ports, holder_of, other_holder, claim_at, claim_free, claim_key,
  claim_host_port, holds, release_at, release_host_port, drop_all, of_team, release_each,
  release_team_host_ports,
}
use native.Mathlib.Decide.{ℕ_discrete}
use shrine.Manifest.{first_auto_host_port}
use shrine.State.HostPorts.Ports.{
  values, lookup-value, holder_of-values, holder_of-lookup, values-insert_old, values-delete,
  values-insert-Nodup,
}
use shrine.State.HostPorts.Invariant.{
  IsSound, new_store-IsSound, put-IsSound, drop-IsSound, move-IsSound,
}
use shrine.State.HostPorts.Entries.{keep-values-Nodup, of_team-AreHeld}
use shrine.State.HostPorts.Rollback.{
  AreHeld, unmoved, unmoved-IsSame, drop_all-IsSound, drop_all-AreFree, put_all-IsSound,
}

-- The port that the loop finds is in its range and free, and all before it are taken.
pub first_free-some :
    (count port : ℕ) (taken : List ℤ) (p : ℕ)
    → first_free count port taken ≡ some p
    → (port ≤ p)
      × (p < port + count)
      × (mem (pos p) taken ≡ false)
      × ((q : ℕ) → port ≤ q → q < p → mem (pos q) taken ≡ true)
unfolding first_free
first_free-some zero port taken p e = absurd (ground arith)
first_free-some (suc count) port taken p e = elim (Bool-cases (mem (pos port) taken)) [
  | inl used ↦
      let (low, high, free, before_p) = first_free-some count (suc port) taken p (ground arith) in
      (
        omega arith,
        omega arith,
        free,
        λ q a b. elim (ℕ_discrete port q) [
          | yes same ↦ rw (← same) used
          | no other ↦ before_p q (ground arith) b
        ],
      )
  | inr unused ↦
      let here : port ≡ p = ground arith in
      (omega arith, omega arith, rw (← here) unused, λ q a b. absurd (omega arith))
]

-- When the loop finds none, all ports of its range are taken.
pub first_free-none :
    (count port : ℕ) (taken : List ℤ)
    → first_free count port taken ≡ none
    → (q : ℕ) → port ≤ q
    → q < port + count
    → mem (pos q) taken ≡ true
unfolding first_free
first_free-none zero port taken e q a b = absurd (omega arith)
first_free-none (suc count) port taken e q a b = elim (ℕ_discrete port q) [
  | yes same ↦ rw (← same) (ground arith)
  | no other ↦ first_free-none count (suc port) taken (ground arith) q (ground arith) (omega arith)
]

allocate_at-IsSound :
    (saved : Bool) (key : String) (port : ℕ) (s : HostPortStore)
    → lookup key s.ports ≡ none
    → mem (pos port) s.taken ≡ false
    → IsSound s
    → IsSound (allocate_at saved key (some port) s).0
unfolding allocate_at put drop
allocate_at-IsSound saved key port s fresh free h =
    let there : IsSound (put key (pos port) s) =
      put-IsSound key (pos port) s fresh (ground (arith, h.taken_all (pos port)))
        (ground (arith, h.taken_all (pos port))) h in
    elim saved as (λ b. IsSound (allocate_at b key (some port) s).0) [
      | true ↦ there
      | false ↦
          drop-IsSound key (pos port) (put key (pos port) s)
            (ground (arith, lookup-insert key key (pos port) s.ports)) there
    ]

allocate_key-IsSound :
    (saved : Bool) (key : String) (s : HostPortStore)
    → IsSound s
    → IsSound (allocate_key saved key s).0
unfolding allocate_key
allocate_key-IsSound saved key s h = elim (Option-cases (lookup key s.ports)) [
  | inr (port, found) ↦ rw (found, allocate_key) h
  | inl fresh ↦ elim (Option-cases (first_free auto_host_ports first_auto_host_port s.taken)) [
    | inl full ↦ rw (fresh, allocate_key, full, allocate_at) h
    | inr (port, found) ↦
        let (low, high, free, rest) =
          first_free-some auto_host_ports first_auto_host_port s.taken port found in
        rw (fresh, allocate_key, found) (allocate_at-IsSound saved key port s fresh free h)
  ]
]

-- Where no other key holds a port that the key itself does not have, nobody holds it.
pub unheld :
    (key : String) (port : ℤ) (s : HostPortStore)
    → IsSound s
    → holds (lookup key s.ports) port ≡ false
    → other_holder key (holder_of port s.ports) ≡ none
    → mem port (values s.ports) ≡ false
unheld key port s h mine other = elim (Option-cases (holder_of port s.ports)) [
  | inl nobody ↦ ground (arith, holder_of-values port s.ports)
  | inr (k, found) ↦ ground (arith, holder_of-lookup port k s.ports h.keys_once found)
]

unmoved-IsSound :
    (key : String) (port old : ℤ) (s : HostPortStore)
    → lookup key s.ports ≡ some old
    → mem port s.reserved ≡ false
    → mem port (values s.ports) ≡ false
    → IsSound s
    → IsSound (unmoved key port old s)
unfolding put
unmoved-IsSound key port old s held free apart h =
    let same =
      unmoved-IsSame key port old s held (ground (arith, h.taken_all port))
        (ground (arith, h.taken_all old, lookup-value key old s.ports held)) in
    let moved : HostPortStore = record (put key port s) {
      taken = without old (put key port s).taken;
    } in
    let back =
      move-IsSound key old port moved (ground (arith, lookup-insert key key port s.ports))
        (h.unreserved old (lookup-value key old s.ports held))
        (ground (
          arith,
          values-insert_old old key port old s.ports h.ports_once held,
          lookup-value key old s.ports held,
        ))
        (move-IsSound key port old s held free apart h) in
    record {
      keys_once = back.keys_once;
      ports_once = back.ports_once;
      unreserved = back.unreserved;
      taken_all = λ p. ground (
        arith,
        same.taken_same p,
        h.taken_all p,
        h.unreserved p,
        lookup-value key old s.ports held,
        values-insert_old p key old port (insert key port s.ports)
            (values-insert-Nodup key port s.ports h.ports_once apart)
            (ground (arith, lookup-insert key key port s.ports)),
        values-insert_old p key port old s.ports h.ports_once held,
      );
    }

claim_at-IsSound :
    (saved : Bool) (key : String) (port : ℤ) (s : HostPortStore) (old : Option ℤ)
    → lookup key s.ports ≡ old
    → mem port s.reserved ≡ false
    → mem port (values s.ports) ≡ false
    → IsSound s
    → IsSound (claim_at saved key port old s).0
unfolding claim_at put drop
claim_at-IsSound true key port s none fresh free apart h = put-IsSound key port s fresh free apart h
claim_at-IsSound false key port s none fresh free apart h =
    drop-IsSound key port (put key port s) (ground (arith, lookup-insert key key port s.ports))
      (put-IsSound key port s fresh free apart h)
claim_at-IsSound true key port s (some old) held free apart h =
    move-IsSound key port old s held free apart h
claim_at-IsSound false key port s (some old) held free apart h =
    unmoved-IsSound key port old s held free apart h

claim_key-IsSound :
    (saved : Bool) (key : String) (port : ℤ) (s : HostPortStore)
    → IsSound s
    → IsSound (claim_key saved key port s).0
unfolding claim_key claim_free
claim_key-IsSound saved key port s h = elim (Bool-cases (holds (lookup key s.ports) port)) [
  | inl mine ↦ rw (mine, claim_key) h
  | inr other ↦ elim (Bool-cases (mem port s.reserved)) [
    | inl reserved ↦ rw (other, claim_key, reserved, claim_free) h
    | inr free ↦ elim (Option-cases (other_holder key (holder_of port s.ports))) [
      | inr (holder, held) ↦ rw (other, claim_key, free, held, claim_free) h
      | inl nobody ↦
          rw (other, claim_key, free, nobody, claim_free)
            (claim_at-IsSound saved key port s (lookup key s.ports) refl free
              (unheld key port s h other nobody) h)
    ]
  ]
]

release_at-IsSound :
    (saved : Bool) (key : String) (old : Option ℤ) (s : HostPortStore)
    → lookup key s.ports ≡ old
    → IsSound s
    → IsSound (release_at saved key old s).0
unfolding release_at drop
release_at-IsSound saved key none s e h = h
release_at-IsSound true key (some port) s e h = drop-IsSound key port s e h
release_at-IsSound false key (some port) s e h =
    put-IsSound key port (drop key port s) (ground (arith, lookup-delete key key s.ports))
      (h.unreserved port (lookup-value key port s.ports e))
      (ground (arith, values-delete port key port s.ports h.keys_once h.ports_once e))
      (drop-IsSound key port s e h)

release_each-IsSound :
    (saved : Bool) (rs : List (String × ℤ)) (s : HostPortStore)
    → AreHeld rs s
    → Nodup (values rs)
    → IsSound s
    → IsSound (release_each saved rs s).0
unfolding release_each
release_each-IsSound saved [] s a d h = h
release_each-IsSound true (r ∷ rs) s a d h = drop_all-IsSound (r ∷ rs) s a h
release_each-IsSound false (r ∷ rs) s a d h =
    put_all-IsSound (r ∷ rs) (drop_all (r ∷ rs) s) a.once d (drop_all-AreFree (r ∷ rs) s a h)
      (drop_all-IsSound (r ∷ rs) s a h)

-- The operations that write, with what each is given.
pub data HostPortOp : Type 0 where
  op_allocate : String → String → HostPortOp
  op_claim : String → String → ℤ → HostPortOp
  op_release : String → String → HostPortOp
  op_release_team : String → HostPortOp

-- The store after an operation whose file is written or not.
abbrev pub perform : Bool → HostPortOp → HostPortStore → HostPortStore
perform saved (op_allocate team app) s = (allocate_host_port saved team app s).0
perform saved (op_claim team app port) s = (claim_host_port saved team app port s).0
perform saved (op_release team app) s = (release_host_port saved team app s).0
perform saved (op_release_team team) s = (release_team_host_ports saved team s).0

-- One operation after the other.
abbrev pub run : List (Bool × HostPortOp) → HostPortStore → HostPortStore
run [] s = s
run ((saved, op) ∷ ops) s = run ops (perform saved op s)

-- Every operation keeps a sound store sound, whether its file is written or not.
pub perform-IsSound :
    (saved : Bool) (op : HostPortOp) (s : HostPortStore) → IsSound s → IsSound (perform saved op s)
unfolding allocate_host_port claim_host_port release_host_port release_team_host_ports
perform-IsSound saved (op_allocate team app) s h =
    allocate_key-IsSound saved (host_port_key team app) s h
perform-IsSound saved (op_claim team app port) s h =
    claim_key-IsSound saved (host_port_key team app) port s h
perform-IsSound saved (op_release team app) s h =
    let key = host_port_key team app in release_at-IsSound saved key (lookup key s.ports) s refl h
perform-IsSound saved (op_release_team team) s h =
    release_each-IsSound saved (of_team team s.ports) s (of_team-AreHeld team s h.keys_once)
      (keep-values-Nodup _ s.ports h.ports_once) h

run-IsSound_from :
    (ops : List (Bool × HostPortOp)) (s : HostPortStore) → IsSound s → IsSound (run ops s)
run-IsSound_from [] s h = h
run-IsSound_from ((saved, op) ∷ ops) s h =
    run-IsSound_from ops (perform saved op s) (perform-IsSound saved op s h)

-- From a store without a file, whatever allocations, claims and releases run and whichever of their
-- writes fail, no two workloads have one port, no workload has a port of the gateway, and the ports
-- that count as taken are exactly those of the gateway and of the workloads.
pub run-IsSound :
    (reserved : List ℤ) (ops : List (Bool × HostPortOp)) → IsSound (run ops (new_store reserved))
run-IsSound reserved ops = run-IsSound_from ops (new_store reserved) (new_store-IsSound reserved)
