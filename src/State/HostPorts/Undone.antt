-- ===== src/State/HostPorts/Undone.antt =====
-- An operation whose file is not written leaves the store as it was.
use shrine.Prelude.{
  All, Bool-cases, List, Nodup, Option, Option-cases, String, [], arith, eq_int, eq_pair, eq_str,
  false, has_key, if◌then◌else◌, inl, inr, keys, lookup, lookup-delete, lookup-insert, mem,
  mem-keys, mem-without, none, pos, refl, some, true, ℤ, ◌||◌, ◌∙◌, ◌∷◌, ◌≡◌,
}
use shrine.Manifest.{first_auto_host_port}
use shrine.State.HostPorts.{
  HostPortStore, host_port_key, put, drop, allocate_at, allocate_key, allocate_host_port,
  first_free, auto_host_ports, holder_of, other_holder, claim_at, claim_free, claim_key,
  claim_host_port, holds, release_at, release_host_port, drop_all, put_all, of_team, release_each,
  release_team_host_ports,
}
use shrine.State.HostPorts.Ports.{values, lookup-value, mem-add_port}
use shrine.State.HostPorts.Invariant.{IsSound}
use shrine.State.HostPorts.Entries.{of_team-AreHeld}
use shrine.State.HostPorts.Rollback.{
  IsSame, IsSame-refl, put-drop-IsSame, drop-put-IsSame, unmoved-IsSame, AreHeld,
}
use shrine.State.HostPorts.Keeps.{
  first_free-some, HostPortOp, op_allocate, op_claim, op_release, op_release_team, perform, unheld,
}

allocate_key-IsSame : (key : String) (s : HostPortStore) → IsSame s (allocate_key false key s).0
unfolding allocate_key allocate_at
allocate_key-IsSame key s = elim (Option-cases (lookup key s.ports)) [
  | inr (port, found) ↦ rw (found, allocate_key) (IsSame-refl s)
  | inl fresh ↦ elim (Option-cases (first_free auto_host_ports first_auto_host_port s.taken)) [
    | inl full ↦ rw (fresh, allocate_key, full, allocate_at) (IsSame-refl s)
    | inr (port, found) ↦
        let (low, high, free, rest) =
          first_free-some auto_host_ports first_auto_host_port s.taken port found in
        rw (fresh, allocate_key, found, allocate_at) (put-drop-IsSame key (pos port) s fresh free)
  ]
]

claim_at-IsSame :
    (key : String) (port : ℤ) (s : HostPortStore) (old : Option ℤ)
    → lookup key s.ports ≡ old
    → mem port s.taken ≡ false
    → IsSound s
    → IsSame s (claim_at false key port old s).0
unfolding claim_at drop
claim_at-IsSame key port s none fresh free h = put-drop-IsSame key port s fresh free
claim_at-IsSame key port s (some old) held free h =
    unmoved-IsSame key port old s held free
      (ground (arith, h.taken_all old, lookup-value key old s.ports held))

claim_key-IsSame :
    (key : String) (port : ℤ) (s : HostPortStore)
    → IsSound s
    → IsSame s (claim_key false key port s).0
unfolding claim_key claim_free
claim_key-IsSame key port s h = elim (Bool-cases (holds (lookup key s.ports) port)) [
  | inl mine ↦ rw (mine, claim_key) (IsSame-refl s)
  | inr other ↦ elim (Bool-cases (mem port s.reserved)) [
    | inl reserved ↦ rw (other, claim_key, reserved, claim_free) (IsSame-refl s)
    | inr free ↦ elim (Option-cases (other_holder key (holder_of port s.ports))) [
      | inr (holder, held) ↦ rw (other, claim_key, free, held, claim_free) (IsSame-refl s)
      | inl nobody ↦
          rw (other, claim_key, free, nobody, claim_free)
            (claim_at-IsSame key port s (lookup key s.ports) refl
              (ground (arith, h.taken_all port, unheld key port s h other nobody)) h)
    ]
  ]
]

release_at-IsSame :
    (key : String) (old : Option ℤ) (s : HostPortStore)
    → lookup key s.ports ≡ old
    → IsSound s
    → IsSame s (release_at false key old s).0
unfolding release_at drop put
release_at-IsSame key none s e h = IsSame-refl s
release_at-IsSame key (some port) s e h =
    drop-put-IsSame key port s e (ground (arith, h.taken_all port, lookup-value key port s.ports e))

-- Dropping entries, and putting them.
pub lookup-drop_all :
    (k : String) (rs : List (String × ℤ)) (s : HostPortStore)
    → lookup k (drop_all rs s).ports ≡ (if has_key k rs then none else lookup k s.ports)
unfolding drop_all drop lookup
lookup-drop_all k [] s = refl
lookup-drop_all k ((j, p) ∷ rs) s =
    ground (arith, lookup-drop_all k rs (drop j p s), lookup-delete k j s.ports)

lookup-put_all :
    (k : String) (rs : List (String × ℤ)) (s : HostPortStore)
    → Nodup (keys rs)
    → lookup k (put_all rs s).ports ≡ (if has_key k rs then lookup k rs else lookup k s.ports)
unfolding put_all put lookup
lookup-put_all k [] s d = refl
lookup-put_all k ((j, p) ∷ rs) s d =
    ground
      (arith, lookup-put_all k rs (put j p s) d.1, lookup-insert k j p s.ports, mem-keys j rs, d.0)

taken-drop_all :
    (p : ℤ) (rs : List (String × ℤ)) (s : HostPortStore)
    → mem p (drop_all rs s).taken ≡ (if mem p (values rs) then false else mem p s.taken)
unfolding drop_all drop mem
taken-drop_all p [] s = refl
taken-drop_all p ((j, q) ∷ rs) s =
    ground (arith, taken-drop_all p rs (drop j q s), mem-without p q s.taken)

taken-put_all :
    (p : ℤ) (rs : List (String × ℤ)) (s : HostPortStore)
    → mem p (put_all rs s).taken ≡ (mem p (values rs) || mem p s.taken)
unfolding put_all put mem
taken-put_all p [] s = refl
taken-put_all p ((j, q) ∷ rs) s =
    ground (arith, taken-put_all p rs (put j q s), mem-add_port p q s.taken)

reserved-put_drop_all :
    (rs : List (String × ℤ)) (s : HostPortStore)
    → ((put_all rs s).reserved ≡ s.reserved) × ((drop_all rs s).reserved ≡ s.reserved)
unfolding put_all drop_all put drop
reserved-put_drop_all [] s = (refl, refl)
reserved-put_drop_all ((j, q) ∷ rs) s =
    ((reserved-put_drop_all rs (put j q s)).0, (reserved-put_drop_all rs (drop j q s)).1)

held-lookup :
    (k : String) (rs : List (String × ℤ)) (s : HostPortStore)
    → All (λ r. lookup r.0 s.ports ≡ some r.1) rs
    → has_key k rs ≡ true
    → lookup k s.ports ≡ lookup k rs
unfolding lookup
held-lookup k [] s a h = absurd (ground arith)
held-lookup k ((j, p) ∷ rs) s a h = ground (arith, held-lookup k rs s a.1, a.0)

held-values :
    (p : ℤ) (rs : List (String × ℤ)) (s : HostPortStore)
    → All (λ r. lookup r.0 s.ports ≡ some r.1) rs
    → mem p (values rs) ≡ true
    → mem p (values s.ports) ≡ true
unfolding mem
held-values p [] s a h = absurd (ground arith)
held-values p ((j, q) ∷ rs) s a h =
    ground (arith, held-values p rs s a.1, lookup-value j q s.ports a.0)

release_each-IsSame :
    (rs : List (String × ℤ)) (s : HostPortStore)
    → AreHeld rs s
    → IsSound s
    → IsSame s (release_each false rs s).0
unfolding release_each
release_each-IsSame [] s a h = IsSame-refl s
release_each-IsSame (r ∷ rs) s a h =
    let all = r ∷ rs in
    let gone = drop_all all s in
    record {
      reserved_same = (reserved-put_drop_all all gone).0 ∙ (reserved-put_drop_all all s).1;
      ports_same = λ k. ground (
        arith,
        lookup-put_all k all gone a.once,
        lookup-drop_all k all s,
        held-lookup k all s a.held,
      );
      taken_same = λ p. ground (
        arith,
        taken-put_all p all gone,
        taken-drop_all p all s,
        held-values p all s a.held,
        h.taken_all p,
      );
    }

-- When the file is not written, an operation on a sound store undoes all its writes: the port of
-- every workload, the ports that are taken and the ports of the gateway are what they were.
pub perform-IsSame :
    (op : HostPortOp) (s : HostPortStore) → IsSound s → IsSame s (perform false op s)
unfolding allocate_host_port claim_host_port release_host_port release_team_host_ports
perform-IsSame (op_allocate team app) s h = allocate_key-IsSame (host_port_key team app) s
perform-IsSame (op_claim team app port) s h = claim_key-IsSame (host_port_key team app) port s h
perform-IsSame (op_release team app) s h =
    let key = host_port_key team app in release_at-IsSame key (lookup key s.ports) s refl h
perform-IsSame (op_release_team team) s h =
    release_each-IsSame (of_team team s.ports) s (of_team-AreHeld team s h.keys_once) h
