-- ===== src/State/HostPorts/Rollback.antt =====
-- The writes that `save` refuses are undone.
use shrine.Prelude.{
  All, List, Nodup, String, [], arith, delete, eq_int, eq_pair, eq_str, false, insert, keys, lookup,
  lookup-delete, lookup-insert, mem, mem-without, none, refl, some, true, without, ℤ, ◌∷◌, ◌≡◌,
}
use shrine.State.HostPorts.{HostPortStore, add_port, put, drop, drop_all, put_all}
use shrine.State.HostPorts.Ports.{
  values, mem-add_port, lookup-value, values-insert_new, values-delete, values-delete-sub,
}
use shrine.State.HostPorts.Invariant.{IsSound, put-IsSound, drop-IsSound}

-- One and the same store for all that a Go program can ask of it: sets and maps have no order.
pub record IsSame (s t : HostPortStore) : Type 0 where
  pub reserved_same : t.reserved ≡ s.reserved
  pub ports_same : (k : String) → lookup k t.ports ≡ lookup k s.ports
  pub taken_same : (p : ℤ) → mem p t.taken ≡ mem p s.taken

pub IsSame-refl : (s : HostPortStore) → IsSame s s
IsSame-refl s = record { reserved_same = refl; ports_same = λ k. refl; taken_same = λ p. refl }

-- A port that is free is put and dropped.
pub put-drop-IsSame :
    (key : String) (port : ℤ) (s : HostPortStore)
    → lookup key s.ports ≡ none
    → mem port s.taken ≡ false
    → IsSame s (drop key port (put key port s))
unfolding put drop
put-drop-IsSame key port s fresh free = record {
  reserved_same = refl;
  ports_same = λ k.
      ground
        (arith, lookup-delete k key (insert key port s.ports), lookup-insert k key port s.ports);
  taken_same =
      λ p. ground (arith, mem-without p port (add_port port s.taken), mem-add_port p port s.taken);
}

-- A port that is held is dropped and put.
pub drop-put-IsSame :
    (key : String) (port : ℤ) (s : HostPortStore)
    → lookup key s.ports ≡ some port
    → mem port s.taken ≡ true
    → IsSame s (put key port (drop key port s))
unfolding put drop
drop-put-IsSame key port s held taken = record {
  reserved_same = refl;
  ports_same = λ k.
      ground (arith, lookup-insert k key port (delete key s.ports), lookup-delete k key s.ports);
  taken_same =
      λ p. ground (arith, mem-add_port p port (without port s.taken), mem-without p port s.taken);
}

-- What ClaimHostPort leaves of a change of port that is not saved.
abbrev pub unmoved : String → ℤ → ℤ → HostPortStore → HostPortStore
unmoved key port previous s =
    let next = put key port s in
    record next {
      taken = add_port previous (without port (without previous next.taken));
      ports = insert key previous next.ports;
    }

pub unmoved-IsSame :
    (key : String) (port previous : ℤ) (s : HostPortStore)
    → lookup key s.ports ≡ some previous
    → mem port s.taken ≡ false
    → mem previous s.taken ≡ true
    → IsSame s (unmoved key port previous s)
unfolding put
unmoved-IsSame key port previous s held free taken = record {
  reserved_same = refl;
  ports_same = λ k. ground (
    arith,
    lookup-insert k key previous (insert key port s.ports),
    lookup-insert k key port s.ports,
  );
  taken_same = λ p. ground (
    arith,
    mem-add_port p previous (without port (without previous (add_port port s.taken))),
    mem-without p port (without previous (add_port port s.taken)),
    mem-without p previous (add_port port s.taken),
    mem-add_port p port s.taken,
  );
}

-- Entries of the map, each key once.
pub record AreHeld (rs : List (String × ℤ)) (s : HostPortStore) : Type 0 where
  pub once : Nodup (keys rs)
  pub held : All (λ r. lookup r.0 s.ports ≡ some r.1) rs

-- Keys without a port and ports that are free.
abbrev pub AreFree : List (String × ℤ) → HostPortStore → Type 0
AreFree rs s =
    All
      (λ r.
        (lookup r.0 s.ports ≡ none)
        × (mem r.1 s.reserved ≡ false)
        × (mem r.1 (values s.ports) ≡ false))
      rs

held_after_drop :
    (key : String) (port : ℤ) (rs : List (String × ℤ)) (s : HostPortStore)
    → mem key (keys rs) ≡ false
    → All (λ r. lookup r.0 s.ports ≡ some r.1) rs
    → All (λ r. lookup r.0 (drop key port s).ports ≡ some r.1) rs
unfolding drop mem
held_after_drop key port [] s h a = tt
held_after_drop key port ((k, p) ∷ rs) s h a = (
  ground (arith, lookup-delete k key s.ports, a.0),
  held_after_drop key port rs s (ground arith) a.1,
)

tail-AreHeld :
    (key : String) (port : ℤ) (rs : List (String × ℤ)) (s : HostPortStore)
    → AreHeld ((key, port) ∷ rs) s
    → AreHeld rs (drop key port s)
tail-AreHeld key port rs s h = record {
  once = h.once.1;
  held = held_after_drop key port rs s h.once.0 h.held.1;
}

pub drop_all-IsSound :
    (rs : List (String × ℤ)) (s : HostPortStore)
    → AreHeld rs s
    → IsSound s
    → IsSound (drop_all rs s)
unfolding drop_all
drop_all-IsSound [] s h i = i
drop_all-IsSound ((k, p) ∷ rs) s h i =
    drop_all-IsSound rs (drop k p s) (tail-AreHeld k p rs s h) (drop-IsSound k p s h.held.0 i)

-- What is gone, `drop_all` does not bring back.
drop_all-absent :
    (k : String) (p : ℤ) (rs : List (String × ℤ)) (s : HostPortStore)
    → lookup k s.ports ≡ none
    → mem p (values s.ports) ≡ false
    → (lookup k (drop_all rs s).ports ≡ none)
      × (mem p (values (drop_all rs s).ports) ≡ false)
      × ((drop_all rs s).reserved ≡ s.reserved)
unfolding drop_all drop
drop_all-absent k p [] s a b = (a, b, refl)
drop_all-absent k p ((j, q) ∷ rs) s a b =
    drop_all-absent k p rs (drop j q s) (ground (arith, lookup-delete k j s.ports))
      (ground (arith, values-delete-sub p j s.ports))

pub drop_all-AreFree :
    (rs : List (String × ℤ)) (s : HostPortStore)
    → AreHeld rs s
    → IsSound s
    → AreFree rs (drop_all rs s)
unfolding drop_all drop
drop_all-AreFree [] s h i = tt
drop_all-AreFree ((k, p) ∷ rs) s h i =
    let (gone, free, same) =
      drop_all-absent k p rs (drop k p s) (ground (arith, lookup-delete k k s.ports))
        (ground (arith, values-delete p k p s.ports i.keys_once i.ports_once h.held.0)) in
    (
      (gone, ground (arith, same, i.unreserved p, lookup-value k p s.ports h.held.0), free),
      drop_all-AreFree rs (drop k p s) (tail-AreHeld k p rs s h) (drop-IsSound k p s h.held.0 i),
    )

free_after_put :
    (key : String) (port : ℤ) (rs : List (String × ℤ)) (s : HostPortStore)
    → lookup key s.ports ≡ none
    → mem key (keys rs) ≡ false
    → mem port (values rs) ≡ false
    → AreFree rs s
    → AreFree rs (put key port s)
unfolding put mem
free_after_put key port [] s n h v a = tt
free_after_put key port ((k, p) ∷ rs) s n h v ((a, b, c), rest) = (
  (
    ground (arith, lookup-insert k key port s.ports),
    b,
    ground (arith, values-insert_new p key port s.ports n),
  ),
  free_after_put key port rs s n (ground arith) (ground arith) rest,
)

pub put_all-IsSound :
    (rs : List (String × ℤ)) (s : HostPortStore)
    → Nodup (keys rs)
    → Nodup (values rs)
    → AreFree rs s
    → IsSound s
    → IsSound (put_all rs s)
unfolding put_all
put_all-IsSound [] s d e a i = i
put_all-IsSound ((k, p) ∷ rs) s d e ((n, u, v), rest) i =
    put_all-IsSound rs (put k p s) d.1 e.1 (free_after_put k p rs s n d.0 e.0 rest)
      (put-IsSound k p s n u v i)
