-- ===== src/State/HostPorts/Invariant.antt =====
-- What holds of a store of ports whichever operations have run.
use shrine.Prelude.{
  List, Nodup, String, arith, eq_int, eq_pair, eq_str, false, keys, keys-delete-Nodup,
  keys-insert-Nodup, lookup, mem, mem-without, none, some, true, without, ℤ, ◌||◌, ◌≡◌,
}
use shrine.State.HostPorts.{HostPortStore, add_port, new_store, put, drop}
use shrine.State.HostPorts.Ports.{
  values, mem-add_port, lookup-value, values-insert_new, values-insert_old, values-insert-Nodup,
  values-delete, values-delete-Nodup,
}

-- Each workload has one port, no port has two workloads, none of them is reserved, and `taken` holds
-- the reserved ports and the ports of the workloads, and no others.
pub record IsSound (s : HostPortStore) : Type 0 where
  pub keys_once : Nodup (keys s.ports)
  pub ports_once : Nodup (values s.ports)
  pub unreserved : (p : ℤ) → mem p (values s.ports) ≡ true → mem p s.reserved ≡ false
  pub taken_all : (p : ℤ) → mem p s.taken ≡ (mem p s.reserved || mem p (values s.ports))

pub new_store-IsSound : (reserved : List ℤ) → IsSound (new_store reserved)
unfolding new_store mem
new_store-IsSound reserved = record {
  keys_once = tt;
  ports_once = tt;
  unreserved = λ p m. absurd (ground arith);
  taken_all = λ p. ground arith;
}

-- A free port for a key that has none.
pub put-IsSound :
    (key : String) (port : ℤ) (s : HostPortStore)
    → lookup key s.ports ≡ none
    → mem port s.reserved ≡ false
    → mem port (values s.ports) ≡ false
    → IsSound s
    → IsSound (put key port s)
unfolding put
put-IsSound key port s fresh free apart h = record {
  keys_once = keys-insert-Nodup key port s.ports h.keys_once;
  ports_once = values-insert-Nodup key port s.ports h.ports_once apart;
  unreserved = λ p m. ground (arith, h.unreserved p, values-insert_new p key port s.ports fresh);
  taken_all = λ p. ground (
    arith,
    h.taken_all p,
    mem-add_port p port s.taken,
    values-insert_new p key port s.ports fresh,
  );
}

-- The port of a key is given back.
pub drop-IsSound :
    (key : String) (port : ℤ) (s : HostPortStore)
    → lookup key s.ports ≡ some port
    → IsSound s
    → IsSound (drop key port s)
unfolding drop
drop-IsSound key port s held h = record {
  keys_once = keys-delete-Nodup key s.ports h.keys_once;
  ports_once = values-delete-Nodup key s.ports h.ports_once;
  unreserved = λ p m.
      ground
        (arith, h.unreserved p, values-delete p key port s.ports h.keys_once h.ports_once held);
  taken_all = λ p. ground (
    arith,
    h.taken_all p,
    h.unreserved p,
    mem-without p port s.taken,
    lookup-value key port s.ports held,
    values-delete p key port s.ports h.keys_once h.ports_once held,
  );
}

-- The port of a key is exchanged for a free one.
pub move-IsSound :
    (key : String) (port previous : ℤ) (s : HostPortStore)
    → lookup key s.ports ≡ some previous
    → mem port s.reserved ≡ false
    → mem port (values s.ports) ≡ false
    → IsSound s
    → IsSound (record (put key port s) { taken = without previous (put key port s).taken })
unfolding put
move-IsSound key port previous s held free apart h = record {
  keys_once = keys-insert-Nodup key port s.ports h.keys_once;
  ports_once = values-insert-Nodup key port s.ports h.ports_once apart;
  unreserved = λ p m.
      ground
        (arith, h.unreserved p, values-insert_old p key port previous s.ports h.ports_once held);
  taken_all = λ p. ground (
    arith,
    h.taken_all p,
    h.unreserved p,
    mem-without p previous (add_port port s.taken),
    mem-add_port p port s.taken,
    lookup-value key previous s.ports held,
    values-insert_old p key port previous s.ports h.ports_once held,
  );
}
