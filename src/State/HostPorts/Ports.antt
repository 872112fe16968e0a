-- ===== src/State/HostPorts/Ports.antt =====
-- The ports that a map of allocations holds.
use shrine.Prelude.{
  List, Nodup, String, [], arith, delete, eq_int, eq_pair, eq_str, false, insert, is_some, keys,
  lookup, map, mem, mem-keys, none, not, refl, some, true, ℤ, ◌&&◌, ◌==◌, ◌||◌, ◌∷◌, ◌≡◌,
}
use shrine.State.HostPorts.{add_port, add_ports, holder_of}

-- The values of the map.
abbrev pub values : List (String × ℤ) → List ℤ
values = map (λ r. r.1)

pub mem-add_port : (p q : ℤ) (ps : List ℤ) → mem p (add_port q ps) ≡ (q == p || mem p ps)
unfolding add_port mem
mem-add_port p q ps = ground arith

pub mem-add_ports : (p : ℤ) (qs ps : List ℤ) → mem p (add_ports qs ps) ≡ (mem p qs || mem p ps)
unfolding add_ports mem
mem-add_ports p [] ps = refl
mem-add_ports p (q ∷ qs) ps =
    ground (arith, mem-add_ports p qs (add_port q ps), mem-add_port p q ps)

pub lookup-value :
    (k : String) (q : ℤ) (m : List (String × ℤ)) → lookup k m ≡ some q → mem q (values m) ≡ true
unfolding lookup mem
lookup-value k q [] h = absurd (ground arith)
lookup-value k q ((j, w) ∷ m) h = ground (arith, lookup-value k q m)

-- Who holds a port.
pub holder_of-values : (p : ℤ) (m : List (String × ℤ)) → is_some (holder_of p m) ≡ mem p (values m)
unfolding holder_of mem
holder_of-values p [] = refl
holder_of-values p ((j, w) ∷ m) = ground (arith, holder_of-values p m)

pub holder_of-lookup :
    (p : ℤ) (k : String) (m : List (String × ℤ))
    → Nodup (keys m)
    → holder_of p m ≡ some k
    → lookup k m ≡ some p
unfolding holder_of lookup
holder_of-lookup p k [] d h = absurd (ground arith)
holder_of-lookup p k ((j, w) ∷ m) d h =
    ground (arith, holder_of-lookup p k m d.1, mem-keys k m, d.0)

-- With distinct ports, the holder of a port is the only key that has it.
pub lookup-holder_of :
    (p : ℤ) (k : String) (m : List (String × ℤ))
    → Nodup (values m)
    → lookup k m ≡ some p
    → holder_of p m ≡ some k
unfolding holder_of lookup
lookup-holder_of p k [] d h = absurd (ground arith)
lookup-holder_of p k ((j, w) ∷ m) d h =
    ground (arith, lookup-holder_of p k m d.1, lookup-value k p m, d.0)

-- A new key adds its port.
pub values-insert_new :
    (p : ℤ) (k : String) (v : ℤ) (m : List (String × ℤ))
    → lookup k m ≡ none
    → mem p (values (insert k v m)) ≡ (v == p || mem p (values m))
unfolding insert lookup mem
values-insert_new p k v [] h = refl
values-insert_new p k v ((j, w) ∷ m) h = ground (arith, values-insert_new p k v m)

-- A key that is there changes its port.
pub values-insert_old :
    (p : ℤ) (k : String) (v q : ℤ) (m : List (String × ℤ))
    → Nodup (values m)
    → lookup k m ≡ some q
    → mem p (values (insert k v m)) ≡ (v == p || (mem p (values m) && not (q == p)))
unfolding insert lookup mem
values-insert_old p k v q [] d h = absurd (ground arith)
values-insert_old p k v q ((j, w) ∷ m) d h =
    ground (arith, values-insert_old p k v q m d.1, d.0, lookup-value k q m)

pub values-insert-sub :
    (p : ℤ) (k : String) (v : ℤ) (m : List (String × ℤ))
    → mem p (values (insert k v m)) ≡ true
    → (v == p || mem p (values m)) ≡ true
unfolding insert mem
values-insert-sub p k v [] h = h
values-insert-sub p k v ((j, w) ∷ m) h = ground (arith, values-insert-sub p k v m)

pub values-insert-Nodup :
    (k : String) (v : ℤ) (m : List (String × ℤ))
    → Nodup (values m)
    → mem v (values m) ≡ false
    → Nodup (values (insert k v m))
unfolding insert mem
values-insert-Nodup k v [] d h = (refl, tt)
values-insert-Nodup k v ((j, w) ∷ m) d h =
    ground (arith, values-insert-Nodup k v m d.1, values-insert-sub w k v m, d.0)

delete-absent : (k : String) (m : List (String × ℤ)) → lookup k m ≡ none → delete k m ≡ m
unfolding delete lookup
delete-absent k [] h = refl
delete-absent k ((j, w) ∷ m) h = ground (arith, delete-absent k m)

pub values-delete :
    (p : ℤ) (k : String) (q : ℤ) (m : List (String × ℤ))
    → Nodup (keys m)
    → Nodup (values m)
    → lookup k m ≡ some q
    → mem p (values (delete k m)) ≡ (mem p (values m) && not (q == p))
unfolding delete lookup mem
values-delete p k q [] c d h = absurd (ground arith)
values-delete p k q ((j, w) ∷ m) c d h = ground (
  arith,
  values-delete p k q m c.1 d.1,
  d.0,
  c.0,
  lookup-value k q m,
  delete-absent k m,
  mem-keys j m,
)

pub values-delete-sub :
    (p : ℤ) (k : String) (m : List (String × ℤ))
    → mem p (values (delete k m)) ≡ true
    → mem p (values m) ≡ true
unfolding delete mem
values-delete-sub p k [] h = h
values-delete-sub p k ((j, w) ∷ m) h = ground (arith, values-delete-sub p k m)

pub values-delete-Nodup :
    (k : String) (m : List (String × ℤ)) → Nodup (values m) → Nodup (values (delete k m))
unfolding delete mem
values-delete-Nodup k [] d = tt
values-delete-Nodup k ((j, w) ∷ m) d =
    ground (arith, values-delete-Nodup k m d.1, values-delete-sub w k m, d.0)
