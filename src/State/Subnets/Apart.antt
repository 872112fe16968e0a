-- ===== src/State/Subnets/Apart.antt =====
-- No two teams have one network.
use shrine.Prelude.{
  Bool, Bool-cases, List, Nodup, Option-cases, String, [], ap, arith, dec_int, delete, eq_int,
  eq_pair, eq_str, false, inl, inr, insert, keys, keys-delete-Nodup, keys-insert-Nodup, lookup,
  lookup-insert, mem, mem-without, none, pos, refl, some, subst, sym, true, without, ℕ, ℤ, ◌==◌,
  ◌∙◌, ◌∷◌, ◌≡◌, ◌≤◌,
}
use shrine.State.HostPorts.{add_port, first_free}
use shrine.State.HostPorts.Ports.{
  values, mem-add_port, lookup-value, values-insert_new, values-insert-Nodup, values-delete,
  values-delete-Nodup, lookup-holder_of,
}
use shrine.State.HostPorts.Keeps.{first_free-some}
use shrine.State.Subnets.{
  Cidr, SubnetStore, allocate_octet, allocate_subnet, first_usable_octet, get_subnet,
  last_usable_octet, release_subnet, subnet_of, third_octet,
}

-- An octet that the store gives out.
abbrev pub IsUsable : ℤ → Type 0
IsUsable o = (n : ℕ) × (o ≡ pos n) × (first_usable_octet ≤ n) × (n ≤ last_usable_octet)

-- The networks of a map from teams to octets.
abbrev pub networks_of : List (String × ℤ) → List (String × String)
networks_of [] = []
networks_of ((team, o) ∷ octets) = (team, subnet_of o) ∷ networks_of octets

-- Each team has one octet that the store gives out, no octet has two teams, and `taken` holds the
-- octets of the teams and no others.
pub record IsApart (s : SubnetStore) (octets : List (String × ℤ)) : Type 0 where
  pub networks : s.subnets ≡ networks_of octets
  pub teams_once : Nodup (keys octets)
  pub octets_once : Nodup (values octets)
  pub usable : (o : ℤ) → mem o (values octets) ≡ true → IsUsable o
  pub taken_all : (o : ℤ) → mem o s.taken ≡ mem o (values octets)

pub lookup-networks_none :
    (team : String) (octets : List (String × ℤ))
    → lookup team (networks_of octets) ≡ none
    → lookup team octets ≡ none
unfolding lookup
lookup-networks_none team [] e = refl
lookup-networks_none team ((k, o) ∷ octets) e = ground (arith, lookup-networks_none team octets)

pub lookup-networks_some :
    (team cidr : String) (octets : List (String × ℤ))
    → lookup team (networks_of octets) ≡ some cidr
    → (o : ℤ) × (lookup team octets ≡ some o) × (cidr ≡ subnet_of o)
unfolding lookup
lookup-networks_some team cidr [] e = absurd (ground arith)
lookup-networks_some team cidr ((k, o) ∷ octets) e = elim (Bool-cases (k == team)) [
  | inl same ↦ (o, ground arith, ground arith)
  | inr other ↦
      let (p, found, is) = lookup-networks_some team cidr octets (ground arith) in
      (p, ground arith, is)
]

pub insert-networks :
    (team : String) (o : ℤ) (octets : List (String × ℤ))
    → insert team (subnet_of o) (networks_of octets) ≡ networks_of (insert team o octets)
unfolding insert
insert-networks team o [] = refl
insert-networks team o ((k, p) ∷ octets) = ground (arith, insert-networks team o octets)

delete-networks :
    (team : String) (octets : List (String × ℤ))
    → delete team (networks_of octets) ≡ networks_of (delete team octets)
unfolding delete
delete-networks team [] = refl
delete-networks team ((k, p) ∷ octets) = ground (arith, delete-networks team octets)

-- A free octet for a team that has none.
with_octet : String → ℤ → SubnetStore → SubnetStore
with_octet team o s = record {
  subnets = insert team (subnet_of o) s.subnets;
  taken = add_port o s.taken;
}

-- The octet of a team is given back.
abbrev without_octet : String → ℤ → SubnetStore → SubnetStore
without_octet team o s = record { subnets = delete team s.subnets; taken = without o s.taken }

with_octet-IsApart :
    (team : String) (o : ℤ) (s : SubnetStore) (octets : List (String × ℤ))
    → lookup team octets ≡ none
    → mem o (values octets) ≡ false
    → IsUsable o
    → IsApart s octets
    → IsApart (with_octet team o s) (insert team o octets)
unfolding with_octet
with_octet-IsApart team o s octets fresh free good h = record {
  networks = rw h.networks (insert-networks team o octets);
  teams_once = keys-insert-Nodup team o octets h.teams_once;
  octets_once = values-insert-Nodup team o octets h.octets_once free;
  usable = λ p m. elim (dec_int o p) [
    | yes same ↦ subst IsUsable same good
    | no other ↦ h.usable p (ground (arith, values-insert_new p team o octets fresh))
  ];
  taken_all = λ p.
      ground
        (arith, h.taken_all p, mem-add_port p o s.taken, values-insert_new p team o octets fresh);
}

without_octet-IsApart :
    (team : String) (o : ℤ) (s : SubnetStore) (octets : List (String × ℤ))
    → lookup team octets ≡ some o
    → IsApart s octets
    → IsApart (without_octet team o s) (delete team octets)
without_octet-IsApart team o s octets held h = record {
  networks = rw h.networks (delete-networks team octets);
  teams_once = keys-delete-Nodup team octets h.teams_once;
  octets_once = values-delete-Nodup team octets h.octets_once;
  usable = λ p m.
      h.usable p (ground (arith, values-delete p team o octets h.teams_once h.octets_once held));
  taken_all = λ p. ground (
    arith,
    h.taken_all p,
    mem-without p o s.taken,
    values-delete p team o octets h.teams_once h.octets_once held,
  );
}

allocate_octet-IsApart :
    (saved : Bool) (team : String) (o : ℕ) (s : SubnetStore) (octets : List (String × ℤ))
    → lookup team octets ≡ none
    → mem (pos o) (values octets) ≡ false
    → IsUsable (pos o)
    → IsApart s octets
    → (next : List (String × ℤ)) × IsApart (allocate_octet saved team (some o) s).0 next
unfolding allocate_octet with_octet
allocate_octet-IsApart true team o s octets fresh free good h =
    (_, with_octet-IsApart team (pos o) s octets fresh free good h)
allocate_octet-IsApart false team o s octets fresh free good h = (
  _,
  without_octet-IsApart team (pos o) (with_octet team (pos o) s) (insert team (pos o) octets)
      (ground (arith, lookup-insert team team (pos o) octets))
      (with_octet-IsApart team (pos o) s octets fresh free good h),
)

pub allocate_subnet-IsApart :
    (saved : Bool) (team : String) (s : SubnetStore) (octets : List (String × ℤ))
    → IsApart s octets
    → (next : List (String × ℤ)) × IsApart (allocate_subnet saved team s).0 next
unfolding allocate_subnet
allocate_subnet-IsApart saved team s octets h = elim (Option-cases (lookup team s.subnets)) [
  | inr (cidr, found) ↦ rw (found, allocate_subnet) (octets, h)
  | inl fresh ↦ elim (Option-cases (first_free 251 first_usable_octet s.taken)) [
    | inl full ↦ rw (fresh, allocate_subnet, full, allocate_octet) (octets, h)
    | inr (o, found) ↦
        let (low, high, free, rest) = first_free-some 251 first_usable_octet s.taken o found in
        rw (fresh, allocate_subnet, found)
          (allocate_octet-IsApart saved team o s octets
            (lookup-networks_none team octets (ground (arith, h.networks)))
            (ground (arith, h.taken_all (pos o))) (o, refl, low, omega arith) h)
  ]
]

module _ (parse : String → Cidr)
    (reads : (o : ℤ) → IsUsable o → parse (subnet_of o) ≡ third_octet o) where
  pub release_subnet-IsApart :
      (saved : Bool) (team : String) (s : SubnetStore) (octets : List (String × ℤ))
      → IsApart s octets
      → (next : List (String × ℤ)) × IsApart (release_subnet parse saved team s).0 next
  unfolding release_subnet
  release_subnet-IsApart saved team s octets h = elim (Option-cases (lookup team s.subnets)) [
    | inl gone ↦ rw (gone, release_subnet) (octets, h)
    | inr (cidr, found) ↦
        let (o, held, is) =
          lookup-networks_some team cidr octets
            (subst (λ m. lookup team m ≡ some cidr) h.networks found) in
        let good = h.usable o (lookup-value team o octets held) in
        rw (found, release_subnet, is, reads o good)
          (_, without_octet-IsApart team o s octets held h)
  ]

  -- With distinct octets, the network of a team is its own.
  pub get_subnet-own :
      (team other cidr : String) (s : SubnetStore) (octets : List (String × ℤ))
      → IsApart s octets
      → get_subnet team s ≡ some cidr
      → get_subnet other s ≡ some cidr
      → team ≡ other
  unfolding get_subnet
  get_subnet-own team other cidr s octets h a b =
      let (o, held, is) =
        lookup-networks_some team cidr octets
          (subst (λ m. lookup team m ≡ some cidr) h.networks a) in
      let (p, has, at) =
        lookup-networks_some other cidr octets
          (subst (λ m. lookup other m ≡ some cidr) h.networks b) in
      let x = reads o (h.usable o (lookup-value team o octets held)) in
      let y = reads p (h.usable p (lookup-value other p octets has)) in
      let one : third_octet o ≡ third_octet p = sym x ∙ ap parse (sym is ∙ at) ∙ y in
      let same : o ≡ p = ground arith in
      let q = lookup-holder_of o team octets h.octets_once held in
      let r = lookup-holder_of p other octets h.octets_once has in ground (arith, q, r, same)
