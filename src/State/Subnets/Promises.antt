-- ===== src/State/Subnets/Promises.antt =====
-- What the store of networks promises after any operations.
use shrine.Prelude.{
  Bool, List, Option-cases, String, [], ap, arith, eq_int, eq_pair, eq_str, false, inl, inr, lookup,
  lookup-insert, mem, none, pos, refl, some, sym, true, ℕ, ℤ, ◌==◌, ◌∙◌, ◌∷◌, ◌≡◌, ◌≢◌, ◌≤◌, ◌⊎◌,
}
use shrine.State.HostPorts.{first_free, holder_of}
use shrine.State.HostPorts.Ports.{holder_of-values, holder_of-lookup}
use shrine.State.HostPorts.Keeps.{first_free-some, first_free-none}
use shrine.State.Subnets.{
  Cidr, SubnetStore, SubnetResult, allocate_octet, allocate_subnet, first_usable_octet, get_subnet,
  last_usable_octet, no_subnets, release_subnet, subnet_of, third_octet, allocated,
  no_available_subnets,
}
use shrine.State.Subnets.Apart.{
  IsApart, IsUsable, networks_of, allocate_subnet-IsApart, release_subnet-IsApart, get_subnet-own,
}

-- The operations that write.
pub data SubnetOp : Type 0 where
  allocate_op : String → SubnetOp
  release_op : String → SubnetOp

abbrev pub perform_op : (String → Cidr) → Bool → SubnetOp → SubnetStore → SubnetStore
perform_op parse saved (allocate_op team) s = (allocate_subnet saved team s).0
perform_op parse saved (release_op team) s = (release_subnet parse saved team s).0

-- One operation after the other, each with whether its file is written.
abbrev pub run_ops : (String → Cidr) → List (Bool × SubnetOp) → SubnetStore → SubnetStore
run_ops parse [] s = s
run_ops parse ((saved, op) ∷ ops) s = run_ops parse ops (perform_op parse saved op s)

lookup-networks :
    (team : String) (o : ℤ) (octets : List (String × ℤ))
    → lookup team octets ≡ some o
    → lookup team (networks_of octets) ≡ some (subnet_of o)
unfolding lookup
lookup-networks team o [] e = absurd (ground arith)
lookup-networks team o ((k, p) ∷ octets) e = ground (arith, lookup-networks team o octets)

-- An octet that is taken is the octet of a team.
taken-held :
    (o : ℤ) (s : SubnetStore) (octets : List (String × ℤ))
    → IsApart s octets
    → mem o s.taken ≡ true
    → (team : String) × (get_subnet team s ≡ some (subnet_of o))
unfolding get_subnet
taken-held o s octets h used = elim (Option-cases (holder_of o octets)) [
  | inl nobody ↦ absurd (ground (arith, holder_of-values o octets, h.taken_all o))
  | inr (team, found) ↦
      let held = holder_of-lookup o team octets h.teams_once found in
      (team, rw h.networks (lookup-networks team o octets held))
]

-- The network of an octet in the range is given to the team, and the others keep theirs.
pub record IsGiven (team : String) (s : SubnetStore) (o : ℕ) (r : SubnetStore × SubnetResult)
    : Type 0 where
  pub low : first_usable_octet ≤ o
  pub high : o ≤ last_usable_octet
  pub reported : r.1 ≡ allocated (subnet_of (pos o))
  pub held : get_subnet team r.0 ≡ some (subnet_of (pos o))
  pub others : (k : String) → (team == k) ≡ false → get_subnet k r.0 ≡ get_subnet k s

allocate_octet-IsGiven :
    (team : String) (o : ℕ) (s : SubnetStore)
    → first_usable_octet ≤ o
    → o ≤ last_usable_octet
    → IsGiven team s o (allocate_octet true team (some o) s)
unfolding allocate_octet get_subnet
allocate_octet-IsGiven team o s low high = record {
  low = low;
  high = high;
  reported = refl;
  held = ground (arith, lookup-insert team team (subnet_of (pos o)) s.subnets);
  others = λ k other. ground (arith, lookup-insert k team (subnet_of (pos o)) s.subnets);
}

module _ (parse : String → Cidr)
    (reads : (o : ℤ) → IsUsable o → parse (subnet_of o) ≡ third_octet o) where
  run_ops-IsApart :
      (ops : List (Bool × SubnetOp)) (s : SubnetStore) (octets : List (String × ℤ))
      → IsApart s octets
      → (next : List (String × ℤ)) × IsApart (run_ops parse ops s) next
  run_ops-IsApart [] s octets h = (octets, h)
  run_ops-IsApart ((saved, allocate_op team) ∷ ops) s octets h =
      let (next, kept) = allocate_subnet-IsApart saved team s octets h in
      run_ops-IsApart ops (allocate_subnet saved team s).0 next kept
  run_ops-IsApart ((saved, release_op team) ∷ ops) s octets h =
      let (next, kept) = release_subnet-IsApart parse reads saved team s octets h in
      run_ops-IsApart ops (release_subnet parse saved team s).0 next kept

  no_subnets-IsApart : IsApart no_subnets []
  unfolding mem
  no_subnets-IsApart = record {
    networks = refl;
    teams_once = tt;
    octets_once = tt;
    usable = λ o m. absurd (ground arith);
    taken_all = λ o. refl;
  }

  module _ (ops : List (Bool × SubnetOp)) where
    -- From a store without a file, whatever allocations and releases run and whichever of their
    -- writes fail, two teams have two networks, where net.ParseCIDR reads the third octet of the
    -- networks 10.100.5.0/24 to 10.100.255.0/24.
    pub run_ops_apart :
        (team other cidr other_cidr : String)
        → team ≢ other
        → get_subnet team (run_ops parse ops no_subnets) ≡ some cidr
        → get_subnet other (run_ops parse ops no_subnets) ≡ some other_cidr
        → cidr ≢ other_cidr
    run_ops_apart team other cidr other_cidr apart a b same =
        let (octets, h) = run_ops-IsApart ops no_subnets [] no_subnets-IsApart in
        apart (
          get_subnet-own parse reads team other cidr (run_ops parse ops no_subnets) octets h a
            (b ∙ ap (λ c. some c) (sym same)))

    -- After any such allocations and releases, AllocateSubnet, for a team without a network and when the file is
    -- written, gives the team one of the networks 10.100.5.0/24 to 10.100.255.0/24 and leaves the
    -- others theirs; or it changes nothing and reports that there is none, and then a team has each
    -- of them.
    pub allocate_subnet_total :
        (team : String)
        → get_subnet team (run_ops parse ops no_subnets) ≡ none
        → ((o : ℕ) × IsGiven team
              (run_ops parse ops no_subnets)
              o
              (allocate_subnet true team (run_ops parse ops no_subnets)))
          ⊎ ((allocate_subnet true team (run_ops parse ops no_subnets)
                ≡ (run_ops parse ops no_subnets, no_available_subnets))
              × ((q : ℕ)
                  → first_usable_octet ≤ q
                  → q ≤ last_usable_octet
                  → (k : String) × (get_subnet k (run_ops parse ops no_subnets)
                      ≡ some (subnet_of (pos q)))))
    unfolding allocate_subnet get_subnet
    allocate_subnet_total team fresh =
        let s = run_ops parse ops no_subnets in
        let (octets, h) = run_ops-IsApart ops no_subnets [] no_subnets-IsApart in
        elim (Option-cases (first_free 251 first_usable_octet s.taken)) [
          | inr (o, found) ↦
              let (low, high, free, rest) =
                first_free-some 251 first_usable_octet s.taken o found in
              inl (
                o,
                rw (fresh, allocate_subnet, found)
                    (allocate_octet-IsGiven team o s low (omega arith)),
              )
          | inl full ↦ inr (
            rw (fresh, allocate_subnet, full, allocate_octet) refl,
            λ q a b.
                taken-held (pos q) s octets h
                  (first_free-none 251 first_usable_octet s.taken full q a (omega arith)),
          )
        ]
