-- ===== src/Planner/HostPorts/Claims.antt =====
-- When the detector of host ports reports nothing.
use shrine.Prelude.{
  All, All-imp, Bool, List, Nodup, Option, String, [], ap, append-eq-nil_iff, arith, eq_int,
  eq_pair, eq_str, false, if◌then◌else◌, insert, length, length-sort_by, lookup, lookup-insert, mem,
  none, refl, some, sort_by, subst, sym, true, ℤ, ◌==◌, ◌↔◌, ◌∷◌, ◌≡◌,
}
use shrine.Planner.Loader.{ManifestSet}
use shrine.State.HostPorts.Ports.{values}
use shrine.Planner.HostPorts.{
  PortContext, Claim, PortConflict, claims_of, persisted_holders, other_ref, collision_errors,
  seen_after, taken_errors, scan_claims, detect_host_port_collisions, port_reserved,
}

-- Whoever has the port, if anyone has, is the reference.
abbrev pub is_own : Option String → String → Bool
is_own none ref = true
is_own (some holder) ref = holder == ref

-- A claim of a port that is not the gateway's and that no other workload holds from before.
pub record IsGrantable (reserved : List ℤ) (persisted : List (String × ℤ)) (c : Claim)
    : Type 0 where
  pub unreserved : mem c.port reserved ≡ false
  pub own : All (λ e. (if e.1 == c.port then e.0 == c.ref else true) ≡ true) persisted

-- The same, of the map from the ports to their holders.
record IsFree (reserved : List ℤ) (holders : List (ℤ × String)) (c : Claim) : Type 0 where
  unreserved : mem c.port reserved ≡ false
  own : is_own (lookup c.port holders) c.ref ≡ true

-- No two references claim one port.
abbrev pub OnePerPort : List Claim → Type 0
OnePerPort [] = Unit {0}
OnePerPort (c ∷ cs) =
    All (λ d. (if c.port == d.port then c.ref == d.ref else true) ≡ true) cs × OnePerPort cs

abbrev SeenOwn : List (ℤ × String) → List Claim → Type 0
SeenOwn seen cs = All (λ d. is_own (lookup d.port seen) d.ref ≡ true) cs

seen_insert :
    (c : Claim) (seen : List (ℤ × String)) (cs : List Claim)
    → is_own (lookup c.port seen) c.ref ≡ true
    → SeenOwn (insert c.port c.ref seen) cs
      ↔ (SeenOwn seen cs × All (λ d. (if c.port == d.port then c.ref == d.ref else true) ≡ true) cs)
seen_insert c seen [] own = (λ h. (tt, tt), λ h. tt)
seen_insert c seen (d ∷ cs) own =
    let (split_all, join_all) = seen_insert c seen cs own in
    let there = lookup-insert d.port c.port c.ref seen in
    (
      λ h. (
        (ground (arith, h.0, there), (split_all h.1).0),
        (ground (arith, h.0, there), (split_all h.1).1),
      ),
      λ h. (ground (arith, h.0.0, h.1.0, there), join_all (h.0.1, h.1.1)),
    )

own_iff : (o : Option String) (ref : String) → (other_ref ref o ≡ none) ↔ (is_own o ref ≡ true)
own_iff none ref = (λ h. refl, λ h. refl)
own_iff (some holder) ref = (λ h. ground arith, λ h. ground arith)

collision_errors-nil : (c : Claim) (o : Option String) → (collision_errors c o ≡ []) ↔ (o ≡ none)
collision_errors-nil c none = (λ h. refl, λ h. refl)
collision_errors-nil c (some p) = (λ h. absurd (ground arith), λ h. absurd (ground arith))

taken_errors-nil : (c : Claim) (o : Option String) → (taken_errors c o ≡ []) ↔ (o ≡ none)
taken_errors-nil c none = (λ h. refl, λ h. refl)
taken_errors-nil c (some p) = (λ h. absurd (ground arith), λ h. absurd (ground arith))

module _ (reserved : List ℤ) (holders : List (ℤ × String)) where
  abbrev reserved_errors : Claim → List PortConflict
  reserved_errors c = if mem c.port reserved then port_reserved c.port c.ref ∷ [] else []

  claim_sound :
      (c : Claim)
      → reserved_errors c ≡ []
      → taken_errors c (other_ref c.ref (lookup c.port holders)) ≡ []
      → IsFree reserved holders c
  claim_sound c r t = record {
    unreserved = ground arith;
    own =
        (own_iff (lookup c.port holders) c.ref).0
          ((taken_errors-nil c (other_ref c.ref (lookup c.port holders))).0 t);
  }

  scan_sound :
      (cs : List Claim) (seen : List (ℤ × String))
      → scan_claims reserved holders cs seen ≡ []
      → SeenOwn seen cs × All (IsFree reserved holders) cs × OnePerPort cs
  unfolding scan_claims
  scan_sound [] seen h = (tt, tt, tt)
  scan_sound (c ∷ cs) seen h =
      let prior = other_ref c.ref (lookup c.port seen) in
      let (a, h1) = (append-eq-nil_iff (collision_errors c prior) _).0 h in
      let (b, h2) = (append-eq-nil_iff (reserved_errors c) _).0 h1 in
      let (t, h3) =
        (append-eq-nil_iff (taken_errors c (other_ref c.ref (lookup c.port holders))) _).0 h2 in
      let none_prior : prior ≡ none = (collision_errors-nil c prior).0 a in
      let own = (own_iff (lookup c.port seen) c.ref).0 none_prior in
      let (s, g, p) =
        scan_sound cs (insert c.port c.ref seen)
          (subst (λ o. scan_claims reserved holders cs (seen_after c o seen) ≡ []) none_prior h3) in
      let (rest, apart) = (seen_insert c seen cs own).0 s in
      ((own, rest), (claim_sound c b t, g), (apart, p))

  scan_complete :
      (cs : List Claim) (seen : List (ℤ × String))
      → SeenOwn seen cs × All (IsFree reserved holders) cs × OnePerPort cs
      → scan_claims reserved holders cs seen ≡ []
  unfolding scan_claims
  scan_complete [] seen h = refl
  scan_complete (c ∷ cs) seen ((own, rest), (grant, g), (apart, p)) =
      let prior = other_ref c.ref (lookup c.port seen) in
      let none_prior : prior ≡ none = (own_iff (lookup c.port seen) c.ref).1 own in
      let free_holder = (own_iff (lookup c.port holders) c.ref).1 grant.own in
      let after =
        scan_complete cs (insert c.port c.ref seen)
          ((seen_insert c seen cs own).1 (rest, apart), g, p) in
      (append-eq-nil_iff (collision_errors c prior) _).1 (
        (collision_errors-nil c prior).1 none_prior,
        (append-eq-nil_iff (reserved_errors c) _).1 (
          ground (arith, grant.unreserved),
          (append-eq-nil_iff (taken_errors c (other_ref c.ref (lookup c.port holders))) _).1 (
            (taken_errors-nil c _).1 free_holder,
            subst (λ o. scan_claims reserved holders cs (seen_after c o seen) ≡ []) (sym none_prior)
                after,
          ),
        ),
      )

sort_by-nil :
    (message : PortConflict → String) (xs : List PortConflict)
    → (sort_by message xs ≡ []) ↔ (xs ≡ [])
sort_by-nil message [] = (λ h. refl, λ h. unfold sort_by in refl)
sort_by-nil message (x ∷ xs) = (
  λ h. absurd (omega (arith, ap length h, length-sort_by message (x ∷ xs))),
  λ h. absurd (omega (arith, ap length h)),
)

unseen : (cs : List Claim) → SeenOwn [] cs
unfolding lookup
unseen [] = tt
unseen (c ∷ cs) = (refl, unseen cs)

-- With each port once, the map has the holder that the entries have.
holders_iff :
    (c : Claim) (persisted : List (String × ℤ)) (holders : List (ℤ × String))
    → Nodup (values persisted)
    → ((p : ℤ) → mem p (values persisted) ≡ true → lookup p holders ≡ none)
    → (is_own (lookup c.port (persisted_holders persisted holders)) c.ref ≡ true) ↔ (
        (is_own (lookup c.port holders) c.ref ≡ true)
        × All (λ e. (if e.1 == c.port then e.0 == c.ref else true) ≡ true) persisted)
unfolding persisted_holders
holders_iff c [] holders once fresh = (λ h. (h, tt), λ h. h.0)
holders_iff c ((key, p) ∷ persisted) holders once fresh =
    let there = lookup-insert c.port p key holders in
    let unheld : lookup p holders ≡ none = fresh p (unfold mem in ground arith) in
    let (out_of, into) = holders_iff c persisted (insert p key holders) once.1 (λ q m.
      ground (
        arith,
        once.0,
        lookup-insert q p key holders,
        fresh q (unfold mem in ground (arith, m)),
      )) in
    (
      λ h. (
        ground (arith, (out_of h).0, there, unheld),
        (ground (arith, (out_of h).0, there, unheld), (out_of h).1),
      ),
      λ h. into (ground (arith, h.0, h.1.0, there, unheld), h.1.1),
    )

module _ (reserved : List ℤ) (persisted : List (String × ℤ)) (once : Nodup (values persisted)) where
  IsFree-iff :
      (c : Claim)
      → IsFree reserved (persisted_holders persisted []) c ↔ IsGrantable reserved persisted c
  unfolding lookup
  IsFree-iff c =
      let (out_of, into) = holders_iff c persisted [] once (λ p m. refl) in
      (
        λ f. record { unreserved = f.unreserved; own = (out_of f.own).1 },
        λ g. record { unreserved = g.unreserved; own = into (refl, g.own) },
      )

-- The same, of the sorted claims that the detector scans.
pub claims_iff :
    (message : PortConflict → String) (set : ManifestSet) (ports : PortContext)
    → Nodup (values ports.persisted)
    → let claims = sort_by (λ c. c.ref) (claims_of set.applications) in
      (detect_host_port_collisions message set ports ≡ [])
      ↔ (All (IsGrantable ports.reserved ports.persisted) claims × OnePerPort claims)
unfolding detect_host_port_collisions
claims_iff message set ports once =
    let claims = sort_by (λ c. c.ref) (claims_of set.applications) in
    let holders = persisted_holders ports.persisted [] in
    let same = IsFree-iff ports.reserved ports.persisted once in
    let (unsort, sort) = sort_by-nil message (scan_claims ports.reserved holders claims []) in
    (
      λ h.
          let (s, g, p) = scan_sound ports.reserved holders claims [] (unsort h) in
          (All-imp (λ c f. (same c).0 f) claims g, p),
      λ h. sort (
          scan_complete ports.reserved holders claims []
            (unseen claims, All-imp (λ c g. (same c).1 g) claims h.0, h.1)),
    )
