-- ===== src/Planner/HostPorts/Explicit.antt =====
-- The explicit ports of a set, described without the detector.
use shrine.Prelude.{
  All, Bool-cases, List, Nodup, Option, String, [], ap, arith, eq_int, eq_pair, eq_str, false,
  if◌then◌else◌, inl, inr, insert_by, int_leb, none, pos, refl, some, sort_by, str_leb, subst, sym,
  true, ◌++◌, ◌==◌, ◌↔◌, ◌∙◌, ◌∷◌, ◌≡◌, ◌⊎◌,
}
use shrine.Manifest.{ApplicationManifest, Publish}
use shrine.State.HostPorts.{host_port_key}
use shrine.State.HostPorts.Ports.{values}
use shrine.Planner.Loader.{ManifestSet}
use shrine.Planner.HostPorts.{
  PortContext, Claim, PortConflict, claim_of, claims_of, detect_host_port_collisions,
}
use shrine.Planner.HostPorts.Claims.{IsGrantable, OnePerPort, claims_iff}

-- An application asks for a port of its own.
pub record Asks (app : ApplicationManifest) (c : Claim) : Type 0 where
  pub publish : Publish
  pub given : app.spec.networking.publish ≡ some publish
  pub positive : int_leb publish.host_port (pos 0) ≡ false
  pub ref : c.ref ≡ host_port_key app.metadata.owner app.metadata.name
  pub port : c.port ≡ publish.host_port

-- Some application of the map asks for the port.
abbrev pub IsExplicit : List (String × ApplicationManifest) → Claim → Type 0
IsExplicit [] c = ⊥
IsExplicit ((n, app) ∷ apps) c = Asks app c ⊎ IsExplicit apps c

-- Every explicit port is neither reserved nor persisted for another workload, and one port is asked
-- for under one reference.
pub record ArePortsFree (set : ManifestSet) (ports : PortContext) : Type 0 where
  pub grantable :
      (c : Claim) → IsExplicit set.applications c → IsGrantable ports.reserved ports.persisted c
  pub apart :
      (c d : Claim)
      → IsExplicit set.applications c
      → IsExplicit set.applications d
      → c.port ≡ d.port
      → c.ref ≡ d.ref

abbrev IsIn : Claim → List Claim → Type 0
IsIn c [] = ⊥
IsIn c (x ∷ xs) = (c ≡ x) ⊎ IsIn c xs

IsIn-append : (c : Claim) (xs ys : List Claim) → IsIn c (xs ++ ys) ↔ (IsIn c xs ⊎ IsIn c ys)
IsIn-append c [] ys = (λ h. inr h, λ h. elim h [ inl a ↦ absurd a | inr b ↦ b ])
IsIn-append c (x ∷ xs) ys =
    let (out_of, into) = IsIn-append c xs ys in
    (
      λ h. elim h [
        | inl e ↦ inl (inl e)
        | inr k ↦ elim (out_of k) [ inl a ↦ inl (inr a) | inr b ↦ inr b ]
      ],
      λ h. elim h [
        | inl a ↦ elim a [ inl e ↦ inl e | inr k ↦ inr (into (inl k)) ]
        | inr b ↦ inr (into (inr b))
      ],
    )

IsIn-insert_by :
    (c x : Claim) (xs : List Claim) → IsIn c (insert_by (λ k. k.ref) x xs) ↔ ((c ≡ x) ⊎ IsIn c xs)
unfolding insert_by
IsIn-insert_by c x [] = (λ h. h, λ h. h)
IsIn-insert_by c x (y ∷ ys) = elim (Bool-cases (str_leb x.ref y.ref)) [
  | inl low ↦ rw low (λ h. h, λ h. h)
  | inr high ↦
      let (out_of, into) = IsIn-insert_by c x ys in
      rw high (
        λ h. elim h [
          | inl e ↦ inr (inl e)
          | inr k ↦ elim (out_of k) [ inl a ↦ inl a | inr b ↦ inr (inr b) ]
        ],
        λ h. elim h [
          | inl e ↦ inr (into (inl e))
          | inr k ↦ elim k [ inl e ↦ inl e | inr b ↦ inr (into (inr b)) ]
        ],
      )
]

IsIn-sort_by : (c : Claim) (xs : List Claim) → IsIn c (sort_by (λ k. k.ref) xs) ↔ IsIn c xs
unfolding sort_by
IsIn-sort_by c [] = (λ h. h, λ h. h)
IsIn-sort_by c (x ∷ xs) =
    let (out_of, into) = IsIn-insert_by c x (sort_by (λ k. k.ref) xs) in
    let (unsort, sort) = IsIn-sort_by c xs in
    (
      λ h. elim (out_of h) [ inl e ↦ inl e | inr k ↦ inr (unsort k) ],
      λ h. elim h [ inl e ↦ into (inl e) | inr k ↦ into (inr (sort k)) ],
    )

claim_of_iff :
    (c : Claim) (app : ApplicationManifest) (o : Option Publish)
    → app.spec.networking.publish ≡ o
    → IsIn c (claim_of app o) ↔ Asks app c
unfolding claim_of
claim_of_iff c app none e = (λ h. absurd h, λ a. absurd (ground (arith, e, a.given)))
claim_of_iff c app (some p) e = elim (Bool-cases (int_leb p.host_port (pos 0))) [
  | inl auto ↦ rw auto (λ h. absurd h, λ a. absurd (ground (arith, e, a.given, a.positive, auto)))
  | inr given ↦ rw given (
    λ h. elim h [
      | inl same ↦ record {
        publish = p;
        given = e;
        positive = given;
        ref = ap (λ k. k.ref) same;
        port = ap (λ k. k.port) same;
      }
      | inr b ↦ absurd b
    ],
    λ a.
        let one : a.publish ≡ p = ground (arith, e, a.given) in
        let port : c.port ≡ p.host_port = a.port ∙ ap (λ k. k.host_port) one in
        let ref = a.ref in inl (ground (arith, port, ref)),
  )
]

claims_of_iff :
    (c : Claim) (apps : List (String × ApplicationManifest))
    → IsIn c (claims_of apps) ↔ IsExplicit apps c
unfolding claims_of
claims_of_iff c [] = (λ h. h, λ h. h)
claims_of_iff c ((n, app) ∷ apps) =
    let claim = claim_of app app.spec.networking.publish in
    let (out_of, into) = IsIn-append c claim (claims_of apps) in
    let (asks, asked) = claim_of_iff c app app.spec.networking.publish refl in
    let (sound, complete) = claims_of_iff c apps in
    (
      λ h. elim (out_of h) [ inl a ↦ inl (asks a) | inr b ↦ inr (sound b) ],
      λ h. elim h [ inl a ↦ into (inl (asked a)) | inr b ↦ into (inr (complete b)) ],
    )

All-IsIn {ℓ} : (P : Claim → Type ℓ) (xs : List Claim) → All P xs ↔ ((c : Claim) → IsIn c xs → P c)
All-IsIn P [] = (λ h c i. absurd i, λ h. tt)
All-IsIn P (x ∷ xs) =
    let (out_of, into) = All-IsIn P xs in
    (
      λ h c i. elim i [ inl e ↦ subst P (sym e) h.0 | inr k ↦ out_of h.1 c k ],
      λ h. (h x (inl refl), into (λ c i. h c (inr i))),
    )

-- One port, one reference.
abbrev SameRef : Claim → Claim → Type 0
SameRef c d = c.port ≡ d.port → c.ref ≡ d.ref

SameRef-iff :
    (c d : Claim) → ((if c.port == d.port then c.ref == d.ref else true) ≡ true) ↔ SameRef c d
SameRef-iff c d = (λ h e. ground arith, λ h. ground arith)

SameRef-sym : (c d : Claim) → SameRef c d → SameRef d c
SameRef-sym c d h e = sym (h (sym e))

OnePerPort-iff :
    (xs : List Claim) → OnePerPort xs ↔ ((c d : Claim) → IsIn c xs → IsIn d xs → SameRef c d)
OnePerPort-iff [] = (λ h c d i j. absurd i, λ h. tt)
OnePerPort-iff (x ∷ xs) =
    let Apart = λ (d : Claim). (if x.port == d.port then x.ref == d.ref else true) ≡ true in
    let (out_of, into) = OnePerPort-iff xs in
    let (every, all) = All-IsIn Apart xs in
    (
      λ h c d i j. elim i [
        | inl e ↦
            subst (λ k. SameRef k d) (sym e)
              (elim j [
                | inl f ↦ λ q. ap (λ k. k.ref) (sym f)
                | inr l ↦ (SameRef-iff x d).0 (every h.0 d l)
              ])
        | inr k ↦ elim j [
          | inl f ↦
              subst (λ m. SameRef c m) (sym f)
                (SameRef-sym x c ((SameRef-iff x c).0 (every h.0 c k)))
          | inr l ↦ out_of h.1 c d k l
        ]
      ],
      λ h. (
        all (λ d l. (SameRef-iff x d).1 (h x d (inl refl) (inr l))),
        into (λ c d k l. h c d (inr k) (inr l)),
      ),
    )

-- Where no port is persisted for two workloads, the detector of host ports reports nothing exactly
-- when every port that an application of the set asks for is neither the gateway's nor persisted
-- for another workload, and no port is asked for under two references.
pub detect_host_port_collisions_iff :
    (message : PortConflict → String) (set : ManifestSet) (ports : PortContext)
    → Nodup (values ports.persisted)
    → (detect_host_port_collisions message set ports ≡ []) ↔ ArePortsFree set ports
detect_host_port_collisions_iff message set ports once =
    let claims = sort_by (λ c. c.ref) (claims_of set.applications) in
    let listed : (c : Claim) → IsIn c claims → IsExplicit set.applications c = λ c i.
      (claims_of_iff c set.applications).0 ((IsIn-sort_by c (claims_of set.applications)).0 i) in
    let lists : (c : Claim) → IsExplicit set.applications c → IsIn c claims = λ c x.
      (IsIn-sort_by c (claims_of set.applications)).1 ((claims_of_iff c set.applications).1 x) in
    let (clean, silent) = claims_iff message set ports once in
    (
      λ h.
          let (g, p) = clean h in
          record {
            grantable = λ c x.
                (All-IsIn (IsGrantable ports.reserved ports.persisted) claims).0 g c (lists c x);
            apart = λ c d x y. (OnePerPort-iff claims).0 p c d (lists c x) (lists d y);
          },
      λ f. silent (
        (All-IsIn (IsGrantable ports.reserved ports.persisted) claims).1
            (λ c i. f.grantable c (listed c i)),
        (OnePerPort-iff claims).1 (λ c d i j. f.apart c d (listed c i) (listed d j)),
      ),
    )
