-- ===== src/Planner/Plan/Team.antt =====
-- What a plan for a team holds.
use shrine.Prelude.{
  Bool-cases, List, Option, String, [], arith, dec_str, eq_int, eq_pair, eq_str, false, inl, inr,
  lookup, none, refl, some, subst, true, ◌==◌, ◌↔◌, ◌∷◌, ◌≡◌, ◌⊎◌,
}
use shrine.Manifest.{ApplicationManifest, ResourceManifest, application_kind, resource_kind}
use shrine.Planner.Loader.{ManifestSet}
use shrine.Planner.Filter.{Filter, filter_team, named, validate_filter, validate_kind}
use shrine.Planner.Policy.{apply_effective_pull_policy}
use shrine.Planner.Enrich.{InferredEdge}
use shrine.Planner.Enrich.Chain.{IsEnrichedSet}
use shrine.Planner.Order.{PlannedStep, order, steps}
use shrine.Planner.Order.Keys.{IsKind}
use shrine.Planner.Order.Nodes.{IsNamed, deps_of, has_manifest}
use shrine.Planner.Order.Steps.{OnceEach, has_step, depends_on, order-BehindDeps, order-OnceEach}
use shrine.Planner.Enrich.{owner_of}
use shrine.Planner.Plan.{owner_or_empty, step_owner, filter_steps_by_owner}
use shrine.Planner.Plan.Kept.{
  BehindOwned, filter_steps_by_owner-BehindOwned, filter_steps_by_owner-has_step,
}
use shrine.Planner.Plan.Compose.{PlanContext, plan, planned}
use shrine.Planner.Plan.Promises.{IsSelected, plan-IsPlanned}

-- An application or a resource of the set has the kind and the name, and the team owns it.
abbrev pub IsOwned : ManifestSet → String → String → String → Type 0
IsOwned set owner kind name =
    ((app : ApplicationManifest) × (kind ≡ application_kind)
      × (lookup name set.applications ≡ some app)
      × (app.metadata.owner ≡ owner))
    ⊎ ((res : ResourceManifest) × (kind ≡ resource_kind)
        × (lookup name set.resources ≡ some res)
        × (res.metadata.owner ≡ owner))

-- Each step stands behind those of the manifests of the team that its own manifest depends on.
abbrev pub BehindTeam : ManifestSet → String → List PlannedStep → List PlannedStep → Type 0
BehindTeam set owner seen [] = Unit {0}
BehindTeam set owner seen (s ∷ xs) =
    ((kind name : String)
      → IsOwned set owner kind name
      → depends_on kind name (deps_of set s.kind s.name) ≡ true
      → has_step kind name seen ≡ true)
    × BehindTeam set owner (s ∷ seen) xs

same_text : (s t : String) → s ≡ t → (s == t) ≡ true
same_text s t e = ground arith

module _ (set : ManifestSet) (owner : String) where
  IsOwned-IsKind : (kind name : String) → IsOwned set owner kind name → IsKind kind
  IsOwned-IsKind kind name (inl (app, k, found, own)) = inr k
  IsOwned-IsKind kind name (inr (res, k, found, own)) = inl k

  IsOwned-has_manifest :
      (kind name : String) → IsOwned set owner kind name → has_manifest set kind name ≡ true
  unfolding dec_str
  IsOwned-has_manifest kind name (inl (app, k, found, own)) = rw (k, found) refl
  IsOwned-has_manifest kind name (inr (res, k, found, own)) = rw (k, found) refl

  IsOwned-step_owner :
      (kind name : String)
      → IsOwned set owner kind name
      → (step_owner set (record { kind = kind; name = name }) == owner) ≡ true
  unfolding step_owner dec_str
  IsOwned-step_owner kind name (inl (app, k, found, own)) = rw (k, found) (same_text _ owner own)
  IsOwned-step_owner kind name (inr (res, k, found, own)) = rw (k, found) (same_text _ owner own)

  -- The owner of a step, by what is found under its name.
  application-owner :
      (name : String) (o : Option ApplicationManifest)
      → (owner == "") ≡ false
      → lookup name set.applications ≡ o
      → (owner_or_empty (owner_of (λ app. app.metadata.owner) o) == owner) ≡ true
      → IsOwned set owner application_kind name
  application-owner name none full found e = absurd (ground (arith, full, e))
  application-owner name (some app) full found e = inl (app, refl, found, ground (arith, e))

  resource-owner :
      (name : String) (o : Option ResourceManifest)
      → (owner == "") ≡ false
      → lookup name set.resources ≡ o
      → (owner_or_empty (owner_of (λ res. res.metadata.owner) o) == owner) ≡ true
      → IsOwned set owner resource_kind name
  resource-owner name none full found e = absurd (ground (arith, full, e))
  resource-owner name (some res) full found e = inr (res, refl, found, ground (arith, e))

  step_owner-IsOwned :
      (kind name : String)
      → (owner == "") ≡ false
      → IsKind kind
      → (step_owner set (record { kind = kind; name = name }) == owner) ≡ true
      → IsOwned set owner kind name
  unfolding step_owner dec_str
  step_owner-IsOwned kind name full (inr k) e = rw k (
      application-owner name (lookup name set.applications) full refl
        (subst (λ j. (step_owner set (record { kind = j; name = name }) == owner) ≡ true) k e))
  step_owner-IsOwned kind name full (inl k) e = rw k (
      resource-owner name (lookup name set.resources) full refl
        (subst (λ j. (step_owner set (record { kind = j; name = name }) == owner) ≡ true) k e))

  BehindOwned-BehindTeam :
      (seen xs : List PlannedStep) → BehindOwned set owner seen xs → BehindTeam set owner seen xs
  BehindOwned-BehindTeam seen [] h = tt
  BehindOwned-BehindTeam seen (s ∷ xs) h = (
    λ kind name o dep.
        h.0 kind name (IsOwned-IsKind kind name o) (IsOwned-has_manifest kind name o)
          (IsOwned-step_owner kind name o) dep,
    BehindOwned-BehindTeam (s ∷ seen) xs h.1,
  )

  filter_steps_by_owner-OnceEach :
      (xs : List PlannedStep) → OnceEach xs → OnceEach (filter_steps_by_owner xs set owner)
  unfolding filter_steps_by_owner
  filter_steps_by_owner-OnceEach [] h = tt
  filter_steps_by_owner-OnceEach (s ∷ xs) h = elim (Bool-cases (step_owner set s == owner)) [
    | inl mine ↦ rw mine (
      ground (arith, h.0, filter_steps_by_owner-has_step s.kind s.name owner xs set),
      filter_steps_by_owner-OnceEach xs h.1,
    )
    | inr other ↦ rw other (filter_steps_by_owner-OnceEach xs h.1)
  ]

-- The steps of a team.
pub record IsTeamOrder (set : ManifestSet) (owner : String) (xs : List PlannedStep) : Type 0 where
  pub once : OnceEach xs
  pub exact :
      (kind name : String)
      → IsKind kind
      → (has_step kind name xs ≡ true) ↔ IsOwned set owner kind name
  pub behind : BehindTeam set owner [] xs

filter_steps_by_owner-IsTeamOrder :
    (set : ManifestSet) (owner : String) (xs : List PlannedStep)
    → IsNamed set
    → (owner == "") ≡ false
    → order set ≡ steps xs
    → IsTeamOrder set owner (filter_steps_by_owner xs set owner)
unfolding filter_steps_by_owner
filter_steps_by_owner-IsTeamOrder set owner xs named full o =
    let (once, all_of) = order-OnceEach set xs named o in
    record {
      once = filter_steps_by_owner-OnceEach set owner xs once;
      exact = λ kind name k.
          let kept = filter_steps_by_owner-has_step kind name owner xs set in
          (
            λ h. step_owner-IsOwned set owner kind name full k (ground (arith, h, kept)),
            λ own. ground (
              arith,
              kept,
              all_of kind name k,
              IsOwned-has_manifest set owner kind name own,
              IsOwned-step_owner set owner kind name own,
            ),
          );
      behind =
          BehindOwned-BehindTeam set owner [] (filter_steps_by_owner xs set owner)
            (filter_steps_by_owner-BehindOwned set owner xs (order-BehindDeps set xs named o));
    }

team_named :
    (f : Filter) (set : ManifestSet)
    → f.kind ≡ filter_team
    → validate_filter f set ≡ none
    → (f.name == "") ≡ false
unfolding validate_filter validate_kind named
team_named f set k e = let h = subst (λ j. validate_kind j f set ≡ none) k e in ground (arith, h)

-- What holds of a plan for a team: the manifests in its result, and its steps.
pub record IsTeamPlan (set : ManifestSet) (dflt owner : String) (next : ManifestSet)
    (xs : List PlannedStep) : Type 0 where
  pub manifests : IsEnrichedSet (apply_effective_pull_policy set dflt) next
  pub ordered : IsTeamOrder next owner xs

-- When `Plan` with a filter by team returns steps for a set that holds no name twice in a kind, the
-- manifests of the result are those of the set with their effective pull policies, in which
-- enrichment has changed nothing but the dependencies; the steps are one for each application and
-- each resource that the team owns, and no others; and each step is behind the steps of the
-- manifests of the team that its own manifest depends on, declared or inferred.
pub plan-IsTeamPlan :
    (ctx : PlanContext) (set next : ManifestSet) (f : Filter) (dflt : String)
    (xs : List PlannedStep) (edges : List InferredEdge)
    → IsNamed set
    → f.kind ≡ filter_team
    → plan ctx set f dflt ≡ planned xs next edges
    → IsTeamPlan set dflt f.name next xs
plan-IsTeamPlan ctx set next f dflt xs edges named team e =
    let p = plan-IsPlanned ctx set next f dflt xs edges named e in
    let (whole, o, kept) = subst (λ k. IsSelected k f.name next xs) team p.chosen in
    let named_next : IsNamed next = record {
      apps_once = p.rich.apps_once;
      resources_once = p.rich.resources_once;
    } in
    record {
      manifests = p.rich;
      ordered =
          subst (λ ys. IsTeamOrder next f.name ys) kept
            (filter_steps_by_owner-IsTeamOrder next f.name whole named_next
              (team_named f set team p.accepted) o);
    }
