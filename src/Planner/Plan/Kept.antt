-- ===== src/Planner/Plan/Kept.antt =====
-- What the filter by team keeps.
use shrine.Prelude.{
  Bool-cases, List, String, [], arith, eq_int, eq_pair, eq_str, false, inl, inr, refl, subst, true,
  ◌&&◌, ◌==◌, ◌∷◌, ◌≡◌,
}
use shrine.Planner.Loader.{ManifestSet}
use shrine.Planner.Order.{PlannedStep}
use shrine.Planner.Order.Keys.{IsKind}
use shrine.Planner.Order.Nodes.{deps_of, has_manifest}
use shrine.Planner.Order.Steps.{has_step, depends_on, BehindDeps}
use shrine.Planner.Plan.{step_owner, filter_steps_by_owner}

-- The filter by team keeps exactly the steps whose manifest the team owns.
pub filter_steps_by_owner-has_step :
    (kind name owner : String) (xs : List PlannedStep) (set : ManifestSet)
    → has_step kind name (filter_steps_by_owner xs set owner)
      ≡ (has_step kind name xs && step_owner set (record { kind = kind; name = name }) == owner)
unfolding filter_steps_by_owner has_step step_owner
filter_steps_by_owner-has_step kind name owner [] set = refl
filter_steps_by_owner-has_step kind name owner (s ∷ xs) set =
    ground (arith, filter_steps_by_owner-has_step kind name owner xs set)

-- As `BehindDeps`, for the dependencies that the team owns.
abbrev pub BehindOwned : ManifestSet → String → List PlannedStep → List PlannedStep → Type 0
BehindOwned set owner seen [] = Unit {0}
BehindOwned set owner seen (s ∷ xs) =
    ((kind name : String)
      → IsKind kind
      → has_manifest set kind name ≡ true
      → (step_owner set (record { kind = kind; name = name }) == owner) ≡ true
      → depends_on kind name (deps_of set s.kind s.name) ≡ true
      → has_step kind name seen ≡ true)
    × BehindOwned set owner (s ∷ seen) xs

behind_owned :
    (set : ManifestSet) (owner : String) (seen xs : List PlannedStep)
    → BehindDeps set seen xs
    → BehindOwned set owner
        (filter_steps_by_owner seen set owner)
        (filter_steps_by_owner xs set owner)
unfolding filter_steps_by_owner
behind_owned set owner seen [] h = tt
behind_owned set owner seen (s ∷ xs) h = elim (Bool-cases (step_owner set s == owner)) [
  | inl mine ↦ rw mine (
    λ kind name k there owned dep.
        ground (
          arith,
          h.0 kind name k there dep,
          filter_steps_by_owner-has_step kind name owner seen set,
        ),
    subst (λ ys. BehindOwned set owner ys (filter_steps_by_owner xs set owner)) (kept s seen mine)
        (behind_owned set owner (s ∷ seen) xs h.1),
  )
  | inr other ↦ rw other (
      subst (λ ys. BehindOwned set owner ys (filter_steps_by_owner xs set owner))
        (dropped s seen other) (behind_owned set owner (s ∷ seen) xs h.1))
]
  where
    kept :
        (s : PlannedStep) (ys : List PlannedStep)
        → (step_owner set s == owner) ≡ true
        → filter_steps_by_owner (s ∷ ys) set owner ≡ s ∷ filter_steps_by_owner ys set owner
    kept s ys mine = rw mine refl

    dropped :
        (s : PlannedStep) (ys : List PlannedStep)
        → (step_owner set s == owner) ≡ false
        → filter_steps_by_owner (s ∷ ys) set owner ≡ filter_steps_by_owner ys set owner
    dropped s ys other = rw other refl

-- Where each step of a plan stands behind the steps that it depends on, each step that the filter by
-- team keeps stands behind the kept steps of all its dependencies that the team owns.
pub filter_steps_by_owner-BehindOwned :
    (set : ManifestSet) (owner : String) (xs : List PlannedStep)
    → BehindDeps set [] xs
    → BehindOwned set owner [] (filter_steps_by_owner xs set owner)
unfolding filter_steps_by_owner
filter_steps_by_owner-BehindOwned set owner xs h = behind_owned set owner [] xs h
