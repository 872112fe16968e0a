-- ===== src/Engine/Created/Steps.antt =====
-- What the loop over the steps creates.
use shrine.Prelude.{
  All, Bool, List, [], append-nil, append_assoc, arith, eq_int, eq_pair, eq_str, false, inl, inr,
  lookup, refl, some, subst, sym, true, ◌++◌, ◌∙◌, ◌∷◌, ◌≡◌, ◌⊎◌,
}
use shrine.Manifest.{ApplicationManifest, ResourceManifest, application_kind, resource_kind}
use shrine.Planner.Loader.{ManifestSet}
use shrine.Planner.Order.{PlannedStep}
use shrine.Planner.Order.Keys.{kinds_differ}
use shrine.Engine.{Act, Call, Env, ResolvedImage, ResolvedDependencies, World, act_when, request}
use shrine.Engine.Images.{Images}
use shrine.Engine.Resources.{Resolved}
use shrine.Engine.Requests.{application_op, resource_op}
use shrine.Engine.Deploy.{
  deploy_application, image_of_step, deploy_manifest, deploy_resource, deploy_step, deploy_steps,
}
use shrine.Engine.Created.{At, Plain, IsPrefix, Plain-At, create-At, Goes, bind-Goes, then-Goes}

-- A step whose manifest is in the set under its own name.
abbrev pub IsDeployable : ManifestSet → PlannedStep → Type 0
IsDeployable set step =
    ((res : ResourceManifest) × (lookup step.name set.resources ≡ some res)
      × (step.kind ≡ resource_kind)
      × (res.metadata.name ≡ step.name))
    ⊎ ((app : ApplicationManifest) × (lookup step.name set.applications ≡ some app)
        × (step.kind ≡ application_kind)
        × (app.metadata.name ≡ step.name))

module _ (w : World) (set : ManifestSet) (base : List Call) (all : List PlannedStep) where
  pub act_when-Goes :
      (b : Bool) (c : Call) (xs : List PlannedStep) (h : List Call)
      → Plain w set base all c
      → At w set base all xs h
      → Goes w set base all xs (act_when b (request w c) h)
  unfolding act_when Goes
  act_when-Goes true c xs h p at = Plain-At w set base all c (λ _. tt) xs h p at
  act_when-Goes false c xs h p at = at

  act_when-on :
      (b : Bool) (m : Act (Unit {0})) (xs : List PlannedStep) (h : List Call)
      → b ≡ true
      → Goes w set base all xs (m h)
      → Goes w set base all xs (act_when b m h)
  unfolding act_when
  act_when-on true m xs h e p = p
  act_when-on false m xs h e p = cc

  act_when-off :
      (b : Bool) (m : Act (Unit {0})) (xs : List PlannedStep) (h : List Call)
      → b ≡ false
      → At w set base all xs h
      → Goes w set base all xs (act_when b m h)
  unfolding act_when Goes
  act_when-off false m xs h e at = at
  act_when-off true m xs h e at = cc

  module _ (step : PlannedStep) (xs : List PlannedStep) (h : List Call)
      (next : IsPrefix (xs ++ (step ∷ [])) all) (at : At w set base all xs h) where
    deploy_manifest-Goes :
        (app : ApplicationManifest) (deps : ResolvedDependencies) (image : ResolvedImage)
        → ◌≡◌ {A = PlannedStep} (record { kind = application_kind; name = app.metadata.name }) step
        → Goes w set base all (xs ++ (step ∷ [])) (deploy_manifest w app deps image h)
    unfolding deploy_manifest application_op
    deploy_manifest-Goes app deps image same =
        bind-Goes w set base all xs _ h _ _
          (Plain-At w set base all _ (λ k. w.application k app deps) xs h (λ s. refl) at)
          (λ env h1 at1.
            then-Goes w set base all xs _ h1 _ _ (Plain-At w set base all _ _ xs h1 (λ s. refl) at1)
              (λ h2 at2.
                then-Goes w set base all _ _ h2 _ _
                  (create-At w set base all (application_op app env image) step xs h2 same next at2)
                  (λ h3 at3.
                    then-Goes w set base all _ _ h3 _ _ (act_when-Goes _ _ _ h3 (λ s. refl) at3)
                      (λ h4 at4. act_when-Goes _ _ _ h4 (λ s. refl) at4))))

    deploy_resource-Goes :
        (res : ResourceManifest) (env : Env) (image : ResolvedImage)
        → ◌≡◌ {A = PlannedStep} (record { kind = resource_kind; name = res.metadata.name }) step
        → Goes w set base all (xs ++ (step ∷ [])) (deploy_resource w step (some res) env image h)
    unfolding deploy_resource resource_op
    deploy_resource-Goes res env image same =
        then-Goes w set base all xs _ h _ _ (Plain-At w set base all _ _ xs h (λ s. refl) at)
          (λ h1 at1. create-At w set base all (resource_op res env image) step xs h1 same next at1)

    deploy_application-Goes :
        (app : ApplicationManifest) (deps : ResolvedDependencies) (image : ResolvedImage)
        → ◌≡◌ {A = PlannedStep} (record { kind = application_kind; name = app.metadata.name }) step
        → Goes w set base all
            (xs ++ (step ∷ []))
            (deploy_application w step (some app) deps image h)
    unfolding deploy_application
    deploy_application-Goes app deps image same = deploy_manifest-Goes app deps image same

  deploy_step-Goes :
      (step : PlannedStep) (xs : List PlannedStep) (h : List Call)
      (next : IsPrefix (xs ++ (step ∷ [])) all) (at : At w set base all xs h) (images : Images)
      (r : Resolved)
      → IsDeployable set step
      → Goes w set base all (xs ++ (step ∷ [])) (deploy_step w set images r step h)
  unfolding deploy_step
  deploy_step-Goes step xs h next at images r (inl (res, found, kind, name)) =
      then-Goes w set base all (xs ++ (step ∷ [])) _ h _ _
        (act_when-on _ _ _ h (ground (arith, kind)) (
          rw found (
            deploy_resource-Goes step xs h next at res _ (image_of_step images step)
              (rw (← name, ← kind) refl))))
        (λ k atk. act_when-off _ _ _ k (ground (arith, kind, kinds_differ)) atk)
  deploy_step-Goes step xs h next at images r (inr (app, found, kind, name)) =
      then-Goes w set base all xs _ h _ _
        (act_when-off _ _ _ h (ground (arith, kind, kinds_differ)) at)
        (λ k atk. act_when-on _ _ _ k (ground (arith, kind)) (
          rw found (
            deploy_application-Goes step xs k next atk app _ (image_of_step images step)
              (rw (← name, ← kind) refl))))

  pub deploy_steps-Goes :
      (images : Images) (r : Resolved) (xs steps : List PlannedStep) (h : List Call)
      → All (IsDeployable set) steps
      → xs ++ steps ≡ all
      → At w set base all xs h
      → Goes w set base all all (deploy_steps w set images r steps h)
  unfolding deploy_steps Goes
  deploy_steps-Goes images r xs [] h d e at =
      subst (λ l. At w set base all l h) (sym (append-nil xs) ∙ e) at
  deploy_steps-Goes images r xs (step ∷ steps) h d e at =
      let e' : (xs ++ (step ∷ [])) ++ steps ≡ all = append_assoc xs (step ∷ []) steps ∙ e in
      then-Goes w set base all (xs ++ (step ∷ [])) all h _ _
        (deploy_step-Goes step xs h (steps, e') at images r d.0)
        (λ k atk. deploy_steps-Goes images r (xs ++ (step ∷ [])) steps k d.1 e' atk)
