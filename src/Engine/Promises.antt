-- ===== src/Engine/Promises.antt =====
-- What a deploy promises.
use shrine.Prelude.{
  All, All-imp, List, String, [], arith, before, dec_str, eq_int, eq_pair, eq_str, inl, inr, none,
  refl, ◌++◌, ◌∙◌, ◌∷◌, ◌≡◌, ◌≢◌, ◌⊎◌,
}
use shrine.Topo.{cycle}
use shrine.Planner.Loader.{ManifestSet}
use shrine.Planner.Order.{PlannedStep}
use shrine.Engine.{
  ◌>>=◌, Run, Call, EngineError, World, create_platform_network, done, failed, resolve_image,
  resolve_resource, resolve_application, create_network, remove_network, create_container,
  remove_container, write_route, remove_route, finalize, write_record, call_failed, resource_cycle,
  sort_exhausted, nil_manifest,
}
use shrine.Engine.Images.{resolve_image_op_for, resolve_images}
use shrine.Engine.Resources.{resource_resolution_order}
use shrine.Engine.Deploy.{execute_deploy}
use shrine.Engine.Transcript.{AllOk, Holds, IsStop, Holds-imp, after_run-Holds}
use shrine.Engine.Lookups.{
  HasImage, IsResolveImage, LooksUp, Looked, asked, image_ops, resolve_images-LooksUp,
}
use shrine.Engine.Created.{Goes, IsPrefix, IsSince, created}
use shrine.Engine.Created.Steps.{IsDeployable}
use shrine.Engine.Created.Whole.{IsPlan, after_images-Goes}

created_lookup : (c : Call) (h : List Call) → IsResolveImage c → created (c ∷ h) ≡ created h
created_lookup (resolve_image op) h l = refl
created_lookup (resolve_resource res deps) h l = absurd l
created_lookup (resolve_application app deps) h l = absurd l
created_lookup create_platform_network h l = absurd l
created_lookup (create_network name) h l = absurd l
created_lookup (remove_network name) h l = absurd l
created_lookup (create_container op) h l = absurd l
created_lookup (remove_container op) h l = absurd l
created_lookup (write_route op) h l = absurd l
created_lookup (remove_route team name) h l = absurd l
created_lookup finalize h l = absurd l
created_lookup (write_record op) h l = absurd l

created_lookups : (h : List Call) → All IsResolveImage h → created h ≡ []
created_lookups [] l = refl
created_lookups (c ∷ h) l = created_lookup c h l.0 ∙ created_lookups h l.1

deployable-HasImage :
    (set : ManifestSet) (step : PlannedStep) → IsDeployable set step → HasImage set step
unfolding resolve_image_op_for dec_str
deployable-HasImage set step (inl (res, found, kind, name)) = rw (kind, found) (_, refl)
deployable-HasImage set step (inr (app, found, kind, name)) = rw (kind, found) (_, refl)

-- The transcript begins with calls of ResolveImage that succeed, for all the steps in their order.
pub record ImagesFirst (w : World) (set : ManifestSet) (steps : List PlannedStep) (h : List Call)
    : Type 0 where
  pub later : List Call
  pub lookups : List Call
  pub whole : h ≡ later ++ lookups
  pub only : All IsResolveImage lookups
  pub ok : AllOk w lookups
  pub all_images : asked lookups ≡ image_ops set steps

-- How a deploy ends, and how it fails.
pub record IsDeployed (w : World) (set : ManifestSet) (steps : List PlannedStep) (h : List Call)
    : Type 0 where
  pub ok : AllOk w h
  pub made : created h ≡ steps
  pub images : ImagesFirst w set steps h

pub record IsFailed (w : World) (set : ManifestSet) (steps : List PlannedStep) (e : EngineError)
    (h : List Call) : Type 0 where
  pub why : IsStop w set e h
  pub some_of : IsPrefix (created h) steps
  pub images : All IsResolveImage h ⊎ ImagesFirst w set steps h

module _ (w : World) (set : ManifestSet) (steps : List PlannedStep) (plan : IsPlan set steps) where
  since-ImagesFirst :
      (base h : List Call)
      → Looked w set (image_ops set steps) base
      → IsSince base h
      → ImagesFirst w set steps h
  since-ImagesFirst base h l (later, e) = record {
    later = later;
    lookups = base;
    whole = e;
    only = l.lookups;
    ok = l.ok;
    all_images = l.done;
  }

  Goes-on :
      (base : List Call)
      → Looked w set (image_ops set steps) base
      → (r : Run (Unit {0})) → Goes w set base steps steps r
      → Holds (λ _ h. IsDeployed w set steps h) (IsFailed w set steps) r
  unfolding Goes
  Goes-on base l (done a h) at = record {
    ok = at.ok;
    made = at.made;
    images = since-ImagesFirst base h l at.since;
  }
  Goes-on base l (failed e h) s = record {
    why = s.why;
    some_of = s.some_of;
    images = inr (since-ImagesFirst base h l s.since);
  }

  -- For steps whose manifests are in the set under their names, a deploy first calls ResolveImage
  -- for all the steps in their order, and no other call comes before the last of these. When it
  -- succeeds, no call has failed, and it has sent one CreateContainer for each step, in the order of
  -- the steps and whatever the replicas of a manifest. When it fails, it stops at the first call that
  -- fails, or before any call fails at a cycle of the resources; it has sent CreateContainer for the
  -- first steps only, and unless the images of all steps were resolved it has sent nothing but calls
  -- of ResolveImage. What these do themselves, such as recording pins, is not meant.
  pub execute_deploy-outcome :
      Holds (λ _ h. IsDeployed w set steps h) (IsFailed w set steps) (execute_deploy w steps set [])
  unfolding execute_deploy LooksUp ◌>>=◌ Goes
  execute_deploy-outcome =
      after_run-Holds (λ _ h. Looked w set (image_ops set steps) h) _ _
        (resolve_images w set steps [] []) _
        (Holds-imp _ _ _ (IsFailed w set steps) (resolve_images w set steps [] [])
          (resolve_images-LooksUp w set steps [] [] []
            (All-imp (deployable-HasImage set) steps plan.deployable)
            (record { ok = tt; lookups = tt; done = refl }))
          (λ a h l. l)
          (λ e h q. record {
            why = q.0;
            some_of = (steps, rw (created_lookups h q.1) refl);
            images = inl q.1;
          }))
        (λ images base l. Goes-on base l _ (
          after_images-Goes w set base steps images base plan (record {
            ok = l.ok;
            made = created_lookups base l.lookups;
            some_of = (steps, refl);
            since = ([], refl);
          })))

  finished :
      (r : Run (Unit {0}))
      → Holds (λ _ h. IsDeployed w set steps h) (IsFailed w set steps) r
      → ((h : List Call) (c : Call) → w.answer h c ≡ none)
      → ((names : List String) → resource_resolution_order set ≢ cycle names)
      → (h : List Call) × (r ≡ done tt h) × IsDeployed w set steps h
  finished (done tt h) p live acyclic = (h, refl, p)
  finished (failed (call_failed c text) h) p live acyclic =
      let (before, e, answered, ok) = p.why in absurd (ground (arith, live before c))
  finished (failed (resource_cycle names) h) p live acyclic = absurd (acyclic names p.why.0)
  finished (failed sort_exhausted h) p live acyclic = absurd p.why
  finished (failed (nil_manifest step) h) p live acyclic = absurd p.why

  -- For steps whose manifests are in the set under their names, when no backend fails a call and the
  -- dependencies of the resources form no cycle, a deploy ends, and it has sent one
  -- CreateContainer for each step, in the order of the steps and whatever the replicas of a manifest.
  pub execute_deploy-finishes :
      ((h : List Call) (c : Call) → w.answer h c ≡ none)
      → ((names : List String) → resource_resolution_order set ≢ cycle names)
      → (h : List Call) × (execute_deploy w steps set [] ≡ done tt h) × IsDeployed w set steps h
  execute_deploy-finishes = finished (execute_deploy w steps set []) execute_deploy-outcome
