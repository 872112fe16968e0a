-- ===== src/Engine/Examples.antt =====
-- The promises on a blog and its database.
use shrine.Prelude.{
  List, Option, String, [], arith, dec_str, eq_int, eq_pair, eq_str, false, inl, inr, keep, lookup,
  none, pos, refl, some, sort_by, sym, true, ◌∙◌, ◌∷◌, ◌≡◌, ◌≢◌,
}
use shrine.Topo.{cycle, sorted, topo_sort}
use shrine.Planner.Examples.{home, db, client, db_edge, home_steps, home-IsNamed}
use shrine.Planner.Filter.{no_filter}
use shrine.Planner.Plan.Examples.{here, versioned, planned_home, versioned-IsNamed, home-planned}
use shrine.Engine.Planned.{IsCarriedOut, plan-IsCarriedOut}
use shrine.Engine.{Call, World, done, finalize}
use shrine.Engine.Resources.{resource_graph_of, resource_dep_set, resource_resolution_order}
use shrine.Engine.Deploy.{execute_deploy}
use shrine.Engine.Teardown.{execute_teardown}
use shrine.Engine.Transcript.{Holds}
use shrine.Engine.Created.Whole.{IsPlan}
use shrine.Engine.Promises.{IsDeployed, IsFailed, execute_deploy-finishes, execute_deploy-outcome}
use shrine.Engine.Removed.{IsHalted, IsTornDown, containers_of, execute_teardown-outcome}

abbrev answers_nothing : List Call → Call → Option String
answers_nothing h c = none

-- Backends on which every call succeeds.
abbrev quiet : World
quiet = record {
  answer = answers_nothing;
  image = λ h op. record {
    ref = op.image;
    digest = "";
    image_id = "sha256:1";
    source = "manifest";
    requested = "";
    pinned_at = pos 0;
  };
  resource = λ h res deps. record { env = []; exports = ("host", "me.db") ∷ [] };
  application = λ h app deps. [];
  routed = true;
  named = false;
}

-- Backends on which the routes cannot be written.
abbrev jammed : World
jammed = record quiet { answer = λ h c. elim c [ finalize ↦ some "no gateway" | _ ↦ none ] }

home-IsPlan : IsPlan home home_steps
unfolding lookup dec_str
home-IsPlan = record {
  resources_once = home-IsNamed.resources_once;
  deployable = (inl (db, refl, refl, refl), (inr (client, refl, refl, refl), tt));
}

home-sorted : resource_resolution_order home ≡ sorted ("db" ∷ [])
unfolding resource_resolution_order resource_graph_of resource_dep_set topo_sort sort_by keep
home-sorted = refl

sorted-ne-cycle : (ks names : List String) → sorted ks ≢ cycle names
sorted-ne-cycle ks names e = ground arith

home-acyclic : (names : List String) → resource_resolution_order home ≢ cycle names
home-acyclic names e = sorted-ne-cycle ("db" ∷ []) names (sym home-sorted ∙ e)

execute_deploy-outcome_example :
    Holds
      (λ _ h. IsDeployed jammed home home_steps h)
      (IsFailed jammed home home_steps)
      (execute_deploy jammed home_steps home [])
execute_deploy-outcome_example = execute_deploy-outcome jammed home home_steps home-IsPlan

execute_deploy-finishes_example :
    (h : List Call) × (execute_deploy quiet home_steps home [] ≡ done tt h)
    × IsDeployed quiet home home_steps h
execute_deploy-finishes_example =
    execute_deploy-finishes quiet home home_steps home-IsPlan (λ h c. refl) home-acyclic

execute_teardown-outcome_example :
    Holds
      (λ _ h. IsTornDown jammed "me" (containers_of "me" home_steps) h)
      (IsHalted jammed "me" (containers_of "me" home_steps))
      (execute_teardown jammed "me" home_steps [])
execute_teardown-outcome_example = execute_teardown-outcome jammed "me" home_steps

plan-IsCarriedOut_example : IsCarriedOut quiet versioned "" planned_home home_steps
unfolding no_filter
plan-IsCarriedOut_example =
    plan-IsCarriedOut here versioned planned_home no_filter "" home_steps (db_edge ∷ []) quiet
      versioned-IsNamed refl home-planned
