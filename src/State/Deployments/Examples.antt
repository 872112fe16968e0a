-- ===== src/State/Deployments/Examples.antt =====
-- The store on one deployment.
use shrine.Prelude.{
  Bool-cases, List, [], arith, dec_str, eq_int, eq_pair, eq_str, false, inl, inr, lookup, none,
  refl, some, sort_by, true, ◌==◌, ◌∷◌, ◌≡◌,
}
use shrine.State.Deployments.{Deployment, Deployments, Disk, Files, load_team, print_team}
use shrine.State.Deployments.Words.{is_plain}
use shrine.State.Deployments.Lines.{IsStorable, IsStored, load_team-print_team}
use shrine.State.Deployments.Refines.{
  IsClean, Op, recorded, removed, run, run-Refines, spec_run, view,
}

abbrev blog_deployment : Deployment
blog_deployment = record {
  kind = "Application";
  name = "blog";
  container_id = "c1";
  config_hash = "";
  image = "ghcr.io/me/blog:1.2";
  policy = "Always";
}

blog-IsStorable : IsStorable blog_deployment
unfolding is_plain dec_str
blog-IsStorable = record {
  kind = (refl, refl);
  name = (refl, refl);
  container_id = (refl, refl);
  config_hash = (refl, refl);
  image = (refl, refl);
  policy = (refl, refl);
}

abbrev one : Deployments
one = ("blog", blog_deployment) ∷ []

one-IsStored : IsStored one
unfolding lookup
one-IsStored n d found = elim (Bool-cases ("blog" == n)) [
  | inl same ↦
      let is_d : blog_deployment ≡ d = ground (arith, found, same) in
      rw (← is_d) (ground (arith, same), blog-IsStorable)
  | inr other ↦ absurd (ground (arith, found, other))
]

printed : print_team one ≡ "Application blog c1 - ghcr.io/me/blog:1.2 Always\n"
unfolding print_team dec_str lookup sort_by
printed = refl

load_team-print_team_example : lookup "blog" (load_team (some (print_team one))) ≡ lookup "blog" one
load_team-print_team_example = load_team-print_team one one-IsStored "blog"

abbrev no_files : Files
no_files = λ team. none

abbrev fine : Disk
fine = record { readable = true; writable = true }

abbrev full : Disk
full = record { readable = true; writable = false }

abbrev ops : List (Disk × Op)
ops = (fine, recorded "me" blog_deployment) ∷ (full, removed "me" "blog") ∷ []

no_files-IsClean : IsClean no_files
unfolding load_team lookup
no_files-IsClean team n d found = absurd (ground arith)

run-Refines_example : view (run ops no_files) "me" "blog" ≡ spec_run ops (view no_files) "me" "blog"
run-Refines_example =
    run-Refines ops no_files no_files-IsClean (blog-IsStorable, (tt, tt)) "me" "blog"
