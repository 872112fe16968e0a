-- ===== src/Planner/Collisions/Routes.antt =====
-- When the detector reports nothing.
use shrine.Prelude.{
  All, Bool, List, Option, String, [], eq_int, eq_pair, eq_str, if◌then◌else◌, lookup, none, not,
  some, true, ◌==◌, ◌||◌, ◌∷◌, ◌≡◌,
}
use shrine.Planner.Filter.{Filter}
use shrine.Planner.Collisions.{RouteKey, Refs, is_pair_in_scope}

abbrev Claims : Type 0
Claims = List (RouteKey × String)

module _ (filter : Filter) (refs : Refs) where
  -- Two references may claim one route: they are one, or the filter selects neither.
  abbrev pub may_share : String → String → Bool
  may_share a b = a == b || not (is_pair_in_scope filter refs a b)

  -- Two claims do not collide: their routes differ, or they may share the route.
  abbrev pub are_apart : RouteKey × String → RouteKey × String → Bool
  are_apart c d = if c.0 == d.0 then may_share c.1 d.1 else true

  abbrev pub PairsApart : Claims → Type 0
  PairsApart [] = Unit {0}
  PairsApart (c ∷ cs) = All (λ d. are_apart c d ≡ true) cs × PairsApart cs

  abbrev ok_with : Option String → String → Bool
  ok_with none ref = true
  ok_with (some existing) ref = may_share existing ref

  abbrev SeenApart : Claims → Claims → Type 0
  SeenApart seen cs = All (λ d. ok_with (lookup d.0 seen) d.1 ≡ true) cs
