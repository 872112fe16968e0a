-- ===== src/Engine/Teardown.antt =====
-- internal/engine/engine.go: ExecuteTeardown.
use shrine.Prelude.{List, String, [], eq_int, eq_pair, eq_str, ◌&&◌, ◌==◌, ◌∷◌}
use shrine.Manifest.{application_kind}
use shrine.Planner.Order.{PlannedStep}
use shrine.Engine.{
  Act, World, act_when, ask, finalize, pure, remove_container, remove_network, remove_route,
  request, ◌>>◌,
}

-- finalizeRouting
unfoldable pub finalize_routing : World → Act (Unit {0})
unfolding ask
finalize_routing w = act_when w.routed (request w finalize)

unfoldable pub teardown_kind : World → String → PlannedStep → Act (Unit {0})
unfolding ask
teardown_kind w team step = do
  request w (remove_container (record { team = team; name = step.name }))
  act_when (step.kind == application_kind && w.routed) (request w (remove_route team step.name))

unfoldable pub teardown_steps : World → String → List PlannedStep → Act (Unit {0})
unfolding teardown_kind
teardown_steps w team [] = pure tt
teardown_steps w team (step ∷ steps) = do teardown_kind w team step; teardown_steps w team steps

unfoldable pub execute_teardown : World → String → List PlannedStep → Act (Unit {0})
unfolding teardown_steps finalize_routing ask
execute_teardown w team steps = do
  teardown_steps w team steps
  finalize_routing w
  request w (remove_network team)
