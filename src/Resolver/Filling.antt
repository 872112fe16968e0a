-- ===== src/Resolver/Filling.antt =====
-- The loop over the variables of a manifest, which the four resolvers share: what a variable stands
-- for is an argument.
pub mod Named
use shrine.Prelude.{List, String, [], eq_int, eq_pair, eq_str, insert, ◌∷◌}
use shrine.Manifest.{EnvVar}
use shrine.Resolver.{Env, Result, TemplateEngine, copy, failed, ok, pure, ◌>>=◌}
use shrine.Resolver.Templates.{render_templates}

-- A value, or a template that is rendered after the loop.
pub data Slot : Type 0 where
  plain : String → Slot
  templated : String → Slot

-- The two maps that the loop fills, `env` and `tmplSrcs`.
pub record Filling : Type 0 where
  pub env : Env
  pub templates : Env

unfoldable pub put_slot : String → Slot → Filling → Filling
unfolding insert
put_slot name (plain v) x = record x { env = insert name v x.env }
put_slot name (templated src) x = record x { templates = insert name src x.templates }

unfoldable pub fill : (EnvVar → Result Slot) → List EnvVar → Filling → Result Filling
unfolding put_slot
fill slot_of [] x = ok x
fill slot_of (e ∷ es) x = do slot ← slot_of e; fill slot_of es (put_slot e.name slot x)

-- The rendering of the templates in a context of built-ins under the environment.
unfoldable pub with_templates : TemplateEngine → Env → Env → Env → Result Env
unfolding copy
with_templates t built_ins env [] = ok env
with_templates t built_ins env (first ∷ rest) =
    render_templates t (first ∷ rest) (copy built_ins env) >>= λ rendered. ok (copy env rendered)

unfoldable pub resolve_env :
    TemplateEngine → (EnvVar → Result Slot) → Env → List EnvVar → Result Env
unfolding fill with_templates
resolve_env t slot_of built_ins es = do
  x ← fill slot_of es (record { env = []; templates = [] })
  with_templates t built_ins x.env x.templates
