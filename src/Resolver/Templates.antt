-- ===== src/Resolver/Templates.antt =====
-- `renderTemplates`: templates that may refer to one another.
pub mod Rendered
pub mod Parsing
pub mod Whole
use shrine.Prelude.{
  List, Option, String, [], eq_int, eq_pair, eq_str, has_key, if◌then◌else◌, insert, lookup, none,
  not, some, ◌&&◌, ◌==◌, ◌∷◌,
}
use shrine.Manifest.Template.{Node, extract_field_refs}
use shrine.Topo.{Graph, SortResult, add_to_set, cycle, exhausted, sorted, topo_sort}
use shrine.Resolver.{
  Env, Reply, ResolveError, Result, TemplateEngine, failed, ok, parse_failed, pure, refusal, reply,
  render_failed, sort_exhausted, template_cycle, template_fault, ◌>>=◌,
}

-- The set of the templates that one template refers to.
unfoldable pub template_deps : Env → String → List String → List String → List String
template_deps templates name [] d = d
template_deps templates name (ref ∷ refs) d =
    template_deps templates name refs
      (if has_key ref templates && not (ref == name) then add_to_set ref d else d)

-- A template that is parsed, with the templates that it refers to.
pub record Parsed : Type 0 where
  pub tree : Option Node
  pub refs : List String
  pub deps : List String

abbrev with_refs : Env → String → Option Node → Option (List String) → Result Parsed
with_refs templates name tree none = failed (template_fault name)
with_refs templates name tree (some refs) =
    ok (record { tree = tree; refs = refs; deps = template_deps templates name refs [] })

abbrev parse_reply : Env → String → Reply (Option Node) → Result Parsed
parse_reply templates name (refusal e) = failed (parse_failed name e)
parse_reply templates name (reply tree) = with_refs templates name tree (extract_field_refs tree)

-- The body of the loop over the templates.
unfoldable pub parse_one : TemplateEngine → Env → String → String → Result Parsed
unfolding template_deps
parse_one t templates name src = parse_reply templates name (t.parse src)

unfoldable pub parse_each : TemplateEngine → Env → Env → Result (List (String × Parsed))
unfolding parse_one
parse_each t templates [] = ok []
parse_each t templates ((name, src) ∷ rest) = do
  p ← parse_one t templates name src
  ps ← parse_each t templates rest
  pure ((name, p) ∷ ps)

abbrev pub graph_of : List (String × Parsed) → Graph
graph_of [] = []
graph_of ((name, p) ∷ ps) = (name, p.deps) ∷ graph_of ps

-- The two maps that the last loop fills.
pub record Rendering : Type 0 where
  pub ctx : Env
  pub out : Env

abbrev execute_reply : String → Rendering → Reply String → Result Rendering
execute_reply name r (refusal e) = failed (render_failed name e)
execute_reply name r (reply text) =
    ok (record { ctx = insert name text r.ctx; out = insert name text r.out })

-- The body of the last loop.
unfoldable pub render_one : TemplateEngine → String → Option Parsed → Rendering → Result Rendering
unfolding insert
render_one t name none r = failed (template_fault name)
render_one t name (some p) r = execute_reply name r (t.execute p.tree r.ctx)

unfoldable pub render_each :
    TemplateEngine → List (String × Parsed) → List String → Rendering → Result Rendering
unfolding render_one
render_each t parsed [] r = ok r
render_each t parsed (name ∷ names) r = do
  next ← render_one t name (lookup name parsed) r
  render_each t parsed names next

abbrev pub render_in_order : TemplateEngine → List (String × Parsed) → Env → SortResult → Result Env
render_in_order t parsed values (sorted names) = do
  r ← render_each t parsed names (record { ctx = values; out = [] })
  pure r.out
render_in_order t parsed values (cycle names) = failed (template_cycle names)
render_in_order t parsed values exhausted = failed sort_exhausted

abbrev render_some : TemplateEngine → Env → Env → Result Env
render_some t templates values = do
  parsed ← parse_each t templates templates
  render_in_order t parsed values (topo_sort (graph_of parsed))

unfoldable pub render_templates : TemplateEngine → Env → Env → Result Env
unfolding parse_each render_each
render_templates t [] values = ok []
render_templates t (first ∷ rest) values = render_some t (first ∷ rest) values
