-- ===== src/Resolver/Exports.antt =====
-- `computeExports`: what a resource publishes.
pub mod Allowlist
use shrine.Prelude.{
  List, Option, String, [], eq_int, eq_pair, eq_str, if◌then◌else◌, insert, lookup, none, not, some,
  ◌++◌, ◌==◌, ◌∷◌, ◌⊕◌,
}
use shrine.Manifest.{Output, ResourceManifest}
use shrine.Resolver.{
  Env, Result, TemplateEngine, copy, failed, ok, output_not_matched, port_not_set, pure, ◌>>=◌,
}
use shrine.Resolver.Templates.{render_templates}

-- The two maps that the loop over the outputs fills.
pub record Exporting : Type 0 where
  pub exports : Env
  pub templates : Env

-- The value of an output that has no template.
unfoldable pub plain_output : String → String → String → Option String → Result String
plain_output name host port (some v) = ok v
plain_output name host port none =
    if name == "host"
    then ok host
    else if name == "port"
    then (if port == "" then failed port_not_set else ok port)
    else failed (output_not_matched name)

-- The body of the loop over the outputs.
unfoldable pub export_one : Env → String → String → Output → Exporting → Result Exporting
unfolding insert lookup plain_output
export_one env host port o x =
    if not (o.template == "")
    then ok (record x { templates = insert o.name o.template x.templates })
    else (plain_output o.name host port (lookup o.name env) >>= λ v.
        ok (record x { exports = insert o.name v x.exports }))

unfoldable pub export_each : Env → String → String → List Output → Exporting → Result Exporting
unfolding export_one
export_each env host port [] x = ok x
export_each env host port (o ∷ os) x = do
  next ← export_one env host port o x
  export_each env host port os next

-- The context of the templates: the built-ins, under the environment.
unfoldable pub export_context : ResourceManifest → Env → String → Env
unfolding copy
export_context res env port =
    let host = res.metadata.owner ⊕ ("." ⊕ res.metadata.name) in
    let built_ins : Env =
      ("team", res.metadata.owner) ∷ ("name", res.metadata.name) ∷ ("host", host) ∷ [] in
    copy (if port == "" then built_ins else built_ins ++ (("port", port) ∷ [])) env

abbrev add_rendered : TemplateEngine → ResourceManifest → Env → String → Env → Env → Result Env
add_rendered t res env port exports [] = ok exports
add_rendered t res env port exports (first ∷ rest) =
    render_templates t (first ∷ rest) (export_context res env port) >>= λ rendered.
    ok (copy exports rendered)

unfoldable pub compute_exports : TemplateEngine → ResourceManifest → Env → String → Result Env
unfolding export_each copy
compute_exports t res env port = do
  x ←
      export_each env (res.metadata.owner ⊕ ("." ⊕ res.metadata.name)) port res.spec.outputs
        (record { exports = []; templates = [] })
  add_rendered t res env port x.exports x.templates
