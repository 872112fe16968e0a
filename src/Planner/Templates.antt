-- ===== src/Planner/Templates.antt =====
-- internal/planner/templates.go: the variables that templates refer to. Parsing, which package
-- text/template does, is a parameter; an error is a value with what its message shows.
use shrine.Prelude.{
  List, Option, String, [], eq_int, eq_pair, eq_str, if◌then◌else◌, mem, none, some, ◌++◌, ◌==◌,
  ◌∷◌,
}
use shrine.Manifest.{ApplicationManifest, EnvVar, Output, ResourceManifest}
use shrine.Manifest.Template.{Node, extract_field_refs}
use shrine.Resolver.{Reply, refusal, reply}

abbrev pub Parser : Type 0
Parser = String → Reply (Option Node)

-- `walk_fault` stands for the fault of the walk over a tree.
pub data TemplateError : Type 0 where
  invalid_syntax : String → String → TemplateError
  unknown_variable : String → String → TemplateError
  walk_fault : String → TemplateError

-- valid[e.Name] = struct{}{} for each variable, after the built-ins
unfoldable pub valid_names : List EnvVar → List String → List String
valid_names [] built_ins = built_ins
valid_names (e ∷ es) built_ins = e.name ∷ valid_names es built_ins

unfoldable pub unknown_variables : List String → String → List String → List TemplateError
unknown_variables valid name [] = []
unknown_variables valid name (ref ∷ refs) =
    (if mem ref valid then [] else unknown_variable name ref ∷ [])
    ++ unknown_variables valid name refs

abbrev walked : List String → String → Option (List String) → List TemplateError
walked valid name none = walk_fault name ∷ []
walked valid name (some refs) = unknown_variables valid name refs

abbrev parsed_template : List String → String → Reply (Option Node) → List TemplateError
parsed_template valid name (refusal e) = invalid_syntax name e ∷ []
parsed_template valid name (reply tree) = walked valid name (extract_field_refs tree)

-- The body of the three loops.
unfoldable pub check_template : Parser → List String → String → String → List TemplateError
unfolding unknown_variables
check_template parse valid name template =
    if template == "" then [] else parsed_template valid name (parse template)

unfoldable pub output_templates : Parser → List String → List Output → List TemplateError
unfolding check_template
output_templates parse valid [] = []
output_templates parse valid (o ∷ os) =
    check_template parse valid o.name o.template ++ output_templates parse valid os

unfoldable pub env_templates : Parser → List String → List EnvVar → List TemplateError
unfolding check_template
env_templates parse valid [] = []
env_templates parse valid (e ∷ es) =
    check_template parse valid e.name e.template ++ env_templates parse valid es

abbrev pub resource_names_valid : ResourceManifest → List String
resource_names_valid res = valid_names res.spec.env ("team" ∷ "name" ∷ "host" ∷ "port" ∷ [])

unfoldable pub validate_templates : Parser → ResourceManifest → List TemplateError
unfolding output_templates valid_names
validate_templates parse res = output_templates parse (resource_names_valid res) res.spec.outputs

unfoldable pub validate_resource_env_templates : Parser → ResourceManifest → List TemplateError
unfolding env_templates valid_names
validate_resource_env_templates parse res =
    env_templates parse (resource_names_valid res) res.spec.env

unfoldable pub validate_env_templates : Parser → ApplicationManifest → List TemplateError
unfolding env_templates valid_names
validate_env_templates parse app =
    env_templates parse (valid_names app.spec.env ("team" ∷ "name" ∷ [])) app.spec.env
