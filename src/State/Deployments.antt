-- ===== src/State/Deployments.antt =====
-- internal/state/deployments.go and internal/state/local/deployments.go: the deployments of each
-- team, in a file of text. A file system is a function from the teams to the texts of their files,
-- `none` for a file that is not there; that a file cannot be read or written is an argument.
pub mod Words
pub mod Lines
pub mod Refines
mod Examples
use shrine.Prelude.{
  Bool, List, Option, String, [], before, delete, eq_int, eq_pair, eq_str, false, fields,
  if◌then◌else◌, insert, join, keys, lookup, map, none, some, sort_strings, split, true, ◌-◌, ◌==◌,
  ◌∷◌, ◌⊕◌,
}

-- state.Deployment
pub record Deployment : Type 0 where
  pub kind : String
  pub name : String
  pub container_id : String
  pub config_hash : String
  pub image : String
  pub policy : String

-- The placeholder of an empty field on disk
abbrev pub empty_field_placeholder : String
empty_field_placeholder = "-"

-- fieldAt, of the fields from `index` on
abbrev pub field_text : List String → String
field_text [] = ""
field_text (f ∷ fs) = if f == empty_field_placeholder then "" else f

abbrev rest_of : List String → List String
rest_of [] = []
rest_of (f ∷ fs) = fs

unfoldable pub field_or_placeholder : String → String
field_or_placeholder value = if value == "" then empty_field_placeholder else value

-- The deployment of a line that has the three fields, or none.
unfoldable pub parse_fields : List String → Option Deployment
parse_fields (kind ∷ name ∷ id ∷ more) = some (record {
  kind = kind;
  name = name;
  container_id = id;
  config_hash = field_text more;
  image = field_text (rest_of more);
  policy = field_text (rest_of (rest_of more));
})
parse_fields _ = none

abbrev pub Deployments : Type 0
Deployments = List (String × Deployment)

abbrev pub put_line : Option Deployment → Deployments → Deployments
put_line none m = m
put_line (some d) m = insert d.name d m

-- The loop of `loadTeam` over the lines of the file.
unfoldable pub load_lines : List String → Deployments → Deployments
unfolding before fields parse_fields insert
load_lines [] m = m
load_lines (raw ∷ lines) m = load_lines lines (put_line (parse_fields (fields (before b'#' raw))) m)

-- loadTeam, for a file that can be read
unfoldable pub load_team : Option String → Deployments
unfolding load_lines split
load_team none = []
load_team (some text) = load_lines (split b'\n' text) []

-- One line of the file
unfoldable pub deployment_line : Deployment → String
unfolding field_or_placeholder join
deployment_line d =
    join " " (
      d.kind
      ∷ d.name
      ∷ d.container_id
      ∷ field_or_placeholder d.config_hash
      ∷ field_or_placeholder d.image
      ∷ field_or_placeholder d.policy
      ∷ [])
    ⊕ "\n"

-- deployments[name], the zero value for a missing key
abbrev found_or_zero : Option Deployment → Deployment
found_or_zero none = record {
  kind = "";
  name = "";
  container_id = "";
  config_hash = "";
  image = "";
  policy = "";
}
found_or_zero (some d) = d

unfoldable pub print_names : Deployments → List String → String
unfolding deployment_line lookup
print_names m [] = ""
print_names m (name ∷ names) = deployment_line (found_or_zero (lookup name m)) ⊕ print_names m names

-- The text that `saveTeam` writes
unfoldable pub print_team : Deployments → String
unfolding print_names
print_team m = print_names m (sort_strings (keys m))

abbrev pub Files : Type 0
Files = String → Option String

-- The outcomes of the file system for one operation.
pub record Disk : Type 0 where
  pub readable : Bool
  pub writable : Bool

unfoldable pub save_team : Disk → String → Deployments → Files → Files × Bool
unfolding print_team
save_team disk team m files =
    if disk.writable
    then ((λ t. if team == t then some (print_team m) else files t), true)
    else (files, false)

-- Record, with whether it returns no error
unfoldable pub record_deployment : Disk → String → Deployment → Files → Files × Bool
unfolding load_team save_team insert
record_deployment disk team d files =
    if disk.readable
    then save_team disk team (insert d.name d (load_team (files team))) files
    else (files, false)

unfoldable pub remove_deployment : Disk → String → String → Files → Files × Bool
unfolding load_team save_team delete
remove_deployment disk team name files =
    if disk.readable
    then save_team disk team (delete name (load_team (files team))) files
    else (files, false)

-- List, with `none` for an error
unfoldable pub list_deployments : Disk → String → Files → Option (List Deployment)
unfolding load_team
list_deployments disk team files =
    if disk.readable then some (map (λ r. r.1) (load_team (files team))) else none
