-- ===== src/State/Pins.antt =====
-- internal/state/pins.go and internal/state/local/pins.go: the image pins of each team, in a file
-- of text. What package time prints and parses is a parameter; so are the outcomes of the reads and
-- the writes.
pub mod Lines
mod Examples
use shrine.Prelude.{
  Bool, List, Option, String, [], before, delete, eq_int, eq_pair, eq_str, false, fields, has_key,
  has_prefix, if◌then◌else◌, insert, join, lookup, map, none, some, sort_by, split, true, ℤ, ◌==◌,
  ◌||◌, ◌∷◌, ◌⊕◌,
}
use shrine.State.Deployments.{Disk, Files}

-- state.ImagePin
pub record ImagePin : Type 0 where
  pub kind : String
  pub name : String
  pub requested : String
  pub pinned : String
  pub pinned_at : ℤ

-- time.Parse and Time.Format, with the layout RFC3339
pub record Clock : Type 0 where
  pub parse : String → Option ℤ
  pub format : ℤ → String

abbrev pub Pins : Type 0
Pins = List (String × ImagePin)

-- strings.Contains
unfoldable pub contains : String → String → Bool
unfolding has_prefix
contains String.[] part = has_prefix String.[] part
contains (String.◌∷◌ x s) part = has_prefix (String.◌∷◌ x s) part || contains s part

abbrev at_time : String → String → String → String → Option ℤ → Option ImagePin
at_time kind name requested pinned none = none
at_time kind name requested pinned (some t) =
    some
      (record { kind = kind; name = name; requested = requested; pinned = pinned; pinned_at = t })

-- parsePinLine, of the fields of the line
unfoldable pub parse_pin_fields : Clock → List String → Option ImagePin
unfolding contains
parse_pin_fields clock (kind ∷ name ∷ requested ∷ pinned ∷ time ∷ more) =
    if contains pinned "@sha256:"
    then at_time kind name requested pinned (clock.parse time)
    else none
parse_pin_fields clock _ = none

abbrev pub put_pin : Option ImagePin → Pins → Pins
put_pin none m = m
put_pin (some p) m = insert p.name p m

-- The loop of `loadTeam` over the lines of the file.
unfoldable pub load_pin_lines : Clock → List String → Pins → Pins
unfolding before fields parse_pin_fields insert
load_pin_lines clock [] m = m
load_pin_lines clock (raw ∷ lines) m =
    load_pin_lines clock lines (put_pin (parse_pin_fields clock (fields (before b'#' raw))) m)

-- loadTeam, for a file that can be read
unfoldable pub load_pins : Clock → Option String → Pins
unfolding load_pin_lines split
load_pins clock none = []
load_pins clock (some text) = load_pin_lines clock (split b'\n' text) []

unfoldable pub sorted_pins : Pins → List ImagePin
unfolding sort_by
sorted_pins m = sort_by (λ p. p.name) (map (λ r. r.1) m)

-- One line of the file
unfoldable pub pin_line : Clock → ImagePin → String
unfolding join
pin_line clock p =
    join " " (p.kind ∷ p.name ∷ p.requested ∷ p.pinned ∷ clock.format p.pinned_at ∷ []) ⊕ "\n"

unfoldable pub print_each : Clock → List ImagePin → String
unfolding pin_line
print_each clock [] = ""
print_each clock (p ∷ ps) = pin_line clock p ⊕ print_each clock ps

-- The text that `saveTeam` writes
unfoldable pub print_pins : Clock → Pins → String
unfolding print_each sorted_pins
print_pins clock m = print_each clock (sorted_pins m)

unfoldable pub save_pins : Clock → Disk → String → Pins → Files → Files × Bool
unfolding print_pins
save_pins clock disk team m files =
    if disk.writable
    then ((λ t. if team == t then some (print_pins clock m) else files t), true)
    else (files, false)

pub data PinResult : Type 0 where
  pin_found : ImagePin → PinResult
  image_pin_not_found : PinResult
  pins_unreadable : PinResult

abbrev found_pin : Option ImagePin → PinResult
found_pin none = image_pin_not_found
found_pin (some p) = pin_found p

-- Get
unfoldable pub get_pin : Clock → Disk → String → String → Files → PinResult
unfolding load_pins lookup
get_pin clock disk team name files =
    if disk.readable
    then found_pin (lookup name (load_pins clock (files team)))
    else pins_unreadable

-- Put, with whether it returns no error
unfoldable pub put_image_pin : Clock → Disk → String → ImagePin → Files → Files × Bool
unfolding load_pins save_pins insert
put_image_pin clock disk team p files =
    if disk.readable
    then save_pins clock disk team (insert p.name p (load_pins clock (files team))) files
    else (files, false)

-- Release
unfoldable pub release_image_pin : Clock → Disk → String → String → Files → Files × Bool
unfolding load_pins save_pins delete lookup
release_image_pin clock disk team name files =
    let pins = load_pins clock (files team) in
    if disk.readable
    then (if has_key name pins
        then save_pins clock disk team (delete name pins) files
        else (files, true))
    else (files, false)

abbrev save_empty : Clock → Disk → String → Pins → Files → Files × Bool
save_empty clock disk team [] files = (files, true)
save_empty clock disk team (r ∷ pins) files = save_pins clock disk team [] files

-- ReleaseTeam
unfoldable pub release_team_pins : Clock → Disk → String → Files → Files × Bool
unfolding load_pins save_pins
release_team_pins clock disk team files =
    if disk.readable
    then save_empty clock disk team (load_pins clock (files team)) files
    else (files, false)

-- List, with `none` for an error
unfoldable pub list_pins : Clock → Disk → String → Files → Option (List ImagePin)
unfolding load_pins sorted_pins
list_pins clock disk team files =
    if disk.readable then some (sorted_pins (load_pins clock (files team))) else none

-- all[ImagePinKey(team, name)] = pin
unfoldable pub add_team_pins : String → Pins → Pins → Pins
unfolding insert
add_team_pins team [] all = all
add_team_pins team ((name, p) ∷ pins) all =
    add_team_pins team pins (insert (team ⊕ "/" ⊕ name) p all)

-- The loop of ListAll over the directories of the teams, each of which can be read or not.
unfoldable pub list_teams : Clock → (String → Bool) → Files → List String → Pins → Option Pins
unfolding add_team_pins load_pins
list_teams clock readable files [] all = some all
list_teams clock readable files (team ∷ teams) all =
    let rest =
      list_teams clock readable files teams
        (add_team_pins team (load_pins clock (files team)) all) in
    if readable team then rest else none

-- ListAll, with `none` for the error of the directory or of a file
unfoldable pub list_all : Clock → (String → Bool) → Files → Option (List String) → Option Pins
unfolding list_teams
list_all clock readable files none = none
list_all clock readable files (some teams) = list_teams clock readable files teams []
