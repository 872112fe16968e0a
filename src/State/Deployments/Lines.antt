-- ===== src/State/Deployments/Lines.antt =====
-- What is read from a file that was written.
use shrine.Prelude.{
  All, All-of_mem, Bool-cases, List, String, [], ap, arith, before, dec_str, eq_int, eq_pair,
  eq_str, false, fields, found_key, if◌then◌else◌, inl, inr, insert, is_space, join, keys, lookup,
  lookup-insert, mem, mem-keys, mem-sort_by, nonempty, refl, some, sort_strings, split, split_space,
  true, ◌==◌, ◌∙◌, ◌∷◌, ◌≡◌, ◌⊕◌,
}
use shrine.State.Deployments.{
  Deployment, Deployments, deployment_line, empty_field_placeholder, field_or_placeholder,
  field_text, load_lines, load_team, parse_fields, print_names, print_team, put_line,
}
use shrine.State.Deployments.Words.{
  IsWord, before-missing, fields-join, is_plain, join-has_char, split-line,
}

-- A field that may be empty. The placeholder itself would come back as the empty text.
abbrev pub IsField : String → Type 0
IsField v = (is_plain v ≡ true) × ((v == empty_field_placeholder) ≡ false)

-- A deployment that one line holds.
pub record IsStorable (d : Deployment) : Type 0 where
  pub kind : IsWord d.kind
  pub name : IsWord d.name
  pub container_id : IsWord d.container_id
  pub config_hash : IsField d.config_hash
  pub image : IsField d.image
  pub policy : IsField d.policy

-- The words of the line of a deployment, behind its kind.
abbrev tail_words : Deployment → List String
tail_words d =
    d.name
    ∷ d.container_id
    ∷ field_or_placeholder d.config_hash
    ∷ field_or_placeholder d.image
    ∷ field_or_placeholder d.policy
    ∷ []

placeholder-IsWord : (v : String) → IsField v → IsWord (field_or_placeholder v)
unfolding field_or_placeholder is_plain dec_str
placeholder-IsWord v h = elim (Bool-cases (v == "")) [
  | inl empty ↦ rw empty (refl, refl)
  | inr full ↦ rw full (h.0, full)
]

empty_text : (v : String) → (v == "") ≡ true → v ≡ ""
empty_text v h = ground arith

field_text-placeholder :
    (v : String) (more : List String) → IsField v → field_text (field_or_placeholder v ∷ more) ≡ v
unfolding field_or_placeholder dec_str
field_text-placeholder v more h = elim (Bool-cases (v == "")) [
  | inl empty ↦ rw (empty_text v empty) refl
  | inr full ↦ rw (full, h.1) refl
]

words-IsWord : (d : Deployment) → IsStorable d → All IsWord (d.kind ∷ tail_words d)
words-IsWord d s = (
  s.kind,
  (
    s.name,
    (
      s.container_id,
      (
        placeholder-IsWord d.config_hash s.config_hash,
        (placeholder-IsWord d.image s.image, (placeholder-IsWord d.policy s.policy, tt)),
      ),
    ),
  ),
)

parse_fields-words : (d : Deployment) → IsStorable d → parse_fields (d.kind ∷ tail_words d) ≡ some d
unfolding parse_fields
parse_fields-words d s =
    rw
      (
        field_text-placeholder d.config_hash
            (field_or_placeholder d.image ∷ field_or_placeholder d.policy ∷ []) s.config_hash,
        field_text-placeholder d.image (field_or_placeholder d.policy ∷ []) s.image,
        field_text-placeholder d.policy [] s.policy,
      )
      refl

parse_line :
    (d : Deployment)
    → IsStorable d
    → parse_fields (fields (before b'#' (join " " (d.kind ∷ tail_words d)))) ≡ some d
unfolding is_space
parse_line d s =
    let words = words-IsWord d s in
    rw
      (
        before-missing b'#' (join " " (d.kind ∷ tail_words d))
            (join-has_char b'#' d.kind (tail_words d) refl refl words),
        fields-join d.kind (tail_words d) words,
      )
      (parse_fields-words d s)

-- The line of a deployment is read as the deployment.
load_lines-line :
    (d : Deployment) (text : String) (m : Deployments)
    → IsStorable d
    → load_lines (split b'\n' (deployment_line d ⊕ text)) m
      ≡ load_lines (split b'\n' text) (insert d.name d m)
unfolding load_lines deployment_line is_space
load_lines-line d text m s =
    ap (λ ls. load_lines ls m)
      (split-line (join " " (d.kind ∷ tail_words d)) text
        (join-has_char b'\n' d.kind (tail_words d) refl refl (words-IsWord d s)))
    ∙ ap (λ o. load_lines (split b'\n' text) (put_line o m)) (parse_line d s)

-- Every deployment of the map stands under its name and fits on a line.
abbrev pub IsStored : Deployments → Type 0
IsStored m = (n : String) (d : Deployment) → lookup n m ≡ some d → (d.name ≡ n) × IsStorable d

load_lines-print_names :
    (m acc : Deployments) (names : List String)
    → IsStored m
    → All (λ n. (d : Deployment) × (lookup n m ≡ some d)) names
    → (j : String)
    → lookup j (load_lines (split b'\n' (print_names m names)) acc)
      ≡ (if mem j names then lookup j m else lookup j acc)
unfolding load_lines print_names mem fields split_space nonempty parse_fields split before dec_str
load_lines-print_names m acc [] h found j = refl
load_lines-print_names m acc (n ∷ names) h found j =
    let (d, e) = found.0 in
    let (named, storable) = h n d e in
    rw (e, load_lines-line d (print_names m names) acc storable)
      (ground (
        arith,
        load_lines-print_names m (insert d.name d acc) names h found.1 j,
        lookup-insert j d.name d acc,
        named,
        e,
      ))

-- Reading the file that was written for a map of deployments gives the map back, when each
-- stands under its name and fits on a line: no white space and no `#` in a field, none of the first three empty, and none of the last
-- three the placeholder `-`, which stands for an empty one.
pub load_team-print_team :
    (m : Deployments)
    → IsStored m
    → (j : String) → lookup j (load_team (some (print_team m))) ≡ lookup j m
unfolding load_team print_team lookup
load_team-print_team m h j =
    let names = sort_strings (keys m) in
    let all_found =
      All-of_mem (λ n. (d : Deployment) × (lookup n m ≡ some d)) names
        (λ n k. found_key n m (ground (arith, mem-sort_by (λ s. s) n (keys m), mem-keys n m))) in
    ground (
      arith,
      load_lines-print_names m [] names h all_found j,
      mem-sort_by (λ s. s) j (keys m),
      mem-keys j m,
    )
