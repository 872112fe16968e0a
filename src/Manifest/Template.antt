-- ===== src/Manifest/Template.antt =====
-- internal/manifest/template.go: the fields that a template reads. A tree is what text/template/parse
-- makes of a template, as far as the walk looks at it.
pub mod Reads
use shrine.Prelude.{
  Bool, List, Option, String, [], arith, eq_int, eq_pair, eq_str, false, is_some, none, not, refl,
  some, true, ◌&&◌, ◌++◌, ◌||◌, ◌↔◌, ◌∷◌, ◌≡◌,
}

-- A node of package parse. The pointer to the list of an `else` is nil where there is no `else`:
-- `nil_list`, a pointer of the type of a list, which the walk does not take for a nil node.
mutual
  pub data Node : Type 0 where
    list_node : Nodes → Node
    nil_list : Node
    action_node : Node → Node
    pipe_node : Commands → Node
    field_node : List String → Node
    if_node range_node with_node : Node → Node → Node → Node
    other_node : Node

  pub data Nodes : Type 0 where
    no_nodes : Nodes
    node : Node → Nodes → Nodes

  pub data Commands : Type 0 where
    no_commands : Commands
    command : Nodes → Commands → Commands

-- refs = append(refs, ...), where a walk that faults has no result
abbrev pub both : Option (List String) → Option (List String) → Option (List String)
both none ys = none
both (some xs) none = none
both (some xs) (some ys) = some (xs ++ ys)

-- n.Ident[0], for an identifier that is not empty
abbrev pub first_ident : List String → List String
first_ident [] = []
first_ident (x ∷ xs) = x ∷ []

-- `walk`: what it appends to `refs`, or `none` where it reads through a nil pointer.
unfoldable mutual
  pub walk : Node → Option (List String)
  walk (list_node ns) = walk_nodes ns
  walk nil_list = none
  walk (action_node pipe) = walk pipe
  walk (pipe_node cs) = walk_commands cs
  walk (field_node ident) = some (first_ident ident)
  walk (if_node pipe list else_list) = both (walk pipe) (both (walk list) (walk else_list))
  walk (range_node pipe list else_list) = both (walk pipe) (both (walk list) (walk else_list))
  walk (with_node pipe list else_list) = both (walk pipe) (both (walk list) (walk else_list))
  walk other_node = some []

  pub walk_nodes : Nodes → Option (List String)
  walk_nodes no_nodes = some []
  walk_nodes (node n ns) = both (walk n) (walk_nodes ns)

  pub walk_commands : Commands → Option (List String)
  walk_commands no_commands = some []
  walk_commands (command args cs) = both (walk_nodes args) (walk_commands cs)

-- ExtractFieldRefs, for a tree that is nil or has a root
unfoldable pub extract_field_refs : Option Node → Option (List String)
unfolding walk
extract_field_refs none = some []
extract_field_refs (some root) = walk root

-- Whether a list that is nil stands somewhere in the tree.
unfoldable mutual
  pub has_nil_list : Node → Bool
  has_nil_list (list_node ns) = nodes_have_nil_list ns
  has_nil_list nil_list = true
  has_nil_list (action_node pipe) = has_nil_list pipe
  has_nil_list (pipe_node cs) = commands_have_nil_list cs
  has_nil_list (field_node ident) = false
  has_nil_list (if_node pipe list else_list) =
      has_nil_list pipe || (has_nil_list list || has_nil_list else_list)
  has_nil_list (range_node pipe list else_list) =
      has_nil_list pipe || (has_nil_list list || has_nil_list else_list)
  has_nil_list (with_node pipe list else_list) =
      has_nil_list pipe || (has_nil_list list || has_nil_list else_list)
  has_nil_list other_node = false

  pub nodes_have_nil_list : Nodes → Bool
  nodes_have_nil_list no_nodes = false
  nodes_have_nil_list (node n ns) = has_nil_list n || nodes_have_nil_list ns

  pub commands_have_nil_list : Commands → Bool
  commands_have_nil_list no_commands = false
  commands_have_nil_list (command args cs) = nodes_have_nil_list args || commands_have_nil_list cs

is_some-both : (x y : Option (List String)) → is_some (both x y) ≡ (is_some x && is_some y)
is_some-both none y = refl
is_some-both (some xs) none = refl
is_some-both (some xs) (some ys) = refl

control_some :
    (x y z : Option (List String)) (a b c : Bool)
    → is_some x ≡ not a
    → is_some y ≡ not b
    → is_some z ≡ not c
    → is_some (both x (both y z)) ≡ not (a || (b || c))
control_some x y z a b c p q r =
    ground (arith, is_some-both x (both y z), is_some-both y z, p, q, r)

mutual
  unfolding walk has_nil_list

  walk_some : (n : Node) → is_some (walk n) ≡ not (has_nil_list n)
  walk_some (list_node ns) = walk_nodes_some ns
  walk_some nil_list = refl
  walk_some (action_node pipe) = walk_some pipe
  walk_some (pipe_node cs) = walk_commands_some cs
  walk_some (field_node ident) = refl
  walk_some (if_node p l e) =
      control_some _ _ _ (has_nil_list p) (has_nil_list l) (has_nil_list e) (walk_some p)
        (walk_some l) (walk_some e)
  walk_some (range_node p l e) =
      control_some _ _ _ (has_nil_list p) (has_nil_list l) (has_nil_list e) (walk_some p)
        (walk_some l) (walk_some e)
  walk_some (with_node p l e) =
      control_some _ _ _ (has_nil_list p) (has_nil_list l) (has_nil_list e) (walk_some p)
        (walk_some l) (walk_some e)
  walk_some other_node = refl

  walk_nodes_some : (ns : Nodes) → is_some (walk_nodes ns) ≡ not (nodes_have_nil_list ns)
  walk_nodes_some no_nodes = refl
  walk_nodes_some (node n ns) =
      ground (arith, is_some-both (walk n) (walk_nodes ns), walk_some n, walk_nodes_some ns)

  walk_commands_some :
      (cs : Commands) → is_some (walk_commands cs) ≡ not (commands_have_nil_list cs)
  walk_commands_some no_commands = refl
  walk_commands_some (command args cs) = ground (
    arith,
    is_some-both (walk_nodes args) (walk_commands cs),
    walk_nodes_some args,
    walk_commands_some cs,
  )

-- The walk of a tree with a root faults exactly when a list that is nil stands somewhere in it, so
-- at every `if`, `range` or `with` that has no `else`.
pub extract_field_refs-fault_iff :
    (root : Node) → (extract_field_refs (some root) ≡ none) ↔ (has_nil_list root ≡ true)
unfolding extract_field_refs
extract_field_refs-fault_iff root =
    (λ e. ground (arith, walk_some root), λ e. ground (arith, walk_some root))
