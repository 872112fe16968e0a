-- ===== src/Manifest/Template/Reads.antt =====
-- The fields of a tree, described without the walk.
use shrine.Prelude.{
  Bool, List, Option, String, [], arith, eq_int, eq_pair, eq_str, false, mem, mem-append, none,
  refl, some, ◌++◌, ◌==◌, ◌||◌, ◌∷◌, ◌≡◌,
}
use shrine.Manifest.Template.{
  Commands, Node, Nodes, action_node, both, command, extract_field_refs, field_node, first_ident,
  if_node, list_node, nil_list, no_commands, no_nodes, node, other_node, pipe_node, range_node,
  walk, walk_commands, walk_nodes, with_node,
}

abbrev is_head : String → List String → Bool
is_head x [] = false
is_head x (y ∷ ys) = y == x

-- Whether a name is the head of a field, such as `.name`, somewhere in the tree.
unfoldable mutual
  pub reads_field : String → Node → Bool
  reads_field x (list_node ns) = nodes_read_field x ns
  reads_field x nil_list = false
  reads_field x (action_node pipe) = reads_field x pipe
  reads_field x (pipe_node cs) = commands_read_field x cs
  reads_field x (field_node ident) = is_head x ident
  reads_field x (if_node pipe list else_list) =
      reads_field x pipe || (reads_field x list || reads_field x else_list)
  reads_field x (range_node pipe list else_list) =
      reads_field x pipe || (reads_field x list || reads_field x else_list)
  reads_field x (with_node pipe list else_list) =
      reads_field x pipe || (reads_field x list || reads_field x else_list)
  reads_field x other_node = false

  pub nodes_read_field : String → Nodes → Bool
  nodes_read_field x no_nodes = false
  nodes_read_field x (node n ns) = reads_field x n || nodes_read_field x ns

  pub commands_read_field : String → Commands → Bool
  commands_read_field x no_commands = false
  commands_read_field x (command args cs) = nodes_read_field x args || commands_read_field x cs

-- The answer of a walk has a name exactly when the test says so.
abbrev HasName : String → Option (List String) → Bool → Type 0
HasName x o b = (refs : List String) → o ≡ some refs → mem x refs ≡ b

both-HasName :
    (x : String) (p q : Option (List String)) (a b : Bool)
    → HasName x p a
    → HasName x q b
    → HasName x (both p q) (a || b)
both-HasName x none q a b h k refs e = absurd (ground arith)
both-HasName x (some xs) none a b h k refs e = absurd (ground arith)
both-HasName x (some xs) (some ys) a b h k refs e =
    let same : xs ++ ys ≡ refs = ground arith in
    rw (← same, mem-append x xs ys, h xs refl, k ys refl) refl

head-HasName :
    (x : String) (ident : List String) → HasName x (some (first_ident ident)) (is_head x ident)
unfolding mem
head-HasName x [] refs e = let same : [] ≡ refs = ground arith in rw (← same) refl
head-HasName x (y ∷ ident) refs e =
    let same : y ∷ [] ≡ refs = ground arith in rw (← same) (ground arith)

nothing-HasName : (x : String) → HasName x (some []) false
unfolding mem
nothing-HasName x refs e = let same : [] ≡ refs = ground arith in rw (← same) refl

mutual
  unfolding walk reads_field

  walk-HasName : (x : String) (n : Node) → HasName x (walk n) (reads_field x n)
  walk-HasName x (list_node ns) = walk_nodes-HasName x ns
  walk-HasName x nil_list = λ refs e. absurd (ground arith)
  walk-HasName x (action_node pipe) = walk-HasName x pipe
  walk-HasName x (pipe_node cs) = walk_commands-HasName x cs
  walk-HasName x (field_node ident) = head-HasName x ident
  walk-HasName x (if_node p l e) =
      both-HasName x _ _ _ _ (walk-HasName x p)
        (both-HasName x _ _ _ _ (walk-HasName x l) (walk-HasName x e))
  walk-HasName x (range_node p l e) =
      both-HasName x _ _ _ _ (walk-HasName x p)
        (both-HasName x _ _ _ _ (walk-HasName x l) (walk-HasName x e))
  walk-HasName x (with_node p l e) =
      both-HasName x _ _ _ _ (walk-HasName x p)
        (both-HasName x _ _ _ _ (walk-HasName x l) (walk-HasName x e))
  walk-HasName x other_node = nothing-HasName x

  walk_nodes-HasName : (x : String) (ns : Nodes) → HasName x (walk_nodes ns) (nodes_read_field x ns)
  walk_nodes-HasName x no_nodes = nothing-HasName x
  walk_nodes-HasName x (node n ns) =
      both-HasName x _ _ _ _ (walk-HasName x n) (walk_nodes-HasName x ns)

  walk_commands-HasName :
      (x : String) (cs : Commands) → HasName x (walk_commands cs) (commands_read_field x cs)
  walk_commands-HasName x no_commands = nothing-HasName x
  walk_commands-HasName x (command args cs) =
      both-HasName x _ _ _ _ (walk_nodes-HasName x args) (walk_commands-HasName x cs)

-- The same for a tree that may be nil.
abbrev pub tree_reads_field : String → Option Node → Bool
tree_reads_field x none = false
tree_reads_field x (some root) = reads_field x root

-- The fields that are extracted are those whose heads stand in the tree.
pub mem-extract_field_refs :
    (x : String) (tree : Option Node) (refs : List String)
    → extract_field_refs tree ≡ some refs
    → mem x refs ≡ tree_reads_field x tree
unfolding extract_field_refs
mem-extract_field_refs x none refs e = nothing-HasName x refs e
mem-extract_field_refs x (some root) refs e = walk-HasName x root refs e
