-- ===== src/Topo.antt =====
-- internal/topo/topo.go: Kahn's algorithm. `indeg` and `reverse` are Go maps as functions, with the
-- zero value at a missing key.
pub mod Graph
pub mod Loop
pub mod Correct
mod Examples
use shrine.Prelude.{
  List, Option, String, [], after, eq_int, eq_pair, eq_str, has_key, if◌then◌else◌, keep, keys,
  length, ltb, mem, nat_eq, none, some, sort_strings, suc, zero, ℕ, ◌++◌, ◌+◌, ◌-◌, ◌==◌, ◌∷◌,
}

-- map[string]map[string]struct{}: each node with the set of its dependencies

abbrev pub Graph : Type 0
Graph = List (String × List String)

-- The two maps that `Sort` builds: reverse[x] is the set of nodes that depend on x.
pub record Degrees : Type 0 where
  pub reverse : String → List String
  pub indeg : String → ℕ

pub data SortResult : Type 0 where
  sorted : List String → SortResult
  cycle : List String → SortResult
  exhausted : SortResult

abbrev pub update {ℓ} : {A : Type ℓ} → (String → A) → String → A → String → A
update f k v = λ j. if k == j then v else f j

-- s[x] = struct{}{}
unfoldable pub add_to_set : String → List String → List String
add_to_set x xs = if mem x xs then xs else x ∷ xs

-- The body of the inner loop: a dependency that is no node is skipped.
add_edge : Graph → String → String → Degrees → Degrees
unfolding add_to_set
add_edge g node d s =
    if has_key d g
    then record {
      reverse = update s.reverse d (add_to_set node (s.reverse d));
      indeg = update s.indeg node (s.indeg node + 1);
    }
    else s

-- `for d := range ds`, over one node
count_edges : Graph → String → List String → Degrees → Degrees
unfolding add_edge
count_edges g node [] s = s
count_edges g node (d ∷ ds) s = count_edges g node ds (add_edge g node d s)

build : Graph → List (String × List String) → Degrees → Degrees
build g [] s = s
build g ((node, ds) ∷ rest) s = build g rest (count_edges g node ds s)

abbrev degrees : Graph → Degrees
degrees g = build g g (record { reverse = λ _. []; indeg = λ _. 0 })

-- `for dep := range reverse[n]`: a degree that was 1 is 0 after the decrement.
pub free : List String → (String → ℕ) → (String → ℕ) × List String
free [] indeg = (indeg, [])
free (dep ∷ deps) indeg =
    let (after, freed) = free deps (update indeg dep (indeg dep - 1)) in
    (after, if nat_eq (indeg dep) 1 then dep ∷ freed else freed)

-- `for len(queue) > 0`, with fuel for the rounds; `none` means that the fuel ran out.
pub loop :
    ℕ
    → (String → List String)
    → List String
    → List String
    → (String → ℕ)
    → Option (List String × (String → ℕ))
loop fuel reverse [] order indeg = some (order, indeg)
loop zero reverse (n ∷ queue) order indeg = none
loop (suc fuel) reverse (n ∷ queue) order indeg =
    let (after, freed) = free (reverse n) indeg in
    loop fuel reverse (queue ++ sort_strings freed) (order ++ n ∷ []) after

-- What `Sort` returns once the loop is done.
pub finish : Graph → Option (List String × (String → ℕ)) → SortResult
finish g none = exhausted
finish g (some (order, indeg)) =
    if nat_eq (length order) (length g)
    then sorted order
    else cycle (sort_strings (keep (λ node. ltb 0 (indeg node)) (keys g)))

unfoldable pub topo_sort : Graph → SortResult
unfolding build count_edges free loop finish
topo_sort g =
    let d = degrees g in
    finish g (
      loop (length g) d.reverse (sort_strings (keep (λ node. nat_eq (d.indeg node) 0) (keys g))) []
        d.indeg)
