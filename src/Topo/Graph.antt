-- ===== src/Topo/Graph.antt =====
-- The maps that the first pass builds: the degree of a node counts its dependencies in the graph,
-- and `reverse` is the converse of the dependency relation.
use shrine.Prelude.{
  All, List, Nodup, Option, String, [], arith, eq_int, eq_pair, eq_str, has_key, if◌then◌else◌,
  keep, keep-Nodup, keys, length, lookup, mem, mem-keep, mem-keys, none, some, true, ◌&&◌, ◌+◌,
  ◌==◌, ◌||◌, ◌∷◌, ◌≡◌,
}
use shrine.Topo.{Graph, Degrees, add_to_set, add_edge, count_edges, build, degrees}

-- A Go map of Go sets: no key and no entry of a set twice.
pub record IsGraph (g : Graph) : Type 0 where
  pub nodes : Nodup (keys g)
  pub sets : All (λ r. Nodup r.1) g

abbrev pub get_or_empty : Option (List String) → List String
get_or_empty none = []
get_or_empty (some ds) = ds

-- The dependencies of a node that are nodes themselves.
abbrev pub known_deps : Graph → Graph → String → List String
known_deps g es n = keep (λ d. has_key d g) (get_or_empty (lookup n es))

abbrev pub deps_in : Graph → String → List String
deps_in g n = known_deps g g n

pub mem-add_to_set :
    (x y : String) (ys : List String) → mem x (add_to_set y ys) ≡ (y == x || mem x ys)
unfolding add_to_set mem
mem-add_to_set x y ys = ground arith

pub add_to_set-Nodup : (y : String) (ys : List String) → Nodup ys → Nodup (add_to_set y ys)
unfolding add_to_set
add_to_set-Nodup y ys d = ground arith

indeg-add_edge :
    (g : Graph) (n d : String) (s : Degrees) (j : String)
    → (add_edge g n d s).indeg j ≡ s.indeg j + (if n == j && has_key d g then 1 else 0)
unfolding add_edge
indeg-add_edge g n d s j = ground arith

reverse-add_edge :
    (g : Graph) (n c : String) (s : Degrees) (m d : String)
    → mem m ((add_edge g n c s).reverse d)
      ≡ (mem m (s.reverse d) || n == m && has_key c g && c == d)
unfolding add_edge
reverse-add_edge g n c s m d = ground (arith, mem-add_to_set m n (s.reverse c))

add_edge-Nodup :
    (g : Graph) (n c : String) (s : Degrees) (d : String)
    → Nodup (s.reverse d)
    → Nodup ((add_edge g n c s).reverse d)
unfolding add_edge
add_edge-Nodup g n c s d h = ground (arith, add_to_set-Nodup n (s.reverse c))

indeg-count_edges :
    (g : Graph) (n : String) (ds : List String) (s : Degrees) (j : String)
    → (count_edges g n ds s).indeg j
      ≡ s.indeg j + (if n == j then length (keep (λ d. has_key d g) ds) else 0)
unfolding count_edges keep
indeg-count_edges g n [] s j = ground arith
indeg-count_edges g n (d ∷ ds) s j =
    ground (arith, indeg-add_edge g n d s j, indeg-count_edges g n ds (add_edge g n d s) j)

reverse-count_edges :
    (g : Graph) (n : String) (ds : List String) (s : Degrees) (m d : String)
    → mem m ((count_edges g n ds s).reverse d)
      ≡ (mem m (s.reverse d) || n == m && has_key d g && mem d ds)
unfolding count_edges mem
reverse-count_edges g n [] s m d = ground arith
reverse-count_edges g n (c ∷ ds) s m d =
    ground (arith, reverse-add_edge g n c s m d, reverse-count_edges g n ds (add_edge g n c s) m d)

count_edges-Nodup :
    (g : Graph) (n : String) (ds : List String) (s : Degrees)
    → ((d : String) → Nodup (s.reverse d))
    → (d : String) → Nodup ((count_edges g n ds s).reverse d)
unfolding count_edges
count_edges-Nodup g n [] s h d = h d
count_edges-Nodup g n (c ∷ ds) s h d =
    count_edges-Nodup g n ds (add_edge g n c s) (λ b. add_edge-Nodup g n c s b (h b)) d

module _ (g : Graph) where
  indeg-build :
      (es : Graph) (s : Degrees) (j : String)
      → Nodup (keys es)
      → (build g es s).indeg j ≡ s.indeg j + length (known_deps g es j)
  unfolding build keep lookup
  indeg-build [] s j d = ground arith
  indeg-build ((n, ds) ∷ es) s j d = ground (
    arith,
    indeg-build es (count_edges g n ds s) j d.1,
    indeg-count_edges g n ds s j,
    mem-keys n es,
  )

  reverse-build :
      (es : Graph) (s : Degrees) (m d : String)
      → Nodup (keys es)
      → mem m ((build g es s).reverse d)
        ≡ (mem m (s.reverse d) || has_key d g && mem d (get_or_empty (lookup m es)))
  unfolding build lookup mem
  reverse-build [] s m d h = ground arith
  reverse-build ((n, ds) ∷ es) s m d h = ground (
    arith,
    reverse-build es (count_edges g n ds s) m d h.1,
    reverse-count_edges g n ds s m d,
    mem-keys n es,
  )

  build-Nodup :
      (es : Graph) (s : Degrees)
      → ((d : String) → Nodup (s.reverse d))
      → (d : String) → Nodup ((build g es s).reverse d)
  unfolding build
  build-Nodup [] s h = h
  build-Nodup ((n, ds) ∷ es) s h =
      build-Nodup es (count_edges g n ds s) (count_edges-Nodup g n ds s h)

lookup-Nodup :
    (es : Graph) (n : String) → All (λ r. Nodup r.1) es → Nodup (get_or_empty (lookup n es))
unfolding lookup
lookup-Nodup [] n h = tt
lookup-Nodup ((m, ds) ∷ es) n h = ground (arith, lookup-Nodup es n h.1)

-- What the loop needs of `reverse`, as a relation between the nodes `ks` and the dependencies `D`.
pub record Wired (ks : List String) (D rev : String → List String) : Type 0 where
  pub converse : (m d : String) → mem m (rev d) ≡ mem d (D m)
  pub rev_sets : (d : String) → Nodup (rev d)
  pub dep_sets : (m : String) → Nodup (D m)
  pub dep_known : (m d : String) → mem d (D m) ≡ true → mem d ks ≡ true
  pub dep_node : (m d : String) → mem d (D m) ≡ true → mem m ks ≡ true

pub degrees-Wired : (g : Graph) → IsGraph g → Wired (keys g) (deps_in g) (degrees g).reverse
unfolding mem
degrees-Wired g h = record {
  converse = λ m d. ground (
    arith,
    reverse-build g g (record { reverse = λ _. []; indeg = λ _. 0 }) m d h.nodes,
    mem-keep (λ c. has_key c g) d (get_or_empty (lookup m g)),
  );
  rev_sets = build-Nodup g g _ (λ d. tt);
  dep_sets = λ m. keep-Nodup _ _ (lookup-Nodup g m h.sets);
  dep_known = λ m d e.
      ground (arith, mem-keep (λ c. has_key c g) d (get_or_empty (lookup m g)), mem-keys d g);
  dep_node = λ m d e.
      ground (arith, mem-keep (λ c. has_key c g) d (get_or_empty (lookup m g)), mem-keys m g);
}

pub degrees-indeg :
    (g : Graph) (n : String) → IsGraph g → (degrees g).indeg n ≡ length (deps_in g n)
degrees-indeg g n h =
    omega (arith, indeg-build g g (record { reverse = λ _. []; indeg = λ _. 0 }) n h.nodes)
