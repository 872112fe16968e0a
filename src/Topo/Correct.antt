-- ===== src/Topo/Correct.antt =====
-- What `Sort` promises.
use shrine.Prelude.{
  Bool-cases, List, Nodup, String, [], ap, append-nil, arith, eq_int, eq_pair, eq_str, false,
  if◌then◌else◌, inl, inr, keep, keep-Nodup, keys, length, length-keys, length-le_of_subset, ltb,
  mem, mem-append, mem-keep, mem-sort_by, mem_of_full, nat_eq, not, refl, some, sort_by-Nodup,
  sort_strings, sym, true, ℕ, ◌&&◌, ◌<◌, ◌↔◌, ◌∙◌, ◌∷◌, ◌≡◌, ◌≢◌, ◌≤◌, ◌⊎◌,
}
use shrine.Topo.{Graph, sorted, cycle, exhausted, degrees, loop, finish, topo_sort}
use shrine.Topo.Graph.{IsGraph, deps_in, degrees-Wired, degrees-indeg}
use shrine.Topo.Loop.{IsOrdered, pending, pending_witness, Inv, loop_total}

abbrev initial_queue : Graph → List String
initial_queue g = sort_strings (keep (λ n. nat_eq ((degrees g).indeg n) 0) (keys g))

pending_nothing : (ds : List String) → pending [] ds ≡ length ds
unfolding keep mem
pending_nothing [] = refl
pending_nothing (d ∷ ds) = ground (arith, pending_nothing ds)

module _ (g : Graph) (h : IsGraph g) where
  mem-initial :
      (n : String)
      → mem n (initial_queue g) ≡ (if nat_eq ((degrees g).indeg n) 0 then mem n (keys g) else false)
  mem-initial n = ground (
    arith,
    mem-sort_by (λ s. s) n (keep (λ n. nat_eq ((degrees g).indeg n) 0) (keys g)),
    mem-keep (λ n. nat_eq ((degrees g).indeg n) 0) n (keys g),
  )

  initial-Inv : Inv (degrees-Wired g h) [] (initial_queue g) (degrees g).indeg
  initial-Inv = record {
    degree = λ m. degrees-indeg g m h ∙ sym (pending_nothing (deps_in g m));
    once = sort_by-Nodup (λ s. s) _ (keep-Nodup _ (keys g) h.nodes);
    nodes = λ m k. ground (arith, mem-initial m);
    ready = λ m k. ground (arith, mem-initial m);
    ordered = tt;
  }

  ended :
      (r : List String × (String → ℕ)) × (loop
          (length g)
          (degrees g).reverse
          (initial_queue g)
          []
          (degrees g).indeg
        ≡ some r)
      × Inv (degrees-Wired g h) r.0 [] r.1
  ended =
      loop_total (degrees-Wired g h) (length g) (initial_queue g) [] (degrees g).indeg
        (omega (arith, length-keys g)) initial-Inv

  topo_sort-finish : topo_sort g ≡ finish g (some ended.0)
  unfolding topo_sort
  topo_sort-finish = ap (finish g) ended.1

  -- With an empty queue, the nodes that are placed are those of degree 0.
  placed_iff : (n : String) → mem n (keys g) ≡ true → mem n ended.0.0 ≡ nat_eq (ended.0.1 n) 0
  unfolding mem
  placed_iff n k = ground (arith, ended.2.ready n k, mem-append n ended.0.0 [])

  placed_node : (n : String) → mem n ended.0.0 ≡ true → mem n (keys g) ≡ true
  unfolding mem
  placed_node n k = ended.2.nodes n (ground (arith, mem-append n ended.0.0 []))

  placed_once : Nodup ended.0.0
  placed_once = rw (← append-nil ended.0.0) ended.2.once

  -- All nodes are placed exactly when the lengths agree, which is the test that the code makes.
  all_placed : length ended.0.0 ≡ length g → (n : String) → mem n (keys g) ≡ mem n ended.0.0
  all_placed full n = elim (Bool-cases (mem n (keys g))) [
    | inl node ↦
        node
        ∙ sym (
            mem_of_full ended.0.0 (keys g) placed_once placed_node (omega (arith, length-keys g)) n
              node)
    | inr other ↦ ground (arith, placed_node n)
  ]

  stuck_list : List String
  stuck_list = sort_strings (keep (λ n. ltb 0 (ended.0.1 n)) (keys g))

  mem-stuck : (n : String) → mem n stuck_list ≡ (mem n (keys g) && not (mem n ended.0.0))
  unfolding stuck_list
  mem-stuck n = ground (
    arith,
    mem-sort_by (λ s. s) n (keep (λ n. ltb 0 (ended.0.1 n)) (keys g)),
    mem-keep (λ n. ltb 0 (ended.0.1 n)) n (keys g),
    placed_iff n,
  )

-- The reverse of `IsOrdered`: every entry of a set has a dependency in the set.
pub record IsCyclic (g : Graph) (bad : List String) : Type 0 where
  pub member : (n : String) × (mem n bad ≡ true)
  pub next :
      (n : String)
      → mem n bad ≡ true
      → (d : String) × (mem d (deps_in g n) ≡ true) × (mem d bad ≡ true)

-- A nonempty list has a member.
first_member : (xs : List String) → 0 < length xs → (n : String) × (mem n xs ≡ true)
unfolding mem
first_member [] h = absurd (omega arith)
first_member (x ∷ xs) h = (x, ground arith)

not_all_placed :
    (ks order : List String)
    → Nodup ks
    → ((n : String) → mem n ks ≡ true → mem n order ≡ false → ⊥)
    → length ks ≤ length order
not_all_placed ks order d none_left =
    length-le_of_subset ks order d (λ n k. ground (arith, none_left n k))

mem-nil : (n : String) → mem n [] ≡ false
unfolding mem
mem-nil n = refl

nonempty_or_nil : (xs : List String) → (0 < length xs) ⊎ (xs ≡ [])
nonempty_or_nil [] = inr refl
nonempty_or_nil (x ∷ xs) = inl (omega arith)

module _ (g : Graph) (h : IsGraph g) where
  stuck-IsCyclic : length (ended g h).0.0 ≢ length g → IsCyclic g (stuck_list g h)
  stuck-IsCyclic short = record {
    member = elim (nonempty_or_nil (stuck_list g h)) [
      | inl some_left ↦ first_member (stuck_list g h) some_left
      | inr none_left ↦ absurd (
          short (
            omega (
              arith,
              length-keys g,
              not_all_placed (keys g) (ended g h).0.0 h.nodes
                  (λ n k m. ground (arith, mem-stuck g h n, ap (mem n) none_left, mem-nil n)),
              length-le_of_subset (ended g h).0.0 (keys g) (placed_once g h) (placed_node g h),
            )))
    ];
    next = λ n m.
        let (d, dep, waiting) =
          pending_witness (ended g h).0.0 (deps_in g n)
            (ground (arith, mem-stuck g h n, placed_iff g h n, (ended g h).2.degree n)) in
        (d, dep, ground (arith, mem-stuck g h d, (degrees-Wired g h).dep_known n d dep));
  }

-- No list is at once ordered and closed under some dependency.
not_both :
    (D : String → List String) (bad seen xs : List String)
    → ((n : String) → mem n bad ≡ true → (d : String) × (mem d (D n) ≡ true) × (mem d bad ≡ true))
    → IsOrdered D seen xs
    → ((n : String) → mem n seen ≡ true → mem n bad ≡ false)
    → (n : String) → mem n xs ≡ true
    → mem n bad ≡ false
unfolding mem
not_both D bad seen [] closed o clean n m = cc
not_both D bad seen (x ∷ xs) closed o clean n m = ground (
  arith,
  head_clean,
  not_both D bad (x ∷ seen) xs closed o.1 (λ k e. ground (arith, head_clean, clean k)) n,
)
  where
    head_clean : mem x bad ≡ false
    head_clean = elim (Bool-cases (mem x bad)) [
      | inr good ↦ good
      | inl stuck ↦ let (d, dep, also) = closed x stuck in ground (arith, clean d, o.0 d dep)
    ]

module _ (g : Graph) (h : IsGraph g) where
  abbrev order : List String
  order = (ended g h).0.0

  -- What `Sort` returns, by the length of the order that the loop has built.
  topo_sort-cases :
      ((topo_sort g ≡ sorted order) × (length order ≡ length g))
      ⊎ ((topo_sort g ≡ cycle (stuck_list g h)) × (length order ≢ length g))
  unfolding finish stuck_list
  topo_sort-cases = elim (Bool-cases (nat_eq (length order) (length g))) [
    | inl full ↦ inl (ground (arith, topo_sort-finish g h), ground arith)
    | inr short ↦ inr (ground (arith, topo_sort-finish g h), ground arith)
  ]

-- On a graph (a map whose keys and sets hold no name twice), `Sort` returns an order in which each
-- node stands exactly once and behind all its dependencies that are nodes of the graph.
pub sorted-IsOrdered :
    (g : Graph) (xs : List String)
    → IsGraph g
    → topo_sort g ≡ sorted xs
    → Nodup xs × ((n : String) → mem n (keys g) ≡ mem n xs) × IsOrdered (deps_in g) [] xs
sorted-IsOrdered g xs h e = elim (topo_sort-cases g h) [
  | inl (s, full) ↦
      let same : order g h ≡ xs = cc in
      rw (← same) (placed_once g h, all_placed g h full, (ended g h).2.ordered)
  | inr (s, short) ↦ cc
]

-- On a graph, `Sort` reports a cycle exactly when some nonempty set of names is closed under
-- dependency: each of its names depends on another node of the graph that is in the set.
pub cycle_iff_IsCyclic :
    (g : Graph)
    → IsGraph g
    → ((stuck : List String) × (topo_sort g ≡ cycle stuck)) ↔ ((bad : List String) × IsCyclic g bad)
cycle_iff_IsCyclic g h = (found, reported)
  where
    found :
        (stuck : List String) × (topo_sort g ≡ cycle stuck) → (bad : List String) × IsCyclic g bad
    found (stuck, e) = elim (topo_sort-cases g h) [
      | inl (s, full) ↦ cc
      | inr (s, short) ↦ (stuck_list g h, stuck-IsCyclic g h short)
    ]

    reported :
        (bad : List String) × IsCyclic g bad → (stuck : List String) × (topo_sort g ≡ cycle stuck)
    reported (bad, c) = elim (topo_sort-cases g h) [
      | inr (s, short) ↦ (stuck_list g h, s)
      | inl (s, full) ↦
          let (n, m) = c.member in
          let (d, dep, also) = c.next n m in
          absurd (
            ground (
              arith,
              all_placed g h full d,
              (degrees-Wired g h).dep_known n d dep,
              not_both (deps_in g) bad [] (order g h) c.next (ended g h).2.ordered
                  (λ k e. ground (arith, mem-nil k)) d,
            ))
    ]

-- On a graph, the names that `Sort` lists in the error of a cycle are a nonempty set that is closed
-- under dependency.
stuck-closed :
    (g : Graph) (stuck : List String) → IsGraph g → topo_sort g ≡ cycle stuck → IsCyclic g stuck
stuck-closed g stuck h e = elim (topo_sort-cases g h) [
  | inl (s, full) ↦ cc
  | inr (s, short) ↦
      let same : stuck_list g h ≡ stuck = cc in rw (← same) (stuck-IsCyclic g h short)
]

-- On a graph, the loop of `Sort` ends within one round for each node, so that the fuel never runs
-- out and `Sort` returns an order or a cycle.
pub topo_sort-ne-exhausted : (g : Graph) → IsGraph g → topo_sort g ≢ exhausted
topo_sort-ne-exhausted g h e = elim (topo_sort-cases g h) [
  | inl (s, full) ↦ cc
  | inr (s, short) ↦ cc
]
