-- ===== src/Topo/Examples.antt =====
-- Small graphs: the sorter on them, and the theorems at them.
use shrine.Prelude.{
  List, Nodup, String, [], dec_str, eq_int, eq_pair, eq_str, keep, keys, lookup, mem, refl, sort_by,
  ◌↔◌, ◌∷◌, ◌≡◌,
}
use shrine.Topo.{Graph, sorted, cycle, topo_sort}
use shrine.Topo.Graph.{IsGraph, deps_in}
use shrine.Topo.Loop.{IsOrdered}
use shrine.Topo.Correct.{IsCyclic, sorted-IsOrdered, cycle_iff_IsCyclic}

abbrev diamond : Graph
diamond = ("a", "b" ∷ "c" ∷ []) ∷ ("b", "d" ∷ "gone" ∷ []) ∷ ("c", "d" ∷ []) ∷ ("d", []) ∷ []

abbrev ring : Graph
ring = ("a", "b" ∷ []) ∷ ("b", "a" ∷ []) ∷ ("c", []) ∷ []

diamond-sorted : topo_sort diamond ≡ sorted ("d" ∷ "b" ∷ "c" ∷ "a" ∷ [])
unfolding topo_sort keep mem lookup sort_by dec_str
diamond-sorted = refl

ring-cycle : topo_sort ring ≡ cycle ("a" ∷ "b" ∷ [])
unfolding topo_sort keep mem lookup sort_by dec_str
ring-cycle = refl

diamond-IsGraph : IsGraph diamond
unfolding mem dec_str
diamond-IsGraph = record {
  nodes = (refl, (refl, (refl, (refl, tt))));
  sets = ((refl, (refl, tt)), ((refl, (refl, tt)), ((refl, tt), (tt, tt))));
}

ring-IsGraph : IsGraph ring
unfolding mem dec_str
ring-IsGraph = record {
  nodes = (refl, (refl, (refl, tt)));
  sets = ((refl, tt), ((refl, tt), (tt, tt)));
}

sorted-IsOrdered_example :
    Nodup {A = String} ("d" ∷ "b" ∷ "c" ∷ "a" ∷ [])
    × ((n : String) → mem n (keys diamond) ≡ mem n ("d" ∷ "b" ∷ "c" ∷ "a" ∷ []))
    × IsOrdered (deps_in diamond) [] ("d" ∷ "b" ∷ "c" ∷ "a" ∷ [])
sorted-IsOrdered_example =
    sorted-IsOrdered diamond ("d" ∷ "b" ∷ "c" ∷ "a" ∷ []) diamond-IsGraph diamond-sorted

cycle_iff_IsCyclic_example :
    ((stuck : List String) × (topo_sort ring ≡ cycle stuck))
    ↔ ((bad : List String) × IsCyclic ring bad)
cycle_iff_IsCyclic_example = cycle_iff_IsCyclic ring ring-IsGraph
