-- ===== src/Topo/Loop.antt =====
-- The loop of `Sort`, over any nodes `ks`, dependencies `D` and their converse `rev`.
use shrine.Prelude.{
  Bool-cases, List, Nodup, String, [], ap, arith, eq_int, eq_pair, eq_str, false, if◌then◌else◌,
  inl, inr, keep, length, length-append, length-le_of_subset, mem, mem-append, mem-sort_by, nat_eq,
  not, refl, some, sort_by-Nodup, sort_strings, suc, true, zero, ℕ, ◌&&◌, ◌++◌, ◌+◌, ◌-◌, ◌<◌, ◌||◌,
  ◌∷◌, ◌≡◌, ◌≤◌,
}
use shrine.Topo.{update, free, loop}
use shrine.Topo.Graph.{Wired}

-- How many of `ds` are not placed yet.
abbrev pub pending : List String → List String → ℕ
pending order ds = length (keep (λ d. not (mem d order)) ds)

-- Every entry stands behind its dependencies; `seen` stands before the list.
abbrev pub IsOrdered : (String → List String) → List String → List String → Type 0
IsOrdered D seen [] = Unit {0}
IsOrdered D seen (x ∷ xs) =
    ((d : String) → mem d (D x) ≡ true → mem d seen ≡ true) × IsOrdered D (x ∷ seen) xs

IsOrdered-snoc :
    (D : String → List String) (seen xs : List String) (x : String)
    → IsOrdered D seen xs
    → ((d : String) → mem d (D x) ≡ true → (mem d xs || mem d seen) ≡ true)
    → IsOrdered D seen (xs ++ x ∷ [])
unfolding mem
IsOrdered-snoc D seen [] x h k = (k, tt)
IsOrdered-snoc D seen (y ∷ xs) x h k =
    (h.0, IsOrdered-snoc D (y ∷ seen) xs x h.1 (λ d m. ground (arith, k d m)))

append-Nodup :
    (xs ys : List String)
    → Nodup xs
    → Nodup ys
    → ((x : String) → mem x xs ≡ true → mem x ys ≡ false)
    → Nodup (xs ++ ys)
unfolding mem
append-Nodup [] ys dx dy apart = dy
append-Nodup (x ∷ xs) ys dx dy apart = (
  ground (arith, mem-append x xs ys, apart x),
  append-Nodup xs ys dx.1 dy (λ z m. apart z (ground arith)),
)

-- Placing `n` takes one from what is pending of each set that holds it.
pending-snoc :
    (order : List String) (n : String) (ds : List String)
    → mem n order ≡ false
    → Nodup ds
    → pending order ds ≡ pending (order ++ n ∷ []) ds + (if mem n ds then 1 else 0)
unfolding keep mem
pending-snoc order n [] h d = ground arith
pending-snoc order n (x ∷ ds) h d =
    ground (arith, pending-snoc order n ds h d.1, mem-append x order (n ∷ []))

pending_zero :
    (order ds : List String) (d : String)
    → pending order ds ≡ 0
    → mem d ds ≡ true
    → mem d order ≡ true
unfolding keep mem
pending_zero order [] d h m = ground arith
pending_zero order (x ∷ ds) d h m = ground (arith, pending_zero order ds d)

-- Something pending is an entry that is not placed.
pub pending_witness :
    (order ds : List String)
    → 0 < pending order ds
    → (d : String) × (mem d ds ≡ true) × (mem d order ≡ false)
unfolding keep mem
pending_witness order [] h = absurd (omega arith)
pending_witness order (x ∷ ds) h = elim (Bool-cases (mem x order)) [
  | inl placed ↦ let (d, m, o) = pending_witness order ds (ground arith) in (d, ground arith, o)
  | inr missing ↦ (x, ground arith, missing)
]

indeg-free :
    (deps : List String) (indeg : String → ℕ) (j : String)
    → Nodup deps
    → (free deps indeg).0 j ≡ (if mem j deps then indeg j - 1 else indeg j)
unfolding free mem
indeg-free [] indeg j d = refl
indeg-free (x ∷ deps) indeg j d =
    ground (arith, indeg-free deps (update indeg x (indeg x - 1)) j d.1)

mem-free :
    (deps : List String) (indeg : String → ℕ) (j : String)
    → Nodup deps
    → mem j (free deps indeg).1 ≡ (mem j deps && nat_eq (indeg j) 1)
unfolding free mem
mem-free [] indeg j d = refl
mem-free (x ∷ deps) indeg j d = ground (arith, mem-free deps (update indeg x (indeg x - 1)) j d.1)

free-Nodup : (deps : List String) (indeg : String → ℕ) → Nodup deps → Nodup (free deps indeg).1
unfolding free mem
free-Nodup [] indeg d = tt
free-Nodup (x ∷ deps) indeg d =
    let rest = update indeg x (indeg x - 1) in
    ground (arith, mem-free deps rest x d.1, free-Nodup deps rest d.1)

module _ {ks : List String} {D rev : String → List String} (w : Wired ks D rev) where
  pub record Inv (order queue : List String) (indeg : String → ℕ) : Type 0 where
    pub degree : (m : String) → indeg m ≡ pending order (D m)
    pub once : Nodup (order ++ queue)
    pub nodes : (m : String) → mem m (order ++ queue) ≡ true → mem m ks ≡ true
    pub ready : (m : String) → mem m ks ≡ true → mem m (order ++ queue) ≡ nat_eq (indeg m) 0
    pub ordered : IsOrdered D [] order

regroup :
    (xs : List String) (x : String) (ys zs : List String)
    → (xs ++ x ∷ []) ++ (ys ++ zs) ≡ (xs ++ x ∷ ys) ++ zs
regroup [] x ys zs = refl
regroup (y ∷ xs) x ys zs = ap (◌∷◌ y) (regroup xs x ys zs)

Nodup-middle :
    (xs : List String) (x : String) (ys : List String) → Nodup (xs ++ x ∷ ys) → mem x xs ≡ false
unfolding mem
Nodup-middle [] x ys d = refl
Nodup-middle (y ∷ xs) x ys d = ground (arith, Nodup-middle xs x ys d.1, mem-append y xs (x ∷ ys))

module _ {ks : List String} {D rev : String → List String} (w : Wired ks D rev)
    (order : List String) (n : String) (queue : List String) (indeg : String → ℕ)
    (inv : Inv w order (n ∷ queue) indeg) where
  abbrev freed : List String
  freed = sort_strings (free (rev n) indeg).1

  fresh : mem n order ≡ false
  fresh = Nodup-middle order n queue inv.once

  degree_after : (m : String) → (free (rev n) indeg).0 m ≡ pending (order ++ n ∷ []) (D m)
  degree_after m = ground (
    arith,
    indeg-free (rev n) indeg m (w.rev_sets n),
    pending-snoc order n (D m) fresh (w.dep_sets m),
    w.converse m n,
    inv.degree m,
  )

  -- A node is freed when the node just placed was its last pending dependency.
  mem-freed : (m : String) → mem m freed ≡ (mem n (D m) && nat_eq (indeg m) 1)
  mem-freed m = ground (
    arith,
    mem-sort_by (λ s. s) m (free (rev n) indeg).1,
    mem-free (rev n) indeg m (w.rev_sets n),
    w.converse m n,
  )

  ready_after :
      (m : String)
      → mem m ks ≡ true
      → mem m ((order ++ n ∷ queue) ++ freed) ≡ nat_eq ((free (rev n) indeg).0 m) 0
  ready_after m k = ground (
    arith,
    mem-append m (order ++ n ∷ queue) freed,
    mem-freed m,
    inv.ready m k,
    inv.degree m,
    degree_after m,
    pending-snoc order n (D m) fresh (w.dep_sets m),
  )

  node_after : (m : String) → mem m ((order ++ n ∷ queue) ++ freed) ≡ true → mem m ks ≡ true
  node_after m h =
      ground
        (arith, mem-append m (order ++ n ∷ queue) freed, mem-freed m, inv.nodes m, w.dep_node m n)

  once_after : Nodup ((order ++ n ∷ queue) ++ freed)
  once_after =
      append-Nodup (order ++ n ∷ queue) freed inv.once
        (sort_by-Nodup (λ s. s) _ (free-Nodup (rev n) indeg (w.rev_sets n)))
        (λ m h. ground (arith, mem-freed m, inv.ready m (inv.nodes m h)))

  placed_before : (d : String) → mem d (D n) ≡ true → (mem d order || mem d []) ≡ true
  unfolding mem
  placed_before d m = ground (
    arith,
    pending_zero order (D n) d,
    inv.degree n,
    inv.ready n (inv.nodes n (ground (arith, mem-append n order (n ∷ queue)))),
    mem-append n order (n ∷ queue),
  )

  pub step-Inv : Inv w (order ++ n ∷ []) (queue ++ freed) (free (rev n) indeg).0
  step-Inv = record {
    degree = degree_after;
    once = rw (regroup order n queue freed) once_after;
    nodes = λ m. rw (regroup order n queue freed) (node_after m);
    ready = λ m. rw (regroup order n queue freed) (ready_after m);
    ordered = IsOrdered-snoc D [] order n inv.ordered placed_before;
  }

module _ {ks : List String} {D rev : String → List String} (w : Wired ks D rev) where
  -- With a round of fuel for each node that is not placed, the loop ends with an empty queue.
  pub loop_total :
      (fuel : ℕ) (queue order : List String) (indeg : String → ℕ)
      → length ks ≤ fuel + length order
      → Inv w order queue indeg
      → (r : List String × (String → ℕ)) × (loop fuel rev queue order indeg ≡ some r)
        × Inv w r.0 [] r.1
  unfolding loop
  loop_total fuel [] order indeg enough inv = ((order, indeg), refl, inv)
  loop_total zero (n ∷ queue) order indeg enough inv = absurd (
      omega (
        arith,
        length-le_of_subset (order ++ n ∷ queue) ks inv.once inv.nodes,
        length-append order (n ∷ queue),
      ))
  loop_total (suc fuel) (n ∷ queue) order indeg enough inv =
      loop_total fuel (queue ++ sort_strings (free (rev n) indeg).1) (order ++ n ∷ [])
        (free (rev n) indeg).0 (omega (arith, length-append order (n ∷ [])))
        (step-Inv w order n queue indeg inv)
