-- ===== src/Prelude/Maps.antt =====
-- A Go map as the list of its entries. The order of the list stands for the order, which Go leaves
-- open, in which `range` visits the entries: a theorem about every list holds for every order.
use Prim.Native.Nat.{suc}
use mathlib.Core.Path.{◌≡◌, refl, ap, subst}
use mathlib.Core.Logic.{inl, inr}
use mathlib.Core.Bool.{Bool, true, false, ◌||◌}
use mathlib.Core.Option.{Option, none, some}
use mathlib.Core.List.{List, [], ◌∷◌, map}
use native.Mathlib.Omega.{arith}
use shrine.Prelude.Tests.{Eq, ◌==◌, Bool-cases, Option-cases, if◌then◌else◌}
use shrine.Prelude.Lists.{All, length, mem, Nodup}

abbrev pub is_some {ℓ} : {A : Type ℓ} → Option A → Bool
is_some none = false
is_some (some _) = true

module _ {ℓ κ} {K : Type ℓ} {V : Type κ} ⦃e : Eq K⦄ where
  abbrev pub keys : List (K × V) → List K
  keys = map (λ r. r.0)

  -- m[k], with `none` for a missing key
  unfoldable pub lookup : K → List (K × V) → Option V
  lookup k [] = none
  lookup k ((j, v) ∷ m) = if j == k then some v else lookup k m

  abbrev pub has_key : K → List (K × V) → Bool
  has_key k m = is_some (lookup k m)

  -- m[k] = v
  unfoldable pub insert : K → V → List (K × V) → List (K × V)
  insert k v [] = (k, v) ∷ []
  insert k v ((j, w) ∷ m) = let rest = insert k v m in if j == k then (j, v) ∷ m else (j, w) ∷ rest

  -- delete(m, k)
  unfoldable pub delete : K → List (K × V) → List (K × V)
  delete k [] = []
  delete k ((j, v) ∷ m) = let rest = delete k m in if j == k then rest else (j, v) ∷ rest

  pub lookup-insert :
      (j k : K) (v : V) (m : List (K × V))
      → lookup j (insert k v m) ≡ (if k == j then some v else lookup j m)
  unfolding lookup insert
  lookup-insert j k v [] = refl
  lookup-insert j k v ((i, w) ∷ m) = ground (arith, lookup-insert j k v m)

  pub lookup-delete :
      (j k : K) (m : List (K × V)) → lookup j (delete k m) ≡ (if k == j then none else lookup j m)
  unfolding lookup delete
  lookup-delete j k [] = ground arith
  lookup-delete j k ((i, w) ∷ m) = ground (arith, lookup-delete j k m)

  pub length-keys : (m : List (K × V)) → length (keys m) ≡ length m
  length-keys [] = refl
  length-keys (r ∷ m) = ap suc (length-keys m)

  pub mem-keys : (k : K) (m : List (K × V)) → mem k (keys m) ≡ has_key k m
  unfolding mem lookup
  mem-keys k [] = refl
  mem-keys k ((j, v) ∷ m) = ground (arith, mem-keys k m)

  pub mem-keys-insert :
      (j k : K) (v : V) (m : List (K × V))
      → mem j (keys (insert k v m)) ≡ (k == j || mem j (keys m))
  unfolding mem insert
  mem-keys-insert j k v [] = refl
  mem-keys-insert j k v ((i, w) ∷ m) = ground (arith, mem-keys-insert j k v m)

  pub mem-keys-delete :
      (j k : K) (m : List (K × V))
      → mem j (keys (delete k m)) ≡ (if k == j then false else mem j (keys m))
  unfolding mem delete
  mem-keys-delete j k [] = ground arith
  mem-keys-delete j k ((i, w) ∷ m) = ground (arith, mem-keys-delete j k m)

  pub keys-insert-Nodup :
      (k : K) (v : V) (m : List (K × V)) → Nodup (keys m) → Nodup (keys (insert k v m))
  unfolding insert mem
  keys-insert-Nodup k v [] d = (refl, tt)
  keys-insert-Nodup k v ((i, w) ∷ m) d =
      ground (arith, keys-insert-Nodup k v m d.1, mem-keys-insert i k v m)

  pub keys-delete-Nodup : (k : K) (m : List (K × V)) → Nodup (keys m) → Nodup (keys (delete k m))
  unfolding delete mem
  keys-delete-Nodup k [] d = tt
  keys-delete-Nodup k ((i, w) ∷ m) d =
      ground (arith, keys-delete-Nodup k m d.1, mem-keys-delete i k m)

  -- An invariant of the values.
  pub All-insert {μ} :
      (P : V → Type μ) (k : K) (v : V) (m : List (K × V))
      → P v
      → All (λ r. P r.1) m
      → All (λ r. P r.1) (insert k v m)
  unfolding insert
  All-insert P k v [] p h = (p, tt)
  All-insert P k v ((i, w) ∷ m) p h = elim (Bool-cases (i == k)) [
    | inl same ↦ rw same (p, h.1)
    | inr other ↦ rw other (h.0, All-insert P k v m p h.1)
  ]

  pub found_key : (k : K) (m : List (K × V)) → has_key k m ≡ true → (v : V) × (lookup k m ≡ some v)
  found_key k m e = elim (Option-cases (lookup k m)) [
    | inl missing ↦ absurd (ground arith)
    | inr (v, found) ↦ (v, found)
  ]

  -- What every value satisfies, a value that is found satisfies.
  pub All-lookup {μ} :
      (P : V → Type μ) (k : K) (v : V) (m : List (K × V))
      → All (λ r. P r.1) m
      → lookup k m ≡ some v
      → P v
  unfolding lookup
  All-lookup P k v [] h e = cc
  All-lookup P k v ((i, w) ∷ m) h e = elim (Bool-cases (i == k)) [
    | inl same ↦ subst P (ground arith) h.0
    | inr other ↦ All-lookup P k v m h.1 (ground arith)
  ]
