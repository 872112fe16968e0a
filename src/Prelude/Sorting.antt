-- ===== src/Prelude/Sorting.antt =====
-- `sort.Strings` and `sort.Slice` by a text: insertion by Go's `<` on texts.
use Prim.Native.Nat.{suc}
use Prim.Native.String.{String, compare}
use mathlib.Core.Path.{◌≡◌, refl, ◌∙◌}
use mathlib.Core.Bool.{Bool, false, ◌||◌}
use mathlib.Core.Logic.{inl, inr}
use mathlib.Core.List.{List, [], ◌∷◌, map}
use text.Mathlib.Text.{is_le, is_lt}
use native.Mathlib.Omega.{arith}
use shrine.Prelude.Tests.{Eq, ◌==◌, Bool-cases, eq_str, if◌then◌else◌}
use shrine.Prelude.Lists.{All, length, mem, Nodup}

-- Go's `<=` and `<` on texts
abbrev pub str_leb : String → String → Bool
str_leb s t = is_le (compare s t)

abbrev pub str_ltb : String → String → Bool
str_ltb s t = is_lt (compare s t)

module _ {ℓ} {A : Type ℓ} (key : A → String) where
  unfoldable pub insert_by : A → List A → List A
  insert_by x [] = x ∷ []
  insert_by x (y ∷ ys) =
      let rest = insert_by x ys in if str_leb (key x) (key y) then x ∷ y ∷ ys else y ∷ rest

  unfoldable pub sort_by : List A → List A
  unfolding insert_by
  sort_by [] = []
  sort_by (x ∷ xs) = insert_by x (sort_by xs)

  length-insert_by : (x : A) (xs : List A) → length (insert_by x xs) ≡ suc (length xs)
  unfolding insert_by
  length-insert_by x [] = refl
  length-insert_by x (y ∷ ys) = ground (arith, length-insert_by x ys)

  pub length-sort_by : (xs : List A) → length (sort_by xs) ≡ length xs
  unfolding sort_by
  length-sort_by [] = refl
  length-sort_by (x ∷ xs) = omega (arith, length-insert_by x (sort_by xs), length-sort_by xs)

module _ {ℓ} {A : Type ℓ} ⦃e : Eq A⦄ (key : A → String) where
  mem-insert_by : (z x : A) (xs : List A) → mem z (insert_by key x xs) ≡ (x == z || mem z xs)
  unfolding mem insert_by
  mem-insert_by z x [] = refl
  mem-insert_by z x (y ∷ ys) = ground (arith, mem-insert_by z x ys)

  insert_by-Nodup : (x : A) (xs : List A) → mem x xs ≡ false → Nodup xs → Nodup (insert_by key x xs)
  unfolding mem insert_by
  insert_by-Nodup x [] h d = (refl, tt)
  insert_by-Nodup x (y ∷ ys) h d = ground (arith, insert_by-Nodup x ys, mem-insert_by y x ys)

  pub mem-sort_by : (z : A) (xs : List A) → mem z (sort_by key xs) ≡ mem z xs
  unfolding mem sort_by
  mem-sort_by z [] = refl
  mem-sort_by z (x ∷ xs) = ground (arith, mem-insert_by z x (sort_by key xs), mem-sort_by z xs)

  pub sort_by-Nodup : (xs : List A) → Nodup xs → Nodup (sort_by key xs)
  unfolding sort_by
  sort_by-Nodup [] d = tt
  sort_by-Nodup (x ∷ xs) d =
      insert_by-Nodup x (sort_by key xs) (mem-sort_by x xs ∙ d.0) (sort_by-Nodup xs d.1)

abbrev pub sort_strings : List String → List String
sort_strings = sort_by (λ s. s)

module _ {ℓ} {A : Type ℓ} (key : A → String) where
  mem-map-insert_by :
      (z : String) (x : A) (xs : List A)
      → mem z (map key (insert_by key x xs)) ≡ (key x == z || mem z (map key xs))
  unfolding mem insert_by
  mem-map-insert_by z x [] = refl
  mem-map-insert_by z x (y ∷ ys) = ground (arith, mem-map-insert_by z x ys)

  pub mem-map-sort_by :
      (z : String) (xs : List A) → mem z (map key (sort_by key xs)) ≡ mem z (map key xs)
  unfolding mem sort_by
  mem-map-sort_by z [] = refl
  mem-map-sort_by z (x ∷ xs) =
      ground (arith, mem-map-insert_by z x (sort_by key xs), mem-map-sort_by z xs)

  All-insert_by {κ} :
      (P : A → Type κ) (x : A) (xs : List A) → P x → All P xs → All P (insert_by key x xs)
  unfolding insert_by
  All-insert_by P x [] p a = (p, tt)
  All-insert_by P x (y ∷ ys) p a = elim (Bool-cases (str_leb (key x) (key y))) [
    | inl low ↦ rw (low, insert_by) (p, a)
    | inr high ↦ rw (high, insert_by) (a.0, All-insert_by P x ys p a.1)
  ]

  pub All-sort_by {κ} : (P : A → Type κ) (xs : List A) → All P xs → All P (sort_by key xs)
  unfolding sort_by
  All-sort_by P [] a = tt
  All-sort_by P (x ∷ xs) a = All-insert_by P x (sort_by key xs) a.0 (All-sort_by P xs a.1)
