-- ===== src/Prelude/Lists.antt =====
-- Lists as Go slices, and as the sets that Go spells `map[K]struct{}` or `map[K]bool`.
use Prim.Native.Nat.{ℕ, suc, ◌+◌, ◌≤◌}
use mathlib.Core.Path.{◌≡◌, refl}
use mathlib.Core.Logic.{◌↔◌, inl, inr}
use mathlib.Core.Bool.{Bool, true, false, ◌||◌}
use mathlib.Core.List.{List, [], ◌∷◌, ◌++◌}
use native.Mathlib.Omega.{arith}
use shrine.Prelude.Tests.{Eq, ◌==◌, Bool-cases, if◌then◌else◌}

-- A predicate of every entry of a list.
abbrev pub All {ℓ κ} : {A : Type ℓ} → (A → Type κ) → List A → Type κ
All P [] = Unit
All P (x ∷ xs) = P x × All P xs

pub All-imp {ℓ κ μ} :
    {A : Type ℓ} {P : A → Type κ} {Q : A → Type μ} (f : (a : A) → P a → Q a) (xs : List A)
    → All P xs
    → All Q xs
All-imp f [] h = tt
All-imp f (x ∷ xs) h = (f x h.0, All-imp f xs h.1)

pub All-zip {ℓ κ μ ν} :
    {A : Type ℓ} {P : A → Type κ} {Q : A → Type μ} {R : A → Type ν} (f : (a : A) → P a → Q a → R a)
    (xs : List A)
    → All P xs
    → All Q xs
    → All R xs
All-zip f [] h k = tt
All-zip f (x ∷ xs) h k = (f x h.0 k.0, All-zip f xs h.1 k.1)

module _ {ℓ} {A : Type ℓ} where
  abbrev pub length : List A → ℕ
  length [] = 0
  length (x ∷ xs) = suc (length xs)

  pub length-append : (xs ys : List A) → length (xs ++ ys) ≡ length xs + length ys
  length-append [] ys = omega arith
  length-append (x ∷ xs) ys = omega (arith, length-append xs ys)

  -- `errs = append(errs, part...)` for each part in turn
  abbrev pub concat : List (List A) → List A
  concat [] = []
  concat (xs ∷ parts) = xs ++ concat parts

  append-eq-nil : (xs ys : List A) → xs ++ ys ≡ [] → (xs ≡ []) × (ys ≡ [])
  append-eq-nil [] ys h = (refl, h)
  append-eq-nil (x ∷ xs) ys h = cc

  pub append-eq-nil_iff : (xs ys : List A) → (xs ++ ys ≡ []) ↔ ((xs ≡ []) × (ys ≡ []))
  append-eq-nil_iff [] ys = (λ h. (refl, h), λ h. h.1)
  append-eq-nil_iff (x ∷ xs) ys = (append-eq-nil (x ∷ xs) ys, λ h. cc)

  pub concat-eq-nil_iff : (parts : List (List A)) → (concat parts ≡ []) ↔ All (λ xs. xs ≡ []) parts
  concat-eq-nil_iff [] = (λ h. tt, λ h. refl)
  concat-eq-nil_iff (xs ∷ parts) =
      let (sound, complete) = concat-eq-nil_iff parts in
      (
        λ h. let (here, rest) = append-eq-nil xs (concat parts) h in (here, sound rest),
        λ h. rw h.0 (complete h.1),
      )

  -- The entries that pass a test, in order.
  unfoldable pub keep : (A → Bool) → List A → List A
  keep p [] = []
  keep p (x ∷ xs) = let rest = keep p xs in if p x then x ∷ rest else rest

module _ {ℓ} {A : Type ℓ} ⦃e : Eq A⦄ where
  unfoldable pub mem : A → List A → Bool
  mem x [] = false
  mem x (y ∷ ys) = y == x || mem x ys

  abbrev pub Nodup : List A → Type 0
  Nodup [] = Unit {0}
  Nodup (x ∷ xs) = (mem x xs ≡ false) × Nodup xs

  pub mem-append : (x : A) (xs ys : List A) → mem x (xs ++ ys) ≡ (mem x xs || mem x ys)
  unfolding mem
  mem-append x [] ys = refl
  mem-append x (y ∷ xs) ys = ground (arith, mem-append x xs ys)

  pub mem-keep :
      (p : A → Bool) (x : A) (xs : List A) → mem x (keep p xs) ≡ (if p x then mem x xs else false)
  unfolding mem keep
  mem-keep p x [] = ground arith
  mem-keep p x (y ∷ xs) = ground (arith, mem-keep p x xs)

  pub keep-Nodup : (p : A → Bool) (xs : List A) → Nodup xs → Nodup (keep p xs)
  unfolding keep
  keep-Nodup p [] d = tt
  keep-Nodup p (x ∷ xs) d = ground (arith, mem-keep p x xs, keep-Nodup p xs d.1)

  -- The list without the entries equal to `x`.
  unfoldable pub without : A → List A → List A
  without x [] = []
  without x (y ∷ ys) = let rest = without x ys in if y == x then rest else y ∷ rest

  pub mem-without :
      (x y : A) (ys : List A) → mem x (without y ys) ≡ (if y == x then false else mem x ys)
  unfolding mem without
  mem-without x y [] = ground arith
  mem-without x y (z ∷ ys) = ground (arith, mem-without x y ys)

  pub length-without-le : (x : A) (ys : List A) → length (without x ys) ≤ length ys
  unfolding without
  length-without-le x [] = omega arith
  length-without-le x (y ∷ ys) = ground (arith, length-without-le x ys)

  length-without-lt :
      (x : A) (ys : List A) → mem x ys ≡ true → suc (length (without x ys)) ≤ length ys
  unfolding mem without
  length-without-lt x [] m = ground arith
  length-without-lt x (y ∷ ys) m = ground (arith, length-without-le x ys, length-without-lt x ys)

  -- Pigeonholes: a list without repetitions is no longer than one that holds all its entries.
  pub length-le_of_subset :
      (xs ys : List A)
      → Nodup xs
      → ((x : A) → mem x xs ≡ true → mem x ys ≡ true)
      → length xs ≤ length ys
  unfolding mem
  length-le_of_subset [] ys d s = omega arith
  length-le_of_subset (x ∷ xs) ys d s = omega (
    arith,
    length-without-lt x ys (s x (ground arith)),
    length-le_of_subset xs (without x ys) d.1 (λ z m. ground (arith, mem-without z x ys, s z, d.0)),
  )

  pub mem_of_full :
      (xs ys : List A)
      → Nodup xs
      → ((x : A) → mem x xs ≡ true → mem x ys ≡ true)
      → length ys ≤ length xs
      → (y : A) → mem y ys ≡ true
      → mem y xs ≡ true
  unfolding mem
  mem_of_full xs ys d s h y m = elim (Bool-cases (mem y xs)) [
    | inl there ↦ there
    | inr missing ↦
        absurd (
          omega (arith, length-le_of_subset (y ∷ xs) ys (missing, d) (λ z mz. ground (arith, s z))))
  ]

  pub All-of_mem {κ} : (P : A → Type κ) (xs : List A) → ((x : A) → mem x xs ≡ true → P x) → All P xs
  unfolding mem
  All-of_mem P [] h = tt
  All-of_mem P (x ∷ xs) h = (h x (ground arith), All-of_mem P xs (λ y m. h y (ground arith)))

  -- No entry of the list occurs twice, or in `seen`.
  abbrev pub NodupFrom : List A → List A → Type 0
  NodupFrom seen [] = Unit {0}
  NodupFrom seen (x ∷ xs) = (mem x seen ≡ false) × NodupFrom (x ∷ seen) xs

  NodupFrom→ :
      (seen xs : List A)
      → NodupFrom seen xs
      → Nodup xs × ((x : A) → mem x xs ≡ true → mem x seen ≡ false)
  unfolding mem
  NodupFrom→ seen [] h = (tt, λ x m. ground arith)
  NodupFrom→ seen (x ∷ xs) h =
      let (d, apart) = NodupFrom→ (x ∷ seen) xs h.1 in
      ((ground (arith, apart x), d), λ y m. ground (arith, apart y, h.0))

  →NodupFrom :
      (seen xs : List A)
      → Nodup xs
      → ((x : A) → mem x xs ≡ true → mem x seen ≡ false)
      → NodupFrom seen xs
  unfolding mem
  →NodupFrom seen [] d apart = tt
  →NodupFrom seen (x ∷ xs) d apart =
      (apart x (ground arith), →NodupFrom (x ∷ seen) xs d.1 (λ y m. ground (arith, apart y, d.0)))

  pub NodupFrom-nil_iff : (xs : List A) → NodupFrom [] xs ↔ Nodup xs
  unfolding mem
  NodupFrom-nil_iff xs = (λ h. (NodupFrom→ [] xs h).0, λ d. →NodupFrom [] xs d (λ x m. refl))
