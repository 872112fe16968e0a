-- ===== src/Prelude/Tests.antt =====
-- Boolean tests on numbers and texts, and the conditional.
use Prim.Native.Nat.{ℕ, compare, Ordering}
use Prim.Native.String.{String}
use mathlib.Core.Path.{◌≡◌, refl}
use mathlib.Core.Logic.{◌⊎◌, inl, inr}
use mathlib.Core.Bool.{Bool, true, false}
use mathlib.Core.Option.{Option, none, some}
use text.Mathlib.Text.{◌==◌ as text_eq}
use text.Mathlib.TextEquality.{eq_iff}
use native.Mathlib.Omega.{arith}

abbrev pub ltb : ℕ → ℕ → Bool
ltb a b = elim (compare a b) [ Ordering.lt ↦ true | _ ↦ false ]

abbrev pub leb : ℕ → ℕ → Bool
leb a b = elim (compare a b) [ Ordering.gt ↦ false | _ ↦ true ]

abbrev pub nat_eq : ℕ → ℕ → Bool
nat_eq a b = elim (compare a b) [ Ordering.eq ↦ true | _ ↦ false ]

infix 1 if◌then◌else◌
abbrev pub if◌then◌else◌ {ℓ} : {A : Type ℓ} → Bool → A → A → A
if true then x else y = x
if false then x else y = y

-- To split on a computed value and keep the equation.
pub Bool-cases : (b : Bool) → (b ≡ true) ⊎ (b ≡ false)
Bool-cases true = inl refl
Bool-cases false = inr refl

pub Option-cases {ℓ} : {A : Type ℓ} (o : Option A) → (o ≡ none) ⊎ ((a : A) × (o ≡ some a))
Option-cases none = inl refl
Option-cases (some a) = inr (a, refl)

dec_by_test : (s t : String) (b : Bool) → text_eq s t ≡ b → Dec (s ≡ t)
dec_by_test s t true h = yes ((eq_iff s t).0 h)
dec_by_test s t false h = no λ e. ground (arith, (eq_iff s t).1 e)

-- Go's `==` on texts decides equality.
unfoldable pub dec_str : (s t : String) → Dec (s ≡ t)
unfolding dec_by_test
dec_str s t = dec_by_test s t (text_eq s t) refl

-- The types that Go compares by `==` and uses as the keys of a map.
pub record Eq {ℓ} (A : Type ℓ) : Type ℓ where
  pub dec : (a b : A) → Dec (a ≡ b)

instance abbrev pub eq_str : Eq String
eq_str = record { dec = dec_str }

infix 50 ◌==◌
abbrev pub ◌==◌ {ℓ} : {A : Type ℓ} ⦃e : Eq A⦄ → A → A → Bool
◌==◌ ⦃e⦄ a b = elim (e.dec a b) [ yes _ ↦ true | no _ ↦ false ]

module _ {ℓ κ} {A : Type ℓ} {B : Type κ} where
  -- Two pairs are equal when their parts are.
  dec_pair_at :
      (a c : A) (b d : B) → Dec (a ≡ c) → Dec (b ≡ d) → Dec (◌≡◌ {A = A × B} (a, b) (c, d))
  dec_pair_at a c b d (yes p) (yes q) = yes (λ i. (p i, q i))
  dec_pair_at a c b d (yes p) (no q) = no λ e. q (λ i. (e i).1)
  dec_pair_at a c b d (no p) q = no λ e. p (λ i. (e i).0)

  unfoldable pub dec_pair : ⦃e : Eq A⦄ ⦃f : Eq B⦄ → (x y : A × B) → Dec (x ≡ y)
  unfolding dec_pair_at
  dec_pair ⦃e⦄ ⦃f⦄ (a, b) (c, d) = dec_pair_at a c b d (e.dec a c) (f.dec b d)

  instance abbrev pub eq_pair : ⦃e : Eq A⦄ ⦃f : Eq B⦄ → Eq (A × B)
  eq_pair = record { dec = dec_pair }
