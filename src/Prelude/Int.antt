-- ===== src/Prelude/Int.antt =====
-- Go's `int`, as a signed integer under the library's names: `negsuc n` is -(n + 1).
use Prim.Native.Nat.{ℕ}
use mathlib.Core.Path.{◌≡◌, ap}
use mathlib.Core.Bool.{Bool, true, false}
use native.Mathlib.Decide.{ℕ_discrete}
use native.Mathlib.Omega.{arith}
use shrine.Prelude.Tests.{Eq, ltb, leb}

pub data ℤ : Type 0 where
  pos : ℕ → ℤ
  negsuc : ℕ → ℤ

abbrev pub int_ltb : ℤ → ℤ → Bool
int_ltb (pos a) (pos b) = ltb a b
int_ltb (pos a) (negsuc b) = false
int_ltb (negsuc a) (pos b) = true
int_ltb (negsuc a) (negsuc b) = ltb b a

abbrev pub int_leb : ℤ → ℤ → Bool
int_leb (pos a) (pos b) = leb a b
int_leb (pos a) (negsuc b) = false
int_leb (negsuc a) (pos b) = true
int_leb (negsuc a) (negsuc b) = leb b a

pos-ne : (a b : ℕ) → ¬ (a ≡ b) → ¬ (pos a ≡ pos b)
pos-ne a b h e = ground arith

negsuc-ne : (a b : ℕ) → ¬ (a ≡ b) → ¬ (negsuc a ≡ negsuc b)
negsuc-ne a b h e = ground arith

pos-ne-negsuc : (a b : ℕ) → ¬ (pos a ≡ negsuc b)
pos-ne-negsuc a b e = cc

negsuc-ne-pos : (a b : ℕ) → ¬ (negsuc a ≡ pos b)
negsuc-ne-pos a b e = cc

unfoldable pub dec_int : (a b : ℤ) → Dec (a ≡ b)
unfolding ℕ_discrete pos-ne negsuc-ne pos-ne-negsuc negsuc-ne-pos
dec_int (pos a) (pos b) = elim (ℕ_discrete a b) [
  | yes p ↦ yes (ap pos p)
  | no h ↦ no (pos-ne a b h)
]
dec_int (pos a) (negsuc b) = no (pos-ne-negsuc a b)
dec_int (negsuc a) (pos b) = no (negsuc-ne-pos a b)
dec_int (negsuc a) (negsuc b) = elim (ℕ_discrete a b) [
  | yes p ↦ yes (ap negsuc p)
  | no h ↦ no (negsuc-ne a b h)
]

instance abbrev pub eq_int : Eq ℤ
eq_int = record { dec = dec_int }
