-- ===== src/State/Deployments/Words.antt =====
-- Texts made of words, and the parts that `strings.Split`, `strings.Cut` and `strings.Fields` find.
use shrine.Prelude.{
  All, Bool, Bool-cases, List, String, [], ap, arith, before, eq_int, eq_pair, eq_str, false,
  fields, has_char, inl, inr, is_space, join, nat_eq, nonempty, not, refl, split, split_space,
  subst, sym, true, ℕ, ◌&&◌, ◌==◌, ◌||◌, ◌∷◌, ◌≡◌, ◌⊕◌,
}
use Prim.Native.Char.{code}

-- No character of white space, and no `#`.
unfoldable pub is_plain : String → Bool
unfolding is_space
is_plain String.[] = true
is_plain (String.◌∷◌ x s) = not (is_space (code x) || nat_eq (code x) b'#') && is_plain s

-- A text that stays one field of a line.
abbrev pub IsWord : String → Type 0
IsWord w = (is_plain w ≡ true) × ((w == "") ≡ false)

split_space-word :
    (w s : String) → is_plain w ≡ true → split_space (w ⊕ (" " ⊕ s)) ≡ w ∷ split_space s
unfolding split_space is_plain
split_space-word String.[] s h = refl
split_space-word (String.◌∷◌ x w) s h = ground (arith, split_space-word w s)

split_space-end : (w : String) → is_plain w ≡ true → split_space w ≡ w ∷ []
unfolding split_space is_plain
split_space-end String.[] h = refl
split_space-end (String.◌∷◌ x w) h = ground (arith, split_space-end w)

pub fields-join :
    (w : String) (ws : List String) → All IsWord (w ∷ ws) → fields (join " " (w ∷ ws)) ≡ w ∷ ws
unfolding fields nonempty join
fields-join w [] h = rw (split_space-end w h.0.0, h.0.1) refl
fields-join w (v ∷ ws) h =
    rw (split_space-word w (join " " (v ∷ ws)) h.0.0, h.0.1)
      (ap (λ l. w ∷ l) (unfold fields in fields-join v ws h.1))

pub has_char-append : (c : ℕ) (s t : String) → has_char c (s ⊕ t) ≡ (has_char c s || has_char c t)
unfolding has_char
has_char-append c String.[] t = refl
has_char-append c (String.◌∷◌ x s) t = ground (arith, has_char-append c s t)

plain-has_char :
    (c : ℕ) (w : String)
    → (is_space c || nat_eq c b'#') ≡ true
    → is_plain w ≡ true
    → has_char c w ≡ false
unfolding has_char is_plain
plain-has_char c String.[] h p = refl
plain-has_char c (String.◌∷◌ x w) h p = elim (Bool-cases (nat_eq (code x) c)) [
  | inl e ↦
      let same : code x ≡ c = ground (arith, e) in
      let spaced = subst (λ n. (is_space n || nat_eq n b'#') ≡ true) (sym same) h in
      absurd (ground (arith, spaced, p))
  | inr e ↦ ground (arith, plain-has_char c w h)
]

-- A line of words has neither a `#` nor the end of a line.
pub join-has_char :
    (c : ℕ) (w : String) (ws : List String)
    → (is_space c || nat_eq c b'#') ≡ true
    → nat_eq 32 c ≡ false
    → All IsWord (w ∷ ws)
    → has_char c (join " " (w ∷ ws)) ≡ false
unfolding join has_char
join-has_char c w [] h n a = plain-has_char c w h a.0.0
join-has_char c w (v ∷ ws) h n a = ground (
  arith,
  has_char-append c w (" " ⊕ join " " (v ∷ ws)),
  plain-has_char c w h a.0.0,
  join-has_char c v ws h n a.1,
)

pub before-missing : (c : ℕ) (s : String) → has_char c s ≡ false → before c s ≡ s
unfolding has_char before
before-missing c String.[] h = refl
before-missing c (String.◌∷◌ x s) h = ground (arith, before-missing c s)

pub split-line :
    (s t : String) → has_char b'\n' s ≡ false → split b'\n' ((s ⊕ "\n") ⊕ t) ≡ s ∷ split b'\n' t
unfolding has_char split
split-line String.[] t h = refl
split-line (String.◌∷◌ x s) t h = ground (arith, split-line s t)
