-- ===== src/Prelude/Text.antt =====
-- The functions of Go's `strings` package that Shrine calls, each with a separator of one character.
use Prim.Native.Nat.{ℕ, zero, suc, ◌+◌, ◌/◌, ◌%◌}
use Prim.Native.Char.{Char, code}
use Prim.Native.String.{String}
use mathlib.Core.Bool.{Bool, true, false, ◌&&◌, ◌||◌}
use mathlib.Core.Option.{Option, none, some}
use mathlib.Core.List.{List, [], ◌∷◌}
use shrine.Prelude.Int.{ℤ, pos, negsuc}
use shrine.Prelude.Tests.{◌==◌, eq_str, ltb, nat_eq, if◌then◌else◌}

infixr 66 ◌⊕◌
-- Go's `+` on texts
abbrev pub ◌⊕◌ : String → String → String
String.[] ⊕ t = t
String.◌∷◌ c s ⊕ t = String.◌∷◌ c (s ⊕ t)

-- The number of characters.
abbrev pub text_length : String → ℕ
text_length String.[] = 0
text_length (String.◌∷◌ c s) = suc (text_length s)

-- strings.Contains(s, c)
unfoldable pub has_char : ℕ → String → Bool
has_char c String.[] = false
has_char c (String.◌∷◌ x s) = nat_eq (code x) c || has_char c s

-- The text before the first `c`, and the text after it: the first two results of strings.Cut(s, c).
unfoldable pub before : ℕ → String → String
before c String.[] = String.[]
before c (String.◌∷◌ x s) =
    let rest = before c s in if nat_eq (code x) c then String.[] else String.◌∷◌ x rest

unfoldable pub after : ℕ → String → String
after c String.[] = String.[]
after c (String.◌∷◌ x s) = let rest = after c s in if nat_eq (code x) c then s else rest

-- strings.LastIndex(s, c), in characters; `none` is -1
unfoldable pub last_index : ℕ → String → Option ℕ
last_index c String.[] = none
last_index c (String.◌∷◌ x s) = elim (last_index c s) [
  | some i ↦ some (suc i)
  | none ↦ if nat_eq (code x) c then some 0 else none
]

-- s[i:] and s[:i], in characters
unfoldable pub drop_chars : ℕ → String → String
drop_chars zero s = s
drop_chars (suc i) String.[] = String.[]
drop_chars (suc i) (String.◌∷◌ x s) = drop_chars i s

unfoldable pub take_chars : ℕ → String → String
take_chars zero s = String.[]
take_chars (suc i) String.[] = String.[]
take_chars (suc i) (String.◌∷◌ x s) = String.◌∷◌ x (take_chars i s)

-- strings.HasPrefix(s, p)
unfoldable pub has_prefix : String → String → Bool
has_prefix s String.[] = true
has_prefix String.[] (String.◌∷◌ y p) = false
has_prefix (String.◌∷◌ x s) (String.◌∷◌ y p) = nat_eq (code x) (code y) && has_prefix s p

-- strings.TrimPrefix(s, p) where `p` is a prefix
unfoldable pub strip_prefix : String → String → String
strip_prefix s String.[] = s
strip_prefix String.[] (String.◌∷◌ y p) = String.[]
strip_prefix (String.◌∷◌ x s) (String.◌∷◌ y p) = strip_prefix s p

unfoldable pub trim_prefix : String → String → String
trim_prefix s p = if has_prefix s p then strip_prefix s p else s

-- strings.TrimSuffix(s, t): the text up to the place from which `s` reads `t`
unfoldable pub trim_suffix : String → String → String
trim_suffix String.[] t = String.[]
trim_suffix (String.◌∷◌ x s) t =
    let rest = trim_suffix s t in if String.◌∷◌ x s == t then String.[] else String.◌∷◌ x rest

-- strings.TrimRight(s, c)
unfoldable pub trim_right : ℕ → String → String
trim_right c String.[] = String.[]
trim_right c (String.◌∷◌ x s) =
    let rest = trim_right c s in
    if rest == "" && nat_eq (code x) c then String.[] else String.◌∷◌ x rest

-- A character put before the first part of a split.
abbrev push_first : Char → List String → List String
push_first x [] = []
push_first x (p ∷ ps) = String.◌∷◌ x p ∷ ps

-- strings.Split(s, c)
unfoldable pub split : ℕ → String → List String
split c String.[] = "" ∷ []
split c (String.◌∷◌ x s) =
    let rest = split c s in if nat_eq (code x) c then "" ∷ rest else push_first x rest

-- strings.Join(parts, sep)
unfoldable pub join : String → List String → String
join sep [] = ""
join sep (p ∷ ps) = elim ps [ [] ↦ p | _ ∷ _ ↦ p ⊕ (sep ⊕ join sep ps) ]

-- The entry at an index, the empty text past the end.
abbrev entry_at : ℕ → List String → String
entry_at n [] = ""
entry_at zero (p ∷ ps) = p
entry_at (suc n) (p ∷ ps) = entry_at n ps

abbrev digit_text : ℕ → String
digit_text n = entry_at n ("0" ∷ "1" ∷ "2" ∷ "3" ∷ "4" ∷ "5" ∷ "6" ∷ "7" ∷ "8" ∷ "9" ∷ [])

-- The decimal digits of a number, `fuel` of them at most.
unfoldable pub decimal : ℕ → ℕ → String
decimal zero n = ""
decimal (suc fuel) n =
    let front = decimal fuel (n / 10) in
    if ltb n 10 then digit_text n else front ⊕ digit_text (n % 10)

-- strconv.Itoa: twenty digits hold every 64-bit integer.
unfoldable pub itoa : ℤ → String
itoa (pos n) = decimal 20 n
itoa (negsuc n) = "-" ⊕ decimal 20 (n + 1)

-- unicode.IsSpace: the white space of ASCII and of Latin-1, and the other spaces and separators.
unfoldable pub is_space : ℕ → Bool
is_space c =
    nat_eq c 32
    || ((ltb 8 c && ltb c 14)
        || (nat_eq c 133
            || (nat_eq c 160
                || (nat_eq c 5760
                    || ((ltb 8191 c && ltb c 8203)
                        || (nat_eq c 8232
                            || (nat_eq c 8233
                                || (nat_eq c 8239 || (nat_eq c 8287 || nat_eq c 12288)))))))))

-- The parts between the characters of white space, empty ones included.
unfoldable pub split_space : String → List String
unfolding is_space
split_space String.[] = "" ∷ []
split_space (String.◌∷◌ x s) =
    let rest = split_space s in if is_space (code x) then "" ∷ rest else push_first x rest

-- The parts that are not empty.
unfoldable pub nonempty : List String → List String
nonempty [] = []
nonempty (p ∷ ps) = let rest = nonempty ps in if p == "" then rest else p ∷ rest

-- strings.Fields
unfoldable pub fields : String → List String
unfolding split_space nonempty
fields s = nonempty (split_space s)
