-- ===== src/Manifest/Reference/Laws.antt =====
-- References come apart and go together again.
use shrine.Prelude.{
  Bool-cases, Char, Option, Option-cases, String, ap, arith, before, code, drop_chars, eq_int,
  eq_pair, eq_str, false, has_char, if◌then◌else◌, inl, inr, last_index, nat_eq, none, refl, some,
  suc, take_chars, text_length, trim_suffix, true, ℕ, ◌+◌, ◌<◌, ◌==◌, ◌||◌, ◌≡◌, ◌≢◌, ◌⊕◌,
}
use text.Mathlib.TextEquality.{Char-path}
use shrine.Manifest.Reference.{index_after, tag_of_undigested, tag_of, repository_of}

cons-eq : (c d : Char) (s t : String) → code c ≡ code d → s ≡ t → String.◌∷◌ c s ≡ String.◌∷◌ d t
cons-eq c d s t p q = cc (Char-path c d p)

-- The text before the last `c`, `c`, and the text after it.
last_index-split :
    (c : Char) (s : String) (i : ℕ)
    → last_index (code c) s ≡ some i
    → take_chars i s ⊕ String.◌∷◌ c (drop_chars (suc i) s) ≡ s
unfolding last_index take_chars drop_chars
last_index-split c String.[] i e = cc
last_index-split c (String.◌∷◌ x s) i e = elim (Option-cases (last_index (code c) s)) [
  | inr (j, found) ↦
      let here : i ≡ suc j = ground arith in
      rw here (ap (String.◌∷◌ x) (last_index-split c s j found))
  | inl missing ↦ let here : i ≡ 0 = ground arith in rw here (cons-eq c x s s (ground arith) refl)
]

text_length-append : (s t : String) → text_length (s ⊕ t) ≡ text_length s + text_length t
text_length-append String.[] t = omega arith
text_length-append (String.◌∷◌ x s) t = omega (arith, text_length-append s t)

-- A longer text is another one.
longer-ne : (x : Char) (p t : String) → String.◌∷◌ x (p ⊕ t) ≢ t
longer-ne x p t e = omega (arith, ap text_length e, text_length-append p t)

-- A suffix that is no empty text is cut off where it begins.
trim_suffix-append : (p t : String) → 0 < text_length t → trim_suffix (p ⊕ t) t ≡ p
unfolding trim_suffix
trim_suffix-append String.[] String.[] h = refl
trim_suffix-append String.[] (String.◌∷◌ x t) h = ground arith
trim_suffix-append (String.◌∷◌ x p) t h = ground (arith, longer-ne x p t, trim_suffix-append p t h)

before-no_char : (c : ℕ) (s : String) → has_char c (before c s) ≡ false
unfolding has_char before
before-no_char c String.[] = refl
before-no_char c (String.◌∷◌ x s) = elim (Bool-cases (nat_eq (code x) c)) [
  | inl here ↦ rw (here, has_char) refl
  | inr other ↦ rw (other, has_char) (ground (arith, before-no_char c s))
]

before_of_no_char : (c : ℕ) (s : String) → has_char c s ≡ false → before c s ≡ s
unfolding has_char before
before_of_no_char c String.[] h = refl
before_of_no_char c (String.◌∷◌ x s) h = ground (arith, before_of_no_char c s)

abbrev colon : Char
colon = ":"

abbrev tag_suffix : String → String
tag_suffix tag = if tag == "" then "" else ":" ⊕ tag

append_empty : (s : String) → s ⊕ "" ≡ s
append_empty String.[] = refl
append_empty (String.◌∷◌ x s) = ap (String.◌∷◌ x) (append_empty s)

abbrev cut_tag : String → String → String
cut_tag ref tag = if tag == "" then ref else trim_suffix ref (":" ⊕ tag)

parts_of_untagged : (ref : String) → cut_tag ref "" ⊕ tag_suffix "" ≡ ref
parts_of_untagged ref = ground (arith, append_empty ref)

parts_of_tagged :
    (ref p tag : String) → p ⊕ ":" ⊕ tag ≡ ref → cut_tag ref tag ⊕ tag_suffix tag ≡ ref
parts_of_tagged ref p tag e = elim (Bool-cases (tag == "")) [
  | inl bare ↦ rw bare (append_empty ref)
  | inr tagged ↦
      rw (tagged, ← e) (ap (λ q. q ⊕ ":" ⊕ tag) (trim_suffix-append p (":" ⊕ tag) (omega arith)))
]

-- A reference without a digest is its repository and its tag.
undigested_parts :
    (ref : String) → cut_tag ref (tag_of_undigested ref) ⊕ tag_suffix (tag_of_undigested ref) ≡ ref
unfolding tag_of_undigested
undigested_parts ref = elim (Option-cases (last_index b':' ref)) [
  | inl missing ↦ rw missing (parts_of_untagged ref)
  | inr (i, found) ↦ elim (Bool-cases (index_after (some i) (last_index b'/' ref))) [
    | inl tag ↦
        rw (found, tag)
          (parts_of_tagged ref (take_chars i ref) _ (last_index-split colon ref i found))
    | inr port ↦ rw (found, port) (parts_of_untagged ref)
  ]
]

-- Every reference is its repository, a colon and its tag where it has a tag, and then the digest
-- suffix that `before` cuts off.
repository_of-tag_of :
    (ref : String)
    → repository_of ref ⊕ (if tag_of ref == "" then "" else ":" ⊕ tag_of ref) ≡ before b'@' ref
unfolding repository_of tag_of
repository_of-tag_of ref =
    let bare = before b'@' ref in
    let same : before b'@' bare ≡ bare = before_of_no_char b'@' bare (before-no_char b'@' ref) in
    rw same (undigested_parts bare)

has_char-append : (c : ℕ) (s t : String) → has_char c (s ⊕ t) ≡ (has_char c s || has_char c t)
unfolding has_char
has_char-append c String.[] t = refl
has_char-append c (String.◌∷◌ x s) t = ground (arith, has_char-append c s t)

last_index-absent : (c : ℕ) (s : String) → has_char c s ≡ false → last_index c s ≡ none
unfolding has_char last_index
last_index-absent c String.[] h = refl
last_index-absent c (String.◌∷◌ x s) h = ground (arith, last_index-absent c s)

-- The last `c` of a text is found in its first part where the second has none.
last_index-append_left :
    (c : ℕ) (s t : String) → has_char c t ≡ false → last_index c (s ⊕ t) ≡ last_index c s
unfolding last_index
last_index-append_left c String.[] t h = last_index-absent c t h
last_index-append_left c (String.◌∷◌ x s) t h = rw (last_index-append_left c s t h)

last_index-lt : (c : ℕ) (s : String) (i : ℕ) → last_index c s ≡ some i → i < text_length s
unfolding last_index
last_index-lt c String.[] i e = cc
last_index-lt c (String.◌∷◌ x s) i e = elim (Option-cases (last_index c s)) [
  | inl missing ↦ ground arith
  | inr (j, found) ↦ ground (arith, last_index-lt c s j found)
]

last_index-append_right :
    (c : ℕ) (s t : String) (i : ℕ)
    → last_index c t ≡ some i
    → last_index c (s ⊕ t) ≡ some (text_length s + i)
unfolding last_index
last_index-append_right c String.[] t i e = ground arith
last_index-append_right c (String.◌∷◌ x s) t i e =
    rw (last_index-append_right c s t i e) (ground arith)

last_index-head :
    (x : Char) (t : String)
    → has_char (code x) t ≡ false
    → last_index (code x) (String.◌∷◌ x t) ≡ some 0
unfolding last_index
last_index-head x t h = ground (arith, last_index-absent (code x) t h)

drop_chars-append :
    (s t : String) (x : Char) → drop_chars (suc (text_length s)) (s ⊕ String.◌∷◌ x t) ≡ t
unfolding drop_chars
drop_chars-append String.[] t x = refl
drop_chars-append (String.◌∷◌ y s) t x = drop_chars-append s t x

slash_before :
    (o : Option ℕ) (k : ℕ) → ((i : ℕ) → o ≡ some i → i < k) → index_after (some k) o ≡ true
slash_before none k h = refl
slash_before (some i) k h = ground (arith, h i refl)

tag_of_undigested-tagged :
    (repo tag : String)
    → has_char b':' tag ≡ false
    → has_char b'/' tag ≡ false
    → tag_of_undigested (repo ⊕ ":" ⊕ tag) ≡ tag
unfolding tag_of_undigested
tag_of_undigested-tagged repo tag no_colon no_slash =
    let here : last_index b':' (repo ⊕ ":" ⊕ tag) ≡ some (text_length repo) =
      ground (
        arith,
        last_index-append_right b':' repo (":" ⊕ tag) 0 (last_index-head ":" tag no_colon),
      ) in
    let slash : last_index b'/' (repo ⊕ ":" ⊕ tag) ≡ last_index b'/' repo =
      last_index-append_left b'/' repo (":" ⊕ tag) (unfold has_char in ground arith) in
    rw
      (
        here,
        slash,
        slash_before (last_index b'/' repo) (text_length repo) (last_index-lt b'/' repo),
      )
      (drop_chars-append repo tag ":")

has_char-tag_suffix : (tag : String) → has_char b'@' (":" ⊕ tag) ≡ has_char b'@' tag
unfolding has_char
has_char-tag_suffix tag = refl

-- Where the repository and the tag are free of `@`, and the tag is not empty and free of `:` and
-- `/`, the reference `repo:tag` has that repository and that tag; a port in the repository is not
-- taken for a tag.
pub tagged_parts :
    (repo tag : String)
    → has_char b'@' repo ≡ false
    → has_char b'@' tag ≡ false
    → has_char b':' tag ≡ false
    → has_char b'/' tag ≡ false
    → (tag == "") ≡ false
    → (repository_of (repo ⊕ ":" ⊕ tag) ≡ repo) × (tag_of (repo ⊕ ":" ⊕ tag) ≡ tag)
unfolding repository_of tag_of
tagged_parts repo tag r t no_colon no_slash full =
    let whole : before b'@' (repo ⊕ ":" ⊕ tag) ≡ repo ⊕ ":" ⊕ tag =
      before_of_no_char b'@' (repo ⊕ ":" ⊕ tag)
        (ground (arith, has_char-append b'@' repo (":" ⊕ tag), has_char-tag_suffix tag)) in
    let tagged = tag_of_undigested-tagged repo tag no_colon no_slash in
    (
      rw (whole, whole, tagged, full) (trim_suffix-append repo (":" ⊕ tag) (omega arith)),
      rw (whole, tagged) refl,
    )
