-- ===== src/Manifest/Reference.antt =====
-- The image references and pull policies of internal/manifest/types.go. Positions count
-- characters; the separators are single ASCII characters, so Go's byte positions cut at the same
-- places. A digest is cut by bytes, as in Go.
pub mod Laws
mod Examples
use shrine.Prelude.{
  Bool, Option, String, after, before, drop_chars, eq_int, eq_pair, eq_str, false, has_char,
  has_prefix, if◌then◌else◌, last_index, leb, ltb, none, not, some, strip_prefix, suc, trim_prefix,
  trim_suffix, true, ℕ, ◌==◌, ◌||◌, ◌⊕◌,
}
use Prim.Native.String.{len, slice}
use shrine.Manifest.{image_pull_policy_always, image_pull_policy_if_not_present}

-- colon > slash, where `none` stands for the -1 of strings.LastIndex
abbrev pub index_after : Option ℕ → Option ℕ → Bool
index_after none _ = false
index_after (some i) none = true
index_after (some i) (some j) = ltb j i

abbrev pub after_index : Option ℕ → String → String
after_index none s = ""
after_index (some i) s = drop_chars (suc i) s

-- The tag of a reference that has no digest suffix left.
unfoldable pub tag_of_undigested : String → String
unfolding last_index drop_chars
tag_of_undigested ref =
    let colon = last_index b':' ref in
    if index_after colon (last_index b'/' ref) then after_index colon ref else ""

unfoldable pub tag_of : String → String
unfolding before
tag_of ref = tag_of_undigested (before b'@' ref)

unfoldable pub is_digest_reference : String → Bool
unfolding has_char
is_digest_reference ref = has_char b'@' ref

unfoldable pub digest_of : String → String
unfolding after
digest_of ref = after b'@' ref

unfoldable pub repository_of : String → String
unfolding before trim_suffix
repository_of ref =
    let repository = before b'@' ref in
    let tag = tag_of repository in
    if tag == "" then repository else trim_suffix repository (":" ⊕ tag)

unfoldable pub short_digest : String → String
unfolding trim_prefix has_prefix strip_prefix
short_digest digest =
    let bare = trim_prefix digest "sha256:" in if leb (len bare) 12 then bare else slice bare 0 12

unfoldable pub readable_version : String → String → String
readable_version requested digest =
    if is_digest_reference requested
    then short_digest digest
    else let tag = tag_of requested in
      (if tag == "" then "latest" else tag) ⊕ "@" ⊕ short_digest digest

unfoldable pub effective_pull_policy_with_default : String → String → String → String
effective_pull_policy_with_default image declared dflt =
    if not (declared == "")
    then declared
    else if not (dflt == "")
    then dflt
    else if is_digest_reference image
    then image_pull_policy_if_not_present
    else let tag = tag_of image in
      if tag == "" || tag == "latest"
      then image_pull_policy_always
      else image_pull_policy_if_not_present

unfoldable pub effective_pull_policy : String → String → String
effective_pull_policy image declared = effective_pull_policy_with_default image declared ""
