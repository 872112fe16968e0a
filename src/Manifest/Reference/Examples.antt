-- ===== src/Manifest/Reference/Examples.antt =====
-- References as operators write them.
use shrine.Prelude.{dec_str, eq_int, eq_pair, eq_str, has_char, refl, ◌≡◌}
use shrine.Manifest.Reference.{
  tag_of, tag_of_undigested, digest_of, is_digest_reference, repository_of, short_digest,
  readable_version, effective_pull_policy, effective_pull_policy_with_default,
}
use shrine.Manifest.Reference.Laws.{tagged_parts}

ported :
    (tag_of "localhost:5000/app" ≡ "")
    × (repository_of "localhost:5000/app:1.2" ≡ "localhost:5000/app")
unfolding tag_of tag_of_undigested repository_of dec_str
ported = (refl, refl)

digested :
    (tag_of "repo:1@sha256:ab" ≡ "1")
    × (digest_of "repo:1@sha256:ab" ≡ "sha256:ab")
    × (repository_of "repo:1@sha256:ab" ≡ "repo")
unfolding tag_of tag_of_undigested repository_of digest_of dec_str
digested = (refl, refl, refl)

readable : readable_version "postgres" "sha256:0123456789abcdef" ≡ "latest@0123456789ab"
unfolding readable_version is_digest_reference short_digest tag_of tag_of_undigested dec_str
readable = refl

derived :
    (effective_pull_policy "app" "" ≡ "Always")
    × (effective_pull_policy "app:latest" "" ≡ "Always")
    × (effective_pull_policy "app:1.2" "" ≡ "IfNotPresent")
    × (effective_pull_policy "app@sha256:ab" "" ≡ "IfNotPresent")
unfolding effective_pull_policy effective_pull_policy_with_default is_digest_reference tag_of
    tag_of_undigested dec_str
derived = (refl, refl, refl, refl)

tagged_parts_example :
    (repository_of "localhost:5000/app:1.2" ≡ "localhost:5000/app")
    × (tag_of "localhost:5000/app:1.2" ≡ "1.2")
unfolding has_char dec_str
tagged_parts_example = tagged_parts "localhost:5000/app" "1.2" refl refl refl refl refl
