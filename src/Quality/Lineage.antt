-- ===== src/Quality/Lineage.antt =====
-- The lineage rule of validator.go: a body that speaks of replacing or deriving from an artifact
-- needs a reference to one. The regular expressions are words between `\b` boundaries.
use Prim.Native.Char.{Char, code}
use touch_connect.Prelude.{
  String, Bool, true, false, not, ◌&&◌, ◌||◌, leb, nat_eq, ◌==◌, if◌then◌else◌, Option, none, some,
  List, [], ◌∷◌, items, any, ◌≡◌, refl,
}
use touch_connect.GoText.{trim_space, contains}
use touch_connect.Platform.{Platform}
use touch_connect.Contracts.Policy.{QualityViolation}
use touch_connect.Contracts.Messages.{MessageIngressRequest, Reference}
use touch_connect.Quality.Names.{rule_missing_lineage_reference, quality_severity_warning}

abbrev pub lineage_intent_substrings : List String
lineage_intent_substrings =
    "수정하" ∷ "수정해" ∷ "수정된" ∷ "대체하" ∷ "대체해" ∷ "대체된" ∷ "파생" ∷ "기반으로" ∷ "기반하여" ∷ []

-- What the expressions match between their boundaries.
abbrev pub lineage_intent_words : List String
lineage_intent_words =
    "replace" ∷ "based on" ∷ "derived from" ∷ "supersede" ∷ "supersedes" ∷ "superseded"
    ∷ "modify artifact" ∷ []

-- \w of Go's regexp: ASCII letters, digits and `_`.
unfoldable pub is_word : Char → Bool
is_word c =
    let n = code c in
    (leb b'0' n && leb n b'9')
    || (leb b'A' n && leb n b'Z')
    || nat_eq n b'_'
    || (leb b'a' n && leb n b'z')

-- The pattern stands here and a boundary behind it.
unfoldable pub at_word : String → String → Bool
unfolding is_word
at_word String.[] String.[] = true
at_word (String.◌∷◌ c s) String.[] = not (is_word c)
at_word String.[] (String.◌∷◌ d p) = false
at_word (String.◌∷◌ c s) (String.◌∷◌ d p) = nat_eq (code c) (code d) && at_word s p

-- `after_word` says that the character before `s` is a word character.
unfoldable pub find_word : Bool → String → String → Bool
unfolding at_word
find_word after_word String.[] p = not after_word && at_word String.[] p
find_word after_word (String.◌∷◌ c s) p =
    (not after_word && at_word (String.◌∷◌ c s) p) || find_word (is_word c) s p

-- regexp.MustCompile(`\b` + p + `\b`).MatchString(s), for a pattern of word characters at both ends.
unfoldable pub matches_word : String → String → Bool
unfolding find_word
matches_word s p = find_word false s p

unfoldable pub mentions_lineage_intent : Platform → String → Bool
unfolding any matches_word
mentions_lineage_intent platform text =
    let body = platform.to_lower (trim_space text) in
    any (λ p. contains body p) lineage_intent_substrings
    || any (λ p. matches_word body p) lineage_intent_words

unfoldable pub is_lineage_reference : Platform → Reference → Bool
is_lineage_reference platform r =
    let ref_type = platform.to_lower r.type in
    let ref_value = platform.to_lower r.ref in
    ref_type == "artifact"
    || ref_type == "artifact_version"
    || contains ref_value "artifact-version"
    || contains ref_value "artifact/"

unfoldable pub has_lineage_reference : Platform → List Reference → Bool
unfolding any is_lineage_reference
has_lineage_reference platform references = any (is_lineage_reference platform) references

unfoldable pub missing_lineage_reference_violation :
    Platform → MessageIngressRequest → Option QualityViolation
missing_lineage_reference_violation platform req =
    if not (mentions_lineage_intent platform req.payload.body)
    then none
    else if has_lineage_reference platform (items req.payload.references)
    then none
    else some (record {
      code = rule_missing_lineage_reference;
      field = "payload.references";
      detail =
          "message appears to modify, replace, or derive from an artifact but has no artifact lineage reference";
      severity = quality_severity_warning;
      suggested_fix =
          "add an artifact or artifact_version reference that captures parent_version, derived_from, or supersedes";
    })

whole_word : matches_word "please replace it" "replace" ≡ true
unfolding matches_word
whole_word = refl

part_of_word : matches_word "replacement" "replace" ≡ false
unfolding matches_word
part_of_word = refl
