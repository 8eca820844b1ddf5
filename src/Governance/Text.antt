-- ===== src/Governance/Text.antt =====
-- compactRef and the loops that take the first text that is set, of governance.go.
use Prim.Native.Char.{code}
use Prim.Native.String
use touch_connect.Prelude.{String, List, [], ◌∷◌, ◌==◌, ◌||◌, nat_eq, if◌then◌else◌, ◌≡◌, refl}
use touch_connect.GoText.{has_prefix}

-- strings.TrimPrefix: what follows the prefix, or the whole text.
strip : String → String → String
strip s String.[] = s
strip String.[] (String.◌∷◌ d p) = String.[]
strip (String.◌∷◌ c s) (String.◌∷◌ d p) = strip s p

trim_prefix : String → String → String
unfolding strip
trim_prefix s p = if has_prefix s p then strip s p else s

replace_separators : String → String
replace_separators String.[] = String.[]
replace_separators (String.◌∷◌ c s) =
    if nat_eq (code c) b'/' || nat_eq (code c) b':'
    then String.◌++◌ "_" (replace_separators s)
    else String.◌∷◌ c (replace_separators s)

unfoldable pub compact_ref : String → String
unfolding replace_separators trim_prefix
compact_ref ref = replace_separators (trim_prefix ref "tc://")

-- The loops firstApprovalMessageRef, firstArtifactRef and their like.
unfoldable pub first_set : {A : Type 0} → (A → String) → List A → String
first_set field [] = ""
first_set field (x ∷ xs) = if field x == "" then first_set field xs else field x

compacts : compact_ref "tc://artifact/a:1" ≡ "artifact_a_1"
unfolding compact_ref has_prefix
compacts = refl
