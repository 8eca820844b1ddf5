-- ===== src/GoText.antt =====
-- The functions of Go's `strings` package that the code calls, on texts as lists of characters.
use Prim.Native.Char.{Char, code}
use touch_connect.Prelude.{
  ◌≡◌, refl, String, Bool, true, false, ◌&&◌, ◌||◌, leb, nat_eq, ◌==◌, if◌then◌else◌,
}

-- unicode.IsSpace.
unfoldable pub is_space : Char → Bool
is_space c =
    let n = code c in
    (leb 9 n && leb n 13)
    || nat_eq n 32
    || nat_eq n 0x85
    || nat_eq n 0xa0
    || nat_eq n 0x1680
    || (leb 0x2000 n && leb n 0x200a)
    || nat_eq n 0x2028
    || nat_eq n 0x2029
    || nat_eq n 0x202f
    || nat_eq n 0x205f
    || nat_eq n 0x3000

unfoldable pub trim_left : String → String
unfolding is_space
trim_left String.[] = String.[]
trim_left (String.◌∷◌ c s) = if is_space c then trim_left s else String.◌∷◌ c s

unfoldable pub trim_right : String → String
unfolding is_space
trim_right String.[] = String.[]
trim_right (String.◌∷◌ c s) = elim (trim_right s) [
  | String.[] ↦ if is_space c then String.[] else String.◌∷◌ c String.[]
  | String.◌∷◌ d t ↦ String.◌∷◌ c (String.◌∷◌ d t)
]

-- strings.TrimSpace.
unfoldable pub trim_space : String → String
unfolding trim_left trim_right
trim_space s = trim_left (trim_right s)

-- strings.HasPrefix.
unfoldable pub has_prefix : String → String → Bool
has_prefix s String.[] = true
has_prefix String.[] (String.◌∷◌ d p) = false
has_prefix (String.◌∷◌ c s) (String.◌∷◌ d p) = nat_eq (code c) (code d) && has_prefix s p

-- strings.HasSuffix.
unfoldable pub has_suffix : String → String → Bool
has_suffix String.[] p = String.[] == p
has_suffix (String.◌∷◌ c s) p = String.◌∷◌ c s == p || has_suffix s p

-- strings.TrimSuffix.
unfoldable pub trim_suffix : String → String → String
trim_suffix String.[] p = String.[]
trim_suffix (String.◌∷◌ c s) p =
    if String.◌∷◌ c s == p then String.[] else String.◌∷◌ c (trim_suffix s p)

-- strings.Contains.
unfoldable pub contains : String → String → Bool
unfolding has_prefix
contains String.[] p = has_prefix String.[] p
contains (String.◌∷◌ c s) p = has_prefix (String.◌∷◌ c s) p || contains s p

-- value == "" after trimming: `blank` of validation.go.
unfoldable pub blank : String → Bool
unfolding trim_space
blank value = trim_space value == ""

trims : trim_space " \t a b " ≡ "a b"
unfolding trim_space
trims = refl

has_dot_star : has_suffix "code.*" ".*" ≡ true
unfolding has_suffix
has_dot_star = refl

strips_star : trim_suffix "code.*" "*" ≡ "code."
unfolding trim_suffix
strips_star = refl
