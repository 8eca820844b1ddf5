-- ===== src/Platform.antt =====
-- What the model takes of Go's standard library as it is: the Unicode case tables and the RFC 3339
-- text of a time. Every operation that uses them has them as an argument.
use touch_connect.Prelude.{ℕ, String, Option, nat_eq, if◌then◌else◌}

pub record Platform : Type 0 where
  pub to_lower : String → String  -- strings.ToLower
  pub format_time : ℕ → String  -- t.UTC().Format(time.RFC3339Nano)
  pub parse_time : String → Option ℕ  -- time.Parse(time.RFC3339Nano, value); none is an error

-- formatOptionalTime of application/side_effect_service.go; the zero time is 0.
unfoldable pub format_optional_time : Platform → ℕ → String
format_optional_time p value = if nat_eq value 0 then "" else p.format_time value
