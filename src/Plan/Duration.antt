-- ===== src/Plan/Duration.antt =====
-- mysql-internal/collector/plan.py: `parse_duration`. A `timedelta` is its number of milliseconds,
-- which every accepted duration has whole (a count of `ms` passes through a float in the source,
-- exactly up to some 70 years).
use mathlib.Core.Option
use Prim.Native.Char.{code}
use azure_mysql_monitoring.Prelude.{
  ltb, leb, if◌then◌else◌, ℕ, ◌+◌, ◌-◌, ◌*◌, ◌^◌, String, ◌≡◌, refl, Bool, ◌&&◌, Option, none, some,
  ◌==◌,
}
use azure_mysql_monitoring.Plan.Document.{Value, str}
use azure_mysql_monitoring.Plan.Errors.{
  duration_not_text, duration_malformed, overflow_error, value_error, Compiled,
}
use azure_mysql_monitoring.Prelude.Result.{ok, err, ◌>>=◌, ◌>>◌, raise_if, or_raise}
use azure_mysql_monitoring.Prelude.Text.{strip}

abbrev is_digit : ℕ → Bool
is_digit c = leb b'0' c && leb c b'9'

-- The longest run of digits: the number that it adds to, and what follows.
digits : ℕ → String → ℕ × String
digits n String.[] = (n, String.[])
digits n (String.◌∷◌ c rest) =
    if is_digit (code c) then digits (n * 10 + (code c - b'0')) rest else (n, String.◌∷◌ c rest)

-- `_DURATION_FACTORS`, in milliseconds.
factor : String → Option ℕ
factor unit =
    if unit == "ms"
    then some 1
    else if unit == "s"
    then some 1000
    else if unit == "m"
    then some 60000
    else if unit == "h"
    then some 3600000
    else none

-- `_DURATION.fullmatch`: a positive number without leading zeros, then a unit.
match_duration : String → Option (ℕ × ℕ)
unfolding digits factor
match_duration String.[] = none
match_duration (String.◌∷◌ c rest) =
    if leb b'1' (code c) && leb (code c) b'9'
    then (let (value, unit) = digits (code c - b'0') rest in
        Option.map (λ f. (value, f)) (factor unit))
    else none

-- `int` refuses more than 4300 digits, and `timedelta` a billion days.
abbrev int_limit : ℕ → Bool
int_limit n = leb (10 ^ 4300) n

abbrev pub timedelta_limit : ℕ
timedelta_limit = 86400000000000000

scale : ℕ × ℕ → Compiled ℕ
scale (value, f) =
    raise_if (int_limit value) value_error
    >> (if ltb (value * f) timedelta_limit then ok (value * f) else err overflow_error)

unfoldable pub parse_duration : Value → Compiled ℕ
unfolding match_duration scale strip
parse_duration (str s) = do
  parts ← or_raise (match_duration (strip s)) duration_malformed
  scale parts
parse_duration _ = err duration_not_text

ten_seconds : parse_duration (str " 10s ") ≡ ok 10000
unfolding parse_duration
ten_seconds = refl

leading_zero : parse_duration (str "010s") ≡ err duration_malformed
unfolding parse_duration
leading_zero = refl
