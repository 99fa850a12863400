-- ===== src/Formatting.antt =====
-- frontend/src/utils/formatting.ts: the texts in which the views show numbers, times and hashes.
-- The clock, `Date.toISOString` and `Intl.NumberFormat` are arguments.
pub mod Countdown
use arka.Prelude.{
  ℕ, ◌+◌, ◌-◌, ◌*◌, ◌/◌, ◌%◌, Bool, true, false, [], ◌∷◌, ◌++◌, Text, codes, ltb, leb, ◌==◌,
  if◌then◌else◌, is_empty, starts_with, length, take, drop, to_string, int_to_string, ℤ, pos,
  negsuc,
}
use arka.Types.Core.{RiskClass}

-- `s.replace(c, t)`, which replaces the first `c`
unfoldable pub replace_first : ℕ → Text → Text → Text
replace_first c t [] = []
replace_first c t (d ∷ s) = let rest = d ∷ replace_first c t s in if d == c then t ++ s else rest

unfoldable pub format_timestamp : (ℕ → Text) → ℕ → Text
unfolding replace_first
format_timestamp to_iso_string unix_seconds =
    if unix_seconds == 0
    then codes "—"
    else replace_first b'Z' (codes " UTC")
        (replace_first b'T' (codes " ") (to_iso_string (unix_seconds * 1000)))

-- `a - b` of JS numbers
unfoldable pub minus : ℕ → ℕ → ℤ
minus a b = if ltb a b then negsuc (b - a - 1) else pos (a - b)

-- The text of a difference in seconds, which is below 60 when it is negative
unfoldable pub time_ago : ℤ → Text
time_ago (negsuc n) = int_to_string (negsuc n) ++ codes "s ago"
time_ago (pos diff) =
    if ltb diff 60
    then to_string diff ++ codes "s ago"
    else if ltb diff 3600
    then to_string (diff / 60) ++ codes "m ago"
    else if ltb diff 86400
    then to_string (diff / 3600) ++ codes "h ago"
    else to_string (diff / 86400) ++ codes "d ago"

-- `date_now` is `Date.now()`, in milliseconds.
unfoldable pub format_time_ago : ℕ → ℕ → Text
unfolding minus time_ago
format_time_ago date_now unix_seconds =
    if unix_seconds == 0 then codes "—" else time_ago (minus (date_now / 1000) unix_seconds)

-- `n.toString().padStart(2, '0')`
unfoldable pub pad_start : Text → Text
pad_start [] = codes "00"
pad_start (c ∷ []) = b'0' ∷ c ∷ []
pad_start (c ∷ d ∷ s) = c ∷ d ∷ s

unfoldable pub format_countdown : ℕ → ℕ → Text
unfolding pad_start
format_countdown date_now expires_at_unix =
    let now = date_now / 1000 in
    let remaining = expires_at_unix - now in
    if leb expires_at_unix now
    then codes "EXPIRED"
    else pad_start (to_string (remaining / 60)) ++ b':' ∷ pad_start (to_string (remaining % 60))

-- `hash.replace(/^sha256:/, '')`
unfoldable pub without_prefix : Text → Text
without_prefix hash = if starts_with hash (codes "sha256:") then drop 7 hash else hash

unfoldable pub truncate_hash : ℕ → ℕ → Text → Text
unfolding without_prefix
truncate_hash start_chars end_chars hash =
    let clean = without_prefix hash in
    if is_empty hash
    then codes "—"
    else if leb (length clean) (start_chars + end_chars)
    then hash
    else take start_chars clean ++ codes "..." ++ drop (length clean - end_chars) clean

-- `number_format` is `new Intl.NumberFormat('en-US').format`.
unfoldable pub format_number : (ℕ → Text) → ℕ → Text
format_number number_format num = number_format num

unfoldable pub get_risk_badge_class : RiskClass → Text
get_risk_badge_class RiskClass.observation = codes "badge-neutral"
get_risk_badge_class RiskClass.low = codes "badge-neutral"
get_risk_badge_class RiskClass.moderate = codes "badge-primary"
get_risk_badge_class RiskClass.high = codes "badge-warning"
get_risk_badge_class RiskClass.critical = codes "badge-danger"
