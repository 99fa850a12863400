-- ===== src/Security.antt =====
-- frontend/src/utils/security.ts: what is hidden before a value is shown.
pub mod Redaction
use arka.Prelude.{
  ◌-◌, Bool, true, false, ◌||◌, List, [], ◌∷◌, ◌++◌, Text, codes, is_empty, includes, starts_with,
  to_lower_case, to_upper_case, any, if◌then◌else◌, ltb, length, take, drop, Value, Items, Fields,
}
use arka.Prelude.Values.{undefined, null, bool, num, str, arr, obj, nil, cons, end, field}

-- The patterns, with both forms of `[_-]?` written out, on lower case
abbrev patterns : List Text
patterns =
    codes "token"
    ∷ codes "secret"
    ∷ codes "password"
    ∷ codes "apikey"
    ∷ codes "api_key"
    ∷ codes "api-key"
    ∷ codes "auth"
    ∷ codes "credential"
    ∷ codes "privatekey"
    ∷ codes "private_key"
    ∷ codes "private-key"
    ∷ codes "bearer"
    ∷ []

unfoldable pub is_sensitive : Text → Bool
is_sensitive key = any (includes (to_lower_case key)) patterns

-- A text that starts like a bearer token or a JWT
unfoldable pub is_token : Text → Bool
is_token s = starts_with s (codes "Bearer ") || starts_with s (codes "eyJ")

redact_text : Text → Text
unfolding is_token
redact_text s = if is_token s then codes "[REDACTED_AUTH_TOKEN]" else s

-- What stands in place of a text under a sensitive key
unfoldable pub redacted_under : Text → Text
redacted_under key = codes "[REDACTED_" ++ (to_upper_case key ++ codes "]")

-- The value of an entry, of the value before and after its own redaction
redact_entry : Text → Value → Value → Value
unfolding is_sensitive redacted_under
redact_entry key (str s) redacted = if is_sensitive key then str (redacted_under key) else redacted
redact_entry key _ redacted = redacted

unfoldable mutual
  unfolding redact_text redact_entry

  pub redact_sensitive_data : Value → Value
  redact_sensitive_data undefined = undefined
  redact_sensitive_data null = null
  redact_sensitive_data (bool b) = bool b
  redact_sensitive_data (num n) = num n
  redact_sensitive_data (str s) = str (redact_text s)
  redact_sensitive_data (arr xs) = arr (redact_items xs)
  redact_sensitive_data (obj fs) = obj (redact_fields fs)

  pub redact_items : Items → Items
  redact_items nil = nil
  redact_items (cons x xs) = cons (redact_sensitive_data x) (redact_items xs)

  pub redact_fields : Fields → Fields
  redact_fields end = end
  redact_fields (field key v rest) =
      field key (redact_entry key v (redact_sensitive_data v)) (redact_fields rest)

unfoldable pub mask_token : Text → Text
mask_token token =
    if is_empty token || ltb (length token) 8
    then codes "****"
    else take 4 token ++ (codes "..." ++ drop (length token - 4) token)
