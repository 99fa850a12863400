-- ===== src/Tests/Redaction.antt =====
-- The theorems on redaction at a concrete value.
use arka.Prelude.{◌≡◌, refl, true, codes, Value}
use arka.Prelude.Values.{str, obj, arr, field, cons, nil, end}
use arka.Prelude.{to_lower_case, to_upper_case, includes}
use arka.Security.{redact_sensitive_data, is_sensitive, is_token, redacted_under}
use arka.Security.Redaction.{is_redacted, redact_sensitive_data_lem}

abbrev headers : Value
headers = obj (
    field (codes "host") (str (codes "db")) (
      field (codes "X-Auth") (str (codes "s3"))
        (field (codes "list") (arr (cons (str (codes "Bearer abc")) nil)) end)))

redact_sensitive_data_lem_example :
    (is_redacted (redact_sensitive_data headers) ≡ true)
    × (redact_sensitive_data (redact_sensitive_data headers) ≡ redact_sensitive_data headers)
redact_sensitive_data_lem_example = redact_sensitive_data_lem headers

headers_redacted :
    redact_sensitive_data headers
    ≡ obj (
        field (codes "host") (str (codes "db")) (
          field
            (codes "X-Auth")
            (str (codes "[REDACTED_X-AUTH]"))
            (field (codes "list") (arr (cons (str (codes "[REDACTED_AUTH_TOKEN]")) nil)) end)))
unfolding redact_sensitive_data is_sensitive is_token redacted_under to_lower_case to_upper_case
    includes
headers_redacted = refl
