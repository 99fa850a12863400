-- ===== src/Security/Redaction.antt =====
-- What redaction leaves in a value, and what it leaves alone.
use mathlib.Core.Bool.{and-eq-true_iff}
use arka.Prelude.{
  ◌≡◌, ◌↔◌, refl, sym, subst, ap, Bool, true, not, ◌&&◌, ◌||◌, arith, Text, codes, text_eq,
  text_eq_iff, text_eq_refl, Bool-cases, inl, inr, Value, Items, Fields,
}
use arka.Prelude.Values.{undefined, null, bool, num, str, arr, obj, nil, cons, end, field}
use arka.Security.{
  is_sensitive, is_token, redact_text, redacted_under, redact_entry, redact_sensitive_data,
  redact_items, redact_fields,
}

-- An entry with a sensitive key whose value is a text has the marker for that key as its value. A
-- list, an object or a number under a sensitive key is left to the rest of the value's test, like
-- under any other key: the code replaces texts only.
entry_hidden : Text → Value → Bool
entry_hidden key (str s) = not (is_sensitive key) || text_eq s (redacted_under key)
entry_hidden key _ = true

unfoldable mutual
  unfolding entry_hidden

  -- At every depth, no text looks like a token, and no text but the marker stands directly under a
  -- sensitive key. A text in a list under such a key may stay.
  pub is_redacted : Value → Bool
  is_redacted (str s) = not (is_token s)
  is_redacted (arr xs) = items_redacted xs
  is_redacted (obj fs) = fields_redacted fs
  is_redacted undefined = true
  is_redacted null = true
  is_redacted (bool b) = true
  is_redacted (num n) = true

  pub items_redacted : Items → Bool
  items_redacted nil = true
  items_redacted (cons x xs) = is_redacted x && items_redacted xs

  pub fields_redacted : Fields → Bool
  fields_redacted end = true
  fields_redacted (field key v rest) = entry_hidden key v && is_redacted v && fields_redacted rest

marker-is_token : not (is_token (codes "[REDACTED_AUTH_TOKEN]")) ≡ true
unfolding is_token
marker-is_token = refl

redact_text-is_token : (s : Text) → not (is_token (redact_text s)) ≡ true
unfolding redact_text
redact_text-is_token s = elim (Bool-cases (is_token s)) [
  | inl token ↦ rw token marker-is_token
  | inr plain ↦ rw (plain, plain)
]

redacted_under-is_token : (key : Text) → not (is_token (redacted_under key)) ≡ true
unfolding is_token redacted_under
redacted_under-is_token key = refl

redact_entry-redacted :
    (key : Text) (v : Value)
    → is_redacted (redact_sensitive_data v) ≡ true
    → (entry_hidden key (redact_entry key v (redact_sensitive_data v))
        && is_redacted (redact_entry key v (redact_sensitive_data v)))
      ≡ true
unfolding entry_hidden redact_entry is_redacted redact_sensitive_data
redact_entry-redacted key (str s) h = elim (Bool-cases (is_sensitive key)) [
  | inl secret ↦ rw (secret, secret, text_eq_refl (redacted_under key), redacted_under-is_token key)
  | inr plain ↦ rw (plain, plain, h)
]
redact_entry-redacted key undefined h = refl
redact_entry-redacted key null h = refl
redact_entry-redacted key (bool b) h = refl
redact_entry-redacted key (num n) h = refl
redact_entry-redacted key (arr xs) h = h
redact_entry-redacted key (obj fs) h = h

mutual
  unfolding is_redacted items_redacted fields_redacted redact_sensitive_data redact_items
      redact_fields

  -- A redacted value holds no token, and no text but the marker directly under a sensitive key, at
  -- any depth.
  pub redact_sensitive_data-is_redacted : (v : Value) → is_redacted (redact_sensitive_data v) ≡ true
  redact_sensitive_data-is_redacted undefined = refl
  redact_sensitive_data-is_redacted null = refl
  redact_sensitive_data-is_redacted (bool b) = refl
  redact_sensitive_data-is_redacted (num n) = refl
  redact_sensitive_data-is_redacted (str s) = redact_text-is_token s
  redact_sensitive_data-is_redacted (arr xs) = redact_items_lem xs
  redact_sensitive_data-is_redacted (obj fs) = redact_fields_lem fs

  redact_items_lem : (xs : Items) → items_redacted (redact_items xs) ≡ true
  redact_items_lem nil = refl
  redact_items_lem (cons x xs) = rw (redact_sensitive_data-is_redacted x, redact_items_lem xs)

  redact_fields_lem : (fs : Fields) → fields_redacted (redact_fields fs) ≡ true
  redact_fields_lem end = refl
  redact_fields_lem (field key v rest) =
      rw (redact_entry-redacted key v (redact_sensitive_data-is_redacted v), redact_fields_lem rest)

redact_text-plain : (s : Text) → not (is_token s) ≡ true → redact_text s ≡ s
unfolding redact_text
redact_text-plain s h = ground arith

redact_entry-hidden :
    (key : Text) (v : Value)
    → entry_hidden key v ≡ true
    → redact_sensitive_data v ≡ v
    → redact_entry key v (redact_sensitive_data v) ≡ v
unfolding entry_hidden redact_entry
redact_entry-hidden key (str s) h e = elim (Bool-cases (is_sensitive key)) [
  | inl secret ↦ rw secret (ap str (sym ((text_eq_iff _ _).0 (rw secret at h))))
  | inr plain ↦ rw plain e
]
redact_entry-hidden key undefined h e = e
redact_entry-hidden key null h e = e
redact_entry-hidden key (bool b) h e = e
redact_entry-hidden key (num n) h e = e
redact_entry-hidden key (arr xs) h e = e
redact_entry-hidden key (obj fs) h e = e

mutual
  unfolding is_redacted items_redacted fields_redacted redact_sensitive_data redact_items
      redact_fields

  -- Redaction changes nothing in a value that is redacted.
  pub redact_sensitive_data-fixed : (v : Value) → is_redacted v ≡ true → redact_sensitive_data v ≡ v
  redact_sensitive_data-fixed undefined h = refl
  redact_sensitive_data-fixed null h = refl
  redact_sensitive_data-fixed (bool b) h = refl
  redact_sensitive_data-fixed (num n) h = refl
  redact_sensitive_data-fixed (str s) h = ap str (redact_text-plain s h)
  redact_sensitive_data-fixed (arr xs) h = ap arr (redact_items-fixed xs h)
  redact_sensitive_data-fixed (obj fs) h = ap obj (redact_fields-fixed fs h)

  redact_items-fixed : (xs : Items) → items_redacted xs ≡ true → redact_items xs ≡ xs
  redact_items-fixed nil h = refl
  redact_items-fixed (cons x xs) h =
      let (hx, hxs) = (and-eq-true_iff _ _).0 h in
      rw (redact_sensitive_data-fixed x hx, redact_items-fixed xs hxs)

  redact_fields-fixed : (fs : Fields) → fields_redacted fs ≡ true → redact_fields fs ≡ fs
  redact_fields-fixed end h = refl
  redact_fields-fixed (field key v rest) h =
      let (hv, hrest) = (and-eq-true_iff _ _).0 h in
      let (hidden, inner) = (and-eq-true_iff _ _).0 hv in
      rw (
        redact_entry-hidden key v hidden (redact_sensitive_data-fixed v inner),
        redact_fields-fixed rest hrest,
      )

-- Redaction leaves, at every depth, no token and no text directly under a sensitive key but the marker
-- for that key, and to redact again changes nothing. The texts of a list or an object under a
-- sensitive key are covered like those anywhere else: for tokens and for sensitive keys of their own.
pub redact_sensitive_data_lem :
    (v : Value)
    → (is_redacted (redact_sensitive_data v) ≡ true)
      × (redact_sensitive_data (redact_sensitive_data v) ≡ redact_sensitive_data v)
redact_sensitive_data_lem v =
    let clean = redact_sensitive_data-is_redacted v in
    (clean, redact_sensitive_data-fixed (redact_sensitive_data v) clean)

-- Redaction leaves a value as it is exactly when the value has no token and no text but the marker
-- directly under a sensitive key.
pub redact_sensitive_data-is_redacted_iff :
    (v : Value) → (redact_sensitive_data v ≡ v) ↔ (is_redacted v ≡ true)
redact_sensitive_data-is_redacted_iff v = (
  λ e. subst (λ w. is_redacted w ≡ true) e (redact_sensitive_data-is_redacted v),
  redact_sensitive_data-fixed v,
)
