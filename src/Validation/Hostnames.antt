-- ===== src/Validation/Hostnames.antt =====
-- frontend/src/utils/validation.ts: what the pattern of `isValidHostname` matches, as a grammar.
use mathlib.Core.Bool.{and-eq-true_iff}
use mathlib.Core.List.{reverse, reverse-append, reverse-reverse, reverse-cons}
use arka.Prelude.{
  ℕ, ◌+◌, ◌≤◌, ◌≡◌, ◌≢◌, ◌↔◌, ◌⊎◌, inl, inr, refl, sym, subst, ap, ◌∙◌, Bool, true, false, ◌&&◌,
  ◌||◌, ◌==◌, List, [], ◌∷◌, ◌++◌, arith, length, length-append, take, drop, all, All, All-map,
  All-append, all_sound, all_complete, Text, codes, trim, split, split-append, split-Lacks, Lacks,
  join, join-split, starts_with, starts_with_sound, starts_with-append, text_eq, text_eq_iff,
  leb→le, le→leb, Bool-cases, or-cases,
}
use arka.Validation.{
  is_letter, is_letter_or_digit, label_ok, labels_ok, hostname_pattern, is_valid_hostname,
}

-- `[a-zA-Z]`, `[a-zA-Z0-9]` and `[a-zA-Z0-9-]`
abbrev pub Letter : ℕ → Type 0
Letter c = ((b'a' ≤ c) × (c ≤ b'z')) ⊎ ((b'A' ≤ c) × (c ≤ b'Z'))

abbrev pub Alphanumeric : ℕ → Type 0
Alphanumeric c = Letter c ⊎ ((b'0' ≤ c) × (c ≤ b'9'))

abbrev pub Inner : ℕ → Type 0
Inner c = Alphanumeric c ⊎ (c ≡ b'-')

-- `[a-zA-Z0-9]([a-zA-Z0-9-]{0,61}[a-zA-Z0-9])?`
pub data Label : Text → Type 0 where
  one : (c : ℕ) → Alphanumeric c → Label (c ∷ [])
  more :
      (c : ℕ) (middle : Text) (d : ℕ)
      → Alphanumeric c
      → All Inner middle
      → length middle ≤ 61
      → Alphanumeric d
      → Label (c ∷ (middle ++ (d ∷ [])))

-- `[a-zA-Z]{2,}`
abbrev pub Top : Text → Type 0
Top t = (2 ≤ length t) × All Letter t

-- `(label\.)+top`
pub data Domain : Text → Type 0 where
  last : (l t : Text) → Label l → Top t → Domain (l ++ b'.' ∷ t)
  next : (l r : Text) → Label l → Domain r → Domain (l ++ b'.' ∷ r)

-- `(\*\.)?domain`
pub data Hostname : Text → Type 0 where
  plain : (s : Text) → Domain s → Hostname s
  wildcard : (s : Text) → Domain s → Hostname (codes "*." ++ s)

is_inner : ℕ → Bool
is_inner c = is_letter_or_digit c || (c == b'-')

is_letter_iff : (c : ℕ) → (is_letter c ≡ true) ↔ Letter c
unfolding is_letter
is_letter_iff c = ground arith

is_letter_or_digit_iff : (c : ℕ) → (is_letter_or_digit c ≡ true) ↔ Alphanumeric c
unfolding is_letter_or_digit is_letter
is_letter_or_digit_iff c = ground arith

is_inner_iff : (c : ℕ) → (is_inner c ≡ true) ↔ Inner c
unfolding is_inner is_letter_or_digit is_letter
is_inner_iff c = ground arith

dotless : (c : ℕ) → Inner c → c ≢ b'.'
dotless c h = ground arith

Label-Lacks : {l : Text} → Label l → Lacks b'.' l
Label-Lacks (one c h) = (dotless c (inl h), tt)
Label-Lacks (more c middle d h inner n e) = (
  dotless c (inl h),
  All-append (λ x. x ≢ b'.') middle (d ∷ []) (All-map dotless middle inner) (dotless d (inl e), tt),
)

both : {a b : Bool} → a ≡ true → b ≡ true → (a && b) ≡ true
both h k = (and-eq-true_iff _ _).1 (h, k)

Label-label_ok : {l : Text} → Label l → label_ok l ≡ true
unfolding label_ok is_inner
Label-label_ok (one c h) = rw ((is_letter_or_digit_iff c).1 h) refl
Label-label_ok (more c middle d h inner n e) =
    let short : length (middle ++ (d ∷ [])) ≤ 62 =
      rw (length-append middle (d ∷ [])) (omega (arith, n)) in
    let inside = all_complete is_inner (middle ++ (d ∷ [])) (
      All-map (λ x. (is_inner_iff x).1) (middle ++ (d ∷ []))
        (All-append Inner middle (d ∷ []) inner (inl e, tt))) in
    let ends : all is_letter_or_digit (take 1 (reverse (middle ++ (d ∷ [])))) ≡ true =
      rw (reverse-append middle (d ∷ []), (is_letter_or_digit_iff d).1 e) refl in
    both (both (both ((is_letter_or_digit_iff c).1 h) (le→leb _ 62 short)) inside) ends

-- A text that is not empty is one with a last code unit.
unsnoc : (s r : Text) → reverse s ≡ r → (s ≡ []) ⊎ ((m : Text) × (d : ℕ) × (s ≡ m ++ (d ∷ [])))
unsnoc s [] e = inl (sym (reverse-reverse s) ∙ ap reverse e)
unsnoc s (d ∷ r) e = inr (reverse r, d, sym (reverse-reverse s) ∙ ap reverse e ∙ reverse-cons d r)

All-initial : (P : ℕ → Type 0) (xs ys : Text) → All P (xs ++ ys) → All P xs
All-initial P [] ys h = tt
All-initial P (x ∷ xs) ys (h, t) = (h, All-initial P xs ys t)

label_ok-Label : (l : Text) → label_ok l ≡ true → Label l
unfolding label_ok is_inner
label_ok-Label [] h = cc
label_ok-Label (c ∷ s) h =
    let (body, ends) = (and-eq-true_iff _ _).0 h in
    let (front, inside) = (and-eq-true_iff _ _).0 body in
    let (first, short) = (and-eq-true_iff _ _).0 front in
    let start = (is_letter_or_digit_iff c).0 first in
    elim (unsnoc s (reverse s) refl) [
      | inl e ↦ rw e (one c start)
      | inr (m, d, e) ↦
          let last_ok : all is_letter_or_digit (take 1 (reverse (d ∷ []) ++ reverse m)) ≡ true =
            sym (
              ap (λ t. all is_letter_or_digit (take 1 t))
                (ap reverse e ∙ reverse-append m (d ∷ [])))
            ∙ ends in
          let parts : All Inner (m ++ (d ∷ [])) =
            subst (All Inner) e
              (All-map (λ x. (is_inner_iff x).0) s (all_sound is_inner s inside)) in
          let size : length s ≡ length m + 1 = ap length e ∙ length-append m (d ∷ []) in
          let small : length s ≤ 62 = leb→le (length s) 62 short in
          rw e (
            more c m d start (All-initial Inner m (d ∷ []) parts) (omega arith)
              ((is_letter_or_digit_iff d).0 ((and-eq-true_iff _ _).0 last_ok).0))
    ]

Top-labels : (l t : Text) → Label l → Top t → labels_ok (l ∷ t ∷ []) ≡ true
unfolding labels_ok
Top-labels l t h (n, letters) =
    both (both (Label-label_ok h) (le→leb 2 (length t) n))
      (all_complete is_letter t (All-map (λ c. (is_letter_iff c).1) t letters))

-- A domain has a part in front of its last one.
Split : Text → Type 0
Split s = (p : Text) × (q : Text) × (ps : List Text) × (split b'.' s ≡ p ∷ q ∷ ps)

Domain-Split : {s : Text} → Domain s → Split s × (labels_ok (split b'.' s) ≡ true)
unfolding Split labels_ok
Domain-Split (last l t h k) =
    let e : split b'.' (l ++ b'.' ∷ t) ≡ l ∷ t ∷ [] =
      split-append b'.' l t (Label-Lacks h)
      ∙ ap (λ ps. l ∷ ps) (split-Lacks b'.' t (All-map (λ c x. dotless c (inl (inl x))) t k.1)) in
    ((l, t, [], e), ap labels_ok e ∙ Top-labels l t h k)
Domain-Split (next l r h k) =
    let ((p, q, ps, e), ok) = Domain-Split k in
    let f : split b'.' (l ++ b'.' ∷ r) ≡ l ∷ p ∷ q ∷ ps =
      split-append b'.' l r (Label-Lacks h) ∙ ap (λ xs. l ∷ xs) e in
    ((l, p, q ∷ ps, f), ap labels_ok f ∙ both (Label-label_ok h) (sym (ap labels_ok e) ∙ ok))

labels_ok-Domain : (parts : List Text) → labels_ok parts ≡ true → Domain (join b'.' parts)
unfolding labels_ok
labels_ok-Domain [] h = cc
labels_ok-Domain (p ∷ []) h = cc
labels_ok-Domain (l ∷ t ∷ []) h =
    let (front, letters) = (and-eq-true_iff _ _).0 h in
    let (label, long) = (and-eq-true_iff _ _).0 front in
    last l t (label_ok-Label l label) (
      leb→le 2 (length t) long,
      All-map (λ c. (is_letter_iff c).0) t (all_sound is_letter t letters),
    )
labels_ok-Domain (l ∷ q ∷ r ∷ rest) h =
    let (label, later) = (and-eq-true_iff _ _).0 h in
    next l (join b'.' (q ∷ r ∷ rest)) (label_ok-Label l label)
      (labels_ok-Domain (q ∷ r ∷ rest) later)

parts-Domain : (s : Text) → labels_ok (split b'.' s) ≡ true → Domain s
parts-Domain s h = subst Domain (join-split b'.' s) (labels_ok-Domain (split b'.' s) h)

pattern-Hostname : (s : Text) → hostname_pattern s ≡ true → Hostname s
unfolding hostname_pattern
pattern-Hostname s h = elim (Bool-cases (starts_with s (codes "*."))) [
  | inl star ↦
      let (t, e) = starts_with_sound s (codes "*.") star in
      let rest : labels_ok (split b'.' (drop 2 s)) ≡ true = rw star at h in
      rw e
        (wildcard t (parts-Domain t (subst (λ x. labels_ok (split b'.' (drop 2 x)) ≡ true) e rest)))
  | inr none ↦ plain s (parts-Domain s (rw none at h))
]

unstarred : (c : ℕ) (t : Text) → Alphanumeric c → starts_with (c ∷ t) (codes "*.") ≡ false
unstarred c t h = let other : (c == b'*') ≡ false = ground arith in rw other refl

Label-unstarred : {l : Text} (r : Text) → Label l → starts_with (l ++ r) (codes "*.") ≡ false
Label-unstarred r (one c h) = unstarred c r h
Label-unstarred r (more c middle d h inner n e) = unstarred c ((middle ++ (d ∷ [])) ++ r) h

Domain-unstarred : {s : Text} → Domain s → starts_with s (codes "*.") ≡ false
Domain-unstarred (last l t h k) = Label-unstarred (b'.' ∷ t) h
Domain-unstarred (next l r h k) = Label-unstarred (b'.' ∷ r) h

Hostname-pattern : {s : Text} → Hostname s → hostname_pattern s ≡ true
unfolding hostname_pattern
Hostname-pattern (plain s h) = rw (Domain-unstarred h) ((Domain-Split h).1)
Hostname-pattern (wildcard s h) = rw (starts_with-append (codes "*.") s) ((Domain-Split h).1)

-- A name is valid exactly when, trimmed, it has from 1 to 253 code units and is "localhost" or
-- labels of letters, digits and inner dashes, of at most 63 code units each, with a dot behind each
-- and a top label of two or more letters at the end, behind an optional "*.".
pub is_valid_hostname_iff :
    (host : Text)
    → (is_valid_hostname host ≡ true) ↔ (
        (1 ≤ length (trim host))
        × (length (trim host) ≤ 253)
        × (Hostname (trim host) ⊎ (trim host ≡ codes "localhost")))
unfolding is_valid_hostname
is_valid_hostname_iff host = (
  λ h.
      let (sizes, form) = (and-eq-true_iff _ _).0 h in
      let (low, high) = (and-eq-true_iff _ _).0 sizes in
      (
        leb→le 1 (length (trim host)) low,
        leb→le (length (trim host)) 253 high,
        elim (or-cases _ _ form) [
          | inl p ↦ inl (pattern-Hostname (trim host) p)
          | inr e ↦ inr ((text_eq_iff _ _).0 e)
        ],
      ),
  λ h.
      both (both (le→leb 1 (length (trim host)) h.0) (le→leb (length (trim host)) 253 h.1))
        (either h.2),
)
  where
    either :
        Hostname (trim host) ⊎ (trim host ≡ codes "localhost")
        → (hostname_pattern (trim host) || text_eq (trim host) (codes "localhost")) ≡ true
    either (inl h) = rw (Hostname-pattern h) refl
    either (inr e) = let same = (text_eq_iff _ _).1 e in ground (arith, same)
