-- ===== src/Validation/Covered.antt =====
-- `isTargetExcluded` at address text, with and without a port behind a colon.
use Prim.Native.Nat.{ℕ, ◌/◌, ◌^◌, ◌-◌, ◌≤◌}
use arka.Prelude.{
  ◌≡◌, ◌≢◌, refl, starts_with-Lacks, ap, ◌∙◌, inr, true, Option, none, some, [], ◌∷◌, ◌++◌, arith,
  Text, ℤ, pos, Any, or_else, trim, trim-Solid, to_lower_case, to_lower_char, Solid, All,
  All-append, All-map, Digit, to_string, to_string-Digit, to_string-Lacks, Lacks, has_char-Lacks,
  has_char-append, last_index_of-append, take-append, drop-append, length, parse_int-to_string,
  le→leb, Any-map,
}
use arka.Validation.{
  ScopeOrExclusions, exclusion_rules, extract_port, cut_port, cut_last, is_valid_port,
  is_target_excluded, ip_in_cidr,
}
use arka.Validation.Addresses.{
  Quad, IsQuad, print_quad, print_cidr, address, ip_in_cidr-print_iff, print_quad-Lacks,
}
use arka.Validation.Exclusions.{Applies, subject, is_target_excluded_iff}

-- Text that trimming and lower case leave alone.
abbrev Clean : ℕ → Type 0
Clean c = Solid c × (to_lower_char c ≡ c)

lower-Clean : (s : Text) → All Clean s → to_lower_case s ≡ s
unfolding to_lower_case
lower-Clean [] h = refl
lower-Clean (c ∷ s) ((_, p), h) = cc (p, lower-Clean s h)

lower-trim-Clean : (s : Text) → All Clean s → to_lower_case (trim s) ≡ s
lower-trim-Clean s h = ap to_lower_case (trim-Solid s (All-map (λ c p. p.0) s h)) ∙ lower-Clean s h

to_string-Clean : (n : ℕ) → All Clean (to_string n)
to_string-Clean n = All-map Digit-Clean (to_string n) (to_string-Digit n)
  where
    Digit-Clean : (c : ℕ) → Digit c → Clean c
    Digit-Clean c h = ground arith

print_quad-Clean : (q : Quad) → All Clean (print_quad q)
print_quad-Clean q = All-append Clean (to_string q.a) _ (to_string-Clean q.a) (
  (refl, refl),
  All-append Clean (to_string q.b) _ (to_string-Clean q.b) (
    (refl, refl),
    All-append Clean (to_string q.c) _ (to_string-Clean q.c) ((refl, refl), to_string-Clean q.d),
  ),
)

-- "a.b.c.d:p"
abbrev pub print_endpoint : Quad → ℕ → Text
print_endpoint q p = print_quad q ++ b':' ∷ to_string p

subject-print_quad : (q : Quad) → subject (print_quad q) none ≡ (print_quad q, none)
unfolding extract_port
subject-print_quad q = rw (
  lower-trim-Clean (print_quad q) (print_quad-Clean q),
  has_char-Lacks b':' (print_quad q) (print_quad-Lacks b':' q refl (omega arith)),
)

endpoint-Lacks : (q : Quad) (p : ℕ) → Lacks b'[' (print_endpoint q p)
endpoint-Lacks q p =
    All-append (λ c. c ≢ b'[') (print_quad q) _ (print_quad-Lacks b'[' q refl (omega arith))
      ((λ e. omega arith), to_string-Lacks b'[' refl p)

cut_last-print_endpoint :
    (q : Quad) (p : ℕ)
    → 1 ≤ p
    → p ≤ 65535
    → cut_last (print_endpoint q p) none (some (length (print_quad q)))
      ≡ (print_quad q, some (pos p))
unfolding cut_last
cut_last-print_endpoint q p lo hi =
    rw
      (
        drop-append (print_quad q) b':' (to_string p),
        parse_int-to_string p,
        cut_port,
        is_valid_port,
        le→leb 1 p lo,
        le→leb p 65535 hi,
      )
      (ap (λ t. (t, some (pos p))) (take-append (print_quad q) (b':' ∷ to_string p)))

subject-print_endpoint :
    (q : Quad) (p : ℕ)
    → 1 ≤ p
    → p ≤ 65535
    → subject (print_endpoint q p) none ≡ (print_quad q, some (pos p))
unfolding extract_port
subject-print_endpoint q p lo hi =
    rw
      (
        lower-trim-Clean (print_endpoint q p) (
            All-append Clean (print_quad q) _ (print_quad-Clean q)
              ((refl, refl), to_string-Clean p)),
        has_char-append b':' (print_quad q) (to_string p),
        starts_with-Lacks b'[' (print_endpoint q p) (endpoint-Lacks q p),
        last_index_of-append b':' (print_quad q) (to_string p) (to_string-Lacks b':' refl p),
      )
      (cut_last-print_endpoint q p lo hi)

-- The block is one of the excluded ones, in its canonical text.
abbrev pub Listed : Quad → ℕ → ScopeOrExclusions → Type 0
Listed r n s = Any (λ c. c ≡ print_cidr r n) (or_else (exclusion_rules s).cidr_blocks [])

abbrev pub Covers : Quad → ℕ → Quad → Type 0
Covers r n q = address q / 2 ^ (32 - n) ≡ address r / 2 ^ (32 - n)

Listed-Applies :
    (q r : Quad) (n : ℕ) (s : ScopeOrExclusions) (port : Option ℤ)
    → IsQuad q
    → IsQuad r
    → n ≤ 32
    → Listed r n s
    → Covers r n q
    → Applies (print_quad q) port (exclusion_rules s)
Listed-Applies q r n s port hq hr hn listed covers =
    inr (inr (Any-map (λ c e. at_block c e) _ listed))
  where
    at_block : (c : Text) → c ≡ print_cidr r n → ip_in_cidr (print_quad q) c ≡ true
    at_block c e = rw e ((ip_in_cidr-print_iff q r n hq hr hn).1 covers)

-- An IPv4 address in canonical text that lies in a block which the exclusions list in canonical text
-- is excluded, written alone or with a colon and a port from 1 to 65535 behind it.
pub covered_is_excluded :
    (q r : Quad) (n p : ℕ) (s : ScopeOrExclusions)
    → IsQuad q
    → IsQuad r
    → n ≤ 32
    → Listed r n s
    → Covers r n q
    → 1 ≤ p
    → p ≤ 65535
    → ((is_target_excluded (print_quad q) s none).excluded ≡ true)
      × ((is_target_excluded (print_endpoint q p) s none).excluded ≡ true)
covered_is_excluded q r n p s hq hr hn listed covers lo hi = (
  (is_target_excluded_iff (print_quad q) s none).1
      (rw (subject-print_quad q) (Listed-Applies q r n s none hq hr hn listed covers)),
  (is_target_excluded_iff (print_endpoint q p) s none).1 (
      rw (subject-print_endpoint q p lo hi)
        (Listed-Applies q r n s (some (pos p)) hq hr hn listed covers)),
)
