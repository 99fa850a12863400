-- ===== src/Tests/Scope.antt =====
-- The theorems on scope input at concrete addresses and rules.
use Prim.Native.Nat.{◌/◌, ◌^◌, ◌-◌}
use arka.Prelude.{
  ◌≤◌, ◌⊎◌, length, ◌≡◌, ◌↔◌, refl, inl, true, none, some, [], ◌∷◌, codes, pos, trim, to_lower_case,
  last_index_of, parse_int, arith,
}
use arka.Validation.Hostnames.{Hostname, is_valid_hostname_iff}
use arka.Validation.{
  is_valid_hostname, ExclusionRules, rules, scope, exclusion_rules, is_target_excluded, ip_in_cidr,
  is_valid_ipv4_cidr,
}
use arka.Validation.Addresses.{
  Quad, IsQuad, print_quad, print_cidr, address, IsCidrText, ip_in_cidr-print_iff,
  is_valid_ipv4_cidr-print_cidr, is_valid_ipv4_cidr_sound,
}
use arka.Validation.Exclusions.{
  Applies, subject, add_rules, is_target_excluded_iff, is_target_excluded-add_rules,
}
use arka.Validation.Covered.{print_endpoint, covered_is_excluded}

abbrev inside : Quad
inside = record { a = 10; b = 0; c = 7; d = 9 }

abbrev block : Quad
block = record { a = 10; b = 0; c = 0; d = 0 }

abbrev inside-IsQuad : IsQuad inside
inside-IsQuad = record {
  a_le = omega arith;
  b_le = omega arith;
  c_le = omega arith;
  d_le = omega arith;
}

abbrev block-IsQuad : IsQuad block
block-IsQuad = record {
  a_le = omega arith;
  b_le = omega arith;
  c_le = omega arith;
  d_le = omega arith;
}

abbrev blocked : ExclusionRules
blocked = record {
  cidr_blocks = some (print_cidr block 16 ∷ []);
  hostnames = some (codes "*.Prod.example" ∷ []);
  ports = some (pos 22 ∷ []);
  rationale = none;
}

ip_in_cidr-print_iff_example :
    (ip_in_cidr (print_quad inside) (print_cidr block 16) ≡ true)
    ↔ (address inside / 2 ^ (32 - 16) ≡ address block / 2 ^ (32 - 16))
ip_in_cidr-print_iff_example =
    ip_in_cidr-print_iff inside block 16 inside-IsQuad block-IsQuad (omega arith)

block_accepted : is_valid_ipv4_cidr (print_cidr block 16) ≡ true
block_accepted = is_valid_ipv4_cidr-print_cidr block 16 block-IsQuad (omega arith)

is_valid_ipv4_cidr_sound_example : IsCidrText (trim (print_cidr block 16))
is_valid_ipv4_cidr_sound_example = is_valid_ipv4_cidr_sound (print_cidr block 16) block_accepted

covered_is_excluded_example :
    ((is_target_excluded (print_quad inside) (scope blocked) none).excluded ≡ true)
    × ((is_target_excluded (print_endpoint inside 443) (scope blocked) none).excluded ≡ true)
unfolding exclusion_rules
covered_is_excluded_example =
    covered_is_excluded inside block 16 443 (scope blocked) inside-IsQuad block-IsQuad (omega arith)
      (inl refl) refl (omega arith) (omega arith)

is_target_excluded_iff_example :
    ((is_target_excluded (codes " db.PROD.example:5432") (rules blocked) none).excluded ≡ true)
    ↔ Applies
        (subject (codes " db.PROD.example:5432") none).0
        (subject (codes " db.PROD.example:5432") none).1
        (exclusion_rules (rules blocked))
is_target_excluded_iff_example =
    is_target_excluded_iff (codes " db.PROD.example:5432") (rules blocked) none

by_port : (is_target_excluded (codes "x:22") (rules blocked) none).excluded ≡ true
unfolding is_target_excluded to_lower_case trim last_index_of parse_int exclusion_rules
by_port = refl

is_target_excluded-add_rules_example :
    (is_target_excluded
      (codes "x:22")
      (scope (add_rules blocked (pos 23 ∷ []) [] (codes "1.2.3.4" ∷ [])))
      none).excluded
    ≡ true
is_target_excluded-add_rules_example =
    is_target_excluded-add_rules (codes "x:22") blocked none (pos 23 ∷ []) [] (codes "1.2.3.4" ∷ [])
      by_port

is_valid_hostname_iff_example : (is_valid_hostname (codes "*.db-1.example.org") ≡ true) ↔ (
    (1 ≤ length (trim (codes "*.db-1.example.org")))
    × (length (trim (codes "*.db-1.example.org")) ≤ 253)
    × (Hostname (trim (codes "*.db-1.example.org"))
        ⊎ (trim (codes "*.db-1.example.org") ≡ codes "localhost")))
is_valid_hostname_iff_example = is_valid_hostname_iff (codes "*.db-1.example.org")
