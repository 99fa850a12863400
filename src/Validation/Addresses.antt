-- ===== src/Validation/Addresses.antt =====
-- IPv4 text: what `isValidIpv4Cidr` accepts, and what `ipInCidr` decides about well-formed text.
use Prim.Native.Nat.{ℕ, suc, zero, ◌+◌, ◌-◌, ◌*◌, ◌/◌, ◌^◌, ◌≤◌, ◌<◌}
use native.Mathlib.Nat.{div-add-mod', pow-suc, eq_of_mul-eq-mul_right}
use mathlib.Core.Bool.{and-eq-true_iff}
use arka.Prelude.{
  ◌≡◌, refl, subst, sym, ap, ◌∙◌, ◌≢◌, ◌↔◌, true, false, Option, none, some, List, [], ◌∷◌, ◌++◌,
  arith, Text, split, split-append, split-Lacks, join, join-split, trim, trim-Solid, Solid, Lacks,
  Digit, parse_int, to_string, parse_int-to_string, to_string-Lacks, to_string-Digit, is_digit, ℤ,
  pos, negsuc, ◌==◌, ==_iff, le→leb, leb→le, text_eq_iff, text_eq_refl, length, all, All,
  All-append, All-map,
}
use arka.Validation.{
  octet_num_ok, octet_ok, prefix_ok, cidr_parts_ok, is_valid_ipv4_cidr, ip2long, clear_low,
  ip_in_cidr,
}

-- Four octets, each below 256.
pub record Quad : Type 0 where
  pub a : ℕ
  pub b : ℕ
  pub c : ℕ
  pub d : ℕ

pub record IsQuad (q : Quad) : Type 0 where
  pub a_le : q.a ≤ 255
  pub b_le : q.b ≤ 255
  pub c_le : q.c ≤ 255
  pub d_le : q.d ≤ 255

abbrev pub print_quad : Quad → Text
print_quad q =
    to_string q.a ++ b'.' ∷ (to_string q.b ++ b'.' ∷ (to_string q.c ++ b'.' ∷ to_string q.d))

-- "a.b.c.d/n"
abbrev pub print_cidr : Quad → ℕ → Text
print_cidr q n = print_quad q ++ b'/' ∷ to_string n

-- The address as a 32-bit number.
abbrev pub address : Quad → ℕ
address q = ((q.a * 256 + q.b) * 256 + q.c) * 256 + q.d

pub split-print_quad :
    (q : Quad)
    → split b'.' (print_quad q) ≡ to_string q.a ∷ to_string q.b ∷ to_string q.c ∷ to_string q.d ∷ []
split-print_quad q = simp (
  split-append b'.' (to_string q.a) _ (to_string-Lacks b'.' refl q.a),
  split-append b'.' (to_string q.b) _ (to_string-Lacks b'.' refl q.b),
  split-append b'.' (to_string q.c) _ (to_string-Lacks b'.' refl q.c),
  split-Lacks b'.' (to_string q.d) (to_string-Lacks b'.' refl q.d),
)

-- `ip2long` reads a dotted quad as its 32-bit number.
pub ip2long-print_quad : (q : Quad) → IsQuad q → ip2long (print_quad q) ≡ address q
unfolding ip2long
ip2long-print_quad q h =
    rw
      (
        split-print_quad q,
        parse_int-to_string,
        parse_int-to_string,
        parse_int-to_string,
        parse_int-to_string,
      )
      (omega arith)

pow_pos : (k : ℕ) → 0 < 2 ^ k
pow_pos zero = omega arith
pow_pos (suc k) = rw pow-suc (omega (arith, pow_pos k))

clear_low-eq-mul : (k x : ℕ) → clear_low k x ≡ x / 2 ^ k * 2 ^ k
unfolding clear_low
clear_low-eq-mul k x = omega (arith, div-add-mod' x (2 ^ k))

-- Two addresses agree above their k low bits exactly when their quotients by 2 ^ k are equal.
clear_low-eq_iff : (k x y : ℕ) → ((clear_low k x == clear_low k y) ≡ true) ↔ (x / 2 ^ k ≡ y / 2 ^ k)
clear_low-eq_iff k x y =
    rw (clear_low-eq-mul k x, clear_low-eq-mul k y)
      (
        λ h. eq_of_mul-eq-mul_right (2 ^ k) (pow_pos k) _ _ ((==_iff _ _).0 h),
        λ h. (==_iff _ _).1 (ap (λ t. t * 2 ^ k) h),
      )

-- `ip_in_cidr` at parts that are already read.
ip_in_cidr-split :
    (ip range bits : Text) {n : ℕ}
    → Lacks b'/' range
    → Lacks b'/' bits
    → parse_int bits ≡ some (pos n)
    → (ip_in_cidr ip (range ++ b'/' ∷ bits) ≡ true)
      ↔ (ip2long ip / 2 ^ (32 - n) ≡ ip2long range / 2 ^ (32 - n))
unfolding ip_in_cidr
ip_in_cidr-split ip range bits {n} hr hb e =
    rw (split-append b'/' range bits hr, split-Lacks b'/' bits hb, e)
      (clear_low-eq_iff (32 - n) (ip2long ip) (ip2long range))

pub print_quad-Lacks : (c : ℕ) (q : Quad) → is_digit c ≡ false → c ≢ b'.' → Lacks c (print_quad q)
print_quad-Lacks c q h p =
    let D = λ (n : ℕ). to_string-Lacks c h n in
    All-append (λ x. x ≢ c) (to_string q.a) _ (D q.a)
      (
        λ e. p (sym e),
        All-append (λ x. x ≢ c) (to_string q.b) _ (D q.b)
            (
              λ e. p (sym e),
              All-append (λ x. x ≢ c) (to_string q.c) _ (D q.c) (λ e. p (sym e), D q.d),
            ),
      )

-- For well-formed text, an address lies in a CIDR block of prefix length n exactly when the two
-- 32-bit numbers have the same first n bits.
pub ip_in_cidr-print_iff :
    (q r : Quad) (n : ℕ)
    → IsQuad q
    → IsQuad r
    → n ≤ 32
    → (ip_in_cidr (print_quad q) (print_cidr r n) ≡ true)
      ↔ (address q / 2 ^ (32 - n) ≡ address r / 2 ^ (32 - n))
ip_in_cidr-print_iff q r n hq hr hn =
    rw (← ip2long-print_quad q hq, ← ip2long-print_quad r hr)
      (ip_in_cidr-split (print_quad q) (print_quad r) (to_string n)
        (print_quad-Lacks b'/' r refl (omega arith)) (to_string-Lacks b'/' refl n)
        (parse_int-to_string n))

octet_ok-to_string : (n : ℕ) → n ≤ 255 → octet_ok (to_string n) ≡ true
unfolding octet_ok
octet_ok-to_string n h = rw (parse_int-to_string n, le→leb n 255 h) (text_eq_refl (to_string n))

Digit-Solid : (c : ℕ) → Digit c → Solid c
Digit-Solid c h = ground arith

pub to_string-Solid : (n : ℕ) → All Solid (to_string n)
to_string-Solid n = All-map Digit-Solid (to_string n) (to_string-Digit n)

print_cidr-Solid : (q : Quad) (n : ℕ) → All Solid (print_cidr q n)
print_cidr-Solid q n =
    All-append Solid (print_quad q) _
      (All-append Solid (to_string q.a) _ (to_string-Solid q.a) (
        refl,
        All-append Solid (to_string q.b) _ (to_string-Solid q.b) (
          refl,
          All-append Solid (to_string q.c) _ (to_string-Solid q.c) (refl, to_string-Solid q.d),
        ),
      ))
      (refl, to_string-Solid n)

-- Every printed block is accepted.
pub is_valid_ipv4_cidr-print_cidr :
    (q : Quad) (n : ℕ) → IsQuad q → n ≤ 32 → is_valid_ipv4_cidr (print_cidr q n) ≡ true
unfolding is_valid_ipv4_cidr
is_valid_ipv4_cidr-print_cidr q n h hn = rw (
  trim-Solid _ (print_cidr-Solid q n),
  split-append b'/' (print_quad q) (to_string n) (print_quad-Lacks b'/' q refl (omega arith)),
  split-Lacks b'/' (to_string n) (to_string-Lacks b'/' refl n),
  cidr_parts_ok,
  parse_int-to_string n,
  le→leb n 32 hn,
  split-print_quad q,
  octet_ok-to_string q.a h.a_le,
  octet_ok-to_string q.b h.b_le,
  octet_ok-to_string q.c h.c_le,
  octet_ok-to_string q.d h.d_le,
)

octet_num_ok_sound :
    (o : Text) (r : Option ℤ) → octet_num_ok o r ≡ true → (n : ℕ) × (n ≤ 255) × (o ≡ to_string n)
unfolding octet_num_ok
octet_num_ok_sound o none h = cc
octet_num_ok_sound o (some (negsuc n)) h = cc
octet_num_ok_sound o (some (pos n)) h =
    let (small, same) = (and-eq-true_iff _ _).0 h in (n, leb→le _ _ small, (text_eq_iff _ _).0 same)

octet_ok_sound : (o : Text) → octet_ok o ≡ true → (n : ℕ) × (n ≤ 255) × (o ≡ to_string n)
unfolding octet_ok
octet_ok_sound o h = octet_num_ok_sound o (parse_int o) h

octets_sound :
    (os : List Text)
    → (length os == 4) ≡ true
    → all octet_ok os ≡ true
    → (q : Quad) × IsQuad q × (join b'.' os ≡ print_quad q)
octets_sound (a ∷ b ∷ c ∷ d ∷ []) h k =
    let (ha, k1) = (and-eq-true_iff _ _).0 k in
    let (hb, k2) = (and-eq-true_iff _ _).0 k1 in
    let (hc, k3) = (and-eq-true_iff _ _).0 k2 in
    let (hd, _) = (and-eq-true_iff _ _).0 k3 in
    let (na, la, ea) = octet_ok_sound a ha in
    let (nb, lb, eb) = octet_ok_sound b hb in
    let (nc, lc, ec) = octet_ok_sound c hc in
    let (nd, ld, ed) = octet_ok_sound d hd in
    (
      record { a = na; b = nb; c = nc; d = nd },
      record { a_le = la; b_le = lb; c_le = lc; d_le = ld },
      rw (ea, eb, ec, ed),
    )
octets_sound [] h k = absurd (ground arith)
octets_sound (a ∷ []) h k = absurd (ground arith)
octets_sound (a ∷ b ∷ []) h k = absurd (ground arith)
octets_sound (a ∷ b ∷ c ∷ []) h k = absurd (ground arith)
octets_sound (a ∷ b ∷ c ∷ d ∷ e ∷ os) h k = absurd (ground arith)

prefix_ok_sound : (r : Option ℤ) → prefix_ok r ≡ true → (n : ℕ) × (n ≤ 32) × (r ≡ some (pos n))
unfolding prefix_ok
prefix_ok_sound (some (pos n)) h = (n, leb→le _ _ h, refl)
prefix_ok_sound (some (negsuc n)) h = cc
prefix_ok_sound none h = cc

-- What an accepted text is: a canonical quad, a slash and a prefix that reads as at most 32.
abbrev pub IsCidrText : Text → Type 0
IsCidrText t =
    (q : Quad) × (n : ℕ) × (bits : Text) × IsQuad q
    × (n ≤ 32)
    × (parse_int bits ≡ some (pos n))
    × (t ≡ print_quad q ++ b'/' ∷ bits)

cidr_parts_ok_sound :
    (parts : List Text) → cidr_parts_ok parts ≡ true → IsCidrText (join b'/' parts)
unfolding cidr_parts_ok
cidr_parts_ok_sound [] h = cc
cidr_parts_ok_sound (ip ∷ []) h = cc
cidr_parts_ok_sound (ip ∷ bits ∷ more ∷ rest) h = cc
cidr_parts_ok_sound (ip ∷ bits ∷ []) h =
    let (h1, octets) = (and-eq-true_iff _ _).0 h in
    let (hp, four) = (and-eq-true_iff _ _).0 h1 in
    let (n, small, read) = prefix_ok_sound (parse_int bits) hp in
    let (q, good, same) = octets_sound (split b'.' ip) four octets in
    (q, n, bits, good, small, read, ap (λ t. t ++ b'/' ∷ bits) (sym (join-split b'.' ip) ∙ same))

-- `is_valid_ipv4_cidr` accepts only a canonical dotted quad, each octet at most 255, with one
-- slash and a prefix text that `parseInt` reads as a number up to 32.
pub is_valid_ipv4_cidr_sound : (t : Text) → is_valid_ipv4_cidr t ≡ true → IsCidrText (trim t)
unfolding is_valid_ipv4_cidr
is_valid_ipv4_cidr_sound t h =
    subst IsCidrText (join-split b'/' (trim t)) (cidr_parts_ok_sound (split b'/' (trim t)) h)
