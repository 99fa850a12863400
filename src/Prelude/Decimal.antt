-- ===== src/Prelude/Decimal.antt =====
-- Decimal text: `n.toString()` for an integer, and `parseInt(s, 10)`.
use Prim.Native.Nat.{ℕ, zero, suc, ◌+◌, ◌-◌, ◌*◌, ◌/◌, ◌%◌, ◌<◌}
use mathlib.Core.Path.{◌≡◌, ◌∙◌, ap}
use mathlib.Core.Logic.{◌≢◌, inl, inr}
use mathlib.Core.Bool.{Bool, true, false, ◌&&◌}
use mathlib.Core.List.{[], ◌∷◌}
use mathlib.Core.Option.{Option, none, some}
use mathlib.Core.Option
use native.Mathlib.Omega.{arith}
use arka.Prelude.Tests.{if◌then◌else◌, Bool-cases, ◌==◌, leb, ltb}
use arka.Prelude.Lists.{All, All-map}
use arka.Prelude.Int.{ℤ, pos, negsuc}
use arka.Prelude.Strings.{Text, is_space, trim_start, Lacks}

-- The digits of `n` in front of `rest`, on fuel; any fuel above `n` is enough (`to_digits-suc`).
unfoldable pub to_digits : ℕ → ℕ → Text → Text
to_digits zero n rest = rest
to_digits (suc f) n rest =
    let more = to_digits f (n / 10) ((48 + n % 10) ∷ rest) in
    if ltb n 10 then (48 + n) ∷ rest else more

unfoldable pub to_string : ℕ → Text
unfolding to_digits
to_string n = to_digits (suc n) n []

unfoldable pub int_to_string : ℤ → Text
unfolding to_string
int_to_string (pos n) = to_string n
int_to_string (negsuc n) = b'-' ∷ to_string (n + 1)

abbrev pub is_digit : ℕ → Bool
is_digit c = leb b'0' c && leb c b'9'

-- The number of the longest run of digits, after digits that stand for `acc`.
unfoldable pub digits_value : ℕ → Text → ℕ
digits_value acc [] = acc
digits_value acc (c ∷ s) =
    let rest = digits_value (acc * 10 + (c - 48)) s in if is_digit c then rest else acc

abbrev pub starts_with_digit : Text → Bool
starts_with_digit [] = false
starts_with_digit (c ∷ s) = is_digit c

-- `none` is NaN: there is no digit to read.
unfoldable pub parse_digits : Text → Option ℕ
unfolding digits_value
parse_digits s = if starts_with_digit s then some (digits_value 0 s) else none

-- -0 is 0.
abbrev pub negate : ℕ → ℤ
negate zero = pos 0
negate (suc n) = negsuc n

unfoldable pub parse_signed : Text → Option ℤ
unfolding parse_digits
parse_signed [] = none
parse_signed (c ∷ s) =
    if c == b'-'
    then Option.map negate (parse_digits s)
    else if c == b'+'
    then Option.map pos (parse_digits s)
    else Option.map pos (parse_digits (c ∷ s))

-- `parseInt(s, 10)`: leading white space, a sign, then the longest run of digits.
unfoldable pub parse_int : Text → Option ℤ
unfolding parse_signed trim_start
parse_int s = parse_signed (trim_start s)

abbrev pub Digit : ℕ → Type 0
Digit c = is_digit c ≡ true

to_digits-Digit : (f n : ℕ) (rest : Text) → All Digit rest → All Digit (to_digits f n rest)
unfolding to_digits
to_digits-Digit zero n rest h = h
to_digits-Digit (suc f) n rest h = elim (Bool-cases (ltb n 10)) [
  | inl small ↦ rw small (ground arith, h)
  | inr large ↦ rw large (to_digits-Digit f (n / 10) ((48 + n % 10) ∷ rest) (ground arith, h))
]

pub to_string-Digit : (n : ℕ) → All Digit (to_string n)
unfolding to_string
to_string-Digit n = to_digits-Digit (suc n) n [] tt

is_digit-add : (n : ℕ) → n < 10 → is_digit (48 + n) ≡ true
is_digit-add n h = ground arith

digits_value-digit :
    (n : ℕ) (rest : Text) → n < 10 → digits_value 0 ((48 + n) ∷ rest) ≡ digits_value n rest
unfolding digits_value
digits_value-digit n rest h = rw (is_digit-add n h) (ap (λ k. digits_value k rest) (omega arith))

digits_value-last :
    (n : ℕ) (rest : Text) → digits_value (n / 10) ((48 + n % 10) ∷ rest) ≡ digits_value n rest
unfolding digits_value
digits_value-last n rest =
    rw (is_digit-add (n % 10) (omega arith)) (ap (λ k. digits_value k rest) (omega arith))

digits_value-to_digits :
    (f n : ℕ) (rest : Text) → n < f → digits_value 0 (to_digits f n rest) ≡ digits_value n rest
unfolding to_digits digits_value
digits_value-to_digits zero n rest h = elim h [ ]
digits_value-to_digits (suc f) n rest h = elim (Bool-cases (ltb n 10)) [
  | inl small ↦ rw small (digits_value-digit n rest (ground arith))
  | inr large ↦ rw large (
      digits_value-to_digits f (n / 10) ((48 + n % 10) ∷ rest) (ground arith)
      ∙ digits_value-last n rest)
]

starts_with_digit-to_digits :
    (f n : ℕ) (rest : Text) → n < f → starts_with_digit (to_digits f n rest) ≡ true
unfolding to_digits
starts_with_digit-to_digits zero n rest h = elim h [ ]
starts_with_digit-to_digits (suc f) n rest h = elim (Bool-cases (ltb n 10)) [
  | inl small ↦ rw small (ground arith)
  | inr large ↦
      rw large (starts_with_digit-to_digits f (n / 10) ((48 + n % 10) ∷ rest) (ground arith))
]

pub parse_digits-to_string : (n : ℕ) → parse_digits (to_string n) ≡ some n
unfolding parse_digits to_string
parse_digits-to_string n = rw (
  starts_with_digit-to_digits (suc n) n [] (omega arith),
  digits_value-to_digits (suc n) n [] (omega arith),
)

-- A text that begins with a digit has no white space or sign to skip.
parse_int-digits :
    (s : Text) → starts_with_digit s ≡ true → parse_int s ≡ Option.map pos (parse_digits s)
unfolding parse_int
parse_int-digits [] h = cc
parse_int-digits (c ∷ s) h =
    let solid : is_space c ≡ false = ground arith in
    let unsigned : ((c == b'-') ≡ false) × ((c == b'+') ≡ false) = ground arith in
    rw (solid, parse_signed, unsigned.0, unsigned.1)

-- `parseInt` reads back what `toString` writes.
pub parse_int-to_string : (n : ℕ) → parse_int (to_string n) ≡ some (pos n)
parse_int-to_string n =
    parse_int-digits (to_string n)
      (unfold to_string in starts_with_digit-to_digits (suc n) n [] (omega arith))
    ∙ rw (parse_digits-to_string n)

-- Printed numbers hold no separator.
pub to_string-Lacks : (c : ℕ) → is_digit c ≡ false → (n : ℕ) → Lacks c (to_string n)
to_string-Lacks c h n =
    All-map {Q = λ d. d ≢ c} (λ d k e. digit-ne c d h k e) (to_string n) (to_string-Digit n)
  where
    digit-ne : (c d : ℕ) → is_digit c ≡ false → Digit d → d ≢ c
    digit-ne c d h k e = ground arith
