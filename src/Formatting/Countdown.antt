-- ===== src/Formatting/Countdown.antt =====
-- frontend/src/utils/formatting.ts: the countdown of an approval, read back.
use arka.Prelude.{
  ℕ, ◌+◌, ◌-◌, ◌*◌, ◌/◌, ◌%◌, ◌<◌, ◌≤◌, Option, none, some, List, [], ◌∷◌, ◌++◌, Text, codes, ◌≡◌,
  ap, refl, split, split-append, split-Lacks, parse_digits, parse_digits-to_string, to_string,
  to_string-Lacks, Lacks, leb, Bool-cases, inl, inr, leb→le, ◌⊎◌, arith, digits_value,
}
use arka.Formatting.{format_countdown, pad_start}

seconds : Option ℕ → Option ℕ → Option ℕ
seconds (some m) (some s) = some (m * 60 + s)
seconds _ _ = none

read_parts : List Text → Option ℕ
unfolding seconds
read_parts (m ∷ s ∷ []) = seconds (parse_digits m) (parse_digits s)
read_parts _ = none

-- The seconds that a text `mm:ss` stands for
pub read_countdown : Text → Option ℕ
unfolding read_parts
read_countdown t = read_parts (split b':' t)

parse_digits-pad_start :
    (s : Text) (n : ℕ) → parse_digits s ≡ some n → parse_digits (pad_start s) ≡ some n
unfolding pad_start parse_digits digits_value
parse_digits-pad_start [] n h = ground arith
parse_digits-pad_start (c ∷ []) n h = ground arith
parse_digits-pad_start (c ∷ d ∷ s) n h = h

pad_start-Lacks : (s : Text) → Lacks b':' s → Lacks b':' (pad_start s)
unfolding pad_start
pad_start-Lacks [] h = ((λ e. omega arith), ((λ e. omega arith), tt))
pad_start-Lacks (c ∷ []) h = ((λ e. omega arith), h)
pad_start-Lacks (c ∷ d ∷ s) h = h

pad_start-number : (n : ℕ) → parse_digits (pad_start (to_string n)) ≡ some n
pad_start-number n = parse_digits-pad_start (to_string n) n (parse_digits-to_string n)

number-Lacks : (n : ℕ) → Lacks b':' (pad_start (to_string n))
number-Lacks n = pad_start-Lacks (to_string n) (to_string-Lacks b':' refl n)

read_countdown-parts :
    (m s : ℕ)
    → read_countdown (pad_start (to_string m) ++ b':' ∷ pad_start (to_string s)) ≡ some (m * 60 + s)
unfolding read_countdown read_parts seconds
read_countdown-parts m s = rw (
  split-append b':' (pad_start (to_string m)) (pad_start (to_string s)) (number-Lacks m),
  split-Lacks b':' (pad_start (to_string s)) (number-Lacks s),
  read_parts,
  pad_start-number m,
  pad_start-number s,
)

-- A countdown is EXPIRED from the second of the expiry on; before it, its minutes and seconds are
-- the time that is left.
pub format_countdown_lem :
    (date_now expires : ℕ)
    → ((expires ≤ date_now / 1000) × (format_countdown date_now expires ≡ codes "EXPIRED"))
      ⊎ ((date_now / 1000 < expires)
          × (read_countdown (format_countdown date_now expires) ≡ some (expires - date_now / 1000)))
unfolding format_countdown
format_countdown_lem date_now expires = elim (Bool-cases (leb expires (date_now / 1000))) [
  | inl late ↦ inl (leb→le expires (date_now / 1000) late, rw late)
  | inr early ↦ inr (
    ground arith,
    rw
        (
          early,
          read_countdown-parts ((expires - date_now / 1000) / 60)
              ((expires - date_now / 1000) % 60),
        )
        (ap some (omega arith)),
  )
]
