-- ===== src/Prelude/Strings.antt =====
-- JavaScript strings as lists of UTF-16 code units, and the methods of `String` that the source
-- calls. Letter case is that of ASCII.
use Prim.Native.Nat.{ℕ, suc, ◌+◌, ◌-◌}
use Prim.Native.Char.{code}
use Prim.Native.String.{String}
use mathlib.Core.Path.{◌≡◌, refl, ap, ap₂, ◌∙◌, sym}
use mathlib.Core.Logic.{inl, inr, ◌↔◌, ◌≢◌}
use mathlib.Core.Bool.{Bool, true, false, ◌||◌, ◌&&◌, and-eq-true_iff}
use mathlib.Core.List.{
  List, [], ◌∷◌, ◌++◌, map, reverse, reverse-cons, reverse-reverse, reverse-append,
}
use mathlib.Core.Option.{Option, none, some}
use native.Mathlib.Omega.{arith}
use arka.Prelude.Tests.{if◌then◌else◌, Bool-cases, ◌==◌, leb, ==_iff, ==_self}
use arka.Prelude.Lists.{All, All-append, length}

abbrev pub Text : Type 0
Text = List ℕ

-- The code units of a literal (every literal of the model is ASCII).
abbrev pub codes : String → Text
codes String.[] = []
codes (String.◌∷◌ c s) = code c ∷ codes s

-- `s === t`
abbrev pub text_eq : Text → Text → Bool
text_eq [] [] = true
text_eq (a ∷ s) (b ∷ t) = (a == b) && text_eq s t
text_eq _ _ = false

pub text_eq_iff : (s t : Text) → (text_eq s t ≡ true) ↔ (s ≡ t)
text_eq_iff [] [] = ground arith
text_eq_iff (a ∷ s) (b ∷ t) = ground (arith, text_eq_iff s t)
text_eq_iff [] (b ∷ t) = ground arith
text_eq_iff (a ∷ s) [] = ground arith

pub text_eq_refl : (s : Text) → text_eq s s ≡ true
text_eq_refl s = (text_eq_iff s s).1 refl

-- `!s`: the empty text is falsy
abbrev pub is_empty : Text → Bool
is_empty [] = true
is_empty (c ∷ s) = false

-- `o && …`, an optional text that is not empty
abbrev pub given : Option Text → Option Text
given none = none
given (some t) = if is_empty t then none else some t

-- `o === t` for an optional text
abbrev pub is_text : Option Text → Text → Bool
is_text none t = false
is_text (some s) t = text_eq s t

pub is_empty-ne : (t : Text) → is_empty t ≡ false → t ≢ []
is_empty-ne [] h = cc
is_empty-ne (c ∷ t) h = λ e. cc

-- The white space and line terminators that `trim` removes.
abbrev pub is_space : ℕ → Bool
is_space c =
    (leb 9 c && leb c 13)
    || c == 32
    || c == 160
    || c == 5760
    || (leb 8192 c && leb c 8202)
    || c == 8232
    || c == 8233
    || c == 8239
    || c == 8287
    || c == 12288
    || c == 65279

unfoldable pub trim_start : Text → Text
trim_start [] = []
trim_start (c ∷ s) = if is_space c then trim_start s else c ∷ s

unfoldable pub trim : Text → Text
unfolding trim_start
trim s = reverse (trim_start (reverse (trim_start s)))

abbrev pub to_lower_char : ℕ → ℕ
to_lower_char c = if leb b'A' c && leb c b'Z' then c + 32 else c

unfoldable pub to_lower_case : Text → Text
to_lower_case s = map to_lower_char s

abbrev pub to_upper_char : ℕ → ℕ
to_upper_char c = if leb b'a' c && leb c b'z' then c - 32 else c

unfoldable pub to_upper_case : Text → Text
to_upper_case s = map to_upper_char s

abbrev pub starts_with : Text → Text → Bool
starts_with s [] = true
starts_with [] (c ∷ p) = false
starts_with (b ∷ s) (c ∷ p) = (b == c) && starts_with s p

unfoldable pub ends_with : Text → Text → Bool
ends_with s p = starts_with (reverse s) (reverse p)

-- `s.includes(p)`
unfoldable pub includes : Text → Text → Bool
includes [] p = is_empty p
includes (c ∷ s) p = starts_with (c ∷ s) p || includes s p

abbrev pub has_char : ℕ → Text → Bool
has_char c [] = false
has_char c (d ∷ s) = (d == c) || has_char c s

-- `s.lastIndexOf(c)` for one code unit; `none` is -1.
unfoldable pub last_index_of : ℕ → Text → Option ℕ
last_index_of c [] = none
last_index_of c (d ∷ s) = elim (last_index_of c s) [
  | some i ↦ some (suc i)
  | none ↦ if d == c then some 0 else none
]

-- `s.split(c)` for one code unit: the text up to the first separator, and the later parts.
abbrev pub split_parts : ℕ → Text → Text × List Text
split_parts c [] = ([], [])
split_parts c (d ∷ s) =
    let (first, later) = split_parts c s in
    if d == c then ([], first ∷ later) else (d ∷ first, later)

unfoldable pub split : ℕ → Text → List Text
split c s = let (first, later) = split_parts c s in first ∷ later

-- No code unit of the text is the separator.
abbrev pub Lacks : ℕ → Text → Type 0
Lacks c s = All (λ d. d ≢ c) s

split_parts-Lacks : (c : ℕ) (s : Text) → Lacks c s → split_parts c s ≡ (s, [])
split_parts-Lacks c [] h = refl
split_parts-Lacks c (d ∷ s) (p, h) = rw (split_parts-Lacks c s h) (ground arith)

pub split-Lacks : (c : ℕ) (s : Text) → Lacks c s → split c s ≡ s ∷ []
unfolding split
split-Lacks c s h = rw (split_parts-Lacks c s h)

split_parts-append : (c : ℕ) (s t : Text) → Lacks c s → split_parts c (s ++ c ∷ t) ≡ (s, split c t)
unfolding split
split_parts-append c [] t h = rw (==_self c)
split_parts-append c (d ∷ s) t (p, h) = rw (split_parts-append c s t h) (ground arith)

pub split-append : (c : ℕ) (s t : Text) → Lacks c s → split c (s ++ c ∷ t) ≡ s ∷ split c t
unfolding split
split-append c s t h = rw (split_parts-append c s t h)

-- `parts.join(c)`
abbrev pub join : ℕ → List Text → Text
join c [] = []
join c (p ∷ []) = p
join c (p ∷ q ∷ ps) = p ++ c ∷ join c (q ∷ ps)

join-cons : (c d : ℕ) (p : Text) (ps : List Text) → join c ((d ∷ p) ∷ ps) ≡ d ∷ join c (p ∷ ps)
join-cons c d p [] = refl
join-cons c d p (q ∷ ps) = refl

-- Splitting loses nothing.
pub join-split : (c : ℕ) (s : Text) → join c (split c s) ≡ s
unfolding split
join-split c [] = refl
join-split c (d ∷ s) = elim (Bool-cases (d == c)) [
  | inl sep ↦ rw sep (ap (λ t. c ∷ t) (join-split c s) ∙ ap (λ k. k ∷ s) (sym ((==_iff d c).0 sep)))
  | inr other ↦
      rw other
        (join-cons c d (split_parts c s).0 (split_parts c s).1 ∙ ap (λ t. d ∷ t) (join-split c s))
]

abbrev pub Solid : ℕ → Type 0
Solid c = is_space c ≡ false

trim_start-Solid : (s : Text) → All Solid s → trim_start s ≡ s
unfolding trim_start
trim_start-Solid [] h = refl
trim_start-Solid (c ∷ s) (p, h) = rw p

All-reverse : (s : Text) → All Solid s → All Solid (reverse s)
All-reverse [] h = tt
All-reverse (c ∷ s) (p, h) =
    rw reverse-cons (All-append Solid (reverse s) (c ∷ []) (All-reverse s h) (p, tt))

-- A text with no white space in it is its own trim.
pub trim-Solid : (s : Text) → All Solid s → trim s ≡ s
unfolding trim
trim-Solid s h =
    rw (trim_start-Solid s h, trim_start-Solid (reverse s) (All-reverse s h)) (reverse-reverse s)

pub starts_with-append : (p t : Text) → starts_with (p ++ t) p ≡ true
starts_with-append [] [] = refl
starts_with-append [] (c ∷ t) = refl
starts_with-append (c ∷ p) t = rw (==_self c) (starts_with-append p t)

pub starts_with_sound : (s p : Text) → starts_with s p ≡ true → (t : Text) × (s ≡ p ++ t)
starts_with_sound s [] h = (s, refl)
starts_with_sound [] (c ∷ p) h = cc
starts_with_sound (b ∷ s) (c ∷ p) h =
    let (same, later) = (and-eq-true_iff _ _).0 h in
    let (t, e) = starts_with_sound s p later in (t, ap₂ ◌∷◌ ((==_iff b c).0 same) e)

pub ends_with-append : (t p : Text) → ends_with (t ++ p) p ≡ true
unfolding ends_with
ends_with-append t p = rw (reverse-append t p) (starts_with-append (reverse p) (reverse t))

-- A text ends with `p` exactly when it is some text followed by `p`.
pub ends_with_sound : (s p : Text) → ends_with s p ≡ true → (t : Text) × (s ≡ t ++ p)
unfolding ends_with
ends_with_sound s p h =
    let (t, e) = starts_with_sound (reverse s) (reverse p) h in
    (
      reverse t,
      sym (reverse-reverse s)
          ∙ ap reverse e
          ∙ reverse-append (reverse p) t
          ∙ ap (λ u. reverse t ++ u) (reverse-reverse p),
    )

pub has_char-Lacks : (c : ℕ) (s : Text) → Lacks c s → has_char c s ≡ false
has_char-Lacks c [] h = refl
has_char-Lacks c (d ∷ s) (p, h) = ground (arith, has_char-Lacks c s h)

pub has_char-append : (c : ℕ) (s t : Text) → has_char c (s ++ c ∷ t) ≡ true
has_char-append c [] t = rw (==_self c)
has_char-append c (d ∷ s) t = ground (arith, has_char-append c s t)

last_index_of-Lacks : (c : ℕ) (s : Text) → Lacks c s → last_index_of c s ≡ none
unfolding last_index_of
last_index_of-Lacks c [] h = refl
last_index_of-Lacks c (d ∷ s) (p, h) = rw (last_index_of-Lacks c s h) (ground arith)

-- The last separator is the one before a text that has none.
pub last_index_of-append :
    (c : ℕ) (s t : Text) → Lacks c t → last_index_of c (s ++ c ∷ t) ≡ some (length s)
unfolding last_index_of
last_index_of-append c [] t h = rw (last_index_of-Lacks c t h, ==_self c)
last_index_of-append c (d ∷ s) t h = rw (last_index_of-append c s t h)

pub starts_with-Lacks : (c : ℕ) (s : Text) → Lacks c s → starts_with s (c ∷ []) ≡ false
starts_with-Lacks c [] h = refl
starts_with-Lacks c (d ∷ s) (p, h) = ground arith
