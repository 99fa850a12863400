-- ===== src/Prelude/Lists.antt =====
-- Lists measured and indexed by native numbers, and the array methods that the source calls.
use Prim.Native.Nat.{ℕ, zero, suc, ◌+◌, ◌-◌, ◌≤◌, min}
use mathlib.Core.Path.{◌≡◌, refl, sym, ap, ◌∙◌, subst}
use mathlib.Core.Logic.{◌⊎◌, inl, inr}
use mathlib.Core.Bool.{Bool, true, false, ◌||◌, ◌&&◌, and-eq-true_iff}
use mathlib.Core.List.{List, [], ◌∷◌, ◌++◌}
use mathlib.Core.Option.{Option, none, some}
use native.Mathlib.Omega.{arith}
use arka.Prelude.Tests.{if◌then◌else◌, Bool-cases}

module _ {ℓ} {A : Type ℓ} where
  abbrev pub length : List A → ℕ
  length [] = 0
  length (x ∷ xs) = suc (length xs)

  abbrev pub take : ℕ → List A → List A
  take zero xs = []
  take (suc n) [] = []
  take (suc n) (x ∷ xs) = x ∷ take n xs

  abbrev pub drop : ℕ → List A → List A
  drop zero xs = xs
  drop (suc n) [] = []
  drop (suc n) (x ∷ xs) = drop n xs

  pub length-append : (xs ys : List A) → length (xs ++ ys) ≡ length xs + length ys
  length-append [] ys = omega arith
  length-append (x ∷ xs) ys = omega (arith, length-append xs ys)

  pub length-take : (n : ℕ) (xs : List A) → length (take n xs) ≡ min n (length xs)
  length-take zero xs = omega arith
  length-take (suc n) [] = omega arith
  length-take (suc n) (x ∷ xs) = omega (arith, length-take n xs)

  pub length-drop : (n : ℕ) (xs : List A) → length (drop n xs) ≡ length xs - n
  length-drop zero xs = omega arith
  length-drop (suc n) [] = omega arith
  length-drop (suc n) (x ∷ xs) = omega (arith, length-drop n xs)

  -- Array.prototype.filter with a Boolean test
  abbrev pub filter : (A → Bool) → List A → List A
  filter p [] = []
  filter p (x ∷ xs) = if p x then x ∷ filter p xs else filter p xs

  -- Array.prototype.some and every
  abbrev pub any : (A → Bool) → List A → Bool
  any p [] = false
  any p (x ∷ xs) = p x || any p xs

  abbrev pub all : (A → Bool) → List A → Bool
  all p [] = true
  all p (x ∷ xs) = p x && all p xs

  -- Array.prototype.find
  abbrev pub find : (A → Bool) → List A → Option A
  find p [] = none
  find p (x ∷ xs) = if p x then some x else find p xs

  -- `xs[0]`
  abbrev pub head? : List A → Option A
  head? [] = none
  head? (x ∷ xs) = some x

module _ {ℓ κ} {A : Type ℓ} (P : A → Type κ) where
  abbrev pub All : List A → Type κ
  All [] = Unit
  All (x ∷ xs) = P x × All xs

-- Some element has the property, at a place that can be read off.
abbrev pub Any {ℓ} : {A : Type ℓ} → (A → Type 0) → List A → Type 0
Any P [] = ⊥
Any P (x ∷ xs) = P x ⊎ Any P xs

module _ {ℓ} {A : Type ℓ} (p : A → Bool) where
  pub any_sound : (xs : List A) → any p xs ≡ true → Any (λ x. p x ≡ true) xs
  any_sound [] h = cc
  any_sound (x ∷ xs) h = elim (Bool-cases (p x)) [
    | inl here ↦ inl here
    | inr skip ↦ inr (any_sound xs (ground arith))
  ]

  pub any_complete : (xs : List A) → Any (λ x. p x ≡ true) xs → any p xs ≡ true
  any_complete [] h = elim h [ ]
  any_complete (x ∷ xs) (inl h) = rw h
  any_complete (x ∷ xs) (inr h) = ground (arith, any_complete xs h)

  pub all_sound : (xs : List A) → all p xs ≡ true → All (λ x. p x ≡ true) xs
  all_sound [] h = tt
  all_sound (x ∷ xs) h = let (here, later) = (and-eq-true_iff _ _).0 h in (here, all_sound xs later)

  pub all_complete : (xs : List A) → All (λ x. p x ≡ true) xs → all p xs ≡ true
  all_complete [] h = refl
  all_complete (x ∷ xs) (h, t) = rw (h, all_complete xs t)

  pub any-append : (xs ys : List A) → any p (xs ++ ys) ≡ (any p xs || any p ys)
  any-append [] ys = refl
  any-append (x ∷ xs) ys = ground (arith, any-append xs ys)

  -- What a filter keeps passes its test.
  pub filter-All : (xs : List A) → All (λ x. p x ≡ true) (filter p xs)
  filter-All [] = tt
  filter-All (x ∷ xs) = elim (Bool-cases (p x)) [
    | inl kept ↦ rw kept (kept, filter-All xs)
    | inr gone ↦ rw gone (filter-All xs)
  ]

  pub length-filter-le : (xs : List A) → length (filter p xs) ≤ length xs
  length-filter-le [] = omega arith
  length-filter-le (x ∷ xs) = ground (arith, length-filter-le xs)

  -- A filter whose test every element passes changes nothing.
  pub filter_keeps : (xs : List A) → All (λ x. p x ≡ true) xs → filter p xs ≡ xs
  filter_keeps [] h = refl
  filter_keeps (x ∷ xs) (h, t) = rw (h, filter_keeps xs t)

  -- A filter by an equal test is the same.
  pub filter_same :
      (q : A → Bool) → ((x : A) → p x ≡ q x) → (xs : List A) → filter p xs ≡ filter q xs
  filter_same q h [] = refl
  filter_same q h (x ∷ xs) = rw (h x, filter_same q h xs)

  pub find_sound : (xs : List A) {a : A} → find p xs ≡ some a → p a ≡ true
  find_sound [] h = cc
  find_sound (x ∷ xs) h = elim (Bool-cases (p x)) [
    | inl here ↦ ground arith
    | inr skip ↦ find_sound xs (rw skip at h)
  ]

pub Any-map {ℓ} :
    {A : Type ℓ} {P Q : A → Type 0} (f : (a : A) → P a → Q a) (xs : List A) → Any P xs → Any Q xs
Any-map f [] h = h
Any-map f (x ∷ xs) (inl h) = inl (f x h)
Any-map f (x ∷ xs) (inr h) = inr (Any-map f xs h)

pub All-map {ℓ κ ι} :
    {A : Type ℓ} {P : A → Type κ} {Q : A → Type ι} (f : (a : A) → P a → Q a) (xs : List A)
    → All P xs
    → All Q xs
All-map f [] h = tt
All-map f (x ∷ xs) (h, t) = (f x h, All-map f xs t)

pub All-append {ℓ κ} :
    {A : Type ℓ} (P : A → Type κ) (xs ys : List A) → All P xs → All P ys → All P (xs ++ ys)
All-append P [] ys h k = k
All-append P (x ∷ xs) ys (h, t) k = (h, All-append P xs ys t k)

pub All-filter {ℓ κ} :
    {A : Type ℓ} (P : A → Type κ) (p : A → Bool) (xs : List A) → All P xs → All P (filter p xs)
All-filter P p [] h = tt
All-filter P p (x ∷ xs) (h, t) = elim (Bool-cases (p x)) [
  | inl kept ↦ rw kept (h, All-filter P p xs t)
  | inr gone ↦ rw gone (All-filter P p xs t)
]

pub any-All-false {ℓ} :
    {A : Type ℓ} (p : A → Bool) (xs : List A) → All (λ x. p x ≡ false) xs → any p xs ≡ false
any-All-false p [] h = refl
any-All-false p (x ∷ xs) (h, t) = rw (h, any-All-false p xs t)

pub take-append {ℓ} : {A : Type ℓ} (xs ys : List A) → take (length xs) (xs ++ ys) ≡ xs
take-append [] ys = refl
take-append (x ∷ xs) ys = rw (take-append xs ys)

pub drop-append {ℓ} :
    {A : Type ℓ} (xs : List A) (y : A) (ys : List A) → drop (suc (length xs)) (xs ++ y ∷ ys) ≡ ys
drop-append [] y ys = refl
drop-append (x ∷ xs) y ys = drop-append xs y ys

-- `xs.includes(a)` finds an element that is there.
pub any-Any {ℓ} :
    {A : Type ℓ} (P : A → Type 0) (p : A → Bool) (f : (a : A) → P a → p a ≡ true) (xs : List A)
    → Any P xs
    → any p xs ≡ true
any-Any P p f xs h = any_complete p xs (Any-map f xs h)

take-nil {ℓ} : {A : Type ℓ} (n : ℕ) → take {A = A} n [] ≡ []
take-nil zero = refl
take-nil (suc n) = refl

drop-nil {ℓ} : {A : Type ℓ} (n : ℕ) → drop {A = A} n [] ≡ []
drop-nil zero = refl
drop-nil (suc n) = refl

-- A prefix in two pieces.
pub take-add {ℓ} :
    {A : Type ℓ} (m n : ℕ) (xs : List A) → take (m + n) xs ≡ take m xs ++ take n (drop m xs)
take-add zero n xs = ap (λ k. take k xs) (omega arith)
take-add (suc m) n [] = take-nil (suc m + n) ∙ sym (take-nil n)
take-add (suc m) n (x ∷ xs) =
    let e : suc m + n ≡ suc (m + n) = omega arith in rw e (ap (λ t. x ∷ t) (take-add m n xs))

pub drop-drop {ℓ} : {A : Type ℓ} (m n : ℕ) (xs : List A) → drop n (drop m xs) ≡ drop (m + n) xs
drop-drop zero n xs = ap (λ k. drop k xs) (omega arith)
drop-drop (suc m) n [] = drop-nil n ∙ sym (drop-nil (suc m + n))
drop-drop (suc m) n (x ∷ xs) =
    let e : suc m + n ≡ suc (m + n) = omega arith in rw e (drop-drop m n xs)

pub take_all {ℓ} : {A : Type ℓ} (n : ℕ) (xs : List A) → length xs ≤ n → take n xs ≡ xs
take_all zero [] h = refl
take_all zero (x ∷ xs) h = absurd (omega arith)
take_all (suc n) [] h = refl
take_all (suc n) (x ∷ xs) h = rw (take_all n xs (omega arith))

-- Where no two elements can be, an element is alone.
pub alone :
    {A : Type 0} (P : List A → Type 0) (no_two : (x y : A) (xs : List A) → ¬ P (x ∷ y ∷ xs))
    (before after : List A) (a : A) {xs : List A}
    → xs ≡ before ++ (a ∷ after)
    → P xs
    → before ++ after ≡ []
alone P no_two [] [] a e p = refl
alone P no_two [] (x ∷ after) a e p = absurd (no_two a x after (subst P e p))
alone P no_two (b ∷ []) after a e p = absurd (no_two b a after (subst P e p))
alone P no_two (b ∷ x ∷ before) after a e p =
    absurd (no_two b x (before ++ (a ∷ after)) (subst P e p))
