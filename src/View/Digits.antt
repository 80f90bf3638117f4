-- ===== src/View/Digits.antt =====
-- Numbers and words as the streams of view_impl.h's operator<< and operator>> write and read them.
use old_derecho.Base.{
  ℕ, zero, suc, ◌+◌, ◌-◌, ◌*◌, ◌/◌, ◌%◌, ◌≤◌, ◌≡◌, refl, ap, ◌∙◌, inl, inr, Bool, true, false, not,
  ◌&&◌, ◌||◌, Option, none, some, List, [], ◌∷◌, ◌++◌, ◌==◌, leb, ltb, arith, Bool-cases,
}

-- isspace and isdigit
abbrev pub is_space : ℕ → Bool
is_space c = c == 32 || (leb 9 c && leb c 13)

abbrev pub is_digit : ℕ → Bool
is_digit c = leb 48 c && leb c 57

-- A number in decimal; `fuel` bounds the digits behind the first, and the number itself is enough.
unfoldable pub decimal_from : ℕ → ℕ → List ℕ
decimal_from zero n = (48 + n) ∷ []
decimal_from (suc fuel) n = elim (ltb n 10) [
  | true ↦ (48 + n) ∷ []
  | false ↦ decimal_from fuel (n / 10) ++ ((48 + n % 10) ∷ [])
]

unfoldable pub decimal : ℕ → List ℕ
decimal n = decimal_from n n

-- The digits at the start, and what stands behind them.
unfoldable pub span_digits : List ℕ → List ℕ × List ℕ
span_digits [] = ([], [])
span_digits (c ∷ cs) = elim (is_digit c) [
  | true ↦ (c ∷ (span_digits cs).0, (span_digits cs).1)
  | false ↦ ([], c ∷ cs)
]

unfoldable pub value : ℕ → List ℕ → ℕ
value acc [] = acc
value acc (d ∷ ds) = value (acc * 10 + (d - 48)) ds

unfoldable pub skip_spaces : List ℕ → List ℕ
skip_spaces [] = []
skip_spaces (c ∷ cs) = elim (is_space c) [ true ↦ skip_spaces cs | false ↦ c ∷ cs ]

-- A sign: whether it is a minus, and what stands behind it.
unfoldable pub sign : List ℕ → Bool × List ℕ
sign [] = (false, [])
sign (c ∷ cs) = elim (c == 45) [
  | true ↦ (true, cs)
  | false ↦ elim (c == 43) [ true ↦ (false, cs) | false ↦ (false, c ∷ cs) ]
]

-- What is read once the digits are found; there must be one.
abbrev pub number_of : Bool → List ℕ × List ℕ → Option (Bool × ℕ × List ℕ)
number_of negative ([], rest) = none
number_of negative (d ∷ ds, rest) = some (negative, value 0 (d ∷ ds), rest)

abbrev pub after_sign : Bool × List ℕ → Option (Bool × ℕ × List ℕ)
after_sign (negative, behind) = number_of negative (span_digits behind)

-- Spaces, a sign and digits: whether it is negative, the number, and what stands behind it.
unfoldable pub read_number : List ℕ → Option (Bool × ℕ × List ℕ)
read_number l = after_sign (sign (skip_spaces l))

-- What the lemmas need of a text: each of its bytes passes the test.
abbrev pub Each : (ℕ → Bool) → List ℕ → Type 0
Each p [] = Unit {0}
Each p (c ∷ cs) = (p c ≡ true) × Each p cs

pub Each-append : (p : ℕ → Bool) (xs ys : List ℕ) → Each p xs → Each p ys → Each p (xs ++ ys)
Each-append p [] ys h k = k
Each-append p (x ∷ xs) ys h k = (h.0, Each-append p xs ys h.1 k)

pub Each-weaken :
    (p q : ℕ → Bool) → ((c : ℕ) → p c ≡ true → q c ≡ true) → (xs : List ℕ) → Each p xs → Each q xs
Each-weaken p q h [] e = tt
Each-weaken p q h (x ∷ xs) e = (h x e.0, Each-weaken p q h xs e.1)

value-append :
    (acc : ℕ) (xs : List ℕ) (d : ℕ) → value acc (xs ++ (d ∷ [])) ≡ value acc xs * 10 + (d - 48)
unfolding value
value-append acc [] d = refl
value-append acc (x ∷ xs) d = value-append (acc * 10 + (x - 48)) xs d

-- A number in decimal has a first digit, only digits, and its value.
abbrev pub IsDecimal : ℕ → List ℕ → Type 0
IsDecimal n l =
    (d : ℕ) × (ds : List ℕ) × (l ≡ d ∷ ds) × Each is_digit (d ∷ ds) × (value 0 (d ∷ ds) ≡ n)

decimal_from-IsDecimal : (fuel n : ℕ) → n ≤ fuel → IsDecimal n (decimal_from fuel n)
unfolding decimal_from value
decimal_from-IsDecimal zero n h = (48 + n, [], refl, (ground (arith, h), tt), omega arith)
decimal_from-IsDecimal (suc fuel) n h = elim (Bool-cases (ltb n 10)) [
  | inl small ↦
      (48 + n, [], rw (decimal_from, small) refl, (ground (arith, small), tt), omega arith)
  | inr big ↦
      let last = 48 + n % 10 in
      let (d, ds, same, digits, all) =
        decimal_from-IsDecimal fuel (n / 10) (ground (arith, big, h)) in
      (
        d,
        ds ++ (last ∷ []),
        rw (decimal_from, big) (ap (λ l. l ++ (last ∷ [])) same),
        Each-append is_digit (d ∷ ds) (last ∷ []) digits (ground arith, tt),
        value-append 0 (d ∷ ds) last ∙ omega (arith, all),
      )
]

pub decimal-IsDecimal : (n : ℕ) → IsDecimal n (decimal n)
unfolding decimal
decimal-IsDecimal n = decimal_from-IsDecimal n n (omega arith)

-- No digit comes next.
abbrev pub stops : List ℕ → Bool
stops [] = true
stops (c ∷ cs) = not (is_digit c)

span_digits-append :
    (ds rest : List ℕ)
    → Each is_digit ds
    → stops rest ≡ true
    → span_digits (ds ++ rest) ≡ (ds, rest)
unfolding span_digits
span_digits-append [] [] h e = refl
span_digits-append [] (c ∷ cs) h e =
    let other : is_digit c ≡ false = ground (arith, e) in rw (span_digits, other) refl
span_digits-append (d ∷ ds) rest h e =
    rw (span_digits, h.0) (ap (λ r. (d ∷ r.0, r.1)) (span_digits-append ds rest h.1 e))

skip_spaces-plain : (c : ℕ) (cs : List ℕ) → is_digit c ≡ true → skip_spaces (c ∷ cs) ≡ c ∷ cs
unfolding skip_spaces
skip_spaces-plain c cs h =
    let plain : is_space c ≡ false = ground (arith, h) in rw (skip_spaces, plain) refl

sign-plain : (c : ℕ) (cs : List ℕ) → is_digit c ≡ true → sign (c ∷ cs) ≡ (false, c ∷ cs)
unfolding sign
sign-plain c cs h =
    let no_minus : (c == 45) ≡ false = ground (arith, h) in
    let no_plus : (c == 43) ≡ false = ground (arith, h) in rw (sign, no_minus, no_plus) refl

read_digits :
    (n d : ℕ) (ds rest : List ℕ)
    → Each is_digit (d ∷ ds)
    → value 0 (d ∷ ds) ≡ n
    → stops rest ≡ true
    → read_number ((d ∷ ds) ++ rest) ≡ some (false, n, rest)
unfolding read_number
read_digits n d ds rest digits all e =
    ap after_sign
      (ap sign (skip_spaces-plain d (ds ++ rest) digits.0) ∙ sign-plain d (ds ++ rest) digits.0)
    ∙ ap (number_of false) (span_digits-append (d ∷ ds) rest digits e)
    ∙ ap (λ v. some (false, v, rest)) all

-- A number that was written is read back.
pub read_number-decimal :
    (n : ℕ) (rest : List ℕ)
    → stops rest ≡ true
    → read_number (decimal n ++ rest) ≡ some (false, n, rest)
read_number-decimal n rest e =
    let (d, ds, same, digits, all) = decimal-IsDecimal n in
    ap (λ l. read_number (l ++ rest)) same ∙ read_digits n d ds rest digits all e

pub read_number-space : (l : List ℕ) → read_number (32 ∷ l) ≡ read_number l
unfolding read_number skip_spaces
read_number-space l = refl

pub read_number-end : read_number [] ≡ none
unfolding read_number skip_spaces sign span_digits
read_number-end = refl
