-- ===== src/View/Lines.antt =====
-- What the parts of operator>> make of a printed line.
use old_derecho.Base.{
  ℕ, zero, suc, ◌^◌, ◌≤◌, ◌<◌, ◌≡◌, ◌≢◌, refl, sym, ap, ◌∙◌, Bool, true, false, not, Option, some,
  List, [], ◌∷◌, ◌++◌, map, length, length-append, ◌==◌, ltb, arith,
}
use mathlib.Core.List.{append_assoc, append-nil}
use old_derecho.Row.Text.{bytes_eq}
use old_derecho.View.{View}
use old_derecho.View.Digits.{
  is_space, is_digit, decimal, read_number, Each, Each-append, Each-weaken, decimal-IsDecimal,
  read_number-decimal, read_number-space, read_number-end,
}
use old_derecho.View.Printed.{
  endl, spaced, fail_word, line_of, getline, stoi, read_ids, words_from, with_line,
}

abbrev pub no_newline : ℕ → Bool
no_newline c = not (c == 10)

abbrev no_space : ℕ → Bool
no_space c = not (is_space c)

-- A word: at least one character, and no space.
abbrev pub IsToken : List ℕ → Type 0
IsToken w = (w ≢ []) × Each (λ c. not (is_space c)) w

abbrev pub AllTokens : List (List ℕ) → Type 0
AllTokens [] = Unit {0}
AllTokens (w ∷ ws) = IsToken w × AllTokens ws

-- Node IDs are 32-bit numbers.
abbrev pub AllIds : List ℕ → Type 0
AllIds [] = Unit {0}
AllIds (n ∷ ns) = (n < 2 ^ 32) × AllIds ns

line_of-endl : (line rest : List ℕ) → Each no_newline line → line_of (endl line rest) ≡ (line, rest)
unfolding line_of
line_of-endl [] rest h = refl
line_of-endl (c ∷ cs) rest h =
    let other : (c == 10) ≡ false = ground (arith, h.0) in
    rw (line_of, other) (ap (λ r. (c ∷ r.0, r.1)) (line_of-endl cs rest h.1))

getline-endl :
    (line rest : List ℕ) → Each no_newline line → getline (endl line rest) ≡ some (line, rest)
unfolding getline
getline-endl [] rest h = ap some (line_of-endl [] rest h)
getline-endl (c ∷ cs) rest h = ap some (line_of-endl (c ∷ cs) rest h)

pub with_line-endl :
    (body : List ℕ → View → Option View) (line rest : List ℕ) (v w : View)
    → Each no_newline line
    → body line v ≡ some w
    → with_line body (some (endl line rest, v)) ≡ some (rest, w)
unfolding with_line
with_line-endl body line rest v w h e = rw (with_line, getline-endl line rest h, e) refl

pub stoi-decimal : (n : ℕ) → n < 2 ^ 31 → stoi (decimal n) ≡ some n
unfolding stoi
stoi-decimal n h =
    let read : read_number (decimal n) ≡ some (false, n, []) =
      ap read_number (sym (append-nil (decimal n))) ∙ read_number-decimal n [] refl in
    let fits : ltb n (2 ^ 31) ≡ true = ground (arith, h) in rw (stoi, read, fits) refl

pub decimal-Each :
    (p : ℕ → Bool) (n : ℕ) → ((c : ℕ) → is_digit c ≡ true → p c ≡ true) → Each p (decimal n)
decimal-Each p n h =
    let (d, ds, same, digits, all) = decimal-IsDecimal n in
    rw same (Each-weaken is_digit p h (d ∷ ds) digits)

pub digit_no_newline : (c : ℕ) → is_digit c ≡ true → no_newline c ≡ true
digit_no_newline c h = ground (arith, h)

space_or_newline : (c : ℕ) → not (is_space c) ≡ true → no_newline c ≡ true
space_or_newline c h = ground (arith, h)

pub spaced-no_newline : (ws : List (List ℕ)) → AllTokens ws → Each no_newline (spaced ws)
spaced-no_newline [] h = tt
spaced-no_newline (w ∷ ws) h =
    Each-append no_newline w (32 ∷ spaced ws)
      (Each-weaken (λ c. not (is_space c)) no_newline space_or_newline w h.0.1)
      (refl, spaced-no_newline ws h.1)

pub map-AllTokens {ℓ} :
    {A : Type ℓ} (f : A → List ℕ) → ((a : A) → IsToken (f a)) → (xs : List A) → AllTokens (map f xs)
map-AllTokens f h [] = tt
map-AllTokens f h (x ∷ xs) = (h x, map-AllTokens f h xs)

pub decimal-IsToken : (n : ℕ) → IsToken (decimal n)
decimal-IsToken n =
    let (d, ds, same, digits, all) = decimal-IsDecimal n in
    (
      λ e. absurd (ground (arith, sym same ∙ e)),
      decimal-Each (λ c. not (is_space c)) n (λ c h. ground (arith, h)),
    )

pub fail_word-IsToken : (b : Bool) → IsToken (fail_word b)
fail_word-IsToken true = (λ e. absurd (ground (arith, e)), (refl, tt))
fail_word-IsToken false = (λ e. absurd (ground (arith, e)), (refl, tt))

-- A space in front of the numbers is skipped.
read_ids-space : (fuel : ℕ) (l : List ℕ) → read_ids fuel (32 ∷ l) ≡ read_ids fuel l
unfolding read_ids
read_ids-space zero l = refl
read_ids-space (suc fuel) l = rw (read_ids, read_number-space l) refl

read_ids-spaced :
    (fuel : ℕ) (ns : List ℕ)
    → AllIds ns
    → length ns ≤ fuel
    → read_ids fuel (spaced (map decimal ns)) ≡ ns
unfolding read_ids
read_ids-spaced zero [] h e = refl
read_ids-spaced (suc fuel) [] h e = rw (read_ids, read_number-end) refl
read_ids-spaced zero (n ∷ ns) h e = absurd (omega arith)
read_ids-spaced (suc fuel) (n ∷ ns) h e =
    let rest = spaced (map decimal ns) in
    let fits : ltb n (2 ^ 32) ≡ true = ground (arith, h.0) in
    rw (read_ids, read_number-decimal n (32 ∷ rest) refl, fits)
      (ap (λ l. n ∷ l) (read_ids-space fuel rest ∙ read_ids-spaced fuel ns h.1 (omega (arith, e))))

length-spaced : (ws : List (List ℕ)) → length ws ≤ length (spaced ws)
length-spaced [] = omega arith
length-spaced (w ∷ ws) = omega (arith, length-append w (32 ∷ spaced ws), length-spaced ws)

length-map {ℓ} : {A : Type ℓ} (f : A → List ℕ) (xs : List A) → length (map f xs) ≡ length xs
length-map f [] = refl
length-map f (x ∷ xs) = ap suc (length-map f xs)

pub ids_read :
    (ns : List ℕ)
    → AllIds ns
    → read_ids (length (spaced (map decimal ns))) (spaced (map decimal ns)) ≡ ns
ids_read ns h =
    read_ids-spaced (length (spaced (map decimal ns))) ns h
      (omega (arith, length-spaced (map decimal ns), length-map decimal ns))

-- A word that has begun is read up to the space behind it.
words_from-word :
    (c : ℕ) (cs w rest : List ℕ)
    → Each (λ c. not (is_space c)) w
    → words_from (c ∷ cs) (w ++ (32 ∷ rest)) ≡ (c ∷ cs ++ w) ∷ words_from [] rest
unfolding words_from
words_from-word c cs [] rest h = ap (λ l. (c ∷ l) ∷ words_from [] rest) (sym (append-nil cs))
words_from-word c cs (d ∷ w) rest h =
    let plain : is_space d ≡ false = ground (arith, h.0) in
    rw (words_from, plain)
      (words_from-word c (cs ++ (d ∷ [])) w rest h.1
        ∙ ap (λ l. (c ∷ l) ∷ words_from [] rest) (append_assoc cs (d ∷ []) w))

pub words_from-spaced : (ws : List (List ℕ)) → AllTokens ws → words_from [] (spaced ws) ≡ ws
unfolding words_from
words_from-spaced [] h = refl
words_from-spaced ([] ∷ ws) h = absurd (h.0.0 refl)
words_from-spaced ((c ∷ cs) ∷ ws) h =
    let plain : is_space c ≡ false = ground (arith, h.0.1.0) in
    rw (words_from, plain)
      (words_from-word c [] cs (spaced ws) h.0.1.1
        ∙ ap (λ l. (c ∷ cs) ∷ l) (words_from-spaced ws h.1))

pub failures_read : (bs : List Bool) → map (λ w. bytes_eq w (84 ∷ [])) (map fail_word bs) ≡ bs
unfolding bytes_eq
failures_read [] = refl
failures_read (true ∷ bs) = ap (λ l. true ∷ l) (failures_read bs)
failures_read (false ∷ bs) = ap (λ l. false ∷ l) (failures_read bs)
