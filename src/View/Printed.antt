-- ===== src/View/Printed.antt =====
-- The text of a view: operator<< and operator>> of view_impl.h. Characters are their codes. A stream
-- is the text that is left on it; std::stoi's exceptions are `none`.
use old_derecho.Base.{
  ℕ, zero, suc, ◌-◌, ◌%◌, ◌^◌, Bool, true, false, Option, none, some, List, [], ◌∷◌, ◌++◌, map,
  length, if◌then◌else◌, ◌==◌, ltb,
}
use old_derecho.Row.Text.{bytes_eq}
use old_derecho.View.{View}
use old_derecho.View.Digits.{is_space, decimal, read_number}

-- What is followed by a newline, or by a space.
abbrev pub endl : List ℕ → List ℕ → List ℕ
endl line rest = line ++ (10 ∷ rest)

abbrev pub spaced : List (List ℕ) → List ℕ
spaced [] = []
spaced (w ∷ ws) = w ++ (32 ∷ spaced ws)

abbrev pub fail_word : Bool → List ℕ
fail_word b = if b then 84 ∷ [] else 70 ∷ []

-- operator<<(stream, view)
unfoldable pub print_view : View → List ℕ
unfolding decimal
print_view v = endl (decimal v.vid) (
    endl (spaced (map decimal v.members)) (
      endl (spaced v.member_ips) (
        endl (spaced (map fail_word v.failed)) (
          endl (decimal v.n_failed) (endl (decimal v.num_members) (endl (decimal v.my_rank) []))))))

-- std::getline: the line and what is behind it, or nothing at the end of the text.
unfoldable pub line_of : List ℕ → List ℕ × List ℕ
line_of [] = ([], [])
line_of (c ∷ cs) = elim (c == 10) [ true ↦ ([], cs) | false ↦ (c ∷ (line_of cs).0, (line_of cs).1) ]

unfoldable pub getline : List ℕ → Option (List ℕ × List ℕ)
unfolding line_of
getline [] = none
getline (c ∷ cs) = some (line_of (c ∷ cs))

-- std::stoi of a number below 2^31. One below 0 is `none` here too: no field of a view is negative.
unfoldable pub stoi : List ℕ → Option ℕ
unfolding read_number
stoi line = elim (read_number line) [
  | none ↦ none
  | some (negative, n, rest) ↦
      if negative
      then (if n == 0 then some 0 else none)
      else if ltb n (2 ^ 31)
      then some n
      else none
]

-- The node IDs that an istream_iterator finds: unsigned 32-bit numbers, up to the first that is none.
-- A number takes a character at least, so that the length of the line is enough `fuel`.
unfoldable pub read_ids : ℕ → List ℕ → List ℕ
unfolding read_number
read_ids zero line = []
read_ids (suc fuel) line = elim (read_number line) [
  | none ↦ []
  | some (negative, n, rest) ↦ elim (ltb n (2 ^ 32)) [
    | false ↦ []
    | true ↦ (if negative then (2 ^ 32 - n) % 2 ^ 32 else n) ∷ read_ids fuel rest
  ]
]

-- The words of a line, as `>>` into a string finds them; `word` is the one that has begun.
unfoldable pub words_from : List ℕ → List ℕ → List (List ℕ)
words_from [] [] = []
words_from (w ∷ word) [] = (w ∷ word) ∷ []
words_from [] (c ∷ cs) = elim (is_space c) [
  | true ↦ words_from [] cs
  | false ↦ words_from (c ∷ []) cs
]
words_from (w ∷ word) (c ∷ cs) = elim (is_space c) [
  | true ↦ (w ∷ word) ∷ words_from [] cs
  | false ↦ words_from (w ∷ word ++ (c ∷ [])) cs
]

-- One `if(std::getline(stream, line))` with what its body makes of the line.
unfoldable pub with_line :
    (List ℕ → View → Option View) → Option (List ℕ × View) → Option (List ℕ × View)
unfolding getline
with_line body none = none
with_line body (some (stream, v)) = elim (getline stream) [
  | none ↦ some (stream, v)
  | some (line, rest) ↦ elim (body line v) [ none ↦ none | some w ↦ some (rest, w) ]
]

-- A line with one number, for a field that `put` sets.
unfoldable pub number_line : (ℕ → View → View) → List ℕ → View → Option View
unfolding stoi
number_line put line v = elim (stoi line) [ none ↦ none | some n ↦ some (put n v) ]

unfoldable pub ids_line : List ℕ → View → Option View
unfolding read_ids
ids_line line v = some (record v { members = v.members ++ read_ids (length line) line })

unfoldable pub ips_line : List ℕ → View → Option View
unfolding words_from
ips_line line v = some (record v { member_ips = v.member_ips ++ words_from [] line })

unfoldable pub failed_line : List ℕ → View → Option View
unfolding words_from
failed_line line v =
    some (record v { failed = v.failed ++ map (λ w. bytes_eq w (84 ∷ [])) (words_from [] line) })

-- operator>>(stream, view): what is left of the stream, and the view.
unfoldable pub parse_view : List ℕ → View → Option (List ℕ × View)
unfolding with_line number_line read_ids words_from
parse_view stream v =
    let ids =
      with_line ids_line
        (with_line (number_line (λ n w. record w { vid = n })) (some (stream, v))) in
    let lists = with_line failed_line (with_line ips_line ids) in
    let counts =
      with_line (number_line (λ n w. record w { num_members = n }))
        (with_line (number_line (λ n w. record w { n_failed = n })) lists) in
    with_line (number_line (λ n w. record w { my_rank = n })) counts
