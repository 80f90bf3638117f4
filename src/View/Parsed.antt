-- ===== src/View/Parsed.antt =====
-- The text of a view, read back.
use old_derecho.Base.{ℕ, ◌^◌, ◌<◌, ◌≡◌, refl, ap, ◌∙◌, Bool, some, List, [], ◌∷◌, ◌++◌, map}
use old_derecho.Row.Text.{bytes_eq}
use old_derecho.View.{View, Ip}
use old_derecho.View.Digits.{decimal}
use old_derecho.View.Printed.{
  endl, spaced, fail_word, print_view, with_line, number_line, ids_line, ips_line, failed_line,
  parse_view,
}
use old_derecho.View.Lines.{
  no_newline, AllTokens, map-AllTokens, AllIds, with_line-endl, stoi-decimal, decimal-Each,
  digit_no_newline, spaced-no_newline, decimal-IsToken, fail_word-IsToken, ids_read,
  words_from-spaced, failures_read,
}

number_line-read :
    (put : ℕ → View → View) (n : ℕ) (rest : List ℕ) (v : View)
    → n < 2 ^ 31
    → with_line (number_line put) (some (endl (decimal n) rest, v)) ≡ some (rest, put n v)
unfolding number_line
number_line-read put n rest v h =
    with_line-endl (number_line put) (decimal n) rest v (put n v)
      (decimal-Each no_newline n digit_no_newline) (rw (number_line, stoi-decimal n h) refl)

ids_line-read :
    (ns rest : List ℕ) (v : View)
    → AllIds ns
    → with_line ids_line (some (endl (spaced (map decimal ns)) rest, v))
      ≡ some (rest, record v { members = v.members ++ ns })
unfolding ids_line
ids_line-read ns rest v h =
    with_line-endl ids_line (spaced (map decimal ns)) rest v _
      (spaced-no_newline (map decimal ns) (map-AllTokens decimal decimal-IsToken ns))
      (ap (λ l. some (record v { members = v.members ++ l })) (ids_read ns h))

ips_line-read :
    (ips : List Ip) (rest : List ℕ) (v : View)
    → AllTokens ips
    → with_line ips_line (some (endl (spaced ips) rest, v))
      ≡ some (rest, record v { member_ips = v.member_ips ++ ips })
unfolding ips_line
ips_line-read ips rest v h =
    with_line-endl ips_line (spaced ips) rest v _ (spaced-no_newline ips h)
      (ap (λ l. some (record v { member_ips = v.member_ips ++ l })) (words_from-spaced ips h))

failed_line-read :
    (bs : List Bool) (rest : List ℕ) (v : View)
    → with_line failed_line (some (endl (spaced (map fail_word bs)) rest, v))
      ≡ some (rest, record v { failed = v.failed ++ bs })
unfolding failed_line
failed_line-read bs rest v =
    let tokens = map-AllTokens fail_word fail_word-IsToken bs in
    with_line-endl failed_line (spaced (map fail_word bs)) rest v _
      (spaced-no_newline (map fail_word bs) tokens)
      (ap (λ l. some (record v { failed = v.failed ++ l }))
        (ap (map (λ w. bytes_eq w (84 ∷ []))) (words_from-spaced (map fail_word bs) tokens)
          ∙ failures_read bs))

-- What the text of a view says: `u` with its numbers, and its lists behind those of `u`.
abbrev pub read_into : View → View → View
read_into u v = record u {
  vid = v.vid;
  members = u.members ++ v.members;
  member_ips = u.member_ips ++ v.member_ips;
  failed = u.failed ++ v.failed;
  n_failed = v.n_failed;
  num_members = v.num_members;
  my_rank = v.my_rank;
}

-- The text that operator<< writes of a view is read back by operator>> to its end: the numbers are
-- those of the view, and its members, addresses and failures stand behind what the lists of the view
-- read into held. The numbers must be below 2^31, the node IDs below 2^32, and each address a word.
pub parse_view-print_view :
    (v u : View)
    → v.vid < 2 ^ 31
    → v.n_failed < 2 ^ 31
    → v.num_members < 2 ^ 31
    → v.my_rank < 2 ^ 31
    → AllIds v.members
    → AllTokens v.member_ips
    → parse_view (print_view v) u ≡ some ([], read_into u v)
unfolding parse_view print_view
parse_view-print_view v u small few size rank ids ips =
    rw
      (
        parse_view,
        print_view,
        number_line-read (λ n w. record w { vid = n }) v.vid _ u small,
        ids_line-read v.members _ _ ids,
        ips_line-read v.member_ips _ _ ips,
        failed_line-read v.failed _ _,
        number_line-read (λ n w. record w { n_failed = n }) v.n_failed _ _ few,
        number_line-read (λ n w. record w { num_members = n }) v.num_members _ _ size,
        number_line-read (λ n w. record w { my_rank = n }) v.my_rank [] _ rank,
      )
      refl
