-- ===== src/Tests/Rows.antt =====
-- A row, and a string in it.
use old_derecho.Base.{ℕ, ◌≤◌, ◌<◌, ◌≡◌, ◌⊎◌, none, some, List, [], ◌∷◌, length, arith}
use old_derecho.Tests.Data.{a_row}
use old_derecho.Row.{init_from_existing}
use old_derecho.Row.Laws.{IsFresh, SameCounters, init_from_existing_lem}
use old_derecho.Row.Text.{cstring_size, set_cstring, to_string, set_cstring-to_string}

abbrev empty_array : ℕ → ℕ
empty_array i = 0

abbrev digits : List ℕ
digits = 49 ∷ 50 ∷ []

abbrev digit : List ℕ
digit = 49 ∷ []

abbrev other_digit : List ℕ
other_digit = 50 ∷ []

init_from_existing_lem_example :
    let s = init_from_existing 3 a_row a_row in
    IsFresh 3 s
    × ((i : ℕ) → i < 3 → s.changes i ≡ a_row.changes i)
    × ((s.n_changes ≡ a_row.n_changes)
        × (s.n_committed ≡ a_row.n_committed)
        × (s.n_acked ≡ a_row.n_acked)
        × (s.vid ≡ a_row.vid))
    × SameCounters s a_row
init_from_existing_lem_example = init_from_existing_lem 3 a_row a_row

set_cstring-to_string_example :
    ((length digits < cstring_size)
        × ((f : ℕ → ℕ) × (set_cstring empty_array digits ≡ some f) × (to_string f ≡ digits))
      ⊎ (cstring_size ≤ length digits) × (set_cstring empty_array digits ≡ none))
set_cstring-to_string_example =
    set_cstring-to_string empty_array digits (ground arith, (ground arith, tt))
