-- ===== src/Tests/Views.antt =====
-- A view of three, one of them failed.
use old_derecho.Base.{
  ℕ, zero, suc, ◌<◌, ◌≡◌, refl, ◌≢◌, ◌↔◌, inl, inr, true, false, [], ◌∷◌, for_below, any_below,
  arith,
}
use old_derecho.Sst.{Sst, my_row, put}
use old_derecho.Tests.Data.{a_row, table, a_view}
use old_derecho.View.{View, i_am_the_new_leader}
use old_derecho.View.Leader.{i_am_the_new_leader_lem, IsDistinct, LowerGone}
use old_derecho.View.Changes.{merge_changes, lists, merge_row}
use old_derecho.View.Changes.Merge.{Covers, Longest, merged_row, merge_changes_lem}
use old_derecho.View.Changes.Proposed.{AllFailed, with_failed, merge_changes_stops}

abbrev a_table : Sst
a_table = table 0 (λ k. a_row)

-- The members of ranks 0 and 2 have failed, and no change is listed.
abbrev failing_view : View
failing_view = record a_view { failed = true ∷ false ∷ true ∷ []; n_failed = 2 }

first_failed : AllFailed 3 failing_view (merged_row 3 failing_view a_table) 1
unfolding lists any_below for_below merged_row merge_row
first_failed zero lt = (refl, refl)
first_failed (suc j) lt = absurd (omega arith)

a_view-IsDistinct : IsDistinct a_view
a_view-IsDistinct zero zero li lj e = refl
a_view-IsDistinct zero (suc zero) li lj e = absurd (omega arith)
a_view-IsDistinct zero (suc (suc zero)) li lj e = absurd (omega arith)
a_view-IsDistinct zero (suc (suc (suc j))) li lj e = absurd (omega arith)
a_view-IsDistinct (suc zero) zero li lj e = absurd (omega arith)
a_view-IsDistinct (suc zero) (suc zero) li lj e = refl
a_view-IsDistinct (suc zero) (suc (suc zero)) li lj e = absurd (omega arith)
a_view-IsDistinct (suc zero) (suc (suc (suc j))) li lj e = absurd (omega arith)
a_view-IsDistinct (suc (suc zero)) zero li lj e = absurd (omega arith)
a_view-IsDistinct (suc (suc zero)) (suc zero) li lj e = absurd (omega arith)
a_view-IsDistinct (suc (suc zero)) (suc (suc zero)) li lj e = refl
a_view-IsDistinct (suc (suc zero)) (suc (suc (suc j))) li lj e = absurd (omega arith)
a_view-IsDistinct (suc (suc (suc i))) j li lj e = absurd (omega arith)

i_am_the_new_leader_lem_example :
    let (took, w) = i_am_the_new_leader a_view a_table in
    ((took ≡ true) ↔ ((a_view.i_know_i_am_leader ≡ false) × LowerGone a_view a_table))
    × ((took ≡ true) → w.i_know_i_am_leader ≡ true)
    × ((took ≡ false) → w ≡ a_view)
    × ((took ≡ true) → (i_am_the_new_leader w a_table).0 ≡ false)
i_am_the_new_leader_lem_example = i_am_the_new_leader_lem a_view a_table

merge_changes_lem_example :
    let s = merge_changes 3 a_view a_table in
    ((i : ℕ) → i < a_view.num_members → Covers 3 (my_row s) (a_table.rows i))
    × Covers 3 (my_row s) (my_row a_table)
    × Longest 3 a_view a_table s
    × ((i : ℕ) → i ≢ a_table.local_index → s.rows i ≡ a_table.rows i)
    × (s.calls ≡ put (my_row s) ∷ a_table.calls)
merge_changes_lem_example = merge_changes_lem 3 a_view a_table

merge_changes_stops_example :
    my_row (merge_changes 3 failing_view a_table)
    ≡ with_failed 3 failing_view (merged_row 3 failing_view a_table) 1
merge_changes_stops_example =
    merge_changes_stops 3 failing_view a_table 1 first_failed (inr (omega arith, inl refl))
