-- ===== src/View/Changes.antt =====
-- View::merge_changes (view_impl.h): the new leader collects the changes that others know of and
-- adds the failed members that no change names.
pub mod Merge
pub mod Proposed
use old_derecho.Base.{
  ℕ, zero, suc, ◌+◌, ◌-◌, ◌%◌, ◌≤◌, ◌<◌, ◌≡◌, refl, Bool, true, false, not, ◌&&◌, ◌||◌, arith, ltb,
  ◌==◌, if◌then◌else◌, update, for_below, any_below,
}
use old_derecho.Row.{Row, copy_array, increment}
use old_derecho.Sst.{Sst, my_row, write_my, put_row}
use old_derecho.View.{View, member, has_failed}

module _ (max_members : ℕ) where
  -- One round of the first loop, for the own row and the row of member n.
  unfoldable pub merge_row : Row → Row → Row
  unfolding copy_array
  merge_row mine other =
      let r =
        if ltb mine.n_changes other.n_changes
        then record mine {
          changes = copy_array max_members mine.changes other.changes;
          n_changes = other.n_changes;
        }
        else mine in
      if ltb r.n_committed other.n_committed
      then record r { n_committed = other.n_committed }
      else r

  -- Some pending change from nCommitted up to nChanges names `id`.
  unfoldable pub lists : Row → ℕ → Bool
  lists r id =
      any_below (r.n_changes - r.n_committed)
        (λ c. r.changes ((r.n_committed + c) % max_members) == id)

  unfoldable pub add_change : Row → ℕ → Row
  add_change r id = record r {
    changes = update r.changes (r.n_changes % max_members) id;
    n_changes = increment r.n_changes;
  }

  -- One round of the second loop. `found` is declared outside the loop and never reset.
  unfoldable pub propose_failed : View → ℕ → Row × Bool → Row × Bool
  unfolding lists add_change
  propose_failed v n (r, found) =
      let found' = if has_failed v n then found || lists r (member v n) else true in
      if found' then (r, true) else (add_change r (member v n), false)

  unfoldable pub merge_changes : View → Sst → Sst
  unfolding merge_row propose_failed
  merge_changes v t =
      let merged =
        for_below v.num_members (λ n s. write_my s (merge_row (my_row s) (s.rows n))) t in
      let proposed = for_below v.num_members (propose_failed v) (my_row merged, false) in
      put_row (write_my merged proposed.0)
