-- ===== src/View/Changes/Proposed.antt =====
-- Which failed members View::merge_changes proposes, and where its second loop stops.
use old_derecho.Base.{
  sym, ap, ◌∙◌, dec_lt, ℕ, zero, suc, ◌-◌, ◌≤◌, ◌<◌, ◌≡◌, refl, ◌⊎◌, inl, inr, true, false, arith,
  Bool-cases, for_below,
}
use old_derecho.Row.{Row}
use old_derecho.Sst.{Sst, my_row}
use old_derecho.View.{View, member, has_failed}
use old_derecho.View.Changes.{lists, add_change, propose_failed, merge_changes}
use old_derecho.View.Changes.Merge.{merged, merged_row, proposed}

module _ (max_members : ℕ) where
  -- The row with changes added for the first k members.
  abbrev pub with_failed : View → Row → ℕ → Row
  with_failed v r k = for_below k (λ j r. add_change max_members r (member v j)) r

  -- Each of the first k members has failed, and its change is not listed when its turn comes.
  abbrev pub AllFailed : View → Row → ℕ → Type 0
  AllFailed v r k =
      (j : ℕ)
      → j < k
      → (has_failed v j ≡ true) × (lists max_members (with_failed v r j) (member v j) ≡ false)

  proposed-failed :
      (v : View) (r : Row) (k : ℕ)
      → AllFailed v r k
      → proposed max_members v r k ≡ (with_failed v r k, false)
  unfolding proposed for_below propose_failed
  proposed-failed v r zero h = refl
  proposed-failed v r (suc k) h =
      let before = proposed-failed v r k (λ j lt. h j (omega (arith, lt))) in
      let (failed, fresh) = h k (omega arith) in rw (before, failed, fresh) refl

  -- What stops the loop at rank k.
  abbrev pub RunsOrListed : View → Row → ℕ → Type 0
  RunsOrListed v r k =
      (has_failed v k ≡ false) ⊎ (lists max_members (with_failed v r k) (member v k) ≡ true)

  proposed-stop :
      (v : View) (r : Row) (k : ℕ)
      → AllFailed v r k
      → RunsOrListed v r k
      → proposed max_members v r (suc k) ≡ (with_failed v r k, true)
  unfolding proposed for_below propose_failed
  proposed-stop v r k h (inl runs) = rw (proposed-failed v r k h, runs) refl
  proposed-stop v r k h (inr listed) = elim (Bool-cases (has_failed v k)) [
    | inl failed ↦ rw (proposed-failed v r k h, failed, listed) refl
    | inr runs ↦ rw (proposed-failed v r k h, runs) refl
  ]

  proposed-stops :
      (v : View) (r : Row) (k m : ℕ)
      → k ≤ m
      → AllFailed v r k
      → RunsOrListed v r k
      → proposed max_members v r (suc m) ≡ (with_failed v r k, true)
  unfolding proposed for_below propose_failed
  proposed-stops v r k zero le h stop =
      let first : k ≡ 0 = omega (arith, le) in
      ap (λ m. proposed max_members v r (suc m)) (sym first) ∙ proposed-stop v r k h stop
  proposed-stops v r k (suc m) le h stop = elim (dec_lt k (suc m)) [
    | yes more ↦ ground (arith, proposed-stops v r k m (omega (arith, more)) h stop)
    | no equal ↦
        let same : suc m ≡ k = omega (arith, le, equal) in
        ap (λ m. proposed max_members v r (suc m)) same ∙ proposed-stop v r k h stop
  ]

  -- `merge_changes` goes through the members by rank and adds a change for each that has failed and is
  -- not listed. It stops for good at the first member, of rank k, that has not failed or is listed: no
  -- change is added for any later member, failed or not. Where there is no such member, all are added.
  pub merge_changes_stops :
      (v : View) (t : Sst) (k : ℕ)
      → AllFailed v (merged_row max_members v t) k
      → (k ≡ v.num_members) ⊎ ((k < v.num_members) × RunsOrListed v (merged_row max_members v t) k)
      → my_row (merge_changes max_members v t) ≡ with_failed v (merged_row max_members v t) k
  unfolding merge_changes merged_row merged proposed
  merge_changes_stops v t k h (inl all) =
      let last = rw all at (proposed-failed v (merged_row max_members v t) k h) in
      ground (arith, last, all)
  merge_changes_stops v t k h (inr (lt, stop)) =
      let rest : suc (v.num_members - 1) ≡ v.num_members = omega (arith, lt) in
      let last = rw rest at (
        proposed-stops v (merged_row max_members v t) k (v.num_members - 1) (omega (arith, lt)) h
          stop) in
      ground (arith, last)
