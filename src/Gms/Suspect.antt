-- ===== src/Gms/Suspect.antt =====
-- The suspicions of ManagedGroup (managed_group_impl.h): suspected_changed and its trigger,
-- report_failure and leave.
pub mod Marked
pub mod Aggregate
pub mod Majority
use old_derecho.Base.{
  ℕ, zero, suc, ◌+◌, ◌-◌, ◌/◌, ◌%◌, Bool, true, false, not, ◌&&◌, ◌||◌, Option, none, some, List,
  [], ◌∷◌, ◌++◌, if◌then◌else◌, ◌==◌, ltb, leb, set, update, for_below, any_below, count_below,
}
use old_derecho.Row.{Row, increment}
use old_derecho.Sst
use old_derecho.Sst.{Sst, my_row, write_my, put_row, call, Predicate}
use old_derecho.Group.{Group, own}
use old_derecho.Group.Setup.{wedge}
use old_derecho.View.{View, member, has_failed, i_am_leader, rank_of}
use old_derecho.Gms.{
  assert_rank, Node, Result, ok, err, Error, ◌>>=◌, for_below_result, sst, mine, with_sst,
  majority_failed, no_longer_in_majority, out_of_room, undefined_behaviour,
}

-- copy_suspected
unfoldable pub copy_suspected : Sst → (ℕ → Bool) → ℕ → Bool
copy_suspected t old = for_below t.num_rows (λ who o. update o who ((my_row t).suspected who)) old

-- The loop that aggregates the suspicions into the own row.
unfoldable pub aggregate : ℕ → Sst → Sst
aggregate n t =
    for_below n
      (λ r t.
        for_below n
          (λ who t. write_my t (record (my_row t) {
            suspected =
                update (my_row t).suspected who
                  ((my_row t).suspected who || (t.rows r).suspected who);
          }))
          t)
      t

-- (num_members + 1) / 2 or more have failed
abbrev pub too_many_failed : View → Bool
too_many_failed v = leb ((v.num_members + 1) / 2) v.n_failed

-- Freeze row q, wedge the group, and count member q as failed.
unfoldable pub freeze_member : ℕ → Node → Node
freeze_member q s =
    let frozen = record s.group { sst = call s.group.sst (Sst.freeze q) } in
    let g = wedge frozen in
    record s {
      group = record g { sst = write_my g.sst (record (own g) { wedged = true }) };
      view = record s.view { failed = set s.view.failed q true; n_failed = s.view.n_failed + 1 };
    }

module _ (max_members : ℕ) where
  -- suspected_not_equal
  unfoldable pub suspected_not_equal : Sst → (ℕ → Bool) → Bool
  suspected_not_equal t old =
      any_below t.num_rows
        (λ r. any_below max_members (λ who. (t.rows r).suspected who && not (old who)))

  -- changes_contains
  unfoldable pub changes_contains : Row → ℕ → Bool
  changes_contains r q = any_below (r.n_changes - r.n_committed) (λ c.
      let p_index = (r.n_committed + c) % max_members in
      ltb p_index r.n_changes && r.changes p_index == q)

  -- The leader proposes to remove member q.
  unfoldable pub propose_removal : ℕ → Node → Result Node
  unfolding changes_contains
  propose_removal q s =
      let r = mine s in
      if i_am_leader s.view && not (changes_contains r (member s.view q))
      then if r.n_changes == r.n_committed + max_members
        then err out_of_room
        else ok (
            with_sst s (
              put_row (
                write_my (sst s) (record r {
                  changes = update r.changes (r.n_changes % max_members) (member s.view q);
                  n_changes = increment r.n_changes;
                }))))
      else ok s

  -- The body of the loop over the members.
  unfoldable pub mark_failed : ℕ → Node → Result Node
  unfolding freeze_member propose_removal
  mark_failed q s =
      let s' = freeze_member q s in
      if not ((mine s).suspected q && not (has_failed s.view q))
      then ok s
      else if too_many_failed s.view
      then err majority_failed
      else if too_many_failed s'.view
      then err no_longer_in_majority
      else propose_removal q (with_sst s' (put_row (sst s')))

  -- suspected_changed_trig
  unfoldable pub suspected_changed_trig : Node → Result Node
  unfolding aggregate mark_failed copy_suspected assert_rank
  suspected_changed_trig s = assert_rank s (do
    let s1 = with_sst s (aggregate s.view.num_members (sst s))
    s2 ← for_below_result s.view.num_members mark_failed s1
    ok (record s2 { last_suspected = copy_suspected (sst s2) s2.last_suspected }))

  -- report_failure. The own row is changed also where it then throws.
  unfoldable pub report_failure : ℕ → Node → Result Node
  report_failure who s = elim (rank_of s.view who) [
    | none ↦ err undefined_behaviour
    | some r ↦
        let t =
          write_my (sst s) (record (mine s) { suspected = update (mine s).suspected r true }) in
        if leb ((s.view.num_members + 1) / 2) (count_below max_members (my_row t).suspected)
        then err no_longer_in_majority
        else ok (with_sst s (put_row t))
  ]

-- leave
unfoldable pub leave : Node → Node
leave s =
    let g = wedge s.group in
    let t = record g.sst { active = λ p. false } in
    let r = record (my_row t) { suspected = update (my_row t).suspected s.view.my_rank true } in
    record s { group = record g { sst = put_row (write_my t r) }; thread_shutdown = true }
