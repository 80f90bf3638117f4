-- ===== src/Gms/NextView.antt =====
-- How the next view is built once a change is committed (managed_group_impl.h): start_view_change,
-- is_meta_wedged. The view's change is a removal if its ID is a member, else a join.
pub mod Copied
pub mod Members
use old_derecho.Base.{
  ℕ, zero, suc, ◌+◌, ◌-◌, ◌%◌, Bool, true, false, not, ◌&&◌, ◌||◌, Option, none, some, List, [],
  ◌∷◌, if◌then◌else◌, set, get_or, for_below, all_below,
}
use old_derecho.Row.Text.{to_string}
use old_derecho.Sst.{Sst, Predicate, remove, insert}
use old_derecho.View.{View, Ip, empty, init_vectors, rank_of, is_rank, member, ip, has_failed}
use old_derecho.Gms.{
  ◌>>=◌, assert_rank, Node, Result, ok, err, sst, mine, with_sst, wedge_view, reported_failed,
}

-- One round of the loop that copies the members, but the one that leaves, with the place `m` of the
-- next one.
unfoldable pub copy_member : Option ℕ → View → ℕ → ℕ × View → ℕ × View
copy_member who v n (m, next) = if is_rank who n then (m, next) else (
  suc m,
  record next {
    members = set next.members m (member v n);
    member_ips = set next.member_ips m (ip v n);
    failed = set next.failed m (has_failed v n);
  },
)

-- The view before the loop. A member that is removed has been marked failed, so the count of
-- failures is not 0 then.
unfoldable pub prepare_view : ℕ → Ip → View → View
unfolding empty init_vectors rank_of
prepare_view change joiner_ip v =
    let next = record (empty 0) { vid = v.vid + 1; i_know_i_am_leader = v.i_know_i_am_leader } in
    elim (rank_of v change) [
      | some r ↦
          init_vectors (record next { n_failed = v.n_failed - 1; num_members = v.num_members - 1 })
      | none ↦
          let sized =
            init_vectors (record next { n_failed = v.n_failed; num_members = v.num_members + 1 }) in
          record sized {
            members = set sized.members v.num_members change;
            member_ips = set sized.member_ips v.num_members joiner_ip;
          }
    ]

-- The members of the next view, before the own rank is found.
unfoldable pub copy_members : Option ℕ → View → View → View
unfolding copy_member
copy_members who v next = (for_below v.num_members (copy_member who v) (0, next)).1

-- The next view, and an exception if this member is not in it.
unfoldable pub next_view : ℕ → Ip → View → Result View
unfolding prepare_view copy_members
next_view change joiner_ip v =
    let next = record (copy_members (rank_of v change) v (prepare_view change joiner_ip v)) {
      who = some change;
    } in
    elim (rank_of next (member v v.my_rank)) [
      | none ↦ err reported_failed
      | some r ↦ ok (record next { my_rank = r })
    ]

-- start_view_change
unfoldable pub start_view_change : ℕ → Node → Result Node
unfolding next_view assert_rank
start_view_change max_members s = assert_rank s (
    let t = sst s in
    let stopped =
      remove (remove (remove t Predicate.start_join) Predicate.change_commit_ready)
        Predicate.leader_proposed in
    let s' = wedge_view (with_sst s stopped) in
    let row = mine s' in
    do
      next ← next_view (row.changes (s.view.vid % max_members)) (to_string row.joiner_ip) s.view
      ok (record (with_sst s' (insert (sst s') Predicate.meta_wedged)) { next_view = some next }))

-- is_meta_wedged
unfoldable pub is_meta_wedged : Node → Bool
is_meta_wedged s = all_below (sst s).num_rows (λ n. has_failed s.view n || ((sst s).rows n).wedged)

-- leader_globalMin_is_ready and the choice that meta_wedged_continuation makes: the cleanup runs at
-- once, or once the leader's minimum is shown.
unfoldable pub wait_for_leader : Node → Node
wait_for_leader s = with_sst s (insert (sst s) Predicate.leader_min_ready)
