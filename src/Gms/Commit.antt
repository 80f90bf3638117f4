-- ===== src/Gms/Commit.antt =====
-- How a change of the view is proposed, acknowledged and committed (managed_group_impl.h): start_join
-- and receive_join, leader_proposed_change, change_commit_ready, leader_committed_next_view.
pub mod Agreement
use old_derecho.Base.{
  ℕ, zero, suc, ◌+◌, ◌/◌, ◌%◌, Bool, true, false, not, ◌&&◌, ◌||◌, Option, none, some, List, [],
  ◌∷◌, if◌then◌else◌, ◌==◌, ltb, leb, length, update, for_below, is_some,
}
use old_derecho.Row.{Row, increment, copy_array}
use old_derecho.Row.Text.{cstring_size, set_cstring}
use old_derecho.Sst.{Sst, my_row, write_my, put_row}
use old_derecho.View.{View, has_failed, i_am_leader, rank_of_leader, is_rank}
use old_derecho.Gms.{
  assert_rank, Node, Socket, Result, ok, err, Error, ◌>>=◌, sst, mine, with_sst, wedge_view,
  leader_row, too_many_changes, undefined_behaviour,
}

-- min_acked
unfoldable pub min_acked : Sst → View → ℕ
min_acked t v =
    for_below (length v.failed)
      (λ n m. if not (has_failed v n) && ltb (t.rows n).n_acked m then (t.rows n).n_acked else m)
      (my_row t).n_acked

-- change_commit_ready
unfoldable pub change_commit_ready : Node → Bool
unfolding min_acked
change_commit_ready s =
    is_rank (rank_of_leader s.view) s.view.my_rank
    && ltb (mine s).n_committed (min_acked (sst s) s.view)

-- commit_change
unfoldable pub commit_change : Node → Node
unfolding min_acked
commit_change s =
    with_sst s
      (put_row (write_my (sst s) (record (mine s) { n_committed = min_acked (sst s) s.view })))

-- leader_proposed_change
unfoldable pub leader_proposed_change : Node → Result Bool
leader_proposed_change s = do l ← leader_row s; ok (ltb (mine s).n_acked l.n_changes)

-- The assignments by which a member that does not lead echoes the leader's row.
unfoldable pub echo_changes : ℕ → Row → Row → Row
unfolding copy_array
echo_changes max_members r l = record r {
  changes = copy_array max_members r.changes l.changes;
  joiner_ip = copy_array cstring_size r.joiner_ip l.joiner_ip;
  n_changes = l.n_changes;
  n_committed = l.n_committed;
}

-- ack_proposed_change
unfoldable pub ack_proposed_change : ℕ → Node → Result Node
unfolding echo_changes assert_rank
ack_proposed_change max_members s = assert_rank s (do
  l ← leader_row s
  let r =
      if is_rank (rank_of_leader s.view) (sst s).local_index
      then mine s
      else echo_changes max_members (mine s) l
  ok (wedge_view (with_sst s (put_row (write_my (sst s) (record r { n_acked = l.n_changes }))))))

-- leader_committed_next_view
unfoldable pub leader_committed_next_view : Node → Result Bool
leader_committed_next_view s = do l ← leader_row s; ok (ltb s.view.vid l.n_committed)

-- start_join_pred
unfoldable pub start_join_pred : Node → Bool
start_join_pred s =
    i_am_leader s.view && (ltb 0 (length s.pending_joins) && not (is_some s.joining_client_socket))

module _ (max_members : ℕ) where
  -- receive_join. A C string that is too long for the row is undefined.
  unfoldable pub receive_join : Socket → Node → Result Node
  receive_join client s =
      let r = mine s in
      if r.n_changes == r.n_committed + max_members / 2
      then err too_many_changes
      else elim (set_cstring r.joiner_ip client.remote_ip) [
        | none ↦ err undefined_behaviour
        | some ip ↦
            let s' = wedge_view (
              with_sst s (
                write_my (sst s) (record r {
                  changes = update r.changes (r.n_changes % max_members) client.client_id;
                  joiner_ip = ip;
                  n_changes = increment r.n_changes;
                }))) in
            ok (with_sst s' (put_row (sst s')))
      ]

  -- start_join_trig
  unfoldable pub start_join_trig : Node → Result Node
  unfolding receive_join
  start_join_trig s = elim s.pending_joins [
    | [] ↦ err undefined_behaviour
    | client ∷ rest ↦
        receive_join client (record s { pending_joins = rest; joining_client_socket = some client })
  ]
