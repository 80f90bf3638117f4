-- ===== src/Tests/Membership.antt =====
-- The membership service: suspicion, acknowledgement, commit, joins and the end of a view.
use old_derecho.Base.{
  ℕ, suc, ◌+◌, ◌≤◌, ◌<◌, ◌≡◌, refl, ◌≢◌, Bool, true, false, ◌&&◌, none, some, [], ◌∷◌,
  if◌then◌else◌, ◌==◌, ltb, length, for_below, first_below, any_below, count_below, arith,
}
use old_derecho.Sst.{put}
use old_derecho.Tests.Data.{a_row, table, a_view, healthy_view, node_of}
use old_derecho.Group.Setup.{wedge, destroy_groups}
use old_derecho.View.{
  View, member, has_failed, rank_of, rank_of_leader, i_am_leader, empty, init_vectors, resize,
}
use old_derecho.Gms.{Node, Result, ok, err, sst, mine, leader_row, assert_rank, for_below_result}
use old_derecho.Gms.Suspect.{
  aggregate, suspected_changed_trig, mark_failed, copy_suspected, freeze_member, propose_removal,
  changes_contains,
}
use old_derecho.Gms.Suspect.Marked.{IsCounted, HasMajority}
use old_derecho.Gms.Suspect.Majority.{suspected_changed_trig_majority}
use old_derecho.Gms.Commit.{min_acked, change_commit_ready, commit_change, ack_proposed_change}
use old_derecho.Gms.Commit.Agreement.{commit_change_lem, ack_proposed_change_lem}
use old_derecho.Gms.NextView.{next_view, copy_members, copy_member, prepare_view}
use old_derecho.Gms.NextView.Members.{next_view_departed, next_view_joined}
use old_derecho.Gms.Ragged.{leader_global_min}
use old_derecho.Gms.Ragged.Minimum.{IsInt, IsLeast, leader_global_min_lem}

-- The row of member 2 alone suspects member 1.
abbrev suspecting : Node
suspecting = node_of healthy_view 0 (λ k. record a_row { suspected = λ i. k == 2 && i == 1 })

abbrev is_ok : {A : Type 0} → Result A → Bool
is_ok (ok a) = true
is_ok (err e) = false

abbrev get_ok : {A : Type 0} → Result A → A → A
get_ok (ok a) d = a
get_ok (err e) d = d

ok-get_ok : {A : Type 0} (m : Result A) (d : A) → is_ok m ≡ true → m ≡ ok (get_ok m d)
ok-get_ok (ok a) d h = refl
ok-get_ok (err e) d h = cc

suspected : Node
suspected = get_ok (suspected_changed_trig 3 suspecting) suspecting

suspecting-is_ok : is_ok (suspected_changed_trig 3 suspecting) ≡ true
unfolding suspected_changed_trig assert_rank aggregate mark_failed copy_suspected freeze_member
    propose_removal for_below_result for_below changes_contains i_am_leader rank_of_leader
    first_below any_below wedge destroy_groups
suspecting-is_ok = refl

suspected-ok : suspected_changed_trig 3 suspecting ≡ ok suspected
unfolding suspected
suspected-ok = ok-get_ok (suspected_changed_trig 3 suspecting) suspecting suspecting-is_ok

-- The leader, row 0, has proposed a change that member 2 has not acknowledged.
abbrev follower : Node
follower = node_of a_view 2 (λ k. if k == 0 then record a_row { n_changes = 1 } else a_row)

unfoldable acknowledged : Node
unfolding ack_proposed_change assert_rank leader_row rank_of_leader first_below
acknowledged = elim (ack_proposed_change 3 follower) [ err e ↦ follower | ok s ↦ s ]

-- Everybody has acknowledged a change.
abbrev leader : Node
leader = node_of a_view 0 (λ k. record a_row { n_changes = 1; n_acked = 1 })

unfoldable without_20 : View
unfolding next_view copy_members copy_member prepare_view empty init_vectors resize rank_of
    first_below for_below
without_20 = elim (next_view 20 [] a_view) [ err e ↦ a_view | ok v ↦ v ]

unfoldable with_40 : View
unfolding next_view copy_members copy_member prepare_view empty init_vectors resize rank_of
    first_below for_below
with_40 = elim (next_view 40 [] a_view) [ err e ↦ a_view | ok v ↦ v ]

suspected_changed_trig_majority_example :
    HasMajority suspected.view
    × IsCounted suspected.view
    × (suspected.view.members ≡ suspecting.view.members)
    × ((i : ℕ) → has_failed suspecting.view i ≡ true → has_failed suspected.view i ≡ true)
    × ((r i : ℕ)
        → r < suspecting.view.num_members
        → i < suspecting.view.num_members
        → ((sst suspecting).rows r).suspected i ≡ true
        → has_failed suspected.view i ≡ true)
    × ((i : ℕ)
        → i < suspecting.view.num_members
        → (mine suspecting).suspected i ≡ true
        → has_failed suspected.view i ≡ true)
unfolding count_below
suspected_changed_trig_majority_example =
    suspected_changed_trig_majority 3 suspecting suspected (record { sized = refl; exact = refl })
      (omega arith) suspected-ok

ack_proposed_change_lem_example :
    let l = (sst follower).rows 0 in
    ((mine acknowledged).n_acked ≡ l.n_changes)
    × ((mine acknowledged).wedged ≡ true)
    × (0 ≢ (sst follower).local_index
        → ((i : ℕ) → i < 3 → (mine acknowledged).changes i ≡ l.changes i)
          × ((mine acknowledged).n_changes ≡ l.n_changes)
          × ((mine acknowledged).n_committed ≡ l.n_committed))
    × ((n : ℕ) → n ≢ (sst follower).local_index → (sst acknowledged).rows n ≡ (sst follower).rows n)
    × (acknowledged.view ≡ follower.view)
unfolding acknowledged ack_proposed_change assert_rank leader_row rank_of_leader first_below
ack_proposed_change_lem_example = ack_proposed_change_lem 3 0 follower acknowledged refl refl

commit_change_lem_example :
    let s' = commit_change leader in
    (rank_of_leader leader.view ≡ some leader.view.my_rank)
    × ((mine leader).n_committed < (mine s').n_committed)
    × ((mine s').n_committed ≤ (mine leader).n_acked)
    × ((n : ℕ)
        → n < length leader.view.failed
        → has_failed leader.view n ≡ false
        → (mine s').n_committed ≤ ((sst leader).rows n).n_acked)
    × ((n : ℕ) → n ≢ (sst leader).local_index → (sst s').rows n ≡ (sst leader).rows n)
    × ((sst s').calls ≡ put (mine s') ∷ (sst leader).calls)
unfolding change_commit_ready min_acked rank_of_leader first_below for_below
commit_change_lem_example = commit_change_lem leader refl

next_view_departed_example :
    (without_20.vid ≡ a_view.vid + 1)
    × (without_20.who ≡ some 20)
    × (without_20.num_members + 1 ≡ a_view.num_members)
    × ((j : ℕ)
        → j < without_20.num_members
        → (member without_20 j ≡ member a_view (if ltb j 1 then j else suc j))
          × (has_failed without_20 j ≡ has_failed a_view (if ltb j 1 then j else suc j)))
    × (member without_20 without_20.my_rank ≡ member a_view a_view.my_rank)
unfolding without_20 next_view copy_members copy_member prepare_view empty init_vectors resize
    rank_of first_below for_below
next_view_departed_example = next_view_departed 20 [] a_view without_20 1 refl refl

next_view_joined_example :
    (with_40.vid ≡ a_view.vid + 1)
    × (with_40.who ≡ some 40)
    × (with_40.num_members ≡ a_view.num_members + 1)
    × ((j : ℕ)
        → j < a_view.num_members
        → (member with_40 j ≡ member a_view j) × (has_failed with_40 j ≡ has_failed a_view j))
    × (member with_40 a_view.num_members ≡ 40)
    × (has_failed with_40 a_view.num_members ≡ false)
    × (member with_40 with_40.my_rank ≡ member a_view a_view.my_rank)
unfolding with_40 next_view copy_members copy_member prepare_view empty init_vectors resize rank_of
    first_below for_below
next_view_joined_example = next_view_joined 40 [] a_view with_40 refl refl

leader_global_min_lem_example :
    let shown = (leader_global_min 0 2 (table 0 (λ k. a_row))).rows 0 in
    ((first : ℕ)
      → first_below 2 (λ n. ((table 0 (λ k. a_row)).rows n).global_min_ready) ≡ some first
      → (n : ℕ) → n < 2
      → shown.global_min n ≡ ((table 0 (λ k. a_row)).rows first).global_min n)
    × (first_below 2 (λ n. ((table 0 (λ k. a_row)).rows n).global_min_ready) ≡ none
        → (n : ℕ) → n < 2
        → IsLeast 2 (table 0 (λ k. a_row)) n (shown.global_min n))
    × (shown.global_min_ready ≡ true)
    × ((r : ℕ)
        → r ≢ 0
        → (leader_global_min 0 2 (table 0 (λ k. a_row))).rows r ≡ (table 0 (λ k. a_row)).rows r)
unfolding IsInt
leader_global_min_lem_example =
    leader_global_min_lem 0 2 (table 0 (λ k. a_row)) (omega arith) (λ r n. omega arith)
