-- ===== src/Group/Setup.antt =====
-- What the constructors of DerechoGroup and its shutdown do besides the message state
-- (derecho_group_impl.h): initialize_sst_row, create_rdmc_groups, wedge.
pub mod Sizes
use old_derecho.Base.{
  ℕ, zero, suc, ◌+◌, ◌%◌, Bool, true, false, ◌&&◌, List, [], ◌∷◌, if◌then◌else◌, ltb, get_or,
  length, negsuc, update, for_below, any_below,
}
use old_derecho.Row.{Row}
use old_derecho.Sst.{write_row, put_row, call, sync_with_members, remove, Predicate}
use old_derecho.Group.{
  Group, emit, rdmc_create_group, rdmc_destroy_group, connections_destroy, notify_sender,
}
use old_derecho.Group.Stable.{register_predicates}

-- The inner loop of initialize_sst_row and the four counters behind it.
unfoldable pub reset_counters : ℕ → Row → Row
reset_counters n r = record r {
  n_received = for_below n (λ j a. update a j (negsuc 0)) r.n_received;
  seq_num = negsuc 0;
  stable_num = negsuc 0;
  delivered_num = negsuc 0;
  persisted_num = negsuc 0;
}

unfoldable pub initialize_sst_row : Group → Group
unfolding reset_counters
initialize_sst_row g = record g {
  sst =
      call
        (put_row (
          for_below g.num_members (λ i t. write_row t i (reset_counters g.num_members (t.rows i)))
            g.sst))
        sync_with_members;
}

-- rotated_members for one group: the list of rotated_members[j], j below n.
unfoldable pub rotated_from : Group → ℕ → ℕ → ℕ → List ℕ
rotated_from g groupnum j zero = []
rotated_from g groupnum j (suc n) =
    get_or g.members ((groupnum + j) % g.num_members) 0 ∷ rotated_from g groupnum (j + 1) n

unfoldable pub rotated_members : Group → ℕ → List ℕ
unfolding rotated_from
rotated_members g groupnum = rotated_from g groupnum 0 g.num_members

-- create_rdmc_groups, from group `k` on with n to go. `created` is what rdmc::create_group returns
-- for a group number; the first failure ends the loop.
unfoldable pub create_groups_from : (ℕ → Bool) → ℕ → ℕ → Group → Bool × Group
unfolding rotated_members
create_groups_from created k zero g = (true, g)
create_groups_from created k (suc n) g =
    let number = k + g.rdmc_group_num_offset in
    let g' = emit g (rdmc_create_group number (rotated_members g k)) in
    let rest = create_groups_from created (k + 1) n g' in
    if created number then rest else (false, g')

unfoldable pub create_rdmc_groups : (ℕ → Bool) → Group → Bool × Group
unfolding create_groups_from
create_rdmc_groups created g = create_groups_from created 0 g.num_members g

unfoldable pub destroy_groups : ℕ → Group → Group
destroy_groups n g =
    for_below n (λ i h. emit h (rdmc_destroy_group (i + g.rdmc_group_num_offset))) g

-- wedge. The threads that are joined have no counterpart.
unfoldable pub wedge : Group → Group
wedge g =
    if g.thread_shutdown
    then g
    else (let down = record g {
      thread_shutdown = true;
      sst = remove (remove (remove g.sst Predicate.stability) Predicate.delivery) Predicate.sender;
    } in
        emit (emit (destroy_groups g.num_members down) connections_destroy) notify_sender)

-- The end of both constructors: groups are created only if no member has failed before.
unfoldable pub finish : (ℕ → Bool) → List Bool → Group → Group
unfolding initialize_sst_row create_rdmc_groups register_predicates
finish created already_failed g =
    let g' = initialize_sst_row g in
    let some_failed =
      any_below g.num_members
        (λ i. ltb 0 (length already_failed) && get_or already_failed i false) in
    let (ok, g'') = create_rdmc_groups created g' in
    if some_failed
    then register_predicates g'
    else register_predicates (record g'' { rdmc_groups_created = ok })
