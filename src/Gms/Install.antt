-- ===== src/Gms/Install.antt =====
-- How a view begins (managed_group_impl.h): globalMin_ready_continuation, which installs the next
-- view, transition_sst_and_rdmc, start_group, setup_derecho and the first steps of the constructors.
-- The new table comes from the table library; what goes to sockets, to RDMA, to the disk and to the
-- application's upcalls is a list of actions. A null pointer that is used is undefined.
use old_derecho.Base.{
  ℕ, ◌+◌, ◌-◌, Bool, true, false, not, ◌&&◌, Option, none, some, List, [], ◌∷◌, ◌++◌, if◌then◌else◌,
  ltb, ◌==◌, get_or, set, length, for_below,
}
use old_derecho.Row.{init, init_from_existing}
use old_derecho.Sst
use old_derecho.Sst.{Sst, Predicate, my_row, write_my, write_row, put_row, call, insert, remove}
use old_derecho.View.{View, Ip, empty, member, rank_of, i_am_leader, i_am_the_new_leader}
use old_derecho.View.Changes.{merge_changes}
use old_derecho.Group.{Buffer, Group}
use old_derecho.Group.Transition.{next_group}
use old_derecho.Gms.{Node, Result, ok, err, ◌>>=◌, mine, undefined_behaviour}
use old_derecho.Gms.Ragged.{ragged_edge_cleanup}

pub data Action : Type 0 where
  -- commit_join on the joining client's socket, and send_objects
  send_view : View → Action
  send_objects : Action
  -- verbs_add_connection and sst::add_node
  add_node : ℕ → Ip → Action
  persist_view : View → Action
  -- view_upcall(new_members, old_members), for every upcall
  view_upcall : List ℕ → List ℕ → Action

-- Nodes and addresses by their IDs (get_member_ips_map); a later entry replaces an earlier one.
unfoldable pub assign_ip : ℕ → Ip → List (ℕ × Ip) → List (ℕ × Ip)
assign_ip id a [] = (id, a) ∷ []
assign_ip id a ((j, b) ∷ m) =
    let rest = assign_ip id a m in
    if j == id then (id, a) ∷ m else if ltb id j then (id, a) ∷ (j, b) ∷ m else (j, b) ∷ rest

unfoldable pub get_member_ips_map : List ℕ → List Ip → List Bool → List (ℕ × Ip)
unfolding assign_ip
get_member_ips_map members member_ips failed =
    for_below (length members)
      (λ i m.
        if get_or failed i false
        then m
        else assign_ip (get_or members i 0) (get_or member_ips i []) m)
      []

-- register_predicates
unfoldable pub register_predicates : Sst → Sst
register_predicates t =
    insert
      (insert
        (insert (insert (insert t Predicate.suspected_changed) Predicate.start_join)
          Predicate.change_commit_ready)
        Predicate.leader_proposed)
      Predicate.leader_committed

-- start_group
unfoldable pub start_group : ℕ → Ip → View
unfolding empty
start_group my_id my_ip =
    let v = empty 1 in
    record v {
      members = set v.members 0 my_id;
      my_rank = 0;
      member_ips = set v.member_ips 0 my_ip;
      failed = set v.failed 0 false;
      i_know_i_am_leader = true;
    }

-- The member that the leader of a new group waits for, in its constructors.
unfoldable pub add_joiner : ℕ → Ip → View → View
add_joiner client_id joiner_ip v = record v {
  num_members = v.num_members + 1;
  member_ips = v.member_ips ++ joiner_ip ∷ [];
  members = v.members ++ client_id ∷ [];
  failed = v.failed ++ false ∷ [];
}

-- The view with which a constructor starts: of a leader, and of a member that joins (the view is what
-- the leader sent). The constructor that recovers a saved view is not modelled: it gives join_existing
-- an argument more than that takes.
unfoldable pub leader_view : ℕ → Ip → ℕ → Ip → View
unfolding start_group add_joiner
leader_view my_id my_ip client_id joiner_ip =
    add_joiner client_id joiner_ip (start_group my_id my_ip)

unfoldable pub joined_view : ℕ → View → Result View
unfolding rank_of
joined_view my_id v = elim (rank_of v my_id) [
  | none ↦ err undefined_behaviour
  | some r ↦ ok (record v { my_rank = r })
]

module _ (max_members : ℕ) where
  -- setup_derecho up to the group: every row is initialised, the own one with the view's ID.
  unfoldable pub setup_rows : View → Sst → Sst
  setup_rows v t =
      let u = for_below v.num_members (λ r t. write_row t r (init max_members (t.rows r))) t in
      write_row u v.my_rank (record (u.rows v.my_rank) { vid = v.vid })

  -- transition_sst_and_rdmc: the group in the new view. `table` is the new table.
  unfoldable pub transition_sst_and_rdmc :
      (ℕ → Buffer) → (ℕ → Bool) → ℕ → View → Sst → Node → Option Group
  unfolding next_group
  transition_sst_and_rdmc make created upcall new_view table s =
      let me = new_view.my_rank in
      elim (next_group make created new_view.members (member new_view me) table s.group
        new_view.failed upcall) [
          | none ↦ none
          | some g ↦
              let row = init_from_existing max_members (g.sst.rows me) (mine s) in
              some (record g { sst = write_row g.sst me (record row { vid = new_view.vid }) })
        ]

  -- The first task of a new leader.
  unfoldable pub lead : View → Sst → View × Sst
  lead v t =
      let (new_leader, v') = i_am_the_new_leader v t in
      if new_leader then (v', merge_changes max_members v' t) else (v', t)

  -- What the leader sends to a member that joins, and the connections to it.
  unfoldable pub join_actions : Bool → View → View → List Action
  join_actions failed v next =
      (if i_am_leader v && not failed then send_view next ∷ send_objects ∷ [] else [])
      ++ (if ltb (length v.members) (length next.members)
          then add_node (get_or next.members (length next.members - 1) 0)
              (get_or next.member_ips (length next.member_ips - 1) [])
            ∷ []
          else [])

  -- globalMin_ready_continuation; `failed` tells whether the change is a removal.
  unfoldable pub install_view :
      (Buffer → ℕ → ℕ)
      → (ℕ → Buffer)
      → (ℕ → Bool)
      → ℕ
      → Sst
      → Bool
      → Bool
      → Node
      → Result (Node × List Action)
  unfolding transition_sst_and_rdmc register_predicates lead join_actions
  install_view reply_size make created upcall table persistent failed s = elim s.next_view [
    | none ↦ err undefined_behaviour
    | some next ↦ do
      s1 ← ragged_edge_cleanup reply_size s
      elim (transition_sst_and_rdmc make created upcall next table s1) [
        | none ↦ err undefined_behaviour
        | some g ↦
            let synced = call (put_row g.sst) Sst.sync_with_members in
            let started = call (register_predicates synced) Sst.start_predicate_evaluation in
            let (v, t) = lead next started in
            ok (
              record s1 {
                view = v;
                group = record g { sst = t };
                next_view = none;
                joining_client_socket =
                    if i_am_leader s1.view && not failed then none else s1.joining_client_socket;
              },
              join_actions failed s1.view next
                  ++ ((if persistent then persist_view next ∷ [] else [])
                      ++ view_upcall next.members s1.view.members ∷ []),
            )
      ]
  ]
