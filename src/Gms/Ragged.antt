-- ===== src/Gms/Ragged.antt =====
-- The cleanup at the end of a view (managed_group_impl.h): ragged_edge_cleanup, its two sides, and
-- deliver_in_order. What the dispatcher replies is the parameter of delivery.
pub mod Minimum
use old_derecho.Base.{
  ℕ, zero, suc, ◌+◌, ◌-◌, ◌%◌, ◌^◌, Bool, true, false, Option, none, some, if◌then◌else◌, ltb, ℤ,
  pos, negsuc, ltb_ℤ, update, for_below, first_below,
}
use old_derecho.Row.{Row, copy_array}
use old_derecho.Sst.{Sst, my_row, write_row, put_row}
use old_derecho.Group.{Group, Buffer}
use old_derecho.Group.Deliver.{deliver_messages_upto}
use old_derecho.View.{i_am_leader, rank_of_leader}
use old_derecho.Gms.{◌>>=◌, Node, Result, ok, err, sst, with_sst, undefined_behaviour}

-- A conversion to a 32-bit int.
unfoldable pub to_int : ℤ → ℤ
to_int (pos n) = let r = n % 2 ^ 32 in if ltb r (2 ^ 31) then pos r else negsuc (2 ^ 32 - r - 1)
to_int (negsuc n) = let r = n % 2 ^ 32 in if ltb r (2 ^ 31) then negsuc r else pos (2 ^ 32 - r - 1)

-- The least number of messages of member n that a row shows, over the first k rows.
unfoldable pub min_received : Sst → ℕ → ℕ → ℕ → ℤ
unfolding to_int
min_received t my_rank n k =
    for_below k
      (λ r m. if ltb_ℤ ((t.rows r).n_received n) m then to_int ((t.rows r).n_received n) else m)
      (to_int ((t.rows my_rank).n_received n))

unfoldable pub set_min : Sst → ℕ → ℕ → ℤ → Sst
set_min t my_rank n m =
    write_row t my_rank
      (record (t.rows my_rank) { global_min = update (t.rows my_rank).global_min n m })

-- The minimum of the first member that shows one, else the minimum of what the members show.
unfoldable pub leader_minimum : ℕ → ℕ → Sst → Sst
unfolding min_received set_min copy_array
leader_minimum my_rank num_members t =
    elim (first_below num_members (λ n. (t.rows n).global_min_ready)) [
      | some n ↦ write_row t my_rank (record (t.rows my_rank) {
        global_min = copy_array num_members (t.rows my_rank).global_min (t.rows n).global_min;
      })
      | none ↦
          for_below num_members (λ n u. set_min u my_rank n (min_received u my_rank n num_members))
            t
    ]

-- leader_ragged_edge_cleanup up to the delivery
unfoldable pub leader_global_min : ℕ → ℕ → Sst → Sst
unfolding leader_minimum
leader_global_min my_rank num_members t =
    let u = leader_minimum my_rank num_members t in
    put_row (write_row u my_rank (record (u.rows my_rank) { global_min_ready = true }))

-- follower_ragged_edge_cleanup up to the delivery
unfoldable pub follower_global_min : ℕ → ℕ → ℕ → Sst → Sst
unfolding copy_array
follower_global_min my_rank leader num_members t = put_row (
    write_row t my_rank (record (t.rows my_rank) {
      global_min = copy_array num_members (t.rows my_rank).global_min (t.rows leader).global_min;
      global_min_ready = true;
    }))

module _ (reply_size : Buffer → ℕ → ℕ) where
  -- deliver_in_order
  unfoldable pub deliver_in_order : ℕ → Node → Result Node
  deliver_in_order leader s =
      elim (deliver_messages_upto reply_size s.group ((sst s).rows leader).global_min) [
        | none ↦ err undefined_behaviour
        | some g ↦ ok (record s { group = g })
      ]

  -- ragged_edge_cleanup
  unfoldable pub ragged_edge_cleanup : Node → Result Node
  unfolding leader_global_min follower_global_min deliver_in_order
  ragged_edge_cleanup s = elim (rank_of_leader s.view) [
    | none ↦ err undefined_behaviour
    | some leader ↦
        let n = s.view.num_members in
        let t =
          if i_am_leader s.view
          then leader_global_min s.view.my_rank n (sst s)
          else follower_global_min s.view.my_rank leader n (sst s) in
        deliver_in_order leader (with_sst s t)
  ]
