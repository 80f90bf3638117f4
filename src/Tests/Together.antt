-- ===== src/Tests/Together.antt =====
-- Two members of one view: both receive a message of the first, see each other's rows, and the first
-- one delivers the message.
use old_derecho.Base.{
  ◌≡◌, refl, none, some, [], ◌∷◌, update, arith, pos, ◌≤ℤ◌, ◌+ℤ◌, ◌-ℤ◌, ◌*ℤ◌, for_below,
}
use old_derecho.Base.Maps.{find, assign, emplace, erase}
use old_derecho.Tests.Data.{a_row, table, a_header, a_message, pair_member, no_reply}
use old_derecho.Group.{Group, own}
use old_derecho.Group.Order.{ReceivedUpTo, new_seq_num, min_index}
use old_derecho.Group.Receive.{
  receive_handler, count_received, move_message, skip_turns, update_seq_num,
}
use old_derecho.Group.Setup.{initialize_sst_row, reset_counters}
use old_derecho.Group.Deliver.{deliver_message, keep_or_free}
use old_derecho.Group.Stable.{min_over, stability_trig, delivery_trig}
use old_derecho.System.{
  System, IsStart, start, see, Reach, here, next, receives, stabilises, delivers, sees,
}
use old_derecho.System.Safety.{delivered_everywhere}

-- Member 0 has just sent its first message, for which member 1 has given a destination.
abbrev pair_start : System
pair_start i = record (pair_member i) {
  sst = table i (λ k. a_row);
  current_send = some (record a_message { sender_rank = 0 });
  current_receives = (pos 0, record a_message { sender_rank = 0 }) ∷ [];
}

pair_start-IsStart : IsStart 2 pair_start
pair_start-IsStart = record { size = λ i lt. refl; index = λ i lt. refl }

unfoldable first_received : Group
unfolding receive_handler count_received move_message skip_turns update_seq_num initialize_sst_row
first_received = elim (receive_handler (start pair_start 0) 0 a_header) [
  | none ↦ start pair_start 0
  | some g ↦ g
]

unfoldable second_received : Group
unfolding receive_handler count_received move_message skip_turns update_seq_num initialize_sst_row
second_received = elim (receive_handler (start pair_start 1) 0 a_header) [
  | none ↦ start pair_start 1
  | some g ↦ g
]

abbrev both_received : System
both_received = update (update (start pair_start) 0 first_received) 1 second_received

abbrev both_see : System → System
both_see s = let t = update s 0 (see s 0 1) in update t 1 (see t 1 0)

abbrev both_stable : System
both_stable =
    let s = both_see both_received in
    let t = update s 0 (stability_trig (s 0)) in both_see (update t 1 (stability_trig (t 1)))

unfoldable first_delivered : Group
unfolding delivery_trig min_over deliver_message keep_or_free
first_delivered = elim (delivery_trig no_reply (both_stable 0)) [
  | none ↦ both_stable 0
  | some g ↦ g
]

both_received-Reach : Reach no_reply 2 pair_start both_received
unfolding receive_handler count_received move_message skip_turns update_seq_num first_received
    second_received initialize_sst_row assign find emplace erase ◌+ℤ◌ ◌*ℤ◌ for_below
both_received-Reach =
    next (next here (receives 0 0 a_header first_received (omega arith) (omega arith) refl))
      (receives 1 0 a_header second_received (omega arith) (omega arith) refl)

both_stable-Reach : Reach no_reply 2 pair_start both_stable
both_stable-Reach =
    let seen =
      next (next both_received-Reach (sees 0 1 (omega arith) (omega arith)))
        (sees 1 0 (omega arith) (omega arith)) in
    let stable = next (next seen (stabilises 0 (omega arith))) (stabilises 1 (omega arith)) in
    next (next stable (sees 0 1 (omega arith) (omega arith))) (sees 1 0 (omega arith) (omega arith))

takes : delivery_trig no_reply (both_stable 0) ≡ some first_delivered
unfolding first_delivered delivery_trig min_over deliver_message keep_or_free stability_trig see
    for_below first_received second_received receive_handler count_received move_message skip_turns
    update_seq_num initialize_sst_row reset_counters new_seq_num min_index assign find emplace erase
    ◌+ℤ◌ ◌-ℤ◌ ◌*ℤ◌
takes = refl

abbrev pair_later : System
pair_later = update both_stable 0 first_delivered

pair_later-Reach : Reach no_reply 2 pair_start pair_later
pair_later-Reach = next both_stable-Reach (delivers 0 first_delivered (omega arith) takes)

-- The message has been delivered.
zero_delivered : (own (pair_later 0)).delivered_num ≡ pos 0
unfolding first_delivered delivery_trig min_over deliver_message keep_or_free stability_trig see
    for_below first_received second_received receive_handler count_received move_message skip_turns
    update_seq_num initialize_sst_row reset_counters new_seq_num min_index assign find emplace erase
    ◌+ℤ◌ ◌-ℤ◌ ◌*ℤ◌
zero_delivered = refl

delivered_everywhere_example :
    ((own (pair_later 0)).delivered_num ≤ℤ (own (pair_later 1)).stable_num)
    × ((own (pair_later 0)).delivered_num ≤ℤ (own (pair_later 1)).seq_num)
    × ReceivedUpTo 2 (own (pair_later 1)).n_received (own (pair_later 0)).delivered_num
delivered_everywhere_example =
    delivered_everywhere no_reply 2 pair_start pair_later 0 1 (omega arith) pair_start-IsStart
      pair_later-Reach (omega arith) (omega arith)
