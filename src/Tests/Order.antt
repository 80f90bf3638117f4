-- ===== src/Tests/Order.antt =====
-- A view of one member that receives its own message and delivers it.
use old_derecho.Base.{
  ◌≡◌, refl, none, some, [], ◌∷◌, update, arith, pos, ◌+ℤ◌, ◌-ℤ◌, ◌*ℤ◌, for_below,
}
use old_derecho.Base.Maps.{assign}
use old_derecho.Tests.Data.{a_row, table, a_header, a_message, pair_member, no_reply}
use old_derecho.Group.{Group, own}
use old_derecho.Group.Order.{new_seq_num, min_index}
use old_derecho.Group.Receive.{
  receive_handler, count_received, move_message, skip_turns, update_seq_num,
}
use old_derecho.Group.Setup.{initialize_sst_row, reset_counters}
use old_derecho.Group.Deliver.{deliver_message, keep_or_free}
use old_derecho.Group.Stable.{min_over, stability_trig, delivery_trig}
use old_derecho.System.{System, IsStart, start, Reach, here, next, receives, stabilises, delivers}
use old_derecho.System.Waiting.{Took, AllWait}
use old_derecho.System.TotalOrder.{NoneWait, Reach-AllWait, delivers_in_order}
use old_derecho.System.Spec.{Behaviour}
use old_derecho.System.Refinement.{past, multicast, multicast-Behaviour}

-- The member has just sent its first message.
abbrev alone : System
alone i = record (pair_member 0) {
  members = 10 ∷ [];
  num_members = 1;
  current_send = some (record a_message { sender_rank = 0 });
  sst = table 0 (λ k. a_row);
}

alone-IsStart : IsStart 1 alone
alone-IsStart = record { size = λ i lt. refl; index = λ i lt. omega (arith, lt) }

alone-NoneWait : NoneWait 1 alone
alone-NoneWait i lt = refl

unfoldable group_received : Group
unfolding receive_handler count_received move_message skip_turns update_seq_num initialize_sst_row
group_received = elim (receive_handler (start alone 0) 0 a_header) [
  | none ↦ start alone 0
  | some g ↦ g
]

abbrev received : System
received = update (start alone) 0 group_received

abbrev stable : System
stable = update received 0 (stability_trig (received 0))

unfoldable group_delivered : Group
unfolding delivery_trig min_over deliver_message keep_or_free
group_delivered = elim (delivery_trig no_reply (stable 0)) [ none ↦ stable 0 | some g ↦ g ]

stable-Reach : Reach no_reply 1 alone stable
unfolding receive_handler count_received move_message skip_turns update_seq_num group_received
    initialize_sst_row assign
stable-Reach =
    next (next here (receives 0 0 a_header group_received (omega arith) (omega arith) refl))
      (stabilises 0 (omega arith))

takes : delivery_trig no_reply (stable 0) ≡ some group_delivered
unfolding group_delivered delivery_trig min_over deliver_message keep_or_free stability_trig
    for_below group_received receive_handler count_received move_message skip_turns update_seq_num
    initialize_sst_row reset_counters new_seq_num min_index assign ◌+ℤ◌ ◌-ℤ◌ ◌*ℤ◌
takes = refl

-- It is delivered: the first of all messages.
first_delivered : (own group_delivered).delivered_num ≡ pos 0
unfolding group_delivered delivery_trig min_over deliver_message keep_or_free stability_trig
    for_below group_received receive_handler count_received move_message skip_turns update_seq_num
    initialize_sst_row reset_counters new_seq_num min_index assign ◌+ℤ◌ ◌-ℤ◌ ◌*ℤ◌
first_delivered = refl

delivers_in_order_example : Took no_reply 1 (stable 0) group_delivered
delivers_in_order_example =
    delivers_in_order no_reply 1 alone stable 0 group_delivered (omega arith) alone-IsStart
      alone-NoneWait stable-Reach (omega arith) takes

delivered-Reach : Reach no_reply 1 alone (update stable 0 group_delivered)
delivered-Reach = next stable-Reach (delivers 0 group_delivered (omega arith) takes)

multicast-Behaviour_example :
    Behaviour 1 (past delivered-Reach) (multicast (update stable 0 group_delivered))
multicast-Behaviour_example =
    multicast-Behaviour no_reply 1 alone (update stable 0 group_delivered) (omega arith)
      alone-IsStart alone-NoneWait delivered-Reach

Reach-AllWait_example : AllWait 1 stable
Reach-AllWait_example =
    Reach-AllWait no_reply 1 alone stable (omega arith) alone-IsStart alone-NoneWait stable-Reach
