-- ===== src/Tests/Messages.antt =====
-- Receipt, order, stability and delivery in a group of two.
use old_derecho.Base.{
  ◌<ℤ◌, ℕ, zero, suc, ◌+◌, ◌<◌, ◌≡◌, refl, ◌≢◌, ◌⊎◌, true, false, none, some, [], ◌∷◌, get_or,
  for_below, arith, ℤ, pos, ◌≤ℤ◌, ◌+ℤ◌, ◌-ℤ◌, ◌*ℤ◌,
}
use old_derecho.Tests.Data.{
  a_row, table, a_header, a_buffer, a_message, pair_member, no_reply, ready_group, a_writer,
}
use old_derecho.Group.{put as put_group, write_own}
use old_derecho.Group.{Buffer, Group, own}
use old_derecho.Group.Order.{new_seq_num, min_index, ReceivedUpTo, new_seq_num_greatest}
use old_derecho.Group.Receive.{
  receive_handler, receive_destination, count_received, move_message, skip_turns, update_seq_num,
}
use old_derecho.Base.Maps.{find, assign}
use old_derecho.Group.Receive.Count.{Received, receive_handler-Received}
use old_derecho.Group.Receive.Arrival.{receive_after_destination}
use old_derecho.Group.Deliver.{deliver_message, keep_or_free}
use old_derecho.Group.Stable.{min_over, stability_trig, delivery_trig}
use old_derecho.Group.Send.{get_position}
use old_derecho.Group.Send.Window.{Refused, Granted, get_position-window}
use old_derecho.Group.{sequence_number}
use old_derecho.Group.Deliver.{logged}
use old_derecho.Group.Transition.Written.{message_written-keep_or_free}
use old_derecho.Group.Transition.{message_written, next_group}
use old_derecho.Group.Setup.{wedge, destroy_groups}
use old_derecho.Group.Transition.Indices.{handed_turns, next_group-index}
use old_derecho.Group.Stable.Trigger.{stability_trig_lem}
use old_derecho.Group.Stable.Delivery.{Delivered, delivery_trig-Delivered}

unfoldable assigned : Group
unfolding receive_destination
assigned = elim (receive_destination (pair_member 0) 1 10) [
  | none ↦ pair_member 0
  | some (b, g) ↦ g
]

unfoldable received : Group
unfolding receive_handler count_received move_message skip_turns update_seq_num assigned
received = elim (receive_handler assigned 1 a_header) [ none ↦ assigned | some g ↦ g ]

-- The old group has one message of another member that is still being written.
abbrev writing_group : Group
writing_group = record (pair_member 0) { non_persistent_messages = (pos 1, a_message) ∷ [] }

unfoldable next_pair : Group
unfolding next_group
next_pair =
    elim (next_group (λ n. a_buffer) (λ n. true) (10 ∷ 20 ∷ []) 10 (table 0 (λ k. a_row))
      writing_group [] 0) [ none ↦ writing_group | some g ↦ g ]

abbrev logging_group : Group
logging_group = record (pair_member 0) { file_writer = some a_writer }

other_id : (j : ℕ) → j < 1 → get_or logging_group.members j 0 ≢ 20
other_id zero lt = ground arith
other_id (suc j) lt = absurd (omega arith)

unfoldable delivered : Group
unfolding delivery_trig min_over deliver_message keep_or_free
delivered = elim (delivery_trig no_reply ready_group) [ none ↦ ready_group | some g ↦ g ]

new_seq_num_greatest_example :
    ReceivedUpTo 2 (λ i. pos i) (new_seq_num 2 (λ i. pos i))
    × ((s : ℤ) → ReceivedUpTo 2 (λ i. pos i) s → s ≤ℤ new_seq_num 2 (λ i. pos i))
new_seq_num_greatest_example =
    new_seq_num_greatest 2 (λ i. pos i) (omega arith) (λ i lt. omega arith)

receive_handler-Received_example : Received assigned 1 (1 + 0) received
unfolding receive_destination receive_handler count_received move_message skip_turns update_seq_num
    assigned received new_seq_num min_index for_below ◌-ℤ◌ ◌+ℤ◌ ◌*ℤ◌ find assign
receive_handler-Received_example =
    receive_handler-Received assigned received 1 a_header
      (record { some_member = omega arith; started = λ i lt. omega arith; current = refl }) refl

receive_after_destination_example : (g'' : Group) × (receive_handler assigned 1 a_header ≡ some g'')
unfolding assigned receive_destination
receive_after_destination_example =
    receive_after_destination (pair_member 0) assigned 1 10 a_buffer a_header (ground arith) refl

stability_trig_lem_example :
    (k : ℕ) × (k < ready_group.num_members)
    × ((i : ℕ)
        → i < ready_group.num_members
        → (ready_group.sst.rows k).seq_num ≤ℤ (ready_group.sst.rows i).seq_num)
    × ((own ready_group).stable_num <ℤ (ready_group.sst.rows k).seq_num
        → stability_trig ready_group
          ≡ put_group (
              write_own ready_group
                (record (own ready_group) { stable_num = (ready_group.sst.rows k).seq_num })))
    × ((ready_group.sst.rows k).seq_num ≤ℤ (own ready_group).stable_num
        → stability_trig ready_group ≡ ready_group)
stability_trig_lem_example = stability_trig_lem ready_group (omega arith)

delivery_trig-Delivered_example : Delivered no_reply ready_group delivered
unfolding delivered delivery_trig min_over deliver_message keep_or_free for_below
delivery_trig-Delivered_example =
    delivery_trig-Delivered no_reply ready_group delivered (omega arith) refl

next_group-index_example : next_pair.future_message_index ≡ pos (handed_turns writing_group)
unfolding next_pair next_group wedge destroy_groups for_below
next_group-index_example =
    next_group-index (λ n. a_buffer) (λ n. true) (10 ∷ 20 ∷ []) 10 (table 0 (λ k. a_row))
      writing_group next_pair [] 0 refl

get_position-window_example :
    ((get_position (pair_member 0) 5 0 false ≡ none) × Refused (pair_member 0) 5)
    ⊎ ((b : Buffer) × (g' : Group) × (get_position (pair_member 0) 5 0 false ≡ some (b, g'))
        × Granted (pair_member 0) 5 0 false b g')
get_position-window_example = get_position-window (pair_member 0) 5 0 false

message_written-keep_or_free_example :
    (h : Group) × (message_written
        (keep_or_free logging_group a_message a_buffer 0)
        (logged logging_group a_message a_buffer (0 + a_buffer.header.header_size))
      ≡ some h)
    × (h.free_message_buffers ≡ a_buffer ∷ logging_group.free_message_buffers)
    × ((own h).persisted_num ≡ sequence_number logging_group a_message.index a_message.sender_rank)
    × (h.non_persistent_messages ≡ logging_group.non_persistent_messages)
unfolding find
message_written-keep_or_free_example =
    message_written-keep_or_free logging_group a_writer a_message a_buffer 0 0 refl refl refl
      (omega arith) (omega arith) other_id refl
