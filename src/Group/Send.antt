-- ===== src/Group/Send.antt =====
-- get_position, send and the sender thread of derecho_group_impl.h.
pub mod Window
use old_derecho.Base.{
  ℕ, zero, suc, ◌+◌, ◌%◌, ◌^◌, Bool, true, false, not, ◌&&◌, ◌||◌, Option, none, some, List, [],
  ◌∷◌, ◌++◌, if◌then◌else◌, ◌==◌, ltb, ltb_ℤ, ℤ, pos, ◌+ℤ◌, ◌-ℤ◌, ◌*ℤ◌, all_below, any_below,
  is_some,
}
use old_derecho.Row.{Row}
use old_derecho.Group.{
  Header, Buffer, Message, Group, own, emit, sequence_number, u64, sizeof_header, rdmc_send,
  notify_sender,
}

-- The number of the own message that must be out of the way before message `index` may go.
abbrev pub window_bound : Group → ℤ → ℤ
window_bound g index = sequence_number g (index -ℤ pos g.window_size) g.member_index

-- The loop of get_position: some member has not delivered up to the window.
unfoldable pub window_full : Group → Bool
window_full g =
    any_below g.num_members
      (λ i. ltb_ℤ (g.sst.rows i).delivered_num (window_bound g g.future_message_index))

-- The size of the message for a payload, or `none` if that is too large.
unfoldable pub message_size : Group → ℕ → Option ℕ
message_size g payload_size =
    let size = if payload_size == 0 then g.max_msg_size else (payload_size + sizeof_header) % u64 in
    if ltb g.max_msg_size size then none else some size

-- The buffer with its header filled in. `pause_sending_turns` goes into a uint32_t.
unfoldable pub fill_header : Buffer → ℕ → Bool → Buffer
fill_header b pause_sending_turns cooked_send = record b {
  header = record {
    header_size = sizeof_header;
    pause_sending_turns = pause_sending_turns % 2 ^ 32;
    cooked_send = cooked_send;
  };
}

unfoldable pub new_message : Group → ℕ → Buffer → Message
new_message g size b = record {
  sender_rank = g.member_index;
  index = g.future_message_index;
  size = size;
  message_buffer = some b;
}

-- get_position: `none` stands for the null pointer, and the group is then as it was.
-- `pause_sending_turns` is an int that is not negative.
unfoldable pub get_position : Group → ℕ → ℕ → Bool → Option (Buffer × Group)
unfolding message_size window_full fill_header new_message
get_position g payload_size pause_sending_turns cooked_send =
    if not g.rdmc_groups_created then none else elim (message_size g payload_size) [
      | none ↦ none
      | some size ↦
          if window_full g || g.thread_shutdown then none else elim g.free_message_buffers [
            | [] ↦ none
            | b ∷ free ↦
                let filled = fill_header b pause_sending_turns cooked_send in
                some (
                  filled,
                  record g {
                    free_message_buffers = free;
                    next_send = some (new_message g size filled);
                    future_message_index = g.future_message_index +ℤ pos (pause_sending_turns + 1);
                  },
                )
          ]
    ]

-- send: the Boolean result, and `none` where `assert(next_send)` fails.
unfoldable pub send : Group → Option (Bool × Group)
send g =
    if g.thread_shutdown || not g.rdmc_groups_created then some (false, g) else elim g.next_send [
      | none ↦ none
      | some m ↦ some (
        true,
        record (emit g notify_sender) {
          pending_sends = g.pending_sends ++ m ∷ [];
          next_send = none;
        },
      )
    ]

-- should_send of send_loop, for the front of the queue
unfoldable pub may_send : Group → Message → Bool
may_send g m =
    not (ltb_ℤ ((own g).n_received g.member_index) (m.index -ℤ pos 1))
    && all_below g.num_members (λ i. not (
        ltb_ℤ (g.sst.rows i).delivered_num (window_bound g m.index)
        || (is_some g.file_writer && ltb_ℤ (g.sst.rows i).persisted_num (window_bound g m.index))))

unfoldable pub should_send : Group → Bool
unfolding may_send
should_send g =
    if not g.rdmc_groups_created
    then false
    else elim g.pending_sends [ [] ↦ false | m ∷ ms ↦ may_send g m ]

-- The rest of send_loop's body once the wait is over. `accepted` is what rdmc::send returns; the
-- string that is thrown else is not caught there: `none`.
unfoldable pub send_next : Bool → Group → Option Group
send_next accepted g = if g.thread_shutdown then some g else elim g.pending_sends [
  | [] ↦ none
  | m ∷ ms ↦
      if accepted
      then some (record (emit g (rdmc_send (g.member_index + g.rdmc_group_num_offset) m)) {
        current_send = some m;
        pending_sends = ms;
      })
      else none
]

-- One turn of send_loop: it waits until the group shuts down or should send.
unfoldable pub send_loop_turn : Bool → Group → Option Group
unfolding should_send send_next
send_loop_turn accepted g =
    if g.thread_shutdown || should_send g then send_next accepted g else some g
