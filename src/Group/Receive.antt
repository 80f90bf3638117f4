-- ===== src/Group/Receive.antt =====
-- The handlers that create_rdmc_groups gives to RDMC (derecho_group_impl.h): where an incoming
-- message goes, and what is done when it has arrived. A failed `assert` is `none`.
pub mod Stages
pub mod Count
pub mod Arrival
pub mod PutDown
pub mod Stored
use old_derecho.Base.{
  ℕ, zero, suc, ◌+◌, Bool, true, false, Option, none, some, List, [], ◌∷◌, if◌then◌else◌, ◌==◌,
  update, ltb_ℤ, ℤ, pos, ◌+ℤ◌,
}
use old_derecho.Base.Maps.{find, assign, emplace, erase}
use old_derecho.Row.{Row}
use old_derecho.Group.{
  Header, Buffer, Message, Group, own, write_own, put, sequence_number, emit, notify_sender,
}
use old_derecho.Group.Order.{new_seq_num}

-- (*sst)[member_index].nReceived[sender]++
unfoldable pub count_received : Group → ℕ → Group
count_received g sender = write_own g (record (own g) {
  n_received = update (own g).n_received sender ((own g).n_received sender +ℤ pos 1);
})

-- The receive destination for a message of `length` bytes from another member: a free buffer.
unfoldable pub receive_destination : Group → ℕ → ℕ → Option (Buffer × Group)
receive_destination g sender length =
    let index = (own g).n_received sender +ℤ pos 1 in
    elim g.free_message_buffers [
      | [] ↦ none
      | b ∷ free ↦ some (
        b,
        record g {
          free_message_buffers = free;
          current_receives =
              assign (sequence_number g index sender)
                (record {
                  sender_rank = sender;
                  index = index;
                  size = length;
                  message_buffer = some b;
                })
                g.current_receives;
        },
      )
    ]

-- Move the message from `current_send` or `current_receives` to `locally_stable_messages`.
unfoldable pub move_message : Group → ℕ → ℤ → Option Group
move_message g sender seq =
    if sender == g.member_index
    then elim g.current_send [
      | none ↦ none
      | some m ↦ some (record g {
        locally_stable_messages = assign seq m g.locally_stable_messages;
        current_send = none;
      })
    ]
    else elim (find seq g.current_receives) [
      | none ↦ none
      | some m ↦ some (record g {
        locally_stable_messages = emplace seq m g.locally_stable_messages;
        current_receives = erase seq g.current_receives;
      })
    ]

abbrev pub empty_message : ℕ → ℤ → Message
empty_message sender index = record {
  sender_rank = sender;
  index = index;
  size = 0;
  message_buffer = none;
}

-- The loop over `h->pause_sending_turns`: an empty message for each turn that is skipped.
unfoldable pub skip_turns : ℕ → Group → ℕ → ℤ → ℤ → Group
unfolding count_received
skip_turns zero g sender index seq = g
skip_turns (suc j) g sender index seq =
    let index' = index +ℤ pos 1 in
    let seq' = seq +ℤ pos g.num_members in
    let g' = count_received g sender in
    skip_turns j
      (record g' {
        locally_stable_messages =
            assign seq' (empty_message sender index') g'.locally_stable_messages;
      })
      sender index' seq'

-- The end of the handler: both branches put.
unfoldable pub update_seq_num : Group → Group
update_seq_num g =
    let s = new_seq_num g.num_members (own g).n_received in
    if ltb_ℤ (own g).seq_num s then put (write_own g (record (own g) { seq_num = s })) else put g

-- rdmc_receive_handler, for the message with header `h` from rank `sender`
unfoldable pub receive_handler : Group → ℕ → Header → Option Group
unfolding count_received move_message skip_turns update_seq_num
receive_handler g sender h =
    let g' = count_received g sender in
    let index = (own g').n_received sender in
    let seq = sequence_number g' index sender in
    elim (move_message g' sender seq) [
      | none ↦ none
      | some g'' ↦ some (update_seq_num (skip_turns h.pause_sending_turns g'' sender index seq))
    ]

-- receive_handler_plus_notify
unfoldable pub receive_handler_plus_notify : Group → ℕ → Header → Option Group
unfolding receive_handler
receive_handler_plus_notify g sender h = elim (receive_handler g sender h) [
  | none ↦ none
  | some g' ↦ some (emit g' notify_sender)
]
