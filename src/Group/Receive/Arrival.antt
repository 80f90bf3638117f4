-- ===== src/Group/Receive/Arrival.antt =====
-- A message from another member: once a free buffer is assigned to it, its receipt cannot fail.
use old_derecho.Base.{ℕ, ◌≡◌, refl, ◌≢◌, some, ℤ, pos, ◌+ℤ◌, arith, ◌∷◌}
use old_derecho.Base.Maps.{find, find-assign, emplace, erase}
use old_derecho.Group.{Header, Buffer, Message, Group, own, sequence_number}
use old_derecho.Group.Receive.{
  count_received, move_message, skip_turns, update_seq_num, receive_destination, receive_handler,
}

-- The number under which the next message of `sender` is kept.
abbrev pub next_number : Group → ℕ → ℤ
next_number g sender = sequence_number g ((own g).n_received sender +ℤ pos 1) sender

-- A destination takes the buffer off the free list and puts the message down under the next number
-- of its sender; nothing else of the group changes.
pub receive_destination-finds :
    (g g' : Group) (sender length : ℕ) (b : Buffer)
    → receive_destination g sender length ≡ some (b, g')
    → (g.free_message_buffers ≡ b ∷ g'.free_message_buffers)
      × (g'.sst ≡ g.sst)
      × (g'.num_members ≡ g.num_members)
      × (g'.member_index ≡ g.member_index)
      × (find (next_number g sender) g'.current_receives
          ≡ some (record {
            sender_rank = sender;
            index = (own g).n_received sender +ℤ pos 1;
            size = length;
            message_buffer = some b;
          }))
unfolding receive_destination
receive_destination-finds g g' sender length b e =
    let put_down =
      find-assign (next_number g sender) (next_number g sender)
        (record {
          sender_rank = sender;
          index = (own g).n_received sender +ℤ pos 1;
          size = length;
          message_buffer = some b;
        })
        g.current_receives in
    ground (arith, put_down)

count_received-number :
    (g : Group) (sender : ℕ)
    → sequence_number
        (count_received g sender)
        ((own (count_received g sender)).n_received sender)
        sender
      ≡ next_number g sender
unfolding count_received
count_received-number g sender = ground arith

count_received-receives :
    (g : Group) (sender : ℕ)
    → ((count_received g sender).current_receives ≡ g.current_receives)
      × ((count_received g sender).member_index ≡ g.member_index)
unfolding count_received
count_received-receives g sender = (refl, refl)

move_message-found :
    (g : Group) (sender : ℕ) (seq : ℤ) (m : Message)
    → sender ≢ g.member_index
    → find seq g.current_receives ≡ some m
    → (g' : Group) × (move_message g sender seq ≡ some g')
unfolding move_message
move_message-found g sender seq m other e = (
  record g {
    locally_stable_messages = emplace seq m g.locally_stable_messages;
    current_receives = erase seq g.current_receives;
  },
  ground arith,
)

receive_handler-moved :
    (g g2 : Group) (sender : ℕ) (h : Header)
    → move_message (count_received g sender) sender (
        sequence_number
          (count_received g sender)
          ((own (count_received g sender)).n_received sender)
          sender)
      ≡ some g2
    → (g'' : Group) × (receive_handler g sender h ≡ some g'')
unfolding receive_handler
receive_handler-moved g g2 sender h e =
    let index = (own (count_received g sender)).n_received sender in
    (
      update_seq_num (
          skip_turns h.pause_sending_turns g2 sender index
            (sequence_number (count_received g sender) index sender)),
      rw (e, receive_handler),
    )

-- After a destination has been given for a message of another member, the receipt of that message
-- passes its assertions, whatever its header.
pub receive_after_destination :
    (g g' : Group) (sender length : ℕ) (b : Buffer) (h : Header)
    → sender ≢ g.member_index
    → receive_destination g sender length ≡ some (b, g')
    → (g'' : Group) × (receive_handler g' sender h ≡ some g'')
unfolding count_received
receive_after_destination g g' sender length b h other e =
    let f = receive_destination-finds g g' sender length b e in
    let c = count_received-receives g' sender in
    let same : next_number g' sender ≡ next_number g sender = rw (f.1, f.2) in
    let at = rw (← same, ← count_received-number g' sender, ← c.0) at f.4 in
    let moved =
      move_message-found (count_received g' sender) sender
        (sequence_number (count_received g' sender)
          ((own (count_received g' sender)).n_received sender) sender)
        _ (rw (c.1, f.3) other) at in
    receive_handler-moved g' moved.0 sender h moved.1
