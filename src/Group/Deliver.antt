-- ===== src/Group/Deliver.antt =====
-- deliver_message and deliver_messages_upto (derecho_group_impl.h). What the dispatcher answers to a
-- cooked message is a parameter: the size of the reply, 0 for none. A null or empty front that is
-- used, and an exception, are `none`.
use old_derecho.Base.{
  ℕ, zero, suc, ◌+◌, ◌-◌, ◌*◌, ◌%◌, ◌^◌, not, ◌||◌, Option, none, some, List, [], ◌∷◌, ◌++◌,
  if◌then◌else◌, ◌==◌, ltb, get_or, drop, ℤ, pos, negsuc, pos_part, ◌+ℤ◌, ◌-ℤ◌, ◌*ℤ◌, max_ℤ,
  for_below,
}
use old_derecho.Base.Bytes.{read_le}
use old_derecho.Base.Maps.{find, emplace, erase}
use old_derecho.FileWriter
use old_derecho.FileWriter.{FileWriter, write_message}
use old_derecho.Rpc.Pending.{contains, fulfill_map, ok, err}
use old_derecho.Group.{
  Buffer, Message, Group, own, emit, sequence_number, u64, sizeof_header, global_stability_callback,
  handle_receive, handle_own_reply, connection_write,
}

abbrev pub sizeof_size_t : ℕ
sizeof_size_t = 8

abbrev pub sizeof_node_id : ℕ
sizeof_node_id = 4

-- The loop over the destination vector of a cooked message.
unfoldable pub read_nodes : ℕ → List ℕ → List ℕ
unfolding read_le
read_nodes zero bytes = []
read_nodes (suc n) bytes = read_le sizeof_node_id bytes ∷ read_nodes n (drop sizeof_node_id bytes)

abbrev pub dest_size : Buffer → ℕ
dest_size b = read_le sizeof_size_t b.body

unfoldable pub destination : Buffer → List ℕ
unfolding read_nodes read_le
destination b = read_nodes (dest_size b) (drop sizeof_size_t b.body)

-- A conversion to uint64_t
unfoldable pub to_u64 : ℤ → ℕ
to_u64 (pos n) = n % u64
to_u64 (negsuc n) = (u64 - suc n % u64) % u64

-- What follows a reply of `reply_size > 0` bytes.
unfoldable pub send_reply : Group → Message → Buffer → ℕ → Option Group
send_reply g msg b reply_size =
    let id = get_or g.members msg.sender_rank 0 in
    let g' = emit g (handle_own_reply reply_size) in
    if not (id == get_or g.members g.member_index 0)
    then some (emit g (connection_write id reply_size))
    else if dest_size b == 0
    then elim g.to_fulfill_queue [
      | [] ↦ none
      | p ∷ ps ↦ elim (fulfill_map p g.members) [
        | ok q ↦
            some (record g' { to_fulfill_queue = ps; fulfilled_list = g.fulfilled_list ++ q ∷ [] })
        | err e ↦ none
      ]
    ]
    else some g'

-- The message handed to the file writer, its data from place `at` of the array on.
unfoldable pub logged : Group → Message → Buffer → ℕ → FileWriter.Message
unfolding to_u64
logged g msg b at = record {
  bytes = drop (at - sizeof_header) b.body;
  length = msg.size;
  view_id = (own g).vid % 2 ^ 32;
  sender = get_or g.members msg.sender_rank 0;
  index = to_u64 msg.index;
  cooked = b.header.cooked_send;
}

-- The end of deliver_message, with `buf` at place `at` of the array.
unfoldable pub keep_or_free : Group → Message → Buffer → ℕ → Group
unfolding logged
keep_or_free g msg b at = elim g.file_writer [
  | none ↦ record g { free_message_buffers = b ∷ g.free_message_buffers }
  | some w ↦ record g {
    non_persistent_messages =
        emplace (sequence_number g msg.index msg.sender_rank) msg g.non_persistent_messages;
    file_writer = some (write_message w (logged g msg b (at + b.header.header_size)));
  }
]

module _ (reply_size : Buffer → ℕ → ℕ) where
  -- The part for a cooked message: where it ends up in the array, and the group after it.
  unfoldable pub deliver_cooked : Group → Message → Buffer → Option Group
  unfolding destination send_reply contains
  deliver_cooked g msg b =
      let front = sizeof_size_t + sizeof_node_id * dest_size b in
      let at = b.header.header_size + front in
      let in_dest = contains (destination b) (get_or g.members g.member_index 0) in
      let g' = emit g (handle_receive b at (msg.size - b.header.header_size - front)) in
      let reply = reply_size b at in
      if in_dest || dest_size b == 0
      then if ltb 0 reply then send_reply g' msg b reply else some g'
      else some g

  unfoldable pub deliver_message : Group → Message → Option Group
  unfolding deliver_cooked keep_or_free
  deliver_message g msg = if msg.size == 0 then some g else elim msg.message_buffer [
    | none ↦ none
    | some b ↦
        if b.header.cooked_send
        then elim (deliver_cooked g msg b) [
          | none ↦ none
          | some g' ↦ some (
              keep_or_free g' msg b
                (b.header.header_size + (sizeof_size_t + sizeof_node_id * dest_size b)))
        ]
        else some (
            keep_or_free
              (emit g (
                global_stability_callback msg.sender_rank msg.index b b.header.header_size
                  msg.size))
              msg b 0)
  ]

  -- One round of the loop of deliver_messages_upto.
  unfoldable pub deliver_number : ℤ → Group → Option Group
  unfolding deliver_message
  deliver_number seq g = elim (find seq g.locally_stable_messages) [
    | none ↦ some g
    | some msg ↦ elim (deliver_message g msg) [
      | none ↦ none
      | some g' ↦
          some (record g' { locally_stable_messages = erase seq g'.locally_stable_messages })
    ]
  ]

  -- `n` rounds from `seq` on
  unfoldable pub deliver_numbers : ℕ → ℤ → Group → Option Group
  unfolding deliver_number
  deliver_numbers zero seq g = some g
  deliver_numbers (suc n) seq g = elim (deliver_number seq g) [
    | none ↦ none
    | some g' ↦ deliver_numbers n (seq +ℤ pos 1) g'
  ]

  unfoldable pub max_seq_num : Group → (ℕ → ℤ) → ℤ
  max_seq_num g max_indices =
      for_below g.num_members
        (λ sender m. max_ℤ m (max_indices sender *ℤ pos g.num_members +ℤ pos sender))
        (own g).delivered_num

  unfoldable pub deliver_messages_upto : Group → (ℕ → ℤ) → Option Group
  unfolding deliver_numbers max_seq_num
  deliver_messages_upto g max_indices =
      let from = (own g).delivered_num in
      let rounds = pos_part (max_seq_num g max_indices -ℤ from +ℤ pos 1) in
      deliver_numbers rounds from g
