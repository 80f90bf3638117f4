-- ===== src/Group/Remote.antt =====
-- Remote calls of a group (derecho_group_impl.h): derechoCallerSend behind orderedSend and
-- orderedQuery, tcpSend behind p2pSend and p2pQuery, and a turn of rpc_process_loop. The function that
-- is called is given by its place in the dispatcher. The promises of a query stand with the
-- dispatcher; the group's lists keep which nodes it was sent to.
pub mod Front
pub mod Destination
use old_derecho.Base.{
  ℕ, zero, suc, ◌+◌, ◌*◌, Bool, true, false, not, Option, none, some, List, [], ◌∷◌, ◌++◌,
  if◌then◌else◌, ◌==◌, leb, ltb, get_or, take, drop, length, ℤ, pos, ◌-ℤ◌,
}
use old_derecho.Base.Bytes.{read_le, write_le}
use old_derecho.Rpc.Pending.{
  Pending, Result, ok, err, ◌>>=◌, fresh, fulfill_map, assertion_failed, null_pointer,
}
use old_derecho.Rpc.Wire.{header_space, retrieve_header}
use old_derecho.Rpc.Dispatcher
use old_derecho.Rpc.Dispatcher.{Dispatcher, handle_receive_from}
use old_derecho.Group.{Buffer, Message, Group, emit, connection_write, sizeof_header}
use old_derecho.Group.Deliver.{sizeof_size_t, sizeof_node_id, to_u64}
use old_derecho.Group.Send.{send}

-- The nodes as they stand in front of a message.
unfoldable pub node_bytes : List ℕ → List ℕ
node_bytes [] = []
node_bytes (n ∷ ns) = write_le sizeof_node_id n ++ node_bytes ns

-- What is laid into the buffer in front of the call.
unfoldable pub front_bytes : List ℕ → List ℕ
unfolding node_bytes
front_bytes nodes = write_le sizeof_size_t (length nodes) ++ node_bytes nodes

-- The room that the message has, in unsigned arithmetic; `front` bytes stand before it.
unfoldable pub max_payload_size : Group → ℕ → ℕ
unfolding to_u64
max_payload_size g front = to_u64 (pos g.max_msg_size -ℤ pos (sizeof_header + front))

-- Bytes written from the start of the memory on.
unfoldable pub overwrite : List ℕ → List ℕ → List ℕ
overwrite bytes memory = bytes ++ drop (length bytes) memory

-- The buffer of the next message, which get_position gave out, is written.
unfoldable pub fill_next : List ℕ → Group → Option Group
unfolding overwrite
fill_next bytes g = elim g.next_send [
  | none ↦ none
  | some m ↦ elim m.message_buffer [
    | none ↦ none
    | some b ↦ some (record g {
      next_send =
          some (record m { message_buffer = some (record b { body = overwrite bytes b.body }) });
    })
  ]
]

-- The results of the call go to the list or the queue. There the code keeps a reference to the
-- PendingResults of the dispatcher; here it is what these hold, which are new at this time.
unfoldable pub keep_pending : List ℕ → Group → Result Group
keep_pending [] g = ok (record g { to_fulfill_queue = g.to_fulfill_queue ++ fresh ∷ [] })
keep_pending (n ∷ ns) g = do
  q ← fulfill_map fresh (n ∷ ns)
  ok (record g { fulfilled_list = g.fulfilled_list ++ q ∷ [] })

-- The loop `while(!send())`, and what follows. `ok none`: the group has shut down or its RDMC groups
-- were not created, and the loop goes on for ever.
unfoldable pub send_until : List ℕ → Group → Result (Option Group)
unfolding keep_pending
send_until nodes g = elim (send g) [
  | none ↦ err assertion_failed
  | some (true, g') ↦ do h ← keep_pending nodes g'; ok (some h)
  | some (false, g') ↦ ok none
]

-- The part of derechoCallerSend behind the dispatcher's Send.
unfoldable pub send_message : List ℕ → List ℕ → Group → Result (Option Group)
unfolding front_bytes fill_next send_until
send_message nodes message g = elim (fill_next (front_bytes nodes ++ message) g) [
  | none ↦ err null_pointer
  | some filled ↦ send_until nodes filled
]

module _ {V : Type 0} where
  -- derechoCallerSend
  unfoldable pub derecho_caller_send :
      List ℕ → ℕ → List V → ℕ → Dispatcher V → Group → Result (Dispatcher V × Option Group)
  unfolding send_message max_payload_size
  derecho_caller_send nodes invocation_id args place d g =
      let room = λ (size : ℕ).
        leb size (max_payload_size g (sizeof_size_t + sizeof_node_id * length nodes)) in
      do
        (message, d') ← Dispatcher.send room invocation_id args place d
        sent ← send_message nodes message g
        ok (d', sent)

  -- tcpSend
  unfoldable pub tcp_send :
      ℕ → ℕ → List V → ℕ → Dispatcher V → Group → Result (Dispatcher V × Group)
  unfolding max_payload_size keep_pending
  tcp_send dest_node invocation_id args place d g =
      if dest_node == get_or g.members g.member_index 0 then err assertion_failed else do
        (message, d') ←
            Dispatcher.send (λ size. leb size (max_payload_size g 0)) invocation_id args place d
        h ← keep_pending (dest_node ∷ []) (emit g (connection_write dest_node (length message)))
        ok (d', h)

  -- A turn of rpc_process_loop: `probed` is what probe_all gives, `incoming` what can be read from
  -- that node then.
  unfoldable pub rpc_process_turn :
      Option ℕ → List ℕ → Dispatcher V → Group → Result (Dispatcher V × Group)
  unfolding retrieve_header handle_receive_from max_payload_size
  rpc_process_turn none incoming d g = ok (d, g)
  rpc_process_turn (some other_id) incoming d g =
      let (payload_size, indx, received_from) = retrieve_header (take header_space incoming) in
      let payload = take payload_size (drop header_space incoming) in
      do
        r ←
            handle_receive_from (λ size. leb size (max_payload_size g 0)) indx received_from payload
              payload_size d
        elim r.reply [
          | none ↦ ok (r.dispatcher, g)
          | some reply ↦ ok (r.dispatcher, emit g (connection_write received_from (length reply)))
        ]
