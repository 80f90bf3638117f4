-- ===== src/Group/Remote/Destination.antt =====
-- What a delivery finds in a message of derechoCallerSend.
use old_derecho.Base.{ℕ, ◌+◌, ◌*◌, ◌≡◌, ◌≢◌, none, some, List, [], ◌∷◌, ◌++◌, take, drop, length}
use old_derecho.Rpc.Pending.{Pending, ok, fresh, fulfill_map}
use old_derecho.Rpc.Dispatcher
use old_derecho.Rpc.Dispatcher.{Dispatcher}
use old_derecho.Group.{Buffer, Message, Group}
use old_derecho.Group.Deliver.{destination, dest_size, sizeof_size_t, sizeof_node_id}

-- What a call that is sent leaves in the group.
pub record SentCall (nodes message : List ℕ) (g h : Group) : Type 0 where
  pub m : Message
  pub b : Buffer
  pub queued : h.pending_sends ≡ g.pending_sends ++ m ∷ []
  pub no_next : h.next_send ≡ none
  pub buffer : m.message_buffer ≡ some b
  pub nodes_read : destination b ≡ nodes
  pub call_read :
      take (length message) (drop (sizeof_size_t + sizeof_node_id * dest_size b) b.body) ≡ message
  pub for_all :
      nodes ≡ []
      → (h.to_fulfill_queue ≡ g.to_fulfill_queue ++ fresh ∷ [])
        × (h.fulfilled_list ≡ g.fulfilled_list)
  pub for_some :
      nodes ≢ []
      → (q : Pending (List ℕ)) × (fulfill_map fresh nodes ≡ ok q)
        × (h.fulfilled_list ≡ g.fulfilled_list ++ q ∷ [])
        × (h.to_fulfill_queue ≡ g.to_fulfill_queue)
