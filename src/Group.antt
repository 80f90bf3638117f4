-- ===== src/Group.antt =====
-- derecho_group.h and derecho_group_impl.h: the multicast group of one view, its state and what its
-- operations share. The operations stand in the children, one for each handler. A handler runs under
-- its lock, so it is one function of the state. RDMC, the sockets and the dispatcher of the
-- application's objects are libraries or parameters: calls of them are kept as events, newest first.
pub mod Order
pub mod Receive
pub mod Deliver
pub mod Stable
pub mod Send
pub mod Setup
pub mod Transition
pub mod Remote
use old_derecho.Base.{
  ℕ, zero, suc, ◌+◌, ◌-◌, ◌*◌, ◌/◌, ◌%◌, ◌^◌, Bool, true, false, not, ◌&&◌, ◌||◌, Option, none,
  some, List, [], ◌∷◌, ◌++◌, if◌then◌else◌, ltb, leb, ◌==◌, get_or, ℤ, pos, ◌+ℤ◌, ◌*ℤ◌, first_below,
  length,
}
use old_derecho.Base.Maps.{Map}
use old_derecho.Row.{Row}
use old_derecho.Sst.{Sst, my_row, write_my, put_row}
use old_derecho.FileWriter.{FileWriter}
use old_derecho.Rpc.Pending.{Pending}

-- struct header, packed: 4 + 4 + 1 bytes
pub record Header : Type 0 where
  pub header_size : ℕ
  pub pause_sending_turns : ℕ
  pub cooked_send : Bool

abbrev pub sizeof_header : ℕ
sizeof_header = 9

-- struct MessageBuffer: the array's header and the bytes behind it. `id` tells the arrays apart.
pub record Buffer : Type 0 where
  pub id : ℕ
  pub header : Header
  pub body : List ℕ

-- struct Message. A message for a turn that its sender skips has no array and size 0.
pub record Message : Type 0 where
  pub sender_rank : ℕ
  pub index : ℤ
  pub size : ℕ
  pub message_buffer : Option Buffer

-- Calls out of the group. An array is given with the place in it that a pointer shows.
pub data Event : Type 0 where
  global_stability_callback : ℕ → ℤ → Buffer → ℕ → ℕ → Event
  handle_receive : Buffer → ℕ → ℕ → Event
  handle_own_reply : ℕ → Event
  connection_write : ℕ → ℕ → Event
  rdmc_send : ℕ → Message → Event
  rdmc_create_group : ℕ → List ℕ → Event
  rdmc_destroy_group : ℕ → Event
  connections_destroy : Event
  notify_sender : Event

-- class DerechoGroup, with the row type's N outside. The head of a queue is its front; the head of
-- `free_message_buffers` is the vector's back.
pub record Group : Type 0 where
  pub members : List ℕ
  pub num_members : ℕ
  pub member_index : ℕ
  pub block_size : ℕ
  pub max_msg_size : ℕ
  pub window_size : ℕ
  pub rdmc_group_num_offset : ℕ
  pub rdmc_groups_created : Bool
  pub total_message_buffers : ℕ
  pub free_message_buffers : List Buffer
  pub future_message_index : ℤ
  pub next_send : Option Message
  pub pending_sends : List Message
  pub current_send : Option Message
  pub current_receives : Map Message
  pub locally_stable_messages : Map Message
  pub non_persistent_messages : Map Message
  pub next_message_to_deliver : ℤ
  pub thread_shutdown : Bool
  pub sst : Sst
  pub file_writer : Option FileWriter
  pub to_fulfill_queue : List (Pending (List ℕ))
  pub fulfilled_list : List (Pending (List ℕ))
  pub events : List Event

abbrev pub emit : Group → Event → Group
emit g e = record g { events = e ∷ g.events }

abbrev pub own : Group → Row
own g = my_row g.sst

-- (*sst)[member_index] = r, and sst->put()
abbrev pub write_own : Group → Row → Group
write_own g r = record g { sst = write_my g.sst r }

abbrev pub put : Group → Group
put g = record g { sst = put_row g.sst }

-- index * num_members + sender
abbrev pub sequence_number : Group → ℤ → ℕ → ℤ
sequence_number g index sender = index *ℤ pos g.num_members +ℤ pos sender

-- index_of(container, elem)
unfoldable pub index_of : List ℕ → ℕ → ℕ
index_of [] elem = 0
index_of (x ∷ xs) elem = let rest = index_of xs elem in if x == elem then 0 else suc rest

abbrev pub u64 : ℕ
u64 = 2 ^ 64

-- compute_max_msg_size, in unsigned 64-bit arithmetic. A remainder by 0 is undefined: `none`.
unfoldable pub compute_max_msg_size : ℕ → ℕ → Option ℕ
compute_max_msg_size max_payload_size block_size =
    let max_msg_size = (max_payload_size + sizeof_header) % u64 in
    if block_size == 0
    then none
    else if max_msg_size % block_size == 0
    then some max_msg_size
    else some (((max_msg_size / block_size + 1) % u64 * block_size) % u64)
