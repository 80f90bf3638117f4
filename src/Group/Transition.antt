-- ===== src/Group/Transition.antt =====
-- The constructors of DerechoGroup (derecho_group_impl.h): for a first view, and for a next view out
-- of the group of the old one, whose messages are sent again; and what is done once a message has
-- been written. `make` gives the n-th new array, `created` what RDMC answers for a group number.
pub mod Turns
pub mod Indices
pub mod Written
use old_derecho.Base.{
  leb, ℕ, zero, suc, ◌+◌, ◌-◌, ◌*◌, ◌%◌, ◌^◌, Bool, true, false, not, Option, none, some, List, [],
  ◌∷◌, ◌++◌, if◌then◌else◌, ◌==◌, length, ℤ, pos, negsuc, ◌+ℤ◌, first_below, for_below, get_or,
}
use old_derecho.Base.Maps.{Map, find, emplace, erase}
use old_derecho.Sst.{Sst}
use old_derecho.FileWriter
use old_derecho.FileWriter.{FileWriter, set_message_written_upcall}
use old_derecho.Group.{
  Buffer, Message, Group, own, write_own, put, index_of, compute_max_msg_size, sequence_number,
}
use old_derecho.Group.Setup.{wedge, finish}

infixl 5 ◌>>=◌
abbrev pub ◌>>=◌ : {A B : Type 0} → Option A → (A → Option B) → Option B
none >>= f = none
some a >>= f = f a

-- The loop that adds arrays up to the given number.
unfoldable pub add_buffers : (ℕ → Buffer) → ℕ → Group → Group
add_buffers make wanted g =
    for_below (wanted - g.total_message_buffers)
      (λ n h. record h {
        free_message_buffers = make n ∷ h.free_message_buffers;
        total_message_buffers = h.total_message_buffers + 1;
      })
      g

-- push_back of a message's array. A message without one is never among those that are freed.
unfoldable pub free_buffer : Message → Group → Option Group
free_buffer m g = elim m.message_buffer [
  | none ↦ none
  | some b ↦ some (record g { free_message_buffers = b ∷ g.free_message_buffers })
]

unfoldable pub free_buffers : Map Message → Group → Option Group
unfolding free_buffer
free_buffers [] g = some g
free_buffers ((seq, m) ∷ ms) g = free_buffer m g >>= free_buffers ms

-- convert_msg. A null array is undefined.
unfoldable pub convert_msg : Message → Group → Option (Message × Group)
convert_msg m g = elim m.message_buffer [
  | none ↦ none
  | some b ↦ some (
    record m { sender_rank = g.member_index; index = g.future_message_index },
    record g {
      future_message_index = g.future_message_index +ℤ pos 1 +ℤ pos b.header.pause_sending_turns;
    },
  )
]

-- pending_sends.push(convert_msg(m))
unfoldable pub send_again : Message → Group → Option Group
unfolding convert_msg
send_again m g = elim (convert_msg m g) [
  | none ↦ none
  | some (n, h) ↦ some (record h { pending_sends = h.pending_sends ++ n ∷ [] })
]

unfoldable pub send_all_again : List Message → Group → Option Group
unfolding send_again
send_all_again [] g = some g
send_all_again (m ∷ ms) g = send_again m g >>= send_all_again ms

-- The loop over the messages that are not stable everywhere, with the own rank in the old group.
unfoldable pub reclaim : ℕ → Map Message → Group → Option Group
unfolding send_again free_buffer
reclaim old_rank [] g = some g
reclaim old_rank ((seq, m) ∷ ms) g =
    let step =
      if m.size == 0
      then some g
      else if m.sender_rank == old_rank
      then send_again m g
      else free_buffer m g in
    step >>= reclaim old_rank ms

-- next_send = convert_msg(*old_group.next_send)
unfoldable pub take_next_send : Option Message → Group → Option Group
unfolding convert_msg
take_next_send none g = some g
take_next_send (some m) g = elim (convert_msg m g) [
  | none ↦ none
  | some (n, h) ↦ some (record h { next_send = some n })
]

-- The messages that are still being written, under their old numbers.
unfoldable pub take_unwritten : Map Message → Group → Option Group
unfolding convert_msg
take_unwritten [] g = some g
take_unwritten ((seq, m) ∷ ms) g = elim (convert_msg m g) [
  | none ↦ none
  | some (n, h) ↦
      take_unwritten ms
        (record h { non_persistent_messages = emplace seq n h.non_persistent_messages })
]

abbrev pub option_list : {A : Type 0} → Option A → List A
option_list none = []
option_list (some a) = a ∷ []

-- The fields at the start of the constructor, for the old group after its wedge.
unfoldable pub moved_fields : List ℕ → ℕ → Sst → Group → Group
moved_fields members my_id sst old = record old {
  members = members;
  num_members = length members;
  member_index = index_of members my_id;
  rdmc_group_num_offset = old.rdmc_group_num_offset + old.num_members;
  rdmc_groups_created = false;
  future_message_index = pos 0;
  next_send = none;
  pending_sends = [];
  current_send = none;
  current_receives = [];
  locally_stable_messages = [];
  non_persistent_messages = [];
  next_message_to_deliver = pos 0;
  thread_shutdown = false;
  sst = sst;
  file_writer = none;
  events = [];
}

-- All that the constructor does with the messages and arrays of the old group.
unfoldable pub take_messages : (ℕ → Buffer) → Group → Group → Option Group
unfolding add_buffers free_buffers reclaim send_all_again take_next_send
take_messages make old g = do
  g1 ← free_buffers old.current_receives (add_buffers make (g.window_size * g.num_members) g)
  g2 ← reclaim old.member_index old.locally_stable_messages g1
  g3 ← send_all_again (option_list old.current_send ++ old.pending_sends) g2
  take_next_send old.next_send g3

-- assert(old_group.rdmc_group_num_offset <= max - old_group.num_members - num_members)
abbrev pub offset_fits : Group → List ℕ → Bool
offset_fits old members =
    leb (old.rdmc_group_num_offset + old.num_members + length members) (2 ^ 16 - 1)

-- The body of the constructor behind the assertion, for the old group after its wedge.
unfoldable pub take_over :
    (ℕ → Buffer) → (ℕ → Bool) → List ℕ → ℕ → Sst → Group → List Bool → ℕ → Option Group
unfolding moved_fields take_messages take_unwritten
take_over make created members my_id sst old already_failed upcall = do
  g ← take_messages make old (moved_fields members my_id sst old)
  let writer : Option FileWriter = elim old.file_writer [
    | none ↦ none
    | some w ↦ some (set_message_written_upcall w upcall)
  ]
  h ← take_unwritten old.non_persistent_messages (record g { file_writer = writer })
  some (finish created already_failed h)

-- DerechoGroup(..., DerechoGroup&& old_group, ...); the upcall of a file writer is replaced.
unfoldable pub next_group :
    (ℕ → Buffer) → (ℕ → Bool) → List ℕ → ℕ → Sst → Group → List Bool → ℕ → Option Group
unfolding take_over
next_group make created members my_id sst old already_failed upcall =
    if offset_fits old members
    then take_over make created members my_id sst (wedge old) already_failed upcall
    else none

-- DerechoGroup(...) for a first view, with a file writer if a file is named. `none` where the window
-- is empty or the block size is 0.
unfoldable pub first_group :
    (ℕ → Buffer)
    → (ℕ → Bool)
    → List ℕ
    → ℕ
    → Sst
    → List Buffer
    → ℕ
    → ℕ
    → ℕ
    → Option FileWriter
    → List Bool
    → Option Group
unfolding add_buffers
first_group make created members my_id sst buffers max_payload_size block_size window_size writer
      already_failed =
    if window_size == 0 then none else elim (compute_max_msg_size max_payload_size block_size) [
      | none ↦ none
      | some max ↦ some (
          finish created already_failed (
            add_buffers make (window_size * length members) (record {
              members = members;
              num_members = length members;
              member_index = index_of members my_id;
              block_size = block_size;
              max_msg_size = max;
              window_size = window_size;
              rdmc_group_num_offset = 0;
              rdmc_groups_created = false;
              total_message_buffers = length buffers;
              free_message_buffers = buffers;
              future_message_index = pos 0;
              next_send = none;
              pending_sends = [];
              current_send = none;
              current_receives = [];
              locally_stable_messages = [];
              non_persistent_messages = [];
              next_message_to_deliver = pos 0;
              thread_shutdown = false;
              sst = sst;
              file_writer = writer;
              to_fulfill_queue = [];
              fulfilled_list = [];
              events = [];
            })))
    ]

-- The callback of make_file_written_callback, behind the application's. A sender that is no member
-- gets rank `num_members`; a number that is not found fails the assertion.
unfoldable pub message_written : Group → FileWriter.Message → Option Group
unfolding free_buffer
message_written g m =
    let rank : ℕ = elim (first_below g.num_members (λ r. get_or g.members r 0 == m.sender)) [
      | none ↦ g.num_members
      | some r ↦ r
    ] in
    let seq = sequence_number g (pos m.index) rank in
    elim (find seq g.non_persistent_messages) [
      | none ↦ none
      | some msg ↦ elim (free_buffer msg g) [
        | none ↦ none
        | some h ↦ some (
            put (
              write_own (record h { non_persistent_messages = erase seq h.non_persistent_messages })
                (record (own h) { persisted_num = seq })))
      ]
    ]
