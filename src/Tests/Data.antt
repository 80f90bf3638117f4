-- ===== src/Tests/Data.antt =====
-- A group of two members, and views of three, as data for the examples.
use old_derecho.Base.{ℕ, true, false, none, some, [], ◌∷◌, pos, negsuc}
use old_derecho.Row.{Row}
use old_derecho.Sst.{Sst}
use old_derecho.FileWriter
use old_derecho.FileWriter.{FileWriter, Metadata}
use old_derecho.Group.{Header, Buffer, Message, Group}
use old_derecho.View.{View}
use old_derecho.Gms.{Node, Socket}
use old_derecho.Rpc.Pending.{Pending, unset}

abbrev pub a_row : Row
a_row = record {
  seq_num = negsuc 0;
  stable_num = negsuc 0;
  delivered_num = negsuc 0;
  persisted_num = negsuc 0;
  vid = 0;
  suspected = λ i. false;
  changes = λ i. 0;
  joiner_ip = λ i. 0;
  n_changes = 0;
  n_committed = 0;
  n_acked = 0;
  n_received = λ i. negsuc 0;
  wedged = false;
  global_min = λ i. pos 0;
  global_min_ready = false;
}

abbrev pub table : ℕ → (ℕ → Row) → Sst
table i rows = record {
  num_rows = 3;
  local_index = i;
  rows = rows;
  active = λ p. false;
  calls = [];
}

abbrev pub a_header : Header
a_header = record { header_size = 9; pause_sending_turns = 0; cooked_send = false }

abbrev pub a_buffer : Buffer
a_buffer = record { id = 1; header = a_header; body = 7 ∷ [] }

abbrev pub a_message : Message
a_message = record { sender_rank = 1; index = pos 0; size = 10; message_buffer = some a_buffer }

-- Member i of the two
abbrev pub pair_member : ℕ → Group
pair_member i = record {
  members = 10 ∷ 20 ∷ [];
  num_members = 2;
  member_index = i;
  block_size = 64;
  max_msg_size = 128;
  window_size = 3;
  rdmc_group_num_offset = 0;
  rdmc_groups_created = true;
  total_message_buffers = 6;
  free_message_buffers = a_buffer ∷ [];
  future_message_index = pos 0;
  next_send = none;
  pending_sends = [];
  current_send = none;
  current_receives = [];
  locally_stable_messages = [];
  non_persistent_messages = [];
  next_message_to_deliver = pos 0;
  thread_shutdown = false;
  sst = table i (λ k. a_row);
  file_writer = none;
  to_fulfill_queue = [];
  fulfilled_list = [];
  events = [];
}

abbrev pub no_reply : Buffer → ℕ → ℕ
no_reply b at = 0

-- A group whose first message is stable everywhere, with number 0.
abbrev pub ready_group : Group
ready_group = record (pair_member 0) {
  locally_stable_messages = (pos 0, a_message) ∷ [];
  sst = table 0 (λ k. record a_row { seq_num = pos 0; stable_num = pos 0 });
}

-- A view of three, with member 20 failed.
abbrev pub a_view : View
a_view = record {
  vid = 4;
  members = 10 ∷ 20 ∷ 30 ∷ [];
  member_ips = (1 ∷ []) ∷ (2 ∷ []) ∷ (3 ∷ []) ∷ [];
  failed = false ∷ true ∷ false ∷ [];
  n_failed = 1;
  who = some 30;
  num_members = 3;
  my_rank = 0;
  i_know_i_am_leader = true;
}

-- The same view before that failure is known.
abbrev pub healthy_view : View
healthy_view = record a_view { failed = false ∷ false ∷ false ∷ []; n_failed = 0 }

abbrev pub node_of : View → ℕ → (ℕ → Row) → Node
node_of v i rows = record {
  view = record v { my_rank = i };
  group = record (pair_member i) { sst = table i rows };
  last_suspected = λ k. false;
  pending_joins = [];
  joining_client_socket = none;
  next_view = none;
  thread_shutdown = false;
}

abbrev pub a_socket : Socket
a_socket = record { remote_ip = 49 ∷ 46 ∷ 50 ∷ []; client_id = 40 }

abbrev pub a_query : Pending ℕ
a_query = record {
  reply_map = some (10 ∷ 20 ∷ []);
  promises = λ n. unset;
  retrieved = λ n. false;
  map_fulfilled = true;
  dest_nodes = 10 ∷ 20 ∷ [];
  set_nodes = [];
}

abbrev pub a_block : ℕ → ℕ → Metadata
a_block index offset = record {
  view_id = 1;
  is_cooked = false;
  sender = 10;
  index = index;
  offset = offset;
  length = 5;
}

abbrev pub to_log : FileWriter.Message
to_log = record {
  bytes = 1 ∷ 2 ∷ 3 ∷ [];
  length = 2;
  view_id = 1;
  sender = 10;
  index = 0;
  cooked = false;
}

-- A writer whose data file held a byte when it was opened, with a message that waits.
abbrev pub a_writer : FileWriter
a_writer = record {
  upcall = 0;
  pending_writes = to_log ∷ [];
  pending_callbacks = [];
  exit = false;
  data_file = 9 ∷ [];
  metadata_file = [];
  current_offset = 0;
}
