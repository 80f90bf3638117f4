-- ===== src/FileWriter.antt =====
-- filewriter.h, filewriter.cpp and persistence.h: the log of delivered messages. The writer thread
-- holds its lock while it empties the queue, so a round of it is one function; the condition
-- variables and the start of the threads have no counterpart. A metadata block is kept as a record,
-- not as the bytes that the serialisation library makes of it.
pub mod Log
pub mod Tail
use old_derecho.Base.{
  ℕ, zero, suc, ◌+◌, ◌%◌, ◌^◌, ◌≤◌, ◌<◌, ◌≡◌, refl, Bool, true, false, Option, none, some, List, [],
  ◌∷◌, ◌++◌, if◌then◌else◌, ltb, leb, ◌==◌, length, take,
}

-- struct persistence::message. `bytes` is the memory from the pointer `data` to the array's end.
pub record Message : Type 0 where
  pub bytes : List ℕ
  pub length : ℕ
  pub view_id : ℕ
  pub sender : ℕ
  pub index : ℕ
  pub cooked : Bool

-- struct message_metadata, without its padding
pub record Metadata : Type 0 where
  pub view_id : ℕ
  pub is_cooked : Bool
  pub sender : ℕ
  pub index : ℕ
  pub offset : ℕ
  pub length : ℕ

-- What is appended to the metadata file: `struct header`, or a block.
pub data Entry : Type 0 where
  header : ℕ → Entry
  block : Metadata → Entry

-- class FileWriter. An upcall is known by a number; a callback is bound to the upcall of its time.
pub record FileWriter : Type 0 where
  pub upcall : ℕ
  pub pending_writes : List Message
  pub pending_callbacks : List (ℕ × Message)
  pub exit : Bool
  pub data_file : List ℕ
  pub metadata_file : List Entry
  pub current_offset : ℕ

abbrev pub u64 : ℕ
u64 = 2 ^ 64

-- The constructor, and `perform_writes` up to its loop: both files are opened for appending.
unfoldable pub start : ℕ → List ℕ → List Entry → FileWriter
start upcall data_before metadata_before = record {
  upcall = upcall;
  pending_writes = [];
  pending_callbacks = [];
  exit = false;
  data_file = data_before;
  metadata_file = metadata_before ++ header 0 ∷ [];
  current_offset = 0;
}

unfoldable pub write_message : FileWriter → Message → FileWriter
write_message w m = record w { pending_writes = w.pending_writes ++ m ∷ [] }

unfoldable pub set_message_written_upcall : FileWriter → ℕ → FileWriter
set_message_written_upcall w upcall = record w { upcall = upcall }

abbrev pub metadata_of : Message → ℕ → Metadata
metadata_of m offset = record {
  view_id = m.view_id;
  is_cooked = m.cooked;
  sender = m.sender;
  index = m.index;
  offset = offset;
  length = m.length;
}

-- The body of the inner loop of `perform_writes` for a message that has left the queue. To read past
-- the end of the array is undefined: `none`.
unfoldable pub write_one : FileWriter → Message → Option FileWriter
write_one w m =
    if leb m.length (length m.bytes)
    then some (record w {
      data_file = w.data_file ++ take m.length m.bytes;
      metadata_file = w.metadata_file ++ block (metadata_of m w.current_offset) ∷ [];
      current_offset = (w.current_offset + m.length) % u64;
      pending_callbacks = w.pending_callbacks ++ (w.upcall, m) ∷ [];
    })
    else none

unfoldable pub write_each : List Message → FileWriter → Option FileWriter
unfolding write_one
write_each [] w = some w
write_each (m ∷ ms) w = elim (write_one w m) [ none ↦ none | some w' ↦ write_each ms w' ]

-- while(!pending_writes.empty()): the lock is held, so nothing is added meanwhile.
unfoldable pub perform_writes : FileWriter → Option FileWriter
unfolding write_each
perform_writes w = write_each w.pending_writes (record w { pending_writes = [] })

-- The inner loop of `issue_callbacks`: the calls made, in order.
unfoldable pub issue_callbacks : FileWriter → List (ℕ × Message) × FileWriter
issue_callbacks w = (w.pending_callbacks, record w { pending_callbacks = [] })

-- The destructor lets both threads leave their loops, whatever is pending.
unfoldable pub close : FileWriter → FileWriter
close w = record w { exit = true }
