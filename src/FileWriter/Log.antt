-- ===== src/FileWriter/Log.antt =====
-- What a round of the writer thread leaves in the files and among the callbacks.
use old_derecho.Base.{
  ℕ, ◌+◌, ◌%◌, ◌≤◌, ◌<◌, ◌≡◌, ◌∙◌, some, List, [], ◌∷◌, ◌++◌, map, length, take, drop, arith,
}
use mathlib.Core.List.{append_assoc, append-nil}
use old_derecho.FileWriter.{
  Message, Entry, block, FileWriter, u64, write_one, write_each, perform_writes, metadata_of,
}

-- Every message can be read whole.
abbrev pub AllReadable : List Message → Type 0
AllReadable [] = Unit {0}
AllReadable (m ∷ ms) = (m.length ≤ length m.bytes) × AllReadable ms

abbrev pub total_length : List Message → ℕ
total_length [] = 0
total_length (m ∷ ms) = m.length + total_length ms

abbrev pub bytes_of : List Message → List ℕ
bytes_of [] = []
bytes_of (m ∷ ms) = take m.length m.bytes ++ bytes_of ms

-- One block for each message, the offsets running on from `offset`.
abbrev pub blocks_from : ℕ → List Message → List Entry
blocks_from offset [] = []
blocks_from offset (m ∷ ms) = block (metadata_of m offset) ∷ blocks_from (offset + m.length) ms

-- What a round makes of a writer.
abbrev pub written : FileWriter → List Message → FileWriter
written w ms = record w {
  data_file = w.data_file ++ bytes_of ms;
  metadata_file = w.metadata_file ++ blocks_from w.current_offset ms;
  current_offset = w.current_offset + total_length ms;
  pending_callbacks = w.pending_callbacks ++ map (λ m. (w.upcall, m)) ms;
}

write_one-readable :
    (w : FileWriter) (m : Message)
    → m.length ≤ length m.bytes
    → w.current_offset + m.length < u64
    → write_one w m
      ≡ some (record w {
        data_file = w.data_file ++ take m.length m.bytes;
        metadata_file = w.metadata_file ++ block (metadata_of m w.current_offset) ∷ [];
        current_offset = w.current_offset + m.length;
        pending_callbacks = w.pending_callbacks ++ (w.upcall, m) ∷ [];
      })
unfolding write_one
write_one-readable w m r small =
    let no_wrap : (w.current_offset + m.length) % u64 ≡ w.current_offset + m.length = omega arith in
    ground (arith, no_wrap)

write_each-written :
    (ms : List Message) (w : FileWriter)
    → AllReadable ms
    → w.current_offset + total_length ms < u64
    → write_each ms w ≡ some (written w ms)
unfolding write_each
write_each-written [] w r small =
    let e : w.current_offset + 0 ≡ w.current_offset = omega arith in
    rw (append-nil w.data_file, append-nil w.metadata_file, append-nil w.pending_callbacks, e)
write_each-written (m ∷ ms) w r small =
    let e : w.current_offset + (m.length + total_length ms)
        ≡ w.current_offset + m.length + total_length ms =
      omega arith in
    rw (write_one-readable w m r.0 (omega arith), write_each)
      (write_each-written ms _ r.1 (omega arith) ∙ rw (append_assoc, append_assoc, append_assoc, e))

-- A round of the writer thread empties the queue: it appends the bytes of the waiting messages in
-- their order, one block each with the offsets running on, and one callback each in the same order.
-- The messages must lie in their arrays, and the offsets below 2^64.
pub perform_writes_lem :
    (w : FileWriter)
    → AllReadable w.pending_writes
    → w.current_offset + total_length w.pending_writes < u64
    → perform_writes w ≡ some (record (written w w.pending_writes) { pending_writes = [] })
unfolding perform_writes
perform_writes_lem w r small =
    write_each-written w.pending_writes (record w { pending_writes = [] }) r small

-- `n` bytes from place `i` of a file.
abbrev pub slice : List ℕ → ℕ → ℕ → List ℕ
slice f i n = take n (drop i f)

-- Every block finds the bytes of its message in the file, `base` bytes further on than it says.
abbrev pub AllLocated : List ℕ → ℕ → ℕ → List Message → Type 0
AllLocated file base offset [] = Unit {0}
AllLocated file base offset (m ∷ ms) =
    (slice file (base + offset) m.length ≡ take m.length m.bytes)
    × AllLocated file base (offset + m.length) ms
