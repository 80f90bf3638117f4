-- ===== src/FileWriter/Tail.antt =====
-- latest_logged_message.cpp and log_tail_length.cpp, which read a log's metadata file. The file is
-- its blocks behind one header; `block_size` is the size of a serialised block, which the
-- serialisation library decides, and a file position counts bytes.
use old_derecho.Base.{
  ℕ, ◌+◌, ◌-◌, ◌*◌, ◌%◌, ◌≤◌, ◌<◌, ◌≡◌, sym, ◌≢◌, Bool, true, false, ◌&&◌, Option, none, some, List,
  [], ◌∷◌, ◌++◌, if◌then◌else◌, ◌==◌, length, arith,
}
use old_derecho.FileWriter.{Metadata, u64}

-- The message number of the last block; `none` where the seek goes before the file's start.
unfoldable pub latest : List Metadata → Option (ℕ × ℕ × ℕ)
latest [] = none
latest (m ∷ []) = some (m.view_id, m.sender, m.index)
latest (m ∷ n ∷ ms) = latest (n ∷ ms)

-- The variables of the scan: the number read last, `target_offset` and `target_size`.
pub record Scan : Type 0 where
  pub vid : ℕ
  pub sender : ℕ
  pub index : ℕ
  pub target_offset : ℕ
  pub target_size : ℕ

abbrev pub Target : Type 0
Target = ℕ × ℕ × ℕ

abbrev pub matches : Scan → Target → Bool
matches s (vid, sender, index) = s.vid == vid && (s.sender == sender && s.index == index)

-- The body of the scan, with `at` the position behind the block.
unfoldable pub read_block : Bool → Metadata → ℕ → Scan → Scan
read_block print_metadata m at s = record {
  vid = m.view_id;
  sender = m.sender;
  index = m.index;
  target_offset = if print_metadata then at else m.offset;
  target_size = if print_metadata then s.target_size else m.length;
}

-- The scan, from position `at`. A read at the end of the file fails and leaves the buffer as it was,
-- so the last block is taken once more, and the loop ends; then `tellg` gives -1.
unfoldable pub scan : Bool → ℕ → Target → List Metadata → ℕ → Scan → Scan
unfolding read_block
scan print_metadata block_size t [] at s =
    if matches s t
    then s
    else record s { target_offset = if print_metadata then u64 - 1 else s.target_offset }
scan print_metadata block_size t (m ∷ ms) at s =
    let rest =
      scan print_metadata block_size t ms (at + block_size)
        (read_block print_metadata m (at + block_size) s) in
    if matches s t then s else rest

abbrev pub scan_start : Scan
scan_start = record { vid = 0; sender = 0; index = 0; target_offset = 0; target_size = 0 }

-- sizeof(header)
abbrev pub header_size : ℕ
header_size = 12

-- main of log_tail_length, with the size of the data file. The difference is of unsigned words.
unfoldable pub tail_length : Bool → ℕ → Target → List Metadata → ℕ → ℕ
unfolding scan
tail_length print_metadata block_size t ms data_size =
    let s = scan print_metadata block_size t ms header_size scan_start in
    let file_size = if print_metadata then header_size + block_size * length ms else data_size in
    let target_size = if print_metadata then block_size else s.target_size in
    (file_size + u64 - (s.target_offset + target_size) % u64) % u64

abbrev pub number : Metadata → Target
number m = (m.view_id, m.sender, m.index)

-- No block has this message number.
abbrev pub Absent : Target → List Metadata → Type 0
Absent t [] = Unit {0}
Absent t (m ∷ ms) = (number m ≢ t) × Absent t ms

matches_iff : (s : Scan) (t : Target) → matches s t ≡ true → (s.vid, s.sender, s.index) ≡ t
matches_iff s t h = ground arith

scan-found :
    (front : List Metadata) (m : Metadata) (back : List Metadata) (b at : ℕ) (s : Scan)
    → Absent (number m) front
    → (s.vid, s.sender, s.index) ≢ number m
    → let r = scan false b (number m) (front ++ m ∷ back) at s in
      (r.target_offset ≡ m.offset) × (r.target_size ≡ m.length)
unfolding scan read_block
scan-found [] m [] b at s a ne = ground arith
scan-found [] m (n ∷ back) b at s a ne = ground arith
scan-found (f ∷ front) m back b at s a ne =
    ground (arith, scan-found front m back b (at + b) (read_block false f (at + b) s) a.1 a.0)

-- For the number of a logged message other than (0, 0, 0) that no earlier block has,
-- `log_tail_length` prints the number of bytes of the data file behind that message's end.
pub tail_length_lem :
    (front : List Metadata) (m : Metadata) (back : List Metadata) (b data_size : ℕ)
    → Absent (number m) front
    → number m ≢ (0, 0, 0)
    → m.offset + m.length ≤ data_size
    → data_size < u64
    → tail_length false b (number m) (front ++ m ∷ back) data_size
      ≡ data_size - (m.offset + m.length)
unfolding tail_length
tail_length_lem front m back b data_size a ne fits small =
    let h = scan-found front m back b header_size scan_start a (λ e. ne (sym e)) in
    rw (h.0, h.1) (omega arith)

-- The scan starts as if it had read message (0, 0, 0): for that number the whole data file is given
-- as the tail, wherever the message stands, and whatever its length.
pub tail_length_first :
    (ms : List Metadata) (b data_size : ℕ)
    → data_size < u64
    → tail_length false b (0, 0, 0) ms data_size ≡ data_size
unfolding tail_length scan
tail_length_first [] b data_size small = ground arith
tail_length_first (m ∷ ms) b data_size small = ground arith
