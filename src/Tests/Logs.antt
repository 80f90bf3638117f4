-- ===== src/Tests/Logs.antt =====
-- A log with one message to write, and one of two blocks to read.
use old_derecho.Base.{◌+◌, ◌-◌, ◌≡◌, false, some, [], ◌∷◌, ◌++◌, length, arith}
use old_derecho.Tests.Data.{a_block, a_writer}
use old_derecho.FileWriter.{FileWriter, perform_writes}
use old_derecho.FileWriter.Log.{written, perform_writes_lem}
use old_derecho.FileWriter.Tail.{tail_length, number, tail_length_lem}

perform_writes_lem_example :
    perform_writes a_writer
    ≡ some (record (written a_writer a_writer.pending_writes) { pending_writes = [] })
perform_writes_lem_example = perform_writes_lem a_writer (omega arith, tt) (omega arith)

tail_length_lem_example :
    tail_length false 40
      (number (a_block 2 5))
      ((a_block 1 0 ∷ []) ++ (a_block 2 5) ∷ (a_block 3 10 ∷ []))
      15
    ≡ 15 - ((a_block 2 5).offset + (a_block 2 5).length)
tail_length_lem_example =
    tail_length_lem (a_block 1 0 ∷ []) (a_block 2 5) (a_block 3 10 ∷ []) 40 15 (ground arith, tt)
      (ground arith) (omega arith) (omega arith)
