-- ===== src/View/Saved.antt =====
-- persist_view and load_view (view_impl.h): the view in a file, replaced by way of a swap file. The
-- serialisation of a view (to_bytes, from_bytes) is a `Codec`. A program that stops leaves the files
-- as they are after some of the operations.
use old_derecho.Base.{
  ℕ, Option, none, some, List, [], ◌∷◌, ◌++◌, take, drop, length, if◌then◌else◌, leb, ltb,
}
use old_derecho.Base.Bytes.{read_le, write_le}
use old_derecho.Rpc.Invocable.{Codec}
use old_derecho.View.{View}

-- The bytes of the two files, if they exist.
pub record Disk : Type 0 where
  pub view_file : Option (List ℕ)
  pub view_file_swap : Option (List ℕ)

-- What persist_view does to the disk, one byte written at a time.
pub data Operation : Type 0 where
  open_swap : Operation
  write_swap : ℕ → Operation
  rename_swap : Operation

unfoldable pub perform : Operation → Disk → Disk
perform open_swap d = record d { view_file_swap = some [] }
perform (write_swap b) d = elim d.view_file_swap [
  | none ↦ d
  | some bytes ↦ record d { view_file_swap = some (bytes ++ b ∷ []) }
]
perform rename_swap d = elim d.view_file_swap [
  | none ↦ d
  | some bytes ↦ record { view_file = some bytes; view_file_swap = none }
]

unfoldable pub perform_all : List Operation → Disk → Disk
unfolding perform
perform_all [] d = d
perform_all (o ∷ os) d = perform_all os (perform o d)

-- The two objects that are posted: the size of the view's bytes, and the bytes.
unfoldable pub file_bytes : Codec View → View → List ℕ
file_bytes c v = write_le 8 (length (c.to_bytes v)) ++ c.to_bytes v

unfoldable pub writes : List ℕ → List Operation
writes [] = rename_swap ∷ []
writes (b ∷ bytes) = write_swap b ∷ writes bytes

-- persist_view
unfoldable pub persist_view : Codec View → View → List Operation
unfolding file_bytes writes
persist_view c v = open_swap ∷ writes (file_bytes c v)

-- One file of load_view: the view, or nothing where there is no file or the view is not there in full.
-- Where the size of the view is not there in full, the code reads an array of an indeterminate size:
-- that is undefined, the outer `none`.
unfoldable pub load_file : Codec View → Option (List ℕ) → Option (Option View)
load_file c none = some none
load_file c (some bytes) =
    let size_of_view = read_le 8 bytes in
    let buffer = drop 8 bytes in
    if ltb (length bytes) 8
    then none
    else some (
        if ltb (length buffer) size_of_view
        then none
        else some (c.from_bytes (take size_of_view buffer)))

-- The end of load_view: the swap file's view if it is newer, or the only one.
unfoldable pub newer : Option View → Option View → Option View
newer view none = view
newer none (some swap_view) = some swap_view
newer (some view) (some swap_view) =
    if leb swap_view.vid view.vid then some view else some swap_view

-- load_view; the outer `none` is undefined behaviour.
unfoldable pub load_view : Codec View → Disk → Option (Option View)
unfolding load_file newer
load_view c d = elim (load_file c d.view_file) [
  | none ↦ none
  | some view ↦ elim (load_file c d.view_file_swap) [
    | none ↦ none
    | some swap_view ↦ some (newer view swap_view)
  ]
]
