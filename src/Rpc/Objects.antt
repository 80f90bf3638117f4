-- ===== src/Rpc/Objects.antt =====
-- The replicated objects on a socket (Dispatcher::send_objects and receive_objects in
-- derecho_caller.h). A socket is the list of the bytes that come from it; a read that fails is `none`,
-- since an assertion follows. mutils::fold goes through the objects in the order of the list, and the
-- size of all is posted as the eight bytes of a size_t.
use old_derecho.Base.{
  ℕ, ◌+◌, ◌≡◌, refl, sym, ap, ◌∙◌, false, Option, none, some, List, [], ◌∷◌, ◌++◌, take, drop,
  length, length-append, if◌then◌else◌, ltb, arith,
}
use mathlib.Core.List.{append_assoc, append-nil}
use old_derecho.Base.Bytes.{
  read_le, write_le, length-write_le, read_le-write_le, take-append, drop-append, drop-drop,
}
use old_derecho.Rpc.Wire.{IsWord}
use old_derecho.Rpc.Invocable.{Codec, serialize_all, deserialize}
use old_derecho.Rpc.Call.Parts.{AllRoundTrip, deserialize-serialize_all}

-- tcp::socket::read: so many bytes, and those behind them.
unfoldable pub read_bytes : ℕ → List ℕ → Option (List ℕ × List ℕ)
read_bytes n incoming =
    if ltb (length incoming) n then none else some (take n incoming, drop n incoming)

pub read_bytes-append :
    (n : ℕ) (front rest : List ℕ)
    → length front ≡ n
    → read_bytes n (front ++ rest) ≡ some (front, rest)
unfolding read_bytes
read_bytes-append n front rest e =
    let long = length-append front rest in
    let enough : ltb (length (front ++ rest)) n ≡ false = ground (arith, long, e) in
    rw (enough, take-append n front rest e, drop-append n front rest e) refl

-- What is sent as its size in eight bytes and then its bytes, read again.
unfoldable pub read_sized : List ℕ → Option (List ℕ × List ℕ)
unfolding read_bytes
read_sized incoming = elim (read_bytes 8 incoming) [
  | none ↦ none
  | some (size, behind) ↦ read_bytes (read_le 8 size) behind
]

pub read_sized-append :
    (size : ℕ) (bytes rest : List ℕ)
    → length bytes ≡ size
    → IsWord size
    → read_sized ((write_le 8 size ++ bytes) ++ rest) ≡ some (bytes, rest)
unfolding read_sized
read_sized-append size bytes rest e fits =
    let front = write_le 8 size in
    let at_size : read_le 8 front ≡ size =
      ap (read_le 8) (sym (append-nil front)) ∙ read_le-write_le 8 size [] fits in
    rw
      (
        append_assoc front bytes rest,
        read_sized,
        read_bytes-append 8 front (bytes ++ rest) (length-write_le 8 size),
        at_size,
      )
      (read_bytes-append size bytes rest e)

module _ {V : Type 0} where
  -- The first fold of send_objects
  unfoldable pub total_size : List (Codec V) → List V → ℕ → ℕ
  total_size (c ∷ cs) (o ∷ objects) accumulated =
      total_size cs objects (accumulated + length (c.to_bytes o))
  total_size cs objects accumulated = accumulated

  -- send_objects
  unfoldable pub send_objects : List (Codec V) → List V → List ℕ
  unfolding total_size serialize_all
  send_objects cs objects = write_le 8 (total_size cs objects 0) ++ serialize_all cs objects

  -- The fold of receive_objects: each object is read at the offset where the one before ends.
  unfoldable pub objects_from : List (Codec V) → ℕ → List ℕ → List V
  objects_from [] offset buf = []
  objects_from (c ∷ cs) offset buf =
      let o = c.from_bytes (drop offset buf) in
      o ∷ objects_from cs (offset + length (c.to_bytes o)) buf

  -- receive_objects: the objects, and what follows on the socket.
  unfoldable pub receive_objects : List (Codec V) → List ℕ → Option (List V × List ℕ)
  unfolding read_sized objects_from
  receive_objects cs incoming = elim (read_sized incoming) [
    | none ↦ none
    | some (buf, rest) ↦ some (objects_from cs 0 buf, rest)
  ]

  total_size-length :
      (cs : List (Codec V)) (objects : List V) (k : ℕ)
      → total_size cs objects k ≡ k + length (serialize_all cs objects)
  unfolding total_size serialize_all
  total_size-length [] objects k = omega arith
  total_size-length (c ∷ cs) [] k = omega arith
  total_size-length (c ∷ cs) (o ∷ objects) k = omega (
    arith,
    total_size-length cs objects (k + length (c.to_bytes o)),
    length-append (c.to_bytes o) (serialize_all cs objects),
  )

  objects_from-deserialize :
      (cs : List (Codec V)) (offset : ℕ) (buf : List ℕ)
      → objects_from cs offset buf ≡ deserialize cs (drop offset buf)
  unfolding objects_from deserialize
  objects_from-deserialize [] offset buf = refl
  objects_from-deserialize (c ∷ cs) offset buf =
      let o = c.from_bytes (drop offset buf) in
      let n = length (c.to_bytes o) in
      ap (λ l. o ∷ l)
        (objects_from-deserialize cs (offset + n) buf
          ∙ ap (deserialize cs) (sym (drop-drop offset n (offset + n) buf refl)))

  pub receive_objects-send_objects :
      (cs : List (Codec V)) (objects : List V) (rest : List ℕ)
      → AllRoundTrip cs objects
      → IsWord (length (serialize_all cs objects))
      → receive_objects cs (send_objects cs objects ++ rest) ≡ some (objects, rest)
  unfolding receive_objects send_objects
  receive_objects-send_objects cs objects rest trips fits =
      let bytes = serialize_all cs objects in
      let size = total_size-length cs objects 0 in
      let total : total_size cs objects 0 ≡ length bytes = omega (arith, size) in
      let read : objects_from cs 0 bytes ≡ objects =
        objects_from-deserialize cs 0 bytes
        ∙ ap (deserialize cs) (sym (append-nil bytes))
        ∙ deserialize-serialize_all cs objects [] trips in
      rw (total, receive_objects, read_sized-append (length bytes) bytes rest refl fits)
        (ap (λ l. some (l, rest)) read)
