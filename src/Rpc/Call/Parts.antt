-- ===== src/Rpc/Call/Parts.antt =====
-- What the stages of a remote call do with the bytes that they hand to one another.
use old_derecho.Base.{
  ℕ, ◌≡◌, ◌≢◌, inl, inr, refl, ap, subst, ◌∙◌, Bool, true, false, Option, none, some, List, [], ◌∷◌,
  ◌++◌, drop, length, update, ==_refl, replicate, length-replicate, arith, Option-cases,
}
use mathlib.Core.List.{append_assoc, append-nil}
use old_derecho.Base.Bytes.{read_le, write_le, read_le-write_le, drop-write_le, drop-append}
use old_derecho.Rpc.Pending.{
  Pending, Promise, unset, value, remote_exception, Result, ok, set_value, set_exception, satisfy,
}
use old_derecho.Rpc.Pending.Laws.{answer}
use old_derecho.Rpc.Wire.{
  header_space, populate_header, retrieve_header, IsWord, retrieve_header-populate_header,
}
use old_derecho.Rpc.Invocable.{
  Codec, RoundTrips, Invocable, RecvRet, serialize_all, deserialize, receive_call, receive_response,
  store_reply, reply_with, allocates, sizeof_long,
}
use old_derecho.Rpc.Dispatcher.{Dispatcher, handle_receive, handle_receive_from}

-- A payload behind its header is found again.
pub received_header :
    (payload : List ℕ) (op from : ℕ)
    → IsWord (length payload)
    → IsWord op
    → IsWord from
    → let bytes = populate_header (replicate header_space 0 ++ payload) (length payload) op from in
      (retrieve_header bytes ≡ (length payload, op, from)) × (drop header_space bytes ≡ payload)
received_header payload op from hl ho hf =
    let parts =
      retrieve_header-populate_header (replicate header_space 0 ++ payload) (length payload) op from
        hl ho hf in
    (
      parts.0,
      parts.1
          ∙ drop-append header_space (replicate {A = ℕ} header_space 0) payload
              (length-replicate {A = ℕ} header_space 0),
    )

module _ {V : Type 0} where
  -- There is one argument for each codec, and each is read back.
  abbrev pub AllRoundTrip : List (Codec V) → List V → Type 0
  AllRoundTrip [] [] = Unit {0}
  AllRoundTrip [] (a ∷ args) = ⊥
  AllRoundTrip (c ∷ cs) [] = ⊥
  AllRoundTrip (c ∷ cs) (a ∷ args) = RoundTrips c a × AllRoundTrip cs args

  pub deserialize-serialize_all :
      (cs : List (Codec V)) (args : List V) (rest : List ℕ)
      → AllRoundTrip cs args
      → deserialize cs (serialize_all cs args ++ rest) ≡ args
  unfolding deserialize serialize_all
  deserialize-serialize_all [] [] rest h = refl
  deserialize-serialize_all [] (a ∷ args) rest h = absurd h
  deserialize-serialize_all (c ∷ cs) [] rest h = absurd h
  deserialize-serialize_all (c ∷ cs) (a ∷ args) rest h =
      let bytes = serialize_all cs args ++ rest in
      rw
        (
          append_assoc (c.to_bytes a) (serialize_all cs args) rest,
          h.0 bytes,
          drop-append (length (c.to_bytes a)) (c.to_bytes a) bytes refl,
          deserialize-serialize_all cs args rest h.1,
        )
        refl

  pub handle_receive-payload :
      (room : ℕ → Bool) (payload : List ℕ) (op from : ℕ) (d : Dispatcher V)
      → IsWord (length payload)
      → IsWord op
      → IsWord from
      → handle_receive room
          (populate_header (replicate header_space 0 ++ payload) (length payload) op from)
          d
        ≡ handle_receive_from room op from payload (length payload) d
  unfolding handle_receive
  handle_receive-payload room payload op from d hl ho hf =
      let parts = received_header payload op from hl ho hf in
      λ i.
        let (size, to, sender) = parts.0 i in handle_receive_from room to sender (parts.1 i) size d

  -- What a function's outcome leaves in a promise, and the bytes of the reply.
  abbrev pub outcome : Option V → Promise V
  outcome none = remote_exception
  outcome (some v) = value v

  abbrev pub reply_bytes : Codec V → ℕ → Option V → List ℕ
  reply_bytes c id none = 1 ∷ write_le sizeof_long id
  reply_bytes c id (some v) = 0 ∷ (write_le sizeof_long id ++ c.to_bytes v)

  abbrev pub threw : Option V → Bool
  threw none = true
  threw (some v) = false

  pub receive_call-bytes :
      (room : ℕ → Bool) (id : ℕ) (args : List V) (inv : Invocable V) (c : Codec V)
      → allocates room (length (reply_bytes c id (inv.fn args))) ≡ true
      → IsWord id
      → inv.ret_codec ≡ some c
      → AllRoundTrip inv.arg_codecs args
      → receive_call room (write_le sizeof_long id ++ serialize_all inv.arg_codecs args) inv
        ≡ ok (record {
          opcode = inv.reply_id;
          payload = some (reply_bytes c id (inv.fn args));
          possible_exception = threw (inv.fn args);
        })
  unfolding receive_call reply_with
  receive_call-bytes room id args inv c big word codec trips =
      let body = serialize_all inv.arg_codecs args in
      let at_id = read_le-write_le sizeof_long id body word in
      let at_body = drop-write_le sizeof_long id body in
      let read : deserialize inv.arg_codecs body ≡ args =
        subst (λ bytes. deserialize inv.arg_codecs bytes ≡ args) (append-nil body)
          (deserialize-serialize_all inv.arg_codecs args [] trips) in
      elim (Option-cases (inv.fn args)) [
        | inl e ↦
            rw (receive_call, codec, at_body, read, e) (rw (at_id, reply_with, (rw e at big)) refl)
        | inr (v, e) ↦
            rw (receive_call, codec, at_body, read, e) (rw (at_id, reply_with, (rw e at big)) refl)
      ]

  pub receive_response-bytes :
      (nid id : ℕ) (inv : Invocable V) (c : Codec V) (p : Pending V) (result : Option V)
      → IsWord id
      → inv.ret_codec ≡ some c
      → inv.ret id ≡ some p
      → p.promises nid ≡ unset
      → ((v : V) → result ≡ some v → RoundTrips c v)
      → (q : Pending V) × (receive_response nid (reply_bytes c id result) inv
          ≡ ok (
            record { opcode = 0; payload = none; possible_exception = false },
            record inv { ret = update inv.ret id (some q) },
          ))
        × (q.promises nid ≡ outcome result)
        × ((n : ℕ) → n ≢ nid → q.promises n ≡ p.promises n)
  unfolding receive_response store_reply set_value set_exception satisfy
  receive_response-bytes nid id inv c p none word codec there open_promise trips =
      let back : read_le sizeof_long (write_le sizeof_long id) ≡ id =
        subst (λ bytes. read_le sizeof_long bytes ≡ id) (append-nil (write_le sizeof_long id))
          (read_le-write_le sizeof_long id [] word) in
      let body = drop sizeof_long (write_le sizeof_long id) in
      (
        answer p nid remote_exception,
        (λ i. store_reply nid body true (back i) (codec i) (inv.ret (back i)) inv)
            ∙ (λ i. store_reply nid body true id (some c) (there i) inv)
            ∙ rw (store_reply, set_exception, satisfy, open_promise) refl,
        rw (==_refl nid) refl,
        λ n ne. ground arith,
      )
  receive_response-bytes nid id inv c p (some v) word codec there open_promise trips =
      let back = read_le-write_le sizeof_long id (c.to_bytes v) word in
      let body = drop-write_le sizeof_long id (c.to_bytes v) in
      let result : c.from_bytes (c.to_bytes v) ≡ v =
        subst (λ bytes. c.from_bytes bytes ≡ v) (append-nil (c.to_bytes v)) (trips v refl []) in
      (
        answer p nid (value v),
        (λ i. store_reply nid (body i) false (back i) (codec i) (inv.ret (back i)) inv)
            ∙ (λ i. store_reply nid (c.to_bytes v) false id (some c) (there i) inv)
            ∙ rw (store_reply, set_value, satisfy, open_promise)
                (ap {B = Result (RecvRet × Invocable V)}
                  (λ (x : V). ok (
                    record { opcode = 0; payload = none; possible_exception = false },
                    record inv { ret = update inv.ret id (some (answer p nid (value x))) },
                  ))
                  result),
        rw (==_refl nid) refl,
        λ n ne. ground arith,
      )
