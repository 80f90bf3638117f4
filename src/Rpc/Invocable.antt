-- ===== src/Rpc/Invocable.antt =====
-- One function that can be called remotely (RemoteInvocable in derecho_caller.h): how a call and a
-- reply are laid out, and what is done on their arrival. The serialisation library's to_bytes and
-- from_bytes for each type are a `Codec`; `V` is the sum of the argument and result types. A buffer
-- is the list of its bytes; `room` says for which sizes the allocator gives one.
use old_derecho.Base.{
  ◌^◌, ◌&&◌, ltb, leb, ℕ, suc, ◌≡◌, Bool, true, false, not, Option, none, some, List, [], ◌∷◌, ◌++◌,
  drop, length, update, if◌then◌else◌, ◌==◌, get_or,
}
use old_derecho.Base.Bytes.{read_le, write_le}
use old_derecho.Rpc.Pending.{
  Pending, Result, ok, err, ◌>>=◌, fresh, set_value, set_exception, remote_exception,
  future_already_retrieved, null_pointer, assertion_failed, function_threw,
  remote_exception_occurred,
}

-- mutils::to_bytes and mutils::from_bytes for one type
pub record Codec (V : Type 0) : Type 0 where
  pub to_bytes : V → List ℕ
  pub from_bytes : List ℕ → V

-- The value is read back, whatever stands behind its bytes.
abbrev pub RoundTrips : {V : Type 0} → Codec V → V → Type 0
RoundTrips c v = (rest : List ℕ) → c.from_bytes (c.to_bytes v ++ rest) ≡ v

-- RemoteInvocable. `fn` gives none where the function throws; `ret_codec` is none
-- for a void function, whose value is not used.
pub record Invocable (V : Type 0) : Type 0 where
  pub invoke_id : ℕ
  pub reply_id : ℕ
  pub arg_codecs : List (Codec V)
  pub ret_codec : Option (Codec V)
  pub fn : List V → Option V
  pub ret : ℕ → Option (Pending V)

-- recv_ret: a reply to send, if there is a buffer, and whether an exception is handed back.
pub record RecvRet : Type 0 where
  pub opcode : ℕ
  pub payload : Option (List ℕ)
  pub possible_exception : Bool

abbrev pub sizeof_long : ℕ
sizeof_long = 8

-- An allocator takes an int: a size from 2^31 on reaches it as a negative number, for which there is
-- no buffer.
abbrev pub allocates : (ℕ → Bool) → ℕ → Bool
allocates room size = ltb size (2 ^ 31) && room size

module _ {V : Type 0} where
  -- serialize_all
  unfoldable pub serialize_all : List (Codec V) → List V → List ℕ
  serialize_all [] args = []
  serialize_all (c ∷ cs) [] = []
  serialize_all (c ∷ cs) (a ∷ args) = c.to_bytes a ++ serialize_all cs args

  -- deserialize: each argument is read behind the bytes of the one before.
  unfoldable pub deserialize : List (Codec V) → List ℕ → List V
  deserialize [] buf = []
  deserialize (c ∷ cs) buf =
      let ds = c.from_bytes buf in ds ∷ deserialize cs (drop (length (c.to_bytes ds)) buf)

  -- Send, with the random invocation ID. A second promise under the same ID gives no future. The sizes of
  -- the arguments are added up as an int: from 2^31 bytes on, the sum is not the number of bytes that
  -- are written, and the assertion on the two fails, at the latest.
  unfoldable pub send : (ℕ → Bool) → ℕ → List V → Invocable V → Result (List ℕ × Invocable V)
  unfolding serialize_all fresh
  send room invocation_id args inv =
      let serialized_args = serialize_all inv.arg_codecs args in
      let bytes = write_le sizeof_long invocation_id ++ serialized_args in
      if leb (2 ^ 31) (length serialized_args)
      then err assertion_failed
      else if not (allocates room (length bytes))
      then err null_pointer
      else elim (inv.ret invocation_id) [
        | some p ↦ err future_already_retrieved
        | none ↦ ok (bytes, record inv { ret = update inv.ret invocation_id (some fresh) })
      ]

  -- The recv_ret for the reply `out`, if there is room for it.
  unfoldable pub reply_with : (ℕ → Bool) → List ℕ → Bool → Invocable V → Result RecvRet
  reply_with room out thrown inv =
      if allocates room (length out)
      then ok (record { opcode = inv.reply_id; payload = some out; possible_exception = thrown })
      else err null_pointer

  -- receive_call. What a void function throws is not caught here.
  unfoldable pub receive_call : (ℕ → Bool) → List ℕ → Invocable V → Result RecvRet
  unfolding deserialize reply_with
  receive_call room recv_buf inv =
      let id = read_le sizeof_long recv_buf in
      let args = deserialize inv.arg_codecs (drop sizeof_long recv_buf) in
      elim inv.ret_codec [
        | none ↦ elim (inv.fn args) [
          | none ↦ err function_threw
          | some v ↦
              ok (record { opcode = inv.reply_id; payload = none; possible_exception = false })
        ]
        | some c ↦ elim (inv.fn args) [
          | some v ↦ reply_with room (0 ∷ (write_le sizeof_long id ++ c.to_bytes v)) false inv
          | none ↦ reply_with room (1 ∷ write_le sizeof_long id) true inv
        ]
      ]

  -- The part of receive_response behind the lookup in `ret`.
  unfoldable pub store_reply :
      ℕ
      → List ℕ
      → Bool
      → ℕ
      → Option (Codec V)
      → Option (Pending V)
      → Invocable V
      → Result (RecvRet × Invocable V)
  store_reply nid body true id none pending inv = err remote_exception_occurred
  store_reply nid body false id none pending inv = err assertion_failed
  store_reply nid body is_exception id (some c) none inv = err assertion_failed
  store_reply nid body is_exception id (some c) (some p) inv = do
    q ←
        if is_exception
        then set_exception p nid remote_exception
        else set_value p nid (c.from_bytes body)
    ok (
      record { opcode = 0; payload = none; possible_exception = false },
      record inv { ret = update inv.ret id (some q) },
    )

  -- receive_response, for the reply of node nid
  unfoldable pub receive_response : ℕ → List ℕ → Invocable V → Result (RecvRet × Invocable V)
  unfolding store_reply
  receive_response nid response inv =
      let is_exception = not (get_or response 0 0 == 0) in
      let id = read_le sizeof_long (drop 1 response) in
      store_reply nid (drop (suc sizeof_long) response) is_exception id inv.ret_codec (inv.ret id)
        inv
