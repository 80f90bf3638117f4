-- ===== src/Rpc/Call.antt =====
-- A call from one member to another and back: what the remote function returns ends up in the promise
-- that the caller holds for that member.
pub mod Parts
use old_derecho.Base.{
  ◌<◌, ◌^◌, ◌&&◌, ltb, leb, ℕ, suc, zero, ◌+◌, ◌≡◌, ◌≢◌, inl, inr, refl, sym, ap, subst, ◌∙◌, Bool,
  true, false, not, Option, none, some, List, [], ◌∷◌, ◌++◌, drop, length, length-append, update,
  get_elem?, set, if◌then◌else◌, ◌==◌, ==_refl, replicate, length-replicate, arith, Bool-cases,
  Option-cases,
}
use mathlib.Core.List.{append_assoc, append-nil}
use old_derecho.Base.Bytes.{
  read_le, write_le, limit, length-write_le, read_le-write_le, drop-write_le, drop-append,
}
use old_derecho.Rpc.Pending.{
  Pending, Promise, fresh, unset, value, remote_exception, Result, ok, err, ◌>>=◌, set_value,
  set_exception, satisfy,
}
use old_derecho.Rpc.Pending.Laws.{answer}
use old_derecho.Rpc.Wire.{
  header_space, populate_header, retrieve_header, IsWord, retrieve_header-populate_header,
}
use old_derecho.Rpc.Invocable
use old_derecho.Rpc.Invocable.{
  Codec, RoundTrips, Invocable, RecvRet, serialize_all, deserialize, receive_call, receive_response,
  allocates, store_reply, reply_with, sizeof_long,
}
use old_derecho.Rpc.Dispatcher
use old_derecho.Rpc.Dispatcher.{
  Dispatcher, Receiver, call, response, Received, receive, handle_receive, handle_receive_from,
  with_invocable,
}
use old_derecho.Rpc.Call.Parts.{
  AllRoundTrip, deserialize-serialize_all, received_header, handle_receive-payload, outcome,
  reply_bytes, threw, receive_call-bytes, receive_response-bytes,
}

-- The two sides of a call: the invocable at the caller and the one at the member that is called, under
-- the same opcodes and codecs, each registered with its dispatcher.
pub record Sides {V : Type 0} (caller remote : Invocable V) (c : Codec V) : Type 0 where
  pub invoke_same : caller.invoke_id ≡ remote.invoke_id
  pub reply_same : caller.reply_id ≡ remote.reply_id
  pub args_same : caller.arg_codecs ≡ remote.arg_codecs
  pub ret_caller : caller.ret_codec ≡ some c
  pub ret_remote : remote.ret_codec ≡ some c
  pub invoke_word : IsWord remote.invoke_id
  pub reply_word : IsWord remote.reply_id

-- Below 2^31 with its header, a size passes both allocators.
int_room :
    (room : ℕ → Bool) (n : ℕ)
    → ((n : ℕ) → n < 2 ^ 31 → room n ≡ true)
    → n + header_space < 2 ^ 31
    → allocates (λ n. allocates room (n + header_space)) n ≡ true
int_room room n big small = ground (arith, big (n + header_space) small, small)

module _ {V : Type 0} where
  reply_bytes_some :
      (c : Codec V) (id : ℕ) (result : Option V) → (length (reply_bytes c id result) == 0) ≡ false
  reply_bytes_some c id none = ground arith
  reply_bytes_some c id (some v) = ground arith

  -- A call as it is laid out by Send.
  abbrev pub call_bytes : Invocable V → ℕ → List V → List ℕ
  call_bytes inv id args = write_le sizeof_long id ++ serialize_all inv.arg_codecs args

  -- What Send lays into the buffer for a call, the member that is called answers with the outcome of
  -- its function, and its own state is as before.
  pub handle_receive-send :
      (room : ℕ → Bool) (id place : ℕ) (args : List V) (caller remote : Invocable V) (c : Codec V)
      → (d e : Dispatcher V) → Sides caller remote c
      → ((n : ℕ) → n < 2 ^ 31 → room n ≡ true)
      → IsWord id
      → IsWord d.nid
      → length (call_bytes remote id args) + header_space < 2 ^ 31
      → length (reply_bytes c id (remote.fn args)) + header_space < 2 ^ 31
      → AllRoundTrip remote.arg_codecs args
      → get_elem? d.invocables place ≡ some caller
      → caller.ret id ≡ none
      → e.receivers remote.invoke_id ≡ some (call place)
      → get_elem? e.invocables place ≡ some remote
      → let reply = reply_bytes c id (remote.fn args) in
        let message =
          populate_header
            (replicate header_space 0 ++ call_bytes remote id args)
            (length (call_bytes remote id args))
            remote.invoke_id
            d.nid in
        (Dispatcher.send room id args place d
          ≡ ok (
            message,
            with_invocable d place (record caller { ret = update caller.ret id (some fresh) }),
          ))
        × (handle_receive room message e
            ≡ ok (record {
              dispatcher = e;
              reply = some (
                  populate_header
                    (replicate header_space 0 ++ reply)
                    (length reply)
                    remote.reply_id
                    e.nid);
              exception = threw (remote.fn args);
            }))
  unfolding Dispatcher.send Invocable.send handle_receive_from Dispatcher.receive
  handle_receive-send room id place args caller remote c d e sides big word nid small small' trips
        there unused known registered =
      let body = call_bytes remote id args in
      let long : length body ≡ sizeof_long + length (serialize_all remote.arg_codecs args) =
        length-append (write_le sizeof_long id) (serialize_all remote.arg_codecs args)
        ∙ ap (λ n. n + length (serialize_all remote.arg_codecs args))
            (length-write_le sizeof_long id) in
      let some_payload : (length body == 0) ≡ false = ground (arith, long) in
      let in_int : leb (2 ^ 31) (length (serialize_all remote.arg_codecs args)) ≡ false =
        ground (arith, long, small) in
      let enough : allocates (λ n. allocates room (n + header_space)) (length body) ≡ true =
        int_room room (length body) big small in
      let in_int' : leb (2 ^ 31) (length (serialize_all caller.arg_codecs args)) ≡ false =
        rw sides.args_same in_int in
      let enough' : allocates (λ n. allocates room (n + header_space))
            (length (call_bytes caller id args))
          ≡ true =
        rw sides.args_same enough in
      let reply_enough = int_room room (length (reply_bytes c id (remote.fn args))) big small' in
      (
        rw
            (
              Dispatcher.send, there, Invocable.send, in_int', enough', unused, sides.args_same,
              sides.invoke_same,
            )
            refl,
        handle_receive-payload room body remote.invoke_id d.nid e (omega (arith, small))
              sides.invoke_word nid
            ∙ rw
                (
                  handle_receive_from,
                  some_payload,
                  Dispatcher.receive,
                  known,
                  registered,
                  receive_call-bytes (λ n. allocates room (n + header_space)) id args remote c
                      (reply_enough) word sides.ret_remote trips,
                )
                refl,
      )

  -- The reply for an outcome, taken in by a caller that waits under its ID.
  handle_receive-reply :
      (room : ℕ → Bool) (id place op nid : ℕ) (inv : Invocable V) (c : Codec V) (p : Pending V)
      (result : Option V) (d : Dispatcher V)
      → IsWord id
      → IsWord op
      → IsWord nid
      → IsWord (length (reply_bytes c id result))
      → inv.ret_codec ≡ some c
      → ((v : V) → result ≡ some v → RoundTrips c v)
      → d.receivers op ≡ some (response place)
      → get_elem? d.invocables place ≡ some inv
      → inv.ret id ≡ some p
      → p.promises nid ≡ unset
      → let reply = reply_bytes c id result in
        (q : Pending V) × (handle_receive room
            (populate_header (replicate header_space 0 ++ reply) (length reply) op nid)
            d
          ≡ ok (record {
            dispatcher = with_invocable d place (record inv { ret = update inv.ret id (some q) });
            reply = none;
            exception = false;
          }))
        × (q.promises nid ≡ outcome result)
        × ((n : ℕ) → n ≢ nid → q.promises n ≡ p.promises n)
  unfolding handle_receive_from Dispatcher.receive
  handle_receive-reply room id place op nid inv c p result d word op_word nid_word fits codec trips
        known registered waits open_promise =
      let reply = reply_bytes c id result in
      let stored =
        receive_response-bytes nid id inv c p result word codec waits open_promise trips in
      (
        stored.0,
        handle_receive-payload room reply op nid d fits op_word nid_word
            ∙ rw
                (
                  handle_receive_from,
                  reply_bytes_some c id result,
                  Dispatcher.receive,
                  known,
                  registered,
                  stored.1,
                )
                refl,
        stored.2,
        stored.3,
      )

  -- A remote call, there and back. Let the two members have registered one function under the same
  -- opcodes and codecs, let the codecs read back the arguments and the result, let there be room for
  -- every buffer of less than 2^31 bytes, let the call and the reply with their headers be shorter than
  -- that, and let the words in the headers fit in 64 bits. Then Send lays out a message and
  -- opens a promise under its new ID; the member that takes the message in runs the function, keeps
  -- its own state, replies, and hands an exception back exactly if the function threw. A later state
  -- of the caller that still waits under the ID, with no answer of that member, takes the reply in
  -- without a further reply or exception: the promise of the member gets the value of the function,
  -- or a remote exception if it threw, and no other promise changes.
  pub call_round_trip :
      (room : ℕ → Bool) (id place : ℕ) (args : List V) (caller remote waiting : Invocable V)
      (c : Codec V) (p : Pending V) (d e later : Dispatcher V)
      → Sides caller remote c
      → waiting.ret_codec ≡ some c
      → ((n : ℕ) → n < 2 ^ 31 → room n ≡ true)
      → IsWord id
      → IsWord d.nid
      → IsWord e.nid
      → length (call_bytes remote id args) + header_space < 2 ^ 31
      → length (reply_bytes c id (remote.fn args)) + header_space < 2 ^ 31
      → AllRoundTrip remote.arg_codecs args
      → ((v : V) → remote.fn args ≡ some v → RoundTrips c v)
      → get_elem? d.invocables place ≡ some caller
      → caller.ret id ≡ none
      → e.receivers remote.invoke_id ≡ some (call place)
      → get_elem? e.invocables place ≡ some remote
      → later.receivers remote.reply_id ≡ some (response place)
      → get_elem? later.invocables place ≡ some waiting
      → waiting.ret id ≡ some p
      → p.promises e.nid ≡ unset
      → (message reply : List ℕ) × (q : Pending V) × (Dispatcher.send room id args place d
          ≡ ok (
            message,
            with_invocable d place (record caller { ret = update caller.ret id (some fresh) }),
          ))
        × (handle_receive room message e
            ≡ ok
                (record { dispatcher = e; reply = some reply; exception = threw (remote.fn args) }))
        × (handle_receive room reply later
            ≡ ok (record {
              dispatcher =
                  with_invocable later place
                    (record waiting { ret = update waiting.ret id (some q) });
              reply = none;
              exception = false;
            }))
        × (q.promises e.nid ≡ outcome (remote.fn args))
        × ((n : ℕ) → n ≢ e.nid → q.promises n ≡ p.promises n)
  call_round_trip room id place args caller remote waiting c p d e later sides codec big word nid
        nid' small small' trips trips' there unused known registered known' registered' waits
        open_promise =
      let out =
        handle_receive-send room id place args caller remote c d e sides big word nid small small'
          trips there unused known registered in
      let back =
        handle_receive-reply room id place remote.reply_id e.nid waiting c p (remote.fn args) later
          word sides.reply_word nid' (omega (arith, small')) codec trips' known' registered' waits
          open_promise in
      (_, _, back.0, out.0, out.1, back.1, back.2, back.3)
