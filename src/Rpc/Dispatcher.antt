-- ===== src/Rpc/Dispatcher.antt =====
-- The functions of a member's objects and the table of receivers (RemoteInvocablePairs,
-- RemoteInvocableClass and Dispatcher in derecho_caller.h). The function that a class and a tag name is
-- known by its place in the list of functions, which every member registers in the same order.
use old_derecho.Base.{
  ℕ, ◌+◌, Bool, Option, none, some, List, [], ◌∷◌, ◌++◌, drop, length, update, get_elem?, set,
  if◌then◌else◌, ◌==◌, replicate,
}
use old_derecho.Rpc.Pending.{Result, ok, err, ◌>>=◌, out_of_range, assertion_failed}
use old_derecho.Rpc.Wire.{header_space, populate_header, retrieve_header}
use old_derecho.Rpc.Invocable
use old_derecho.Rpc.Invocable.{allocates, Invocable, RecvRet, receive_call, receive_response}

-- What an opcode calls: receive_call or receive_response of the function at a place.
pub data Receiver : Type 0 where
  call : ℕ → Receiver
  response : ℕ → Receiver

pub record Dispatcher (V : Type 0) : Type 0 where
  pub nid : ℕ
  pub receivers : ℕ → Option Receiver
  pub invocables : List (Invocable V)

-- The outcome of a receipt: the bytes of a reply with its header, and the exception handed back.
pub record Received (V : Type 0) : Type 0 where
  pub dispatcher : Dispatcher V
  pub reply : Option (List ℕ)
  pub exception : Bool

module _ {V : Type 0} where
  -- The constructor of RemoteInvocable: the two receivers of a function.
  unfoldable pub register : Invocable V → Dispatcher V → Dispatcher V
  register inv d =
      let place = length d.invocables in
      record d {
        receivers =
            update (update d.receivers inv.invoke_id (some (call place))) inv.reply_id
              (some (response place));
        invocables = d.invocables ++ inv ∷ [];
      }

  unfoldable pub register_all : List (Invocable V) → Dispatcher V → Dispatcher V
  unfolding register
  register_all [] d = d
  register_all (inv ∷ invs) d = register_all invs (register inv d)

  abbrev pub with_invocable : Dispatcher V → ℕ → Invocable V → Dispatcher V
  with_invocable d place inv = record d { invocables = set d.invocables place inv }

  -- RemoteInvocableClass::Send for the function at `place`: the message that is laid into the buffer.
  unfoldable pub send : (ℕ → Bool) → ℕ → List V → ℕ → Dispatcher V → Result (List ℕ × Dispatcher V)
  unfolding populate_header
  send room invocation_id args place d = elim (get_elem? d.invocables place) [
    | none ↦ err out_of_range
    | some inv ↦ do
      (bytes, inv') ← Invocable.send (λ n. allocates room (n + header_space)) invocation_id args inv
      ok (
        populate_header (replicate header_space 0 ++ bytes) (length bytes) inv.invoke_id d.nid,
        with_invocable d place inv',
      )
  ]

  -- receivers->at(indx)(...)
  unfoldable pub receive :
      (ℕ → Bool) → ℕ → ℕ → List ℕ → Dispatcher V → Result (RecvRet × Dispatcher V)
  unfolding receive_call receive_response
  receive room op from buf d = elim (d.receivers op) [
    | none ↦ err out_of_range
    | some (call place) ↦ elim (get_elem? d.invocables place) [
      | none ↦ err out_of_range
      | some inv ↦ do r ← receive_call room buf inv; ok (r, d)
    ]
    | some (response place) ↦ elim (get_elem? d.invocables place) [
      | none ↦ err out_of_range
      | some inv ↦ do (r, inv') ← receive_response from buf inv; ok (r, with_invocable d place inv')
    ]
  ]

  -- handle_receive(indx, received_from, buf, payload_size, out_alloc)
  unfoldable pub handle_receive_from :
      (ℕ → Bool) → ℕ → ℕ → List ℕ → ℕ → Dispatcher V → Result (Received V)
  unfolding receive populate_header
  handle_receive_from room op from buf payload_size d =
      if payload_size == 0 then err assertion_failed else do
        (r, d') ← receive (λ n. allocates room (n + header_space)) op from buf d
        ok (record {
          dispatcher = d';
          reply = elim r.payload [
            | none ↦ none
            | some out ↦
                some (populate_header (replicate header_space 0 ++ out) (length out) r.opcode d.nid)
          ];
          exception = r.possible_exception;
        })

  -- handle_receive(buf, size, out_alloc)
  unfoldable pub handle_receive : (ℕ → Bool) → List ℕ → Dispatcher V → Result (Received V)
  unfolding handle_receive_from retrieve_header
  handle_receive room buf d =
      let (payload_size, op, from) = retrieve_header buf in
      handle_receive_from room op from (drop header_space buf) payload_size d
