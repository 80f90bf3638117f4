-- ===== src/Tests/Remote.antt =====
-- A function of one argument that member 20 runs for member 10, and what comes of the query.
use old_derecho.Base.{
  ℕ, ◌+◌, ◌%◌, ◌≡◌, ◌≢◌, refl, subst, true, false, none, some, List, [], ◌∷◌, ◌++◌, update, arith,
}
use old_derecho.Tests.Data.{a_message, pair_member}
use old_derecho.Rpc.Pending.{Pending, unset, value, ok, err, fresh, contains, assertion_failed}
use old_derecho.Group.Send
use old_derecho.Rpc.Invocable
use old_derecho.Rpc.Invocable.{Codec, Invocable, serialize_all}
use old_derecho.Base.Bytes.{write_le}
use old_derecho.Rpc.Dispatcher
use old_derecho.Rpc.Dispatcher.{Dispatcher, register, with_invocable, handle_receive}
use old_derecho.Rpc.Call.{Sides, call_round_trip}
use old_derecho.Rpc.Call.Parts.{outcome, threw}
use old_derecho.Rpc.Query.{Query, new_query, ready, not_yet, get, reply_of}
use old_derecho.Rpc.Query.Waiting.{mapped, taken, get-answered}
use old_derecho.Group.{Group}
use old_derecho.Group.Remote.{derecho_caller_send}
use old_derecho.Gms.Removed.{removed_upcall, AllReady, NoneWaitsFor, removed_upcall_lem}

abbrev a_codec : Codec ℕ
a_codec = record {
  to_bytes = λ v. v % 256 ∷ [];
  from_bytes = λ bytes. elim bytes [ [] ↦ 0 | b ∷ bs ↦ b ];
}

-- The successor function
abbrev an_invocable : Invocable ℕ
an_invocable = record {
  invoke_id = 1;
  reply_id = 2;
  arg_codecs = a_codec ∷ [];
  ret_codec = some a_codec;
  fn = λ args. elim args [ [] ↦ none | a ∷ rest ↦ some (a + 1) ];
  ret = λ id. none;
}

abbrev waiting_invocable : Invocable ℕ
waiting_invocable = record an_invocable { ret = update an_invocable.ret 7 (some fresh) }

abbrev dispatcher : ℕ → Invocable ℕ → Dispatcher ℕ
dispatcher nid inv = record {
  nid = nid;
  receivers =
      update (update (λ op. none) 1 (some (Dispatcher.call 0))) 2 (some (Dispatcher.response 0));
  invocables = inv ∷ [];
}

an_invocable-Sides : Sides an_invocable an_invocable a_codec
an_invocable-Sides = record {
  invoke_same = refl;
  reply_same = refl;
  args_same = refl;
  ret_caller = refl;
  ret_remote = refl;
  invoke_word = omega arith;
  reply_word = omega arith;
}

call_round_trip_example :
    (message reply : List ℕ) × (q : Pending ℕ) × (Dispatcher.send
        (λ n. true)
        7
        (5 ∷ [])
        0
        (dispatcher 10 an_invocable)
      ≡ ok (
        message,
        with_invocable
            (dispatcher 10 an_invocable)
            0
            (record an_invocable { ret = update an_invocable.ret 7 (some fresh) }),
      ))
    × (handle_receive (λ n. true) message (dispatcher 20 an_invocable)
        ≡ ok (record {
          dispatcher = (dispatcher 20 an_invocable);
          reply = some reply;
          exception = threw (an_invocable.fn (5 ∷ []));
        }))
    × (handle_receive (λ n. true) reply (dispatcher 10 waiting_invocable)
        ≡ ok (record {
          dispatcher =
              with_invocable
                (dispatcher 10 waiting_invocable)
                0
                (record waiting_invocable { ret = update waiting_invocable.ret 7 (some q) });
          reply = none;
          exception = false;
        }))
    × (q.promises 20 ≡ outcome (an_invocable.fn (5 ∷ [])))
    × ((n : ℕ) → n ≢ 20 → q.promises n ≡ (fresh {A = ℕ}).promises n)
unfolding fresh write_le serialize_all
call_round_trip_example =
    call_round_trip (λ n. true) 7 0 (5 ∷ []) an_invocable an_invocable waiting_invocable a_codec
      fresh (dispatcher 10 an_invocable) (dispatcher 20 an_invocable)
      (dispatcher 10 waiting_invocable) an_invocable-Sides refl (λ n lt. refl) (omega arith)
      (omega arith) (omega arith) (omega arith) (omega arith) (λ rest. refl, tt)
      (λ v same rest. let e : 6 ≡ v = ground (arith, same) in subst (λ x. x % 256 ≡ x) e refl) refl
      refl refl refl refl refl refl refl

-- A query whose map was fulfilled with nodes 20 and 30, with the reply of 20.
abbrev answered_query : Pending ℕ
answered_query = record {
  reply_map = some (20 ∷ 30 ∷ []);
  promises = update (λ n. unset) 20 (value 6);
  retrieved = λ n. true;
  map_fulfilled = true;
  dest_nodes = 20 ∷ 30 ∷ [];
  set_nodes = 20 ∷ [];
}

get-answered_example :
    (get (fresh {A = ℕ} ∷ []) new_query ≡ ok none)
    × (get ((fresh {A = ℕ} ∷ []) ++ answered_query ∷ []) new_query
        ≡ ok (some (mapped (20 ∷ 30 ∷ []))))
    × ((q : Query) → reply_of answered_query 20 (mapped (20 ∷ 30 ∷ [])) ≢ ok (not_yet, q))
    × ((v : ℕ)
        → answered_query.promises 20 ≡ value v
        → (reply_of answered_query 20 (mapped (20 ∷ 30 ∷ []))
            ≡ ok (ready v, taken (20 ∷ 30 ∷ []) 20))
          × (reply_of answered_query 20 (taken (20 ∷ 30 ∷ []) 20) ≡ err assertion_failed))
unfolding fresh contains
get-answered_example =
    get-answered (fresh ∷ []) [] answered_query (20 ∷ 30 ∷ []) 20 (refl, tt) refl refl refl

-- A group that has given out a position.
abbrev filling_group : Group
filling_group = record (pair_member 0) { next_send = some a_message }

abbrev only_20 : List ℕ
only_20 = 20 ∷ []

unfoldable sent_call : Dispatcher ℕ × Group
unfolding derecho_caller_send
sent_call =
    elim (derecho_caller_send only_20 7 (5 ∷ []) 0 (dispatcher 10 an_invocable) filling_group) [
      | err x ↦ (dispatcher 10 an_invocable, filling_group)
      | ok (d, none) ↦ (d, filling_group)
      | ok (d, some g) ↦ (d, g)
    ]

abbrev asked : Pending (List ℕ)
asked = record {
  reply_map = some (20 ∷ 30 ∷ []);
  promises = λ n. unset;
  retrieved = λ n. true;
  map_fulfilled = true;
  dest_nodes = 20 ∷ 30 ∷ [];
  set_nodes = [];
}

abbrev asking_group : Group
asking_group = record (pair_member 0) { fulfilled_list = asked ∷ [] }

removed_upcall_lem_example :
    (h : Group) × (removed_upcall (10 ∷ 30 ∷ []) (10 ∷ 20 ∷ 30 ∷ []) asking_group ≡ ok h)
    × AllReady h.fulfilled_list
    × ((n : ℕ)
        → contains (10 ∷ 20 ∷ 30 ∷ []) n ≡ true
        → contains (10 ∷ 30 ∷ []) n ≡ false
        → NoneWaitsFor n h.fulfilled_list)
unfolding contains
removed_upcall_lem_example =
    removed_upcall_lem (10 ∷ 30 ∷ []) (10 ∷ 20 ∷ 30 ∷ []) asking_group
      ((omega arith, (omega arith, tt)), ((omega arith, tt), (tt, tt)))
      ((omega arith, tt), (tt, tt)) (λ n. refl, refl, tt)
