-- ===== src/Rpc/Query.antt =====
-- QueryResults (derecho_caller.h): the side of a query that waits for its replies. The query's
-- PendingResults is seen through its futures, as it is when it is asked.
pub mod Waiting
use old_derecho.Base.{
  ℕ, zero, suc, ◌≡◌, ◌==◌, Bool, true, false, not, ◌&&◌, ◌||◌, Option, none, some, List, [], ◌∷◌,
  if◌then◌else◌, update,
}
use old_derecho.Rpc.Pending.{
  Pending, Promise, unset, value, remote_exception, node_removed, Result, ok, err, contains,
  no_state, assertion_failed, remote_exception_occurred, node_removed_from_group,
}

-- `pending_rmap` is gone once the map has been taken out of it; `got` tells which futures were read.
pub record Query : Type 0 where
  pub rmap : List ℕ
  pub pending_rmap : Bool
  pub got : ℕ → Bool

abbrev pub new_query : Query
new_query = record { rmap = []; pending_rmap = true; got = λ n. false }

-- What a call that may block returns.
pub data Answer (A : Type 0) : Type 0 where
  ready : A → Answer A
  not_yet : Answer A

-- ReplyMap::contains
unfoldable pub was_sent : Query → ℕ → Bool
unfolding contains
was_sent q nid = contains q.rmap nid

-- ReplyMap::valid
unfoldable pub valid : Query → ℕ → Result Bool
unfolding contains
valid q nid = elim q.rmap [
  | [] ↦ ok false
  | n ∷ ns ↦ if contains q.rmap nid then ok (not (q.got nid)) else err assertion_failed
]

module _ {V : Type 0} where
  -- wait, which blocks for a while: whether it returns the map, or nullptr.
  unfoldable pub wait : Pending V → Query → Result (Bool × Query)
  wait p q = elim q.rmap [
    | n ∷ ns ↦ ok (true, q)
    | [] ↦ if not q.pending_rmap then err no_state else elim p.reply_map [
      | none ↦ ok (false, q)
      | some who ↦ ok (true, record q { rmap = who; pending_rmap = false })
    ]
  ]

  -- get: one wait after the other, on the results as they are at each of them. `none`: still waiting.
  unfoldable pub get : List (Pending V) → Query → Result (Option Query)
  unfolding wait
  get [] q = ok none
  get (p ∷ ps) q =
      let rest = get ps q in
      elim (wait p q) [ err e ↦ err e | ok (true, r) ↦ ok (some r) | ok (false, r) ↦ rest ]

  -- rmap.at(nid).get(): the value or exception of node nid's promise, or a wait for it.
  unfoldable pub future_get : Pending V → ℕ → Query → Result (Answer V × Query)
  future_get p nid q =
      let r = record q { got = update q.got nid true } in
      elim (p.promises nid) [
        | unset ↦ ok (not_yet, q)
        | value v ↦ ok (ready v, r)
        | remote_exception ↦ err remote_exception_occurred
        | node_removed ↦ err node_removed_from_group
      ]

  -- ReplyMap::get, in a query that has not been moved.
  unfoldable pub reply_of : Pending V → ℕ → Query → Result (Answer V × Query)
  unfolding contains future_get
  reply_of p nid q =
      let check = λ (r : Query).
        if contains r.rmap nid && not (r.got nid)
        then future_get p nid r
        else err assertion_failed in
      elim q.rmap [
        | n ∷ ns ↦ check q
        | [] ↦ if not q.pending_rmap then err assertion_failed else elim p.reply_map [
          | none ↦ ok (not_yet, q)
          | some who ↦ check (record q { rmap = who; pending_rmap = false })
        ]
      ]
