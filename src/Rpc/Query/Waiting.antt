-- ===== src/Rpc/Query/Waiting.antt =====
-- The end of a wait for the replies of a query.
use old_derecho.Base.{
  ℕ, ◌≡◌, ◌≢◌, refl, ◌∙◌, true, false, none, some, List, [], ◌∷◌, ◌++◌, update, arith, ==_refl,
}
use old_derecho.Rpc.Pending.{Pending, value, ok, err, contains, assertion_failed}
use old_derecho.Rpc.Pending.Laws.{is_set}
use old_derecho.Rpc.Query.{Query, new_query, ready, not_yet, wait, get, future_get, reply_of}

-- The query once it has its map of nodes.
abbrev pub mapped : List ℕ → Query
mapped who = record { rmap = who; pending_rmap = false; got = λ n. false }

-- The query once the reply of node n has been taken out.
abbrev pub taken : List ℕ → ℕ → Query
taken who n = record (mapped who) { got = update (λ n. false) n true }

module _ {V : Type 0} where
  -- The results as they are before the map is there.
  abbrev pub NotFulfilled : List (Pending V) → Type 0
  NotFulfilled [] = Unit {0}
  NotFulfilled (p ∷ ps) = (p.reply_map ≡ none) × NotFulfilled ps

  get-mapped :
      (before after : List (Pending V)) (p : Pending V) (who : List ℕ)
      → NotFulfilled before
      → p.reply_map ≡ some who
      → get (before ++ p ∷ after) new_query ≡ ok (some (mapped who))
  unfolding get wait
  get-mapped [] after p who h e = rw (get, wait, e) refl
  get-mapped (b ∷ before) after p who h e =
      rw (get, wait, h.0) (get-mapped before after p who h.1 e)

  reply_of-known :
      (p : Pending V) (who : List ℕ) (n : ℕ)
      → contains who n ≡ true
      → reply_of p n (mapped who) ≡ future_get p n (mapped who)
  unfolding reply_of contains
  reply_of-known p [] n h = absurd (ground arith)
  reply_of-known p (m ∷ ms) n h = ground arith

  future_get-set :
      (p : Pending V) (n : ℕ) (q r : Query)
      → is_set (p.promises n) ≡ true
      → future_get p n q ≢ ok (not_yet, r)
  unfolding future_get
  future_get-set p n q r h e = ground arith

  get-unmapped : (ps : List (Pending V)) → NotFulfilled ps → get ps new_query ≡ ok none
  unfolding get wait
  get-unmapped [] h = refl
  get-unmapped (b ∷ ps) h = rw (get, wait, h.0) (get-unmapped ps h.1)

  future_get-value :
      (p : Pending V) (n : ℕ) (v : V) (q : Query)
      → p.promises n ≡ value v
      → future_get p n q ≡ ok (ready v, record q { got = update q.got n true })
  unfolding future_get
  future_get-value p n v q reply = rw (future_get, reply) refl

  reply_of-taken :
      (p : Pending V) (n : ℕ) (who : List ℕ)
      → contains who n ≡ true
      → reply_of p n (taken who n) ≡ err assertion_failed
  unfolding reply_of contains
  reply_of-taken p n [] h = absurd (ground arith)
  reply_of-taken p n (m ∷ ms) h = ground (arith, ==_refl n)

  -- Before the map of a query is fulfilled, `get` goes on waiting. From the first look at which it is
  -- fulfilled, `get` returns with the fulfilled map, whatever comes after. If the promise of a node in
  -- it is then set, by a reply, a remote exception or the removal of the node, asking for the reply of
  -- that node does not wait; a reply is given as it came, and only once.
  pub get-answered :
      (before after : List (Pending V)) (p : Pending V) (who : List ℕ) (n : ℕ)
      → NotFulfilled before
      → p.reply_map ≡ some who
      → contains who n ≡ true
      → is_set (p.promises n) ≡ true
      → (get before new_query ≡ ok none)
        × (get (before ++ p ∷ after) new_query ≡ ok (some (mapped who)))
        × ((q : Query) → reply_of p n (mapped who) ≢ ok (not_yet, q))
        × ((v : V)
            → p.promises n ≡ value v
            → (reply_of p n (mapped who) ≡ ok (ready v, taken who n))
              × (reply_of p n (taken who n) ≡ err assertion_failed))
  unfolding get
  get-answered before after p who n h e inside answered =
      let known = reply_of-known p who n inside in
      (
        get-unmapped before h,
        get-mapped before after p who h e,
        λ q waits. future_get-set p n (mapped who) q answered (rw known at waits),
        λ v reply.
            (known ∙ future_get-value p n v (mapped who) reply, reply_of-taken p n who inside),
      )
