-- ===== src/Rpc/Pending/Laws.antt =====
-- No reply is overwritten, and no query waits for a member that was removed.
use old_derecho.Base.{
  ℕ, ◌==◌, if◌then◌else◌, Bool, true, false, not, ◌&&◌, ◌||◌, List, [], ◌∷◌, update, ◌≡◌, refl, ap,
  ◌≢◌, ◌⊎◌, inl, inr, arith, Bool-cases,
}
use old_derecho.Rpc.Pending.{
  Pending, Promise, unset, value, remote_exception, node_removed, Result, ok, err, ◌>>=◌, Error,
  contains, set_insert, satisfy, set_value, set_exception, set_exception_for_removed_node,
  remove_nodes,
}

abbrev pub is_set : {A : Type 0} → Promise A → Bool
is_set unset = false
is_set (value a) = true
is_set remote_exception = true
is_set node_removed = true

-- A sequence ends well only if both parts do.
pub >>=-eq-ok :
    {A B : Type 0} (m : Result A) (f : A → Result B) (b : B)
    → (m >>= f) ≡ ok b
    → (a : A) × (m ≡ ok a) × (f a ≡ ok b)
>>=-eq-ok (ok a) f b h = (a, refl, h)
>>=-eq-ok (err e) f b h = cc

from_ok : {A : Type 0} → A → Result A → A
from_ok d (ok a) = a
from_ok d (err e) = d

pub ok_injective : {A : Type 0} (a b : A) → ok a ≡ ok b → a ≡ b
unfolding from_ok
ok_injective a b e = ap (from_ok a) e

contains-set_insert :
    (n m : ℕ) (s : List ℕ) → contains (set_insert n s) m ≡ (n == m || contains s m)
unfolding contains set_insert
contains-set_insert n m s = elim (Bool-cases (contains s n)) [
  | inl there ↦ elim (Bool-cases (n == m)) [
    | inl same ↦ let e : n ≡ m = ground arith in ground arith
    | inr other ↦ ground arith
  ]
  | inr new ↦ ground arith
]

module _ {A : Type 0} where
  -- `set_nodes` names exactly the nodes whose promise is set.
  abbrev pub IsTracked : Pending A → Type 0
  IsTracked p = (n : ℕ) → contains p.set_nodes n ≡ is_set (p.promises n)

  -- `p` with node `nid` answered by `x`.
  abbrev pub answer : Pending A → ℕ → Promise A → Pending A
  answer p nid x = record p {
    promises = update p.promises nid x;
    set_nodes = set_insert nid p.set_nodes;
  }

  answer-IsTracked :
      (p : Pending A) (nid : ℕ) (x : Promise A)
      → is_set x ≡ true
      → IsTracked p
      → IsTracked (answer p nid x)
  answer-IsTracked p nid x h t n = ground (arith, contains-set_insert nid n p.set_nodes, t n)

  set_exception-unset :
      (p : Pending A) (nid : ℕ) (x : Promise A)
      → IsTracked p
      → contains p.set_nodes nid ≡ false
      → set_exception p nid x ≡ ok (answer p nid x)
  unfolding set_exception satisfy
  set_exception-unset p nid x t h = ground (arith, t nid)

  -- A reply succeeds exactly when none came before from that node. It then stands in the node's
  -- promise, no other promise changes, and the bookkeeping stays exact.
  pub set_value_once :
      (p : Pending A) (nid : ℕ) (v : A)
      → IsTracked p
      → ((contains p.set_nodes nid ≡ false)
          × (set_value p nid v ≡ ok (answer p nid (value v)))
          × ((n : ℕ) → n ≢ nid → (answer p nid (value v)).promises n ≡ p.promises n)
          × IsTracked (answer p nid (value v)))
        ⊎ ((contains p.set_nodes nid ≡ true)
            × (set_value p nid v ≡ err Error.promise_already_satisfied))
  unfolding set_value satisfy
  set_value_once p nid v t = elim (Bool-cases (contains p.set_nodes nid)) [
    | inl seen ↦ inr (seen, ground (arith, t nid))
    | inr new ↦
        inl (
          new,
          ground (arith, t nid),
          λ n ne. ground arith,
          answer-IsTracked p nid (value v) refl t,
        )
  ]

  -- What the removal of one member leaves.
  abbrev pub after_removal : Pending A → ℕ → Pending A
  after_removal p nid =
      if contains p.dest_nodes nid && not (contains p.set_nodes nid)
      then answer p nid node_removed
      else p

  set_exception_for_removed_node-ok :
      (p : Pending A) (nid : ℕ)
      → IsTracked p
      → p.map_fulfilled ≡ true
      → set_exception_for_removed_node p nid ≡ ok (after_removal p nid)
  unfolding set_exception_for_removed_node
  set_exception_for_removed_node-ok p nid t f =
      ground (arith, set_exception-unset p nid node_removed t)

  after_removal-IsTracked :
      (p : Pending A) (nid : ℕ) → IsTracked p → IsTracked (after_removal p nid)
  after_removal-IsTracked p nid t =
      elim (Bool-cases (contains p.dest_nodes nid && not (contains p.set_nodes nid))) [
        | inl e ↦ rw e (answer-IsTracked p nid node_removed refl t)
        | inr e ↦ rw e t
      ]

  unfoldable pub after_removals : List ℕ → Pending A → Pending A
  after_removals [] p = p
  after_removals (n ∷ ns) p = after_removals ns (after_removal p n)

  -- What the removal of members keeps: every promise that is set, the destinations, the bookkeeping.
  pub record Kept (p q : Pending A) : Type 0 where
    pub tracked : IsTracked q
    pub fulfilled : q.map_fulfilled ≡ true
    pub dest : q.dest_nodes ≡ p.dest_nodes
    pub replies : (n : ℕ) → is_set (p.promises n) ≡ true → q.promises n ≡ p.promises n

  after_removal-Kept :
      (p : Pending A) (nid : ℕ)
      → IsTracked p
      → p.map_fulfilled ≡ true
      → Kept p (after_removal p nid)
  after_removal-Kept p nid t f = record {
    tracked = after_removal-IsTracked p nid t;
    fulfilled = ground arith;
    dest = ground arith;
    replies = λ n h. ground (arith, t n, t nid);
  }

  Kept-trans : (p q r : Pending A) → Kept p q → Kept q r → Kept p r
  Kept-trans p q r a b = record {
    tracked = b.tracked;
    fulfilled = b.fulfilled;
    dest = ground (arith, a.dest, b.dest);
    replies = λ n h. ground (arith, a.replies n, b.replies n);
  }

  after_removals-Kept :
      (ns : List ℕ) (p : Pending A)
      → IsTracked p
      → p.map_fulfilled ≡ true
      → Kept p (after_removals ns p)
  unfolding after_removals
  after_removals-Kept [] p t f = record {
    tracked = t;
    fulfilled = f;
    dest = refl;
    replies = λ n h. refl;
  }
  after_removals-Kept (n ∷ ns) p t f =
      let k = after_removal-Kept p n t f in
      Kept-trans p (after_removal p n) (after_removals ns (after_removal p n)) k
        (after_removals-Kept ns (after_removal p n) k.tracked k.fulfilled)

  remove_nodes-ok :
      (ns : List ℕ) (p : Pending A)
      → IsTracked p
      → p.map_fulfilled ≡ true
      → remove_nodes ns p ≡ ok (after_removals ns p)
  unfolding remove_nodes after_removals
  remove_nodes-ok [] p t f = refl
  remove_nodes-ok (n ∷ ns) p t f =
      let k = after_removal-Kept p n t f in
      rw (set_exception_for_removed_node-ok p n t f)
        (remove_nodes-ok ns (after_removal p n) k.tracked k.fulfilled)

  removed_is_set :
      (ns : List ℕ) (p : Pending A) (n : ℕ)
      → IsTracked p
      → p.map_fulfilled ≡ true
      → contains ns n ≡ true
      → contains p.dest_nodes n ≡ true
      → is_set ((after_removals ns p).promises n) ≡ true
  unfolding after_removals contains
  removed_is_set [] p n t f h d = cc
  removed_is_set (m ∷ ns) p n t f h d =
      let k = after_removal-Kept p m t f in
      let rest = after_removals-Kept ns (after_removal p m) k.tracked k.fulfilled in
      elim (Bool-cases (m == n)) [
        | inl same ↦ ground (arith, t n, rest.replies n)
        | inr other ↦
            removed_is_set ns (after_removal p m) n k.tracked k.fulfilled (ground arith)
              (ground (arith, k.dest))
      ]

  -- Removing members from a query whose map is fulfilled never fails. Afterwards every removed
  -- member that the query was sent to has a result, no result that was there has changed, and the
  -- bookkeeping is exact.
  pub remove_nodes_lem :
      (ns : List ℕ) (p : Pending A)
      → IsTracked p
      → p.map_fulfilled ≡ true
      → (q : Pending A) × (remove_nodes ns p ≡ ok q)
        × ((n : ℕ)
            → contains ns n ≡ true
            → contains p.dest_nodes n ≡ true
            → is_set (q.promises n) ≡ true)
        × Kept p q
  remove_nodes_lem ns p t f = (
    after_removals ns p,
    remove_nodes-ok ns p t f,
    λ n. removed_is_set ns p n t f,
    after_removals-Kept ns p t f,
  )
