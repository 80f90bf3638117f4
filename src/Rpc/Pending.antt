-- ===== src/Rpc/Pending.antt =====
-- struct PendingResults (derecho_caller.h): the replies that a query waits for. A promise that is set
-- twice, a future taken twice and a failed `assert` are errors. Locks have no counterpart.
pub mod Laws
use old_derecho.Base.{
  ℕ, ◌==◌, if◌then◌else◌, Bool, true, false, not, ◌&&◌, ◌||◌, Option, none, some, List, [], ◌∷◌,
  ◌++◌, update,
}

-- std::promise<T>: what has been put into it.
pub data Promise (A : Type 0) : Type 0 where
  unset : Promise A
  value : A → Promise A
  remote_exception : Promise A
  node_removed : Promise A

pub data Error : Type 0 where
  promise_already_satisfied future_already_retrieved assertion_failed : Error
  no_state out_of_range node_removed_from_group remote_exception_occurred function_threw
        null_pointer :
      Error

pub data Result (A : Type 0) : Type 0 where
  ok : A → Result A
  err : Error → Result A

infixl 5 ◌>>=◌
abbrev pub ◌>>=◌ : {A B : Type 0} → Result A → (A → Result B) → Result B
ok a >>= f = f a
err e >>= f = err e

-- `populated_promises` makes a promise at the first use of a key: a function from the node IDs.
pub record Pending (A : Type 0) : Type 0 where
  pub reply_map : Option (List ℕ)
  pub promises : ℕ → Promise A
  pub retrieved : ℕ → Bool
  pub map_fulfilled : Bool
  pub dest_nodes : List ℕ
  pub set_nodes : List ℕ

unfoldable pub contains : List ℕ → ℕ → Bool
contains [] n = false
contains (m ∷ ms) n = m == n || contains ms n

-- std::set::insert
unfoldable pub set_insert : ℕ → List ℕ → List ℕ
unfolding contains
set_insert n s = if contains s n then s else n ∷ s

unfoldable pub set_insert_all : List ℕ → List ℕ → List ℕ
unfolding set_insert
set_insert_all [] s = s
set_insert_all (n ∷ ns) s = set_insert_all ns (set_insert n s)

module _ {A : Type 0} where
  unfoldable pub fresh : Pending A
  fresh = record {
    reply_map = none;
    promises = λ n. unset;
    retrieved = λ n. false;
    map_fulfilled = false;
    dest_nodes = [];
    set_nodes = [];
  }

  -- The loop of `fulfill_map`: one future for each node.
  unfoldable pub take_futures : List ℕ → Pending A → Result (Pending A)
  take_futures [] p = ok p
  take_futures (e ∷ es) p =
      let rest = take_futures es (record p { retrieved = update p.retrieved e true }) in
      if p.retrieved e then err future_already_retrieved else rest

  -- fulfill_map(who)
  unfoldable pub fulfill_map : Pending A → List ℕ → Result (Pending A)
  unfolding take_futures set_insert_all
  fulfill_map p who = do
    q ← take_futures who (record p { map_fulfilled = true })
    let r = record q { dest_nodes = set_insert_all who q.dest_nodes }
    elim q.reply_map [
      | none ↦ ok (record r { reply_map = some who })
      | some old ↦ err promise_already_satisfied
    ]

  -- promise.set_value and promise.set_exception
  unfoldable pub satisfy : Pending A → ℕ → Promise A → Result (Pending A)
  satisfy p nid x = elim (p.promises nid) [
    | unset ↦ ok (record p { promises = update p.promises nid x })
    | _ ↦ err promise_already_satisfied
  ]

  -- set_value(nid, v)
  unfoldable pub set_value : Pending A → ℕ → A → Result (Pending A)
  unfolding satisfy set_insert
  set_value p nid v = satisfy (record p { set_nodes = set_insert nid p.set_nodes }) nid (value v)

  -- set_exception(nid, e)
  unfoldable pub set_exception : Pending A → ℕ → Promise A → Result (Pending A)
  unfolding satisfy set_insert
  set_exception p nid e = satisfy (record p { set_nodes = set_insert nid p.set_nodes }) nid e

  -- set_exception_for_removed_node(removed_nid)
  unfoldable pub set_exception_for_removed_node : Pending A → ℕ → Result (Pending A)
  unfolding set_exception contains
  set_exception_for_removed_node p nid =
      if not p.map_fulfilled
      then err assertion_failed
      else if contains p.dest_nodes nid && not (contains p.set_nodes nid)
      then set_exception p nid node_removed
      else ok p

  -- The inner loop of DerechoGroup::set_exceptions_for_removed_nodes (derecho_group_impl.h).
  unfoldable pub remove_nodes : List ℕ → Pending A → Result (Pending A)
  unfolding set_exception_for_removed_node
  remove_nodes [] p = ok p
  remove_nodes (n ∷ ns) p = set_exception_for_removed_node p n >>= remove_nodes ns

  -- DerechoGroup::set_exceptions_for_removed_nodes, over the fulfilled list.
  unfoldable pub set_exceptions_for_removed_nodes :
      List ℕ → List (Pending A) → Result (List (Pending A))
  unfolding remove_nodes
  set_exceptions_for_removed_nodes ns [] = ok []
  set_exceptions_for_removed_nodes ns (p ∷ ps) = do
    q ← remove_nodes ns p
    qs ← set_exceptions_for_removed_nodes ns ps
    ok (q ∷ qs)
