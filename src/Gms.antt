-- ===== src/Gms.antt =====
-- managed_group.h and managed_group_impl.h: the membership service of one member. Each trigger of a
-- predicate is a function of the member's state; an exception, and what is undefined (a row of rank
-- -1, a full C string), is an error. Threads, locks and log lines have no counterpart.
pub mod Suspect
pub mod Commit
pub mod NextView
pub mod Ragged
pub mod Removed
pub mod Install
pub mod Join
use old_derecho.Base.{
  arith, ◌≡◌, refl, ℕ, zero, suc, ◌+◌, ◌%◌, Bool, true, false, not, ◌&&◌, ◌||◌, Option, none, some,
  List, [], ◌∷◌, ◌++◌, if◌then◌else◌, ◌==◌, ltb, for_below,
}
use old_derecho.Row.{Row}
use old_derecho.Sst.{Sst, my_row}
use old_derecho.Group.{Group, own}
use old_derecho.Group.Setup.{wedge}
use old_derecho.View.{View, Ip, rank_of_leader, wedge_row}

-- A client's socket: its address, and the node ID that it sends when IDs are exchanged.
pub record Socket : Type 0 where
  pub remote_ip : Ip
  pub client_id : ℕ

-- The fields of ManagedGroup that its triggers use; the view's table is that of `group`.
pub record Node : Type 0 where
  pub view : View
  pub group : Group
  pub last_suspected : ℕ → Bool
  pub pending_joins : List Socket
  pub joining_client_socket : Option Socket
  pub next_view : Option View
  pub thread_shutdown : Bool

-- The texts of derecho_exception, and undefined behaviour.
pub data Error : Type 0 where
  majority_failed no_longer_in_majority out_of_room too_many_changes reported_failed : Error
  undefined_behaviour assertion_failed : Error

pub data Result (A : Type 0) : Type 0 where
  ok : A → Result A
  err : Error → Result A

infixl 5 ◌>>=◌
abbrev pub ◌>>=◌ : {A B : Type 0} → Result A → (A → Result B) → Result B
ok a >>= f = f a
err e >>= f = err e

-- for (i = 0; i < n; i++) with a body that may throw
unfoldable pub for_below_result : {A : Type 0} → ℕ → (ℕ → A → Result A) → A → Result A
for_below_result zero body a = ok a
for_below_result (suc n) body a = for_below_result n body a >>= body n

abbrev pub sst : Node → Sst
sst s = s.group.sst

-- assert(gmsSST.get_local_index() == curr_view->my_rank), and what follows it
unfoldable pub assert_rank : {A : Type 0} → Node → Result A → Result A
assert_rank s r = if (sst s).local_index == s.view.my_rank then r else err assertion_failed

pub assert_rank-eq-ok :
    {A : Type 0} (s : Node) (r : Result A) (a : A) → assert_rank s r ≡ ok a → r ≡ ok a
unfolding assert_rank
assert_rank-eq-ok s r a e = ground (arith, e)

abbrev pub mine : Node → Row
mine s = own s.group

abbrev pub with_sst : Node → Sst → Node
with_sst s t = record s { group = record s.group { sst = t } }

-- curr_view->wedge(): the group, then the row (View::wedge in view_impl.h)
unfoldable pub wedge_view : Node → Node
wedge_view s = let g = wedge s.group in record s { group = record g { sst = wedge_row g.sst } }

-- The row of the leader, if there is one.
unfoldable pub leader_row : Node → Result Row
leader_row s = elim (rank_of_leader s.view) [
  | none ↦ err undefined_behaviour
  | some l ↦ ok ((sst s).rows l)
]

-- A sequence ends well only if both parts do.
pub >>=-eq-ok :
    {A B : Type 0} (m : Result A) (f : A → Result B) (b : B)
    → (m >>= f) ≡ ok b
    → (a : A) × (m ≡ ok a) × (f a ≡ ok b)
>>=-eq-ok (ok a) f b h = (a, refl, h)
>>=-eq-ok (err e) f b h = cc
