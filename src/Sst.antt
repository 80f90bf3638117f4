-- ===== src/Sst.antt =====
-- The shared state table, as managed_group_impl.h, view_impl.h and derecho_group_impl.h use it. The
-- class `sst::SST` is a library that the repository only calls: what is kept here is this member's
-- copy of the rows, which predicates are registered, and the calls made, newest first. What arrives
-- from the other members is a change of `rows` that the library makes between two handlers.
use old_derecho.Base.{ℕ, ◌==◌, if◌then◌else◌, Bool, true, false, List, ◌∷◌, update}
use old_derecho.Row.{Row}

-- The predicates that ManagedGroup and DerechoGroup register.
pub data Predicate : Type 0 where
  suspected_changed start_join change_commit_ready leader_proposed leader_committed : Predicate
  meta_wedged leader_min_ready : Predicate
  stability delivery sender : Predicate

abbrev pub code : Predicate → ℕ
code suspected_changed = 0
code start_join = 1
code change_commit_ready = 2
code leader_proposed = 3
code leader_committed = 4
code meta_wedged = 5
code leader_min_ready = 6
code stability = 7
code delivery = 8
code sender = 9

pub data Call : Type 0 where
  put : Row → Call
  freeze : ℕ → Call
  sync_with_members : Call
  start_predicate_evaluation : Call

pub record Sst : Type 0 where
  pub num_rows : ℕ
  pub local_index : ℕ
  pub rows : ℕ → Row
  pub active : Predicate → Bool
  pub calls : List Call

abbrev pub my_row : Sst → Row
my_row t = t.rows t.local_index

abbrev pub write_row : Sst → ℕ → Row → Sst
write_row t i r = record t { rows = update t.rows i r }

abbrev pub write_my : Sst → Row → Sst
write_my t r = write_row t t.local_index r

abbrev pub call : Sst → Call → Sst
call t c = record t { calls = c ∷ t.calls }

-- sst.put()
abbrev pub put_row : Sst → Sst
put_row t = call t (put (my_row t))

abbrev pub set_active : Sst → Predicate → Bool → Sst
set_active t p b = record t { active = λ q. if code p == code q then b else t.active q }

-- predicates.insert(...) and predicates.remove(handle)
abbrev pub insert : Sst → Predicate → Sst
insert t p = set_active t p true

abbrev pub remove : Sst → Predicate → Sst
remove t p = set_active t p false
