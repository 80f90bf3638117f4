-- ===== src/Gms/Commit/Agreement.antt =====
-- A change is committed only when every member that runs has acknowledged it, and who acknowledges
-- it holds the leader's list of changes and has stopped sending.
use old_derecho.Base.{
  ℕ, zero, suc, ◌≤◌, ◌<◌, ◌≡◌, refl, sym, ap, ◌∙◌, ◌≢◌, inl, inr, true, false, not, ◌&&◌, some, ◌∷◌,
  if◌then◌else◌, ◌==◌, ==_refl, ltb, length, update, for_below, arith, Bool-cases,
}
use old_derecho.Row.{Row, copy_array}
use old_derecho.Sst.{Sst, my_row, write_my, put_row, put}
use old_derecho.Group.{own}
use old_derecho.Group.Setup.{wedge}
use old_derecho.View.{View, has_failed, rank_of_leader, is_rank, wedge_row}
use old_derecho.Gms.{assert_rank-eq-ok, Node, ok, sst, mine, with_sst, wedge_view, leader_row}
use old_derecho.Gms.Suspect.Marked.{wedge-own, wedge-rows}
use old_derecho.Gms.Commit.{
  min_acked, change_commit_ready, commit_change, echo_changes, ack_proposed_change,
}

min_acked_loop :
    (t : Sst) (v : View) (k m n : ℕ)
    → let r =
        for_below k
          (λ n m.
            if not (has_failed v n) && ltb (t.rows n).n_acked m then (t.rows n).n_acked else m)
          m in
      (r ≤ m) × (n < k → has_failed v n ≡ false → r ≤ (t.rows n).n_acked)
unfolding for_below
min_acked_loop t v zero m n = (omega arith, λ lt. absurd (omega arith))
min_acked_loop t v (suc k) m n =
    let h = min_acked_loop t v k m n in
    (
      ground (arith, h.0),
      λ lt run. elim (Bool-cases (n == k)) [
        | inl e ↦ ground (arith, h.0)
        | inr ne ↦ ground (arith, h.1 (ground arith) run)
      ],
    )

pub min_acked-le :
    (t : Sst) (v : View) (n : ℕ)
    → n < length v.failed
    → has_failed v n ≡ false
    → min_acked t v ≤ (t.rows n).n_acked
unfolding min_acked
min_acked-le t v n lt run = (min_acked_loop t v (length v.failed) (my_row t).n_acked n).1 lt run

-- When the leader finds a commit ready and commits, its `nCommitted` rises, to at most the number of
-- changes that each member that has not failed shows as acknowledged, itself included; only the own
-- row changes, and it is put.
pub commit_change_lem :
    (s : Node)
    → change_commit_ready s ≡ true
    → let s' = commit_change s in
      (rank_of_leader s.view ≡ some s.view.my_rank)
      × ((mine s).n_committed < (mine s').n_committed)
      × ((mine s').n_committed ≤ (mine s).n_acked)
      × ((n : ℕ)
          → n < length s.view.failed
          → has_failed s.view n ≡ false
          → (mine s').n_committed ≤ ((sst s).rows n).n_acked)
      × ((n : ℕ) → n ≢ (sst s).local_index → (sst s').rows n ≡ (sst s).rows n)
      × ((sst s').calls ≡ put (mine s') ∷ (sst s).calls)
unfolding change_commit_ready commit_change
commit_change_lem s ready = (
  ground arith,
  ground arith,
  ground (arith, (min_acked_loop (sst s) s.view (length s.view.failed) (mine s).n_acked 0).0),
  λ n lt run. ground (arith, min_acked-le (sst s) s.view n lt run),
  λ n ne. ground arith,
  ground arith,
)

update_self {ℓ} : {A : Type ℓ} (f : ℕ → A) (i : ℕ) (a : A) → update f i a i ≡ a
update_self f i a = rw (==_refl i)

abbrev as_wedged : Row → Row
as_wedged r = record r { wedged = true }

-- Wedging the view sets `wedged` in the own row, and keeps the rows of the others and the view.
pub wedge_view-own :
    (s : Node)
    → (mine (wedge_view s) ≡ record (mine s) { wedged = true })
      × ((n : ℕ) → n ≢ (sst s).local_index → (sst (wedge_view s)).rows n ≡ (sst s).rows n)
      × ((sst (wedge_view s)).local_index ≡ (sst s).local_index)
      × ((wedge_view s).view ≡ s.view)
unfolding wedge_view wedge_row
wedge_view-own s =
    let w = wedge-rows s.group in
    (
      update_self (wedge s.group).sst.rows (wedge s.group).sst.local_index
            (as_wedged (own (wedge s.group)))
          ∙ ap as_wedged (wedge-own s.group),
      λ n ne. ground (arith, w.0, w.1, ap (λ f. f n) w.0),
      w.1,
      refl,
    )

-- The row and the state that ack_proposed_change wedges.
acked_row : ℕ → Node → Row → Row
acked_row max s l =
    record (if is_rank (rank_of_leader s.view) (sst s).local_index
      then mine s
      else echo_changes max (mine s) l) { n_acked = l.n_changes }

acked : ℕ → Node → Row → Node
unfolding acked_row
acked max s l = with_sst s (put_row (write_my (sst s) (acked_row max s l)))

acked-own : (max : ℕ) (s : Node) (l : Row) → mine (acked max s l) ≡ acked_row max s l
unfolding acked
acked-own max s l = update_self (sst s).rows (sst s).local_index (acked_row max s l)

acked-rest :
    (max : ℕ) (s : Node) (l : Row)
    → ((n : ℕ) → n ≢ (sst s).local_index → (sst (acked max s l)).rows n ≡ (sst s).rows n)
      × ((sst (acked max s l)).local_index ≡ (sst s).local_index)
      × ((acked max s l).view ≡ s.view)
unfolding acked
acked-rest max s l = (λ n ne. ground arith, refl, refl)

echoed_changes :
    (max : ℕ) (s : Node) (l : Row) (leader i : ℕ)
    → rank_of_leader s.view ≡ some leader
    → leader ≢ (sst s).local_index
    → i < max
    → (acked_row max s l).changes i ≡ l.changes i
unfolding acked_row echo_changes copy_array
echoed_changes max s l leader i at other lt = ground arith

-- A member that acknowledges shows as many changes acknowledged as the leader has proposed, and has
-- wedged its view. If it does not lead, its row then holds the leader's changes, their number and
-- the number committed. No other row and not the view has changed.
pub ack_proposed_change_lem :
    (max leader : ℕ) (s s' : Node)
    → rank_of_leader s.view ≡ some leader
    → ack_proposed_change max s ≡ ok s'
    → let l = (sst s).rows leader in
      ((mine s').n_acked ≡ l.n_changes)
      × ((mine s').wedged ≡ true)
      × (leader ≢ (sst s).local_index
          → ((i : ℕ) → i < max → (mine s').changes i ≡ l.changes i)
            × ((mine s').n_changes ≡ l.n_changes)
            × ((mine s').n_committed ≡ l.n_committed))
      × ((n : ℕ) → n ≢ (sst s).local_index → (sst s').rows n ≡ (sst s).rows n)
      × (s'.view ≡ s.view)
unfolding ack_proposed_change leader_row acked acked_row
ack_proposed_change_lem max leader s s' at e =
    let l = (sst s).rows leader in
    let passed = assert_rank-eq-ok s _ s' e in
    let result : wedge_view (acked max s l) ≡ s' = ground arith in
    let w = wedge_view-own (acked max s l) in
    let own_row : mine s' ≡ record (acked_row max s l) { wedged = true } =
      ap mine (sym result) ∙ w.0 ∙ ap as_wedged (acked-own max s l) in
    (
      ap (λ r. r.n_acked) own_row,
      ap (λ r. r.wedged) own_row,
      λ other. (
        λ i lt. ap (λ r. r.changes i) own_row ∙ echoed_changes max s l leader i at other lt,
        ap (λ r. r.n_changes) own_row ∙ ground arith,
        ap (λ r. r.n_committed) own_row ∙ ground arith,
      ),
      λ n ne. ap (λ k. (sst k).rows n) (sym result) ∙ w.1 n ne ∙ (acked-rest max s l).0 n ne,
      ap (λ k. k.view) (sym result) ∙ w.3,
    )
