-- ===== src/View/Leader.antt =====
-- Who leads a view, and when a member finds that it has become the leader.
use old_derecho.Base.{
  ℕ, ◌<◌, ◌≡◌, ◌≢◌, ◌↔◌, ◌⊎◌, inl, inr, true, false, not, none, some, arith, ◌==◌, ==_refl,
  Option-cases, first_below, first_below-some, first_below-none, first_below_found, all_below_sound,
  all_below_complete,
}
use old_derecho.Sst.{Sst}
use old_derecho.View.{
  View, member, has_failed, rank_of_leader, rank_of, i_am_leader, all_suspected,
  i_am_the_new_leader,
}

-- The leader's rank is the lowest rank of the view that has not failed, and there is none exactly
-- when every rank of the view has failed.
pub rank_of_leader_lem :
    (v : View)
    → ((r : ℕ)
        → (rank_of_leader v ≡ some r) ↔ (
            (r < v.num_members)
            × (has_failed v r ≡ false)
            × ((j : ℕ) → j < r → has_failed v j ≡ true)))
      × ((rank_of_leader v ≡ none) ↔ ((j : ℕ) → j < v.num_members → has_failed v j ≡ true))
unfolding rank_of_leader
rank_of_leader_lem v = (
  λ r. (
    λ e.
        let h = first_below-some v.num_members (λ j. not (has_failed v j)) r e in
        (h.0, ground (arith, h.1), λ j lt. ground (arith, h.2 j lt)),
    λ h.
        first_below_found v.num_members _ r h.0 (ground (arith, h.1))
          (λ j lt. ground (arith, h.2 j lt)),
  ),
  (
    λ e j lt. ground (arith, first_below-none v.num_members (λ j. not (has_failed v j)) j e lt),
    λ h. elim (Option-cases (first_below v.num_members (λ j. not (has_failed v j)))) [
      | inl e ↦ e
      | inr (r, e) ↦
          let f = first_below-some v.num_members (λ j. not (has_failed v j)) r e in
          absurd (ground (arith, f.1, h r f.0))
    ],
  ),
)

i_am_leader-rank : (v : View) → i_am_leader v ≡ true → rank_of_leader v ≡ some v.my_rank
unfolding i_am_leader
i_am_leader-rank v h = ground arith

-- Two members that agree on the members and the failures of a view cannot both lead it.
pub i_am_leader_unique :
    (v w : View)
    → v.num_members ≡ w.num_members
    → v.failed ≡ w.failed
    → i_am_leader v ≡ true
    → i_am_leader w ≡ true
    → v.my_rank ≡ w.my_rank
i_am_leader_unique v w size same hv hw =
    let a = ((rank_of_leader_lem v).0 v.my_rank).0 (i_am_leader-rank v hv) in
    let b = ((rank_of_leader_lem w).0 w.my_rank).0 (i_am_leader-rank w hw) in
    ground (arith, a.1, b.1, a.2 w.my_rank, b.2 v.my_rank)

-- The ranks hold different node IDs.
abbrev pub IsDistinct : View → Type 0
IsDistinct v = (i j : ℕ) → i < v.num_members → j < v.num_members → member v i ≡ member v j → i ≡ j

-- In a view of distinct members `rank_of` inverts the member list.
pub rank_of-member :
    (v : View) (r : ℕ) → IsDistinct v → r < v.num_members → rank_of v (member v r) ≡ some r
unfolding rank_of
rank_of-member v r distinct lt =
    first_below_found v.num_members _ r lt (==_refl (member v r))
      λ j below. ground (arith, distinct j r (omega arith) lt)

pub rank_of-some :
    (v : View) (who r : ℕ) → rank_of v who ≡ some r → (r < v.num_members) × (member v r ≡ who)
unfolding rank_of
rank_of-some v who r e =
    let h = first_below-some v.num_members (λ r. member v r == who) r e in
    (h.0, ground (arith, h.1))

pub rank_of-none :
    (v : View) (who r : ℕ) → rank_of v who ≡ none → r < v.num_members → member v r ≢ who
unfolding rank_of
rank_of-none v who r e lt =
    let h = first_below-none v.num_members (λ r. member v r == who) r e lt in ground (arith, h)

-- Every lower rank counts as failed, here or in the row of every lower rank.
abbrev pub LowerGone : View → Sst → Type 0
LowerGone v t =
    (n row : ℕ)
    → n < v.my_rank
    → row < v.my_rank
    → (has_failed v n ≡ true) ⊎ ((t.rows row).suspected n ≡ true)

all_suspected-LowerGone : (v : View) (t : Sst) → (all_suspected v t ≡ true) ↔ LowerGone v t
unfolding all_suspected
all_suspected-LowerGone v t = (
  λ h n row a b.
      let inner = all_below_sound v.my_rank _ n h a in
      let test = all_below_sound v.my_rank _ row inner b in ground (arith, test),
  λ h.
      all_below_complete v.my_rank _
        λ n a. all_below_complete v.my_rank _ λ row b. ground (arith, h n row a b),
)

-- A member takes over exactly once, and exactly when it did not lead before and every lower rank
-- has failed or is suspected in the row of every lower rank; then it knows that it leads.
pub i_am_the_new_leader_lem :
    (v : View) (t : Sst)
    → let (took, w) = i_am_the_new_leader v t in
      ((took ≡ true) ↔ ((v.i_know_i_am_leader ≡ false) × LowerGone v t))
      × ((took ≡ true) → w.i_know_i_am_leader ≡ true)
      × ((took ≡ false) → w ≡ v)
      × ((took ≡ true) → (i_am_the_new_leader w t).0 ≡ false)
unfolding i_am_the_new_leader
i_am_the_new_leader_lem v t =
    let iff = all_suspected-LowerGone v t in
    (
      (λ h. (ground arith, iff.0 (ground arith)), λ h. ground (arith, h.0, iff.1 h.1)),
      λ h. ground arith,
      λ h. ground arith,
      λ h. ground arith,
    )
