-- ===== src/View/Departure.antt =====
-- Joined() and Departed(): what a view says of the change that made it.
use old_derecho.Base.{ℕ, ◌≡◌, ◌⊎◌, inl, inr, none, some, arith, Option-cases, ◌<◌}
use old_derecho.View.{View, member, rank_of, is_member, joined, departed}
use old_derecho.View.Leader.{rank_of-some, rank_of-none}

-- The changed member `w` has joined exactly when some rank holds it, it has departed exactly when
-- none does, and never both; without a change neither is set.
pub joined-departed :
    (v : View)
    → ((w : ℕ)
        → v.who ≡ some w
        → ((joined v ≡ some w)
            × (departed v ≡ none)
            × ((r : ℕ) × (r < v.num_members) × (member v r ≡ w)))
          ⊎ ((joined v ≡ none)
              × (departed v ≡ some w)
              × ((r : ℕ) → r < v.num_members → ¬ (member v r ≡ w))))
      × ((v.who ≡ none) → (joined v ≡ none) × (departed v ≡ none))
unfolding joined departed is_member
joined-departed v = (
  λ w e. elim (Option-cases (rank_of v w)) [
    | inr (r, at) ↦ inl (ground arith, ground arith, let f = rank_of-some v w r at in (r, f.0, f.1))
    | inl gone ↦ inr (ground arith, ground arith, λ r lt. rank_of-none v w r gone lt)
  ],
  λ e. (ground arith, ground arith),
)
