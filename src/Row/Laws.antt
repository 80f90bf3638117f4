-- ===== src/Row/Laws.antt =====
-- What `init`, `init_from_existing` and the array setters of derecho_row.h leave in a row.
use old_derecho.Base.{
  ℕ, zero, suc, ◌<◌, ◌≡◌, refl, false, arith, ltb, if◌then◌else◌, pos, for_below,
}
use old_derecho.Row.{Row, copy_array, clear_cell, forget_cell, init_at, init_from_existing}

-- The message counters, which no helper of this file touches.
abbrev pub SameCounters : Row → Row → Type 0
SameCounters s r =
    (s.seq_num ≡ r.seq_num)
    × (s.stable_num ≡ r.stable_num)
    × (s.delivered_num ≡ r.delivered_num)
    × (s.persisted_num ≡ r.persisted_num)
    × (s.n_received ≡ r.n_received)

-- After n rounds of a loop that clears cells: those below n are clear, the others are as in `r`.
abbrev ClearBelow : Row → ℕ → Row → Type 0
ClearBelow r n s =
    ((i : ℕ) → s.suspected i ≡ (if ltb i n then false else r.suspected i))
    × ((i : ℕ) → s.global_min i ≡ (if ltb i n then pos 0 else r.global_min i))
    × SameCounters s r
    × (s.vid ≡ r.vid)

clear_loop : (r : Row) (n : ℕ) → ClearBelow r n (for_below n clear_cell r)
unfolding for_below clear_cell
clear_loop r zero = (λ i. ground arith, λ i. ground arith, (refl, refl, refl, refl, refl), refl)
clear_loop r (suc n) =
    let h = clear_loop r n in (λ i. ground (arith, h.0 i), λ i. ground (arith, h.1 i), h.2, h.3)

clear_loop_changes :
    (r : Row) (n i : ℕ)
    → (for_below n clear_cell r).changes i ≡ (if ltb i n then 0 else r.changes i)
unfolding for_below clear_cell
clear_loop_changes r zero i = ground arith
clear_loop_changes r (suc n) i = ground (arith, clear_loop_changes r n i)

forget_loop : (r : Row) (n : ℕ) → ClearBelow r n (for_below n forget_cell r)
unfolding for_below forget_cell
forget_loop r zero = (λ i. ground arith, λ i. ground arith, (refl, refl, refl, refl, refl), refl)
forget_loop r (suc n) =
    let h = forget_loop r n in (λ i. ground (arith, h.0 i), λ i. ground (arith, h.1 i), h.2, h.3)

forget_loop_changes : (r : Row) (n : ℕ) → (for_below n forget_cell r).changes ≡ r.changes
unfolding for_below forget_cell
forget_loop_changes r zero = refl
forget_loop_changes r (suc n) = forget_loop_changes r n

-- No suspicion, no minimum, not wedged: where every row of a view starts.
pub record IsFresh (n_max : ℕ) (r : Row) : Type 0 where
  pub unsuspected : (i : ℕ) → i < n_max → r.suspected i ≡ false
  pub no_min : (i : ℕ) → i < n_max → r.global_min i ≡ pos 0
  pub running : r.wedged ≡ false
  pub not_ready : r.global_min_ready ≡ false

-- A row set up for view `vid` is fresh, proposes no change, counts every change up to `vid` as
-- committed and acknowledged, and keeps its message counters.
pub init_at_lem :
    (n_max vid : ℕ) (r : Row)
    → let s = init_at n_max r vid in
      IsFresh n_max s
      × ((i : ℕ) → i < n_max → s.changes i ≡ 0)
      × ((s.n_changes ≡ vid) × (s.n_committed ≡ vid) × (s.n_acked ≡ vid) × (s.vid ≡ vid))
      × SameCounters s r
unfolding init_at
init_at_lem n_max vid r =
    let start : Row = record r { vid = vid } in
    let h = clear_loop start n_max in
    (
      record {
        unsuspected = λ i lt. ground (arith, h.0 i);
        no_min = λ i lt. ground (arith, h.1 i);
        running = refl;
        not_ready = refl;
      },
      λ i lt. ground (arith, clear_loop_changes start n_max i),
      (refl, refl, refl, h.3),
      h.2,
    )

-- A row set up from an older one is fresh, carries over the proposed changes and the three
-- counters of the membership protocol, and keeps its own view number and message counters.
pub init_from_existing_lem :
    (n_max : ℕ) (r old : Row)
    → let s = init_from_existing n_max r old in
      IsFresh n_max s
      × ((i : ℕ) → i < n_max → s.changes i ≡ old.changes i)
      × ((s.n_changes ≡ old.n_changes)
          × (s.n_committed ≡ old.n_committed)
          × (s.n_acked ≡ old.n_acked)
          × (s.vid ≡ r.vid))
      × SameCounters s r
unfolding init_from_existing copy_array
init_from_existing_lem n_max r old =
    let start : Row = record r { changes = copy_array n_max r.changes old.changes } in
    let h = forget_loop start n_max in
    (
      record {
        unsuspected = λ i lt. ground (arith, h.0 i);
        no_min = λ i lt. ground (arith, h.1 i);
        running = refl;
        not_ready = refl;
      },
      λ i lt. rw (forget_loop_changes start n_max) (ground arith),
      (refl, refl, refl, h.3),
      h.2,
    )
