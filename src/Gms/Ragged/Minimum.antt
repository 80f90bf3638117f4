-- ===== src/Gms/Ragged/Minimum.antt =====
-- What the leader and a follower show as the messages that the old view delivers.
use old_derecho.Base.{
  ℕ, zero, suc, ◌%◌, ◌^◌, ◌<◌, ◌≤◌, ◌≡◌, refl, sym, ap, subst, ◌∙◌, ◌≢◌, inl, inr, true, false,
  none, some, if◌then◌else◌, ◌==◌, ==_refl, ℤ, pos, negsuc, ltb_ℤ, ltb_ℤ→lt, ltb_ℤ_false, ◌≤ℤ◌,
  update, for_below, for_below_inv, first_below, arith, Bool-cases, Option-cases,
}
use native.Mathlib.Nat.{mod-eq_of_lt}
use old_derecho.Row.{copy_array}
use old_derecho.Sst.{Sst}
use old_derecho.Gms.Ragged.{
  to_int, min_received, set_min, leader_minimum, leader_global_min, follower_global_min,
}

-- A number that an int holds.
unfoldable pub IsInt : ℤ → Type 0
IsInt (pos n) = n < 2 ^ 31
IsInt (negsuc n) = n < 2 ^ 31

to_int_lem : (z : ℤ) → IsInt z → to_int z ≡ z
unfolding to_int IsInt
to_int_lem (pos n) h = let e : n % 2 ^ 32 ≡ n = mod-eq_of_lt (omega arith) in ground (arith, e)
to_int_lem (negsuc n) h = let e : n % 2 ^ 32 ≡ n = mod-eq_of_lt (omega arith) in ground (arith, e)

-- The loop's result over the first k rows is one of the numbers shown, and none of them is less.
min_received_loop :
    (t : Sst) (my_rank n num k : ℕ)
    → my_rank < num
    → k ≤ num
    → ((r : ℕ) → IsInt ((t.rows r).n_received n))
    → ((r : ℕ) × (r < num) × (min_received t my_rank n k ≡ (t.rows r).n_received n))
      × ((j : ℕ) → j < k → min_received t my_rank n k ≤ℤ (t.rows j).n_received n)
unfolding min_received for_below
min_received_loop t my_rank n num zero mine some_rows small = (
  (my_rank, mine, to_int_lem ((t.rows my_rank).n_received n) (small my_rank)),
  λ j lt. absurd (omega arith),
)
min_received_loop t my_rank n num (suc k) mine some_rows small =
    let h = min_received_loop t my_rank n num k mine (omega arith) small in
    let same = to_int_lem ((t.rows k).n_received n) (small k) in
    elim (Bool-cases (ltb_ℤ ((t.rows k).n_received n) (min_received t my_rank n k))) [
      | inl less ↦
          rw (less, same)
            (
              (k, omega arith, refl),
              λ j lt. elim (Bool-cases (k == j)) [
                | inl e ↦
                    let at : k ≡ j = ground arith in
                    ground (arith, ap (λ i. (t.rows i).n_received n) at)
                | inr ne ↦ ground (
                  arith,
                  h.1 j (ground arith),
                  ltb_ℤ→lt ((t.rows k).n_received n) (min_received t my_rank n k) less,
                )
              ],
            )
      | inr more ↦ rw (more) (
        h.0,
        λ j lt. elim (Bool-cases (k == j)) [
          | inl e ↦
              let at : k ≡ j = ground arith in
              subst (λ i. min_received t my_rank n k ≤ℤ (t.rows i).n_received n) at
                (ltb_ℤ_false ((t.rows k).n_received n) (min_received t my_rank n k) more)
          | inr ne ↦ h.1 j (ground arith)
        ],
      )
    ]

-- A number is the least one of messages of member n that a row shows.
pub IsLeast : ℕ → Sst → ℕ → ℤ → Type 0
IsLeast num t n z =
    ((r : ℕ) × (r < num) × (z ≡ (t.rows r).n_received n))
    × ((j : ℕ) → j < num → z ≤ℤ (t.rows j).n_received n)

Computed : ℕ → ℕ → Sst → ℕ → Sst → Type 0
Computed my_rank num t k u =
    ((r n : ℕ) → (u.rows r).n_received n ≡ (t.rows r).n_received n)
    × ((r : ℕ) → r ≢ my_rank → u.rows r ≡ t.rows r)
    × ((n : ℕ) → n < k → IsLeast num t n ((u.rows my_rank).global_min n))

set_min-received :
    (u : Sst) (my_rank k r n : ℕ) (m : ℤ)
    → ((set_min u my_rank k m).rows r).n_received n ≡ (u.rows r).n_received n
unfolding set_min
set_min-received u my_rank k r n m = elim (Bool-cases (my_rank == r)) [
  | inl e ↦ let at : my_rank ≡ r = ground arith in rw (e) (ap (λ i. (u.rows i).n_received n) at)
  | inr ne ↦ rw (ne) refl
]

update_other {ℓ} : {A : Type ℓ} (f : ℕ → A) (i j : ℕ) (a : A) → j ≢ i → update f i a j ≡ f j
update_other f i j a ne = let differ : (i == j) ≡ false = ground arith in rw (differ) refl

set_min-other :
    (u : Sst) (my_rank k r : ℕ) (m : ℤ) → r ≢ my_rank → (set_min u my_rank k m).rows r ≡ u.rows r
unfolding set_min
set_min-other u my_rank k r m ne = ground arith

set_min-global :
    (u : Sst) (my_rank k n : ℕ) (m : ℤ)
    → ((set_min u my_rank k m).rows my_rank).global_min n
      ≡ (if k == n then m else (u.rows my_rank).global_min n)
unfolding set_min
set_min-global u my_rank k n m = rw (==_refl my_rank) refl

set_min-Computed :
    (my_rank num : ℕ) (t : Sst)
    → my_rank < num
    → ((r n : ℕ) → IsInt ((t.rows r).n_received n))
    → (k : ℕ) (u : Sst) → Computed my_rank num t k u
    → Computed my_rank num t (suc k) (set_min u my_rank k (min_received u my_rank k num))
unfolding Computed IsLeast
set_min-Computed my_rank num t mine small k u h =
    let least =
      min_received_loop u my_rank k num num mine (omega arith)
        (λ r. subst IsInt (sym (h.0 r k)) (small r k)) in
    let m = min_received u my_rank k num in
    (
      λ r n. set_min-received u my_rank k r n (min_received u my_rank k num) ∙ h.0 r n,
      λ r ne. set_min-other u my_rank k r m ne ∙ h.1 r ne,
      λ n lt. elim (Bool-cases (k == n)) [
        | inl e ↦
            let at : k ≡ n = ground arith in
            let shown : ((set_min u my_rank k m).rows my_rank).global_min n ≡ m =
              set_min-global u my_rank k n m ∙ rw (e) refl in
            subst (IsLeast num t n) (sym shown) (
              subst (λ i. IsLeast num t i m) at
                (
                  (least.0.0, least.0.1, least.0.2 ∙ h.0 least.0.0 k),
                  λ j lt. subst (λ z. m ≤ℤ z) (h.0 j k) (least.1 j lt),
                ))
        | inr ne ↦
            let shown : ((set_min u my_rank k m).rows my_rank).global_min n
                ≡ (u.rows my_rank).global_min n =
              set_min-global u my_rank k n m ∙ rw (ne) refl in
            subst (IsLeast num t n) (sym shown) (h.2 n (ground arith))
      ],
    )

untouched : (my_rank num : ℕ) (t : Sst) → Computed my_rank num t 0 t
unfolding Computed
untouched my_rank num t = (λ r n. refl, λ r ne. refl, λ n lt. absurd (omega arith))

leader_minimum-copied :
    (my_rank num first : ℕ) (t : Sst)
    → first_below num (λ n. (t.rows n).global_min_ready) ≡ some first
    → (((n : ℕ)
          → n < num
          → ((leader_minimum my_rank num t).rows my_rank).global_min n
            ≡ (t.rows first).global_min n)
        × ((r : ℕ) → r ≢ my_rank → (leader_minimum my_rank num t).rows r ≡ t.rows r))
unfolding leader_minimum copy_array
leader_minimum-copied my_rank num first t e =
    rw (e, leader_minimum) (λ n lt. ground arith, λ r ne. ground arith)

leader_minimum-Computed :
    (my_rank num : ℕ) (t : Sst)
    → my_rank < num
    → ((r n : ℕ) → IsInt ((t.rows r).n_received n))
    → first_below num (λ n. (t.rows n).global_min_ready) ≡ none
    → Computed my_rank num t num (leader_minimum my_rank num t)
unfolding leader_minimum
leader_minimum-Computed my_rank num t mine small e =
    rw (e, leader_minimum)
      (for_below_inv (λ k u. Computed my_rank num t k u)
        (λ n u. set_min u my_rank n (min_received u my_rank n num))
        (set_min-Computed my_rank num t mine small) num t (untouched my_rank num t))

-- If this member leads a view of `num_members` and every count shown fits an int, the minimum that it
-- then shows is that of the first member whose row shows one, and if no row shows one, then it is,
-- for each member, the least number of its messages that a row shows. It is marked ready, and the
-- rows of the others are as they were.
pub leader_global_min_lem :
    (my_rank num_members : ℕ) (t : Sst)
    → my_rank < num_members
    → ((r n : ℕ) → IsInt ((t.rows r).n_received n))
    → let shown = (leader_global_min my_rank num_members t).rows my_rank in
      ((first : ℕ)
        → first_below num_members (λ n. (t.rows n).global_min_ready) ≡ some first
        → (n : ℕ) → n < num_members
        → shown.global_min n ≡ (t.rows first).global_min n)
      × (first_below num_members (λ n. (t.rows n).global_min_ready) ≡ none
          → (n : ℕ) → n < num_members
          → IsLeast num_members t n (shown.global_min n))
      × (shown.global_min_ready ≡ true)
      × ((r : ℕ) → r ≢ my_rank → (leader_global_min my_rank num_members t).rows r ≡ t.rows r)
unfolding leader_global_min Computed
leader_global_min_lem my_rank num t mine small =
    let u = leader_minimum my_rank num t in
    (
      λ first e n lt. rw (==_refl my_rank) ((leader_minimum-copied my_rank num first t e).0 n lt),
      λ e n lt. rw (==_refl my_rank) ((leader_minimum-Computed my_rank num t mine small e).2 n lt),
      rw (==_refl my_rank) refl,
      λ r ne.
          let rest : u.rows r ≡ t.rows r =
            elim (Option-cases (first_below num (λ n. (t.rows n).global_min_ready))) [
              | inl e ↦ (leader_minimum-Computed my_rank num t mine small e).1 r ne
              | inr (first, e) ↦ (leader_minimum-copied my_rank num first t e).1 r ne
            ] in
          update_other u.rows my_rank r (record (u.rows my_rank) { global_min_ready = true }) ne
          ∙ rest,
    )

-- A follower then shows, for each member, the leader's minimum, and marks it ready; the rows of the
-- others are as they were.
pub follower_global_min_lem :
    (my_rank leader num_members : ℕ) (t : Sst)
    → let u = follower_global_min my_rank leader num_members t in
      ((n : ℕ) → n < num_members → (u.rows my_rank).global_min n ≡ (t.rows leader).global_min n)
      × ((u.rows my_rank).global_min_ready ≡ true)
      × ((r : ℕ) → r ≢ my_rank → u.rows r ≡ t.rows r)
unfolding follower_global_min copy_array
follower_global_min_lem my_rank leader num t =
    (λ n lt. rw (==_refl my_rank) (ground arith), rw (==_refl my_rank) refl, λ r ne. ground arith)
