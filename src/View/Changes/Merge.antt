-- ===== src/View/Changes/Merge.antt =====
-- What the first loop of View::merge_changes collects, and what the second one leaves of it.
use old_derecho.Base.{
  if◌then◌else◌, ◌||◌, ◌+◌, ◌*◌, ◌/◌, ◌%◌, subst, ◌∙◌, ltb, dec_lt, ℕ, zero, suc, ◌≤◌, ◌<◌, ◌≡◌,
  refl, ◌≢◌, ◌⊎◌, inl, inr, Bool, true, false, arith, ◌==◌, Bool-cases, for_below, ◌∷◌,
}
use old_derecho.Row.{Row, copy_array}
use native.Mathlib.Nat.{div-add-mod, mod-lt, mul-le-mul_left}
use old_derecho.Sst.{Sst, put, my_row, write_my}
use old_derecho.View.{View, member, has_failed}
use old_derecho.View.Changes.{merge_row, lists, add_change, propose_failed, merge_changes}

-- Two numbers less than m apart have different places in an array of m.
places_differ : (m c k : ℕ) → c < k → k < c + m → c % m ≢ k % m
places_differ m c k less near same =
    let low = div-add-mod c m in
    let high = div-add-mod k m in
    elim (dec_lt (c / m) (k / m)) [
      | yes up ↦
          let far : m * (c / m + 1) ≤ m * (k / m) = mul-le-mul_left m (omega (arith, up)) in
          let parts : m * (c / m + 1) ≡ m * (c / m) + m = ground arith in
          omega (arith, low, high, same, near, far, parts)
      | no down ↦
          let back : m * (k / m) ≤ m * (c / m) = mul-le-mul_left m (omega (arith, down)) in
          omega (arith, low, high, same, less, back)
    ]

module _ (max_members : ℕ) where
  -- Both counters of `b` are at least those of `a`.
  abbrev pub Covers : Row → Row → Type 0
  Covers b a = (a.n_changes ≤ b.n_changes) × (a.n_committed ≤ b.n_committed)

  -- The changes of `b` are those of `a`, as many and each at its place.
  abbrev pub SameChanges : Row → Row → Type 0
  SameChanges b a =
      (b.n_changes ≡ a.n_changes) × ((p : ℕ) → p < max_members → b.changes p ≡ a.changes p)

  merge_row-Covers :
      (mine other : Row)
      → Covers (merge_row max_members mine other) mine
        × Covers (merge_row max_members mine other) other
        × (SameChanges (merge_row max_members mine other) mine
            ⊎ SameChanges (merge_row max_members mine other) other)
  unfolding merge_row copy_array
  merge_row-Covers mine other = elim (Bool-cases (ltb mine.n_changes other.n_changes)) [
    | inl more ↦ (
      ground (arith, more),
      ground (arith, more),
      inr (ground (arith, more), λ p lt. ground (arith, more, lt)),
    )
    | inr less ↦ (
      ground (arith, less),
      ground (arith, less),
      inl (ground (arith, less), λ p lt. ground (arith, less)),
    )
  ]

  SameChanges-trans : (a b c : Row) → SameChanges a b → SameChanges b c → SameChanges a c
  SameChanges-trans a b c f g = (f.0 ∙ g.0, λ p lt. f.1 p lt ∙ g.1 p lt)

  -- The changes of a row are those of the own row, or of one of the first n rows.
  Source : Sst → ℕ → Row → Type 0
  Source t n r = SameChanges r (my_row t) ⊎ ((w : ℕ) × (w < n) × SameChanges r (t.rows w))

  Source-trans : (t : Sst) (n : ℕ) (a b : Row) → SameChanges a b → Source t n b → Source t (suc n) a
  unfolding Source
  Source-trans t n a b f (inl mine) = inl (SameChanges-trans a b (my_row t) f mine)
  Source-trans t n a b f (inr (w, lt, other)) =
      inr (w, omega (arith, lt), SameChanges-trans a b (t.rows w) f other)

  unfoldable pub merged : View → Sst → ℕ → Sst
  merged v t n = for_below n (λ n s. write_my s (merge_row max_members (my_row s) (s.rows n))) t

  -- After n rounds: only the own row has changed, it covers itself and the rows below n, and its
  -- changes are those of one of these rows.
  merged-Covers :
      (v : View) (t : Sst) (n : ℕ)
      → let s = merged v t n in
        (s.local_index ≡ t.local_index)
        × (s.calls ≡ t.calls)
        × ((i : ℕ) → i ≢ t.local_index → s.rows i ≡ t.rows i)
        × Covers (my_row s) (my_row t)
        × ((i : ℕ) → i < n → Covers (my_row s) (t.rows i))
        × Source t n (my_row s)
  unfolding merged for_below Source
  merged-Covers v t zero = (
    refl,
    refl,
    λ i ne. refl,
    (omega arith, omega arith),
    λ i lt. absurd (omega arith),
    inl (refl, λ p lt. refl),
  )
  merged-Covers v t (suc n) =
      let h = merged-Covers v t n in
      let s = merged v t n in
      let m = merge_row-Covers (my_row s) (s.rows n) in
      let r = merge_row max_members (my_row s) (s.rows n) in
      let row : r ≡ my_row (merged v t (suc n)) = ground arith in
      let from_own = λ (f : SameChanges r (my_row s)). Source-trans t n r (my_row s) f h.5 in
      (
        h.0,
        h.1,
        λ i ne. ground (arith, h.0, h.2 i ne),
        ground (arith, h.0, h.3, m.0),
        λ i lt. elim (Bool-cases (i == n)) [
          | inl e ↦ elim (Bool-cases (n == t.local_index)) [
            | inl own ↦ ground (arith, h.0, h.3, m.0)
            | inr other ↦ ground (arith, h.0, h.2 n (ground arith), m.1)
          ]
          | inr e ↦ ground (arith, h.0, h.4 i (ground arith), m.0)
        ],
        subst (Source t (suc n)) row (elim m.2 [
          | inl mine ↦ from_own mine
          | inr there ↦ elim (Bool-cases (n == t.local_index)) [
            | inl own ↦
                let here : n ≡ s.local_index = ground (arith, own, h.0) in
                from_own (subst (λ k. SameChanges r (s.rows k)) here there)
            | inr other ↦ inr (n, omega arith, subst (SameChanges r) (h.2 n (ground arith)) there)
          ]
        ]),
      )

  unfoldable pub proposed : View → Row → ℕ → Row × Bool
  proposed v r n = for_below n (propose_failed max_members v) (r, false)

  -- No change of `r` that the array still has room for is lost, and no number falls.
  Kept : Row → Row → Type 0
  Kept b r =
      (r.n_changes ≤ b.n_changes)
      × (r.n_committed ≤ b.n_committed)
      × ((c : ℕ)
          → c < r.n_changes
          → b.n_changes ≤ c + max_members
          → b.changes (c % max_members) ≡ r.changes (c % max_members))

  add_change-Kept : (b r : Row) (id : ℕ) → Kept b r → Kept (add_change max_members b id) r
  unfolding Kept add_change
  add_change-Kept b r id k = (
    omega (arith, k.0),
    k.1,
    λ c lt room.
        let apart =
          places_differ max_members c b.n_changes (omega (arith, lt, k.0)) (omega (arith, room)) in
        let other : (b.n_changes % max_members == c % max_members) ≡ false =
          ground (arith, apart) in
        rw other (k.2 c lt (omega (arith, room))),
  )

  proposed-Kept : (v : View) (r : Row) (n : ℕ) → Kept (proposed v r n).0 r
  unfolding proposed for_below propose_failed Kept
  proposed-Kept v r zero = (omega arith, omega arith, λ c lt room. refl)
  proposed-Kept v r (suc n) =
      let before = proposed-Kept v r n in
      let b = (proposed v r n).0 in
      let found =
        if has_failed v n then (proposed v r n).1 || lists max_members b (member v n) else true in
      elim (Bool-cases found) [
        | inl yes_found ↦ rw yes_found before
        | inr not_found ↦ rw not_found (add_change-Kept b r (member v n) before)
      ]

  -- The row of which the changes are taken.
  pub record Longest (v : View) (t s : Sst) : Type 0 where
    pub from : Row
    pub known : (from ≡ my_row t) ⊎ ((w : ℕ) × (w < v.num_members) × (from ≡ t.rows w))
    pub longest : (i : ℕ) → i < v.num_members → (t.rows i).n_changes ≤ from.n_changes
    pub taken :
        (c : ℕ)
        → c < from.n_changes
        → (my_row s).n_changes ≤ c + max_members
        → (my_row s).changes (c % max_members) ≡ from.changes (c % max_members)

  -- The row that the first loop of `merge_changes` leaves: no change added yet.
  unfoldable pub merged_row : View → Sst → Row
  unfolding merged
  merged_row v t = my_row (merged v t v.num_members)

  merged_as :
      (v : View) (t s : Sst) (a : Row)
      → SameChanges (merged_row v t) a
      → ((i : ℕ) → i < v.num_members → Covers (merged_row v t) (t.rows i))
      → Kept (my_row s) (merged_row v t)
      → (a ≡ my_row t) ⊎ ((w : ℕ) × (w < v.num_members) × (a ≡ t.rows w))
      → Longest v t s
  unfolding Kept
  merged_as v t s a same covers kept known = record {
    from = a;
    known = known;
    longest = λ i lt. omega (arith, (covers i lt).0, same.0);
    taken = λ c lt room.
        let reached : c < (merged_row v t).n_changes = omega (arith, lt, same.0) in
        let some_place : 0 < max_members = omega (arith, room, kept.0, reached) in
        kept.2 c reached room ∙ same.1 (c % max_members) (mod-lt c some_place);
  }

  -- After `merge_changes` the own row knows of at least as many proposed and as many committed changes
  -- as the row of any member of the view. Its changes are those of a row that had the most of them,
  -- the own one or a member's, as far as the changes added for failed members leave them their places
  -- in the array. No other row has changed, and the own row has been put.
  pub merge_changes_lem :
      (v : View) (t : Sst)
      → let s = merge_changes max_members v t in
        ((i : ℕ) → i < v.num_members → Covers (my_row s) (t.rows i))
        × Covers (my_row s) (my_row t)
        × Longest v t s
        × ((i : ℕ) → i ≢ t.local_index → s.rows i ≡ t.rows i)
        × (s.calls ≡ put (my_row s) ∷ t.calls)
  unfolding merge_changes merged merged_row proposed Kept Source
  merge_changes_lem v t =
      let h = merged-Covers v t v.num_members in
      let s = merge_changes max_members v t in
      let p = proposed-Kept v (merged_row v t) v.num_members in
      let row : (proposed v (merged_row v t) v.num_members).0 ≡ my_row s = ground arith in
      let kept : Kept (my_row s) (merged_row v t) = subst (λ r. Kept r (merged_row v t)) row p in
      (
        λ i lt. ground (arith, (h.4 i lt).0, (h.4 i lt).1, kept.0, kept.1),
        (omega (arith, h.3.0, kept.0), omega (arith, h.3.1, kept.1)),
        elim h.5 [
          | inl mine ↦ merged_as v t s (my_row t) mine h.4 kept (inl refl)
          | inr (w, lt, other) ↦ merged_as v t s (t.rows w) other h.4 kept (inr (w, lt, refl))
        ],
        λ i ne. ground (arith, h.0, h.2 i ne),
        ground (arith, h.1),
      )
