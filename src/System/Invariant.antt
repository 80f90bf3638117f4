-- ===== src/System/Invariant.antt =====
-- What the counters of the members have to do with one another, kept by every step.
use old_derecho.Base.{
  ℕ, ◌<◌, ◌≡◌, refl, sym, ap, subst, ◌∙◌, ◌≢◌, inl, inr, if◌then◌else◌, ◌==◌, update, arith,
  Bool-cases, ℤ, ◌≤ℤ◌, ≤ℤ_trans,
}
use old_derecho.Row.{Row}
use old_derecho.Group.{Group, own}
use old_derecho.Group.Receive.Stages.{IsCurrent}
use old_derecho.Group.Stable.Trigger.{Rises}
use old_derecho.System.{System, see}

pub record Inv (n : ℕ) (s : System) : Type 0 where
  pub size : (i : ℕ) → i < n → (s i).num_members ≡ n
  pub index : (i : ℕ) → i < n → (s i).sst.local_index ≡ i
  pub current : (i : ℕ) → i < n → IsCurrent (s i)
  pub seen_seq : (i j : ℕ) → i < n → j < n → ((s i).sst.rows j).seq_num ≤ℤ (own (s j)).seq_num
  pub seen_stable :
      (i j : ℕ) → i < n → j < n → ((s i).sst.rows j).stable_num ≤ℤ (own (s j)).stable_num
  pub stable : (i k : ℕ) → i < n → k < n → (own (s i)).stable_num ≤ℤ ((s i).sst.rows k).seq_num
  pub delivered :
      (i k : ℕ) → i < n → k < n → (own (s i)).delivered_num ≤ℤ ((s i).sst.rows k).stable_num

-- What holds of one member's own table.
pub record Local (n : ℕ) (g : Group) : Type 0 where
  pub current : IsCurrent g
  pub stable : (k : ℕ) → k < n → (own g).stable_num ≤ℤ (g.sst.rows k).seq_num
  pub delivered : (k : ℕ) → k < n → (own g).delivered_num ≤ℤ (g.sst.rows k).stable_num

-- A family that is changed at i has a property everywhere if the new value has it and the others
-- have it.
pub update_all {ℓ} :
    {A : Type ℓ} (P : ℕ → A → Type 0) (f : ℕ → A) (i : ℕ) (a : A)
    → P i a
    → ((j : ℕ) → i ≢ j → P j (f j))
    → (j : ℕ) → P j (update f i a j)
update_all P f i a new old j = elim (Bool-cases (i == j)) [
  | inl e ↦ let same : i ≡ j = ground arith in rw e (subst (λ k. P k a) same new)
  | inr ne ↦ rw ne (old j (ground arith))
]

module _ (n : ℕ) (s : System) (inv : Inv n s) (i : ℕ) (lt : i < n) where
  own_row : (g : Group) → Rises (s i) g → g.sst.rows i ≡ own g
  own_row g r =
      let at : g.sst.local_index ≡ i = r.same_index ∙ inv.index i lt in ap g.sst.rows (sym at)

  other_row : (g : Group) (b : ℕ) → Rises (s i) g → i ≢ b → g.sst.rows b ≡ (s i).sst.rows b
  other_row g b r ne = r.others b (λ e. ne (sym (e ∙ inv.index i lt)))

  -- The copies of a counter that has not fallen at i stay behind their originals.
  seen :
      (f : Row → ℤ) (g : Group)
      → Rises (s i) g
      → f (own (s i)) ≤ℤ f (own g)
      → ((a b : ℕ) → a < n → b < n → f ((s a).sst.rows b) ≤ℤ f (own (s b)))
      → (a b : ℕ) → a < n
      → b < n
      → f ((update s i g a).sst.rows b) ≤ℤ f (own (update s i g b))
  seen f g r rise old a b la lb =
      update_all (λ a h. a < n → f (h.sst.rows b) ≤ℤ f (own (update s i g b))) s i g
        (λ _.
          update_all (λ b h. b < n → f (g.sst.rows b) ≤ℤ f (own h)) s i g
            (λ _. rw (own_row g r) (omega arith))
            (λ b ne lb. rw (other_row g b r ne) (old i b lt lb)) b lb)
        (λ a ne la.
          update_all (λ b h. b < n → f ((s a).sst.rows b) ≤ℤ f (own h)) s i g
            (λ _. omega (arith, old a i la lt, rise)) (λ b ne' lb. old a b la lb) b lb)
        a la

  -- A handler that writes only its own row, and lowers neither `seq_num` nor `stable_num` there.
  pub Local-step : (g : Group) → Rises (s i) g → Local n g → Inv n (update s i g)
  Local-step g r l = record {
    size =
        update_all (λ j h. j < n → h.num_members ≡ n) s i g (λ _. r.same_size ∙ inv.size i lt)
          (λ j ne. inv.size j);
    index =
        update_all (λ j h. j < n → h.sst.local_index ≡ j) s i g (λ _. r.same_index ∙ inv.index i lt)
          (λ j ne. inv.index j);
    current =
        update_all (λ j h. j < n → IsCurrent h) s i g (λ _. l.current) (λ j ne. inv.current j);
    seen_seq = seen (λ r. r.seq_num) g r r.seq_rises inv.seen_seq;
    seen_stable = seen (λ r. r.stable_num) g r r.stable_rises inv.seen_stable;
    stable = λ a k la lk.
        update_all (λ j h. j < n → (own h).stable_num ≤ℤ (h.sst.rows k).seq_num) s i g
          (λ _. l.stable k lk) (λ j ne lj. inv.stable j k lj lk) a la;
    delivered = λ a k la lk.
        update_all (λ j h. j < n → (own h).delivered_num ≤ℤ (h.sst.rows k).stable_num) s i g
          (λ _. l.delivered k lk) (λ j ne lj. inv.delivered j k lj lk) a la;
  }

  -- A handler that does not touch the table.
  pub quiet_step :
      (g : Group) → g.sst ≡ (s i).sst → g.num_members ≡ (s i).num_members → Inv n (update s i g)
  quiet_step g t m =
      Local-step g
        (record {
          same_size = m;
          same_index = ap (λ x. x.local_index) t;
          others = λ j ne. ap (λ x. x.rows j) t;
          seq_rises = rw t (omega arith);
          stable_rises = rw t (omega arith);
        })
        (record {
          current = record {
            some_member = rw m (inv.current i lt).some_member;
            started = λ j lj. rw t ((inv.current i lt).started j (rw m at lj));
            current = rw (t, m) (inv.current i lt).current;
          };
          stable = λ k lk. rw t (inv.stable i k lt lk);
          delivered = λ k lk. rw t (inv.delivered i k lt lk);
        })

  pub see-own : (j : ℕ) → own (see s i j) ≡ own (s i)
  unfolding see
  see-own j = elim (Bool-cases (j == (s i).sst.local_index)) [
    | inl e ↦
        let same : j ≡ i = let h : j ≡ (s i).sst.local_index = ground arith in h ∙ inv.index i lt in
        rw e (ap (λ k. own (s k)) same)
    | inr ne ↦ rw ne
  ]

  see-rows : (j b : ℕ) → (see s i j).sst.rows b ≡ (if j == b then own (s j) else (s i).sst.rows b)
  unfolding see
  see-rows j b = refl

  see-local :
      (j : ℕ)
      → ((see s i j).sst.local_index ≡ (s i).sst.local_index)
        × ((see s i j).num_members ≡ (s i).num_members)
  unfolding see
  see-local j = (refl, refl)

  owns : (j b : ℕ) → own (update s i (see s i j) b) ≡ own (s b)
  owns j b = update_all (λ b h. own h ≡ own (s b)) s i (see s i j) (see-own j) (λ b ne. refl) b

  seen_after :
      (f : Row → ℤ) (j : ℕ)
      → ((a b : ℕ) → a < n → b < n → f ((s a).sst.rows b) ≤ℤ f (own (s b)))
      → (a b : ℕ) → a < n
      → b < n
      → f ((update s i (see s i j) a).sst.rows b) ≤ℤ f (own (s b))
  seen_after f j old a b la lb =
      update_all (λ a h. a < n → f (h.sst.rows b) ≤ℤ f (own (s b))) s i (see s i j)
        (λ _. elim (Bool-cases (j == b)) [
          | inl e ↦ let same : j ≡ b = ground arith in rw (see-rows j b, e, same) (omega arith)
          | inr ne ↦ rw (see-rows j b, ne) (old i b lt lb)
        ])
        (λ a ne la. old a b la lb) a la

  -- A copy at i does not fall.
  copy_rises :
      (f : Row → ℤ) (j b : ℕ)
      → b < n
      → ((a b : ℕ) → a < n → b < n → f ((s a).sst.rows b) ≤ℤ f (own (s b)))
      → f ((s i).sst.rows b) ≤ℤ f ((see s i j).sst.rows b)
  copy_rises f j b lb old = elim (Bool-cases (j == b)) [
    | inl e ↦ let same : j ≡ b = ground arith in rw (see-rows j b, e, same) (old i b lt lb)
    | inr ne ↦ rw (see-rows j b, ne) (omega arith)
  ]

  -- A copy is brought up to date. Copies only rise, so what is bounded by them stays bounded.
  pub see_step : (j : ℕ) → Inv n (update s i (see s i j))
  see_step j = record {
    size =
        update_all (λ j h. j < n → h.num_members ≡ n) s i (see s i j)
          (λ _. (see-local j).1 ∙ inv.size i lt) (λ j ne. inv.size j);
    index =
        update_all (λ j h. j < n → h.sst.local_index ≡ j) s i (see s i j)
          (λ _. (see-local j).0 ∙ inv.index i lt) (λ j ne. inv.index j);
    current =
        update_all (λ j h. j < n → IsCurrent h) s i (see s i j)
          (λ _.
            let c = inv.current i lt in
            record {
              some_member = rw (see-local j).1 c.some_member;
              started = λ k lk. rw (see-own j) (c.started k (rw (see-local j).1 at lk));
              current = rw (see-own j, (see-local j).1) c.current;
            })
          (λ j ne. inv.current j);
    seen_seq = λ a b la lb. rw (owns j b) (seen_after (λ r. r.seq_num) j inv.seen_seq a b la lb);
    seen_stable =
        λ a b la lb. rw (owns j b) (seen_after (λ r. r.stable_num) j inv.seen_stable a b la lb);
    stable = λ a k la lk.
        update_all (λ a h. a < n → (own h).stable_num ≤ℤ (h.sst.rows k).seq_num) s i (see s i j)
          (λ _. rw (see-own j) (
            ≤ℤ_trans (own (s i)).stable_num ((s i).sst.rows k).seq_num
              ((see s i j).sst.rows k).seq_num (inv.stable i k lt lk)
              (copy_rises (λ r. r.seq_num) j k lk inv.seen_seq)))
          (λ a ne la. inv.stable a k la lk) a la;
    delivered = λ a k la lk.
        update_all (λ a h. a < n → (own h).delivered_num ≤ℤ (h.sst.rows k).stable_num) s i
          (see s i j)
          (λ _. rw (see-own j) (
            ≤ℤ_trans (own (s i)).delivered_num ((s i).sst.rows k).stable_num
              ((see s i j).sst.rows k).stable_num (inv.delivered i k lt lk)
              (copy_rises (λ r. r.stable_num) j k lk inv.seen_stable)))
          (λ a ne la. inv.delivered a k la lk) a la;
  }
