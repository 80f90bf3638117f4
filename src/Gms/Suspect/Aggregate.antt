-- ===== src/Gms/Suspect/Aggregate.antt =====
-- What the loop over the suspicions of all rows takes over into the own row.
use old_derecho.Base.{
  ℕ, zero, suc, ◌<◌, ◌≡◌, ◌≢◌, refl, sym, subst, ◌∙◌, inl, inr, true, ◌||◌, ◌==◌, update, for_below,
  arith, Bool-cases,
}
use old_derecho.Sst.{Sst, my_row, write_my}
use old_derecho.Gms.Suspect.{aggregate}

-- One round of the inner loop.
take_suspicion : ℕ → ℕ → Sst → Sst
take_suspicion r who t = write_my t (record (my_row t) {
  suspected =
      update (my_row t).suspected who ((my_row t).suspected who || (t.rows r).suspected who);
})

-- From `t` to `s`, the table is the same but for the own row, which has lost no suspicion.
record Gained (t s : Sst) : Type 0 where
  same_index : s.local_index ≡ t.local_index
  others : (i : ℕ) → i ≢ t.local_index → s.rows i ≡ t.rows i
  kept : (i : ℕ) → (my_row t).suspected i ≡ true → (my_row s).suspected i ≡ true

Gained-trans : (t s u : Sst) → Gained t s → Gained s u → Gained t u
Gained-trans t s u g h = record {
  same_index = h.same_index ∙ g.same_index;
  others = λ i ne. h.others i (rw g.same_index ne) ∙ g.others i ne;
  kept = λ i e. h.kept i (g.kept i e);
}

-- A suspicion that row r shows at the start is still shown, by row r or by the own one.
Gained-shown :
    (t s : Sst) (r i : ℕ)
    → Gained t s
    → (t.rows r).suspected i ≡ true
    → (s.rows r).suspected i ≡ true
Gained-shown t s r i g e = elim (Bool-cases (r == t.local_index)) [
  | inl own ↦
      let here : r ≡ t.local_index = ground arith in
      let there : r ≡ s.local_index = here ∙ sym g.same_index in
      subst (λ k. (s.rows k).suspected i ≡ true) (sym there)
        (g.kept i (subst (λ k. (t.rows k).suspected i ≡ true) here e))
  | inr other ↦ rw (g.others r (ground arith)) e
]

take_suspicion-Gained : (r who : ℕ) (t : Sst) → Gained t (take_suspicion r who t)
unfolding take_suspicion
take_suspicion-Gained r who t = record {
  same_index = refl;
  others = λ i ne. ground arith;
  kept = λ i e. ground arith;
}

take_suspicion-taken :
    (r who : ℕ) (t : Sst)
    → (t.rows r).suspected who ≡ true
    → (my_row (take_suspicion r who t)).suspected who ≡ true
unfolding take_suspicion
take_suspicion-taken r who t e = ground (arith, e)

inner : ℕ → ℕ → Sst → Sst
inner r n t = for_below n (take_suspicion r) t

inner-Gained : (r n : ℕ) (t : Sst) → Gained t (inner r n t)
unfolding inner for_below
inner-Gained r zero t = record { same_index = refl; others = λ i ne. refl; kept = λ i e. e }
inner-Gained r (suc n) t =
    Gained-trans t (inner r n t) (take_suspicion r n (inner r n t)) (inner-Gained r n t)
      (take_suspicion-Gained r n (inner r n t))

inner-taken :
    (r n : ℕ) (t : Sst) (i : ℕ)
    → i < n
    → (t.rows r).suspected i ≡ true
    → (my_row (inner r n t)).suspected i ≡ true
unfolding inner for_below
inner-taken r zero t i lt e = absurd (omega arith)
inner-taken r (suc n) t i lt e = elim (Bool-cases (i == n)) [
  | inl last ↦
      let same : i ≡ n = ground arith in
      let shown = Gained-shown t (inner r n t) r i (inner-Gained r n t) e in
      subst (λ k. (my_row (take_suspicion r n (inner r n t))).suspected k ≡ true) (sym same)
        (take_suspicion-taken r n (inner r n t)
          (subst (λ k. ((inner r n t).rows r).suspected k ≡ true) same shown))
  | inr before ↦
      (take_suspicion-Gained r n (inner r n t)).kept i (inner-taken r n t i (ground arith) e)
]

outer : ℕ → ℕ → Sst → Sst
outer size n t = for_below n (λ r t. inner r size t) t

outer-Gained : (size n : ℕ) (t : Sst) → Gained t (outer size n t)
unfolding outer for_below
outer-Gained size zero t = record { same_index = refl; others = λ i ne. refl; kept = λ i e. e }
outer-Gained size (suc n) t =
    Gained-trans t (outer size n t) (inner n size (outer size n t)) (outer-Gained size n t)
      (inner-Gained n size (outer size n t))

outer-taken :
    (size n : ℕ) (t : Sst) (r i : ℕ)
    → r < n
    → i < size
    → (t.rows r).suspected i ≡ true
    → (my_row (outer size n t)).suspected i ≡ true
unfolding outer for_below
outer-taken size zero t r i lr li e = absurd (omega arith)
outer-taken size (suc n) t r i lr li e = elim (Bool-cases (r == n)) [
  | inl last ↦
      let same : r ≡ n = ground arith in
      let shown = Gained-shown t (outer size n t) r i (outer-Gained size n t) e in
      inner-taken n size (outer size n t) i li
        (subst (λ k. ((outer size n t).rows k).suspected i ≡ true) same shown)
  | inr before ↦
      (inner-Gained n size (outer size n t)).kept i (outer-taken size n t r i (ground arith) li e)
]

-- A suspicion of any of the first n rows is in the own row.
pub aggregate-taken :
    (n : ℕ) (t : Sst) (r i : ℕ)
    → r < n
    → i < n
    → (t.rows r).suspected i ≡ true
    → (my_row (aggregate n t)).suspected i ≡ true
unfolding aggregate outer inner take_suspicion
aggregate-taken n t r i lr li e = outer-taken n n t r i lr li e

pub aggregate-kept :
    (n : ℕ) (t : Sst) (i : ℕ)
    → (my_row t).suspected i ≡ true
    → (my_row (aggregate n t)).suspected i ≡ true
unfolding aggregate outer inner take_suspicion
aggregate-kept n t i e = (outer-Gained n n t).kept i e
