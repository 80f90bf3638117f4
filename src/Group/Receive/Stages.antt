-- ===== src/Group/Receive/Stages.antt =====
-- What the stages of a receipt do to the counters of the own row.
use old_derecho.Base.{
  ℕ, zero, suc, ◌+◌, ◌<◌, ◌≡◌, refl, sym, ap, ◌∙◌, subst, ◌≢◌, some, ◌==◌, ltb_ℤ, ℤ, pos, negsuc,
  ◌+ℤ◌, ◌≤ℤ◌, +ℤ_parts, eq_of_parts, ltb_ℤ_false, arith, Bool-cases, ◌∷◌, inl, inr,
}
use old_derecho.Sst
use old_derecho.Sst.{Sst, my_row}
use old_derecho.Group.{Group, own}
use old_derecho.Group.Order.{new_seq_num, new_seq_num_greatest}
use old_derecho.Group.Receive.{count_received, move_message, skip_turns, update_seq_num}

-- A group with members whose own counters have started and whose `seq_num` is up to date.
pub record IsCurrent (g : Group) : Type 0 where
  pub some_member : 0 < g.num_members
  pub started : (i : ℕ) → i < g.num_members → negsuc 0 ≤ℤ (own g).n_received i
  pub current : (own g).seq_num ≡ new_seq_num g.num_members (own g).n_received

-- What the stages of the handler leave alone, with `k` more messages counted for `sender`.
pub record Counted (g : Group) (sender k : ℕ) (g' : Group) : Type 0 where
  pub same_size : g'.num_members ≡ g.num_members
  pub same_index : g'.sst.local_index ≡ g.sst.local_index
  pub same_calls : g'.sst.calls ≡ g.sst.calls
  pub same_seq : (own g').seq_num ≡ (own g).seq_num
  pub same_stable : (own g').stable_num ≡ (own g).stable_num
  pub same_delivered : (own g').delivered_num ≡ (own g).delivered_num
  pub other_rows : (i : ℕ) → i ≢ g.sst.local_index → g'.sst.rows i ≡ g.sst.rows i
  pub counted : (own g').n_received sender ≡ (own g).n_received sender +ℤ pos k
  pub others : (i : ℕ) → i ≢ sender → (own g').n_received i ≡ (own g).n_received i

+ℤ_pos : (a : ℤ) (j k : ℕ) → a +ℤ pos j +ℤ pos k ≡ a +ℤ pos (j + k)
+ℤ_pos a j k = omega (arith, +ℤ_parts, eq_of_parts)

+ℤ_zero : (a : ℤ) → a +ℤ pos 0 ≡ a
+ℤ_zero a = omega (arith, +ℤ_parts, eq_of_parts)

pub Counted-trans :
    (g h k : Group) (sender a b : ℕ)
    → Counted g sender a h
    → Counted h sender b k
    → Counted g sender (a + b) k
Counted-trans g h k sender a b p q = record {
  same_size = q.same_size ∙ p.same_size;
  same_index = q.same_index ∙ p.same_index;
  same_calls = q.same_calls ∙ p.same_calls;
  same_seq = q.same_seq ∙ p.same_seq;
  same_stable = q.same_stable ∙ p.same_stable;
  same_delivered = q.same_delivered ∙ p.same_delivered;
  other_rows = λ i ne. q.other_rows i (rw p.same_index ne) ∙ p.other_rows i ne;
  counted = rw (q.counted, p.counted) (+ℤ_pos ((own g).n_received sender) a b);
  others = λ i ne. q.others i ne ∙ p.others i ne;
}

pub count_received-Counted : (g : Group) (sender : ℕ) → Counted g sender 1 (count_received g sender)
unfolding count_received
count_received-Counted g sender = record {
  same_size = refl;
  same_index = refl;
  same_calls = refl;
  same_seq = ground arith;
  same_stable = ground arith;
  same_delivered = ground arith;
  other_rows = λ i ne. ground arith;
  counted = ground arith;
  others = λ i ne. ground arith;
}

-- Moving the message touches neither the table nor the size of the group.
pub move_message-same :
    (g g' : Group) (sender : ℕ) (seq : ℤ)
    → move_message g sender seq ≡ some g'
    → (g'.sst ≡ g.sst) × (g'.num_members ≡ g.num_members)
unfolding move_message
move_message-same g g' sender seq e = ground arith

pub same-Counted :
    (g g' : Group) (sender : ℕ)
    → g'.sst ≡ g.sst
    → g'.num_members ≡ g.num_members
    → Counted g sender 0 g'
same-Counted g g' sender e f = record {
  same_size = f;
  same_index = ap (λ t. t.local_index) e;
  same_calls = ap (λ t. t.calls) e;
  same_seq = ap (λ t. (my_row t).seq_num) e;
  same_stable = ap (λ t. (my_row t).stable_num) e;
  same_delivered = ap (λ t. (my_row t).delivered_num) e;
  other_rows = λ i ne. ap (λ t. t.rows i) e;
  counted = ap (λ t. (my_row t).n_received sender) e ∙ sym (+ℤ_zero _);
  others = λ i ne. ap (λ t. (my_row t).n_received i) e;
}

pub skip_turns-Counted :
    (j : ℕ) (g : Group) (sender : ℕ) (index seq : ℤ)
    → Counted g sender j (skip_turns j g sender index seq)
unfolding skip_turns
skip_turns-Counted zero g sender index seq = same-Counted g g sender refl refl
skip_turns-Counted (suc j) g sender index seq =
    let k : 1 + j ≡ suc j = omega arith in
    subst (λ n. Counted g sender n (skip_turns (suc j) g sender index seq)) k
      (Counted-trans g _ _ sender 1 j
        (Counted-trans g _ _ sender 1 0 (count_received-Counted g sender)
          (same-Counted _ _ sender refl refl))
        (skip_turns-Counted j _ sender (index +ℤ pos 1) (seq +ℤ pos g.num_members)))

-- With no fewer messages received, the number does not fall.
pub new_seq_num_mono :
    (n : ℕ) (a b : ℕ → ℤ)
    → 0 < n
    → ((i : ℕ) → i < n → negsuc 0 ≤ℤ a i)
    → ((i : ℕ) → i < n → a i ≤ℤ b i)
    → new_seq_num n a ≤ℤ new_seq_num n b
new_seq_num_mono n a b h started le =
    (new_seq_num_greatest n b h (λ i lt. omega (arith, started i lt, le i lt))).1 (new_seq_num n a)
      (λ k i lt below. omega (arith, (new_seq_num_greatest n a h started).0 k i lt below, le i lt))

pub update_seq_num-current :
    (g : Group)
    → (own g).seq_num ≤ℤ new_seq_num g.num_members (own g).n_received
    → ((own (update_seq_num g)).seq_num
        ≡ new_seq_num g.num_members (own (update_seq_num g)).n_received)
      × ((own (update_seq_num g)).n_received ≡ (own g).n_received)
      × ((update_seq_num g).num_members ≡ g.num_members)
      × ((update_seq_num g).sst.calls ≡ Sst.put (own (update_seq_num g)) ∷ g.sst.calls)
      × ((update_seq_num g).sst.local_index ≡ g.sst.local_index)
      × ((own (update_seq_num g)).stable_num ≡ (own g).stable_num)
      × ((own (update_seq_num g)).delivered_num ≡ (own g).delivered_num)
unfolding update_seq_num
update_seq_num-current g le =
    elim (Bool-cases (ltb_ℤ (own g).seq_num (new_seq_num g.num_members (own g).n_received))) [
      | inl less ↦ ground arith
      | inr same ↦
          let e : (own g).seq_num ≡ new_seq_num g.num_members (own g).n_received = omega (
            arith,
            eq_of_parts,
            ltb_ℤ_false (own g).seq_num (new_seq_num g.num_members (own g).n_received) same,
          ) in
          ground arith
    ]

pub Counted-le :
    (g u : Group) (sender k i : ℕ)
    → Counted g sender k u
    → (own g).n_received i ≤ℤ (own u).n_received i
Counted-le g u sender k i c = elim (Bool-cases (i == sender)) [
  | inl e ↦
      let same : i ≡ sender = ground arith in
      rw (same, c.counted) (omega (arith, +ℤ_parts ((own g).n_received sender) (pos k)))
  | inr ne ↦ rw (c.others i (ground arith)) (omega arith)
]

pub update_seq_num-other_rows :
    (g : Group) (i : ℕ) → i ≢ g.sst.local_index → (update_seq_num g).sst.rows i ≡ g.sst.rows i
unfolding update_seq_num
update_seq_num-other_rows g i ne = ground arith
