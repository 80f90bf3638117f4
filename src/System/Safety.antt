-- ===== src/System/Safety.antt =====
-- What the group promises: a message is delivered at a member only when every member has it.
use old_derecho.Base.{
  ℕ, zero, suc, ◌<◌, ◌≡◌, refl, sym, ap, subst, ◌∙◌, inl, inr, ◌==◌, update, arith, Bool-cases, ℤ,
  negsuc, ◌≤ℤ◌, for_below,
}
use old_derecho.Row.{Row}
use old_derecho.Sst.{Sst, write_row}
use old_derecho.Group.{Buffer, Group, own}
use old_derecho.Group.Order.{new_seq_num, new_seq_num_greatest, new_seq_num-reset, ReceivedUpTo}
use old_derecho.Group.Setup.{initialize_sst_row, reset_counters}
use old_derecho.System.{System, IsStart, start, Reach, here, next}
use old_derecho.System.Invariant.{Inv}
use old_derecho.System.Steps.{Step-Inv}

-- The rows of initialize_sst_row: every counter at -1.
pub record IsReset (n : ℕ) (r : Row) : Type 0 where
  pub received : (j : ℕ) → j < n → r.n_received j ≡ negsuc 0
  pub seq : r.seq_num ≡ negsuc 0
  pub stable : r.stable_num ≡ negsuc 0
  pub delivered : r.delivered_num ≡ negsuc 0

reset_received :
    (n j : ℕ) (a : ℕ → ℤ) → j < n → for_below n (λ j a. update a j (negsuc 0)) a j ≡ negsuc 0
unfolding for_below
reset_received zero j a lt = absurd (omega arith)
reset_received (suc n) j a lt = ground (arith, reset_received n j a)

reset_counters-IsReset : (n : ℕ) (r : Row) → IsReset n (reset_counters n r)
unfolding reset_counters
reset_counters-IsReset n r = record {
  received = λ j lt. reset_received n j r.n_received lt;
  seq = refl;
  stable = refl;
  delivered = refl;
}

IsReset-rows :
    (size n i : ℕ) (t : Sst)
    → i < n
    → IsReset size ((for_below n (λ i t. write_row t i (reset_counters size (t.rows i))) t).rows i)
unfolding for_below
IsReset-rows size zero i t lt = absurd (omega arith)
IsReset-rows size (suc n) i t lt = elim (Bool-cases (n == i)) [
  | inl e ↦ rw e (reset_counters-IsReset size _)
  | inr ne ↦ rw ne (IsReset-rows size n i t (ground arith))
]

reset_index :
    (size n : ℕ) (t : Sst)
    → (for_below n (λ i t. write_row t i (reset_counters size (t.rows i))) t).local_index
      ≡ t.local_index
unfolding for_below
reset_index size zero t = refl
reset_index size (suc n) t = reset_index size n t

pub initialize_sst_row-IsReset :
    (g : Group) (i : ℕ)
    → i < g.num_members
    → IsReset g.num_members ((initialize_sst_row g).sst.rows i)
unfolding initialize_sst_row
initialize_sst_row-IsReset g i lt = IsReset-rows g.num_members g.num_members i g.sst lt

pub initialize_sst_row-same :
    (g : Group)
    → ((initialize_sst_row g).num_members ≡ g.num_members)
      × ((initialize_sst_row g).sst.local_index ≡ g.sst.local_index)
unfolding initialize_sst_row
initialize_sst_row-same g = (refl, reset_index g.num_members g.num_members g.sst)

-- The counters of the start satisfy the invariant.
pub start-Inv : (n : ℕ) (s : System) → 0 < n → IsStart n s → Inv n (start s)
start-Inv n s h st =
    let same = λ (i : ℕ). initialize_sst_row-same (s i) in
    let size = λ (i : ℕ) (lt : i < n). (same i).0 ∙ st.size i lt in
    let index = λ (i : ℕ) (lt : i < n). (same i).1 ∙ st.index i lt in
    let row = λ (i k : ℕ) (lt : i < n) (lk : k < n). row_reset i k lt lk in
    let mine = λ (i : ℕ) (lt : i < n).
      subst (λ k. IsReset n ((start s i).sst.rows k)) (sym (index i lt)) (row i i lt lt) in
    record {
      size = size;
      index = index;
      current = λ i lt. record {
        some_member = rw (size i lt) h;
        started = λ j lj. rw ((mine i lt).received j (rw (size i lt) at lj)) (omega arith);
        current =
            rw ((mine i lt).seq, size i lt)
              (sym (new_seq_num-reset n (own (start s i)).n_received h (mine i lt).received));
      };
      seen_seq = λ i j lt lj. rw ((row i j lt lj).seq, (mine j lj).seq) (omega arith);
      seen_stable = λ i j lt lj. rw ((row i j lt lj).stable, (mine j lj).stable) (omega arith);
      stable = λ i k lt lk. rw ((mine i lt).stable, (row i k lt lk).seq) (omega arith);
      delivered = λ i k lt lk. rw ((mine i lt).delivered, (row i k lt lk).stable) (omega arith);
    }
  where
    row_reset : (i k : ℕ) → i < n → k < n → IsReset n ((start s i).sst.rows k)
    row_reset i k lt lk =
        subst (λ m. IsReset m ((start s i).sst.rows k)) (st.size i lt)
          (initialize_sst_row-IsReset (s i) k (rw (st.size i lt) lk))

pub Reach-Inv :
    (reply_size : Buffer → ℕ → ℕ) (n : ℕ) (s t : System)
    → 0 < n
    → IsStart n s
    → Reach reply_size n s t
    → Inv n t
Reach-Inv reply_size n s t h st here = start-Inv n s h st
Reach-Inv reply_size n s t h st (next r step) =
    Step-Inv reply_size n step (Reach-Inv reply_size n s _ h st r)

-- In every state that the members reach, whatever a member has recorded as delivered has been
-- received by every member: `delivered_num` of i is at most `stable_num` and `seq_num` of each k,
-- and for every message with a number up to it (index m of sender j has the number m * n + j) the
-- counter of k shows that it was received.
pub delivered_everywhere :
    (reply_size : Buffer → ℕ → ℕ) (n : ℕ) (s t : System) (i k : ℕ)
    → 0 < n
    → IsStart n s
    → Reach reply_size n s t
    → i < n
    → k < n
    → ((own (t i)).delivered_num ≤ℤ (own (t k)).stable_num)
      × ((own (t i)).delivered_num ≤ℤ (own (t k)).seq_num)
      × ReceivedUpTo n (own (t k)).n_received (own (t i)).delivered_num
delivered_everywhere reply_size n s t i k h st r li lk =
    let inv = Reach-Inv reply_size n s t h st r in
    let upto : (own (t i)).delivered_num ≤ℤ (own (t k)).stable_num =
      omega (arith, inv.delivered i k li lk, inv.seen_stable i k li lk) in
    let seq : (own (t i)).delivered_num ≤ℤ (own (t k)).seq_num =
      omega (arith, upto, inv.stable k k lk lk, inv.seen_seq k k lk lk) in
    let number : (own (t k)).seq_num ≡ new_seq_num n (own (t k)).n_received =
      (inv.current k lk).current ∙ ap (λ m. new_seq_num m (own (t k)).n_received) (inv.size k lk) in
    let all =
      (new_seq_num_greatest n (own (t k)).n_received h
        (λ j lj. (inv.current k lk).started j (rw (inv.size k lk) lj))).0 in
    (upto, seq, λ m j lj below. all m j lj (rw (← number) (omega (arith, below, seq))))
