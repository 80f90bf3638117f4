-- ===== src/Group/Receive/Count.antt =====
-- What a receipt does to the counters of the own row: `seq_num` stays the greatest number up to
-- which everything has been received.
use old_derecho.Base.{
  ℕ, ◌+◌, ◌<◌, ◌≡◌, ◌∙◌, subst, ◌≢◌, some, pos, ◌+ℤ◌, ◌≤ℤ◌, arith, Option-cases, ◌∷◌, inl, inr,
}
use old_derecho.Sst
use old_derecho.Sst.{Sst, my_row}
use old_derecho.Group.{Header, Group, own, sequence_number}
use old_derecho.Group.Order.{new_seq_num}
use old_derecho.Group.Receive.{
  count_received, move_message, skip_turns, update_seq_num, receive_handler,
}
use old_derecho.Group.Receive.Stages.{
  IsCurrent, Counted, Counted-trans, count_received-Counted, move_message-same, same-Counted,
  skip_turns-Counted, new_seq_num_mono, update_seq_num-current, Counted-le,
  update_seq_num-other_rows,
}

-- What a receipt of `k` turns of `sender` leaves.
pub record Received (g : Group) (sender k : ℕ) (g' : Group) : Type 0 where
  pub current : IsCurrent g'
  pub counted : (own g').n_received sender ≡ (own g).n_received sender +ℤ pos k
  pub others : (i : ℕ) → i ≢ sender → (own g').n_received i ≡ (own g).n_received i
  pub rises : (own g).seq_num ≤ℤ (own g').seq_num
  pub same_size : g'.num_members ≡ g.num_members
  pub same_index : g'.sst.local_index ≡ g.sst.local_index
  pub same_stable : (own g').stable_num ≡ (own g).stable_num
  pub same_delivered : (own g').delivered_num ≡ (own g).delivered_num
  pub other_rows : (i : ℕ) → i ≢ g.sst.local_index → g'.sst.rows i ≡ g.sst.rows i
  pub last_put : g'.sst.calls ≡ Sst.put (own g') ∷ g.sst.calls

receipt_end :
    (g u : Group) (sender k : ℕ)
    → IsCurrent g
    → Counted g sender k u
    → Received g sender k (update_seq_num u)
receipt_end g u sender k cur c =
    let le = λ (i : ℕ) (lt : i < g.num_members). Counted-le g u sender k i c in
    let mono =
      new_seq_num_mono g.num_members (own g).n_received (own u).n_received cur.some_member
        cur.started le in
    let up : (own u).seq_num ≤ℤ new_seq_num u.num_members (own u).n_received =
      rw (c.same_size, c.same_seq, cur.current) mono in
    let v = update_seq_num-current u up in
    record {
      current = record {
        some_member = rw (v.2, c.same_size) cur.some_member;
        started = λ i lt.
            let lt' : i < g.num_members = rw (v.2, c.same_size) at lt in
            rw v.1 (omega (arith, cur.started i lt', le i lt'));
        current = rw v.2 v.0;
      };
      counted = rw v.1 c.counted;
      others = λ i ne. rw v.1 (c.others i ne);
      rises = rw (v.0, v.1, c.same_size, cur.current) mono;
      same_size = v.2 ∙ c.same_size;
      same_index = v.4 ∙ c.same_index;
      same_stable = v.5 ∙ c.same_stable;
      same_delivered = v.6 ∙ c.same_delivered;
      other_rows = λ i ne. update_seq_num-other_rows u i (rw c.same_index ne) ∙ c.other_rows i ne;
      last_put = rw (← c.same_calls) v.3;
    }

-- A receipt that passes its assertions counts one message and the skipped turns for its sender,
-- leaves the other senders' counters, keeps `seq_num` at the greatest number up to which all has
-- been received (so it never falls), leaves `stable_num`, `delivered_num` and the rows of the other
-- members, and puts the row last.
pub receive_handler-Received :
    (g g' : Group) (sender : ℕ) (h : Header)
    → IsCurrent g
    → receive_handler g sender h ≡ some g'
    → Received g sender (1 + h.pause_sending_turns) g'
unfolding receive_handler
receive_handler-Received g g' sender h c e =
    let g1 = count_received g sender in
    let index = (own g1).n_received sender in
    let seq = sequence_number g1 index sender in
    elim (Option-cases (move_message g1 sender seq)) [
      | inl failed ↦ absurd (ground arith)
      | inr (g2, moved) ↦
          let same = move_message-same g1 g2 sender seq moved in
          let u = skip_turns h.pause_sending_turns g2 sender index seq in
          let result : update_seq_num u ≡ g' = ground arith in
          let stages =
            Counted-trans g g2 u sender 1 h.pause_sending_turns
              (Counted-trans g g1 g2 sender 1 0 (count_received-Counted g sender)
                (same-Counted g1 g2 sender same.0 same.1))
              (skip_turns-Counted h.pause_sending_turns g2 sender index seq) in
          subst (Received g sender (1 + h.pause_sending_turns)) result
            (receipt_end g u sender (1 + h.pause_sending_turns) c stages)
    ]
