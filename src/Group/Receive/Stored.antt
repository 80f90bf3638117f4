-- ===== src/Group/Receive/Stored.antt =====
-- Which messages wait for their delivery: those that have been received and have a number above the
-- last one delivered.
use old_derecho.Base.{
  ℕ, zero, suc, ◌+◌, ◌*◌, ◌<◌, ◌≡◌, ap, subst, ◌∙◌, inl, inr, ◌||◌, some, ◌==◌, is_some, ℤ, leb_ℤ,
  pos, ◌+ℤ◌, ◌≤ℤ◌, ◌<ℤ◌, eqb_ℤ, arith, Bool-cases, Option-cases,
}
use old_derecho.Base.Maps.{
  find, assign, emplace, IsOrdered, has-assign, has-emplace, assign-IsOrdered, emplace-IsOrdered,
}
use old_derecho.Sst.{my_row}
use old_derecho.Group.{Header, Group, own, sequence_number}
use old_derecho.Group.Order.{new_seq_num, count_of, new_seq_num_greatest}
use old_derecho.Group.Receive.{
  count_received, move_message, skip_turns, empty_message, update_seq_num, receive_handler,
}
use old_derecho.Group.Receive.Stages.{IsCurrent, count_received-Counted}
use old_derecho.Group.Receive.PutDown.{counter_parts, StoredIn, next_number_of, counted_put_down}

-- What is left of moving a message: the table, and one more message waits.
record Moved (g : Group) (sender : ℕ) (seq : ℤ) (g' : Group) : Type 0 where
  table : g'.sst ≡ (count_received g sender).sst
  size : g'.num_members ≡ g.num_members
  ordered : IsOrdered g.locally_stable_messages → IsOrdered g'.locally_stable_messages
  has :
      (key : ℤ)
      → is_some (find key g'.locally_stable_messages)
        ≡ (eqb_ℤ seq key || is_some (find key g.locally_stable_messages))

move_message-Moved :
    (g g' : Group) (sender : ℕ) (seq : ℤ)
    → move_message (count_received g sender) sender seq ≡ some g'
    → Moved g sender seq g'
unfolding move_message count_received
move_message-Moved g g' sender seq e = elim (Bool-cases (sender == g.member_index)) [
  | inl mine ↦ elim (Option-cases g.current_send) [
    | inl null ↦ absurd (ground arith)
    | inr (m, sent) ↦
        let l : g'.locally_stable_messages ≡ assign seq m g.locally_stable_messages =
          ground arith in
        record {
          table = ground arith;
          size = ground arith;
          ordered = λ o. rw l (assign-IsOrdered seq m g.locally_stable_messages o);
          has = λ key. rw l (has-assign seq key m g.locally_stable_messages);
        }
  ]
  | inr other ↦ elim (Option-cases (find seq g.current_receives)) [
    | inl null ↦ absurd (ground arith)
    | inr (m, there) ↦
        let l : g'.locally_stable_messages ≡ emplace seq m g.locally_stable_messages =
          ground arith in
        record {
          table = ground arith;
          size = ground arith;
          ordered = λ o. rw l (emplace-IsOrdered seq m g.locally_stable_messages o);
          has = λ key. rw l (has-emplace seq key m g.locally_stable_messages);
        }
  ]
]

move_message-Stored :
    (g g' : Group) (sender c : ℕ)
    → sender < g.num_members
    → (own g).n_received sender +ℤ pos 1 ≡ pos c
    → (own g).delivered_num <ℤ pos (c * g.num_members + sender)
    → StoredIn g.num_members g
    → Moved g sender (pos (c * g.num_members + sender)) g'
    → StoredIn g.num_members g'
move_message-Stored g g' sender c lt e up st moved =
    let all =
      counted_put_down g sender c g'.locally_stable_messages lt e up st (moved.ordered st.ordered)
        moved.has in
    rw moved.table all

one_more : (c : ℕ) → pos c +ℤ pos 1 ≡ pos (c + 1)
unfolding ◌+ℤ◌
one_more c = ground arith

next_turn : (c n i : ℕ) → pos (c * n + i) +ℤ pos n ≡ pos ((c + 1) * n + i)
unfolding ◌+ℤ◌
next_turn c n i = ground arith

-- A turn that is skipped is put down as the next message of its sender, and so on.
skip_turns-Stored :
    (j : ℕ) (g : Group) (sender c : ℕ) (index seq : ℤ)
    → sender < g.num_members
    → (own g).n_received sender +ℤ pos 1 ≡ pos c
    → index +ℤ pos 1 ≡ pos c
    → seq +ℤ pos g.num_members ≡ pos (c * g.num_members + sender)
    → (own g).delivered_num <ℤ pos (c * g.num_members + sender)
    → StoredIn g.num_members g
    → StoredIn g.num_members (skip_turns j g sender index seq)
unfolding skip_turns count_received
skip_turns-Stored zero g sender c index seq lt e at number up st = st
skip_turns-Stored (suc j) g sender c index seq lt e at number up st =
    let c1 = count_received-Counted g sender in
    let next : Group = record (count_received g sender) {
      locally_stable_messages =
          assign (seq +ℤ pos g.num_members) (empty_message sender (index +ℤ pos 1))
            g.locally_stable_messages;
    } in
    let stored =
      counted_put_down g sender c next.locally_stable_messages lt e up st
        (assign-IsOrdered _ _ g.locally_stable_messages st.ordered)
        (λ key.
          subst
            (λ x.
              is_some (find key next.locally_stable_messages)
              ≡ (eqb_ℤ x key || is_some (find key g.locally_stable_messages)))
            number (has-assign _ key _ g.locally_stable_messages)) in
    let counter : (own next).n_received sender ≡ pos c = c1.counted ∙ e in
    let number' : pos (c * g.num_members + sender) +ℤ pos g.num_members
        ≡ pos ((c + 1) * g.num_members + sender) =
      next_turn c g.num_members sender in
    skip_turns-Stored j next sender (c + 1) (index +ℤ pos 1) (seq +ℤ pos g.num_members) lt
      (rw counter (one_more c)) (rw at (one_more c)) (rw number number')
      (rw c1.same_delivered (omega (arith, up))) stored

update_seq_num-keeps :
    (g : Group)
    → ((own (update_seq_num g)).n_received ≡ (own g).n_received)
      × ((own (update_seq_num g)).delivered_num ≡ (own g).delivered_num)
      × ((update_seq_num g).locally_stable_messages ≡ g.locally_stable_messages)
unfolding update_seq_num
update_seq_num-keeps g = ground arith

-- The number of the next message is above those that have been delivered.
next_above :
    (g : Group) (sender c : ℕ)
    → IsCurrent g
    → sender < g.num_members
    → (own g).delivered_num ≤ℤ (own g).seq_num
    → (own g).n_received sender +ℤ pos 1 ≡ pos c
    → (own g).delivered_num <ℤ pos (c * g.num_members + sender)
next_above g sender c cur lt behind e =
    let all =
      (new_seq_num_greatest g.num_members (own g).n_received cur.some_member cur.started).0 in
    let one = counter_parts ((own g).n_received sender) c e in
    elim (Bool-cases (leb_ℤ (pos (c * g.num_members + sender)) (own g).delivered_num)) [
      | inl below ↦
          let reached : pos (c * g.num_members + sender)
              ≤ℤ new_seq_num g.num_members (own g).n_received =
            rw (← cur.current) (ground arith) in
          absurd (omega (arith, all c sender lt reached, one))
      | inr above ↦ ground arith
    ]

-- What follows the move of the message: the skipped turns and the new number.
after_move-Stored :
    (g g2 : Group) (sender c turns : ℕ) (index seq : ℤ)
    → sender < g.num_members
    → (own g).n_received sender +ℤ pos 1 ≡ pos c
    → (own g).delivered_num <ℤ pos (c * g.num_members + sender)
    → StoredIn g.num_members g
    → index ≡ pos c
    → seq ≡ pos (c * g.num_members + sender)
    → Moved g sender seq g2
    → StoredIn g.num_members (update_seq_num (skip_turns turns g2 sender index seq))
after_move-Stored g g2 sender c turns index seq lt e up st at same moved =
    let m : Moved g sender (pos (c * g.num_members + sender)) g2 =
      subst (λ x. Moved g sender x g2) same moved in
    let counted = count_received-Counted g sender in
    let received_2 : (own g2).n_received sender ≡ pos c =
      ap (λ t. (my_row t).n_received sender) m.table ∙ counted.counted ∙ e in
    let delivered_2 : (own g2).delivered_num ≡ (own g).delivered_num =
      ap (λ t. (my_row t).delivered_num) m.table ∙ counted.same_delivered in
    let u = skip_turns turns g2 sender index seq in
    let k = update_seq_num-keeps u in
    let st3 =
      skip_turns-Stored turns g2 sender (c + 1) index seq (rw m.size lt)
        (rw received_2 (one_more c)) (rw at (one_more c))
        (rw (same, m.size) (next_turn c g.num_members sender))
        (rw (delivered_2, m.size) (omega (arith, up)))
        (rw m.size (move_message-Stored g g2 sender c lt e up st m)) in
    rw (k.0, k.1, k.2) (subst (λ n. StoredIn n u) m.size st3)

-- A receipt keeps exactly the messages that wait: if the last number delivered is at most `seq_num`,
-- the messages kept are after the receipt again all those received above that number.
pub receive_handler-Stored :
    (g g' : Group) (sender : ℕ) (h : Header)
    → IsCurrent g
    → sender < g.num_members
    → (own g).delivered_num ≤ℤ (own g).seq_num
    → StoredIn g.num_members g
    → receive_handler g sender h ≡ some g'
    → StoredIn g.num_members g'
unfolding receive_handler
receive_handler-Stored g g' sender h cur lt behind st e =
    let (c, one, parts) = count_of ((own g).n_received sender) (cur.started sender lt) in
    let index = (own (count_received g sender)).n_received sender in
    let seq = sequence_number (count_received g sender) index sender in
    elim (Option-cases (move_message (count_received g sender) sender seq)) [
      | inl failed ↦ absurd (ground arith)
      | inr (g2, moved) ↦
          let result : update_seq_num (skip_turns h.pause_sending_turns g2 sender index seq) ≡ g' =
            ground arith in
          subst (StoredIn g.num_members) result (
            after_move-Stored g g2 sender c h.pause_sending_turns index seq lt one
              (next_above g sender c cur lt behind one) st
              ((count_received-Counted g sender).counted ∙ one) (next_number_of g sender c one)
              (move_message-Moved g g2 sender seq moved))
    ]
