-- ===== src/Group/Stable.antt =====
-- The predicates of DerechoGroup::register_predicates: when messages are stable, when the next one is
-- delivered, and when a sender may go on. The first two predicates are always true.
pub mod Trigger
pub mod Delivery
pub mod Next
use old_derecho.Base.{
  ℕ, zero, suc, Bool, true, false, not, ◌&&◌, ◌||◌, Option, none, some, List, [], ◌∷◌,
  if◌then◌else◌, ℤ, pos, ◌+ℤ◌, ltb_ℤ, leb_ℤ, for_below, all_below, is_some,
}
use old_derecho.Row.{Row}
use old_derecho.Sst.{insert, Predicate}
use old_derecho.Group.{
  Buffer, Message, Group, own, write_own, put, emit, sequence_number, notify_sender,
}
use old_derecho.Group.Deliver.{deliver_message}

-- The loop for a minimum, from the value of row 0.
unfoldable pub min_over : ℕ → (ℕ → ℤ) → ℤ
min_over n a = for_below n (λ i m. if ltb_ℤ (a i) m then a i else m) (a 0)

-- stability_trig
unfoldable pub stability_trig : Group → Group
unfolding min_over
stability_trig g =
    let least = min_over g.num_members (λ i. (g.sst.rows i).seq_num) in
    if ltb_ℤ (own g).stable_num least
    then put (write_own g (record (own g) { stable_num = least }))
    else g

module _ (reply_size : Buffer → ℕ → ℕ) where
  -- delivery_trig: at most the first of the stable messages
  unfoldable pub delivery_trig : Group → Option Group
  unfolding min_over
  delivery_trig g =
      let least = min_over g.num_members (λ i. (g.sst.rows i).stable_num) in
      elim g.locally_stable_messages [
        | [] ↦ some g
        | (seq, msg) ∷ rest ↦
            if leb_ℤ seq least
            then elim (deliver_message reply_size g msg) [
              | none ↦ none
              | some g' ↦
                  some (record (put (write_own g' (record (own g') { delivered_num = seq }))) {
                    locally_stable_messages = rest;
                  })
            ]
            else some g
      ]

-- sender_pred
unfoldable pub sender_pred : Group → Bool
sender_pred g =
    let seq = sequence_number g g.next_message_to_deliver g.member_index in
    all_below g.num_members (λ i. not (
      ltb_ℤ (g.sst.rows i).delivered_num seq
      || (is_some g.file_writer && ltb_ℤ (g.sst.rows i).persisted_num seq)))

-- sender_trig
unfoldable pub sender_trig : Group → Group
sender_trig g = record (emit g notify_sender) {
  next_message_to_deliver = g.next_message_to_deliver +ℤ pos 1;
}

-- register_predicates
unfoldable pub register_predicates : Group → Group
register_predicates g = record g {
  sst = insert (insert (insert g.sst Predicate.stability) Predicate.delivery) Predicate.sender;
}
