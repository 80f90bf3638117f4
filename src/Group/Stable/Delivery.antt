-- ===== src/Group/Stable/Delivery.antt =====
-- The delivery trigger, case by case.
use old_derecho.Base.{
  ◌≢◌, ◌⊎◌, ◌<ℤ◌, false, ℕ, ◌<◌, ◌≡◌, refl, sym, ap, ◌∙◌, inl, inr, true, some, [], ◌∷◌, ℤ, ◌≤ℤ◌,
  leb_ℤ, arith, Bool-cases, Option-cases,
}
use old_derecho.Base.Maps.{Map, IsOrdered, Above}
use old_derecho.Sst.{my_row, write_my, put_row}
use old_derecho.Group.{global_stability_callback, put, write_own, Buffer, Message, Group, own}
use old_derecho.Group.Deliver.{deliver_message, keep_or_free}
use old_derecho.Group.Stable.{min_over, delivery_trig}
use old_derecho.Group.Stable.Trigger.{min_over-le, min_over-attained, deliver_message-SameTable}

module _ (reply_size : Buffer → ℕ → ℕ) where
  -- From `g` to `h`, an application message that is not empty has been handed to the callback, once.
  abbrev pub UpcallOf : Message → Group → Group → Type 0
  UpcallOf m g h =
      (b : Buffer)
      → m.size ≢ 0
      → m.message_buffer ≡ some b
      → b.header.cooked_send ≡ false
      → h.events
        ≡ global_stability_callback m.sender_rank m.index b b.header.header_size m.size ∷ g.events

  -- The group after a delivery: the one that deliver_message gives, with the number in its row, the
  -- row put, and the message gone.
  abbrev pub recorded : Group → ℤ → Map Message → Group
  recorded h seq rest = record (put (write_own h (record (own h) { delivered_num = seq }))) {
    locally_stable_messages = rest;
  }

  -- What a delivery trigger that ends well has done: nothing, because no message waits or some row
  -- does not show the first one as stable; or one delivery.
  pub data Delivered (g g' : Group) : Type 0 where
    idle :
        (g.locally_stable_messages ≡ [])
          ⊎ ((seq : ℤ) × (m : Message) × (rest : Map Message) × (i : ℕ) × (g.locally_stable_messages
                ≡ (seq, m) ∷ rest)
              × (i < g.num_members)
              × ((g.sst.rows i).stable_num <ℤ seq))
        → g' ≡ g
        → Delivered g g'
    one :
        (seq : ℤ) (m : Message) (rest : Map Message) (h : Group)
        → g.locally_stable_messages ≡ (seq, m) ∷ rest
        → ((i : ℕ) → i < g.num_members → seq ≤ℤ (g.sst.rows i).stable_num)
        → deliver_message reply_size g m ≡ some h
        → g'.locally_stable_messages ≡ rest
        → g'.num_members ≡ g.num_members
        → g'.sst ≡ put_row (write_my g.sst (record (own g) { delivered_num = seq }))
        → g' ≡ recorded h seq rest
        → UpcallOf m g g'
        → (IsOrdered g.locally_stable_messages → Above seq rest)
        → Delivered g g'

  deliver_message-UpcallOf :
      (g h : Group) (m : Message) → deliver_message reply_size g m ≡ some h → UpcallOf m g h
  unfolding deliver_message keep_or_free
  deliver_message-UpcallOf g h m e b sized array raw = elim (Option-cases g.file_writer) [
    | inl no_writer ↦ ground (arith, no_writer)
    | inr (w, writer) ↦ ground (arith, writer)
  ]

  delivery_head :
      (g g' : Group) (seq : ℤ) (m : Message) (rest : Map Message)
      → 0 < g.num_members
      → g.locally_stable_messages ≡ (seq, m) ∷ rest
      → delivery_trig reply_size g ≡ some g'
      → Delivered g g'
  unfolding delivery_trig
  delivery_head g g' seq m rest some_member l e =
      let least = min_over g.num_members (λ i. (g.sst.rows i).stable_num) in
      elim (Bool-cases (leb_ℤ seq least)) [
        | inr early ↦
            let (k, lk, is) =
              min_over-attained g.num_members (λ i. (g.sst.rows i).stable_num) some_member in
            idle (inr (seq, m, rest, k, l, lk, ground (arith, early, is))) (ground arith)
        | inl due ↦ elim (Option-cases (deliver_message reply_size g m)) [
          | inl failed ↦ absurd (ground arith)
          | inr (h, done) ↦
              let same = deliver_message-SameTable reply_size g h m done in
              let made : recorded h seq rest ≡ g' = ground arith in
              let table : g'.sst
                  ≡ put_row (write_my h.sst (record (own h) { delivered_num = seq })) =
                ap (λ k. k.sst) (sym made) in
              let stable = λ (i : ℕ) (lt : i < g.num_members). le_least seq i due lt in
              let called = deliver_message-UpcallOf g h m done in
              one seq m rest h l stable done (ap (λ k. k.locally_stable_messages) (sym made))
                (ap (λ k. k.num_members) (sym made) ∙ same.1)
                (table
                  ∙ ap (λ t. put_row (write_my t (record (my_row t) { delivered_num = seq })))
                      same.0)
                (sym made)
                (λ b sized array raw. ap (λ k. k.events) (sym made) ∙ called b sized array raw)
                (λ o. rw l at o)
        ]
      ]
    where
      le_least :
          (seq : ℤ) (i : ℕ)
          → leb_ℤ seq (min_over g.num_members (λ i. (g.sst.rows i).stable_num)) ≡ true
          → i < g.num_members
          → seq ≤ℤ (g.sst.rows i).stable_num
      le_least seq i due lt =
          ground (arith, min_over-le g.num_members (λ i. (g.sst.rows i).stable_num) i lt)

  delivery_none :
      (g g' : Group)
      → g.locally_stable_messages ≡ []
      → delivery_trig reply_size g ≡ some g'
      → g' ≡ g
  unfolding delivery_trig
  delivery_none g g' l e = ground arith

  -- In a group with members, a delivery trigger that ends well has done nothing, because no message
  -- waits or a row shows a `stable_num` below the first number. Or that number is at most the
  -- `stable_num` of every row, and exactly this message has been delivered: the group is the one that
  -- deliver_message gives, with the message taken off, the number recorded as delivered in the own row,
  -- and the row put. An application's message that is not empty has been handed to the callback, once.
  -- If the messages are in the order of their numbers, the number is the least of all.
  pub delivery_trig-Delivered :
      (g g' : Group) → 0 < g.num_members → delivery_trig reply_size g ≡ some g' → Delivered g g'
  delivery_trig-Delivered g g' some_member e = by_messages g.locally_stable_messages refl
    where
      by_messages : (l : Map Message) → g.locally_stable_messages ≡ l → Delivered g g'
      by_messages [] l = idle (inl l) (delivery_none g g' l e)
      by_messages ((seq, m) ∷ rest) l = delivery_head g g' seq m rest some_member l e
