-- ===== src/Group/Stable/Trigger.antt =====
-- What the three triggers do to the counters of the own row.
use old_derecho.Base.{
  refl, subst, true, false, ◌<ℤ◌, ℕ, zero, suc, ◌+◌, ◌-◌, ◌*◌, ◌<◌, ◌≡◌, ◌∙◌, ◌≢◌, ◌⊎◌, inl, inr,
  some, ℤ, ◌≤ℤ◌, ltb_ℤ, for_below, arith, Bool-cases, Option-cases, ◌==◌,
}
use old_derecho.Group.{
  put, write_own, Buffer, Message, Group, own, emit, handle_receive, global_stability_callback,
}
use old_derecho.Group.Deliver.{
  deliver_message, deliver_cooked, send_reply, keep_or_free, dest_size, sizeof_size_t,
  sizeof_node_id,
}
use old_derecho.Group.Stable.{min_over, stability_trig}

pub min_over-le : (n : ℕ) (a : ℕ → ℤ) (i : ℕ) → i < n → min_over n a ≤ℤ a i
unfolding min_over for_below
min_over-le zero a i h = absurd (omega arith)
min_over-le (suc n) a i h = elim (Bool-cases (i == n)) [
  | inl e ↦ ground arith
  | inr ne ↦ ground (arith, min_over-le n a i)
]

-- A delivery leaves the table, the group's size and its stable messages alone.
abbrev pub SameTable : Group → Group → Type 0
SameTable g g' =
    (g'.sst ≡ g.sst)
    × (g'.num_members ≡ g.num_members)
    × (g'.locally_stable_messages ≡ g.locally_stable_messages)

SameTable-trans : (g h k : Group) → SameTable g h → SameTable h k → SameTable g k
SameTable-trans g h k p q = (q.0 ∙ p.0, q.1 ∙ p.1, q.2 ∙ p.2)

send_reply-SameTable :
    (g g' : Group) (m : Message) (b : Buffer) (n : ℕ)
    → send_reply g m b n ≡ some g'
    → SameTable g g'
unfolding send_reply
send_reply-SameTable g g' m b n e = ground arith

keep_or_free-SameTable :
    (g : Group) (m : Message) (b : Buffer) (at : ℕ) → SameTable g (keep_or_free g m b at)
unfolding keep_or_free
keep_or_free-SameTable g m b at = ground arith

module _ (reply_size : Buffer → ℕ → ℕ) where
  deliver_cooked-SameTable :
      (g g' : Group) (m : Message) (b : Buffer)
      → deliver_cooked reply_size g m b ≡ some g'
      → SameTable g g'
  unfolding deliver_cooked
  deliver_cooked-SameTable g g' m b e = ground (
    arith,
    send_reply-SameTable
        (emit g (
          handle_receive b (b.header.header_size + (sizeof_size_t + sizeof_node_id * dest_size b))
            (m.size - b.header.header_size - (sizeof_size_t + sizeof_node_id * dest_size b))))
        g' m b
        (reply_size b (b.header.header_size + (sizeof_size_t + sizeof_node_id * dest_size b))),
  )

  deliver_buffer-SameTable :
      (g g' : Group) (m : Message) (b : Buffer)
      → m.message_buffer ≡ some b
      → deliver_message reply_size g m ≡ some g'
      → SameTable g g'
  unfolding deliver_message
  deliver_buffer-SameTable g g' m b mb e =
      let at = b.header.header_size + (sizeof_size_t + sizeof_node_id * dest_size b) in
      elim (Option-cases (deliver_cooked reply_size g m b)) [
        | inl failed ↦ ground (
          arith,
          keep_or_free-SameTable
              (emit g
                (global_stability_callback m.sender_rank m.index b b.header.header_size m.size))
              m b 0,
        )
        | inr (h, cooked) ↦ ground (
          arith,
          deliver_cooked-SameTable g h m b cooked,
          keep_or_free-SameTable h m b at,
          keep_or_free-SameTable
              (emit g
                (global_stability_callback m.sender_rank m.index b b.header.header_size m.size))
              m b 0,
        )
      ]

  pub deliver_message-SameTable :
      (g g' : Group) (m : Message) → deliver_message reply_size g m ≡ some g' → SameTable g g'
  unfolding deliver_message
  deliver_message-SameTable g g' m e = elim (Option-cases m.message_buffer) [
    | inl null ↦ ground arith
    | inr (b, mb) ↦ deliver_buffer-SameTable g g' m b mb e
  ]

-- `h` is `g` with other counters in its own row, none of them lower.
pub record Rises (g h : Group) : Type 0 where
  pub same_size : h.num_members ≡ g.num_members
  pub same_index : h.sst.local_index ≡ g.sst.local_index
  pub others : (i : ℕ) → i ≢ g.sst.local_index → h.sst.rows i ≡ g.sst.rows i
  pub seq_rises : (own g).seq_num ≤ℤ (own h).seq_num
  pub stable_rises : (own g).stable_num ≤ℤ (own h).stable_num

pub stability_trig-Rises : (g : Group) → Rises g (stability_trig g)
unfolding stability_trig
stability_trig-Rises g = record {
  same_size = ground arith;
  same_index = ground arith;
  others = λ i ne. ground arith;
  seq_rises = ground arith;
  stable_rises = ground arith;
}

-- The stability trigger leaves all but `stable_num` of the own row, and raises that to at most
-- what every member's row shows as received.
pub stability_trig-own :
    (g : Group)
    → ((own (stability_trig g)).delivered_num ≡ (own g).delivered_num)
      × ((own (stability_trig g)).n_received ≡ (own g).n_received)
      × ((own (stability_trig g)).seq_num ≡ (own g).seq_num)
      × (((own (stability_trig g)).stable_num ≡ (own g).stable_num)
          ⊎ ((i : ℕ)
              → i < g.num_members
              → (own (stability_trig g)).stable_num ≤ℤ (g.sst.rows i).seq_num))
unfolding stability_trig
stability_trig-own g =
    elim (Bool-cases
      (ltb_ℤ (own g).stable_num (min_over g.num_members (λ i. (g.sst.rows i).seq_num)))) [
        | inl more ↦ (
          ground arith,
          ground arith,
          ground arith,
          inr (λ i lt.
              ground (arith, min_over-le g.num_members (λ i. (g.sst.rows i).seq_num) i lt)),
        )
        | inr same ↦ (ground arith, ground arith, ground arith, inl (ground arith))
      ]

min_over-from_first :
    (k : ℕ) (a : ℕ → ℤ) → ((i : ℕ) × (i < k) × (min_over k a ≡ a i)) ⊎ (min_over k a ≡ a 0)
unfolding min_over for_below
min_over-from_first zero a = inr refl
min_over-from_first (suc k) a = elim (Bool-cases (ltb_ℤ (a k) (min_over k a))) [
  | inl less ↦ inl (k, omega arith, ground (arith, less))
  | inr more ↦ elim (min_over-from_first k a) [
    | inl (i, lt, e) ↦ inl (i, omega (arith, lt), ground (arith, more, e))
    | inr e ↦ inr (ground (arith, more, e))
  ]
]

-- The minimum is the value of a row.
pub min_over-attained : (n : ℕ) (a : ℕ → ℤ) → 0 < n → (i : ℕ) × (i < n) × (min_over n a ≡ a i)
min_over-attained n a h = elim (min_over-from_first n a) [
  | inl found ↦ found
  | inr first ↦ (0, h, first)
]

-- In a group with members, some member's row shows the least `seq_num` of all. The stability trigger
-- sets `stable_num` to it and puts the row if it was lower, and changes nothing at all otherwise.
pub stability_trig_lem :
    (g : Group)
    → 0 < g.num_members
    → (k : ℕ) × (k < g.num_members)
      × ((i : ℕ) → i < g.num_members → (g.sst.rows k).seq_num ≤ℤ (g.sst.rows i).seq_num)
      × ((own g).stable_num <ℤ (g.sst.rows k).seq_num
          → stability_trig g
            ≡ put (write_own g (record (own g) { stable_num = (g.sst.rows k).seq_num })))
      × ((g.sst.rows k).seq_num ≤ℤ (own g).stable_num → stability_trig g ≡ g)
unfolding stability_trig
stability_trig_lem g h =
    let seqs = λ (i : ℕ). (g.sst.rows i).seq_num in
    let (k, lt, is) = min_over-attained g.num_members seqs h in
    (
      k,
      lt,
      λ i li. subst (λ m. m ≤ℤ seqs i) is (min_over-le g.num_members seqs i li),
      λ less.
          let grows : ltb_ℤ (own g).stable_num (seqs k) ≡ true = ground arith in
          rw (stability_trig, is, grows) refl,
      λ high.
          let stays : ltb_ℤ (own g).stable_num (seqs k) ≡ false = ground arith in
          rw (stability_trig, is, stays) refl,
    )
