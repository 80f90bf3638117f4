-- ===== src/System/Refinement.antt =====
-- The members of a view implement atomic multicast in total order.
use old_derecho.Base.{
  List, [], ◌∷◌, ℕ, suc, ◌+◌, ◌<◌, ◌≡◌, ◌≢◌, ◌⊎◌, refl, ap, inl, inr, some, ==_refl, update, arith,
  ℤ, pos, negsuc, pos_part, neg_part, ◌+ℤ◌, ◌≤ℤ◌, +ℤ_parts,
}
use old_derecho.Sst.{my_row}
use old_derecho.Group.{Header, Buffer, Group, own}
use old_derecho.Group.Order.{ReceivedUpTo, new_seq_num_greatest}
use old_derecho.Group.Receive.{receive_handler}
use old_derecho.Group.Receive.Count.{receive_handler-Received}
use old_derecho.Group.Receive.Arrival.{receive_destination-finds}
use old_derecho.Group.Stable.{stability_trig}
use old_derecho.Group.Stable.Trigger.{stability_trig-own}
use old_derecho.Group.Send.Window.{get_position-table, send-table, send_loop_turn-table}
use old_derecho.System.{
  System, IsStart, start, see, Reach, here, next, Step, receives, stabilises, delivers, sees,
  assigns, takes_position, sends, turns,
}
use old_derecho.System.Invariant.{Inv, update_all, see-own}
use old_derecho.System.Safety.{Reach-Inv}
use old_derecho.System.Waiting.{AllWait, Took, nothing, message, delivery_trig-Took}
use old_derecho.System.TotalOrder.{NoneWait, start_row, Reach-AllWait}
use old_derecho.System.Spec
use old_derecho.System.Spec.{
  Multicast, IsReceived, Allowed, gets, stays, IsInitial, Behaviour, begin, step,
}

-- A counter that starts at -1, as a number of messages.
abbrev pub count : ℤ → ℕ
count (pos k) = suc k
count (negsuc k) = 0

-- What a state of the members is in the specification.
abbrev pub multicast : System → Multicast
multicast s = record {
  received = λ i j. count ((own (s i)).n_received j);
  delivered = λ i. count (own (s i)).delivered_num;
}

count_parts : (z : ℤ) → negsuc 0 ≤ℤ z → pos_part z + 1 ≡ count z + neg_part z
count_parts (pos k) h = omega arith
count_parts (negsuc k) h = omega arith

count_more : (z : ℤ) (k : ℕ) → negsuc 0 ≤ℤ z → count z < count (z +ℤ pos (1 + k))
count_more z k h =
    let sum = +ℤ_parts z (pos (1 + k)) in
    omega (arith, count_parts z h, count_parts (z +ℤ pos (1 + k)) (omega (arith, sum, h)), sum)

count_reached : (z : ℤ) (k : ℕ) → pos k ≤ℤ z → k < count z
count_reached (pos j) k h = omega arith
count_reached (negsuc j) k h = absurd (omega arith)

count_next : (z : ℤ) (c : ℕ) → negsuc 0 ≤ℤ z → z +ℤ pos 1 ≡ pos c → count z ≡ c
count_next z c h e = let sum = +ℤ_parts z (pos 1) in omega (arith, count_parts z h, (rw e at sum))

-- What is stable at one member has been received by all.
stable-received :
    (n : ℕ) (s : System) (i k : ℕ)
    → Inv n s
    → i < n
    → k < n
    → ReceivedUpTo n (own (s k)).n_received (own (s i)).stable_num
stable-received n s i k inv li lk m j lj below =
    let cur = inv.current k lk in
    let all =
      (new_seq_num_greatest (s k).num_members (own (s k)).n_received cur.some_member
        cur.started).0 in
    let seq : (own (s i)).stable_num ≤ℤ (own (s k)).seq_num =
      omega (arith, inv.stable i k li lk, inv.seen_seq i k li lk) in
    all m j (rw (inv.size k lk) lj)
      (rw (← cur.current) (rw (inv.size k lk) (omega (arith, below, seq))))

module _ (reply_size : Buffer → ℕ → ℕ) (n : ℕ) (s : System) (inv : Inv n s) where
  at_own : (i : ℕ) (g : Group) → update s i g i ≡ g
  at_own i g = rw (==_refl i) refl

  at_other : (i k : ℕ) (g : Group) → k ≢ i → update s i g k ≡ s k
  at_other i k g ne = ground arith

  -- A handler that changes no counter that shows.
  unseen :
      (i : ℕ) (g : Group)
      → i < n
      → (own g).n_received ≡ (own (s i)).n_received
      → (own g).delivered_num ≡ (own (s i)).delivered_num
      → Allowed n (multicast s) (multicast (update s i g))
  unseen i g lt received delivered =
      stays
        (λ k j lk lj.
          update_all (λ k h. count ((own h).n_received j) ≡ count ((own (s k)).n_received j)) s i g
            (ap (λ f. count (f j)) received) (λ k ne. refl) k)
        (λ k lk.
          update_all (λ k h. count (own h).delivered_num ≡ count (own (s k)).delivered_num) s i g
            (ap count delivered) (λ k ne. refl) k)

  unseen_table :
      (i : ℕ) (g : Group)
      → i < n
      → g.sst ≡ (s i).sst
      → Allowed n (multicast s) (multicast (update s i g))
  unseen_table i g lt table =
      unseen i g lt (ap (λ t. (my_row t).n_received) table)
        (ap (λ t. (my_row t).delivered_num) table)

  received_more :
      (i sender : ℕ) (h : Header) (g : Group)
      → i < n
      → sender < n
      → receive_handler (s i) sender h ≡ some g
      → Allowed n (multicast s) (multicast (update s i g))
  received_more i sender h g lt from e =
      let r = receive_handler-Received (s i) g sender h (inv.current i lt) e in
      gets i sender from
        (rw (at_own i g, r.counted)
          (count_more ((own (s i)).n_received sender) h.pause_sending_turns
            ((inv.current i lt).started sender (rw (inv.size i lt) from))))
        (λ k l lk ll other.
          update_all
            (λ k h.
              (k ≢ i) ⊎ (l ≢ sender)
              → count ((own h).n_received l) ≡ count ((own (s k)).n_received l))
            s i g
            (λ here. elim here [ inl far ↦ absurd (far refl) | inr ne ↦ ap count (r.others l ne) ])
            (λ k ne far. refl) k other)
        (λ k lk.
          update_all (λ k h. count (own h).delivered_num ≡ count (own (s k)).delivered_num) s i g
            (ap count r.same_delivered) (λ k ne. refl) k)

  takes_step :
      (i : ℕ) (g : Group)
      → i < n
      → AllWait n s
      → Took reply_size n (s i) g
      → Allowed n (multicast s) (multicast (update s i g))
  takes_step i g lt w (nothing same) =
      unseen i g lt (ap (λ h. (own h).n_received) same) (ap (λ h. (own h).delivered_num) same)
  takes_step i g lt w (message c m after is received below l) =
      let before : count (own (s i)).delivered_num ≡ c =
        count_next (own (s i)).delivered_num c (w i lt).started after in
      Spec.delivers i
        (λ k lk m' j lj number.
          count_reached ((own (s k)).n_received j) m'
            (stable-received n s i k inv lt lk m' j lj (rw (number, before) below)))
        (rw (at_own i g, is, before) (omega arith)) (λ k lk ne. rw (at_other i k g ne) refl)
        (λ k j lk lj.
          update_all (λ k h. count ((own h).n_received j) ≡ count ((own (s k)).n_received j)) s i g
            (ap (λ f. count (f j)) received) (λ k ne. refl) k)

-- Every step of a handler is one that the specification allows, or one that does not show in it.
pub Step-Allowed :
    (reply_size : Buffer → ℕ → ℕ) (n : ℕ) {s t : System}
    → Step reply_size n s t
    → Inv n s
    → AllWait n s
    → Allowed n (multicast s) (multicast t)
Step-Allowed reply_size n {s} (receives i sender h g lt from e) inv w =
    received_more reply_size n s inv i sender h g lt from e
Step-Allowed reply_size n {s} (stabilises i lt) inv w =
    let o = stability_trig-own (s i) in
    unseen reply_size n s inv i (stability_trig (s i)) lt o.1 o.0
Step-Allowed reply_size n {s} (delivers i g lt e) inv w =
    takes_step reply_size n s inv i g lt w (delivery_trig-Took reply_size n s i g inv lt (w i lt) e)
Step-Allowed reply_size n {s} (sees i j lt lj) inv w =
    let same = see-own n s inv i lt j in
    unseen reply_size n s inv i (see s i j) lt (ap (λ r. r.n_received) same)
      (ap (λ r. r.delivered_num) same)
Step-Allowed reply_size n {s} (assigns i sender length b g lt e) inv w =
    let t = (receive_destination-finds (s i) g sender length b e).1 in
    unseen_table reply_size n s inv i g lt t
Step-Allowed reply_size n {s} (takes_position i payload skipped cooked b g lt e) inv w =
    unseen_table reply_size n s inv i g lt (get_position-table (s i) g payload skipped cooked b e).0
Step-Allowed reply_size n {s} (sends i sent g lt e) inv w =
    unseen_table reply_size n s inv i g lt (send-table (s i) g sent e).0
Step-Allowed reply_size n {s} (turns i accepted g lt e) inv w =
    unseen_table reply_size n s inv i g lt (send_loop_turn-table (s i) g accepted e).0

start-IsInitial : (n : ℕ) (s : System) → 0 < n → IsStart n s → IsInitial n (multicast (start s))
start-IsInitial n s h st = record {
  none_received = λ i j lt lj. ap count ((start_row n s i lt h st).received j lj);
  none_delivered = λ i lt. ap count (start_row n s i lt h st).delivered;
}

-- The states that the members pass through, as the specification sees them, the newest first and
-- without the last.
abbrev pub past :
    {reply_size : Buffer → ℕ → ℕ} {n : ℕ} {s t : System} → Reach reply_size n s t → List Multicast
past here = []
past (next {t} r stp) = multicast t ∷ past r

-- Refinement: from groups that have just been made, whatever the members of a view do, in whatever
-- order, the states that they pass through are a behaviour of atomic multicast in total order: each
-- handler that runs lets one member receive messages, or lets one member deliver the one message after
-- its last in the round-robin order, which every member must have received, or does not show.
pub multicast-Behaviour :
    (reply_size : Buffer → ℕ → ℕ) (n : ℕ) (s t : System)
    → 0 < n
    → IsStart n s
    → NoneWait n s
    → (r : Reach reply_size n s t) → Behaviour n (past r) (multicast t)
multicast-Behaviour reply_size n s t h st empty here = begin (start-IsInitial n s h st)
multicast-Behaviour reply_size n s t h st empty (next r stp) =
    step (multicast-Behaviour reply_size n s _ h st empty r) (
      Step-Allowed reply_size n stp (Reach-Inv reply_size n s _ h st r)
        (Reach-AllWait reply_size n s _ h st empty r))
