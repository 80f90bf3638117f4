-- ===== src/System/Waiting.antt =====
-- What waits for delivery at each member, kept by every step: exactly the messages that it received
-- and that are numbered above the last one delivered.
use old_derecho.Base.{
  ℕ, ◌<◌, ◌≡◌, refl, sym, ap, subst, ◌∙◌, some, ◌∷◌, update, arith, pos, negsuc, ◌+ℤ◌, ◌≤ℤ◌,
}
use old_derecho.Sst.{my_row, write_my, put_row}
use old_derecho.Group.{Buffer, Message, Group, own}
use old_derecho.Group.Order.{new_seq_num, new_seq_num_greatest}
use old_derecho.Group.Receive.Count.{receive_handler-Received}
use old_derecho.Group.Receive.Arrival.{receive_destination-finds}
use old_derecho.Group.Receive.PutDown.{Stored, StoredIn}
use old_derecho.Group.Receive.Stored.{receive_handler-Stored}
use old_derecho.Group.Stable.{delivery_trig}
use old_derecho.Group.Stable.Trigger.{stability_trig-own}
use old_derecho.Group.Stable.Delivery.{Delivered, idle, one, delivery_trig-Delivered}
use old_derecho.Group.Stable.Next.{head_next, rest-Stored}
use old_derecho.Group.Send.Window.{get_position-table, send-table, send_loop_turn-table}
use old_derecho.System.{
  System, see, Step, receives, stabilises, delivers, sees, assigns, takes_position, sends, turns,
}
use old_derecho.System.Messages.{
  receive_destination-messages, get_position-messages, send-messages, send_loop_turn-messages,
  stability_trig-messages,
}
use old_derecho.System.Invariant.{Inv, update_all, see-own}

see-messages :
    (s : System) (i j : ℕ) → (see s i j).locally_stable_messages ≡ (s i).locally_stable_messages
unfolding see
see-messages s i j = refl

pub record Waits (n : ℕ) (g : Group) : Type 0 where
  pub stored : StoredIn n g
  pub started : negsuc 0 ≤ℤ (own g).delivered_num

-- A group with the same messages and counters.
Waits-same :
    (n : ℕ) (g h : Group)
    → (own h).n_received ≡ (own g).n_received
    → (own h).delivered_num ≡ (own g).delivered_num
    → h.locally_stable_messages ≡ g.locally_stable_messages
    → Waits n g
    → Waits n h
Waits-same n g h received delivered messages w = record {
  stored = rw (received, delivered, messages) w.stored;
  started = rw delivered w.started;
}

Waits-table :
    (n : ℕ) (g h : Group)
    → h.sst ≡ g.sst
    → h.locally_stable_messages ≡ g.locally_stable_messages
    → Waits n g
    → Waits n h
Waits-table n g h table messages =
    Waits-same n g h (ap (λ t. (my_row t).n_received) table)
      (ap (λ t. (my_row t).delivered_num) table) messages

-- What a delivery takes, in a group whose own `stable_num` and `seq_num` bound what it shows.
pub data Took (reply_size : Buffer → ℕ → ℕ) (n : ℕ) (g g' : Group) : Type 0 where
  nothing : g' ≡ g → Took reply_size n g g'
  message :
      (c : ℕ) (m : Message)
      → (own g).delivered_num +ℤ pos 1 ≡ pos c
      → (own g').delivered_num ≡ pos c
      → (own g').n_received ≡ (own g).n_received
      → pos c ≤ℤ (own g).stable_num
      → g.locally_stable_messages ≡ (pos c, m) ∷ g'.locally_stable_messages
      → Took reply_size n g g'

-- The own row of member i, as it bounds the counters.
own_bounds :
    (n : ℕ) (s : System) (i : ℕ)
    → Inv n s
    → i < n
    → ((own (s i)).delivered_num ≤ℤ (own (s i)).stable_num)
      × ((own (s i)).stable_num ≤ℤ (own (s i)).seq_num)
own_bounds n s i inv lt =
    let here = inv.index i lt in
    (
      subst (λ k. (own (s i)).delivered_num ≤ℤ ((s i).sst.rows k).stable_num) (sym here)
          (inv.delivered i i lt lt),
      subst (λ k. (own (s i)).stable_num ≤ℤ ((s i).sst.rows k).seq_num) (sym here)
          (inv.stable i i lt lt),
    )

-- A delivery at a member takes nothing, or exactly the message after the last one delivered.
pub delivery_trig-Took :
    (reply_size : Buffer → ℕ → ℕ) (n : ℕ) (s : System) (i : ℕ) (g : Group)
    → Inv n s
    → i < n
    → Waits n (s i)
    → delivery_trig reply_size (s i) ≡ some g
    → Took reply_size n (s i) g
delivery_trig-Took reply_size n s i g inv lt w e =
    by_case (delivery_trig-Delivered reply_size (s i) g (inv.current i lt).some_member e)
  where
    by_case : Delivered reply_size (s i) g → Took reply_size n (s i) g
    by_case (idle why same) = nothing same
    by_case (one seq m rest h l below done left size table whole upcall least) =
        let cur = inv.current i lt in
        let bounds = own_bounds n s i inv lt in
        let at_own : seq ≤ℤ (own (s i)).stable_num =
          below (s i).sst.local_index (rw (inv.index i lt, inv.size i lt) lt) in
        let upto =
          (new_seq_num_greatest (s i).num_members (own (s i)).n_received cur.some_member
            cur.started).0 in
        let top : seq ≤ℤ new_seq_num (s i).num_members (own (s i)).n_received =
          rw (← cur.current) (omega (arith, at_own, bounds.1)) in
        let st : Stored n (own (s i)).n_received (own (s i)).delivered_num ((seq, m) ∷ rest) =
          rw l at w.stored in
        let (c, after, is) =
          head_next n (own (s i)).n_received (own (s i)).delivered_num seq _ m rest
            (rw (inv.size i lt) at cur.some_member) w.started st (rw (inv.size i lt) at upto)
            (rw (inv.size i lt) at top) in
        let here : (my_row (
              put_row
                (write_my (s i).sst (record (own (s i)) { delivered_num = seq })))).delivered_num
            ≡ seq =
          ground arith in
        message c m after (ap (λ t. (my_row t).delivered_num) table ∙ here ∙ is)
          (ap (λ t. (my_row t).n_received) table ∙ ground arith)
          (subst (λ x. x ≤ℤ (own (s i)).stable_num) is at_own)
          (l ∙ rw left (ap (λ x. (x, m) ∷ rest) is))

-- The messages of every member wait as they should.
abbrev pub AllWait : ℕ → System → Type 0
AllWait n s = (i : ℕ) → i < n → Waits n (s i)

-- Every step keeps them so.
pub Step-AllWait :
    (reply_size : Buffer → ℕ → ℕ) (n : ℕ) {s t : System}
    → Step reply_size n s t
    → Inv n s
    → AllWait n s
    → AllWait n t
Step-AllWait reply_size n {s} step inv w = by_step step
  where
    changed : (i : ℕ) (g : Group) → (i < n → Waits n g) → AllWait n (update s i g)
    changed i g new = update_all (λ j h. j < n → Waits n h) s i g new (λ j ne. w j)

    quiet :
        (i : ℕ) (g : Group)
        → g.sst ≡ (s i).sst
        → g.locally_stable_messages ≡ (s i).locally_stable_messages
        → AllWait n (update s i g)
    quiet i g table messages = changed i g (λ lt. Waits-table n (s i) g table messages (w i lt))

    takes : (i : ℕ) (g : Group) → i < n → Took reply_size n (s i) g → Waits n g
    takes i g lt (nothing same) = subst (Waits n) (sym same) (w i lt)
    takes i g lt (message c m after is received below l) = record {
      stored =
          rw (is, received)
            (rest-Stored n (own (s i)).n_received (own (s i)).delivered_num (pos c) m
              g.locally_stable_messages (rw l at (w i lt).stored));
      started = rw is (omega arith);
    }

    by_step : {t : System} → Step reply_size n s t → AllWait n t
    by_step (receives i sender h g lt from e) =
        let size = inv.size i lt in
        let bounds = own_bounds n s i inv lt in
        let r = receive_handler-Received (s i) g sender h (inv.current i lt) e in
        changed i g (λ _. record {
          stored = rw size at (
              receive_handler-Stored (s i) g sender h (inv.current i lt) (rw size from)
                (omega (arith, bounds.0, bounds.1)) (rw size (w i lt).stored) e);
          started = rw r.same_delivered (w i lt).started;
        })
    by_step (stabilises i lt) =
        let o = stability_trig-own (s i) in
        changed i _ (λ _. Waits-same n (s i) _ o.1 o.0 (stability_trig-messages (s i)) (w i lt))
    by_step (delivers i g lt e) =
        changed i g (λ _. takes i g lt (delivery_trig-Took reply_size n s i g inv lt (w i lt) e))
    by_step (sees i j lt lj) =
        let same = see-own n s inv i lt j in
        changed i _ (λ _.
          Waits-same n (s i) _ (ap (λ r. r.n_received) same) (ap (λ r. r.delivered_num) same)
            (see-messages s i j) (w i lt))
    by_step (assigns i sender length b g lt e) =
        quiet i g (receive_destination-finds (s i) g sender length b e).1
          (receive_destination-messages (s i) g sender length b e)
    by_step (takes_position i payload skipped cooked b g lt e) =
        quiet i g (get_position-table (s i) g payload skipped cooked b e).0
          (get_position-messages (s i) g payload skipped cooked b e)
    by_step (sends i sent g lt e) =
        quiet i g (send-table (s i) g sent e).0 (send-messages (s i) g sent e)
    by_step (turns i accepted g lt e) =
        quiet i g (send_loop_turn-table (s i) g accepted e).0
          (send_loop_turn-messages (s i) g accepted e)
