-- ===== src/System/Steps.antt =====
-- Every handler keeps the invariant of the members' counters.
use old_derecho.Base.{
  ℕ, ◌<◌, ◌≡◌, sym, ap, subst, ◌∙◌, inl, inr, some, ◌==◌, update, arith, Bool-cases, ℤ, ◌≤ℤ◌,
  ≤ℤ_trans,
}
use old_derecho.Row.{Row}
use old_derecho.Sst.{Sst, my_row, write_my, put_row}
use old_derecho.Group.{Header, Buffer, Group, own}
use old_derecho.Group.Receive.{receive_handler}
use old_derecho.Group.Receive.Count.{receive_handler-Received}
use old_derecho.Group.Receive.Arrival.{receive_destination-finds}
use old_derecho.Group.Stable.{stability_trig, delivery_trig}
use old_derecho.Group.Stable.Trigger.{Rises, stability_trig-Rises, stability_trig-own}
use old_derecho.Group.Stable.Delivery.{Delivered, idle, one, delivery_trig-Delivered}
use old_derecho.Group.Send.Window.{get_position-table, send-table, send_loop_turn-table}
use old_derecho.System.{
  System, Step, receives, stabilises, delivers, sees, assigns, takes_position, sends, turns,
}
use old_derecho.System.Invariant.{Inv, Local-step, quiet_step, see_step}

-- No row falls in a counter that does not fall in the own row.
rows_rise :
    (f : Row → ℤ) (g h : Group)
    → Rises g h
    → f (own g) ≤ℤ f (own h)
    → (k : ℕ) → f (g.sst.rows k) ≤ℤ f (h.sst.rows k)
rows_rise f g h r rise k = elim (Bool-cases (k == g.sst.local_index)) [
  | inl e ↦
      let here : k ≡ g.sst.local_index = ground arith in
      let there : k ≡ h.sst.local_index = here ∙ sym r.same_index in
      subst (λ x. f (g.sst.rows k) ≤ℤ f (h.sst.rows x)) (sym there)
        (subst (λ x. f (g.sst.rows x) ≤ℤ f (own h)) (sym here) rise)
  | inr ne ↦ rw (r.others k (ground arith)) (omega arith)
]

module _ (n : ℕ) (s : System) (inv : Inv n s) (i : ℕ) (lt : i < n) where
  receives_step :
      (sender : ℕ) (h : Header) (g : Group)
      → receive_handler (s i) sender h ≡ some g
      → Inv n (update s i g)
  receives_step sender h g e =
      let r = receive_handler-Received (s i) g sender h (inv.current i lt) e in
      let up : Rises (s i) g = record {
        same_size = r.same_size;
        same_index = r.same_index;
        others = r.other_rows;
        seq_rises = r.rises;
        stable_rises = rw r.same_stable (omega arith);
      } in
      Local-step n s inv i lt g up (record {
        current = r.current;
        stable = λ k lk. rw r.same_stable (
            ≤ℤ_trans (own (s i)).stable_num ((s i).sst.rows k).seq_num (g.sst.rows k).seq_num
              (inv.stable i k lt lk) (rows_rise (λ x. x.seq_num) (s i) g up up.seq_rises k));
        delivered = λ k lk. rw r.same_delivered (
            ≤ℤ_trans (own (s i)).delivered_num ((s i).sst.rows k).stable_num
              (g.sst.rows k).stable_num (inv.delivered i k lt lk)
              (rows_rise (λ x. x.stable_num) (s i) g up up.stable_rises k));
      })

  stabilises_step : Inv n (update s i (stability_trig (s i)))
  stabilises_step =
      let g = stability_trig (s i) in
      let up = stability_trig-Rises (s i) in
      let o = stability_trig-own (s i) in
      Local-step n s inv i lt g up (record {
        current = record {
          some_member = rw up.same_size (inv.current i lt).some_member;
          started = λ j lj. rw o.1 ((inv.current i lt).started j (rw up.same_size at lj));
          current = rw (o.2, up.same_size, o.1) (inv.current i lt).current;
        };
        stable = λ k lk.
            let rise = rows_rise (λ x. x.seq_num) (s i) g up up.seq_rises k in
            elim o.3 [
              | inl same ↦ rw same (
                  ≤ℤ_trans (own (s i)).stable_num ((s i).sst.rows k).seq_num (g.sst.rows k).seq_num
                    (inv.stable i k lt lk) rise)
              | inr below ↦
                  ≤ℤ_trans (own g).stable_num ((s i).sst.rows k).seq_num (g.sst.rows k).seq_num
                    (below k (rw (inv.size i lt) lk)) rise
            ];
        delivered = λ k lk. rw o.0 (
            ≤ℤ_trans (own (s i)).delivered_num ((s i).sst.rows k).stable_num
              (g.sst.rows k).stable_num (inv.delivered i k lt lk)
              (rows_rise (λ x. x.stable_num) (s i) g up up.stable_rises k));
      })

  -- The table after a delivery of number `seq`.
  abbrev delivered_table : ℤ → Sst
  delivered_table seq = put_row (write_my (s i).sst (record (own (s i)) { delivered_num = seq }))

  delivery_step :
      (seq : ℤ) (g : Group)
      → ((k : ℕ) → k < (s i).num_members → seq ≤ℤ ((s i).sst.rows k).stable_num)
      → g.num_members ≡ (s i).num_members
      → g.sst ≡ delivered_table seq
      → Inv n (update s i g)
  delivery_step seq g below size table =
      let seq_same : (own g).seq_num ≡ (own (s i)).seq_num =
        ap (λ t. (my_row t).seq_num) table ∙ ground arith in
      let stable_same : (own g).stable_num ≡ (own (s i)).stable_num =
        ap (λ t. (my_row t).stable_num) table ∙ ground arith in
      let received_same : (own g).n_received ≡ (own (s i)).n_received =
        ap (λ t. (my_row t).n_received) table ∙ ground arith in
      let delivered_is : (own g).delivered_num ≡ seq =
        ap (λ t. (my_row t).delivered_num) table ∙ ground arith in
      let up : Rises (s i) g = record {
        same_size = size;
        same_index = ap (λ t. t.local_index) table;
        others = λ k ne. ap (λ t. t.rows k) table ∙ ground arith;
        seq_rises = rw seq_same (omega arith);
        stable_rises = rw stable_same (omega arith);
      } in
      Local-step n s inv i lt g up (record {
        current = record {
          some_member = rw size (inv.current i lt).some_member;
          started = λ j lj. rw received_same ((inv.current i lt).started j (rw size at lj));
          current = rw (seq_same, size, received_same) (inv.current i lt).current;
        };
        stable = λ k lk. rw stable_same (
            ≤ℤ_trans (own (s i)).stable_num ((s i).sst.rows k).seq_num (g.sst.rows k).seq_num
              (inv.stable i k lt lk) (rows_rise (λ x. x.seq_num) (s i) g up up.seq_rises k));
        delivered = λ k lk. rw delivered_is (
            ≤ℤ_trans seq ((s i).sst.rows k).stable_num (g.sst.rows k).stable_num
              (below k (rw (inv.size i lt) lk))
              (rows_rise (λ x. x.stable_num) (s i) g up up.stable_rises k));
      })

  delivers_step :
      (reply_size : Buffer → ℕ → ℕ) (g : Group)
      → delivery_trig reply_size (s i) ≡ some g
      → Inv n (update s i g)
  delivers_step reply_size g e =
      by_case (delivery_trig-Delivered reply_size (s i) g (inv.current i lt).some_member e)
    where
      by_case : Delivered reply_size (s i) g → Inv n (update s i g)
      by_case (idle why same) =
          quiet_step n s inv i lt g (ap (λ k. k.sst) same) (ap (λ k. k.num_members) same)
      by_case (one seq m rest h l below done left size table whole upcall least) =
          delivery_step seq g below size table

-- Every step of the members keeps the invariant.
pub Step-Inv :
    (reply_size : Buffer → ℕ → ℕ) (n : ℕ) {s t : System} → Step reply_size n s t → Inv n s → Inv n t
Step-Inv reply_size n {s} (receives i sender h g lt from e) inv =
    receives_step n s inv i lt sender h g e
Step-Inv reply_size n {s} (stabilises i lt) inv = stabilises_step n s inv i lt
Step-Inv reply_size n {s} (delivers i g lt e) inv = delivers_step n s inv i lt reply_size g e
Step-Inv reply_size n {s} (sees i j lt lj) inv = see_step n s inv i lt j
Step-Inv reply_size n {s} (assigns i sender length b g lt e) inv =
    let f = receive_destination-finds (s i) g sender length b e in quiet_step n s inv i lt g f.1 f.2
Step-Inv reply_size n {s} (takes_position i payload skipped cooked b g lt e) inv =
    let f = get_position-table (s i) g payload skipped cooked b e in
    quiet_step n s inv i lt g f.0 f.1
Step-Inv reply_size n {s} (sends i sent g lt e) inv =
    let f = send-table (s i) g sent e in quiet_step n s inv i lt g f.0 f.1
Step-Inv reply_size n {s} (turns i accepted g lt e) inv =
    let f = send_loop_turn-table (s i) g accepted e in quiet_step n s inv i lt g f.0 f.1
