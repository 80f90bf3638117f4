-- ===== src/System/TotalOrder.antt =====
-- The members of a view deliver all messages in one order, without a gap.
use old_derecho.Base.{ℕ, ◌<◌, ◌≡◌, refl, subst, ◌∙◌, some, [], arith}
use old_derecho.Base.Maps.{find}
use old_derecho.Group.{Buffer, Group, own}
use old_derecho.Group.Setup.{initialize_sst_row}
use old_derecho.Group.Stable.{delivery_trig}
use old_derecho.System.{System, IsStart, start, Reach, here, next}
use old_derecho.System.Safety.{
  IsReset, initialize_sst_row-IsReset, initialize_sst_row-same, Reach-Inv,
}
use old_derecho.System.Waiting.{AllWait, Took, Step-AllWait, delivery_trig-Took}

initialize_sst_row-messages :
    (g : Group) → ((initialize_sst_row g).locally_stable_messages ≡ g.locally_stable_messages)
unfolding initialize_sst_row
initialize_sst_row-messages g = refl

-- The groups have just been made: no message waits.
abbrev pub NoneWait : ℕ → System → Type 0
NoneWait n s = (i : ℕ) → i < n → (s i).locally_stable_messages ≡ []

pub start_row :
    (n : ℕ) (s : System) (i : ℕ) → i < n → 0 < n → IsStart n s → IsReset n (own (start s i))
start_row n s i lt h st =
    let same = initialize_sst_row-same (s i) in
    let index : (start s i).sst.local_index ≡ i = same.1 ∙ st.index i lt in
    let reset =
      initialize_sst_row-IsReset (s i) (start s i).sst.local_index (rw (index, st.size i lt) lt) in
    subst (λ m. IsReset m (own (start s i))) (st.size i lt) reset

start-AllWait : (n : ℕ) (s : System) → 0 < n → IsStart n s → NoneWait n s → AllWait n (start s)
unfolding find
start-AllWait n s h st none_wait i lt =
    let row = start_row n s i lt h st in
    let empty : (start s i).locally_stable_messages ≡ [] =
      initialize_sst_row-messages (s i) ∙ none_wait i lt in
    record {
      stored = rw empty (record {
        ordered = tt;
        above = λ key e. absurd (ground arith);
        sound = λ key e. absurd (ground arith);
        complete = λ k j lj le up. absurd (omega (arith, le, (rw (row.received j lj) at le)));
      });
      started = rw row.delivered (omega arith);
    }

-- In every state that the members of a new view reach, the messages that wait for delivery at a
-- member are in the order of their numbers, and they are exactly those that it has received and that
-- are numbered above the last one it delivered.
pub Reach-AllWait :
    (reply_size : Buffer → ℕ → ℕ) (n : ℕ) (s t : System)
    → 0 < n
    → IsStart n s
    → NoneWait n s
    → Reach reply_size n s t
    → AllWait n t
Reach-AllWait reply_size n s t h st empty here = start-AllWait n s h st empty
Reach-AllWait reply_size n s t h st empty (next r step) =
    Step-AllWait reply_size n step (Reach-Inv reply_size n s _ h st r)
      (Reach-AllWait reply_size n s _ h st empty r)

-- In every state that the members of a new view reach, a delivery at a member takes nothing or takes
-- the message whose number follows that of the last one delivered, which heads the waiting messages
-- and is stable: no number is passed over and none is delivered twice.
pub delivers_in_order :
    (reply_size : Buffer → ℕ → ℕ) (n : ℕ) (s t : System) (i : ℕ) (g : Group)
    → 0 < n
    → IsStart n s
    → NoneWait n s
    → Reach reply_size n s t
    → i < n
    → delivery_trig reply_size (t i) ≡ some g
    → Took reply_size n (t i) g
delivers_in_order reply_size n s t i g h st empty r lt e =
    delivery_trig-Took reply_size n t i g (Reach-Inv reply_size n s t h st r) lt
      (Reach-AllWait reply_size n s t h st empty r i lt) e
