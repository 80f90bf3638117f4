-- ===== src/Group/Receive/PutDown.antt =====
-- The messages that wait, and one more message that is put down among them (derecho_group_impl.h).
use old_derecho.Base.{
  ℕ, ◌+◌, ◌*◌, ◌<◌, ◌≡◌, sym, subst, inl, inr, true, ◌||◌, ◌==◌, update, is_some, ℤ, pos, ◌+ℤ◌,
  ◌≤ℤ◌, ◌<ℤ◌, eqb_ℤ, eqb_ℤ_iff, arith, ==_refl, pos_part, neg_part, +ℤ_parts, dec_lt, Bool-cases,
}
use old_derecho.Base.Maps.{Map, find, IsOrdered}
use old_derecho.Group.{Message, Group, own, sequence_number}
use old_derecho.Group.Order.{numbered}
use old_derecho.Group.Receive.{count_received}

-- For n senders with the counters `received`, and the last number delivered: the keys rise, and they
-- are the numbers of exactly the messages that were received and are above the last one delivered.
pub record Stored (n : ℕ) (received : ℕ → ℤ) (delivered : ℤ) (l : Map Message) : Type 0 where
  pub ordered : IsOrdered l
  pub above : (key : ℤ) → is_some (find key l) ≡ true → delivered <ℤ key
  pub sound :
      (key : ℤ)
      → is_some (find key l) ≡ true
      → (k i : ℕ) × (i < n) × (key ≡ pos (k * n + i)) × (pos k ≤ℤ received i)
  pub complete :
      (k i : ℕ)
      → i < n
      → pos k ≤ℤ received i
      → delivered <ℤ pos (k * n + i)
      → is_some (find (pos (k * n + i)) l) ≡ true

pub counter_parts : (a : ℤ) (c : ℕ) → a +ℤ pos 1 ≡ pos c → pos_part a + 1 ≡ c + neg_part a
counter_parts a c e = let parts = +ℤ_parts a (pos 1) in omega (arith, (rw e at parts))

received_grows :
    (received : ℕ → ℤ) (sender i k : ℕ)
    → pos k ≤ℤ received i
    → pos k ≤ℤ update received sender (received sender +ℤ pos 1) i
received_grows received sender i k le = elim (Bool-cases (sender == i)) [
  | inl here ↦
      let same : sender ≡ i = ground arith in
      let old : pos k ≤ℤ received sender = subst (λ j. pos k ≤ℤ received j) (sym same) le in
      rw here (omega (arith, old, +ℤ_parts (received sender) (pos 1)))
  | inr there ↦ rw there le
]

-- The next message of a sender is put down under its number.
put_down :
    (n : ℕ) (received : ℕ → ℤ) (delivered : ℤ) (l l' : Map Message) (sender c : ℕ)
    → sender < n
    → received sender +ℤ pos 1 ≡ pos c
    → delivered <ℤ pos (c * n + sender)
    → IsOrdered l'
    → ((key : ℤ)
        → is_some (find key l') ≡ (eqb_ℤ (pos (c * n + sender)) key || is_some (find key l)))
    → Stored n received delivered l
    → Stored n (update received sender (received sender +ℤ pos 1)) delivered l'
put_down n received delivered l l' sender c lt e up ord has st = record {
  ordered = ord;
  above = λ key h. elim (Bool-cases (eqb_ℤ (pos (c * n + sender)) key)) [
    | inl same ↦ ground arith
    | inr other ↦ st.above key (ground (arith, has key))
  ];
  sound = λ key h. elim (Bool-cases (eqb_ℤ (pos (c * n + sender)) key)) [
    | inl same ↦ (
      c,
      sender,
      lt,
      sym ((eqb_ℤ_iff (pos (c * n + sender)) key).0 same),
      rw (==_refl sender, e) (omega arith),
    )
    | inr other ↦
        let (k, i, li, is, le) = st.sound key (ground (arith, has key)) in
        (k, i, li, is, received_grows received sender i k le)
  ];
  complete = λ k i li le above. elim (Bool-cases (sender == i)) [
    | inl here ↦
        let same : sender ≡ i = ground arith in
        let reached : pos k ≤ℤ pos c = rw (here, e) at le in
        elim (dec_lt k c) [
          | yes before ↦
              let parts = counter_parts (received sender) c e in
              let old : pos k ≤ℤ received i =
                subst (λ j. pos k ≤ℤ received j) same (omega (arith, parts, before)) in
              let there = st.complete k i li old above in
              rw (has (pos (k * n + i)), there) (ground arith)
          | no after ↦
              let equal : k ≡ c = omega arith in
              let key : pos (c * n + sender) ≡ pos (k * n + i) = rw (same, equal) in
              rw (← key) (rw (has (pos (c * n + sender))) (ground arith))
        ]
    | inr there ↦ ground (arith, has (pos (k * n + i)), st.complete k i li)
  ];
}

-- The messages of a group that wait.
abbrev pub StoredIn : ℕ → Group → Type 0
StoredIn n g = Stored n (own g).n_received (own g).delivered_num g.locally_stable_messages

-- The number that comes next for a sender whose counter has started.
pub next_number_of :
    (g : Group) (sender c : ℕ)
    → (own g).n_received sender +ℤ pos 1 ≡ pos c
    → sequence_number
        (count_received g sender)
        ((own (count_received g sender)).n_received sender)
        sender
      ≡ pos (c * g.num_members + sender)
unfolding count_received
next_number_of g sender c e =
    rw (==_refl g.sst.local_index, ==_refl sender, e) (numbered c g.num_members sender)

-- The counter of the sender goes up, and its message is put down in `l`.
pub counted_put_down :
    (g : Group) (sender c : ℕ) (l : Map Message)
    → sender < g.num_members
    → (own g).n_received sender +ℤ pos 1 ≡ pos c
    → (own g).delivered_num <ℤ pos (c * g.num_members + sender)
    → StoredIn g.num_members g
    → IsOrdered l
    → ((key : ℤ)
        → is_some (find key l) ≡ (
            eqb_ℤ (pos (c * g.num_members + sender)) key
            || is_some (find key g.locally_stable_messages)))
    → StoredIn g.num_members (record (count_received g sender) { locally_stable_messages = l })
unfolding count_received
counted_put_down g sender c l lt e up st ord has = rw (==_refl g.sst.local_index) (
    put_down g.num_members (own g).n_received (own g).delivered_num g.locally_stable_messages l
      sender c lt e up ord has st)
