-- ===== src/Group/Stable/Next.antt =====
-- Which message a delivery takes: the one whose number follows the last one delivered.
use old_derecho.Base.{
  ℕ, ◌+◌, ◌*◌, ◌/◌, ◌%◌, ◌<◌, ◌≡◌, refl, subst, inl, inr, true, ◌∷◌, is_some, ℤ, pos, negsuc, ◌+ℤ◌,
  ◌≤ℤ◌, ◌<ℤ◌, eqb_ℤ, ltb_ℤ, eqb_ℤ_iff, eq_of_parts, arith, Bool-cases,
}
use native.Mathlib.Nat.{div-add-mod, mod-lt}
use old_derecho.Base.Maps.{Map, Above-IsOrdered, find, find-Above, find-Above_self}
use old_derecho.Group.{Message}
use old_derecho.Group.Order.{count_of, ReceivedUpTo}
use old_derecho.Group.Receive.PutDown.{Stored}

-- Every number is the number of some message of some sender.
number_of : (n c : ℕ) → 0 < n → (k i : ℕ) × (i < n) × (k * n + i ≡ c)
number_of n c h = (c / n, c % n, mod-lt c h, omega (arith, div-add-mod c n))

-- The least number that waits is the next one, if everything up to it has been received.
pub head_next :
    (n : ℕ) (received : ℕ → ℤ) (delivered seq top : ℤ) (m : Message) (rest : Map Message)
    → 0 < n
    → negsuc 0 ≤ℤ delivered
    → Stored n received delivered ((seq, m) ∷ rest)
    → ReceivedUpTo n received top
    → seq ≤ℤ top
    → (c : ℕ) × (delivered +ℤ pos 1 ≡ pos c) × (seq ≡ pos c)
unfolding find
head_next n received delivered seq top m rest h low st upto below =
    let (c, next, parts) = count_of delivered low in
    let self : eqb_ℤ seq seq ≡ true = ground arith in
    let above : delivered <ℤ seq = st.above seq (rw self refl) in
    elim (Bool-cases (ltb_ℤ (pos c) seq)) [
      | inr reached ↦ (c, next, eq_of_parts seq (pos c) (ground (arith, parts, above)))
      | inl gap ↦
          let (k, i, lt, e) = number_of n c h in
          let under : pos c <ℤ seq = ground arith in
          let got : pos k ≤ℤ received i = upto k i lt (rw e (omega (arith, under, below))) in
          let there = st.complete k i lt got (rw e (omega (arith, parts))) in
          let there' : is_some (find (pos c) ((seq, m) ∷ rest)) ≡ true =
            subst (λ x. is_some (find (pos x) ((seq, m) ∷ rest)) ≡ true) e there in
          absurd (ground (arith, find-Above seq (pos c) rest st.ordered under))
    ]

-- After the delivery, the rest waits.
pub rest-Stored :
    (n : ℕ) (received : ℕ → ℤ) (delivered seq : ℤ) (m : Message) (rest : Map Message)
    → Stored n received delivered ((seq, m) ∷ rest)
    → Stored n received seq rest
unfolding find
rest-Stored n received delivered seq m rest st = record {
  ordered = Above-IsOrdered seq rest st.ordered;
  above = λ key h. elim (Bool-cases (ltb_ℤ seq key)) [
    | inl more ↦ ground arith
    | inr less ↦ elim (Bool-cases (eqb_ℤ key seq)) [
      | inl same ↦
          let e : key ≡ seq = (eqb_ℤ_iff key seq).0 same in
          absurd (ground (arith, e, find-Above_self seq rest st.ordered))
      | inr other ↦ absurd (ground (arith, find-Above seq key rest st.ordered (ground arith)))
    ]
  ];
  sound = λ key h. st.sound key (ground (arith, h));
  complete = λ k i lt le up.
      let self : eqb_ℤ seq seq ≡ true = ground arith in
      let old = st.above seq (rw self refl) in
      let all = st.complete k i lt le (omega (arith, old, up)) in ground (arith, all);
}
