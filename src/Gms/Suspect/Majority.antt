-- ===== src/Gms/Suspect/Majority.antt =====
-- A member that keeps running after a suspicion is in a view whose majority has not failed.
use old_derecho.Base.{
  ℕ, zero, suc, ◌≤◌, ◌<◌, ◌≡◌, refl, sym, ap, subst, ◌∙◌, inl, inr, Bool, true, false, List, [],
  ◌∷◌, ◌==◌, set, get_or, length, length-set, get_or-set_self, arith, Bool-cases,
}
use old_derecho.View.{View, has_failed}
use old_derecho.Gms.{assert_rank-eq-ok, Node, ok, >>=-eq-ok, for_below_result, sst, mine, with_sst}
use old_derecho.Gms.Suspect.{
  copy_suspected, aggregate, too_many_failed, mark_failed, suspected_changed_trig,
}
use old_derecho.Gms.Suspect.Aggregate.{aggregate-taken, aggregate-kept}
use old_derecho.Gms.Suspect.Marked.{
  HasMajority, IsCounted, count-set, Marked, mark_failed-Marked, kept, marked,
}

-- What the loop has kept after n rounds, from `s`.
record Survived (s : Node) (n : ℕ) (s' : Node) : Type 0 where
  members : s'.view.members ≡ s.view.members
  size : s'.view.num_members ≡ s.view.num_members
  rank : s'.view.my_rank ≡ s.view.my_rank
  suspicions : (mine s').suspected ≡ (mine s).suspected
  counted : IsCounted s'.view
  majority : HasMajority s'.view
  monotone : (i : ℕ) → has_failed s.view i ≡ true → has_failed s'.view i ≡ true
  marked_below : (i : ℕ) → i < n → (mine s).suspected i ≡ true → has_failed s'.view i ≡ true

majority_of : (v : View) → too_many_failed v ≡ false → HasMajority v
majority_of v h = ground arith

set-true :
    (i n : ℕ) (xs : List Bool) → get_or xs i false ≡ true → get_or (set xs n true) i false ≡ true
set-true i n [] h = h
set-true zero zero (x ∷ xs) h = refl
set-true zero (suc n) (x ∷ xs) h = h
set-true (suc i) zero (x ∷ xs) h = h
set-true (suc i) (suc n) (x ∷ xs) h = set-true i n xs h

Marked-Survived :
    (s s1 s2 : Node) (n : ℕ)
    → n < s.view.num_members
    → Survived s n s1
    → Marked n s1 s2
    → Survived s (suc n) s2
Marked-Survived s s1 s2 n lt v (kept why same) = subst (Survived s (suc n)) (sym same) (record {
  members = v.members;
  size = v.size;
  rank = v.rank;
  suspicions = v.suspicions;
  counted = v.counted;
  majority = v.majority;
  monotone = v.monotone;
  marked_below = λ i below h. elim (Bool-cases (i == n)) [
    | inl e ↦
        let at : i ≡ n = ground arith in
        let here : (mine s1).suspected n ≡ true =
          ap (λ f. f n) v.suspicions ∙ subst (λ k. (mine s).suspected k ≡ true) at h in
        subst (λ k. has_failed s1.view k ≡ true) (sym at)
          (elim why [ inl no_suspicion ↦ absurd (ground arith) | inr failed ↦ failed ])
    | inr ne ↦ v.marked_below i (ground arith) h
  ];
})
Marked-Survived s s1 s2 n lt v (marked fresh view few susp) =
    let room : n < length s1.view.failed = rw v.counted.sized (rw v.size lt) in
    let still = λ (i : ℕ) (h : has_failed s1.view i ≡ true). set-true i n s1.view.failed h in
    record {
      members = ap (λ w. w.members) view ∙ v.members;
      size = ap (λ w. w.num_members) view ∙ v.size;
      rank = ap (λ w. w.my_rank) view ∙ v.rank;
      suspicions = susp ∙ v.suspicions;
      counted = rw view (record {
        sized = length-set s1.view.failed n true ∙ v.counted.sized;
        exact =
            count-set s1.view.num_members s1.view.failed n room fresh
            ∙ ground (arith, v.counted.exact, v.size);
      });
      majority = majority_of s2.view few;
      monotone = λ i h. rw view (still i (v.monotone i h));
      marked_below = λ i below h. elim (Bool-cases (i == n)) [
        | inl e ↦
            let at : i ≡ n = ground arith in
            rw (view, at) (get_or-set_self s1.view.failed n true false room)
        | inr ne ↦ rw view (still i (v.marked_below i (ground arith) h))
      ];
    }

loop-Survived :
    (max n : ℕ) (s s' : Node)
    → n ≤ s.view.num_members
    → IsCounted s.view
    → HasMajority s.view
    → for_below_result n (mark_failed max) s ≡ ok s'
    → Survived s n s'
unfolding for_below_result
loop-Survived max zero s s' le c m e =
    let same : s ≡ s' = ground arith in
    subst (Survived s zero) same (record {
      members = refl;
      size = refl;
      rank = refl;
      suspicions = refl;
      counted = c;
      majority = m;
      monotone = λ i h. h;
      marked_below = λ i below h. absurd (omega arith);
    })
loop-Survived max (suc n) s s' le c m e =
    let (s1, before, last) =
      >>=-eq-ok (for_below_result n (mark_failed max) s) (mark_failed max n) s' e in
    Marked-Survived s s1 s' n le (loop-Survived max n s s1 (omega arith) c m before)
      (mark_failed-Marked max n s1 s' last)

-- A member that handles a change of suspicions without an exception has marked every member of the
-- view that its own row or the row of any member of the view suspects; it has unmarked nobody, has
-- counted each failure once, and more members of its view run than have failed.
pub suspected_changed_trig_majority :
    (max : ℕ) (s s' : Node)
    → IsCounted s.view
    → HasMajority s.view
    → suspected_changed_trig max s ≡ ok s'
    → HasMajority s'.view
      × IsCounted s'.view
      × (s'.view.members ≡ s.view.members)
      × ((i : ℕ) → has_failed s.view i ≡ true → has_failed s'.view i ≡ true)
      × ((r i : ℕ)
          → r < s.view.num_members
          → i < s.view.num_members
          → ((sst s).rows r).suspected i ≡ true
          → has_failed s'.view i ≡ true)
      × ((i : ℕ)
          → i < s.view.num_members
          → (mine s).suspected i ≡ true
          → has_failed s'.view i ≡ true)
unfolding suspected_changed_trig
suspected_changed_trig_majority max s s' c m e =
    let n = s.view.num_members in
    let start = with_sst s (aggregate n (sst s)) in
    let (s2, loop, last) =
      >>=-eq-ok (for_below_result n (mark_failed max) start)
        (λ s2. ok (record s2 { last_suspected = copy_suspected (sst s2) s2.last_suspected })) s'
        (assert_rank-eq-ok s _ s' e) in
    let v = loop-Survived max n start s2 (omega arith) c m loop in
    let same : s2.view ≡ s'.view = ground arith in
    (
      subst HasMajority same v.majority,
      subst IsCounted same v.counted,
      ap (λ w. w.members) (sym same) ∙ v.members,
      λ i h. subst (λ w. has_failed w i ≡ true) same (v.monotone i h),
      λ r i lr li h.
          subst (λ w. has_failed w i ≡ true) same
            (v.marked_below i li (aggregate-taken n (sst s) r i lr li h)),
      λ i li h.
          subst (λ w. has_failed w i ≡ true) same
            (v.marked_below i li (aggregate-kept n (sst s) i h)),
    )
