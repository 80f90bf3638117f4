-- ===== src/Gms/NextView/Members.antt =====
-- The members of the next view: those of the view in their order, without the one that leaves, or
-- with the one that joins behind them.
use old_derecho.Base.{
  ℕ, suc, ◌+◌, ◌-◌, ◌<◌, ◌≡◌, sym, ap, subst, ◌∙◌, inl, inr, false, Option, none, some,
  if◌then◌else◌, ◌==◌, ltb, get_or, first_below-some, arith, Option-cases,
}
use old_derecho.View.{View, Ip, rank_of, member, has_failed}
use old_derecho.Gms.{ok}
use old_derecho.Gms.NextView.{copy_members, prepare_view, next_view}
use old_derecho.Gms.NextView.Copied.{copy_loop-Copied, prepared_departed, prepared_joined}

-- What an accepted next view takes from the copied one.
accepted :
    (who : Option ℕ) (change : ℕ) (joiner_ip : Ip) (v next : View)
    → rank_of v change ≡ who
    → next_view change joiner_ip v ≡ ok next
    → let base = copy_members who v (prepare_view change joiner_ip v) in
      (next.vid ≡ base.vid)
      × (next.members ≡ base.members)
      × (next.failed ≡ base.failed)
      × (next.num_members ≡ base.num_members)
      × (next.who ≡ some change)
      × (member next next.my_rank ≡ member v v.my_rank)
unfolding next_view rank_of
accepted who change joiner_ip v next at made =
    let base : View = copy_members who v (prepare_view change joiner_ip v) in
    let own = member v v.my_rank in
    elim (Option-cases (rank_of (record base { who = some change }) own)) [
      | inl none_there ↦ absurd (ground arith)
      | inr (r, e) ↦
          let found = first_below-some base.num_members (λ i. member base i == own) r e in
          let whole : record base { who = some change; my_rank = r } ≡ next = ground arith in
          (
            sym (ap (λ x. x.vid) whole),
            sym (ap (λ x. x.members) whole),
            sym (ap (λ x. x.failed) whole),
            sym (ap (λ x. x.num_members) whole),
            sym (ap (λ x. x.who) whole),
            subst (λ x. member x x.my_rank ≡ own) whole (ground (arith, found.1)),
          )
    ]

-- If the change's ID is a member and the next view is made, then it is without the member of that
-- ID at its first rank, and keeps the others, each marked failed or not as before, in their order.
-- It has one member less, the next number and the change's ID, and the own rank shows the own ID.
pub next_view_departed :
    (change : ℕ) (joiner_ip : Ip) (v next : View) (w : ℕ)
    → rank_of v change ≡ some w
    → next_view change joiner_ip v ≡ ok next
    → (next.vid ≡ v.vid + 1)
      × (next.who ≡ some change)
      × (next.num_members + 1 ≡ v.num_members)
      × ((j : ℕ)
          → j < next.num_members
          → (member next j ≡ member v (if ltb j w then j else suc j))
            × (has_failed next j ≡ has_failed v (if ltb j w then j else suc j)))
      × (member next next.my_rank ≡ member v v.my_rank)
unfolding next_view copy_members rank_of
next_view_departed change joiner_ip v next w at made =
    let got = accepted (some w) change joiner_ip v next at made in
    let start = prepare_view change joiner_ip v in
    let inside = (first_below-some v.num_members (λ r. member v r == change) w at).0 in
    let ready = prepared_departed change joiner_ip v w at in
    let copied =
      copy_loop-Copied (some w) v start (v.num_members - 1) v.num_members (ground arith) ready.0 in
    (
      got.0 ∙ copied.4 ∙ ready.1,
      got.4,
      omega (arith, got.3, copied.1.2),
      λ j lt.
          let old = copied.2 j (ground (arith, got.3, copied.1.2, copied.0)) in
          (ap (λ xs. get_or xs j 0) got.1 ∙ old.0, ap (λ xs. get_or xs j false) got.2 ∙ old.1),
      got.5,
    )

-- If the change's ID is not a member and the next view is made, then it has every member of the
-- view at its rank, marked failed or not as before, and behind them the joined one, not failed. It
-- has the next number and the change's ID, and the own rank shows the own ID.
pub next_view_joined :
    (change : ℕ) (joiner_ip : Ip) (v next : View)
    → rank_of v change ≡ none
    → next_view change joiner_ip v ≡ ok next
    → (next.vid ≡ v.vid + 1)
      × (next.who ≡ some change)
      × (next.num_members ≡ v.num_members + 1)
      × ((j : ℕ)
          → j < v.num_members
          → (member next j ≡ member v j) × (has_failed next j ≡ has_failed v j))
      × (member next v.num_members ≡ change)
      × (has_failed next v.num_members ≡ false)
      × (member next next.my_rank ≡ member v v.my_rank)
unfolding next_view copy_members rank_of
next_view_joined change joiner_ip v next at made =
    let got = accepted none change joiner_ip v next at made in
    let start = prepare_view change joiner_ip v in
    let ready = prepared_joined change joiner_ip v at in
    let n = v.num_members in
    let copied = copy_loop-Copied none v start (n + 1) n (omega arith) ready.0 in
    let last = copied.3 n (omega (arith, copied.0)) in
    (
      got.0 ∙ copied.4 ∙ ready.1,
      got.4,
      got.3 ∙ copied.1.2,
      λ j lt.
          let old = copied.2 j (omega (arith, copied.0)) in
          (ap (λ xs. get_or xs j 0) got.1 ∙ old.0, ap (λ xs. get_or xs j false) got.2 ∙ old.1),
      ap (λ xs. get_or xs n 0) got.1 ∙ last.0 ∙ ready.2,
      ap (λ xs. get_or xs n false) got.2 ∙ last.1 ∙ ready.3,
      got.5,
    )
