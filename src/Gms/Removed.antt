-- ===== src/Gms/Removed.antt =====
-- The view upcall that both constructors of ManagedGroup register (managed_group_impl.h): members that
-- are gone with the old view answer no query any more. std::set_difference is a merge of two ranges
-- that must be sorted.
use old_derecho.Base.{
  ℕ, ◌<◌, ◌≡◌, refl, ◌∙◌, true, false, not, ◌&&◌, List, [], ◌∷◌, if◌then◌else◌, ltb, arith,
}
use old_derecho.Rpc.Pending.{Pending, Result, ok, ◌>>=◌, contains, set_exceptions_for_removed_nodes}
use old_derecho.Rpc.Pending.Laws.{is_set, IsTracked, remove_nodes_lem}
use old_derecho.Group.{Group}

-- The place `a` of the first range against the second one; `rest` goes on behind `a`.
unfoldable pub difference_from : ℕ → (List ℕ → List ℕ) → List ℕ → List ℕ
difference_from a rest [] = a ∷ rest []
difference_from a rest (b ∷ bs) =
    let behind = difference_from a rest bs in
    if ltb a b then a ∷ rest (b ∷ bs) else if ltb b a then behind else rest bs

-- std::set_difference
unfoldable pub set_difference : List ℕ → List ℕ → List ℕ
unfolding difference_from
set_difference [] new = []
set_difference (a ∷ others) new = difference_from a (set_difference others) new

-- The upcall, on the group of the new view
unfoldable pub removed_upcall : List ℕ → List ℕ → Group → Result Group
unfolding set_difference set_exceptions_for_removed_nodes
removed_upcall new_members old_members g = do
  list ← set_exceptions_for_removed_nodes (set_difference old_members new_members) g.fulfilled_list
  ok (record g { fulfilled_list = list })

abbrev pub AllAbove : ℕ → List ℕ → Type 0
AllAbove a [] = Unit {0}
AllAbove a (b ∷ bs) = (a < b) × AllAbove a bs

-- IDs rise.
abbrev pub IsSorted : List ℕ → Type 0
IsSorted [] = Unit {0}
IsSorted (a ∷ others) = AllAbove a others × IsSorted others

contains-AllAbove :
    (a n : ℕ) (others : List ℕ) → AllAbove a others → contains others n ≡ true → a < n
unfolding contains
contains-AllAbove a n [] h e = absurd (ground arith)
contains-AllAbove a n (b ∷ bs) h e = ground (arith, contains-AllAbove a n bs h.1)

contains-difference_from :
    (a n : ℕ) (others bs : List ℕ)
    → ((new : List ℕ)
        → IsSorted new
        → contains (set_difference others new) n ≡ (contains others n && not (contains new n)))
    → AllAbove a others
    → IsSorted bs
    → contains (difference_from a (set_difference others) bs) n
      ≡ (contains (a ∷ others) n && not (contains bs n))
unfolding contains difference_from
contains-difference_from a n others [] rest h s = ground (arith, rest [] tt)
contains-difference_from a n others (b ∷ bs) rest h s =
    let ih = contains-difference_from a n others bs rest h s.1 in
    let above_a = contains-AllAbove a n others h in
    let above_b = contains-AllAbove b n bs s.0 in
    ground (arith, rest (b ∷ bs) s, rest bs s.1, ih, above_a, above_b)

contains-set_difference :
    (old new : List ℕ) (n : ℕ)
    → IsSorted old
    → IsSorted new
    → contains (set_difference old new) n ≡ (contains old n && not (contains new n))
unfolding set_difference contains
contains-set_difference [] new n h s = refl
contains-set_difference (a ∷ others) new n h s =
    contains-difference_from a n others new
      (λ other t. contains-set_difference others other n h.1 t) h.0 s

-- The queries of the list are known to which nodes they went, and their bookkeeping is exact.
abbrev pub AllReady : List (Pending (List ℕ)) → Type 0
AllReady [] = Unit {0}
AllReady (p ∷ ps) = IsTracked p × (p.map_fulfilled ≡ true) × AllReady ps

-- No query of the list waits for node n.
abbrev pub NoneWaitsFor : ℕ → List (Pending (List ℕ)) → Type 0
NoneWaitsFor n [] = Unit {0}
NoneWaitsFor n (p ∷ ps) =
    (contains p.dest_nodes n ≡ true → is_set (p.promises n) ≡ true) × NoneWaitsFor n ps

exceptions_set :
    (removed : List ℕ) (ps : List (Pending (List ℕ)))
    → AllReady ps
    → (qs : List (Pending (List ℕ))) × (set_exceptions_for_removed_nodes removed ps ≡ ok qs)
      × AllReady qs
      × ((n : ℕ) → contains removed n ≡ true → NoneWaitsFor n qs)
unfolding set_exceptions_for_removed_nodes
exceptions_set removed [] h = ([], refl, tt, λ n e. tt)
exceptions_set removed (p ∷ ps) h =
    let (q, done, answered, kept) = remove_nodes_lem removed p h.0 h.1 in
    let (qs, rest, ready, none_waits) = exceptions_set removed ps h.2 in
    (
      q ∷ qs,
      rw (done, rest) refl,
      (kept.tracked, kept.fulfilled, ready),
      λ n e. (λ d. answered n e (rw kept.dest at d), none_waits n e),
    )

-- After the upcall of a view change, no query of the group waits for a member of the old view that is
-- not in the new one, and the upcall passes its assertions. The queries must be fulfilled, and both
-- lists of members must be sorted, as std::set_difference demands.
pub removed_upcall_lem :
    (new_members old_members : List ℕ) (g : Group)
    → IsSorted old_members
    → IsSorted new_members
    → AllReady g.fulfilled_list
    → (h : Group) × (removed_upcall new_members old_members g ≡ ok h)
      × AllReady h.fulfilled_list
      × ((n : ℕ)
          → contains old_members n ≡ true
          → contains new_members n ≡ false
          → NoneWaitsFor n h.fulfilled_list)
unfolding removed_upcall
removed_upcall_lem new_members old_members g sorted sorted' ready =
    let (qs, done, ready', answered) =
      exceptions_set (set_difference old_members new_members) g.fulfilled_list ready in
    (
      record g { fulfilled_list = qs },
      rw done refl,
      ready',
      λ n was gone.
          answered n (
            contains-set_difference old_members new_members n sorted sorted' ∙ rw (was, gone) refl),
    )

-- With members that are not sorted, one that stays can be taken for one that is gone.
unsorted : set_difference (0 ∷ 2 ∷ 1 ∷ []) (0 ∷ 1 ∷ []) ≡ 2 ∷ 1 ∷ []
unfolding set_difference
unsorted = refl
