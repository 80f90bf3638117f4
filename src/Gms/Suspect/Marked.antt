-- ===== src/Gms/Suspect/Marked.antt =====
-- What one round of the loop over the suspected members does to the view.
use old_derecho.Base.{
  ℕ, zero, suc, ◌+◌, ◌*◌, ◌<◌, ◌≡◌, refl, ap, ◌∙◌, ◌⊎◌, inl, inr, Bool, true, false, not, ◌&&◌,
  ◌||◌, List, if◌then◌else◌, ◌==◌, ltb, set, get_or, length, get_or-set_self, get_or-set_ne,
  for_below, arith, Bool-cases, count_below,
}
use mathlib.Core.Path.{ap₂}
use old_derecho.Sst.{call, freeze, put_row}
use old_derecho.Group.{Group, own}
use old_derecho.Group.Setup.{wedge, destroy_groups}
use old_derecho.View.{View, has_failed}
use old_derecho.Gms.{Node, ok, sst, mine, with_sst}
use old_derecho.Gms.Suspect.{too_many_failed, freeze_member, propose_removal, mark_failed}

-- More members of the view run than have failed.
abbrev pub HasMajority : View → Type 0
HasMajority v = 2 * v.n_failed < v.num_members

-- As many ranks have failed as `n_failed` says, and the vector has a cell for each.
pub record IsCounted (v : View) : Type 0 where
  pub sized : length v.failed ≡ v.num_members
  pub exact : count_below v.num_members (has_failed v) ≡ v.n_failed

destroy_groups-sst : (n : ℕ) (g : Group) → (destroy_groups n g).sst ≡ g.sst
unfolding destroy_groups for_below
destroy_groups-sst zero g = refl
destroy_groups-sst (suc n) g = destroy_groups-sst n g

-- Wedging a group leaves the rows of the table.
pub wedge-rows :
    (g : Group)
    → ((wedge g).sst.rows ≡ g.sst.rows) × ((wedge g).sst.local_index ≡ g.sst.local_index)
unfolding wedge
wedge-rows g = elim (Bool-cases g.thread_shutdown) [
  | inl e ↦ rw e (refl, refl)
  | inr e ↦ rw e (
    ap (λ t. t.rows) (destroy_groups-sst g.num_members _),
    ap (λ t. t.local_index) (destroy_groups-sst g.num_members _),
  )
]

pub wedge-own : (g : Group) → own (wedge g) ≡ own g
wedge-own g = let p = wedge-rows g in ap₂ (λ f k. f k) p.0 p.1

pub count-set :
    (n : ℕ) (xs : List Bool) (q : ℕ)
    → q < length xs
    → get_or xs q false ≡ false
    → count_below n (λ i. get_or (set xs q true) i false) ≡ (
        if ltb q n
        then count_below n (λ i. get_or xs i false) + 1
        else count_below n (λ i. get_or xs i false))
unfolding count_below
count-set zero xs q lt fresh = ground arith
count-set (suc n) xs q lt fresh = elim (Bool-cases (q == n)) [
  | inl e ↦
      let same : q ≡ n = ground arith in
      ground (arith, count-set n xs q lt fresh, get_or-set_self xs q true false lt)
  | inr ne ↦
      ground (arith, count-set n xs q lt fresh, get_or-set_ne xs q n true false (ground arith))
]

propose_removal-view :
    (max q : ℕ) (s s' : Node)
    → propose_removal max q s ≡ ok s'
    → (s'.view ≡ s.view) × ((mine s').suspected ≡ (mine s).suspected)
unfolding propose_removal
propose_removal-view max q s s' e = ground arith

freeze_member-view :
    (q : ℕ) (s : Node)
    → ((freeze_member q s).view
        ≡ record s.view { failed = set s.view.failed q true; n_failed = s.view.n_failed + 1 })
      × ((mine (freeze_member q s)).suspected ≡ (mine s).suspected)
unfolding freeze_member
freeze_member-view q s =
    let frozen = record s.group { sst = call s.group.sst (freeze q) } in
    (refl, ground (arith, ap (λ r. r.suspected) (wedge-own frozen)))

-- What one round of the loop over the members does to the view, if it does not throw.
pub data Marked (q : ℕ) (s s' : Node) : Type 0 where
  kept : ((mine s).suspected q ≡ false) ⊎ (has_failed s.view q ≡ true) → s' ≡ s → Marked q s s'
  marked :
      has_failed s.view q ≡ false
      → s'.view
        ≡ record s.view { failed = set s.view.failed q true; n_failed = s.view.n_failed + 1 }
      → too_many_failed s'.view ≡ false
      → (mine s').suspected ≡ (mine s).suspected
      → Marked q s s'

pub mark_failed-Marked : (max q : ℕ) (s s' : Node) → mark_failed max q s ≡ ok s' → Marked q s s'
unfolding mark_failed
mark_failed-Marked max q s s' e =
    let f = freeze_member q s in
    elim (Bool-cases ((mine s).suspected q && not (has_failed s.view q))) [
      | inr quiet ↦ kept (ground arith) (ground arith)
      | inl found ↦ elim (Bool-cases (too_many_failed s.view || too_many_failed f.view)) [
        | inl many ↦ absurd (ground arith)
        | inr few ↦
            let proposed : propose_removal max q (with_sst f (put_row (sst f))) ≡ ok s' =
              ground arith in
            let p = propose_removal-view max q (with_sst f (put_row (sst f))) s' proposed in
            let v = freeze_member-view q s in
            let same : s'.view ≡ f.view = p.0 in
            marked (ground arith) (same ∙ v.0) (rw same (ground arith)) (p.1 ∙ v.1)
      ]
    ]
