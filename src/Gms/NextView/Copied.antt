-- ===== src/Gms/NextView/Copied.antt =====
-- What the loop of the next view copies, and the view it starts from.
use old_derecho.Base.{
  ℕ, zero, suc, ◌+◌, ◌-◌, ◌≤◌, ◌<◌, ◌≡◌, refl, sym, ap, subst, ◌∙◌, inl, inr, false, Option, none,
  some, List, [], ◌∷◌, if◌then◌else◌, ◌==◌, ltb, leb, set, get_or, length, length-set,
  get_or-set_self, get_or-set_ne, for_below, arith, Bool-cases,
}
use old_derecho.View.{View, Ip, empty, init_vectors, resize, rank_of, is_rank, member, has_failed}
use old_derecho.Gms.NextView.{copy_member, prepare_view}

-- How many of the first k members stay, and the old rank of the one at rank j.
abbrev pub placed : Option ℕ → ℕ → ℕ
placed none k = k
placed (some w) k = if leb k w then k else k - 1

abbrev pub old_rank : Option ℕ → ℕ → ℕ
old_rank none j = j
old_rank (some w) j = if ltb j w then j else suc j

abbrev Sized : ℕ → View → Type 0
Sized n v = (length v.members ≡ n) × (length v.failed ≡ n) × (v.num_members ≡ n)

abbrev pub Copied : Option ℕ → View → View → ℕ → ℕ → ℕ × View → Type 0
Copied who v start n k (m, next) =
    (m ≡ placed who k)
    × Sized n next
    × ((j : ℕ)
        → j < m
        → (member next j ≡ member v (old_rank who j))
          × (has_failed next j ≡ has_failed v (old_rank who j)))
    × ((j : ℕ)
        → m ≤ j
        → (member next j ≡ member start j) × (has_failed next j ≡ has_failed start j))
    × (next.vid ≡ start.vid)

-- A value set at place m among those copied so far.
set-copied {ℓ} :
    {A : Type ℓ} (xs : List A) (d : A) (f g : ℕ → A) (m : ℕ)
    → m < length xs
    → ((j : ℕ) → j < m → get_or xs j d ≡ f j)
    → ((j : ℕ) → m ≤ j → get_or xs j d ≡ g j)
    → ((j : ℕ) → j < suc m → get_or (set xs m (f m)) j d ≡ f j)
      × ((j : ℕ) → suc m ≤ j → get_or (set xs m (f m)) j d ≡ g j)
set-copied xs d f g m room before after = (
  λ j lt. elim (Bool-cases (m == j)) [
    | inl e ↦
        let same : m ≡ j = ground arith in
        subst (λ i. get_or (set xs m (f m)) i d ≡ f i) same (get_or-set_self xs m (f m) d room)
    | inr ne ↦ get_or-set_ne xs m j (f m) d (ground arith) ∙ before j (ground arith)
  ],
  λ j le. get_or-set_ne xs m j (f m) d (ground arith) ∙ after j (omega arith),
)

copy_member_stays :
    (who : Option ℕ) (v start : View) (n k m : ℕ) (next : View)
    → m < n
    → is_rank who k ≡ false
    → old_rank who m ≡ k
    → placed who (suc k) ≡ suc m
    → Copied who v start n k (m, next)
    → Copied who v start n (suc k) (copy_member who v k (m, next))
unfolding copy_member
copy_member_stays who v start n k m next room here old place h =
    let members =
      set-copied next.members 0 (λ j. member v (old_rank who j)) (member start) m (ground arith)
        (λ j lt. (h.2 j lt).0) (λ j le. (h.3 j le).0) in
    let failed =
      set-copied next.failed false (λ j. has_failed v (old_rank who j)) (has_failed start) m
        (ground arith) (λ j lt. (h.2 j lt).1) (λ j le. (h.3 j le).1) in
    rw (here, sym old)
      (
        sym (ap (λ i. placed who (suc i)) old ∙ place),
        (
          length-set next.members m (member v (old_rank who m)) ∙ h.1.0,
          length-set next.failed m (has_failed v (old_rank who m)) ∙ h.1.1,
          h.1.2,
        ),
        λ j lt. (members.0 j lt, failed.0 j lt),
        λ j le. (members.1 j le, failed.1 j le),
        h.4,
      )

copy_member-Copied :
    (who : Option ℕ) (v start : View) (n k : ℕ) (st : ℕ × View)
    → placed who (suc k) ≤ n
    → Copied who v start n k st
    → Copied who v start n (suc k) (copy_member who v k st)
unfolding copy_member
copy_member-Copied none v start n k (m, next) room h =
    copy_member_stays none v start n k m next (omega (arith, h.0)) refl h.0 (ap suc (sym h.0)) h
copy_member-Copied (some w) v start n k (m, next) room h = elim (Bool-cases (w == k)) [
  | inl e ↦ let at : m ≡ w = ground (arith, h.0) in rw (e) (ground (arith, h.0), h.1, h.2, h.3, h.4)
  | inr ne ↦
      copy_member_stays (some w) v start n k m next (ground (arith, h.0)) ne (ground (arith, h.0))
        (ground (arith, h.0)) h
]

pub copy_loop-Copied :
    (who : Option ℕ) (v start : View) (n k : ℕ)
    → placed who k ≤ n
    → Sized n start
    → Copied who v start n k (for_below k (copy_member who v) (0, start))
unfolding for_below
copy_loop-Copied none v start n zero room sized =
    (refl, sized, λ j lt. absurd (omega arith), λ j le. (refl, refl), refl)
copy_loop-Copied (some w) v start n zero room sized =
    (ground arith, sized, λ j lt. absurd (omega arith), λ j le. (refl, refl), refl)
copy_loop-Copied none v start n (suc k) room sized =
    copy_member-Copied none v start n k (for_below k (copy_member none v) (0, start)) room
      (copy_loop-Copied none v start n k (omega arith) sized)
copy_loop-Copied (some w) v start n (suc k) room sized =
    copy_member-Copied (some w) v start n k (for_below k (copy_member (some w) v) (0, start)) room
      (copy_loop-Copied (some w) v start n k (ground arith) sized)

length-resize {ℓ} : {A : Type ℓ} (xs : List A) (n : ℕ) (d : A) → length (resize xs n d) ≡ n
unfolding resize
length-resize xs zero d = refl
length-resize [] (suc n) d = ap suc (length-resize [] n d)
length-resize (x ∷ xs) (suc n) d = ap suc (length-resize xs n d)

get_or-resize {ℓ} : {A : Type ℓ} (n j : ℕ) (d : A) → get_or (resize [] n d) j d ≡ d
unfolding resize
get_or-resize zero j d = refl
get_or-resize (suc n) zero d = refl
get_or-resize (suc n) (suc j) d = get_or-resize n j d

pub prepared_departed :
    (change : ℕ) (joiner_ip : Ip) (v : View) (w : ℕ)
    → rank_of v change ≡ some w
    → Sized (v.num_members - 1) (prepare_view change joiner_ip v)
      × ((prepare_view change joiner_ip v).vid ≡ v.vid + 1)
unfolding prepare_view init_vectors empty
prepared_departed change joiner_ip v w at =
    rw (at, prepare_view)
      (
        (length-resize [] (v.num_members - 1) 0, length-resize [] (v.num_members - 1) false, refl),
        refl,
      )

pub prepared_joined :
    (change : ℕ) (joiner_ip : Ip) (v : View)
    → rank_of v change ≡ none
    → let start = prepare_view change joiner_ip v in
      Sized (v.num_members + 1) start
      × (start.vid ≡ v.vid + 1)
      × (member start v.num_members ≡ change)
      × (has_failed start v.num_members ≡ false)
unfolding prepare_view init_vectors empty
prepared_joined change joiner_ip v at =
    let n = v.num_members + 1 in
    let room = length-resize {A = ℕ} [] n 0 in
    rw (at, prepare_view)
      (
        (
          length-set (resize {A = ℕ} [] n 0) v.num_members change ∙ room,
          length-resize [] n false,
          refl,
        ),
        refl,
        get_or-set_self (resize {A = ℕ} [] n 0) v.num_members change 0 (omega (arith, room)),
        get_or-resize n v.num_members false,
      )
