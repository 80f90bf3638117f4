-- ===== src/View.antt =====
-- view.h and view_impl.h: a view of the group. A rank of -1 is `none`. The pointers to the
-- DerechoGroup and to the SST are arguments here: the group management part holds them.
pub mod Leader
pub mod Changes
pub mod Departure
pub mod Saved
pub mod Crash
pub mod Digits
pub mod Printed
pub mod Lines
pub mod Parsed
use old_derecho.Base.{
  ℕ, zero, suc, ◌+◌, ◌≡◌, refl, Bool, true, false, not, ◌&&◌, ◌||◌, Option, none, some, List, [],
  ◌∷◌, ◌++◌, ◌==◌, if◌then◌else◌, length, get_or, take, replicate, first_below, all_below,
}
use old_derecho.Row.{Row}
use old_derecho.Row.Text.{bytes_eq}
use old_derecho.Sst.{Sst, my_row, write_my, put_row}

abbrev pub Ip : Type 0
Ip = List ℕ

-- class View
pub record View : Type 0 where
  pub vid : ℕ
  pub members : List ℕ
  pub member_ips : List Ip
  pub failed : List Bool
  pub n_failed : ℕ
  pub who : Option ℕ
  pub num_members : ℕ
  pub my_rank : ℕ
  pub i_know_i_am_leader : Bool

-- View(num_members)
unfoldable pub empty : ℕ → View
empty n = record {
  vid = 0;
  members = replicate n 0;
  member_ips = replicate n [];
  failed = replicate n false;
  n_failed = 0;
  who = none;
  num_members = n;
  my_rank = 0;
  i_know_i_am_leader = false;
}

-- v.resize(n, d)
unfoldable pub resize {ℓ} : {A : Type ℓ} → List A → ℕ → A → List A
resize xs zero d = []
resize [] (suc n) d = d ∷ resize [] n d
resize (x ∷ xs) (suc n) d = x ∷ resize xs n d

unfoldable pub init_vectors : View → View
unfolding resize
init_vectors v = record v {
  members = resize v.members v.num_members 0;
  member_ips = resize v.member_ips v.num_members [];
  failed = resize v.failed v.num_members false;
}

abbrev pub member : View → ℕ → ℕ
member v r = get_or v.members r 0

abbrev pub ip : View → ℕ → Ip
ip v r = get_or v.member_ips r []

abbrev pub has_failed : View → ℕ → Bool
has_failed v r = get_or v.failed r false

unfoldable pub rank_of_leader : View → Option ℕ
rank_of_leader v = first_below v.num_members (λ r. not (has_failed v r))

-- rank_of(const ip_addr&)
unfoldable pub rank_of_ip : View → Ip → Option ℕ
rank_of_ip v who = first_below v.num_members (λ r. bytes_eq (ip v r) who)

-- rank_of(const node_id_t&)
unfoldable pub rank_of : View → ℕ → Option ℕ
rank_of v who = first_below v.num_members (λ r. member v r == who)

abbrev pub is_rank : Option ℕ → ℕ → Bool
is_rank none r = false
is_rank (some l) r = l == r

unfoldable pub i_am_leader : View → Bool
i_am_leader v = is_rank (rank_of_leader v) v.my_rank

-- The test in the loop of `IAmTheNewLeader`, for each `n` and each `row` below the own rank.
unfoldable pub all_suspected : View → Sst → Bool
all_suspected v t =
    all_below v.my_rank
      (λ n. all_below v.my_rank (λ row. has_failed v n || (t.rows row).suspected n))

unfoldable pub i_am_the_new_leader : View → Sst → Bool × View
i_am_the_new_leader v t =
    if v.i_know_i_am_leader
    then (false, v)
    else if all_suspected v t
    then (true, record v { i_know_i_am_leader = true })
    else (false, v)

-- View::wedge, without the call of DerechoGroup::wedge that comes first.
unfoldable pub wedge_row : Sst → Sst
wedge_row t = put_row (write_my t (record (my_row t) { wedged = true }))

unfoldable pub is_member : View → ℕ → Bool
is_member v who = elim (rank_of v who) [ some r ↦ true | none ↦ false ]

unfoldable pub joined : View → Option ℕ
unfolding is_member
joined v = elim v.who [ none ↦ none | some w ↦ if is_member v w then some w else none ]

unfoldable pub departed : View → Option ℕ
unfolding is_member
departed v = elim v.who [ none ↦ none | some w ↦ if is_member v w then none else some w ]
