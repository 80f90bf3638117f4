-- ===== src/Group/Order.antt =====
-- The global order of messages: round robin over the senders, numbered from 0, and the
-- highest number up to which a member has received everything.
use old_derecho.Base.{
  ℕ, zero, suc, ◌+◌, ◌-◌, ◌*◌, ◌<◌, ◌≡◌, ◌⊎◌, inl, inr, false, if◌then◌else◌, ltb, ◌==◌, arith,
  Bool-cases, ℤ, pos, negsuc, pos_part, neg_part, ltb_ℤ, ◌+ℤ◌, ◌-ℤ◌, ◌*ℤ◌, ◌≤ℤ◌, ◌<ℤ◌, -ℤ_parts,
  eq_of_parts, leb_ℤ, dec_lt,
}

-- std::min_element over the first n cells: the first index of the least value.
unfoldable pub min_index : ℕ → (ℕ → ℤ) → ℕ
min_index zero a = 0
min_index (suc n) a = let m = min_index n a in if ltb_ℤ (a n) (a m) then n else m

-- new_seq_num in rdmc_receive_handler
unfoldable pub new_seq_num : ℕ → (ℕ → ℤ) → ℤ
unfolding min_index
new_seq_num n received =
    let m = min_index n received in (received m +ℤ pos 1) *ℤ pos n +ℤ pos m -ℤ pos 1

pub min_index-lt : (n : ℕ) (a : ℕ → ℤ) → 0 < n → min_index n a < n
unfolding min_index
min_index-lt zero a h = h
min_index-lt (suc zero) a h = ground arith
min_index-lt (suc (suc n)) a h = ground (arith, min_index-lt (suc n) a (omega arith))

pub min_index-le : (n : ℕ) (a : ℕ → ℤ) (i : ℕ) → i < n → a (min_index n a) ≤ℤ a i
unfolding min_index
min_index-le zero a i h = absurd (omega arith)
min_index-le (suc n) a i h = elim (Bool-cases (i == n)) [
  | inl e ↦ ground arith
  | inr ne ↦ ground (arith, min_index-le n a i)
]

-- Before the first minimum everything is greater.
pub min_index-first : (n : ℕ) (a : ℕ → ℤ) (i : ℕ) → i < min_index n a → a (min_index n a) <ℤ a i
unfolding min_index
min_index-first zero a i h = absurd (omega arith)
min_index-first (suc n) a i h = elim (Bool-cases (ltb_ℤ (a n) (a (min_index n a)))) [
  | inl e ↦ elim (Bool-cases (ltb i n)) [
    | inl below ↦ ground (arith, min_index-le n a i (ground arith))
    | inr above ↦ absurd (ground arith)
  ]
  | inr e ↦ ground (arith, min_index-first n a i)
]

-- A counter that starts at -1 is a number of messages less one.
pub count_of :
    (a : ℤ) → negsuc 0 ≤ℤ a → (c : ℕ) × (a +ℤ pos 1 ≡ pos c) × (pos_part a + 1 ≡ c + neg_part a)
unfolding ◌+ℤ◌
count_of (pos k) h = (k + 1, ground arith, ground arith)
count_of (negsuc zero) h = (0, ground arith, ground arith)
count_of (negsuc (suc k)) h = absurd (omega arith)

-- The number of a message, for an index that is not negative.
pub numbered : (k n i : ℕ) → pos k *ℤ pos n +ℤ pos i ≡ pos (k * n + i)
unfolding ◌+ℤ◌ ◌*ℤ◌
numbered k n i = ground arith

new_seq_num-count :
    (n : ℕ) (received : ℕ → ℤ) (c : ℕ)
    → received (min_index n received) +ℤ pos 1 ≡ pos c
    → let s = new_seq_num n received in pos_part s + 1 ≡ c * n + min_index n received + neg_part s
unfolding new_seq_num
new_seq_num-count n received c e =
    rw (e, numbered c n (min_index n received))
      (omega (arith, -ℤ_parts (pos (c * n + min_index n received)) (pos 1)))

-- Every sender's message with a number up to `s` has been received: the one of index k from sender
-- i has the number k * n + i.
abbrev pub ReceivedUpTo : ℕ → (ℕ → ℤ) → ℤ → Type 0
ReceivedUpTo n received s = (k i : ℕ) → i < n → pos (k * n + i) ≤ℤ s → pos k ≤ℤ received i

ltb_of_leb : (a b : ℤ) → leb_ℤ a b ≡ false → b <ℤ a
ltb_of_leb a b h = ground arith

-- Where two messages stand in the round-robin order.
order_cases :
    (n c m k i : ℕ) → i < n → m < n → k * n + i < c * n + m → (k < c) ⊎ ((k ≡ c) × (i < m))
order_cases n c m k i hi hm h = elim (dec_lt k c) [
  | yes less ↦ inl less
  | no more ↦ elim (dec_lt c k) [
    | yes above ↦
        let e : k ≡ c + 1 + (k - c - 1) = omega arith in
        let h' : (c + 1 + (k - c - 1)) * n + i < c * n + m = rw e at h in absurd (omega arith)
    | no below ↦
        let e : k ≡ c = omega arith in
        let h' : c * n + i < c * n + m = rw e at h in inr (e, omega arith)
  ]
]

-- The number that a receipt computes is the greatest up to which everything has been received, in
-- the round-robin order of a group that has members and counters from -1.
pub new_seq_num_greatest :
    (n : ℕ) (received : ℕ → ℤ)
    → 0 < n
    → ((i : ℕ) → i < n → negsuc 0 ≤ℤ received i)
    → ReceivedUpTo n received (new_seq_num n received)
      × ((s : ℤ) → ReceivedUpTo n received s → s ≤ℤ new_seq_num n received)
new_seq_num_greatest n received some_member started =
    let m = min_index n received in
    let in_range = min_index-lt n received some_member in
    let c = (count_of (received m) (started m in_range)).0 in
    let after = (count_of (received m) (started m in_range)).1 in
    let count = (count_of (received m) (started m in_range)).2 in
    let number = new_seq_num-count n received c after in
    (
      λ k i lt below. elim (order_cases n c m k i lt in_range (omega (arith, number, below))) [
        | inl less ↦ omega (arith, min_index-le n received i lt, count)
        | inr (same, first) ↦ omega (arith, min_index-first n received i first, count)
      ],
      λ s h. elim (Bool-cases (leb_ℤ (pos (c * n + m)) s)) [
        | inl reached ↦ absurd (omega (arith, h c m in_range (ground arith), count))
        | inr under ↦ omega (arith, number, ltb_of_leb (pos (c * n + m)) s under)
      ],
    )

-- With nothing received the highest number is -1.
pub new_seq_num-reset :
    (n : ℕ) (a : ℕ → ℤ) → 0 < n → ((j : ℕ) → j < n → a j ≡ negsuc 0) → new_seq_num n a ≡ negsuc 0
unfolding ◌+ℤ◌
new_seq_num-reset n a h e =
    let m = min_index n a in
    let at = e m (min_index-lt n a h) in
    let before = λ (lt : 0 < m). min_index-first n a 0 lt in
    let number = new_seq_num-count n a 0 (rw at) in
    let first : m ≡ 0 = elim (dec_lt 0 m) [
      | yes lt ↦ absurd (ground (arith, before lt, e 0 h))
      | no ge ↦ omega arith
    ] in
    eq_of_parts (new_seq_num n a) (negsuc 0) (omega (arith, number, first))
