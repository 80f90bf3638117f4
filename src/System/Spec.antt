-- ===== src/System/Spec.antt =====
-- Atomic multicast in total order, without tables, buffers and messages on their way: each member
-- has received a number of messages from each sender and delivered a number of messages.
use old_derecho.Base.{ℕ, ◌+◌, ◌*◌, ◌<◌, ◌≡◌, ◌≢◌, ◌⊎◌, List, [], ◌∷◌}

pub record Multicast : Type 0 where
  pub received : ℕ → ℕ → ℕ
  pub delivered : ℕ → ℕ

-- Message number c, which is the k-th of sender j in the round robin over n senders, has been
-- received, where `counts` are the numbers of messages received.
abbrev pub IsReceived : ℕ → (ℕ → ℕ) → ℕ → Type 0
IsReceived n counts c = (k j : ℕ) → j < n → k * n + j ≡ c → k < counts j

abbrev pub SameReceived : ℕ → Multicast → Multicast → Type 0
SameReceived n a b = (i j : ℕ) → i < n → j < n → b.received i j ≡ a.received i j

abbrev pub SameDelivered : ℕ → Multicast → Multicast → Type 0
SameDelivered n a b = (i : ℕ) → i < n → b.delivered i ≡ a.delivered i

-- What may happen among n members: member i receives more messages of sender j; or it delivers the
-- message after its last one, which every member must have received; or nothing that shows.
pub data Allowed (n : ℕ) (a b : Multicast) : Type 0 where
  gets :
      (i j : ℕ)
      → j < n
      → a.received i j < b.received i j
      → ((k l : ℕ) → k < n → l < n → (k ≢ i) ⊎ (l ≢ j) → b.received k l ≡ a.received k l)
      → SameDelivered n a b
      → Allowed n a b
  delivers :
      (i : ℕ)
      → ((k : ℕ) → k < n → IsReceived n (a.received k) (a.delivered i))
      → b.delivered i ≡ a.delivered i + 1
      → ((k : ℕ) → k < n → k ≢ i → b.delivered k ≡ a.delivered k)
      → SameReceived n a b
      → Allowed n a b
  stays : SameReceived n a b → SameDelivered n a b → Allowed n a b

-- Nothing has been received or delivered.
pub record IsInitial (n : ℕ) (a : Multicast) : Type 0 where
  pub none_received : (i j : ℕ) → i < n → j < n → a.received i j ≡ 0
  pub none_delivered : (i : ℕ) → i < n → a.delivered i ≡ 0

-- The behaviours that are promised: the states passed so far, the newest first, and the present one.
-- The first is initial, and each is followed by one that it allows.
pub data Behaviour (n : ℕ) : List Multicast → Multicast → Type 0 where
  begin : {a : Multicast} → IsInitial n a → Behaviour n [] a
  step :
      {past : List Multicast} {a b : Multicast}
      → Behaviour n past a
      → Allowed n a b
      → Behaviour n (a ∷ past) b
