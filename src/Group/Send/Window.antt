-- ===== src/Group/Send/Window.antt =====
-- The send window, and what sending leaves alone.
use old_derecho.Base.{
  ◌%◌, ◌^◌, ◌≢◌, ◌-ℤ◌, ◌*ℤ◌, ℤ, ℕ, ◌≡◌, refl, ◌<◌, ◌≤◌, ◌+◌, ◌⊎◌, inl, inr, Bool, true, false, none,
  some, List, [], ◌∷◌, ltb_ℤ, ltb_ℤ_false, ltb_ℤ→lt, ◌≤ℤ◌, ◌<ℤ◌, pos, ◌+ℤ◌, any_below_found,
  any_below_none, arith, Bool-cases, Option-cases,
}
use native.Mathlib.Nat.{mod-eq_of_lt}
use old_derecho.Group.{Buffer, Message, Group, sizeof_header, u64}
use old_derecho.Group.Send.{
  window_bound, window_full, message_size, new_message, fill_header, get_position, send,
  send_loop_turn,
}

pub get_position-table :
    (g g' : Group) (payload turns : ℕ) (cooked : Bool) (b : Buffer)
    → get_position g payload turns cooked ≡ some (b, g')
    → (g'.sst ≡ g.sst) × (g'.num_members ≡ g.num_members)
unfolding get_position
get_position-table g g' payload turns cooked b e = ground arith

pub send-table :
    (g g' : Group) (sent : Bool)
    → send g ≡ some (sent, g')
    → (g'.sst ≡ g.sst) × (g'.num_members ≡ g.num_members)
unfolding send
send-table g g' sent e = ground arith

pub send_loop_turn-table :
    (g g' : Group) (accepted : Bool)
    → send_loop_turn accepted g ≡ some g'
    → (g'.sst ≡ g.sst) × (g'.num_members ≡ g.num_members)
unfolding send_loop_turn
send_loop_turn-table g g' accepted e = ground arith

-- The delivered number that lets a message with the next index into the window.
abbrev pub window_start : Group → ℤ
window_start g =
    (g.future_message_index -ℤ pos g.window_size) *ℤ pos g.num_members +ℤ pos g.member_index

-- The size of a message with a payload and its header; a payload of 0 stands for the largest.
abbrev pub SizeOf : Group → ℕ → ℕ → Type 0
SizeOf g payload size =
    (payload ≡ 0 → size ≡ g.max_msg_size)
    × (payload ≢ 0 → payload + sizeof_header < u64 → size ≡ payload + sizeof_header)

-- Why no position is given.
pub data Refused (g : Group) (payload : ℕ) : Type 0 where
  not_created : g.rdmc_groups_created ≡ false → Refused g payload
  too_large :
      payload ≢ 0
      → (payload + sizeof_header < u64 → g.max_msg_size < payload + sizeof_header)
      → Refused g payload
  behind :
      (i : ℕ)
      → i < g.num_members
      → (g.sst.rows i).delivered_num <ℤ window_start g
      → Refused g payload
  shut_down : g.thread_shutdown ≡ true → Refused g payload
  no_buffer : g.free_message_buffers ≡ [] → Refused g payload

-- What a position comes with: the buffer, its header and the message, and what the group becomes.
pub record Granted (g : Group) (payload turns : ℕ) (cooked : Bool) (b : Buffer) (g' : Group)
    : Type 0 where
  pub old : Buffer
  pub m : Message
  pub from_free : g.free_message_buffers ≡ old ∷ g'.free_message_buffers
  pub same_array : (b.id ≡ old.id) × (b.body ≡ old.body)
  pub header_size : b.header.header_size ≡ sizeof_header
  pub skipped_turns : turns < 2 ^ 32 → b.header.pause_sending_turns ≡ turns
  pub cooked_send : b.header.cooked_send ≡ cooked
  pub next_send : g'.next_send ≡ some m
  pub sender : m.sender_rank ≡ g.member_index
  pub index : m.index ≡ g.future_message_index
  pub array : m.message_buffer ≡ some b
  pub size : SizeOf g payload m.size
  pub fits : m.size ≤ g.max_msg_size
  pub next_index : g'.future_message_index ≡ g.future_message_index +ℤ pos (turns + 1)
  pub rest : g' ≡ record g {
    free_message_buffers = g'.free_message_buffers;
    next_send = some m;
    future_message_index = g'.future_message_index;
  }
  pub in_window : (i : ℕ) → i < g.num_members → window_start g ≤ℤ (g.sst.rows i).delivered_num

message_size-SizeOf :
    (g : Group) (payload size : ℕ) → message_size g payload ≡ some size → SizeOf g payload size
unfolding message_size
message_size-SizeOf g payload size e = (
  λ zero_payload. ground (arith, e, zero_payload),
  λ some_payload small.
      let whole : (payload + sizeof_header) % u64 ≡ payload + sizeof_header = mod-eq_of_lt small in
      ground (arith, e, some_payload, whole),
)

message_size-none : (g : Group) (payload : ℕ) → message_size g payload ≡ none → Refused g payload
unfolding message_size
message_size-none g payload e =
    too_large (λ zero_payload. absurd (ground (arith, e, zero_payload)))
      (λ small.
        let whole : (payload + sizeof_header) % u64 ≡ payload + sizeof_header =
          mod-eq_of_lt small in
        ground (arith, e, whole))

message_size-le :
    (g : Group) (payload size : ℕ) → message_size g payload ≡ some size → size ≤ g.max_msg_size
unfolding message_size
message_size-le g payload size e = ground arith

window_full-Refused : (g : Group) (payload : ℕ) → window_full g ≡ true → Refused g payload
unfolding window_full
window_full-Refused g payload e =
    let bound = window_bound g g.future_message_index in
    let (i, lt, late) =
      any_below_found g.num_members (λ i. ltb_ℤ (g.sst.rows i).delivered_num bound) e in
    behind i lt (ltb_ℤ→lt (g.sst.rows i).delivered_num bound late)

window_full-false :
    (g : Group) (i : ℕ)
    → window_full g ≡ false
    → i < g.num_members
    → window_bound g g.future_message_index ≤ℤ (g.sst.rows i).delivered_num
unfolding window_full
window_full-false g i e lt =
    let bound = window_bound g g.future_message_index in
    ltb_ℤ_false (g.sst.rows i).delivered_num bound
      (any_below_none g.num_members (λ i. ltb_ℤ (g.sst.rows i).delivered_num bound) i e lt)

List-cases {ℓ} :
    {A : Type ℓ} (xs : List A) → (xs ≡ []) ⊎ ((x : A) × (rest : List A) × (xs ≡ x ∷ rest))
List-cases [] = inl refl
List-cases (x ∷ rest) = inr (x, rest, refl)

-- Either no position is given: the RDMC groups are missing, the payload with its header is larger
-- than the largest message, some member has not delivered up to the window, the group shuts down, or
-- no buffer is free. Or the newest free buffer is given, with the header's size, the turns to skip
-- and the kind of message in its header, and with its array as it was. The next message to send is
-- then of this member, with the next index, that buffer, and the size of payload and header, or the
-- largest for a payload of 0; the next index skips the turns, every member has delivered up to the
-- window, and nothing else has changed. Sizes from 2^64 and turns from 2^32 on are left open.
pub get_position-window :
    (g : Group) (payload turns : ℕ) (cooked : Bool)
    → ((get_position g payload turns cooked ≡ none) × Refused g payload)
      ⊎ ((b : Buffer) × (g' : Group) × (get_position g payload turns cooked ≡ some (b, g'))
          × Granted g payload turns cooked b g')
unfolding get_position fill_header new_message
get_position-window g payload turns cooked = elim (Bool-cases g.rdmc_groups_created) [
  | inr e ↦ inl (ground arith, not_created e)
  | inl e ↦ elim (Option-cases (message_size g payload)) [
    | inl e1 ↦ inl (ground arith, message_size-none g payload e1)
    | inr (size, e1) ↦ elim (Bool-cases (window_full g)) [
      | inl e2 ↦ inl (ground arith, window_full-Refused g payload e2)
      | inr e2 ↦ elim (Bool-cases g.thread_shutdown) [
        | inl e3 ↦ inl (ground arith, shut_down e3)
        | inr e3 ↦ elim (List-cases g.free_message_buffers) [
          | inl e4 ↦ inl (ground arith, no_buffer e4)
          | inr (old, free, e4) ↦
              let b : Buffer = fill_header old turns cooked in
              let g' : Group = record g {
                free_message_buffers = free;
                next_send = some (new_message g size b);
                future_message_index = g.future_message_index +ℤ pos (turns + 1);
              } in
              inr (
                b,
                g',
                ground arith,
                record {
                  old = old;
                  m = new_message g size b;
                  from_free = e4;
                  same_array = (refl, refl);
                  header_size = refl;
                  skipped_turns = λ small. mod-eq_of_lt small;
                  cooked_send = refl;
                  next_send = refl;
                  sender = refl;
                  index = refl;
                  array = refl;
                  size = message_size-SizeOf g payload size e1;
                  fits = message_size-le g payload size e1;
                  next_index = refl;
                  rest = refl;
                  in_window = λ i lt. window_full-false g i e2 lt;
                },
              )
        ]
      ]
    ]
  ]
]
