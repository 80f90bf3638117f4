-- ===== src/Group/Transition/Written.antt =====
-- A delivered message keeps its array until it has been written, and the callback gives it back.
use old_derecho.Base.{
  ℕ, ◌+◌, ◌%◌, ◌≡◌, ◌<◌, refl, sym, ap, ◌∙◌, ◌≢◌, true, none, some, [], ◌∷◌, ◌==◌, ==_refl, get_or,
  ℤ, pos, eqb_ℤ, first_below, first_below_found, arith,
}
use native.Mathlib.Nat.{mod-eq_of_lt}
use old_derecho.Base.Maps.{Map, find, emplace, erase}
use old_derecho.FileWriter
use old_derecho.FileWriter.{FileWriter, write_message}
use old_derecho.Group.{Buffer, Message, Group, own, put, write_own, sequence_number, u64}
use old_derecho.Group.Deliver.{keep_or_free, logged, to_u64}
use old_derecho.Group.Transition.{message_written, free_buffer}

find-emplace :
    {A : Type 0} (k : ℤ) (v : A) (m : Map A) → find k m ≡ none → find k (emplace k v m) ≡ some v
unfolding find emplace
find-emplace k v [] h = let same : eqb_ℤ k k ≡ true = ground arith in rw (same) refl
find-emplace k v ((j, w) ∷ m) h = ground (arith, find-emplace k v m)

erase-emplace :
    {A : Type 0} (k : ℤ) (v : A) (m : Map A) → find k m ≡ none → erase k (emplace k v m) ≡ m
unfolding find emplace erase
erase-emplace k v [] h = let same : eqb_ℤ k k ≡ true = ground arith in rw (same) refl
erase-emplace k v ((j, w) ∷ m) h = ground (arith, erase-emplace k v m)

-- The group after a callback that finds message `msg` with array `b` under `key`.
abbrev after_writing : Group → ℤ → Buffer → Group
after_writing g key b = put (
    write_own
      (record g {
        free_message_buffers = b ∷ g.free_message_buffers;
        non_persistent_messages = erase key g.non_persistent_messages;
      })
      (record (own g) { persisted_num = key }))

message_written-found :
    (g : Group) (m : FileWriter.Message) (msg : Message) (b : Buffer) (rank : ℕ)
    → first_below g.num_members (λ r. get_or g.members r 0 == m.sender) ≡ some rank
    → find (sequence_number g (pos m.index) rank) g.non_persistent_messages ≡ some msg
    → msg.message_buffer ≡ some b
    → message_written g m ≡ some (after_writing g (sequence_number g (pos m.index) rank) b)
unfolding message_written free_buffer
message_written-found g m msg b rank e there array = rw (message_written, e, there, array, e) refl

-- With a file writer, a delivered message of a member whose ID stands at its rank only waits under
-- its number, if none waits there already. The callback for what was logged then succeeds: the
-- message's array is free again, its number is recorded as persisted, and the messages that
-- wait are those from before.
pub message_written-keep_or_free :
    (g : Group) (w : FileWriter) (msg : Message) (b : Buffer) (at i : ℕ)
    → g.file_writer ≡ some w
    → msg.message_buffer ≡ some b
    → msg.index ≡ pos i
    → i < u64
    → msg.sender_rank < g.num_members
    → ((j : ℕ) → j < msg.sender_rank → get_or g.members j 0 ≢ get_or g.members msg.sender_rank 0)
    → find (sequence_number g msg.index msg.sender_rank) g.non_persistent_messages ≡ none
    → (h : Group) × (message_written
          (keep_or_free g msg b at)
          (logged g msg b (at + b.header.header_size))
        ≡ some h)
      × (h.free_message_buffers ≡ b ∷ g.free_message_buffers)
      × ((own h).persisted_num ≡ sequence_number g msg.index msg.sender_rank)
      × (h.non_persistent_messages ≡ g.non_persistent_messages)
unfolding message_written keep_or_free logged to_u64 free_buffer
message_written-keep_or_free g w msg b at i writer array index small member distinct absent =
    let key = sequence_number g msg.index msg.sender_rank in
    let id = get_or g.members msg.sender_rank 0 in
    let rank : first_below g.num_members (λ r. get_or g.members r 0 == id) ≡ some msg.sender_rank =
      first_below_found g.num_members (λ r. get_or g.members r 0 == id) msg.sender_rank member
        (==_refl id) (λ j lt. ground (arith, distinct j lt)) in
    let exact : i % u64 ≡ i = mod-eq_of_lt small in
    let there = find-emplace key msg g.non_persistent_messages absent in
    let gone = erase-emplace key msg g.non_persistent_messages absent in
    let waiting : Group = record g {
      non_persistent_messages = emplace key msg g.non_persistent_messages;
      file_writer = some (write_message w (logged g msg b (at + b.header.header_size)));
    } in
    let kept : keep_or_free g msg b at ≡ waiting = rw (writer) refl in
    let m : FileWriter.Message = logged g msg b (at + b.header.header_size) in
    let logged_index : pos m.index ≡ msg.index =
      ap (λ z. pos (to_u64 z)) index ∙ ap pos exact ∙ sym index in
    let same_key : sequence_number waiting (pos m.index) msg.sender_rank ≡ key =
      ap (λ z. sequence_number g z msg.sender_rank) logged_index in
    let done =
      message_written-found waiting m msg b msg.sender_rank rank
        (ap (λ z. find z waiting.non_persistent_messages) same_key ∙ there) array in
    (
      after_writing waiting key b,
      ap (λ x. message_written x m) kept
          ∙ done
          ∙ ap (λ z. some (after_writing waiting z b)) same_key,
      refl,
      rw (==_refl g.sst.local_index) refl,
      gone,
    )
