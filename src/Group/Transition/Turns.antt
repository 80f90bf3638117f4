-- ===== src/Group/Transition/Turns.antt =====
-- The indices that the steps of taking over messages give: each message takes its turns.
use old_derecho.Base.{
  ℕ, zero, suc, ◌+◌, ◌-◌, ◌≡◌, refl, sym, ap, ◌∙◌, inl, inr, not, ◌&&◌, Option, none, some, List,
  [], ◌∷◌, if◌then◌else◌, ◌==◌, pos, ◌+ℤ◌, for_below, arith, Bool-cases, Option-cases,
}
use old_derecho.Base.Maps.{Map, emplace}
use old_derecho.Group.{Buffer, Message, Group}
use old_derecho.Group.Transition.{
  add_buffers, free_buffer, free_buffers, convert_msg, send_again, send_all_again, reclaim,
  take_next_send, take_unwritten, option_list,
}

-- The turns that a message takes: its own and those its sender skips behind it.
abbrev pub turns : Message → ℕ
turns m = elim m.message_buffer [ none ↦ 0 | some b ↦ 1 + b.header.pause_sending_turns ]

abbrev pub total_turns : List Message → ℕ
total_turns [] = 0
total_turns (m ∷ ms) = turns m + total_turns ms

-- The turns of the messages that are sent again from among those not stable everywhere.
abbrev pub reclaimed_turns : ℕ → Map Message → ℕ
reclaimed_turns r [] = 0
reclaimed_turns r ((seq, m) ∷ ms) =
    let rest = reclaimed_turns r ms in
    if not (m.size == 0) && m.sender_rank == r then turns m + rest else rest

abbrev pub unwritten_turns : Map Message → ℕ
unwritten_turns [] = 0
unwritten_turns ((seq, m) ∷ ms) = turns m + unwritten_turns ms

convert_msg-index :
    (m n : Message) (g h : Group) (k : ℕ)
    → g.future_message_index ≡ pos k
    → convert_msg m g ≡ some (n, h)
    → h.future_message_index ≡ pos (k + turns m)
unfolding convert_msg ◌+ℤ◌
convert_msg-index m n g h k at e = elim (Option-cases m.message_buffer) [
  | inl e0 ↦ absurd (ground arith)
  | inr (b, e1) ↦
      let moved : g.future_message_index +ℤ pos 1 +ℤ pos b.header.pause_sending_turns
          ≡ h.future_message_index =
        ground arith in
      sym moved ∙ rw (at, e1) (ground arith)
]

send_again-index :
    (m : Message) (g h : Group) (k : ℕ)
    → g.future_message_index ≡ pos k
    → send_again m g ≡ some h
    → h.future_message_index ≡ pos (k + turns m)
unfolding send_again
send_again-index m g h k at e = elim (Option-cases (convert_msg m g)) [
  | inl e0 ↦ absurd (ground arith)
  | inr ((n, u), e1) ↦ ground (arith, convert_msg-index m n g u k at e1)
]

pub send_all_again-index :
    (ms : List Message) (g h : Group) (k : ℕ)
    → g.future_message_index ≡ pos k
    → send_all_again ms g ≡ some h
    → h.future_message_index ≡ pos (k + total_turns ms)
unfolding send_all_again
send_all_again-index [] g h k at e = ground arith
send_all_again-index (m ∷ ms) g h k at e = elim (Option-cases (send_again m g)) [
  | inl e0 ↦ absurd (ground arith)
  | inr (u, e1) ↦
      send_all_again-index ms u h (k + turns m) (send_again-index m g u k at e1) (ground arith)
      ∙ ap pos (omega arith)
]

free_buffer-index :
    (m : Message) (g h : Group)
    → free_buffer m g ≡ some h
    → h.future_message_index ≡ g.future_message_index
unfolding free_buffer
free_buffer-index m g h e = elim (Option-cases m.message_buffer) [
  | inl e0 ↦ absurd (ground arith)
  | inr (b, e1) ↦ ground arith
]

pub free_buffers-index :
    (ms : Map Message) (g h : Group)
    → free_buffers ms g ≡ some h
    → h.future_message_index ≡ g.future_message_index
unfolding free_buffers
free_buffers-index [] g h e = ground arith
free_buffers-index ((seq, m) ∷ ms) g h e = elim (Option-cases (free_buffer m g)) [
  | inl e0 ↦ absurd (ground arith)
  | inr (u, e1) ↦ free_buffers-index ms u h (ground arith) ∙ free_buffer-index m g u e1
]

pub add_buffers-index :
    (make : ℕ → Buffer) (wanted : ℕ) (g : Group)
    → (add_buffers make wanted g).future_message_index ≡ g.future_message_index
unfolding add_buffers for_below
add_buffers-index make wanted g = loop (wanted - g.total_message_buffers)
  where
    loop :
        (n : ℕ)
        → (for_below n
            (λ n h. record h {
              free_message_buffers = make n ∷ h.free_message_buffers;
              total_message_buffers = h.total_message_buffers + 1;
            })
            g).future_message_index
          ≡ g.future_message_index
    loop zero = refl
    loop (suc n) = loop n

pub reclaim-index :
    (r : ℕ) (ms : Map Message) (g h : Group) (k : ℕ)
    → g.future_message_index ≡ pos k
    → reclaim r ms g ≡ some h
    → h.future_message_index ≡ pos (k + reclaimed_turns r ms)
unfolding reclaim
reclaim-index r [] g h k at e = ground arith
reclaim-index r ((seq, m) ∷ ms) g h k at e = elim (Bool-cases (m.size == 0)) [
  | inl skipped ↦ rw (skipped) (reclaim-index r ms g h k at (ground arith))
  | inr sized ↦ elim (Bool-cases (m.sender_rank == r)) [
    | inl mine ↦ elim (Option-cases (send_again m g)) [
      | inl e0 ↦ absurd (ground arith)
      | inr (u, e1) ↦
          rw (sized, mine)
            (reclaim-index r ms u h (k + turns m) (send_again-index m g u k at e1) (ground arith)
              ∙ ap pos (omega arith))
    ]
    | inr other ↦ elim (Option-cases (free_buffer m g)) [
      | inl e0 ↦ absurd (ground arith)
      | inr (u, e1) ↦
          rw (sized, other)
            (reclaim-index r ms u h k (free_buffer-index m g u e1 ∙ at) (ground arith))
    ]
  ]
]

pub take_next_send-index :
    (next : Option Message) (g h : Group) (k : ℕ)
    → g.future_message_index ≡ pos k
    → take_next_send next g ≡ some h
    → h.future_message_index ≡ pos (k + total_turns (option_list next))
unfolding take_next_send
take_next_send-index none g h k at e = ground arith
take_next_send-index (some m) g h k at e = elim (Option-cases (convert_msg m g)) [
  | inl e0 ↦ absurd (ground arith)
  | inr ((n, u), e1) ↦ ground (arith, convert_msg-index m n g u k at e1)
]

pub take_unwritten-index :
    (ms : Map Message) (g h : Group) (k : ℕ)
    → g.future_message_index ≡ pos k
    → take_unwritten ms g ≡ some h
    → h.future_message_index ≡ pos (k + unwritten_turns ms)
unfolding take_unwritten
take_unwritten-index [] g h k at e = ground arith
take_unwritten-index ((seq, m) ∷ ms) g h k at e = elim (Option-cases (convert_msg m g)) [
  | inl e0 ↦ absurd (ground arith)
  | inr ((n, u), e1) ↦
      let put_down = record u {
        non_persistent_messages = emplace seq n u.non_persistent_messages;
      } in
      take_unwritten-index ms put_down h (k + turns m) (convert_msg-index m n g u k at e1)
        (ground arith)
      ∙ ap pos (omega arith)
]
