-- ===== src/Group/Transition/Indices.antt =====
-- The indices that a new view gives to the messages of the old one.
use old_derecho.Base.{
  ℕ, zero, suc, ◌+◌, ◌*◌, ◌≡◌, refl, sym, ap, ◌∙◌, inl, inr, Bool, true, false, ◌&&◌, Option, none,
  some, List, ◌++◌, if◌then◌else◌, ltb, length, get_or, ℤ, pos, for_below, any_below, arith,
  Bool-cases, Option-cases,
}
use old_derecho.Sst.{Sst, remove, Predicate}
use old_derecho.FileWriter.{set_message_written_upcall}
use old_derecho.Group.{Buffer, Group, emit, rdmc_create_group}
use old_derecho.Group.Setup.{
  wedge, finish, initialize_sst_row, create_rdmc_groups, create_groups_from, rotated_members,
  destroy_groups,
}
use old_derecho.Group.Stable.{register_predicates}
use old_derecho.Group.Transition.{
  ◌>>=◌, add_buffers, free_buffers, send_all_again, reclaim, take_unwritten, option_list,
  moved_fields, take_messages, take_over, offset_fits, next_group,
}
use old_derecho.Group.Transition.Turns.{
  total_turns, reclaimed_turns, unwritten_turns, send_all_again-index, free_buffers-index,
  add_buffers-index, reclaim-index, take_next_send-index, take_unwritten-index,
}

create_groups_from-index :
    (created : ℕ → Bool) (i n : ℕ) (g : Group)
    → (create_groups_from created i n g).1.future_message_index ≡ g.future_message_index
unfolding create_groups_from
create_groups_from-index created i zero g = refl
create_groups_from-index created i (suc n) g =
    elim (Bool-cases (created (i + g.rdmc_group_num_offset))) [
      | inl e ↦ rw (e) (
          create_groups_from-index created (i + 1) n
            (emit g (rdmc_create_group (i + g.rdmc_group_num_offset) (rotated_members g i))))
      | inr e ↦ rw (e) refl
    ]

either-index :
    (b : Bool) (g h : Group) (z : ℤ)
    → g.future_message_index ≡ z
    → h.future_message_index ≡ z
    → (if b then g else h).future_message_index ≡ z
either-index true g h z left right = left
either-index false g h z left right = right

finish-index :
    (created : ℕ → Bool) (already_failed : List Bool) (g : Group)
    → (finish created already_failed g).future_message_index ≡ g.future_message_index
unfolding finish initialize_sst_row create_rdmc_groups register_predicates
finish-index created already_failed g =
    either-index
      (any_below g.num_members
        (λ i. ltb 0 (length already_failed) && get_or already_failed i false))
      (register_predicates (initialize_sst_row g))
      (register_predicates (record ((create_rdmc_groups created (initialize_sst_row g)).1) {
        rdmc_groups_created = (create_rdmc_groups created (initialize_sst_row g)).0;
      }))
      g.future_message_index refl
      (create_groups_from-index created 0 g.num_members (initialize_sst_row g))

>>=-eq-some :
    {A B : Type 0} (m : Option A) (f : A → Option B) (b : B)
    → (m >>= f) ≡ some b
    → (a : A) × (m ≡ some a) × (f a ≡ some b)
>>=-eq-some none f b e = cc
>>=-eq-some (some a) f b e = (a, refl, e)

-- The turns of the messages that are sent again, and of those that are still being written.
abbrev pub resent_turns : Group → ℕ
resent_turns old =
    reclaimed_turns old.member_index old.locally_stable_messages
    + total_turns (option_list old.current_send ++ old.pending_sends)
    + total_turns (option_list old.next_send)

abbrev pub handed_turns : Group → ℕ
handed_turns old = resent_turns old + unwritten_turns old.non_persistent_messages

destroy_groups-handed_turns :
    (n : ℕ) (g : Group) → handed_turns (destroy_groups n g) ≡ handed_turns g
unfolding destroy_groups for_below
destroy_groups-handed_turns zero g = refl
destroy_groups-handed_turns (suc n) g = destroy_groups-handed_turns n g

wedge-handed_turns : (g : Group) → handed_turns (wedge g) ≡ handed_turns g
unfolding wedge
wedge-handed_turns g = elim (Bool-cases g.thread_shutdown) [
  | inl e ↦ rw (e) refl
  | inr e ↦ rw (e) (
      destroy_groups-handed_turns g.num_members (record g {
        thread_shutdown = true;
        sst =
            remove (remove (remove g.sst Predicate.stability) Predicate.delivery) Predicate.sender;
      }))
]

take_messages-index :
    (make : ℕ → Buffer) (old g h : Group)
    → g.future_message_index ≡ pos 0
    → take_messages make old g ≡ some h
    → h.future_message_index ≡ pos (resent_turns old)
unfolding take_messages
take_messages-index make old g h at e =
    let start = add_buffers make (g.window_size * g.num_members) g in
    elim (Option-cases (free_buffers old.current_receives start)) [
      | inl e0 ↦ absurd (ground arith)
      | inr (g1, e1) ↦
          elim (Option-cases (reclaim old.member_index old.locally_stable_messages g1)) [
            | inl e0 ↦ absurd (ground arith)
            | inr (g2, e2) ↦
                elim (Option-cases
                  (send_all_again (option_list old.current_send ++ old.pending_sends) g2)) [
                    | inl e0 ↦ absurd (ground arith)
                    | inr (g3, e3) ↦
                        let at1 =
                          free_buffers-index old.current_receives start g1 e1
                          ∙ add_buffers-index make (g.window_size * g.num_members) g
                          ∙ at in
                        let at2 =
                          reclaim-index old.member_index old.locally_stable_messages g1 g2 0 at1 e2
                          ∙ ap pos (omega arith) in
                        let at3 =
                          send_all_again-index (option_list old.current_send ++ old.pending_sends)
                            g2 g3 (reclaimed_turns old.member_index old.locally_stable_messages) at2
                            e3 in
                        take_next_send-index old.next_send g3 h
                          (reclaimed_turns old.member_index old.locally_stable_messages
                            + total_turns (option_list old.current_send ++ old.pending_sends))
                          at3 (ground arith)
                  ]
          ]
    ]

take_over-index :
    (make : ℕ → Buffer) (created : ℕ → Bool) (members : List ℕ) (my_id : ℕ) (t : Sst)
    (old g : Group) (already_failed : List Bool) (upcall : ℕ)
    → take_over make created members my_id t old already_failed upcall ≡ some g
    → g.future_message_index ≡ pos (handed_turns old)
unfolding take_over moved_fields
take_over-index make created members my_id t old g already_failed upcall e =
    let start : Group = moved_fields members my_id t old in
    elim (Option-cases (take_messages make old start)) [
      | inl e0 ↦ absurd (ground arith)
      | inr (g1, e1) ↦
          let with_writer : Group = record g1 {
            file_writer = elim old.file_writer [
              | none ↦ none
              | some w ↦ some (set_message_written_upcall w upcall)
            ];
          } in
          elim (Option-cases (take_unwritten old.non_persistent_messages with_writer)) [
            | inl e0 ↦ absurd (ground arith)
            | inr (g2, e2) ↦
                let at1 : with_writer.future_message_index ≡ pos (resent_turns old) =
                  take_messages-index make old start g1 refl e1 in
                let at2 =
                  take_unwritten-index old.non_persistent_messages with_writer g2 (resent_turns old)
                    at1 e2 in
                let whole : finish created already_failed g2 ≡ g = ground arith in
                ap (λ x. x.future_message_index) (sym whole)
                ∙ finish-index created already_failed g2
                ∙ at2
          ]
    ]

-- The first index that a member gives to a message of its own in the next view counts the turns of
-- all messages that the old group handed over: those it sends again, and also every message that
-- is still being written, whoever sent it, though these are not sent again.
pub next_group-index :
    (make : ℕ → Buffer) (created : ℕ → Bool) (members : List ℕ) (my_id : ℕ) (t : Sst)
    (old g : Group) (already_failed : List Bool) (upcall : ℕ)
    → next_group make created members my_id t old already_failed upcall ≡ some g
    → g.future_message_index ≡ pos (handed_turns old)
unfolding next_group
next_group-index make created members my_id t old g already_failed upcall e =
    elim (Bool-cases (offset_fits old members)) [
      | inl fits ↦
          let taken : take_over make created members my_id t (wedge old) already_failed upcall
              ≡ some g =
            ground (arith, e, fits) in
          take_over-index make created members my_id t (wedge old) g already_failed upcall taken
          ∙ ap pos (wedge-handed_turns old)
      | inr large ↦ absurd (ground (arith, e, large))
    ]
