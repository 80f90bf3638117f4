-- ===== src/View/Crash.antt =====
-- A view on disk survives a stop of the program at any moment of its replacement.
use old_derecho.Base.{
  ◌≤◌, ℕ, zero, suc, ◌+◌, ◌-◌, ◌<◌, ◌≡◌, refl, sym, ap, ◌∙◌, ◌⊎◌, inl, inr, true, false, Option,
  none, some, List, [], ◌∷◌, ◌++◌, take, length, length-append, if◌then◌else◌, leb, ltb, arith,
  dec_lt, Bool-cases,
}
use mathlib.Core.List.{append_assoc, append-nil}
use old_derecho.Base.Bytes.{
  write_le, length-write_le, read_le-write_le, drop-write_le, length-take, take_all, take_behind,
}
use old_derecho.Rpc.Invocable.{Codec, RoundTrips}
use old_derecho.Rpc.Wire.{IsWord}
use old_derecho.View.{View}
use old_derecho.View.Saved.{
  Disk, perform, perform_all, file_bytes, writes, persist_view, load_file, newer, load_view,
}

-- The disk after k of the operations that follow the opening of the swap file.
disk_after : ℕ → List ℕ → Option (List ℕ) → List ℕ → Disk
disk_after k before file bytes =
    if leb k (length bytes)
    then record { view_file = file; view_file_swap = some (before ++ take k bytes) }
    else record { view_file = some (before ++ bytes); view_file_swap = none }

perform_all-writes :
    (k : ℕ) (before bytes : List ℕ) (file : Option (List ℕ))
    → perform_all
        (take k (writes bytes))
        (record { view_file = file; view_file_swap = some before })
      ≡ disk_after k before file bytes
unfolding perform_all writes disk_after
perform_all-writes zero before bytes file =
    ap (λ l. record { view_file = file; view_file_swap = some l }) (sym (append-nil before))
    ∙ ground arith
perform_all-writes (suc zero) before [] file =
    ap (λ l. record { view_file = some l; view_file_swap = none }) (sym (append-nil before))
perform_all-writes (suc (suc k)) before [] file =
    ap (λ l. record { view_file = some l; view_file_swap = none }) (sym (append-nil before))
    ∙ ground arith
perform_all-writes (suc k) before (b ∷ bytes) file =
    perform_all-writes k (before ++ b ∷ []) bytes file
    ∙ rw (append_assoc before (b ∷ []) (take k bytes), append_assoc before (b ∷ []) bytes)
        (ground arith)

load_file-size :
    (c : Codec View) (size : ℕ) (body : List ℕ)
    → IsWord size
    → load_file c (some (write_le 8 size ++ body))
      ≡ some (if ltb (length body) size then none else some (c.from_bytes (take size body)))
unfolding load_file
load_file-size c size body fits =
    let long : length (write_le 8 size ++ body) ≡ 8 + length body =
      length-append (write_le 8 size) body ∙ ap (λ n. n + length body) (length-write_le 8 size) in
    let enough : ltb (length (write_le 8 size ++ body)) 8 ≡ false = ground (arith, long) in
    rw (enough, read_le-write_le 8 size body fits, drop-write_le 8 size body) refl

length-writes : (bytes : List ℕ) → length bytes < length (writes bytes)
unfolding writes
length-writes [] = omega arith
length-writes (b ∷ bytes) = omega (arith, length-writes bytes)

load_view-parts :
    (c : Codec View) (d : Disk) (view swap_view : Option View)
    → load_file c d.view_file ≡ some view
    → load_file c d.view_file_swap ≡ some swap_view
    → load_view c d ≡ some (newer view swap_view)
unfolding load_view
load_view-parts c d view swap_view e f = rw (load_view, e, f) refl

load_view-undefined :
    (c : Codec View) (d : Disk) (view : Option View)
    → load_file c d.view_file ≡ some view
    → load_file c d.view_file_swap ≡ none
    → load_view c d ≡ none
unfolding load_view
load_view-undefined c d view e f = rw (load_view, e, f) refl

newer-either :
    (old : Option View) (w : View) → (newer old (some w) ≡ old) ⊎ (newer old (some w) ≡ some w)
unfolding newer
newer-either none w = inr refl
newer-either (some v) w = elim (Bool-cases (leb w.vid v.vid)) [
  | inl kept ↦ inl (ground (arith, kept))
  | inr replaced ↦ inr (ground (arith, replaced))
]

module _ (c : Codec View) (w : View) (trips : RoundTrips c w)
    (fits : IsWord (length (c.to_bytes w))) where
  -- A file that is there in full is read back.
  load_file-file_bytes : load_file c (some (file_bytes c w)) ≡ some (some w)
  unfolding file_bytes
  load_file-file_bytes =
      let bytes = c.to_bytes w in
      let whole : c.from_bytes (take (length bytes) bytes) ≡ w =
        ap c.from_bytes (take_all (length bytes) bytes (omega arith) ∙ sym (append-nil bytes))
        ∙ trips [] in
      load_file-size c (length bytes) bytes fits ∙ ground (arith, whole)

  length-file_bytes : length (file_bytes c w) ≡ 8 + length (c.to_bytes w)
  unfolding file_bytes
  length-file_bytes =
      length-append (write_le 8 (length (c.to_bytes w))) (c.to_bytes w)
      ∙ ap (λ n. n + length (c.to_bytes w)) (length-write_le 8 (length (c.to_bytes w)))

  -- A file that is cut short in its size is read in an undefined way.
  load_file-short : (k : ℕ) → k < 8 → load_file c (some (take k (file_bytes c w))) ≡ none
  unfolding load_file
  load_file-short k lt =
      let cut = length-take k (file_bytes c w) (omega (arith, lt, length-file_bytes)) in
      ground (arith, cut, lt)

  -- A file that is cut short behind it holds no view.
  load_file-cut :
      (k : ℕ)
      → 8 ≤ k
      → k < length (file_bytes c w)
      → load_file c (some (take k (file_bytes c w))) ≡ some none
  unfolding file_bytes
  load_file-cut k ge lt =
      let size = length (c.to_bytes w) in
      let behind : k ≡ 8 + (k - 8) = omega (arith, ge) in
      let cut : length (take (k - 8) (c.to_bytes w)) ≡ k - 8 =
        length-take (k - 8) (c.to_bytes w) (omega (arith, lt, length-file_bytes, behind)) in
      let parts : take k (file_bytes c w) ≡ write_le 8 size ++ take (k - 8) (c.to_bytes w) =
        ap (λ m. take m (file_bytes c w)) behind
        ∙ take_behind 8 (k - 8) (write_le 8 size) (c.to_bytes w) (length-write_le 8 size) in
      ap (λ l. load_file c (some l)) parts
      ∙ load_file-size c size (take (k - 8) (c.to_bytes w)) fits
      ∙ ground (arith, cut, lt, length-file_bytes, behind)

  -- The disk k operations after the opening of the swap file, if the view file can be read.
  module _ (file : Option (List ℕ)) (old : Option View)
      (readable : load_file c file ≡ some old) where
    abbrev after : ℕ → Disk
    after k = disk_after k [] file (file_bytes c w)

    after_short : (k : ℕ) → k < 8 → load_view c (after k) ≡ none
    unfolding disk_after
    after_short k lt =
        let within : leb k (length (file_bytes c w)) ≡ true =
          ground (arith, lt, length-file_bytes) in
        rw within (load_view-undefined c _ old readable (load_file-short k lt))

    after_renamed : (k : ℕ) → length (file_bytes c w) < k → load_view c (after k) ≡ some (some w)
    unfolding disk_after load_file newer
    after_renamed k more =
        let renamed : leb k (length (file_bytes c w)) ≡ false = ground (arith, more) in
        rw renamed (load_view-parts c _ (some w) none load_file-file_bytes refl)

    after_long :
        (k : ℕ)
        → 8 ≤ k
        → (load_view c (after k) ≡ some old) ⊎ (load_view c (after k) ≡ some (some w))
    unfolding disk_after newer
    after_long k ge = elim (dec_lt k (length (file_bytes c w))) [
      | yes cut ↦
          let within : leb k (length (file_bytes c w)) ≡ true = ground (arith, cut) in
          inl (rw within (load_view-parts c _ old none readable (load_file-cut k ge cut)))
      | no written ↦ elim (Bool-cases (leb k (length (file_bytes c w)))) [
        | inl within ↦
            let whole : take k (file_bytes c w) ≡ file_bytes c w =
              take_all k (file_bytes c w) (omega (arith, written)) in
            let there : load_view c (after k) ≡ some (newer old (some w)) =
              rw (within, whole) (load_view-parts c _ old (some w) readable load_file-file_bytes) in
            elim (newer-either old w) [
              | inl kept ↦ inl (there ∙ ap some kept)
              | inr replaced ↦ inr (there ∙ ap some replaced)
            ]
        | inr renamed ↦ inr (after_renamed k (ground (arith, renamed)))
      ]
    ]

    -- The program may stop after any of the operations with which persist_view replaces the saved
    -- view, of which the first opens the swap file and each next one writes a byte; whatever the swap
    -- file held, and if the view file can be read. With fewer than eight bytes written, load_view is
    -- undefined. From eight bytes on, it gives what the view file held before, or the new view; once
    -- all operations are done, it gives the new view. The view's serialisation must read back the new
    -- view, and its length must fit in 64 bits.
    pub load_view-persist_view :
        (d : Disk) (k : ℕ)
        → d.view_file ≡ file
        → let stopped = perform_all (take (suc k) (persist_view c w)) d in
          (k < 8 → load_view c stopped ≡ none)
          × (8 ≤ k → (load_view c stopped ≡ some old) ⊎ (load_view c stopped ≡ some (some w)))
          × (load_view c (perform_all (persist_view c w) d) ≡ some (some w))
    unfolding persist_view perform_all perform
    load_view-persist_view d k same =
        let bytes = file_bytes c w in
        let at = λ (k : ℕ).
          perform_all-writes k [] bytes d.view_file ∙ ap (λ f. disk_after k [] f bytes) same in
        let all = length (writes bytes) in
        let last = rw (take_all all (writes bytes) (omega arith)) at (at all) in
        (
          λ few. rw (at k) (after_short k few),
          λ enough. rw (at k) (after_long k enough),
          rw last (after_renamed all (length-writes bytes)),
        )
