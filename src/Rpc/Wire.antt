-- ===== src/Rpc/Wire.antt =====
-- The header of a remote call (remote_invocation_utilities in derecho_caller.h): the payload's size,
-- the operation and the sender, 8 bytes each.
use old_derecho.Base.{ℕ, ◌≡◌, ◌<◌, refl, sym, ap, ◌∙◌, List, ◌++◌, drop}
use old_derecho.Base.Bytes.{read_le, write_le, limit, read_le-write_le, drop-write_le, drop-drop}

abbrev pub header_space : ℕ
header_space = 24

-- populate_header, on the memory from `reply_buf` on
unfoldable pub populate_header : List ℕ → ℕ → ℕ → ℕ → List ℕ
populate_header reply_buf payload_size op from =
    write_le 8 payload_size ++ (write_le 8 op ++ (write_le 8 from ++ drop header_space reply_buf))

-- retrieve_header: the size, the operation and the sender
unfoldable pub retrieve_header : List ℕ → ℕ × ℕ × ℕ
retrieve_header reply_buf =
    (read_le 8 reply_buf, read_le 8 (drop 8 reply_buf), read_le 8 (drop 16 reply_buf))

-- A 64-bit word
abbrev pub IsWord : ℕ → Type 0
IsWord v = v < limit 8

-- What populate_header writes, retrieve_header reads, if each is a 64-bit word; what stands behind
-- the header stays.
pub retrieve_header-populate_header :
    (buf : List ℕ) (size op from : ℕ)
    → IsWord size
    → IsWord op
    → IsWord from
    → (retrieve_header (populate_header buf size op from) ≡ (size, op, from))
      × (drop header_space (populate_header buf size op from) ≡ drop header_space buf)
unfolding retrieve_header populate_header
retrieve_header-populate_header buf size op from hs ho hf =
    let tail = drop header_space buf in
    let third = write_le 8 from ++ tail in
    let second = write_le 8 op ++ third in
    let whole = write_le 8 size ++ second in
    let to_op : drop 8 whole ≡ second = drop-write_le 8 size second in
    let to_from : drop 16 whole ≡ third =
      sym (drop-drop 8 8 16 whole refl) ∙ ap (drop 8) to_op ∙ drop-write_le 8 op third in
    (
      λ i. (
        read_le-write_le 8 size second hs i,
        (ap (read_le 8) to_op ∙ read_le-write_le 8 op third ho) i,
        (ap (read_le 8) to_from ∙ read_le-write_le 8 from tail hf) i,
      ),
      sym (drop-drop 16 8 24 whole refl) ∙ ap (drop 8) to_from ∙ drop-write_le 8 from tail,
    )
