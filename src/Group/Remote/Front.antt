-- ===== src/Group/Remote/Front.antt =====
-- What a delivery reads of the bytes that derechoCallerSend writes in front of a call.
use old_derecho.Base.{
  ℕ, ◌+◌, ◌*◌, ◌<◌, ◌≡◌, refl, sym, ap, ◌∙◌, List, [], ◌∷◌, ◌++◌, take, drop, length, length-append,
  arith,
}
use mathlib.Core.List.{append_assoc}
use old_derecho.Base.Bytes.{
  read_le, write_le, limit, length-write_le, read_le-write_le, drop-write_le, drop-append,
  drop-drop, take-append,
}
use old_derecho.Rpc.Wire.{IsWord}
use old_derecho.Group.{Buffer}
use old_derecho.Group.Deliver.{read_nodes, destination, dest_size, sizeof_size_t, sizeof_node_id}
use old_derecho.Group.Remote.{node_bytes, front_bytes, overwrite}

-- Node IDs are 32-bit words.
abbrev pub AllIds : List ℕ → Type 0
AllIds [] = Unit {0}
AllIds (n ∷ ns) = (n < limit 4) × AllIds ns

read_nodes-node_bytes :
    (nodes rest : List ℕ)
    → AllIds nodes
    → read_nodes (length nodes) (node_bytes nodes ++ rest) ≡ nodes
unfolding read_nodes node_bytes
read_nodes-node_bytes [] rest h = refl
read_nodes-node_bytes (n ∷ ns) rest h =
    let joined = append_assoc (write_le 4 n) (node_bytes ns) rest in
    let behind = node_bytes ns ++ rest in
    (λ i. read_le 4 (joined i) ∷ read_nodes (length ns) (drop 4 (joined i)))
    ∙ (λ i. read_le-write_le 4 n behind h.0 i ∷ read_nodes (length ns) (drop-write_le 4 n behind i))
    ∙ ap (λ l. n ∷ l) (read_nodes-node_bytes ns rest h.1)

length-node_bytes : (nodes : List ℕ) → length (node_bytes nodes) ≡ sizeof_node_id * length nodes
unfolding node_bytes
length-node_bytes [] = refl
length-node_bytes (n ∷ ns) =
    let whole = length-append (write_le 4 n) (node_bytes ns) in
    omega (arith, whole, length-write_le 4 n, length-node_bytes ns)

-- What a delivery reads in front of a call: the nodes, and the call behind them.
pub front_bytes-read :
    (nodes message old : List ℕ) (b : Buffer)
    → IsWord (length nodes)
    → AllIds nodes
    → b.body ≡ overwrite (front_bytes nodes ++ message) old
    → (dest_size b ≡ length nodes)
      × (destination b ≡ nodes)
      × (take (length message) (drop (sizeof_size_t + sizeof_node_id * dest_size b) b.body)
          ≡ message)
unfolding overwrite front_bytes destination
front_bytes-read nodes message old b fits ids e =
    let rest = message ++ drop (length (front_bytes nodes ++ message)) old in
    let body : b.body ≡ write_le 8 (length nodes) ++ (node_bytes nodes ++ rest) =
      e
      ∙ append_assoc (front_bytes nodes) message _
      ∙ append_assoc (write_le 8 (length nodes)) (node_bytes nodes) rest in
    let size : dest_size b ≡ length nodes =
      ap (read_le 8) body ∙ read_le-write_le 8 (length nodes) (node_bytes nodes ++ rest) fits in
    let front : drop 8 b.body ≡ node_bytes nodes ++ rest =
      ap (drop 8) body ∙ drop-write_le 8 (length nodes) (node_bytes nodes ++ rest) in
    let behind : drop (sizeof_size_t + sizeof_node_id * dest_size b) b.body ≡ rest =
      sym (drop-drop 8 (sizeof_node_id * dest_size b) _ b.body refl)
      ∙ ap (drop (sizeof_node_id * dest_size b)) front
      ∙ drop-append (sizeof_node_id * dest_size b) (node_bytes nodes) rest
          (length-node_bytes nodes ∙ ap (λ n. sizeof_node_id * n) (sym size)) in
    (
      size,
      (λ i. read_nodes (size i) (front i)) ∙ read_nodes-node_bytes nodes rest ids,
      ap (take (length message)) behind ∙ take-append (length message) message _ refl,
    )
