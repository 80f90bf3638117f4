-- ===== src/Connections.antt =====
-- class tcp_connections (connection_manager.h, connection_manager.cpp): one socket to each other
-- node. The socket library is a parameter: what it answers to each call. A failed `assert` is `none`.
-- The language leaves open, before C++17, whether `sockets[other_id] = socket(...)` makes its entry
-- before it connects: `entry_first` says what the compiler chose.
pub mod Added
use old_derecho.Base.{
  ℕ, zero, suc, Bool, true, false, not, ◌&&◌, ◌||◌, Option, none, some, List, [], ◌∷◌,
  if◌then◌else◌, ltb, ◌==◌, is_some, ℤ, pos, negsuc,
}
use old_derecho.Base.Maps.{Map, find, assign, emplace, erase}
use old_derecho.View.{Ip}

-- The outcome of the calls of the socket library while one node is added; `none` is an exception or
-- a failure. `exchange` sends the own ID and gives that of the other side.
pub record Network (S : Type 0) : Type 0 where
  pub connect : Ip → Option S
  pub accept : Option S
  pub exchange : S → ℕ → Option ℕ
  pub entry_first : Bool
  pub empty_socket : S

pub record Connections (S : Type 0) : Type 0 where
  pub my_id : ℕ
  pub listening : Bool
  pub sockets : Map S

module _ {S : Type 0} where
  -- The lower ID connects to the other one: the branch `other_id < my_id`.
  unfoldable pub connect_to : Network S → ℕ → Ip → Connections S → Bool × Connections S
  connect_to net other_id other_ip c = elim (net.connect other_ip) [
    | none ↦
        if net.entry_first
        then (false, record c { sockets = emplace (pos other_id) net.empty_socket c.sockets })
        else (false, c)
    | some s ↦
        let sockets = assign (pos other_id) s c.sockets in
        let erased = record c { sockets = erase (pos other_id) sockets } in
        elim (net.exchange s c.my_id) [
          | none ↦ (false, erased)
          | some remote_id ↦
              if remote_id == other_id
              then (true, record c { sockets = sockets })
              else (false, erased)
        ]
  ]

  -- The branch `other_id > my_id`
  unfoldable pub accept_from : Network S → Connections S → Bool × Connections S
  accept_from net c = elim net.accept [
    | none ↦ (false, c)
    | some s ↦ elim (net.exchange s c.my_id) [
      | none ↦ (false, c)
      | some remote_id ↦ (true, record c { sockets = assign (pos remote_id) s c.sockets })
    ]
  ]

  unfoldable pub add_connection : Network S → ℕ → Ip → Connections S → Bool × Connections S
  unfolding connect_to accept_from
  add_connection net other_id other_ip c =
      if ltb other_id c.my_id
      then connect_to net other_id other_ip c
      else if ltb c.my_id other_id
      then accept_from net c
      else (false, c)

  -- The loop of establish_node_connections; `net` has the outcomes for each node.
  unfoldable pub connect_all : (ℕ → Network S) → List (ℕ × Ip) → Connections S → Connections S
  unfolding add_connection
  connect_all net [] c = c
  connect_all net ((id, ip) ∷ nodes) c =
      if id == c.my_id
      then connect_all net nodes c
      else connect_all net nodes (add_connection (net id) id ip c).1

  -- The constructor: the listener, and then a connection to each node.
  unfoldable pub establish_node_connections : (ℕ → Network S) → ℕ → List (ℕ × Ip) → Connections S
  unfolding connect_all
  establish_node_connections net my_id ip_addrs =
      connect_all net ip_addrs (record { my_id = my_id; listening = true; sockets = [] })

  unfoldable pub destroy : Connections S → Connections S
  destroy c = record c { sockets = []; listening = false }

  -- write, read and exchange on one node's socket; `call` is what the library's call gives.
  unfoldable pub on_socket {ℓ} : {R : Type ℓ} → (S → R) → ℕ → Connections S → Option R
  on_socket call node_id c = elim (find (pos node_id) c.sockets) [
    | none ↦ none
    | some s ↦ some (call s)
  ]

  -- The loop of write_all: the result, and the nodes that were written to.
  unfoldable pub write_sockets : (S → Bool) → ℕ → Bool → Map S → Bool × List ℤ
  write_sockets write my_id success [] = (success, [])
  write_sockets write my_id success ((id, s) ∷ rest) =
      let (ok, written) = write_sockets write my_id (success && write s) rest in
      let skipped = write_sockets write my_id success rest in
      if own id my_id then skipped else if success then (ok, id ∷ written) else (ok, written)
    where
      own : ℤ → ℕ → Bool
      own (pos n) my_id = n == my_id
      own (negsuc n) my_id = false

  unfoldable pub write_all : (S → Bool) → Connections S → Bool × List ℤ
  unfolding write_sockets
  write_all write c = write_sockets write c.my_id true c.sockets

  -- add_node
  unfoldable pub add_node : Network S → ℕ → Ip → Connections S → Option (Bool × Connections S)
  unfolding add_connection
  add_node net new_id new_ip_addr c =
      if new_id == c.my_id || is_some (find (pos new_id) c.sockets)
      then none
      else some (add_connection net new_id new_ip_addr c)

  -- probe_all: the first node with data; `none` is -1.
  unfoldable pub probe_sockets : (S → Bool) → Map S → Option ℤ
  probe_sockets probe [] = none
  probe_sockets probe ((id, s) ∷ rest) = if probe s then some id else probe_sockets probe rest

  unfoldable pub probe_all : (S → Bool) → Connections S → Option ℤ
  unfolding probe_sockets
  probe_all probe c = probe_sockets probe c.sockets
