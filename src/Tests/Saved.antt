-- ===== src/Tests/Saved.antt =====
-- A view on disk and on a socket, the first view of a group, the sizes of its messages, and a node
-- that is connected.
use old_derecho.Base.{
  ℕ, ◌+◌, ◌%◌, ◌<◌, ◌≤◌, ◌≡◌, ◌≢◌, ◌⊎◌, refl, true, Option, none, some, [], ◌∷◌, ◌++◌, take, suc,
  not, arith, pos,
}
use old_derecho.Base.Maps.{find, assign}
use old_derecho.Tests.Data.{a_view}
use old_derecho.Rpc.Invocable.{Codec, serialize_all}
use old_derecho.View.{View}
use old_derecho.View.Saved.{Disk, perform_all, persist_view, load_file, load_view}
use old_derecho.View.Crash.{load_view-persist_view}
use old_derecho.View.Printed.{print_view, parse_view}
use old_derecho.View.Digits.{is_space}
use old_derecho.View.Lines.{IsToken}
use old_derecho.View.Parsed.{read_into, parse_view-print_view}
use old_derecho.Base.Bytes.{read_le}
use old_derecho.Gms.Join.{
  join_existing, welcome, commit_join, join_existing-welcome, join_existing-commit_join,
}
use old_derecho.Group.{compute_max_msg_size, sizeof_header}
use old_derecho.Group.Setup.Sizes.{compute_max_msg_size_bounds}
use old_derecho.Connections.{Network, Connections, add_node, add_connection, connect_to}
use old_derecho.Connections.Added.{ConnectedTo, AcceptedFrom, add_node_lem}

-- The bytes of a view: here its ID alone, the rest being that of one view.
abbrev a_codec : Codec View
a_codec = record {
  to_bytes = λ v. v.vid % 256 ∷ [];
  from_bytes = λ bytes. elim bytes [ [] ↦ a_view | b ∷ rest ↦ record a_view { vid = b } ];
}

-- The view file holds a view, and the swap file what is left of an earlier one.
abbrev a_disk : Disk
a_disk = record {
  view_file = some (1 ∷ 0 ∷ 0 ∷ 0 ∷ 0 ∷ 0 ∷ 0 ∷ 0 ∷ 3 ∷ []);
  view_file_swap = some (1 ∷ []);
}

abbrev an_old_view : Option View
an_old_view = some (record a_view { vid = 3 })

load_view-persist_view_example :
    let stopped = perform_all (take (suc 9) (persist_view a_codec a_view)) a_disk in
    (9 < 8 → load_view a_codec stopped ≡ none)
    × (8 ≤ 9
        → (load_view a_codec stopped ≡ some an_old_view)
          ⊎ (load_view a_codec stopped ≡ some (some a_view)))
    × (load_view a_codec (perform_all (persist_view a_codec a_view) a_disk) ≡ some (some a_view))
unfolding load_file read_le
load_view-persist_view_example =
    load_view-persist_view a_codec a_view (λ rest. refl) (omega arith) a_disk.view_file an_old_view
      refl a_disk 9 refl

-- Sockets are numbers. Node 10 answers under its ID.
abbrev a_network : Network ℕ
a_network = record {
  connect = λ ip. some 3;
  accept = none;
  exchange = λ s id. some 10;
  entry_first = true;
  empty_socket = 0;
}

abbrev no_sockets : Connections ℕ
no_sockets = record { my_id = 20; listening = true; sockets = [] }

abbrev one_socket : Connections ℕ
one_socket = record no_sockets { sockets = (pos 10, 3) ∷ [] }

add_node_lem_example :
    (10 ≢ no_sockets.my_id)
    × (find (pos 10) no_sockets.sockets ≡ none)
    × (10 < no_sockets.my_id → ConnectedTo a_network 10 (49 ∷ []) no_sockets true one_socket)
    × (no_sockets.my_id < 10 → AcceptedFrom a_network no_sockets true one_socket)
unfolding add_node add_connection connect_to find assign
add_node_lem_example = add_node_lem a_network 10 (49 ∷ []) no_sockets one_socket true tt refl

abbrev size_codec : Codec ℕ
size_codec = record {
  to_bytes = λ v. v % 256 ∷ [];
  from_bytes = λ bytes. elim bytes [ [] ↦ 0 | b ∷ rest ↦ b ];
}

join_existing-commit_join_example :
    join_existing a_codec size_codec (size_codec ∷ []) (commit_join a_codec size_codec a_view 64)
    ≡ none
join_existing-commit_join_example =
    join_existing-commit_join a_codec size_codec (size_codec ∷ []) a_view 64 (λ rest. refl)
      (λ rest. refl) (omega arith) (omega arith)

join_existing-welcome_example :
    join_existing a_codec size_codec
      (size_codec ∷ size_codec ∷ [])
      (welcome a_codec size_codec (size_codec ∷ size_codec ∷ []) a_view 64 (3 ∷ 5 ∷ []) ++ (1 ∷ []))
    ≡ some (a_view, 64, (3 ∷ 5 ∷ []), (1 ∷ []))
unfolding serialize_all
join_existing-welcome_example =
    join_existing-welcome a_codec size_codec (size_codec ∷ size_codec ∷ []) a_view 64 (3 ∷ 5 ∷ [])
      (1 ∷ []) (λ rest. refl) (λ rest. refl) (λ rest. refl, (λ rest. refl, tt)) (omega arith)
      (omega arith) (omega arith)

compute_max_msg_size_bounds_example :
    (m : ℕ) × (compute_max_msg_size 10 64 ≡ some m)
    × (10 + sizeof_header ≤ m)
    × (m < 10 + sizeof_header + 64)
    × (m % 64 ≡ 0)
compute_max_msg_size_bounds_example = compute_max_msg_size_bounds 10 64 (omega arith) (omega arith)

abbrev no_view : View
no_view = record a_view { members = []; member_ips = []; failed = [] }

one_character : (c : ℕ) → not (is_space c) ≡ true → IsToken (c ∷ [])
one_character c h = (λ e. absurd (ground (arith, e)), (h, tt))

parse_view-print_view_example :
    parse_view (print_view a_view) no_view ≡ some ([], read_into no_view a_view)
parse_view-print_view_example =
    parse_view-print_view a_view no_view (omega arith) (omega arith) (omega arith) (omega arith)
      (omega arith, (omega arith, (omega arith, tt)))
      (one_character 1 refl, (one_character 2 refl, (one_character 3 refl, tt)))
