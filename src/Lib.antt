-- ===== src/Lib.antt =====
-- Derecho: reliable ordered multicast (RDMC for the data, a shared state table for the control
-- state) under a membership service that moves the group from view to view.
--
-- The parts and how they interact. Every member holds a copy of a table with one row for each
-- member, writes its own row and puts it to the others (derecho_row.h). A view (view.h, view_impl.h)
-- names the members and which of them have failed. In a view the multicast group (derecho_group.h,
-- derecho_group_impl.h) receives messages, counts them in its row, waits until every row shows them,
-- delivers them in round-robin order, and logs them (filewriter.h, filewriter.cpp, persistence.h).
-- The membership service (managed_group.h, managed_group_impl.h) watches the rows for suspicions,
-- proposes and commits changes through them, wedges the view, agrees on the last messages and
-- installs the next view, which is kept in a file. Calls of remote functions travel as messages of
-- the group or over sockets between two members (connection_manager.h); the dispatcher runs them and
-- sends replies, for which the query waits (derecho_caller.h).
--
-- Base: numbers, lists, bytes, maps as association lists sorted by key, bounded loops.
-- Row, Row/Text: derecho_row.h and derecho_row.cpp; a volatile array is a function of its index.
-- Sst: this member's copy of the table and the calls of the table library, newest first.
-- View, View/Changes: view.h and view_impl.h; a rank of -1 is `none`.
-- View/Printed, on View/Digits: operator<< and operator>> of view_impl.h, on text as a list of codes.
-- View/Saved: persist_view and load_view of view_impl.h, one operation on the disk at a time.
-- Connections: connection_manager.h and connection_manager.cpp.
-- Rpc and its children: derecho_caller.h: Pending (PendingResults), Query (QueryResults), Wire (the
--   header of a call), Invocable (RemoteInvocable), Dispatcher (RemoteInvocableClass and Dispatcher),
--   Objects (send_objects and receive_objects).
-- FileWriter, FileWriter/Tail: filewriter.cpp, log_tail_length.cpp, latest_logged_message.cpp.
-- Group and its children: derecho_group_impl.h, one child for each group of handlers: Order and
--   Receive (the RDMC callbacks), Stable (register_predicates), Deliver (deliver_message and
--   deliver_messages_upto), Send (get_position, send, send_loop), Setup (the common end of the
--   constructors, initialize_sst_row, create_rdmc_groups, wedge), Transition (the constructors and
--   make_file_written_callback), Remote (derechoCallerSend, tcpSend, rpc_process_loop).
-- Gms and its children: managed_group_impl.h: Suspect (suspected_changed, report_failure, leave),
--   Commit (joins, acknowledgement and commit of changes), NextView (start_view_change), Ragged
--   (ragged_edge_cleanup, deliver_in_order), Install (the start of a view: the continuation after the
--   cleanup, transition_sst_and_rdmc, the views of the constructors), Removed (the upcall for members
--   that are gone), Join (commit_join and join_existing).
-- System: the groups of all members of one view, stepping in any order, each seeing the rows of the
--   others late; System/Spec is atomic multicast in total order without any of the code's state.
-- Tests: concrete states, and the theorems at them.
--
-- How the code corresponds. A handler runs under its lock, so it is one function from state to
-- state; a failed assert, an exception or undefined behaviour is `none` or an error. Calls out of the
-- program (RDMC, sockets, upcalls) are recorded as events. The message counters are integers from
-- -1 on; the counters of the membership protocol start at a view number and only rise, so they are
-- natural numbers, and no counter wraps round. Loops are structural recursion on their bound, so
-- no fuel is needed. The length N of the row's arrays (MAX_MEMBERS) and what the dispatcher replies
-- are parameters.
--
-- Arguments and results of remote functions are of one type V, the sum of the types that occur, each
-- with a codec that stands for the serialization library; the choice of a function by class and tag,
-- which the compiler makes, is its place in the list of functions. A 64-bit word in memory is its
-- bytes, least first. A wait is a sequence of looks at what is waited for, and a loop that may never
-- end (the one around send) has an outcome for that.
--
-- Not modelled: RDMC, the table library, sockets and serialization (libraries), the programs that
-- convert a state file, the constructor of ManagedGroup that recovers a saved view (it calls
-- join_existing with an argument too many), threads and condition variables, log lines, and the test
-- and benchmark programs.
pub mod Base
pub mod Row
pub mod Sst
pub mod View
pub mod Connections
pub mod Rpc
pub mod FileWriter
pub mod Group
pub mod System
pub mod Gms
pub mod Tests
