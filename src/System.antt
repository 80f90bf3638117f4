-- ===== src/System.antt =====
-- The members of one view together: each runs the handlers of derecho_group_impl.h on its own copy
-- of the table, in any order, and sees the rows of the others late. The table library writes a row
-- that was put into the memory of another member; here a member may see the own row of another as it
-- is at any moment, which includes every moment after a put.
pub mod Invariant
pub mod Steps
pub mod Safety
pub mod Messages
pub mod Waiting
pub mod Spec
pub mod TotalOrder
pub mod Refinement
use old_derecho.Base.{ℕ, ◌<◌, ◌≡◌, Bool, Option, none, some, List, update}
use old_derecho.Sst.{write_row}
use old_derecho.Group.{Header, Buffer, Group, own}
use old_derecho.Group.Receive.{receive_destination, receive_handler}
use old_derecho.Group.Stable.{stability_trig, delivery_trig}
use old_derecho.Group.Send.{get_position, send, send_loop_turn}
use old_derecho.Group.Setup.{initialize_sst_row}

abbrev pub System : Type 0
System = ℕ → Group

-- Member i's copy of the row of member j becomes the row of j.
unfoldable pub see : System → ℕ → ℕ → Group
see s i j = record (s i) { sst = write_row (s i).sst j (own (s j)) }

-- One handler runs at one of the n members. Messages come in the groups of RDMC, of which there is
-- one for each member that sends.
pub data Step (reply_size : Buffer → ℕ → ℕ) (n : ℕ) (s : System) : System → Type 0 where
  receives :
      (i sender : ℕ) (h : Header) (g : Group)
      → i < n
      → sender < n
      → receive_handler (s i) sender h ≡ some g
      → Step reply_size n s (update s i g)
  stabilises : (i : ℕ) → i < n → Step reply_size n s (update s i (stability_trig (s i)))
  delivers :
      (i : ℕ) (g : Group)
      → i < n
      → delivery_trig reply_size (s i) ≡ some g
      → Step reply_size n s (update s i g)
  sees : (i j : ℕ) → i < n → j < n → Step reply_size n s (update s i (see s i j))
  assigns :
      (i sender length : ℕ) (b : Buffer) (g : Group)
      → i < n
      → receive_destination (s i) sender length ≡ some (b, g)
      → Step reply_size n s (update s i g)
  takes_position :
      (i payload turns : ℕ) (cooked : Bool) (b : Buffer) (g : Group)
      → i < n
      → get_position (s i) payload turns cooked ≡ some (b, g)
      → Step reply_size n s (update s i g)
  sends :
      (i : ℕ) (sent : Bool) (g : Group)
      → i < n
      → send (s i) ≡ some (sent, g)
      → Step reply_size n s (update s i g)
  turns :
      (i : ℕ) (accepted : Bool) (g : Group)
      → i < n
      → send_loop_turn accepted (s i) ≡ some g
      → Step reply_size n s (update s i g)

-- Every member has just run initialize_sst_row, at its own row of a table for n members.
pub record IsStart (n : ℕ) (s : System) : Type 0 where
  pub size : (i : ℕ) → i < n → (s i).num_members ≡ n
  pub index : (i : ℕ) → i < n → (s i).sst.local_index ≡ i

abbrev pub start : System → System
start s i = initialize_sst_row (s i)

pub data Reach (reply_size : Buffer → ℕ → ℕ) (n : ℕ) (s : System) : System → Type 0 where
  here : Reach reply_size n s (start s)
  next : {t u : System} → Reach reply_size n s t → Step reply_size n t u → Reach reply_size n s u
