-- ===== src/Row.antt =====
-- derecho_row.h and derecho_row.cpp: the row that a member shares, and the helpers that write it.
-- The arrays of N cells are functions of their index. The counters `nChanges`, `nCommitted`,
-- `nAcked` and `vid` are ints that start at a view number and only rise, so they are numbers; the
-- message counters start at -1. The fences and the locks round a memcpy have no counterpart.
pub mod Text
pub mod Laws
use old_derecho.Base.{
  ℕ, zero, suc, ◌+◌, ◌-◌, ◌*◌, ◌/◌, ◌%◌, ◌^◌, ◌≤◌, ◌<◌, ◌≡◌, refl, sym, ap, ◌∙◌, ◌≢◌, ◌↔◌, ◌⊎◌, inl,
  inr, Bool, true, false, not, ◌&&◌, ◌||◌, Option, none, some, List, [], ◌∷◌, ◌++◌, map, arith, ltb,
  leb, ◌==◌, if◌then◌else◌, Bool-cases, Option-cases, length, ℤ, pos, negsuc, update, for_below,
  for_below_inv,
}

-- struct DerechoRow
pub record Row : Type 0 where
  pub seq_num : ℤ
  pub stable_num : ℤ
  pub delivered_num : ℤ
  pub persisted_num : ℤ
  pub vid : ℕ
  pub suspected : ℕ → Bool
  pub changes : ℕ → ℕ
  pub joiner_ip : ℕ → ℕ
  pub n_changes : ℕ
  pub n_committed : ℕ
  pub n_acked : ℕ
  pub n_received : ℕ → ℤ
  pub wedged : Bool
  pub global_min : ℕ → ℤ
  pub global_min_ready : Bool

-- set(e[Len], value[Len]) with Len = n, and set(dst, src, num) with num = n: memcpy of n cells.
unfoldable pub copy_array {ℓ} : {A : Type ℓ} → ℕ → (ℕ → A) → (ℕ → A) → ℕ → A
copy_array n dst src j = if ltb j n then src j else dst j

-- The loop of `init` over the cells of `suspected`, `globalMin` and `changes`.
clear_cell : ℕ → Row → Row
clear_cell i r = record r {
  suspected = update r.suspected i false;
  global_min = update r.global_min i (pos 0);
  changes = update r.changes i 0;
}

-- init(newRow, vid), with the row's length N as `n_max`.
unfoldable pub init_at : ℕ → Row → ℕ → Row
unfolding clear_cell
init_at n_max r vid = record (for_below n_max clear_cell (record r { vid = vid })) {
  n_changes = vid;
  n_committed = vid;
  n_acked = vid;
  wedged = false;
  global_min_ready = false;
}

-- init(newRow)
unfoldable pub init : ℕ → Row → Row
unfolding init_at
init n_max r = init_at n_max r 0

-- The loop of `init_from_existing`.
forget_cell : ℕ → Row → Row
forget_cell i r = record r {
  suspected = update r.suspected i false;
  global_min = update r.global_min i (pos 0);
}

-- init_from_existing(newRow, existingRow)
unfoldable pub init_from_existing : ℕ → Row → Row → Row
unfolding forget_cell copy_array
init_from_existing n_max r old =
    record (for_below n_max forget_cell
      (record r { changes = copy_array n_max r.changes old.changes })) {
        n_changes = old.n_changes;
        n_committed = old.n_committed;
        n_acked = old.n_acked;
        wedged = false;
        global_min_ready = false;
      }

-- increment(member)
abbrev pub increment : ℕ → ℕ
increment n = n + 1
