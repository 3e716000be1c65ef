-- ===== src/Market/Ledger.antt =====
-- The market ledger: the rows, stakes and earnings of apps/web/src/market/store.ts.
pub mod Order
pub mod Closing
pub mod Stakes
pub mod Listing
use eth_global_lisbon_2026_h.Base.{
  ℕ, suc, ◌+◌, String, Bool, true, false, not, ◌&&◌, ◌||◌, Option, none, some, List, [], ◌∷◌, ◌++◌,
  map, leb, ltb, lookup, insert, erase, includes, filter, length, or_else, is_some, is_none, codes,
  to_lower, Eq, ◌==◌, nat_eq, string_eq, option_eq, list_eq, if◌then◌else◌, Fields, ◌↔◌, ◌≡◌,
  eq_iff, arith,
}
use eth_global_lisbon_2026_h.Hub.Rig.{EpisodeMotion}
use eth_global_lisbon_2026_h.Market.Row.{
  RowStatus, opened, closed, graded, paid, rejected, anchored, Claimed, success, discarded,
  abandoned, slot_expired, RowId, id_eq, Operator, RowTelemetry, Evidence, Grade, PaymentKind,
  bonus, nothing, Payment, Provenance, LedgerRow, BondStatus, locked, released, slashed, BondState,
  Market, is_open,
}

unfoldable pub note_client : ℕ → Market → String → String → Market
note_client now m client_id nullifier = record m {
  client_nullifier = insert client_id (nullifier, now) m.client_nullifier;
}

nullifier_in : Option (String × ℕ) → Option String
nullifier_in none = none
nullifier_in (some (n, at)) = some n

unfoldable pub nullifier_for : Market → String → Option String
unfolding nullifier_in
nullifier_for m client_id = nullifier_in (lookup client_id m.client_nullifier)

pub record OpenRequest : Type 0 where
  pub rig : String
  pub task_id : Option String
  pub client_id : String
  pub evm_address : Option String
  pub slot_id : Option ℕ
  pub slot_chain : Option String

open_only : Option LedgerRow → Option LedgerRow
open_only none = none
open_only (some row) = if is_open row.status then some row else none

open_at : Market → Option RowId → Option LedgerRow
unfolding open_only
open_at m none = none
open_at m (some id) = open_only (lookup id m.rows)

-- The row of the attempt that is running on the rig, if one is.
unfoldable pub open_row_for : Market → String → Option LedgerRow
unfolding open_at
open_row_for m rig = open_at m (lookup rig m.open_by_rig)

new_row : ℕ → Market → OpenRequest → LedgerRow
new_row now m input = record {
  id = record { at = now; seq = suc m.seq };
  rig = input.rig;
  task_id = input.task_id;
  task_title = none;
  rig_attempt_id = none;
  source = none;
  slot_id = input.slot_id;
  slot_chain = input.slot_chain;
  operator = record {
    client_id = input.client_id;
    nullifier = nullifier_for m input.client_id;
    evm_address = input.evm_address;
  };
  claimed = none;
  telemetry = record {
    duration_s = 0;
    joint_travel_deg = 0;
    commanded_motion = 0;
    input_packets = 0;
    gripper_cycles = 0;
    episode_saved = none;
    samples = 0;
    episode = none;
  };
  evidence = record { frame_jpeg = none; cam = none };
  grade = none;
  payment = none;
  provenance = none;
  status = opened;
  opened_at = now;
  closed_at = none;
}

unfoldable pub put_row : Market → LedgerRow → Market
put_row m row = record m { rows = insert row.id row m.rows }

add_row : Market → LedgerRow → Market
unfolding put_row
add_row m row = record (put_row m row) {
  seq = suc m.seq;
  open_by_rig = insert row.rig row.id m.open_by_rig;
}

-- An attempt that starts while a row is open on the rig goes on with that row.
unfoldable pub open_row : ℕ → Market → OpenRequest → Market × LedgerRow
unfolding new_row add_row
open_row now m input = elim (open_row_for m input.rig) [
  | some row ↦ (m, row)
  | none ↦ (add_row m (new_row now m input), new_row now m input)
]

closed_row : ℕ → Option Claimed → LedgerRow → LedgerRow
closed_row now claimed row = record row { claimed = claimed; status = closed; closed_at = some now }

unfoldable pub close_row : ℕ → Market → String → Option Claimed → Market × Option LedgerRow
unfolding closed_row put_row
close_row now m rig claimed = elim (open_row_for m rig) [
  | none ↦ (m, none)
  | some row ↦
      let row' = closed_row now claimed row in
      (record (put_row m row') { open_by_rig = erase rig m.open_by_rig }, some row')
]

unfoldable pub insert_row : LedgerRow → List LedgerRow → List LedgerRow
insert_row row [] = row ∷ []
insert_row row (r ∷ rs) =
    if leb r.opened_at row.opened_at then row ∷ r ∷ rs else r ∷ insert_row row rs

unfoldable pub sort_rows : List LedgerRow → List LedgerRow
unfolding insert_row
sort_rows [] = []
sort_rows (r ∷ rs) = insert_row r (sort_rows rs)

-- Newest first; rows of one millisecond in the order in which they were opened.
unfoldable pub list_rows : Market → List LedgerRow
unfolding sort_rows
list_rows m = sort_rows (map (λ e. e.1) m.rows)

unfoldable pub get_row : Market → RowId → Option LedgerRow
get_row m id = lookup id m.rows

abbrev pub is_locked : BondStatus → Bool
is_locked locked = true
is_locked _ = false

unfoldable pub locked_only : Option BondState → Option BondState
locked_only none = none
locked_only (some b) = if is_locked b.status then some b else none

unfoldable pub get_bond : Market → String → Option BondState
unfolding locked_only
get_bond m nullifier = locked_only (lookup nullifier m.bonds)

abbrev pub lower_case : String → List ℕ
lower_case s = map to_lower (codes s)

unfoldable pub put_bond : Market → BondState → Market
put_bond m bond = record m {
  bonds = insert bond.nullifier bond m.bonds;
  used_stakes = m.used_stakes ++ lower_case bond.stake_tx_hash ∷ [];
}

unfoldable pub stake_already_used : Market → String → Bool
stake_already_used m tx_hash = includes (lower_case tx_hash) m.used_stakes

unfoldable pub list_bonds : Market → List BondState
list_bonds m = map (λ e. e.1) m.bonds

unfoldable pub earnings_for : Market → String → ℕ
earnings_for m nullifier = or_else (lookup nullifier m.earnings) 0

unfoldable pub add_earnings : Market → String → ℕ → Market
unfolding earnings_for
add_earnings m nullifier hbar = record m {
  earnings = insert nullifier (earnings_for m nullifier + hbar) m.earnings;
}
