-- ===== src/Market/Abandon.antt =====
-- Attempts that their operator walked away from: `abandonStaleRows` of
-- apps/web/src/market/worker.ts. The rows are shared objects, so the loop reads each one as it then
-- is. The sampler of a closed row is stopped too; samplers stand in Market/Sampler, apart from the
-- ledger.
pub mod Stale
use eth_global_lisbon_2026_h.Base.{
  ℕ, ◌+◌, String, Bool, true, false, not, ◌||◌, Option, none, some, List, [], ◌∷◌, map, ltb, ◌==◌,
  string_eq, option_eq, if◌then◌else◌,
}
use eth_global_lisbon_2026_h.Hub.Rig.{Rig, AttemptState}
use eth_global_lisbon_2026_h.Hub.Lease.{lease_holder}
use eth_global_lisbon_2026_h.Hub.Registry.{Hub, get_rig, put_rig}
use eth_global_lisbon_2026_h.Market.Row.{LedgerRow, RowId, Market, abandoned, is_open}
use eth_global_lisbon_2026_h.Market.Ledger.{list_rows, get_row, close_row}
use eth_global_lisbon_2026_h.Market.Gate.{World}

abbrev pub abandon_ms : ℕ
abandon_ms = 35000

-- `rig?.attempt?.active === true`
abbrev pub attempt_live : Option Rig → Bool
attempt_live none = false
attempt_live (some rig) = elim rig.attempt [ none ↦ false | some a ↦ a.active ]

-- The lease is read, and so cleared if it ran out.
unfoldable pub holder_live : ℕ → Hub → Option Rig → String → Hub × Bool
unfolding lease_holder put_rig
holder_live now hub none client = (hub, false)
holder_live now hub (some rig) client =
    let (rig', holder) = lease_holder now rig in (put_rig hub rig', holder == some client)

-- An open row, once the lease was read.
abandon_open : ℕ → World → LedgerRow → Bool → World
unfolding close_row
abandon_open now w row live =
    if live
    then w
    else if ltb now (row.opened_at + abandon_ms)
    then w
    else record w { market = (close_row now w.market row.rig (some abandoned)).0 }

unfoldable pub abandon_row : ℕ → World → LedgerRow → World
unfolding holder_live abandon_open get_rig
abandon_row now w row =
    if not (is_open row.status)
    then w
    else (let rig = get_rig w.hub row.rig in
        let (hub, held) = holder_live now w.hub rig row.operator.client_id in
        abandon_open now (record w { hub = hub }) row (attempt_live rig || held))

abandon_ids : ℕ → World → List RowId → World
unfolding abandon_row get_row
abandon_ids now w [] = w
abandon_ids now w (id ∷ ids) = elim (get_row w.market id) [
  | none ↦ abandon_ids now w ids
  | some row ↦ abandon_ids now (abandon_row now w row) ids
]

unfoldable pub abandon_stale_rows : ℕ → World → World
unfolding abandon_ids list_rows
abandon_stale_rows now w = abandon_ids now w (map (λ row. row.id) (list_rows w.market))
