-- ===== src/Market/Abandon/Stale.antt =====
-- Which attempts are closed as abandoned.
use eth_global_lisbon_2026_h.Base.{
  ℕ, ◌+◌, ◌≤◌, ◌≡◌, inl, inr, string_eq, Bool, true, false, ◌||◌, none, some, List, [], ◌∷◌, lookup,
  arith, Option-cases, Bool-cases, ltb, ◌∙◌,
}
use eth_global_lisbon_2026_h.Hub.Registry.{get_rig}
use eth_global_lisbon_2026_h.Market.Row.{LedgerRow, RowId, id_eq, abandoned, closed, is_open}
use eth_global_lisbon_2026_h.Market.Ledger.{open_row_for, close_row, get_row}
use eth_global_lisbon_2026_h.Market.Ledger.Order.{IsOrdered}
use eth_global_lisbon_2026_h.Market.Ledger.Closing.{
  close_row-IsOrdered, close_row_ends, open_row_for-stored,
}
use eth_global_lisbon_2026_h.Market.Gate.{World}
use eth_global_lisbon_2026_h.Market.Abandon.{
  abandon_ms, attempt_live, holder_live, abandon_open, abandon_row, abandon_ids, abandon_stale_rows,
}

abandon_open-IsOrdered :
    (now : ℕ) (w : World) (row : LedgerRow) (live : Bool)
    → IsOrdered w.market
    → IsOrdered (abandon_open now w row live).market
unfolding abandon_open
abandon_open-IsOrdered now w row true ok = ok
abandon_open-IsOrdered now w row false ok =
    elim (Bool-cases (ltb now (row.opened_at + abandon_ms))) [
      | inl young ↦ rw young ok
      | inr old ↦ rw old (close_row-IsOrdered now w.market row.rig (some abandoned) ok)
    ]

abandon_row-IsOrdered :
    (now : ℕ) (w : World) (row : LedgerRow)
    → IsOrdered w.market
    → IsOrdered (abandon_row now w row).market
unfolding abandon_row
abandon_row-IsOrdered now w row ok =
    let rig = get_rig w.hub row.rig in
    let (hub, held) = holder_live now w.hub rig row.operator.client_id in
    elim (Bool-cases (is_open row.status)) [
      | inl live ↦
          rw (live, abandon_row)
            (abandon_open-IsOrdered now (record w { hub = hub }) row (attempt_live rig || held) ok)
      | inr shut ↦ rw (shut, abandon_row) ok
    ]

ids-IsOrdered :
    (now : ℕ) (w : World) (ids : List RowId)
    → IsOrdered w.market
    → IsOrdered (abandon_ids now w ids).market
unfolding abandon_ids
ids-IsOrdered now w [] ok = ok
ids-IsOrdered now w (id ∷ ids) ok = elim (Option-cases (get_row w.market id)) [
  | inl gone ↦ rw (gone, abandon_ids) (ids-IsOrdered now w ids ok)
  | inr (row, found) ↦
      rw (found, abandon_ids)
        (ids-IsOrdered now (abandon_row now w row) ids (abandon_row-IsOrdered now w row ok))
]

-- The sweep of abandoned attempts keeps the ledger in order.
pub abandon_stale_rows-IsOrdered :
    (now : ℕ) (w : World) → IsOrdered w.market → IsOrdered (abandon_stale_rows now w).market
unfolding abandon_stale_rows
abandon_stale_rows-IsOrdered now w ok = ids-IsOrdered now w _ ok

abandon_row_shuts :
    (now : ℕ) (w : World) (row : LedgerRow)
    → is_open row.status ≡ true
    → attempt_live (get_rig w.hub row.rig) ≡ false
    → (holder_live now w.hub (get_rig w.hub row.rig) row.operator.client_id).1 ≡ false
    → row.opened_at + abandon_ms ≤ now
    → (abandon_row now w row).market ≡ (close_row now w.market row.rig (some abandoned)).0
unfolding abandon_row abandon_open
abandon_row_shuts now w row live idle left old = ground (arith, live, idle, left, old)

-- In a ledger in order, an attempt that has been open for 35 s, that its rig does not report as
-- running and whose operator does not hold the lease is closed as abandoned, and its rig has no
-- open attempt any more.
pub abandon_row_closes :
    (now : ℕ) (w : World) (id : RowId) (row : LedgerRow)
    → IsOrdered w.market
    → lookup id w.market.rows ≡ some row
    → is_open row.status ≡ true
    → attempt_live (get_rig w.hub row.rig) ≡ false
    → (holder_live now w.hub (get_rig w.hub row.rig) row.operator.client_id).1 ≡ false
    → row.opened_at + abandon_ms ≤ now
    → let w' = abandon_row now w row in
      (lookup row.id w'.market.rows
        ≡ some (record row { claimed = some abandoned; status = closed; closed_at = some now }))
      × (open_row_for w'.market row.rig ≡ none)
abandon_row_closes now w id row ok stored live idle left old =
    let mine = open_row_for-stored w.market id row ok stored live in
    let ends = close_row_ends now w.market row.rig (some abandoned) row ok mine in
    rw (abandon_row_shuts now w row live idle left old) (ends.1 ∙ ends.0, ends.3)
