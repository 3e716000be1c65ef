-- ===== src/Market/Ledger/Listing.antt =====
-- The list of the rows holds every row.
use eth_global_lisbon_2026_h.Base.{
  ◌≡◌, refl, Bool, true, ◌||◌, some, List, [], ◌∷◌, arith, any, lookup, map,
}
use eth_global_lisbon_2026_h.Market.Row.{LedgerRow, RowId, id_eq, id_beq_iff, Market}
use eth_global_lisbon_2026_h.Market.Ledger.{list_rows, sort_rows, insert_row}

any-insert_row :
    (p : LedgerRow → Bool) (row : LedgerRow) (rows : List LedgerRow)
    → any p (insert_row row rows) ≡ (p row || any p rows)
unfolding insert_row any
any-insert_row p row [] = ground arith
any-insert_row p row (r ∷ rs) = ground (arith, any-insert_row p row rs)

any-sort_rows : (p : LedgerRow → Bool) (rows : List LedgerRow) → any p (sort_rows rows) ≡ any p rows
unfolding sort_rows any
any-sort_rows p [] = refl
any-sort_rows p (r ∷ rs) = ground (arith, any-insert_row p r (sort_rows rs), any-sort_rows p rs)

any-stored :
    (p : LedgerRow → Bool) (id : RowId) (row : LedgerRow) (rows : List (RowId × LedgerRow))
    → lookup id rows ≡ some row
    → p row ≡ true
    → any p (map (λ e. e.1) rows) ≡ true
unfolding lookup any
any-stored p id row [] h t = cc
any-stored p id row ((i, r) ∷ rows) h t =
    ground (arith, h, t, id_beq_iff i id, any-stored p id row rows)

-- A stored row with a property is listed.
pub any-list_rows :
    (p : LedgerRow → Bool) (m : Market) (id : RowId) (row : LedgerRow)
    → lookup id m.rows ≡ some row
    → p row ≡ true
    → any p (list_rows m) ≡ true
unfolding list_rows
any-list_rows p m id row h t =
    ground (arith, any-sort_rows p (map (λ e. e.1) m.rows), any-stored p id row m.rows h t)
