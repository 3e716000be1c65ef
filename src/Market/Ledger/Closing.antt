-- ===== src/Market/Ledger/Closing.antt =====
-- Closing a row, and what that leaves of the ledger.
use eth_global_lisbon_2026_h.Base.{
  ℕ, String, ◌≡◌, inl, inr, refl, true, false, Option, none, some, arith, lookup, erase,
  lookup-insert, lookup-erase, eq_iff, string_eq, ◌==◌, Option-cases, Bool-cases, eq_refl, beq_self,
}
use eth_global_lisbon_2026_h.Market.Row.{
  RowId, id_eq, id_beq_iff, LedgerRow, Market, Claimed, closed, is_open,
}
use eth_global_lisbon_2026_h.Market.Ledger.{
  open_only, open_at, open_row_for, put_row, closed_row, close_row,
}
use eth_global_lisbon_2026_h.Market.Ledger.Order.{EntryOk, IsOrdered, none_open}

-- The row that a rig's pointer leads to.
open_row_for-found :
    (m : Market) (rig : String) (row : LedgerRow)
    → open_row_for m rig ≡ some row
    → (id : RowId) × (lookup rig m.open_by_rig ≡ some id)
      × (lookup id m.rows ≡ some row)
      × (is_open row.status ≡ true)
unfolding open_row_for open_at open_only
open_row_for-found m rig row h = elim (Option-cases (lookup rig m.open_by_rig)) [
  | inl e ↦ ground arith
  | inr (id, e) ↦ elim (Option-cases (lookup id m.rows)) [
    | inl f ↦ ground arith
    | inr (r, f) ↦ (id, e, ground arith, ground arith)
  ]
]

-- A row is written back with its id and its rig, and is not open (any more).
module _ (m : Market) (old row : LedgerRow) (ok : IsOrdered m)
    (stored : lookup row.id m.rows ≡ some old) (same_rig : row.rig ≡ old.rig)
    (shut : is_open row.status ≡ false) where
  put_entry :
      (id : RowId) (r : LedgerRow)
      → lookup id (put_row m row).rows ≡ some r
      → EntryOk (put_row m row) id r
  unfolding put_row
  put_entry id r e = elim (Bool-cases (row.id == id)) [
    | inl same ↦
        let p = (id_beq_iff row.id id).0 same in
        let q : row ≡ r = ground (arith, lookup-insert row.id id row m.rows) in
        let was = ok.entries row.id old stored in
        record {
          keyed = ground arith;
          issued = ground (arith, was.issued);
          pointed = inl (ground arith);
        }
    | inr other ↦
        let was = ok.entries id r (ground (arith, lookup-insert row.id id row m.rows)) in
        record { keyed = was.keyed; issued = was.issued; pointed = was.pointed }
  ]

  pub put_row-IsOrdered : IsOrdered (put_row m row)
  unfolding put_row
  put_row-IsOrdered = record {
    entries = put_entry;
    pointers = λ rig id e.
        let was = ok.pointers rig id e in
        record {
          issued = was.issued;
          own = λ r f. elim (Bool-cases (row.id == id)) [
            | inl same ↦
                let p = (id_beq_iff row.id id).0 same in
                let q : row ≡ r = ground (arith, lookup-insert row.id id row m.rows) in
                let here = was.own old (rw (← p) stored) in ground (arith, q, here)
            | inr other ↦ was.own r (ground (arith, lookup-insert row.id id row m.rows))
          ];
        };
  }

-- Taking away the pointer of a rig that has no open row.
drop_pointer-IsOrdered :
    (m : Market) (rig : String)
    → IsOrdered m
    → open_row_for m rig ≡ none
    → IsOrdered (record m { open_by_rig = erase rig m.open_by_rig })
drop_pointer-IsOrdered m rig ok free = record {
  entries = λ id row e.
      let was = ok.entries id row e in
      record {
        keyed = was.keyed;
        issued = was.issued;
        pointed = elim (Bool-cases (rig == row.rig)) [
          | inl same ↦ inl (none_open m id row (rw (← (eq_iff rig row.rig).0 same) free) was e)
          | inr other ↦ elim was.pointed [
            | inl shut ↦ inl shut
            | inr to_id ↦ inr (rw (lookup-erase, other) to_id)
          ]
        ];
      };
  pointers = λ other id e.
      let was = ok.pointers other id (ground (arith, lookup-erase rig other m.open_by_rig)) in
      record { issued = was.issued; own = was.own };
}

closed-free :
    (m : Market) (rig : String) (id : RowId) (row : LedgerRow)
    → lookup rig m.open_by_rig ≡ some id
    → row.id ≡ id
    → is_open row.status ≡ false
    → open_row_for (put_row m row) rig ≡ none
unfolding open_row_for open_at open_only put_row
closed-free m rig id row e p shut =
    ground (arith, lookup-insert row.id id row m.rows, id_beq_iff row.id id)

-- Closing a row keeps the ledger in order.
pub close_row-IsOrdered :
    (now : ℕ) (m : Market) (rig : String) (claimed : Option Claimed)
    → IsOrdered m
    → IsOrdered (close_row now m rig claimed).0
unfolding close_row
close_row-IsOrdered now m rig claimed ok = elim (Option-cases (open_row_for m rig)) [
  | inl free ↦ rw (free, close_row) ok
  | inr (row, found) ↦
      let (id, e, f, live) = open_row_for-found m rig row found in
      let row' = closed_row now claimed row in
      let keyed : row.id ≡ id = (ok.entries id row f).keyed in
      let stored : lookup row.id m.rows ≡ some row = ground (arith, keyed, f) in
      rw (found, close_row)
        (drop_pointer-IsOrdered (put_row m row') rig
          (put_row-IsOrdered m row row' ok (unfold closed_row in stored) (unfold closed_row in refl)
            (unfold closed_row in refl))
          (closed-free m rig id row' e (unfold closed_row in keyed) (unfold closed_row in refl)))
]

-- In a ledger in order, closing the row of a rig ends exactly the attempt that was open on it:
-- the row that comes back is that row with the claim and the time, it is stored, and the rig has
-- no open row any more.
pub close_row_ends :
    (now : ℕ) (m : Market) (rig : String) (claimed : Option Claimed) (row : LedgerRow)
    → IsOrdered m
    → open_row_for m rig ≡ some row
    → let (m', out) = close_row now m rig claimed in
      (out ≡ some (record row { claimed = claimed; status = closed; closed_at = some now }))
      × (lookup row.id m'.rows ≡ out)
      × (row.rig ≡ rig)
      × (open_row_for m' rig ≡ none)
unfolding close_row
close_row_ends now m rig claimed row ok found =
    let (id, e, f, live) = open_row_for-found m rig row found in
    let keyed : row.id ≡ id = (ok.entries id row f).keyed in
    rw (found, close_row)
      (
        unfold closed_row in refl,
        unfold closed_row put_row in rw (lookup-insert, beq_self) refl,
        (ok.pointers rig id e).own row f,
        unfold open_row_for open_at in rw (lookup-erase, eq_refl),
      )

-- An open row that the ledger holds is the open row of its rig.
pub open_row_for-stored :
    (m : Market) (id : RowId) (row : LedgerRow)
    → IsOrdered m
    → lookup id m.rows ≡ some row
    → is_open row.status ≡ true
    → open_row_for m row.rig ≡ some row
unfolding open_row_for open_at open_only
open_row_for-stored m id row ok stored live =
    ground (arith, stored, live, (ok.entries id row stored).pointed)
