-- ===== src/Market/Ledger/Order.antt =====
-- The order of the ledger: rows under their own ids, ids that are used once, and the pointer of a rig
-- to its open row.
use eth_global_lisbon_2026_h.Base.{
  ℕ, suc, String, ◌≡◌, ◌≤◌, ◌⊎◌, inl, inr, refl, false, none, some, [], arith, lookup,
  lookup-insert, eq_iff, string_eq, ◌==◌, Option-cases, Bool-cases,
}
use eth_global_lisbon_2026_h.Market.Row.{
  RowId, id_eq, id_beq_iff, LedgerRow, Market, opened, is_open,
}
use eth_global_lisbon_2026_h.Market.Ledger.{
  OpenRequest, open_only, open_at, open_row_for, new_row, put_row, add_row, open_row,
}

-- The row stands under its id, which has been handed out; and if it is open, its rig points to it.
pub record EntryOk (m : Market) (id : RowId) (row : LedgerRow) : Type 0 where
  pub keyed : row.id ≡ id
  pub issued : id.seq ≤ m.seq
  pub pointed : (is_open row.status ≡ false) ⊎ (lookup row.rig m.open_by_rig ≡ some id)

-- The pointer of a rig is to an id that has been handed out, and to no row of another rig.
pub record PointerOk (m : Market) (rig : String) (id : RowId) : Type 0 where
  pub issued : id.seq ≤ m.seq
  pub own : (row : LedgerRow) → lookup id m.rows ≡ some row → row.rig ≡ rig

pub record IsOrdered (m : Market) : Type 0 where
  pub entries : (id : RowId) (row : LedgerRow) → lookup id m.rows ≡ some row → EntryOk m id row
  pub pointers :
      (rig : String) (id : RowId) → lookup rig m.open_by_rig ≡ some id → PointerOk m rig id

pub empty-IsOrdered : (m : Market) → m.rows ≡ [] → m.open_by_rig ≡ [] → IsOrdered m
unfolding lookup
empty-IsOrdered m e f = record {
  entries = λ id row h. cc (rw e at h);
  pointers = λ rig id h. cc (rw f at h);
}

-- A rig has at most one open row.
pub open_row_unique :
    (m : Market) (a b : RowId) (row row' : LedgerRow)
    → IsOrdered m
    → lookup a m.rows ≡ some row
    → lookup b m.rows ≡ some row'
    → row.status ≡ opened
    → row'.status ≡ opened
    → row.rig ≡ row'.rig
    → a ≡ b
open_row_unique m a b row row' ok e f o o' same =
    ground (arith, (ok.entries a row e).pointed, (ok.entries b row' f).pointed)

open_only-none : (row : LedgerRow) → open_only (some row) ≡ none → is_open row.status ≡ false
unfolding open_only
open_only-none row h = ground arith

-- Where the rig has no open row, none of its rows is open.
pub none_open :
    (m : Market) (id : RowId) (row : LedgerRow)
    → open_row_for m row.rig ≡ none
    → EntryOk m id row
    → lookup id m.rows ≡ some row
    → is_open row.status ≡ false
unfolding open_row_for open_at
none_open m id row free ok e = elim ok.pointed [
  | inl shut ↦ shut
  | inr p ↦ open_only-none row (ground arith)
]

-- A new row on a rig that has none open.
module _ (m : Market) (row : LedgerRow) (ok : IsOrdered m) (free : open_row_for m row.rig ≡ none)
    (fresh : row.id.seq ≡ suc m.seq) where
  added_entry_new :
      (id : RowId) (r : LedgerRow) → row.id ≡ id → row ≡ r → EntryOk (add_row m row) id r
  unfolding add_row put_row
  added_entry_new id r p q = record {
    keyed = ground arith;
    issued = ground arith;
    pointed =
        inr
          (ground (arith, lookup-insert row.rig r.rig row.id m.open_by_rig, eq_iff row.rig r.rig));
  }

  added_entry_old :
      (id : RowId) (r : LedgerRow)
      → EntryOk m id r
      → lookup id m.rows ≡ some r
      → EntryOk (add_row m row) id r
  unfolding add_row put_row
  added_entry_old id r old e = record {
    keyed = old.keyed;
    issued = omega (arith, old.issued);
    pointed = elim (Bool-cases (row.rig == r.rig)) [
      | inl same ↦
          let p = (eq_iff row.rig r.rig).0 same in inl (none_open m id r (rw (← p) free) old e)
      | inr other ↦ elim old.pointed [
        | inl shut ↦ inl shut
        | inr to_id ↦ inr (ground (arith, lookup-insert row.rig r.rig row.id m.open_by_rig))
      ]
    ];
  }

  added_pointer :
      (rig : String) (id : RowId)
      → lookup rig (add_row m row).open_by_rig ≡ some id
      → PointerOk (add_row m row) rig id
  unfolding add_row put_row
  added_pointer rig id e = elim (Bool-cases (row.rig == rig)) [
    | inl same ↦
        let points : row.id ≡ id = ground (arith, lookup-insert row.rig rig row.id m.open_by_rig) in
        record {
          issued = ground arith;
          own = λ r f.
              ground (
                arith,
                lookup-insert row.id id row m.rows,
                id_beq_iff row.id id,
                eq_iff row.rig rig,
              );
        }
    | inr other ↦
        let old =
          ok.pointers rig id (ground (arith, lookup-insert row.rig rig row.id m.open_by_rig)) in
        record {
          issued = omega (arith, old.issued);
          own = λ r f. old.own r (
              ground (arith, lookup-insert row.id id row m.rows, id_beq_iff row.id id, old.issued));
        }
  ]

  add_row-IsOrdered : IsOrdered (add_row m row)
  unfolding add_row put_row
  add_row-IsOrdered = record {
    entries = λ id r e. elim (Bool-cases (row.id == id)) [
      | inl same ↦
          added_entry_new id r ((id_beq_iff row.id id).0 same)
            (ground (arith, lookup-insert row.id id row m.rows))
      | inr other ↦
          let f : lookup id m.rows ≡ some r = ground (arith, lookup-insert row.id id row m.rows) in
          added_entry_old id r (ok.entries id r f) f
    ];
    pointers = added_pointer;
  }

-- Opening a row leaves a ledger that is in order in order.
pub open_row-IsOrdered :
    (now : ℕ) (m : Market) (input : OpenRequest) → IsOrdered m → IsOrdered (open_row now m input).0
unfolding open_row
open_row-IsOrdered now m input ok = elim (Option-cases (open_row_for m input.rig)) [
  | inl free ↦
      rw (free, open_row)
        (add_row-IsOrdered m (new_row now m input) ok (unfold new_row in free)
          (unfold new_row in refl))
  | inr (row, found) ↦ rw (found, open_row) ok
]
