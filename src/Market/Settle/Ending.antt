-- ===== src/Market/Settle/Ending.antt =====
-- Every attempt comes to its end.
use eth_global_lisbon_2026_h.Base.{
  ℕ, ◌+◌, ◌≤◌, ◌≡◌, ◌⊎◌, inl, inr, All, refl, false, some, List, [], ◌∷◌, arith, lookup, ◌==◌,
  Option-cases, Bool-cases, if◌then◌else◌, string_eq, option_eq,
}
use eth_global_lisbon_2026_h.Market.Row.{anchored, LedgerRow, RowId, id_eq, id_beq_iff, Market}
use eth_global_lisbon_2026_h.Market.Ledger.{get_row}
use eth_global_lisbon_2026_h.Market.Ledger.Order.{IsOrdered}
use eth_global_lisbon_2026_h.Market.Settle.{Setup, advance_row, advance}
use eth_global_lisbon_2026_h.Market.Settle.Forward.{advance_row-anchored, advance_row-Kept}
use eth_global_lisbon_2026_h.Market.Settle.Finish.{IsSmooth, IsUnderWay, steps_left, row-Progress}
use eth_global_lisbon_2026_h.Market.Settle.Runs.{Turn, advance_all, advance-IsOrdered, put_stored}

-- How often a row has its turn.
unfoldable pub turns_of : RowId → List Turn → ℕ
turns_of id [] = 0
turns_of id (t ∷ ts) = (if t.id == id then 1 else 0) + turns_of id ts

-- What is stored under an id after a turn: what that row's step made of it, or what was there.
advance-lookup :
    (setup : Setup) (t : Turn) (m : Market) (id : RowId) (row : LedgerRow)
    → IsOrdered m
    → lookup id m.rows ≡ some row
    → lookup id (advance setup t.answers t.now t.hub m t.id).rows
      ≡ some (if t.id == id then (advance_row setup t.answers t.now t.hub m row).1 else row)
unfolding advance get_row
advance-lookup setup t m id row ok stored = elim (Option-cases (lookup t.id m.rows)) [
  | inl gone ↦
      let other : (t.id == id) ≡ false = elim (Bool-cases (t.id == id)) [
        | inl same ↦ ground (arith, id_beq_iff t.id id, gone, stored)
        | inr other ↦ other
      ] in
      rw (gone, advance, other) stored
  | inr (r, found) ↦
      let (m', r') = advance_row setup t.answers t.now t.hub m r in
      let after = put_stored m m' r r' id (advance_row-Kept setup t.answers t.now t.hub m r) in
      let keyed = (ok.entries t.id r found).keyed in
      elim (Bool-cases (t.id == id)) [
        | inl mine ↦
            let e : r ≡ row = ground (arith, id_beq_iff t.id id, found, stored) in
            rw (found, advance, mine, ← e) (ground (arith, after, keyed, mine))
        | inr other ↦ rw (found, advance, other) (ground (arith, after, keyed, other, stored))
      ]
]

-- An attempt that is anchored, or that has fewer steps before it than turns to come.
abbrev Near : ℕ → ℕ → LedgerRow → Type 0
Near at n row = (row.status ≡ anchored) ⊎ (IsUnderWay row at × (steps_left row.status ≤ n))

Near-step :
    (setup : Setup) (t : Turn) (m : Market) (row : LedgerRow) (at n : ℕ)
    → IsSmooth t at
    → Near at (n + 1) row
    → Near at n (advance_row setup t.answers t.now t.hub m row).1
Near-step setup t m row at n smooth (inl done) =
    rw (advance_row-anchored setup t.answers t.now t.hub m row done) (inl done)
Near-step setup t m row at n smooth (inr (way, few)) =
    elim (row-Progress setup t m row at row.status smooth way refl) [
      | inl done ↦ inl done
      | inr (way', less) ↦ inr (way', omega (arith, few, less))
    ]

Near-zero : (at : ℕ) (row : LedgerRow) → Near at 0 row → row.status ≡ anchored
Near-zero at row (inl done) = done
Near-zero at row (inr (way, few)) = ground (arith, few)

Near-ends :
    (setup : Setup) (ts : List Turn) (m : Market) (id : RowId) (row : LedgerRow) (at : ℕ)
    → IsOrdered m
    → lookup id m.rows ≡ some row
    → All (λ t. IsSmooth t at) ts
    → Near at (turns_of id ts) row
    → (row' : LedgerRow) × (lookup id (advance_all setup ts m).rows ≡ some row')
      × (row'.status ≡ anchored)
unfolding advance_all turns_of
Near-ends setup [] m id row at ok stored smooth near = (row, stored, Near-zero at row near)
Near-ends setup (t ∷ ts) m id row at ok stored (here, rest) near =
    let m' = advance setup t.answers t.now t.hub m t.id in
    let ok' = advance-IsOrdered setup t m ok in
    let after = advance-lookup setup t m id row ok stored in
    let row' = (advance_row setup t.answers t.now t.hub m row).1 in
    elim (Bool-cases (t.id == id)) [
      | inl mine ↦
          Near-ends setup ts m' id row' at ok' (ground (arith, after, mine)) rest
            (Near-step setup t m row at (turns_of id ts) here (ground (arith, near, mine)))
      | inr other ↦
          Near-ends setup ts m' id row at ok' (ground (arith, after, other)) rest
            (ground (arith, near, other))
    ]

-- Settlement comes to its end: in a ledger in order, an attempt that has been closed and not yet
-- anchored is anchored after any turns of any rows among which it has three (of a graded attempt
-- two, of a paid or rejected one one), if at each of them the transfers and the digest come back and
-- the 25 s of grace since it was closed are over.
pub settlement_ends :
    (setup : Setup) (ts : List Turn) (m : Market) (id : RowId) (row : LedgerRow) (at : ℕ)
    → IsOrdered m
    → lookup id m.rows ≡ some row
    → IsUnderWay row at
    → All (λ t. IsSmooth t at) ts
    → steps_left row.status ≤ turns_of id ts
    → (row' : LedgerRow) × (lookup id (advance_all setup ts m).rows ≡ some row')
      × (row'.status ≡ anchored)
settlement_ends setup ts m id row at ok stored way smooth enough =
    Near-ends setup ts m id row at ok stored smooth (inr (way, enough))
