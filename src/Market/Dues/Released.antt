-- ===== src/Market/Dues/Released.antt =====
-- Which stakes are given back.
use eth_global_lisbon_2026_h.Base.{
  ℕ, ◌+◌, ◌<◌, ◌≡◌, ◌⊎◌, inl, inr, true, false, some, List, [], ◌∷◌, String, arith, lookup,
  lookup-insert, map, ◌==◌, Bool-cases, Option-cases, string_eq, option_eq, eq_iff,
}
use eth_global_lisbon_2026_h.Market.Row.{LedgerRow, RowId, id_eq, Market, BondState}
use eth_global_lisbon_2026_h.Market.Ledger.{list_rows}
use eth_global_lisbon_2026_h.Market.Ledger.Listing.{any-list_rows}
use eth_global_lisbon_2026_h.Market.Settle.{Answer, set_bond}
use eth_global_lisbon_2026_h.Market.Dues.{
  stake_idle_ms, is_unfinished, holds_stake, is_idle, release_bond, release_keys,
  release_idle_stakes,
}

-- A bond that is needed, and where it stands.
abbrev Needed : ℕ → Market → String → BondState → Type 0
Needed now m who bond = (lookup who m.bonds ≡ some bond) × (is_idle now m bond ≡ false)

release_bond-Needed :
    (now : ℕ) (transfer : String → Answer String) (m : Market) (k who : String) (bond : BondState)
    → Needed now m who bond
    → Needed now (release_bond now transfer m k) who bond
unfolding release_bond
release_bond-Needed now transfer m k who bond (stored, busy) =
    elim (Option-cases (lookup k m.bonds)) [
      | inl gone ↦ rw (gone, release_bond) (stored, busy)
      | inr (b, found) ↦ elim (Bool-cases (is_idle now m b)) [
        | inr kept ↦ rw (found, release_bond, kept) (stored, busy)
        | inl idle ↦
            let other : (k == who) ≡ false = elim (Bool-cases (k == who)) [
              | inl same ↦ ground (arith, eq_iff k who, found, stored, busy, idle)
              | inr other ↦ other
            ] in
            rw (found, release_bond, idle)
              (
                unfold set_bond in rw (lookup-insert, other) stored,
                unfold is_idle set_bond list_rows in busy,
              )
      ]
    ]

release_keys-Needed :
    (now : ℕ) (transfer : String → Answer String) (keys : List String) (m : Market) (who : String)
    (bond : BondState)
    → Needed now m who bond
    → Needed now (release_keys now transfer m keys) who bond
unfolding release_keys
release_keys-Needed now transfer [] m who bond need = need
release_keys-Needed now transfer (k ∷ ks) m who bond need =
    release_keys-Needed now transfer ks (release_bond now transfer m k) who bond
      (release_bond-Needed now transfer m k who bond need)

-- An attempt in the ledger that still needs the stake.
abbrev pub IsUsed : Market → BondState → Type 0
IsUsed m bond =
    (id : RowId) × (row : LedgerRow) × (lookup id m.rows ≡ some row)
    × (row.operator.nullifier ≡ some bond.nullifier)
    × (is_unfinished row.status ≡ true)

needs :
    (now : ℕ) (m : Market) (bond : BondState)
    → (now < bond.last_active_at + stake_idle_ms) ⊎ IsUsed m bond
    → is_idle now m bond ≡ false
unfolding is_idle
needs now m bond (inl recent) = ground (arith, recent)
needs now m bond (inr (id, row, stored, own, unfinished)) =
    let holds : holds_stake bond.nullifier row ≡ true =
      ground (arith, own, unfinished, eq_iff bond.nullifier bond.nullifier) in
    ground (arith, any-list_rows (holds_stake bond.nullifier) m id row stored holds)

-- A stake that is still needed is not given back: the round of releases leaves a bond as it is that
-- was active in the last five minutes, be there attempts or not, or whose operator has an attempt in
-- the ledger that is neither rejected nor anchored, whatever becomes of the other bonds and of their
-- transfers.
pub release_idle_stakes_keeps :
    (now : ℕ) (transfer : String → Answer String) (m : Market) (who : String) (bond : BondState)
    → lookup who m.bonds ≡ some bond
    → (now < bond.last_active_at + stake_idle_ms) ⊎ IsUsed m bond
    → lookup who (release_idle_stakes now transfer m).bonds ≡ some bond
unfolding release_idle_stakes
release_idle_stakes_keeps now transfer m who bond held why =
    (release_keys-Needed now transfer (map (λ e. e.0) m.bonds) m who bond
      (held, needs now m bond why)).0
