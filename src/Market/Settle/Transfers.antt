-- ===== src/Market/Settle/Transfers.antt =====
-- What a step does where a transfer comes back, and where it fails.
use eth_global_lisbon_2026_h.Base.{
  ℕ, ◌≡◌, refl, true, false, none, some, String, arith, lookup, lookup-insert, beq_self, string_eq,
  eq_iff, option_eq,
}
use eth_global_lisbon_2026_h.Market.Row.{rejected, LedgerRow, id_eq, Market, BondState, slashed}
use eth_global_lisbon_2026_h.Market.Grader.{is_success}
use eth_global_lisbon_2026_h.Market.Settle.{
  Setup, Answer, answer, thrown, Answers, reject_row, rejected_row, slash_bond, set_bond, settle,
  advance_graded, bond_of, has_passed,
}
use eth_global_lisbon_2026_h.Market.Settle.Stakes.{bond_of-locked, get_bond-set_bond}

-- What a slash leaves.
abbrev pub SlashOutcome :
    Market → LedgerRow → String → BondState → Answer String → Market × LedgerRow → Type 0
SlashOutcome m row n bond (answer tx) (m', row') =
    (row'.status ≡ rejected)
    × (lookup n m'.bonds ≡ some (record bond { status = slashed; settle_tx_id = some tx }))
SlashOutcome m row n bond thrown (m', row') =
    (row' ≡ row) × (lookup n m'.bonds ≡ some (record bond { status = slashed }))

module _ (setup : Setup) (now : ℕ) (m : Market) (row : LedgerRow) (n : String) (bond : BondState)
    (on : setup.hedera_on ≡ true) (mine : bond_of m row.operator.nullifier ≡ some (n, bond)) where
  slash_bond_outcome :
      (tx : Answer String) → SlashOutcome m row n bond tx (slash_bond tx m row (n, bond))
  unfolding slash_bond settle set_bond
  slash_bond_outcome (answer tx) = (unfold rejected_row in refl, rw (lookup-insert, beq_self) refl)
  slash_bond_outcome thrown = (refl, rw (lookup-insert, beq_self) refl)

  -- A claim of success that the referee did not pass, of an operator with a locked stake, with the
  -- ledger of payments on. The stake is marked as slashed either way; if the transfer comes back, its
  -- transaction is noted and the row is rejected, and if it fails, the row stays as it was.
  pub advance_graded_slashes :
      (ans : Answers)
      → has_passed row.grade ≡ false
      → is_success row.claimed ≡ true
      → SlashOutcome m row n bond ans.slash_tx (advance_graded setup ans now m row)
  unfolding advance_graded reject_row
  advance_graded_slashes ans fail lied = rw (fail, mine, lied, on) (slash_bond_outcome ans.slash_tx)

  slashed-bond_of :
      bond_of (set_bond m n (settle thrown slashed bond)) row.operator.nullifier ≡ none
  unfolding bond_of settle
  slashed-bond_of =
      let (own, found, l) = bond_of-locked m row.operator.nullifier n bond mine in
      let gone = get_bond-set_bond m n n (record bond { status = slashed }) in
      ground (arith, own, gone, mine, eq_iff n n)

  -- A slash whose transfer failed is not tried again: the next turn of the row, whatever it hears,
  -- rejects the row and leaves the ledger as it is, so the bond stays marked as slashed with its
  -- stake in escrow.
  pub failed_slash_rejects :
      (ans ans' : Answers) (now' : ℕ)
      → has_passed row.grade ≡ false
      → is_success row.claimed ≡ true
      → ans.slash_tx ≡ thrown
      → let (m', row') = advance_graded setup ans now m row in
        let (m'', row'') = advance_graded setup ans' now' m' row' in
        (row'.status ≡ row.status)
        × (row''.status ≡ rejected)
        × (m'' ≡ m')
        × (lookup n m''.bonds ≡ some (record bond { status = slashed }))
  unfolding advance_graded reject_row slash_bond rejected_row
  failed_slash_rejects ans ans' now' fail lied failed =
      rw (fail, mine, lied, on, failed, slash_bond, fail, slashed-bond_of)
        (refl, refl, refl, unfold set_bond settle in rw (lookup-insert, beq_self) refl)
