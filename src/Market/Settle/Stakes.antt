-- ===== src/Market/Settle/Stakes.antt =====
-- What a step does to the stakes.
use eth_global_lisbon_2026_h.Base.{
  ◌≡◌, inl, inr, ap, true, false, none, some, Option, String, arith, lookup, lookup-insert, ◌==◌,
  Option-cases, if◌then◌else◌, string_eq,
}
use eth_global_lisbon_2026_h.Hub.Registry.{Hub}
use eth_global_lisbon_2026_h.Market.Row.{graded, LedgerRow, id_eq, Market, BondState}
use eth_global_lisbon_2026_h.Market.Grader.{is_success}
use eth_global_lisbon_2026_h.Market.Ledger.{get_bond, is_locked, locked_only}
use eth_global_lisbon_2026_h.Market.Settle.{Setup, set_bond, bond_of, has_passed}

pub get_bond-set_bond :
    (m : Market) (n who : String) (bond : BondState)
    → get_bond (set_bond m n bond) who
      ≡ (if n == who then (if is_locked bond.status then some bond else none) else get_bond m who)
unfolding get_bond set_bond locked_only
get_bond-set_bond m n who bond = ground (arith, lookup-insert n who bond m.bonds)

get_bond-locked :
    (m : Market) (n : String) (bond : BondState)
    → get_bond m n ≡ some bond
    → is_locked bond.status ≡ true
unfolding get_bond locked_only
get_bond-locked m n bond h = elim (Option-cases (lookup n m.bonds)) [
  | inl e ↦ ground (arith, e)
  | inr (b, e) ↦ ground (arith, e)
]

-- The bond of a row is the locked one of its operator.
pub bond_of-locked :
    (m : Market) (nullifier : Option String) (n : String) (bond : BondState)
    → bond_of m nullifier ≡ some (n, bond)
    → (nullifier ≡ some n) × (get_bond m n ≡ some bond) × (is_locked bond.status ≡ true)
unfolding bond_of
bond_of-locked m none n bond h = cc
bond_of-locked m (some k) n bond h = elim (Option-cases (get_bond m k)) [
  | inl e ↦ ground (arith, e)
  | inr (b, e) ↦
      let both : (k ≡ n) × (b ≡ bond) = ground (arith, e) in
      let found : get_bond m n ≡ some bond = rw (← both.0, ← both.1) e in
      (ap some both.0, found, get_bond-locked m n bond found)
]

-- Why a stake is no longer open after the step of a row.
pub record TookStake (setup : Setup) (row : LedgerRow) (who : String) : Type 0 where
  pub was_graded : row.status ≡ graded
  pub claimed_success : is_success row.claimed ≡ true
  pub failed : has_passed row.grade ≡ false
  pub on_ledger : setup.hedera_on ≡ true
  pub own : row.operator.nullifier ≡ some who
