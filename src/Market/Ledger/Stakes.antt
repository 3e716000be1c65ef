-- ===== src/Market/Ledger/Stakes.antt =====
-- Stakes and earnings.
use eth_global_lisbon_2026_h.Base.{
  ℕ, String, ◌+◌, ◌≡◌, ◌||◌, none, some, List, [], ◌∷◌, ◌++◌, arith, lookup, lookup-insert,
  includes, or_else, string_eq, list_eq, nat_eq, ◌==◌, if◌then◌else◌,
}
use eth_global_lisbon_2026_h.Market.Row.{BondState, Market}
use eth_global_lisbon_2026_h.Market.Ledger.{
  lower_case, is_locked, locked_only, get_bond, put_bond, stake_already_used, earnings_for,
  add_earnings,
}

includes-snoc :
    (x y : List ℕ) (xs : List (List ℕ)) → includes x (xs ++ y ∷ []) ≡ (includes x xs || y == x)
unfolding includes
includes-snoc x y [] = ground arith
includes-snoc x y (z ∷ xs) = ground (arith, includes-snoc x y xs)

-- A stake transaction funds one bond: once a bond is put, its hash counts as used, in whatever case it
-- is written, and so does every hash that was used before.
pub stake_already_used-put_bond :
    (m : Market) (bond : BondState) (hash : String)
    → stake_already_used (put_bond m bond) hash
      ≡ (stake_already_used m hash || lower_case bond.stake_tx_hash == lower_case hash)
unfolding stake_already_used put_bond
stake_already_used-put_bond m bond hash =
    includes-snoc (lower_case hash) (lower_case bond.stake_tx_hash) m.used_stakes

-- The open stake of an operator is the last bond put for them, while it is locked.
pub get_bond-put_bond :
    (m : Market) (bond : BondState) (who : String)
    → get_bond (put_bond m bond) who ≡ (
        if bond.nullifier == who
        then (if is_locked bond.status then some bond else none)
        else get_bond m who)
unfolding get_bond put_bond locked_only
get_bond-put_bond m bond who = ground (arith, lookup-insert bond.nullifier who bond m.bonds)

-- Earnings add up per operator.
pub earnings_for-add_earnings :
    (m : Market) (who other : String) (hbar : ℕ)
    → earnings_for (add_earnings m who hbar) other
      ≡ (if who == other then earnings_for m who + hbar else earnings_for m other)
unfolding earnings_for add_earnings
earnings_for-add_earnings m who other hbar =
    ground (arith, lookup-insert who other (or_else (lookup who m.earnings) 0 + hbar) m.earnings)
