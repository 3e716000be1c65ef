-- ===== src/Market/Settle/Earning.antt =====
-- What an operator can earn.
use eth_global_lisbon_2026_h.Base.{
  ℕ, ◌+◌, ◌≤◌, ◌≡◌, inl, inr, refl, true, false, Bool, none, some, Option, List, [], ◌∷◌, String,
  arith, lookup, ◌==◌, Option-cases, Bool-cases, ◌&&◌, not, string_eq, eq_iff, insert, option_eq,
}
use eth_global_lisbon_2026_h.Hub.Registry.{Hub}
use eth_global_lisbon_2026_h.Market.Row.{
  RowStatus, opened, closed, graded, paid, rejected, anchored, LedgerRow, RowId, id_eq, Market,
  BondState,
}
use eth_global_lisbon_2026_h.Market.Ledger.{put_row, get_row, earnings_for}
use eth_global_lisbon_2026_h.Market.Ledger.Order.{IsOrdered}
use eth_global_lisbon_2026_h.Market.Ledger.Stakes.{earnings_for-add_earnings}
use eth_global_lisbon_2026_h.Market.Settle.{
  Setup, Answer, answer, thrown, Answers, pay_bond, pay_row, paid_with, paid_unpaid, reject_row,
  slash_bond, set_bond, advance_graded, bond_of, has_passed, advance_row, advance,
}
use eth_global_lisbon_2026_h.Market.Settle.Forward.{
  advance_row-opened, advance_row-closed, advance_row-graded, advance_row-paid,
  advance_row-rejected, advance_row-anchored, advance_row-Kept, Kept, Next, stays, grades, pays,
  rejects, anchors_paid, anchors_rejected,
}
use eth_global_lisbon_2026_h.Market.Settle.Stakes.{bond_of-locked}
use eth_global_lisbon_2026_h.Market.Settle.Runs.{Turn, advance_all, is_decided, advance-IsOrdered}

-- An attempt of this operator that may still be paid.
abbrev pub may_pay : String → LedgerRow → Bool
may_pay who row = not (is_decided row.status) && row.operator.nullifier == some who

abbrev due : ℕ → Bool → ℕ
due hbar true = hbar
due hbar false = 0

-- What the attempts of an operator can still bring, at so much for each.
unfoldable pub payable : ℕ → String → List (RowId × LedgerRow) → ℕ
payable hbar who [] = 0
payable hbar who ((id, row) ∷ rows) = due hbar (may_pay who row) + payable hbar who rows

-- Writing a row back changes the sum by that row alone.
payable-insert :
    (hbar : ℕ) (who : String) (id : RowId) (old new : LedgerRow) (rows : List (RowId × LedgerRow))
    → lookup id rows ≡ some old
    → payable hbar who (insert id new rows) + due hbar (may_pay who old)
      ≡ payable hbar who rows + due hbar (may_pay who new)
unfolding payable lookup insert
payable-insert hbar who id old new [] h = cc
payable-insert hbar who id old new ((i, r) ∷ rows) h = elim (Bool-cases (i == id)) [
  | inl same ↦ let e : r ≡ old = ground (arith, same, h) in rw (same, e) (omega arith)
  | inr other ↦
      let ih = payable-insert hbar who id old new rows (ground (arith, other, h)) in
      rw other (omega (arith, ih))
]

Next-undecided : (a b : RowStatus) → Next a b → is_decided b ≡ false → is_decided a ≡ false
Next-undecided a b (stays s) e = e
Next-undecided a b grades e = refl
Next-undecided a b pays e = refl
Next-undecided a b rejects e = refl
Next-undecided a b anchors_paid e = cc
Next-undecided a b anchors_rejected e = cc

-- A step makes no attempt payable that was not.
due-step :
    (hbar : ℕ) (who : String) (m : Market) (row : LedgerRow) (out : Market × LedgerRow)
    → Kept m row out
    → due hbar (may_pay who out.1) ≤ due hbar (may_pay who row)
due-step hbar who m row out (_, attempt) = elim (Bool-cases (is_decided out.1.status)) [
  | inl done ↦ ground (arith, done)
  | inr live ↦
      let before = Next-undecided row.status out.1.status attempt.forward live in
      ground (arith, attempt.same_nullifier, before, live)
]

-- What is earned and what can still be earned, together.
abbrev Bounded : ℕ → String → Market → LedgerRow → Market × LedgerRow → Type 0
Bounded hbar who m row out =
    earnings_for out.0 who + due hbar (may_pay who out.1)
    ≤ earnings_for m who + due hbar (may_pay who row)

pay_bond-Bounded :
    (setup : Setup) (tx : Answer String) (now : ℕ) (m : Market) (row : LedgerRow) (who n : String)
    (bond : BondState)
    → row.status ≡ graded
    → row.operator.nullifier ≡ some n
    → Bounded setup.bonus_hbar who m row (pay_bond setup tx now m row (n, bond))
unfolding pay_bond paid_with earnings_for set_bond
pay_bond-Bounded setup (answer tx) now m row who n bond e own =
    ground (arith, e, own, earnings_for-add_earnings m n who setup.bonus_hbar, eq_iff n who)
pay_bond-Bounded setup thrown now m row who n bond e own = ground (arith, e, own)

pay_row-Bounded :
    (setup : Setup) (tx : Answer String) (now : ℕ) (m : Market) (row : LedgerRow) (who : String)
    (held : Option (String × BondState))
    → row.status ≡ graded
    → bond_of m row.operator.nullifier ≡ held
    → Bounded setup.bonus_hbar who m row (pay_row setup tx now m row held)
unfolding pay_row paid_unpaid
pay_row-Bounded setup tx now m row who none e b = ground arith
pay_row-Bounded setup tx now m row who (some (n, bond)) e b =
    let (own, found, l) = bond_of-locked m row.operator.nullifier n bond b in
    let paid_out = pay_bond-Bounded setup tx now m row who n bond e own in ground (arith, paid_out)

reject_row-earns :
    (setup : Setup) (tx : Answer String) (now : ℕ) (m : Market) (row : LedgerRow) (who : String)
    (held : Option (String × BondState))
    → earnings_for (reject_row setup tx now m row held).0 who ≡ earnings_for m who
unfolding reject_row slash_bond earnings_for set_bond
reject_row-earns setup tx now m row who none = refl
reject_row-earns setup (answer tx) now m row who (some (n, bond)) = ground arith
reject_row-earns setup thrown now m row who (some (n, bond)) = ground arith

graded-Bounded :
    (setup : Setup) (ans : Answers) (now : ℕ) (m : Market) (row : LedgerRow) (who : String)
    → row.status ≡ graded
    → Kept m row (advance_graded setup ans now m row)
    → Bounded setup.bonus_hbar who m row (advance_graded setup ans now m row)
unfolding advance_graded
graded-Bounded setup ans now m row who e kept =
    let held = bond_of m row.operator.nullifier in
    elim (Bool-cases (has_passed row.grade)) [
      | inl pass ↦
          let paid_out = pay_row-Bounded setup ans.bonus_tx now m row who held e refl in
          ground (arith, pass, paid_out)
      | inr fail ↦
          let same = reject_row-earns setup ans.slash_tx now m row who held in
          let less = due-step setup.bonus_hbar who m row _ kept in ground (arith, fail, same, less)
    ]

advance_row-Bounded :
    (setup : Setup) (ans : Answers) (now : ℕ) (hub : Hub) (m : Market) (row : LedgerRow)
    (who : String) (s : RowStatus)
    → row.status ≡ s
    → Bounded setup.bonus_hbar who m row (advance_row setup ans now hub m row)
advance_row-Bounded setup ans now hub m row who graded e =
    let same = advance_row-graded setup ans now hub m row e in
    let kept = rw same at (advance_row-Kept setup ans now hub m row) in
    rw same (graded-Bounded setup ans now m row who e kept)
advance_row-Bounded setup ans now hub m row who opened e =
    rw (advance_row-opened setup ans now hub m row e) (omega arith)
advance_row-Bounded setup ans now hub m row who closed e =
    let same = advance_row-closed setup ans now hub m row e in
    let less = due-step setup.bonus_hbar who m row _ (advance_row-Kept setup ans now hub m row) in
    ground (arith, same, less)
advance_row-Bounded setup ans now hub m row who paid e =
    let same = advance_row-paid setup ans now hub m row e in
    let less = due-step setup.bonus_hbar who m row _ (advance_row-Kept setup ans now hub m row) in
    ground (arith, same, less)
advance_row-Bounded setup ans now hub m row who rejected e =
    let same = advance_row-rejected setup ans now hub m row e in
    let less = due-step setup.bonus_hbar who m row _ (advance_row-Kept setup ans now hub m row) in
    ground (arith, same, less)
advance_row-Bounded setup ans now hub m row who anchored e =
    rw (advance_row-anchored setup ans now hub m row e) (omega arith)

put-Bounded :
    (hbar : ℕ) (who : String) (m m' : Market) (row row' : LedgerRow)
    → lookup row.id m.rows ≡ some row
    → Kept m row (m', row')
    → Bounded hbar who m row (m', row')
    → earnings_for (put_row m' row') who + payable hbar who (put_row m' row').rows
      ≤ earnings_for m who + payable hbar who m.rows
unfolding put_row earnings_for
put-Bounded hbar who m m' row row' stored (same, attempt) less =
    let count = payable-insert hbar who row.id row row' m.rows stored in
    ground (arith, count, less, attempt.same_id, same.same_rows)

advance-Bounded :
    (setup : Setup) (t : Turn) (m : Market) (who : String)
    → IsOrdered m
    → let m' = advance setup t.answers t.now t.hub m t.id in
      earnings_for m' who + payable setup.bonus_hbar who m'.rows
      ≤ earnings_for m who + payable setup.bonus_hbar who m.rows
unfolding get_row advance earnings_for
advance-Bounded setup t m who ok = elim (Option-cases (lookup t.id m.rows)) [
  | inl gone ↦ rw (gone, advance) (omega arith)
  | inr (row, found) ↦
      let stored : lookup row.id m.rows ≡ some row =
        ground (arith, (ok.entries t.id row found).keyed, found) in
      let (m', row') = advance_row setup t.answers t.now t.hub m row in
      rw (found, advance)
        (put-Bounded setup.bonus_hbar who m m' row row' stored
          (advance_row-Kept setup t.answers t.now t.hub m row)
          (advance_row-Bounded setup t.answers t.now t.hub m row who row.status refl))
]

all-Bounded :
    (setup : Setup) (ts : List Turn) (m : Market) (who : String)
    → IsOrdered m
    → earnings_for (advance_all setup ts m) who
        + payable setup.bonus_hbar who (advance_all setup ts m).rows
      ≤ earnings_for m who + payable setup.bonus_hbar who m.rows
unfolding advance_all
all-Bounded setup [] m who ok = omega arith
all-Bounded setup (t ∷ ts) m who ok = omega (
  arith,
  advance-Bounded setup t m who ok,
  all-Bounded setup ts (advance setup t.answers t.now t.hub m t.id) who
      (advance-IsOrdered setup t m ok),
)

-- No attempt pays twice: from a ledger in order, over any turns of any rows and whatever the chains
-- and the graders answer, what an operator has earned grows by at most one bonus for each of the
-- operator's attempts that was not yet paid, rejected or anchored.
pub advance_all_bounded :
    (setup : Setup) (ts : List Turn) (m : Market) (who : String)
    → IsOrdered m
    → earnings_for (advance_all setup ts m) who
      ≤ earnings_for m who + payable setup.bonus_hbar who m.rows
advance_all_bounded setup ts m who ok = omega (arith, all-Bounded setup ts m who ok)
