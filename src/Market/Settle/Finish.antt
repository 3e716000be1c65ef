-- ===== src/Market/Settle/Finish.antt =====
-- Every attempt comes to its end, and what a step of the money does when a transfer fails.
use eth_global_lisbon_2026_h.Base.{
  ℕ, ◌+◌, ◌≤◌, ◌≡◌, ◌⊎◌, inl, inr, refl, true, false, Bool, none, some, Option, String, arith,
  Bool-cases, ◌&&◌, string_eq, option_eq,
}
use eth_global_lisbon_2026_h.Hub.Registry.{get_rig}
use eth_global_lisbon_2026_h.Market.Row.{
  RowStatus, opened, closed, graded, paid, rejected, anchored, LedgerRow, id_eq, Market, is_open,
  BondState,
}
use eth_global_lisbon_2026_h.Market.Settle.{
  Setup, Answer, answer, thrown, Answers, pay_bond, pay_row, paid_with, paid_unpaid, reject_row,
  rejected_row, slash_bond, in_grace, hub_episode, pick_episode, advance_closed, graded_row,
  anchor_row, anchor_digest, anchored_row, advance_graded, bond_of, has_passed, advance_row,
}
use eth_global_lisbon_2026_h.Market.Settle.Forward.{
  advance_row-closed, advance_row-graded, advance_row-paid, advance_row-rejected,
  advance_row-anchored,
}
use eth_global_lisbon_2026_h.Market.Settle.Runs.{Turn}

-- A call that came back.
abbrev pub came_back {ℓ} : {A : Type ℓ} → Answer A → Bool
came_back (answer a) = true
came_back thrown = false

-- The steps that a row still has before it, at most.
abbrev pub steps_left : RowStatus → ℕ
steps_left opened = 4
steps_left closed = 3
steps_left graded = 2
steps_left paid = 1
steps_left rejected = 1
steps_left anchored = 0

-- The calls that hold a row back have come back, and its grace is over.
pub record IsSmooth (t : Turn) (closed_at : ℕ) : Type 0 where
  pub bonus_back : came_back t.answers.bonus_tx ≡ true
  pub slash_back : came_back t.answers.slash_tx ≡ true
  pub digest_back : came_back t.answers.digest ≡ true
  pub grace_over : closed_at + 25000 ≤ t.now

-- A row that has been closed and whose provenance is still to come.
pub record IsUnderWay (row : LedgerRow) (closed_at : ℕ) : Type 0 where
  pub bare : row.provenance ≡ none
  pub shut : is_open row.status ≡ false
  pub shut_at : row.closed_at ≡ some closed_at

closed-due :
    (t : Turn) (row : LedgerRow) (at : ℕ)
    → IsSmooth t at
    → row.status ≡ closed
    → row.closed_at ≡ some at
    → row.provenance ≡ none
    → let row' = advance_closed t.answers t.now t.hub row in
      (row'.status ≡ graded) × (row'.provenance ≡ none) × (row'.closed_at ≡ some at)
unfolding advance_closed in_grace pick_episode graded_row
closed-due t row at smooth e c p =
    let row' = pick_episode (hub_episode (get_rig t.hub row.rig)) row in
    let due : in_grace t.now row' ≡ false = ground (arith, c, smooth.grace_over) in
    rw due (refl, p, c)

-- The row was decided, and is as much under way as it was.
abbrev Decides : RowStatus → LedgerRow → LedgerRow → Type 0
Decides s row row' =
    (row'.status ≡ s) × (row'.provenance ≡ row.provenance) × (row'.closed_at ≡ row.closed_at)

pay_row-Decides :
    (setup : Setup) (tx : Answer String) (now : ℕ) (m : Market) (row : LedgerRow)
    (held : Option (String × BondState))
    → came_back tx ≡ true
    → Decides paid row (pay_row setup tx now m row held).1
unfolding pay_row paid_unpaid pay_bond paid_with
pay_row-Decides setup tx now m row none back = (refl, refl, refl)
pay_row-Decides setup (answer tx) now m row (some (n, bond)) back = ground arith
pay_row-Decides setup thrown now m row (some (n, bond)) back = cc

reject_row-Decides :
    (setup : Setup) (tx : Answer String) (now : ℕ) (m : Market) (row : LedgerRow)
    (held : Option (String × BondState))
    → came_back tx ≡ true
    → Decides rejected row (reject_row setup tx now m row held).1
unfolding reject_row slash_bond rejected_row
reject_row-Decides setup tx now m row none back = (refl, refl, refl)
reject_row-Decides setup (answer tx) now m row (some (n, bond)) back = ground arith
reject_row-Decides setup thrown now m row (some (n, bond)) back = cc

anchors :
    (setup : Setup) (ans : Answers) (row : LedgerRow)
    → came_back ans.digest ≡ true
    → row.provenance ≡ none
    → (anchor_row setup ans row).status ≡ anchored
unfolding anchor_row anchored_row
anchors setup ans row back bare = elim (Bool-cases (setup.hedera_on && setup.has_topic)) [
  | inl topic ↦ ground (arith, bare, topic, digest ans.digest back)
  | inr quiet ↦ ground (arith, bare, quiet)
]
  where
    digest : (d : Answer ℕ) → came_back d ≡ true → (anchor_digest setup ans d row).status ≡ anchored
    digest (answer seq) b = unfold anchor_digest anchored_row in refl
    digest thrown b = cc

-- What a smooth turn makes of a row under way: it is done, or it has a step less before it.
abbrev pub Progress : ℕ → LedgerRow → LedgerRow → Type 0
Progress at row row' =
    (row'.status ≡ anchored)
    ⊎ (IsUnderWay row' at × (steps_left row'.status + 1 ≤ steps_left row.status))

graded-Progress :
    (setup : Setup) (t : Turn) (m : Market) (row : LedgerRow) (at : ℕ)
    → IsSmooth t at
    → IsUnderWay row at
    → row.status ≡ graded
    → Progress at row (advance_graded setup t.answers t.now m row).1
unfolding advance_graded
graded-Progress setup t m row at smooth way e =
    let held = bond_of m row.operator.nullifier in
    elim (Bool-cases (has_passed row.grade)) [
      | inl pass ↦
          let (s, p, c) =
            pay_row-Decides setup t.answers.bonus_tx t.now m row held smooth.bonus_back in
          inr (
            record {
              bare = ground (arith, pass, p, way.bare);
              shut = ground (arith, pass, s);
              shut_at = ground (arith, pass, c, way.shut_at);
            },
            ground (arith, pass, s, e),
          )
      | inr fail ↦
          let (s, p, c) =
            reject_row-Decides setup t.answers.slash_tx t.now m row held smooth.slash_back in
          inr (
            record {
              bare = ground (arith, fail, p, way.bare);
              shut = ground (arith, fail, s);
              shut_at = ground (arith, fail, c, way.shut_at);
            },
            ground (arith, fail, s, e),
          )
    ]

pub row-Progress :
    (setup : Setup) (t : Turn) (m : Market) (row : LedgerRow) (at : ℕ) (s : RowStatus)
    → IsSmooth t at
    → IsUnderWay row at
    → row.status ≡ s
    → Progress at row (advance_row setup t.answers t.now t.hub m row).1
row-Progress setup t m row at opened smooth way e = ground (arith, e, way.shut)
row-Progress setup t m row at closed smooth way e =
    let (g, p, c) = closed-due t row at smooth e way.shut_at way.bare in
    rw (advance_row-closed setup t.answers t.now t.hub m row e)
      (inr (record { bare = p; shut = ground (arith, g); shut_at = c }, ground (arith, g, e)))
row-Progress setup t m row at graded smooth way e =
    rw (advance_row-graded setup t.answers t.now t.hub m row e)
      (graded-Progress setup t m row at smooth way e)
row-Progress setup t m row at paid smooth way e =
    rw (advance_row-paid setup t.answers t.now t.hub m row e)
      (inl (anchors setup t.answers row smooth.digest_back way.bare))
row-Progress setup t m row at rejected smooth way e =
    rw (advance_row-rejected setup t.answers t.now t.hub m row e)
      (inl (anchors setup t.answers row smooth.digest_back way.bare))
row-Progress setup t m row at anchored smooth way e =
    rw (advance_row-anchored setup t.answers t.now t.hub m row e) (inl e)
