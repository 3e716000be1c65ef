-- ===== src/Market/Settle/Forward.antt =====
-- The order of the states of a row: no row goes back, and no verdict is taken back.
use eth_global_lisbon_2026_h.Base.{
  ℕ, ◌≡◌, inl, inr, refl, none, some, Option, String, arith, Bool-cases, ◌&&◌, is_some,
}
use eth_global_lisbon_2026_h.Hub.Registry.{Hub, get_rig}
use eth_global_lisbon_2026_h.Market.Row.{
  RowStatus, opened, closed, graded, paid, rejected, anchored, LedgerRow, id_eq, Market, BondState,
}
use eth_global_lisbon_2026_h.Market.Grader.{is_success}
use eth_global_lisbon_2026_h.Market.Ledger.{add_earnings}
use eth_global_lisbon_2026_h.Market.Settle.{
  Setup, Answer, answer, thrown, Answers, hub_episode, in_grace, pick_episode, advance_closed,
  graded_row, pay_bond, pay_row, paid_with, paid_unpaid, reject_row, rejected_row, slash_bond,
  set_bond, advance_graded, bond_of, has_passed, anchor_row, anchor_digest, anchored_row,
  advance_row,
}

-- One step of a row's life.
pub data Next : RowStatus → RowStatus → Type 0 where
  stays : (s : RowStatus) → Next s s
  grades : Next closed graded
  pays : Next graded paid
  rejects : Next graded rejected
  anchors_paid : Next paid anchored
  anchors_rejected : Next rejected anchored

-- What a step of a row keeps: its id, its rig and its claim.
pub record SameAttempt (old new : LedgerRow) : Type 0 where
  pub same_id : new.id ≡ old.id
  pub same_rig : new.rig ≡ old.rig
  pub same_claim : new.claimed ≡ old.claimed
  pub same_nullifier : new.operator.nullifier ≡ old.operator.nullifier
  pub forward : Next old.status new.status

-- What a step of a row leaves of the ledger.
pub record SameRows (old new : Market) : Type 0 where
  pub same_rows : new.rows ≡ old.rows
  pub same_pointers : new.open_by_rig ≡ old.open_by_rig
  pub same_seq : new.seq ≡ old.seq

closed-forward :
    (ans : Answers) (now : ℕ) (hub : Hub) (row : LedgerRow)
    → row.status ≡ closed
    → SameAttempt row (advance_closed ans now hub row)
unfolding advance_closed pick_episode graded_row
closed-forward ans now hub row e =
    let row' = pick_episode (hub_episode (get_rig hub row.rig)) row in
    elim (Bool-cases (in_grace now row')) [
      | inl later ↦ rw later (record {
        same_id = refl;
        same_rig = refl;
        same_claim = refl;
        same_nullifier = refl;
        forward = stays _;
      })
      | inr due ↦
          rw (due, e)
            (record {
              same_id = refl;
              same_rig = refl;
              same_claim = refl;
              same_nullifier = refl;
              forward = grades;
            })
    ]

-- What a step of a row that has a verdict comes to.
abbrev pub Kept : Market → LedgerRow → Market × LedgerRow → Type 0
Kept m row out = SameRows m out.0 × SameAttempt row out.1

pay-Kept :
    (setup : Setup) (tx : Answer String) (now : ℕ) (m : Market) (row : LedgerRow)
    (bond : Option (String × BondState))
    → row.status ≡ graded
    → Kept m row (pay_row setup tx now m row bond)
unfolding pay_row pay_bond paid_with paid_unpaid add_earnings set_bond
pay-Kept setup tx now m row none e = rw e (
  record { same_rows = refl; same_pointers = refl; same_seq = refl },
  record {
    same_id = refl;
    same_rig = refl;
    same_claim = refl;
    same_nullifier = refl;
    forward = pays;
  },
)
pay-Kept setup (answer tx) now m row (some (n, bond)) e = elim (Bool-cases setup.hedera_on) [
  | inl on ↦
      rw (on, e)
        (
          record { same_rows = refl; same_pointers = refl; same_seq = refl },
          record {
            same_id = refl;
            same_rig = refl;
            same_claim = refl;
            same_nullifier = refl;
            forward = pays;
          },
        )
  | inr off ↦
      rw (off, e)
        (
          record { same_rows = refl; same_pointers = refl; same_seq = refl },
          record {
            same_id = refl;
            same_rig = refl;
            same_claim = refl;
            same_nullifier = refl;
            forward = pays;
          },
        )
]
pay-Kept setup thrown now m row (some (n, bond)) e = elim (Bool-cases setup.hedera_on) [
  | inl on ↦ rw on (
    record { same_rows = refl; same_pointers = refl; same_seq = refl },
    record {
      same_id = refl;
      same_rig = refl;
      same_claim = refl;
      same_nullifier = refl;
      forward = stays _;
    },
  )
  | inr off ↦
      rw (off, e)
        (
          record { same_rows = refl; same_pointers = refl; same_seq = refl },
          record {
            same_id = refl;
            same_rig = refl;
            same_claim = refl;
            same_nullifier = refl;
            forward = pays;
          },
        )
]

reject-Kept :
    (setup : Setup) (tx : Answer String) (now : ℕ) (m : Market) (row : LedgerRow)
    (bond : Option (String × BondState))
    → row.status ≡ graded
    → Kept m row (reject_row setup tx now m row bond)
unfolding reject_row rejected_row slash_bond set_bond
reject-Kept setup tx now m row none e = rw e (
  record { same_rows = refl; same_pointers = refl; same_seq = refl },
  record {
    same_id = refl;
    same_rig = refl;
    same_claim = refl;
    same_nullifier = refl;
    forward = rejects;
  },
)
reject-Kept setup (answer tx) now m row (some (n, bond)) e =
    elim (Bool-cases (is_success row.claimed && setup.hedera_on)) [
      | inl lied ↦
          rw (lied, e)
            (
              record { same_rows = refl; same_pointers = refl; same_seq = refl },
              record {
                same_id = refl;
                same_rig = refl;
                same_claim = refl;
                same_nullifier = refl;
                forward = rejects;
              },
            )
      | inr honest ↦
          rw (honest, e)
            (
              record { same_rows = refl; same_pointers = refl; same_seq = refl },
              record {
                same_id = refl;
                same_rig = refl;
                same_claim = refl;
                same_nullifier = refl;
                forward = rejects;
              },
            )
    ]
reject-Kept setup thrown now m row (some (n, bond)) e =
    elim (Bool-cases (is_success row.claimed && setup.hedera_on)) [
      | inl lied ↦ rw lied (
        record { same_rows = refl; same_pointers = refl; same_seq = refl },
        record {
          same_id = refl;
          same_rig = refl;
          same_claim = refl;
          same_nullifier = refl;
          forward = stays _;
        },
      )
      | inr honest ↦
          rw (honest, e)
            (
              record { same_rows = refl; same_pointers = refl; same_seq = refl },
              record {
                same_id = refl;
                same_rig = refl;
                same_claim = refl;
                same_nullifier = refl;
                forward = rejects;
              },
            )
    ]

graded-Kept :
    (setup : Setup) (ans : Answers) (now : ℕ) (m : Market) (row : LedgerRow)
    → row.status ≡ graded
    → Kept m row (advance_graded setup ans now m row)
unfolding advance_graded
graded-Kept setup ans now m row e = elim (Bool-cases (has_passed row.grade)) [
  | inl pass ↦ rw pass (pay-Kept setup ans.bonus_tx now m row (bond_of m row.operator.nullifier) e)
  | inr fail ↦
      rw fail (reject-Kept setup ans.slash_tx now m row (bond_of m row.operator.nullifier) e)
]

anchor-forward :
    (setup : Setup) (ans : Answers) (row : LedgerRow)
    → Next row.status anchored
    → SameAttempt row (anchor_row setup ans row)
unfolding anchor_row anchor_digest anchored_row
anchor-forward setup ans row next = elim (Bool-cases (is_some row.provenance)) [
  | inl done ↦ rw done (record {
    same_id = refl;
    same_rig = refl;
    same_claim = refl;
    same_nullifier = refl;
    forward = stays _;
  })
  | inr new ↦ elim (Bool-cases (setup.hedera_on && setup.has_topic)) [
    | inl topic ↦ rw (new, topic) (digest ans.digest)
    | inr quiet ↦
        rw (new, quiet)
          (record {
            same_id = refl;
            same_rig = refl;
            same_claim = refl;
            same_nullifier = refl;
            forward = next;
          })
  ]
]
  where
    digest : (d : Answer ℕ) → SameAttempt row (anchor_digest setup ans d row)
    digest (answer seq) = record {
      same_id = refl;
      same_rig = refl;
      same_claim = refl;
      same_nullifier = refl;
      forward = next;
    }
    digest thrown = record {
      same_id = refl;
      same_rig = refl;
      same_claim = refl;
      same_nullifier = refl;
      forward = stays _;
    }

-- What a step is, by the state of the row.
module _ (setup : Setup) (ans : Answers) (now : ℕ) (hub : Hub) (m : Market) (row : LedgerRow) where
  pub advance_row-opened : row.status ≡ opened → advance_row setup ans now hub m row ≡ (m, row)
  unfolding advance_row
  advance_row-opened e = ground (arith, e)

  pub advance_row-closed :
      row.status ≡ closed
      → advance_row setup ans now hub m row ≡ (m, advance_closed ans now hub row)
  unfolding advance_row
  advance_row-closed e = ground (arith, e)

  pub advance_row-graded :
      row.status ≡ graded → advance_row setup ans now hub m row ≡ advance_graded setup ans now m row
  unfolding advance_row
  advance_row-graded e = ground (arith, e)

  pub advance_row-paid :
      row.status ≡ paid → advance_row setup ans now hub m row ≡ (m, anchor_row setup ans row)
  unfolding advance_row
  advance_row-paid e = ground (arith, e)

  pub advance_row-rejected :
      row.status ≡ rejected → advance_row setup ans now hub m row ≡ (m, anchor_row setup ans row)
  unfolding advance_row
  advance_row-rejected e = ground (arith, e)

  pub advance_row-anchored : row.status ≡ anchored → advance_row setup ans now hub m row ≡ (m, row)
  unfolding advance_row
  advance_row-anchored e = ground (arith, e)

step-Kept :
    (setup : Setup) (ans : Answers) (now : ℕ) (hub : Hub) (m : Market) (row : LedgerRow)
    (s : RowStatus)
    → row.status ≡ s
    → Kept m row (advance_row setup ans now hub m row)
step-Kept setup ans now hub m row opened e = rw (advance_row-opened setup ans now hub m row e) (
  record { same_rows = refl; same_pointers = refl; same_seq = refl },
  record {
    same_id = refl;
    same_rig = refl;
    same_claim = refl;
    same_nullifier = refl;
    forward = stays _;
  },
)
step-Kept setup ans now hub m row closed e = rw (advance_row-closed setup ans now hub m row e) (
  record { same_rows = refl; same_pointers = refl; same_seq = refl },
  closed-forward ans now hub row e,
)
step-Kept setup ans now hub m row graded e =
    rw (advance_row-graded setup ans now hub m row e) (graded-Kept setup ans now m row e)
step-Kept setup ans now hub m row paid e = rw (advance_row-paid setup ans now hub m row e) (
  record { same_rows = refl; same_pointers = refl; same_seq = refl },
  anchor-forward setup ans row (rw e anchors_paid),
)
step-Kept setup ans now hub m row rejected e = rw (advance_row-rejected setup ans now hub m row e) (
  record { same_rows = refl; same_pointers = refl; same_seq = refl },
  anchor-forward setup ans row (rw e anchors_rejected),
)
step-Kept setup ans now hub m row anchored e = rw (advance_row-anchored setup ans now hub m row e) (
  record { same_rows = refl; same_pointers = refl; same_seq = refl },
  record {
    same_id = refl;
    same_rig = refl;
    same_claim = refl;
    same_nullifier = refl;
    forward = stays _;
  },
)

-- Whatever is heard, one step of a row keeps its id, its rig, its operator and its claim, moves its state at most
-- one step forward, and leaves every stored row and pointer of the ledger as it is.
pub advance_row-Kept :
    (setup : Setup) (ans : Answers) (now : ℕ) (hub : Hub) (m : Market) (row : LedgerRow)
    → Kept m row (advance_row setup ans now hub m row)
advance_row-Kept setup ans now hub m row = step-Kept setup ans now hub m row row.status refl
