-- ===== src/Market/Settle/Runs.antt =====
-- Runs of the worker over the rows of a ledger.
use eth_global_lisbon_2026_h.Base.{
  ℕ, ◌≡◌, ◌⊎◌, inl, inr, refl, ap, ◌∙◌, none, Option, is_some, ◌&&◌, true, false, Bool, some, List,
  [], ◌∷◌, arith, lookup, insert_same, lookup-insert, ◌==◌, Option-cases, Bool-cases, if◌then◌else◌,
}
use eth_global_lisbon_2026_h.Hub.Registry.{Hub}
use eth_global_lisbon_2026_h.Market.Row.{
  RowStatus, opened, closed, graded, paid, rejected, anchored, LedgerRow, RowId, id_eq, id_beq_iff,
  Market, is_open,
}
use eth_global_lisbon_2026_h.Market.Ledger.{put_row, get_row}
use eth_global_lisbon_2026_h.Market.Ledger.Order.{IsOrdered}
use eth_global_lisbon_2026_h.Market.Ledger.Closing.{put_row-IsOrdered}
use eth_global_lisbon_2026_h.Market.Settle.{
  Setup, Answers, Answer, answer, thrown, anchored_row, anchor_digest, anchor_row, advance_row,
  advance,
}
use eth_global_lisbon_2026_h.Market.Settle.Forward.{
  Next, stays, grades, pays, rejects, anchors_paid, anchors_rejected, SameRows, SameAttempt, Kept,
  advance_row-Kept, advance_row-opened,
}

-- One row's turn: what is heard, when, and of which hub.
pub record Turn : Type 0 where
  pub answers : Answers
  pub now : ℕ
  pub hub : Hub
  pub id : RowId

unfoldable pub advance_all : Setup → List Turn → Market → Market
unfolding advance
advance_all setup [] m = m
advance_all setup (t ∷ ts) m = advance_all setup ts (advance setup t.answers t.now t.hub m t.id)

pub SameRows-IsOrdered : (m m' : Market) → SameRows m m' → IsOrdered m → IsOrdered m'
SameRows-IsOrdered m m' same ok = record {
  entries = λ id row e.
      let was = ok.entries id row (rw (← same.same_rows) e) in
      record {
        keyed = was.keyed;
        issued = rw same.same_seq was.issued;
        pointed = rw same.same_pointers was.pointed;
      };
  pointers = λ rig id e.
      let was = ok.pointers rig id (rw (← same.same_pointers) e) in
      record {
        issued = rw same.same_seq was.issued;
        own = λ row f. was.own row (rw (← same.same_rows) f);
      };
}

-- A step that ends where the row is not open was taken from one that is not.
Next-shut : (a b : RowStatus) → Next a b → is_open a ≡ false → is_open b ≡ false
Next-shut a b (stays s) e = e
Next-shut a b grades e = refl
Next-shut a b pays e = refl
Next-shut a b rejects e = refl
Next-shut a b anchors_paid e = refl
Next-shut a b anchors_rejected e = refl

-- A row that is written back after a step of its life.
put-IsOrdered :
    (m m' : Market) (row row' : LedgerRow)
    → IsOrdered m
    → lookup row.id m.rows ≡ some row
    → Kept m row (m', row')
    → is_open row.status ≡ false
    → IsOrdered (put_row m' row')
put-IsOrdered m m' row row' ok stored (same, attempt) shut =
    put_row-IsOrdered m' row row' (SameRows-IsOrdered m m' same ok)
      (rw (attempt.same_id, same.same_rows) stored) attempt.same_rig
      (Next-shut row.status row'.status attempt.forward shut)

-- An attempt that still runs is not the settlement's.
open-untouched :
    (setup : Setup) (t : Turn) (m : Market) (row : LedgerRow)
    → lookup row.id m.rows ≡ some row
    → is_open row.status ≡ true
    → let (m', row') = advance_row setup t.answers t.now t.hub m row in put_row m' row' ≡ m
unfolding put_row
open-untouched setup t m row stored live =
    let e : row.status ≡ opened = ground arith in
    rw
      (advance_row-opened setup t.answers t.now t.hub m row e, insert_same row.id row m.rows stored)
      refl

-- The turn of a row leaves the ledger in order.
pub advance-IsOrdered :
    (setup : Setup) (t : Turn) (m : Market)
    → IsOrdered m
    → IsOrdered (advance setup t.answers t.now t.hub m t.id)
unfolding advance get_row
advance-IsOrdered setup t m ok = elim (Option-cases (lookup t.id m.rows)) [
  | inl gone ↦ rw (gone, advance) ok
  | inr (row, found) ↦
      let stored : lookup row.id m.rows ≡ some row =
        ground (arith, (ok.entries t.id row found).keyed, found) in
      elim (Bool-cases (is_open row.status)) [
        | inl live ↦ rw (found, advance, open-untouched setup t m row stored live) ok
        | inr shut ↦
            let (m', row') = advance_row setup t.answers t.now t.hub m row in
            rw (found, advance)
              (put-IsOrdered m m' row row' ok stored
                (advance_row-Kept setup t.answers t.now t.hub m row) shut)
      ]
]

-- What is stored once a row is written back after a step of its life.
pub put_stored :
    (m m' : Market) (row row' : LedgerRow) (id : RowId)
    → Kept m row (m', row')
    → lookup id (put_row m' row').rows ≡ (if row.id == id then some row' else lookup id m.rows)
unfolding put_row
put_stored m m' row row' id (same, attempt) =
    ground (arith, lookup-insert row'.id id row' m'.rows, attempt.same_id, same.same_rows)

-- What is stored under an id after a turn, if a row was: that row, or what its own turn makes of it.
advance-turn :
    (setup : Setup) (t : Turn) (m : Market) (id : RowId) (row : LedgerRow)
    → IsOrdered m
    → lookup id m.rows ≡ some row
    → (row' : LedgerRow) × (lookup id (advance setup t.answers t.now t.hub m t.id).rows ≡ some row')
      × ((row' ≡ row) ⊎ (row' ≡ (advance_row setup t.answers t.now t.hub m row).1))
unfolding advance get_row put_row
advance-turn setup t m id row ok stored = elim (Option-cases (lookup t.id m.rows)) [
  | inl gone ↦ (row, rw (gone, advance) stored, inl refl)
  | inr (r, found) ↦
      let (m', r') = advance_row setup t.answers t.now t.hub m r in
      let kept = advance_row-Kept setup t.answers t.now t.hub m r in
      let after = put_stored m m' r r' id kept in
      let keyed = (ok.entries t.id r found).keyed in
      elim (Bool-cases (t.id == id)) [
        | inl mine ↦
            let e : r ≡ row = ground (arith, id_beq_iff t.id id, found, stored) in
            (
              r',
              rw (found, advance) (ground (arith, after, keyed, mine)),
              inr (ap (λ x. (advance_row setup t.answers t.now t.hub m x).1) e),
            )
        | inr other ↦
            (row, rw (found, advance) (ground (arith, after, keyed, other, stored)), inl refl)
      ]
]

pub advance-stored :
    (setup : Setup) (t : Turn) (m : Market) (id : RowId) (row : LedgerRow)
    → IsOrdered m
    → lookup id m.rows ≡ some row
    → (row' : LedgerRow) × (lookup id (advance setup t.answers t.now t.hub m t.id).rows ≡ some row')
      × SameAttempt row row'
advance-stored setup t m id row ok stored =
    let (row', stored', turn) = advance-turn setup t m id row ok stored in
    (
      row',
      stored',
      elim turn [
        | inl same ↦ rw same untouched
        | inr own ↦ rw own (advance_row-Kept setup t.answers t.now t.hub m row).1
      ],
    )
  where
    untouched : SameAttempt row row
    untouched = record {
      same_id = refl;
      same_rig = refl;
      same_claim = refl;
      same_nullifier = refl;
      forward = stays _;
    }

abbrev pub is_decided : RowStatus → Bool
is_decided paid = true
is_decided rejected = true
is_decided anchored = true
is_decided _ = false

-- The row `new` has the verdict of the row `old`: its grade and its payment, of the same attempt on
-- the same evidence, and it is in the same state or anchored.
pub record IsVerdictOf (old new : LedgerRow) : Type 0 where
  pub state : (new.status ≡ old.status) ⊎ (new.status ≡ anchored)
  pub same_grade : new.grade ≡ old.grade
  pub same_payment : new.payment ≡ old.payment
  pub same_claim : new.claimed ≡ old.claimed
  pub same_rig : new.rig ≡ old.rig
  pub same_operator : new.operator ≡ old.operator
  pub same_telemetry : new.telemetry ≡ old.telemetry

own-verdict : (row : LedgerRow) → IsVerdictOf row row
own-verdict row = record {
  state = inl refl;
  same_grade = refl;
  same_payment = refl;
  same_claim = refl;
  same_rig = refl;
  same_operator = refl;
  same_telemetry = refl;
}

anchored-verdict :
    (setup : Setup) (ans : Answers) (seq : Option ℕ) (row : LedgerRow)
    → IsVerdictOf row (anchored_row setup ans seq row)
unfolding anchored_row
anchored-verdict setup ans seq row = record {
  state = inr refl;
  same_grade = refl;
  same_payment = refl;
  same_claim = refl;
  same_rig = refl;
  same_operator = refl;
  same_telemetry = refl;
}

digest-verdict :
    (setup : Setup) (ans : Answers) (digest : Answer ℕ) (row : LedgerRow)
    → IsVerdictOf row (anchor_digest setup ans digest row)
unfolding anchor_digest
digest-verdict setup ans (answer seq) row = anchored-verdict setup ans (some seq) row
digest-verdict setup ans thrown row = own-verdict row

anchor-verdict :
    (setup : Setup) (ans : Answers) (row : LedgerRow) → IsVerdictOf row (anchor_row setup ans row)
unfolding anchor_row
anchor-verdict setup ans row = elim (Bool-cases (is_some row.provenance)) [
  | inl done ↦ rw (anchor_row, done) (own-verdict row)
  | inr bare ↦ elim (Bool-cases (setup.hedera_on && setup.has_topic)) [
    | inl on ↦ rw (anchor_row, bare, on) (digest-verdict setup ans ans.digest row)
    | inr off ↦ rw (anchor_row, bare, off) (anchored-verdict setup ans none row)
  ]
]

-- The turn of a row that is decided.
turn-verdict :
    (setup : Setup) (ans : Answers) (now : ℕ) (hub : Hub) (m : Market) (row : LedgerRow)
    (s : RowStatus)
    → row.status ≡ s
    → is_decided s ≡ true
    → IsVerdictOf row (advance_row setup ans now hub m row).1
unfolding advance_row
turn-verdict setup ans now hub m row opened e d = cc
turn-verdict setup ans now hub m row closed e d = cc
turn-verdict setup ans now hub m row graded e d = cc
turn-verdict setup ans now hub m row paid e d =
    let turn : (advance_row setup ans now hub m row).1 ≡ anchor_row setup ans row =
      ground (arith, e) in
    rw turn (anchor-verdict setup ans row)
turn-verdict setup ans now hub m row rejected e d =
    let turn : (advance_row setup ans now hub m row).1 ≡ anchor_row setup ans row =
      ground (arith, e) in
    rw turn (anchor-verdict setup ans row)
turn-verdict setup ans now hub m row anchored e d =
    let turn : (advance_row setup ans now hub m row).1 ≡ row = ground (arith, e) in
    rw turn (own-verdict row)

then-verdict : (a b c : LedgerRow) → IsVerdictOf a b → IsVerdictOf b c → IsVerdictOf a c
then-verdict a b c p q = record {
  state = ground (arith, p.state, q.state);
  same_grade = q.same_grade ∙ p.same_grade;
  same_payment = q.same_payment ∙ p.same_payment;
  same_claim = q.same_claim ∙ p.same_claim;
  same_rig = q.same_rig ∙ p.same_rig;
  same_operator = q.same_operator ∙ p.same_operator;
  same_telemetry = q.same_telemetry ∙ p.same_telemetry;
}

still-decided :
    (a b : LedgerRow) → IsVerdictOf a b → is_decided a.status ≡ true → is_decided b.status ≡ true
still-decided a b v e = elim v.state [ inl same ↦ rw same e | inr done ↦ rw done refl ]

-- No verdict is taken back: in a ledger in order, whatever the chains and the graders answer and in
-- whatever order the rows have their turns, an attempt that is paid, rejected or anchored is later
-- in the same state or anchored, with the same grade, the same payment and the same evidence, for
-- the same operator, rig and claim.
pub advance_all_final :
    (setup : Setup) (ts : List Turn) (m : Market) (id : RowId) (row : LedgerRow)
    → IsOrdered m
    → lookup id m.rows ≡ some row
    → is_decided row.status ≡ true
    → (row' : LedgerRow) × (lookup id (advance_all setup ts m).rows ≡ some row')
      × IsVerdictOf row row'
unfolding advance_all
advance_all_final setup [] m id row ok stored decided = (row, stored, own-verdict row)
advance_all_final setup (t ∷ ts) m id row ok stored decided =
    let (row1, stored1, turn) = advance-turn setup t m id row ok stored in
    let first : IsVerdictOf row row1 = elim turn [
      | inl same ↦ rw same (own-verdict row)
      | inr own ↦ rw own (turn-verdict setup t.answers t.now t.hub m row row.status refl decided)
    ] in
    let (row2, stored2, more) =
      advance_all_final setup ts (advance setup t.answers t.now t.hub m t.id) id row1
        (advance-IsOrdered setup t m ok) stored1 (still-decided row row1 first decided) in
    (row2, stored2, then-verdict row row1 row2 first more)
