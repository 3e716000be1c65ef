-- ===== src/Market/Settle.antt =====
-- The life of a row after its attempt: `advance`, `settle` and `payBonus` of
-- apps/web/src/market/worker.ts. What the chains, the grader and the uploads answer is an argument. A
-- step is whole: the sampler of a closed row, the only other writer, is stopped before the first
-- wait.
pub mod Forward
pub mod Runs
pub mod Stakes
pub mod Earning
pub mod Finish
pub mod Transfers
pub mod Ending
pub use eth_global_lisbon_2026_h.Base.{Answer, answer, thrown}
use eth_global_lisbon_2026_h.Base.{
  ℕ, ◌+◌, String, Bool, true, false, not, ◌&&◌, Option, none, some, List, [], ◌∷◌, is_some, is_none,
  ltb, insert, lookup, includes, or_else, or_maybe, ◌==◌, string_eq, if◌then◌else◌, Fields,
}
use eth_global_lisbon_2026_h.Hub.Rig.{Rig, AttemptState, EpisodeMotion}
use eth_global_lisbon_2026_h.Hub.Registry.{Hub, get_rig}
use eth_global_lisbon_2026_h.Market.Row.{
  LedgerRow, RowTelemetry, opened, closed, graded, paid, rejected, anchored, Grade, bonus, nothing,
  Payment, Provenance, BondStatus, slashed, BondState, Market, RowId, id_eq,
}
use eth_global_lisbon_2026_h.Market.Ledger.{put_row, get_bond, add_earnings, get_row}
use eth_global_lisbon_2026_h.Market.Grader.{Grader, Remote, Verdict, grade, is_success}

-- `HEDERA.configured`, `HEDERA.topicId !== ""`, `TEE_BRIDGE.configured`, the keys of `slotChains()`,
-- `SLOT_AUTOSETTLE` and `BONUS_HBAR`.
pub record Setup : Type 0 where
  pub hedera_on : Bool
  pub has_topic : Bool
  pub tee_on : Bool
  pub slot_chains : List String
  pub autosettle : Bool
  pub bonus_hbar : ℕ

abbrev pub has_slots : Setup → Bool
has_slots s = elim s.slot_chains [ [] ↦ false | _ ∷ _ ↦ true ]

pub record VerdictResult : Type 0 where
  pub tx_hash : String
  pub attested : Bool

-- What one advance of a row hears from outside.
pub record Answers : Type 0 where
  pub grader : Grader
  pub remote : Remote
  pub reason : String
  pub proof : Option Fields
  pub bonus_tx : Answer String
  pub slash_tx : Answer String
  pub digest : Answer ℕ
  pub tee : Answer (Option String)
  pub root : Answer (Option String)
  pub registry : Answer (Option String)
  pub verdict : Answer (Option VerdictResult)

abbrev pub grade_grace_ms : ℕ
grade_grace_ms = 25000

-- `getRig(name)?.attempt?.lastEpisode`
abbrev pub hub_episode : Option Rig → Option EpisodeMotion
hub_episode none = none
hub_episode (some rig) = elim rig.attempt [ none ↦ none | some a ↦ a.last_episode ]

-- The first measurement of the episode that is read stays.
unfoldable pub pick_episode : Option EpisodeMotion → LedgerRow → LedgerRow
pick_episode found row = record row {
  telemetry = record row.telemetry { episode = or_maybe row.telemetry.episode found };
}

-- A success claim without an episode waits until the grace is over.
unfoldable pub in_grace : ℕ → LedgerRow → Bool
in_grace now row =
    is_success row.claimed
    && (is_none row.telemetry.episode
        && elim row.closed_at [ none ↦ false | some at ↦ ltb now (at + grade_grace_ms) ])

graded_row : Answers → LedgerRow → LedgerRow
unfolding grade
graded_row ans row =
    let v = grade ans.grader ans.remote row in
    record row {
      grade = some (record {
        score = v.score;
        pass = v.pass;
        provider = v.provider;
        reason = ans.reason;
        proof = ans.proof;
      });
      status = graded;
    }

unfoldable pub advance_closed : Answers → ℕ → Hub → LedgerRow → LedgerRow
unfolding graded_row pick_episode in_grace get_rig
advance_closed ans now hub row =
    let row' = pick_episode (hub_episode (get_rig hub row.rig)) row in
    if in_grace now row' then row' else graded_row ans row'

-- The bond that an operator's nullifier names: an empty one names none.
unfoldable pub bond_of : Market → Option String → Option (String × BondState)
unfolding get_bond
bond_of m none = none
bond_of m (some n) =
    if n == "" then none else elim (get_bond m n) [ none ↦ none | some bond ↦ some (n, bond) ]

-- The bond is a shared object: a change of it is a change of the map's.
unfoldable pub set_bond : Market → String → BondState → Market
set_bond m n bond = record m { bonds = insert n bond m.bonds }

-- `settle`: the bond is marked before the transfer is tried.
unfoldable pub settle : Answer String → BondStatus → BondState → BondState
settle (answer tx) outcome bond = record bond { status = outcome; settle_tx_id = some tx }
settle thrown outcome bond = record bond { status = outcome }

payment_of : Option String → ℕ → Payment
payment_of tx hbar = record { kind = bonus; tx_id = tx; amount_hbar = hbar }

-- A pass with no stake to pay to.
paid_unpaid : LedgerRow → LedgerRow
unfolding payment_of
paid_unpaid row = record row { payment = some (payment_of none 0); status = paid }

paid_with : Setup → String → BondState → LedgerRow → LedgerRow
unfolding payment_of
paid_with setup tx bond row = record row {
  payment = some (payment_of (some tx) setup.bonus_hbar);
  operator = record row.operator {
    evm_address = or_maybe row.operator.evm_address (some bond.evm_address);
  };
  status = paid;
}

-- The bonus, and the stake stays locked. A transfer that failed leaves the row where it is.
unfoldable pub pay_bond :
    Setup → Answer String → ℕ → Market → LedgerRow → String × BondState → Market × LedgerRow
unfolding paid_with payment_of add_earnings set_bond
pay_bond setup (answer tx) now m row (n, bond) = (
  set_bond (add_earnings m n setup.bonus_hbar) n (record bond { last_active_at = now }),
  paid_with setup tx bond row,
)
pay_bond setup thrown now m row (n, bond) = (m, record row { payment = some (payment_of none 0) })

unfoldable pub pay_row :
    Setup
    → Answer String
    → ℕ
    → Market
    → LedgerRow
    → Option (String × BondState)
    → Market × LedgerRow
unfolding pay_bond paid_unpaid
pay_row setup tx now m row none = (m, paid_unpaid row)
pay_row setup tx now m row (some b) =
    if setup.hedera_on then pay_bond setup tx now m row b else (m, paid_unpaid row)

rejected_row : LedgerRow → LedgerRow
rejected_row row = record row {
  payment = some (record { kind = nothing; tx_id = none; amount_hbar = 0 });
  status = rejected;
}

slash_bond : Answer String → Market → LedgerRow → String × BondState → Market × LedgerRow
unfolding settle set_bond rejected_row
slash_bond (answer tx) m row (n, bond) =
    (set_bond m n (settle (answer tx) slashed bond), rejected_row row)
slash_bond thrown m row (n, bond) = (set_bond m n (settle thrown slashed bond), row)

-- Only a claim of success that was not one costs the stake.
unfoldable pub reject_row :
    Setup
    → Answer String
    → ℕ
    → Market
    → LedgerRow
    → Option (String × BondState)
    → Market × LedgerRow
unfolding slash_bond rejected_row set_bond
reject_row setup tx now m row none = (m, rejected_row row)
reject_row setup tx now m row (some (n, bond)) =
    if is_success row.claimed && setup.hedera_on
    then slash_bond tx m row (n, bond)
    else (set_bond m n (record bond { last_active_at = now }), rejected_row row)

-- `row.grade?.pass === true`
abbrev pub has_passed : Option Grade → Bool
has_passed none = false
has_passed (some g) = g.pass

unfoldable pub advance_graded : Setup → Answers → ℕ → Market → LedgerRow → Market × LedgerRow
unfolding pay_row reject_row bond_of
advance_graded setup ans now m row =
    let bond = bond_of m row.operator.nullifier in
    if has_passed row.grade
    then pay_row setup ans.bonus_tx now m row bond
    else reject_row setup ans.slash_tx now m row bond

-- What a best-effort step left behind.
abbrev pub kept {ℓ} : {A : Type ℓ} → Answer (Option A) → Option A
kept (answer a) = a
kept thrown = none

-- The upload comes first: where it throws, the registry is not called.
registry_tx : Answers → Option String
registry_tx ans = elim ans.root [ answer _ ↦ kept ans.registry | thrown ↦ none ]

-- The verdict is brought to the slot's own chain, if the row has a slot and the chain is known.
unfoldable pub slot_verdict : Setup → Answers → LedgerRow → Option VerdictResult
slot_verdict setup ans row =
    if has_slots setup
      && (is_some row.slot_id && includes (or_else row.slot_chain "") setup.slot_chains)
    then kept ans.verdict
    else none

anchored_row : Setup → Answers → Option ℕ → LedgerRow → LedgerRow
unfolding slot_verdict registry_tx
anchored_row setup ans seq row =
    let verdict = slot_verdict setup ans row in
    record row {
      provenance = some (record {
        hcs_seq = seq;
        zg_root = kept ans.root;
        registry_tx = registry_tx ans;
        tee_tx_hash = if setup.tee_on then kept ans.tee else none;
        slot_tx = elim verdict [ none ↦ none | some v ↦ some v.tx_hash ];
        slot_attested = elim verdict [ none ↦ none | some v ↦ some v.attested ];
      });
      status = anchored;
    }

-- The digest is the one step that holds the row back.
anchor_digest : Setup → Answers → Answer ℕ → LedgerRow → LedgerRow
unfolding anchored_row
anchor_digest setup ans (answer seq) row = anchored_row setup ans (some seq) row
anchor_digest setup ans thrown row = row

unfoldable pub anchor_row : Setup → Answers → LedgerRow → LedgerRow
unfolding anchor_digest anchored_row
anchor_row setup ans row =
    if is_some row.provenance
    then row
    else if setup.hedera_on && setup.has_topic
    then anchor_digest setup ans ans.digest row
    else anchored_row setup ans none row

-- One step of a row's life, with what it changes of the ledger beside the row.
unfoldable pub advance_row : Setup → Answers → ℕ → Hub → Market → LedgerRow → Market × LedgerRow
unfolding advance_closed advance_graded anchor_row
advance_row setup ans now hub m row = elim row.status [
  | opened ↦ (m, row)
  | closed ↦ (m, advance_closed ans now hub row)
  | graded ↦ advance_graded setup ans now m row
  | paid ↦ (m, anchor_row setup ans row)
  | rejected ↦ (m, anchor_row setup ans row)
  | anchored ↦ (m, row)
]

-- The row with this id, as it then is.
unfoldable pub advance : Setup → Answers → ℕ → Hub → Market → RowId → Market
unfolding advance_row put_row get_row
advance setup ans now hub m id = elim (get_row m id) [
  | none ↦ m
  | some row ↦ let (m', row') = advance_row setup ans now hub m row in put_row m' row'
]
