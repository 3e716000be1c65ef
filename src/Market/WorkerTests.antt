-- ===== src/Market/WorkerTests.antt =====
-- Runs of the market's worker on small inputs: an attempt of an operator with a stake, and a slot.
use eth_global_lisbon_2026_h.Base.{
  inr, ◌≤◌, ◌≡◌, ◌+◌, refl, string_eq, true, false, list_eq, nat_eq, none, some, [], ◌∷◌, List, any,
  arith, includes, lookup, insert, erase, filter, answer, thrown,
}
use eth_global_lisbon_2026_h.Market.Row.{
  closed, graded, rejected, anchored, Market, LedgerRow, RowId, id_eq, id_beq, success, BondState,
  locked, slashed,
}
use eth_global_lisbon_2026_h.Market.Ledger.{
  open_row, close_row, open_row_for, get_bond, earnings_for, locked_only, nullifier_for, put_row,
}
use eth_global_lisbon_2026_h.Market.Ledger.Order.{IsOrdered, empty-IsOrdered, open_row-IsOrdered}
use eth_global_lisbon_2026_h.Market.Ledger.Closing.{close_row-IsOrdered, put_row-IsOrdered}
use eth_global_lisbon_2026_h.Market.Grader.{local, failed}
use eth_global_lisbon_2026_h.Market.Tests.{rig, request, blank, failed_row, world, mirror}
use eth_global_lisbon_2026_h.Hub.Rig.{still}
use eth_global_lisbon_2026_h.Market.Grader.{is_true}
use eth_global_lisbon_2026_h.Market.Ledger.{list_rows, sort_rows, insert_row}
use eth_global_lisbon_2026_h.Market.Slots.{
  all_heads, heads_of, begin_in_flight, end_in_flight, note_payout, refresh_failed, flight_beq,
}
use eth_global_lisbon_2026_h.Market.Settle.{Setup, Answers, bond_of, advance_graded}
use eth_global_lisbon_2026_h.Market.Settle.Runs.{Turn, advance_all, IsVerdictOf, advance_all_final}
use eth_global_lisbon_2026_h.Market.Settle.Earning.{payable, advance_all_bounded}
use eth_global_lisbon_2026_h.Market.Settle.Finish.{IsSmooth, IsUnderWay, steps_left}
use eth_global_lisbon_2026_h.Market.Settle.Ending.{turns_of, settlement_ends}
use eth_global_lisbon_2026_h.Market.Settle.Transfers.{failed_slash_rejects}
use eth_global_lisbon_2026_h.Market.Dues.{
  Chains, read_failed, settle_due_slots, skip_no_shows, release_idle_stakes, settle_head,
  may_settle, landed, called, refresh,
}
use eth_global_lisbon_2026_h.Market.Dues.Held.{settles, settle_due_slots_waits}
use eth_global_lisbon_2026_h.Market.Dues.Flights.{in_flight_restored}
use eth_global_lisbon_2026_h.Market.Dues.Released.{release_idle_stakes_keeps}
use eth_global_lisbon_2026_h.Market.Tick.{tick}
use eth_global_lisbon_2026_h.Market.Tick.Keeping.{tick-IsOrdered}
use eth_global_lisbon_2026_h.Market.Sampler.{SamplerState}
use eth_global_lisbon_2026_h.Market.Sampler.Saved.{watch_all, climbs, watch_all-climbs}

abbrev bond : BondState
bond = record {
  nullifier = "n1";
  evm_address = "0xab";
  stake_tx_hash = "0x1";
  status = locked;
  settle_tx_id = none;
  amount_hbar = 500;
  locked_at = 0;
  last_active_at = 0;
}

abbrev staked : Market
staked = record blank { client_nullifier = ("ann", ("n1", 0)) ∷ []; bonds = ("n1", bond) ∷ [] }

-- The attempt of ann, closed with a claim of success.
abbrev finished : Market
finished = (close_row 6000 (open_row 5000 staked request).0 "so101" (some success)).0

finished-IsOrdered : IsOrdered finished
finished-IsOrdered =
    close_row-IsOrdered 6000 (open_row 5000 staked request).0 "so101" (some success)
      (open_row-IsOrdered 5000 staked request (empty-IsOrdered staked refl refl))

abbrev id : RowId
id = record { at = 5000; seq = 1 }

abbrev setup : Setup
setup = record {
  hedera_on = true;
  has_topic = true;
  tee_on = false;
  slot_chains = "0g" ∷ [];
  autosettle = true;
  bonus_hbar = 10;
}

abbrev good_answers : Answers
good_answers = record {
  grader = local;
  remote = failed;
  reason = "ok";
  proof = none;
  bonus_tx = answer "tx1";
  slash_tx = answer "tx2";
  digest = answer 7;
  tee = thrown;
  root = answer (some "root");
  registry = thrown;
  verdict = answer none;
}

abbrev turn : Turn
turn = record { answers = good_answers; now = 40000; hub = world.hub; id = id }

abbrev three : List Turn
three = turn ∷ turn ∷ turn ∷ []

-- The attempt itself, as the ledger holds it.
abbrev attempt : LedgerRow
attempt = record failed_row {
  id = id;
  operator = record { client_id = "ann"; nullifier = some "n1"; evm_address = none };
  telemetry = record {
    duration_s = 0;
    joint_travel_deg = 0;
    commanded_motion = 0;
    input_packets = 0;
    gripper_cycles = 0;
    episode_saved = none;
    samples = 0;
    episode = none;
  };
  grade = none;
  status = closed;
  opened_at = 5000;
  closed_at = some 6000;
}

attempt-stored : lookup id finished.rows ≡ some attempt
unfolding open_row close_row open_row_for nullifier_for lookup insert erase id_beq
attempt-stored = refl

-- The referee did not pass the attempt, which was claimed a success; and it did.
abbrev lie : LedgerRow
lie = record attempt { grade = failed_row.grade; status = graded }

abbrev work : LedgerRow
work = record lie {
  grade =
      some (record { score = 90; pass = true; provider = "local"; reason = "ok"; proof = none });
}

abbrev caught : Market
caught = record staked { rows = (id, lie) ∷ []; seq = 1 }

abbrev thrown_out : LedgerRow
thrown_out = record attempt { status = rejected }

abbrev decided : Market
decided = put_row finished thrown_out

decided-IsOrdered : IsOrdered decided
decided-IsOrdered =
    put_row-IsOrdered finished attempt thrown_out finished-IsOrdered attempt-stored refl refl

decided-stored : lookup id decided.rows ≡ some thrown_out
unfolding put_row open_row close_row open_row_for nullifier_for lookup insert erase id_beq
decided-stored = refl

advance_all_final_example :
    (row : LedgerRow) × (lookup id (advance_all setup three decided).rows ≡ some row)
    × IsVerdictOf thrown_out row
advance_all_final_example =
    advance_all_final setup three decided id thrown_out decided-IsOrdered decided-stored refl

payable-once : payable 10 "n1" finished.rows ≡ 10
unfolding payable open_row close_row open_row_for nullifier_for lookup insert erase id_beq
payable-once = refl

advance_all_bounded_example :
    earnings_for (advance_all setup three finished) "n1"
    ≤ earnings_for finished "n1" + payable 10 "n1" finished.rows
advance_all_bounded_example = advance_all_bounded setup three finished "n1" finished-IsOrdered

turn-IsSmooth : IsSmooth turn 6000
turn-IsSmooth = record {
  bonus_back = refl;
  slash_back = refl;
  digest_back = refl;
  grace_over = omega arith;
}

attempt-IsUnderWay : IsUnderWay attempt 6000
attempt-IsUnderWay = record { bare = refl; shut = refl; shut_at = refl }

three-enough : steps_left attempt.status ≤ turns_of id three
unfolding turns_of id_beq
three-enough = omega arith

settlement_ends_example :
    (row : LedgerRow) × (lookup id (advance_all setup three finished).rows ≡ some row)
    × (row.status ≡ anchored)
settlement_ends_example =
    settlement_ends setup three finished id attempt 6000 finished-IsOrdered attempt-stored
      attempt-IsUnderWay (turn-IsSmooth, (turn-IsSmooth, (turn-IsSmooth, tt))) three-enough

bond-of : bond_of caught (some "n1") ≡ some ("n1", bond)
unfolding bond_of get_bond locked_only lookup
bond-of = refl

abbrev bad_answers : Answers
bad_answers = record good_answers { slash_tx = thrown }

abbrev first_turn : Market × LedgerRow
first_turn = advance_graded setup bad_answers 40000 caught lie

abbrev second_turn : Market × LedgerRow
second_turn = advance_graded setup good_answers 50000 first_turn.0 first_turn.1

failed_slash_rejects_example :
    (first_turn.1.status ≡ graded)
    × (second_turn.1.status ≡ rejected)
    × (second_turn.0 ≡ first_turn.0)
    × (lookup "n1" second_turn.0.bonds ≡ some (record bond { status = slashed }))
failed_slash_rejects_example =
    failed_slash_rejects setup 40000 caught lie "n1" bond refl bond-of bad_answers good_answers
      50000 refl refl refl

abbrev chains : Chains
chains = record {
  settled = λ s. answer (some "0xs");
  withdrawn = λ s. thrown;
  skipped = λ s. answer (some "0xk");
  no_show_grace = λ c. answer (some 90);
  reading = λ r. read_failed "timeout";
}

abbrev grading : Market
grading = record caught { rows = (id, record lie { slot_id = some 4 }) ∷ [] }

grading-stored : lookup id grading.rows ≡ some (record lie { slot_id = some 4 })
unfolding lookup id_beq
grading-stored = refl

settle_due_slots_waits_example :
    any (settles 4) (settle_due_slots setup 400000 chains grading (rig ∷ []) mirror).calls ≡ false
settle_due_slots_waits_example =
    settle_due_slots_waits setup 400000 chains grading id (record lie { slot_id = some 4 }) 4
      grading-stored refl refl (rig ∷ []) mirror

-- With the attempt rejected and not yet anchored, the slot is settled.
rejected-settles :
    any
      (settles 4)
      (settle_due_slots setup 400000 chains
        (record caught { rows = (id, record lie { slot_id = some 4; status = rejected }) ∷ [] })
        (rig ∷ [])
        mirror).calls
    ≡ true
unfolding settle_due_slots settle_head may_settle landed called list_rows sort_rows insert_row
    all_heads heads_of begin_in_flight end_in_flight note_payout refresh refresh_failed any includes
    lookup insert filter flight_beq
rejected-settles = refl

in_flight_restored_example :
    ((settle_due_slots setup 400000 chains caught (rig ∷ []) mirror).mirror.in_flight ≡ [])
    × ((skip_no_shows setup 400000 chains (rig ∷ []) mirror).mirror.in_flight ≡ [])
in_flight_restored_example = in_flight_restored setup 400000 chains caught (rig ∷ []) mirror

release_idle_stakes_keeps_example :
    lookup "n1" (release_idle_stakes 400000 (λ n. answer "tx3") caught).bonds ≡ some bond
unfolding lookup id_beq
release_idle_stakes_keeps_example =
    release_idle_stakes_keeps 400000 (λ n. answer "tx3") caught "n1" bond refl
      (inr (id, lie, refl, refl, refl))

tick-IsOrdered_example :
    IsOrdered
      (tick setup
        (record {
          rows = λ i. good_answers;
          transfer = λ n. thrown;
          settling = chains;
          skipping = chains;
        })
        40000
        false
        (record world { market = finished })).0.market
tick-IsOrdered_example =
    tick-IsOrdered setup
      (record {
        rows = λ i. good_answers;
        transfer = λ n. thrown;
        settling = chains;
        skipping = chains;
      })
      40000 false (record world { market = finished }) finished-IsOrdered

abbrev sampler : SamplerState
sampler = record {
  last_joints = none;
  odo_at_open = none;
  joint_gripper = record { extreme = none; direction = still; reversals = 0 };
  saved_at_open = some 1;
}

-- The counter of the session before stood at 1; the new session counts 0 and 1.
watch_all-climbs_example :
    is_true (watch_all (1 ∷ 0 ∷ 1 ∷ []) (attempt, sampler)).0.telemetry.episode_saved
    ≡ climbs (1 ∷ 1 ∷ 0 ∷ 1 ∷ [])
watch_all-climbs_example = watch_all-climbs (1 ∷ 0 ∷ 1 ∷ []) 1 attempt sampler refl
