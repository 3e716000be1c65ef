-- ===== src/Market/Tests.antt =====
-- Runs of the market's code on small inputs: an attempt on a rig, its verdict, and a slot.
use eth_global_lisbon_2026_h.Base.{
  ◌≢◌, ◌⊎◌, ◌≤◌, ◌<◌, ◌≡◌, ◌↔◌, refl, String, string_eq, true, false, list_eq, nat_eq, none, some,
  [], ◌∷◌, arith, includes, to_lower, lookup, insert, filter,
}
use eth_global_lisbon_2026_h.Hub.Rig.{Rig, Telemetry, EpisodeMotion, still, http}
use eth_global_lisbon_2026_h.Hub.Lease.{lease_holder, claims, lease_run}
use eth_global_lisbon_2026_h.Hub.Registry.{get_rig}
use eth_global_lisbon_2026_h.Market.Row.{
  closed, Market, LedgerRow, RowId, id_eq, id_beq, success, graded,
}
use eth_global_lisbon_2026_h.Market.Ledger.{OpenRequest, open_row, open_row_for, lower_case}
use eth_global_lisbon_2026_h.Market.Ledger.Order.{IsOrdered, empty-IsOrdered, open_row-IsOrdered}
use eth_global_lisbon_2026_h.Market.Exclusion.{failed_episode_indices}
use eth_global_lisbon_2026_h.Market.Exclusion.Verdicts.{
  Some, IsRejected, failed_episode_indices_iff,
}
use eth_global_lisbon_2026_h.Market.Slots.{SlotView, running, Mirror, live_slot}
use eth_global_lisbon_2026_h.Market.Gate.{
  Config, Session, SlotToken, World, intercept_claim, intercept_command,
}
use eth_global_lisbon_2026_h.Market.Gate.Entry.{intercept_claim_sound, intercept_command-IsOrdered}
use eth_global_lisbon_2026_h.Market.Grader.{grade, zg, failed, still_path_deg, is_still, is_blind}
use eth_global_lisbon_2026_h.Market.Grader.Rules.{grade_passes}
use eth_global_lisbon_2026_h.Market.Abandon.{abandon_ms, attempt_live, holder_live}
use eth_global_lisbon_2026_h.Base.{◌+◌, ◌≤◌}
use eth_global_lisbon_2026_h.Market.Row.{is_open}
use eth_global_lisbon_2026_h.Market.Enforce.{cut_off}
use eth_global_lisbon_2026_h.Market.Enforce.Lockout.{cut_off-locks}

abbrev pub telemetry : Telemetry
telemetry = record {
  backend = "sim";
  arm_state = "teleop";
  source = some "remote";
  leader = false;
  joints = [];
  cams = [];
  last_error = none;
  cam_mapping = none;
  cam_brightness = [];
  cam_disabled = [];
  record_status = none;
  attempt = none;
  push = none;
  last_command_result = none;
  link_ms = 0;
  input_transport = http;
}

abbrev pub rig : Rig
rig = record {
  name = "so101";
  telemetry = telemetry;
  last_seen = 1000;
  frames = [];
  frame_waiters = [];
  tasks = [];
  tasks_rev = none;
  runs = [];
  runs_rev = none;
  input = none;
  leader_input_debug = none;
  input_odo = record {
    packets = 0;
    motion = 0;
    gripper_flips = 0;
    gripper_sign = still;
    last_joints = none;
  };
  pending = [];
  lease = some (record { holder = "ann"; expires_at = 20000 });
  lease_hard_expiry = none;
}

abbrev pub episode : EpisodeMotion
episode = record {
  episode_index = 3;
  frames = 900;
  duration_s = 30000;
  joint_path_deg = 400000;
  max_joint_range_deg = 90000;
  gripper_cycles = 2;
  still_fraction = 100;
}

abbrev pub row_id : RowId
row_id = record { at = 5000; seq = 1 }

-- An attempt that was recorded as episode 3 and that the referee did not pass.
abbrev pub failed_row : LedgerRow
failed_row = record {
  id = row_id;
  rig = "so101";
  task_id = some "stack";
  task_title = none;
  rig_attempt_id = none;
  source = none;
  slot_id = none;
  slot_chain = none;
  operator = record { client_id = "ann"; nullifier = none; evm_address = none };
  claimed = some success;
  telemetry = record {
    duration_s = 30000;
    joint_travel_deg = 0;
    commanded_motion = 0;
    input_packets = 0;
    gripper_cycles = 0;
    episode_saved = some true;
    samples = 0;
    episode = some episode;
  };
  evidence = record { frame_jpeg = none; cam = none };
  grade =
      some (record {
        score = 20;
        pass = false;
        provider = "local";
        reason = "no motion";
        proof = none;
      });
  payment = none;
  provenance = none;
  status = graded;
  opened_at = 5000;
  closed_at = some 6000;
}

abbrev pub blank : Market
blank = record {
  rows = [];
  open_by_rig = [];
  client_nullifier = [];
  bonds = [];
  used_stakes = [];
  earnings = [];
  seq = 0;
}

abbrev judged : Market
judged = record blank { rows = (row_id, failed_row) ∷ []; seq = 1 }

abbrev pub request : OpenRequest
request = record {
  rig = "so101";
  task_id = some "stack";
  client_id = "ann";
  evm_address = none;
  slot_id = none;
  slot_chain = none;
}

-- The ledger with an attempt open on the rig, and the row of it.
started : Market
unfolding open_row
started = (open_row 5000 blank request).0

open_attempt : LedgerRow
unfolding open_row
open_attempt = (open_row 5000 blank request).1

pub blank-IsOrdered : IsOrdered blank
blank-IsOrdered = empty-IsOrdered blank refl refl

started-IsOrdered : IsOrdered started
unfolding started
started-IsOrdered = open_row-IsOrdered 5000 blank request blank-IsOrdered

started-open : open_row_for started "so101" ≡ some open_attempt
unfolding started open_attempt open_row_for lookup insert id_beq
started-open = refl

abbrev pub slot : SlotView
slot = record {
  chain_key = "0g";
  slot_id = 4;
  rig_id = "so101";
  operator = "0xAB";
  started_at = 10;
  end_at = 310;
  status = running;
}

abbrev pub mirror : Mirror
mirror = record {
  by_rig =
      (
        "so101",
        record {
          rig = "so101";
          chains = record { chain_key = "0g"; head = some slot; queue = []; head_since = 0 } ∷ [];
          polled_at = 9000;
          error = none;
        },
      )
      ∷ [];
  client_slot = [];
  enforced = [];
  in_flight = [];
  payouts = [];
}

slot-live : live_slot 20000 mirror "so101" ≡ some slot
unfolding live_slot lookup filter
slot-live = refl

abbrev pub world : World
world = record {
  hub = record { rigs = ("so101", rig) ∷ []; leaders = [] };
  market = blank;
  mirror = mirror;
}

abbrev config : Config
config = record { market_on = true; slots_on = true; slot_required = true }

abbrev session : Session
session = record { nullifier = "n1"; address = some "0xab" }

abbrev token : SlotToken
token = record { slot_id = 4; rig = "so101"; operator = "0xAB"; expires_at = 310000 }

failed_episode_indices_iff_example :
    (includes 3 (failed_episode_indices judged "so101" ("stack" ∷ [])) ≡ true)
    ↔ Some (IsRejected "so101" ("stack" ∷ []) 3) ((row_id, failed_row) ∷ [])
failed_episode_indices_iff_example = failed_episode_indices_iff judged "so101" ("stack" ∷ []) 3

let_in :
    (intercept_claim 20000 config world "so101" (some session) (some token) (some "ann")).1 ≡ none
unfolding intercept_claim lookup filter to_lower
let_in = refl

intercept_claim_sound_example :
    (s : Session) × (t : SlotToken) × (some session ≡ some s)
    × (some token ≡ some t)
    × (t.slot_id ≡ 4)
    × ((address : String) → s.address ≡ some address → lower_case address ≡ lower_case "0xAB")
intercept_claim_sound_example =
    intercept_claim_sound 20000 config world "so101" (some session) (some token) (some "ann") slot
      refl slot-live let_in

intercept_command-IsOrdered_example :
    IsOrdered
      (intercept_command 20000 config world "so101"
        (some session)
        (some token)
        (some "ann")
        "attempt_start"
        none).0.market
intercept_command-IsOrdered_example =
    intercept_command-IsOrdered 20000 config world "so101" (some session) (some token) (some "ann")
      "attempt_start" none blank-IsOrdered

cut_off-locks_example :
    (lease_holder 330000 (lease_run (cut_off 310000 true rig) ((320000, claims "ann" true) ∷ []))).1
    ≡ none
cut_off-locks_example =
    cut_off-locks 310000 330000 true rig ((320000, claims "ann" true) ∷ []) (omega arith, tt)

abbrev worked_row : LedgerRow
worked_row = record failed_row { grade = none; status = closed }

passed : (grade zg failed worked_row).pass ≡ true
unfolding grade is_still is_blind
passed = refl

grade_passes_example :
    (worked_row.claimed ≡ some success)
    × ((worked_row.telemetry.episode_saved ≢ some false)
        ⊎ ((e : EpisodeMotion) × (some episode ≡ some e)))
    × ((e : EpisodeMotion)
        → some episode ≡ some e
        → 0 < e.frames
        → still_path_deg ≤ e.joint_path_deg)
grade_passes_example = grade_passes zg failed worked_row passed

abbrev left_alone : World
left_alone = record world { market = started }

started-stored : lookup row_id started.rows ≡ some open_attempt
unfolding started open_attempt open_row_for lookup insert id_beq
started-stored = refl

attempt-open : is_open open_attempt.status ≡ true
unfolding open_attempt open_row_for lookup
attempt-open = refl

attempt-idle : attempt_live (get_rig left_alone.hub open_attempt.rig) ≡ false
unfolding open_attempt open_row_for get_rig lookup
attempt-idle = refl

operator-gone :
    (holder_live 50000 left_alone.hub
      (get_rig left_alone.hub open_attempt.rig)
      open_attempt.operator.client_id).1
    ≡ false
unfolding open_attempt open_row_for get_rig lookup holder_live
operator-gone = refl

attempt-old : open_attempt.opened_at + abandon_ms ≤ 50000
unfolding open_attempt open_row_for lookup
attempt-old = omega arith
