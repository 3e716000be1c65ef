-- ===== src/Market/Grader.antt =====
-- The referee: `grade` of apps/web/src/market/grader/index.ts and `gradeLocal` of
-- apps/web/src/market/grader/local.ts, without the text of the reasons. Seconds, degrees and fractions
-- are thousandths, the commanded motion ten-thousandths.
pub mod Rules
use eth_global_lisbon_2026_h.Base.{
  ℕ, ◌+◌, String, Bool, true, false, not, ◌&&◌, ◌||◌, Option, none, some, leb, ltb, is_none,
  if◌then◌else◌, ◌==◌, nat_eq, string_eq,
}
use eth_global_lisbon_2026_h.Hub.Rig.{EpisodeMotion}
use eth_global_lisbon_2026_h.Market.Row.{LedgerRow, RowTelemetry, Claimed, success}

-- A grade without its reason and its proof.
pub record Verdict : Type 0 where
  pub score : ℕ
  pub pass : Bool
  pub provider : String

-- The weight of a check that holds.
abbrev pub weigh : Bool → ℕ → ℕ
weigh ok weight = if ok then weight else 0

unfoldable pub episode_score : EpisodeMotion → ℕ
episode_score e =
    weigh (leb 15 e.frames) 20
    + weigh (leb 25000 e.joint_path_deg) 35
    + weigh (leb e.still_fraction 900) 25
    + weigh (leb 5000 e.max_joint_range_deg) 20

-- `x === false` of a value that may be unknown.
abbrev pub is_false : Option Bool → Bool
is_false (some false) = true
is_false _ = false

abbrev pub is_true : Option Bool → Bool
is_true (some true) = true
is_true _ = false

unfoldable pub telemetry_score : RowTelemetry → ℕ
telemetry_score t =
    weigh (leb 5000 t.duration_s && leb t.duration_s 300000) 25
    + weigh (not (is_false t.episode_saved)) 35
    + weigh (leb 1 t.gripper_cycles) 20
    + weigh (leb 100000 t.commanded_motion || leb 30000 t.joint_travel_deg) 20

scored : ℕ → String → Verdict
scored score provider = record { score = score; pass = leb 60 score; provider = provider }

-- The recorded episode, where there is one, outranks all else.
unfoldable pub grade_local : LedgerRow → Verdict
unfolding episode_score telemetry_score scored
grade_local row = elim row.telemetry.episode [
  | some e ↦ scored (episode_score e) "local(episode)"
  | none ↦ scored (telemetry_score row.telemetry) "local"
]

pub data Grader : Type 0 where
  local zg zg_router : Grader

-- What the remote grader gives within the time limit: a grade, nothing, or an error.
pub data Remote : Type 0 where
  answered : Verdict → Remote
  silent : Remote
  failed : Remote

rejected_by : String → Verdict
rejected_by provider = record { score = 0; pass = false; provider = provider }

abbrev pub is_success : Option Claimed → Bool
is_success (some success) = true
is_success _ = false

-- Sources whose motion the hub cannot see.
abbrev pub hub_blind_source : Option String → Bool
hub_blind_source none = false
hub_blind_source (some s) = s == "leader" || s == "scripted"

unfoldable pub is_blind : LedgerRow → Bool
is_blind row =
    hub_blind_source row.source
    && (is_none row.telemetry.episode
        && (row.telemetry.input_packets == 0
            && (row.telemetry.joint_travel_deg == 0 && is_true row.telemetry.episode_saved)))

abbrev pub still_path_deg : ℕ
still_path_deg = 15000

unfoldable pub is_still : Option EpisodeMotion → Bool
is_still none = false
is_still (some e) = ltb 0 e.frames && ltb e.joint_path_deg still_path_deg

fell_back : String → Verdict → Verdict
fell_back provider v = record v { provider = provider }

unfoldable pub grade_remote : String → Remote → LedgerRow → Verdict
unfolding grade_local fell_back
grade_remote on_error (answered v) row = v
grade_remote on_error silent row = grade_local row
grade_remote on_error failed row = fell_back on_error (grade_local row)

-- The grader that is configured, once the prechecks have passed.
unfoldable pub judge : Grader → Remote → LedgerRow → Verdict
unfolding grade_local grade_remote
judge local remote row = grade_local row
judge zg remote row = grade_remote "local(fallback:zg-error)" remote row
judge zg_router remote row = grade_remote "local(fallback:zg-router-error)" remote row

unfoldable pub grade : Grader → Remote → LedgerRow → Verdict
unfolding rejected_by is_blind is_still judge
grade grader remote row =
    if is_success row.claimed
      && (is_false row.telemetry.episode_saved && is_none row.telemetry.episode)
    then rejected_by "precheck"
    else if not (is_success row.claimed)
    then rejected_by "precheck"
    else if is_blind row
    then record { score = 70; pass = true; provider = "precheck(blind)" }
    else if is_still row.telemetry.episode
    then rejected_by "precheck(still)"
    else judge grader remote row
