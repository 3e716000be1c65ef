-- ===== src/Market/Sampler.antt =====
-- The telemetry sampler of an open row: apps/web/src/market/sampler.ts. A timer is the entry in
-- `samplers`, and each of its ticks a call of `sample`. The odometer of a rig only grows, so the
-- differences from its reading at the start are not negative. Angles and seconds are thousandths.
pub mod Saved
pub mod Camera
pub mod Gripper
pub mod Watching
use eth_global_lisbon_2026_h.Base.{
  ℕ, zero, suc, ◌+◌, ◌-◌, ◌/◌, ◌%◌, max, ℤ, String, Bool, true, false, not, ◌&&◌, ◌||◌, Option,
  none, some, List, [], ◌∷◌, ◌++◌, ltb, leb, ltb_ℤ, dist, find, lookup, insert, erase, or_maybe,
  is_none, is_some, codes, names_part, ◌==◌, nat_eq, string_eq, list_eq, if◌then◌else◌,
}
use eth_global_lisbon_2026_h.Hub.Rig.{
  Rig, Readings, Sign, minus, still, plus, InputOdo, RecordStatus, AttemptState, RigFrame,
  CamMapping,
}
use eth_global_lisbon_2026_h.Hub.Registry.{Hub, get_rig}
use eth_global_lisbon_2026_h.Hub.Odometer.{reverses}
use eth_global_lisbon_2026_h.Market.Row.{
  LedgerRow, RowTelemetry, RowStatus, opened, closed, RowId, id_eq, is_open,
}
use eth_global_lisbon_2026_h.Market.Settle.{pick_episode, hub_episode}

pub record OdoMark : Type 0 where
  pub packets : ℕ
  pub motion : ℕ
  pub flips : ℕ

pub record JointGripper : Type 0 where
  pub extreme : Option ℤ
  pub direction : Sign
  pub reversals : ℕ

pub record SamplerState : Type 0 where
  pub last_joints : Option Readings
  pub odo_at_open : Option OdoMark
  pub joint_gripper : JointGripper
  pub saved_at_open : Option ℕ

abbrev pub Samplers : Type 0
Samplers = List (RowId × SamplerState)

abbrev pub gripper_hysteresis_deg : ℕ
gripper_hysteresis_deg = 8000

abbrev pub mark_of : InputOdo → OdoMark
mark_of odo = record { packets = odo.packets; motion = odo.motion; flips = odo.gripper_flips }

abbrev pub saved_count : Option RecordStatus → Option ℕ
saved_count none = none
saved_count (some r) = some r.saved

new_sampler : Option Rig → SamplerState
new_sampler rig = record {
  last_joints = none;
  odo_at_open = elim rig [ none ↦ none | some r ↦ some (mark_of r.input_odo) ];
  joint_gripper = record { extreme = none; direction = still; reversals = 0 };
  saved_at_open = elim rig [ none ↦ none | some r ↦ saved_count r.record_status ];
}

unfoldable pub stop_sampler : Samplers → RowId → Samplers
stop_sampler samplers id = erase id samplers

unfoldable pub start_sampler : Hub → Samplers → LedgerRow → Samplers
unfolding new_sampler stop_sampler get_rig
start_sampler hub samplers row =
    insert row.id (new_sampler (get_rig hub row.rig)) (stop_sampler samplers row.id)

-- The recorder's counter at one tick: a drop is a new session, a rise is an episode that was saved.
unfoldable pub rebased : Option ℕ → ℕ → ℕ
rebased none saved = saved
rebased (some before) saved = if ltb saved before then saved else before

unfoldable pub save_flag : ℕ → ℕ → Option Bool → Option Bool
save_flag base saved flag =
    if ltb base saved
    then some true
    else elim flag [ some true ↦ some true | some false ↦ some false | none ↦ some false ]

unfoldable pub watch_saved : Option ℕ → LedgerRow × SamplerState → LedgerRow × SamplerState
unfolding rebased save_flag
watch_saved none (row, st) = (row, st)
watch_saved (some saved) (row, st) =
    let base = rebased st.saved_at_open saved in
    (
      record row {
        telemetry = record row.telemetry {
          episode_saved = save_flag base saved row.telemetry.episode_saved;
        };
      },
      record st { saved_at_open = some base },
    )

-- The gripper joint has left its extreme by the hysteresis.
turned : JointGripper → ℤ → Sign → JointGripper
unfolding reverses
turned jg at direction = record {
  extreme = some at;
  direction = direction;
  reversals = if reverses jg.direction direction then jg.reversals + 1 else jg.reversals;
}

-- Whether a reading lies further on the way that the joint is going, which without a way is down.
further : Sign → ℤ → ℤ → Bool
further plus extreme at = ltb_ℤ extreme at
further _ extreme at = ltb_ℤ at extreme

unfoldable pub track_from : ℤ → JointGripper → ℤ → JointGripper
unfolding turned further
track_from extreme jg at =
    if leb gripper_hysteresis_deg (dist at extreme)
    then turned jg at (if ltb_ℤ extreme at then plus else minus)
    else if further jg.direction extreme at
    then record jg { extreme = some at }
    else jg

unfoldable pub track_joint_gripper : JointGripper → ℤ → JointGripper
unfolding track_from
track_joint_gripper jg at = elim jg.extreme [
  | none ↦ record jg { extreme = some at }
  | some extreme ↦ track_from extreme jg at
]

-- The joints that the driver reports, against those of the tick before.
unfoldable pub travel_of : Readings → Readings → ℕ
travel_of last [] = 0
travel_of last ((name, at) ∷ joints) =
    elim (lookup name last) [ none ↦ 0 | some before ↦ dist at before ] + travel_of last joints

unfoldable pub track_all : Readings → JointGripper → JointGripper
unfolding track_joint_gripper
track_all [] jg = jg
track_all ((name, at) ∷ joints) jg =
    track_all joints (if names_part "gripper" name then track_joint_gripper jg at else jg)

unfoldable pub note_joints : Readings → RowTelemetry × SamplerState → RowTelemetry × SamplerState
unfolding travel_of track_all
note_joints joints (t, st) = elim st.last_joints [
  | none ↦ (t, record st { last_joints = some joints })
  | some last ↦ (
    record t { joint_travel_deg = t.joint_travel_deg + travel_of last joints },
    record st { last_joints = some joints; joint_gripper = track_all joints st.joint_gripper },
  )
]

-- Two turns of a gripper are one cycle, and the last turn may be the first of one.
unfoldable pub cycles : ℕ → ℕ
cycles n = if ltb 0 n then (n + 1) / 2 else 0

-- The digits of a number, with fuel for as many as it can have.
digits : ℕ → ℕ → List ℕ
digits zero n = []
digits (suc fuel) n =
    let rest = digits fuel (n / 10) in
    if ltb n 10 then (n + 48) ∷ [] else rest ++ ((n % 10) + 48) ∷ []

-- `cam${n}`
unfoldable pub cam_codes : ℕ → List ℕ
unfolding digits
cam_codes n = codes "cam" ++ digits (n + 1) n

unfoldable pub fresher : String × RigFrame → Option (String × ℕ) → Option (String × ℕ)
fresher (name, frame) none = some (name, frame.at)
fresher (name, frame) (some (best, at)) =
    if ltb at frame.at then some (name, frame.at) else some (best, at)

unfoldable pub freshest : List (String × RigFrame) → Option (String × ℕ) → Option (String × ℕ)
unfolding fresher
freshest [] best = best
freshest (f ∷ fs) best = freshest fs (fresher f best)

abbrev pub is_mapped : Option CamMapping → String → Bool
is_mapped none name = false
is_mapped (some m) name = elim m.workspace [ none ↦ false | some n ↦ codes name == cam_codes n ]

abbrev pub name_in {ℓ} : {A : Type ℓ} → Option (String × A) → Option String
name_in none = none
name_in (some (name, _)) = some name

-- The camera that the rig calls its workspace, else one of that name, else that of the newest frame.
unfoldable pub pick_cam : List (String × RigFrame) → Option CamMapping → Option String
unfolding freshest
pick_cam frames mapping = elim (name_in (find (λ e. is_mapped mapping e.0) frames)) [
  | some name ↦ some name
  | none ↦ elim (name_in (find (λ e. names_part "workspace" e.0) frames)) [
    | some name ↦ some name
    | none ↦ name_in (freshest frames none)
  ]
]

unfoldable pub note_evidence : Rig → LedgerRow → LedgerRow
unfolding pick_cam
note_evidence rig row = elim (pick_cam rig.frames rig.cam_mapping) [
  | none ↦ row
  | some cam ↦ elim (lookup cam rig.frames) [
    | none ↦ row
    | some frame ↦ record row {
      evidence = record { frame_jpeg = some frame.bytes; cam = some cam };
    }
  ]
]

-- `a ?? null`, and nothing for an empty text
abbrev pub present : Option String → Option String
present none = none
present (some s) = if s == "" then none else some s

-- A text of the attempt that the rig runs.
abbrev pub of_attempt : (AttemptState → Option String) → Option AttemptState → Option String
of_attempt text none = none
of_attempt text (some a) = present (text a)

-- The source that the recorder names outranks the rig's.
unfoldable pub note_attempt : Rig → LedgerRow → LedgerRow
note_attempt rig row = record row {
  rig_attempt_id = or_maybe row.rig_attempt_id (of_attempt (λ a. a.attempt_id) rig.attempt);
  task_title = or_maybe row.task_title (of_attempt (λ a. a.task_title) rig.attempt);
  source =
      or_maybe (elim rig.record_status [ none ↦ none | some r ↦ r.source ])
        (or_maybe rig.source row.source);
}

-- The counts of an open row: all are differences from the odometer at the start.
unfoldable pub note_motion : ℕ → Rig → LedgerRow × SamplerState → LedgerRow × SamplerState
unfolding note_joints cycles
note_motion now rig (row, st) =
    let mark : OdoMark = elim st.odo_at_open [ none ↦ mark_of rig.input_odo | some mark ↦ mark ] in
    let counted = record row.telemetry {
      samples = row.telemetry.samples + 1;
      duration_s = now - row.opened_at;
      input_packets = rig.input_odo.packets - mark.packets;
      commanded_motion = rig.input_odo.motion - mark.motion;
    } in
    let (t, st') = note_joints rig.joints (counted, record st { odo_at_open = some mark }) in
    let flips = rig.input_odo.gripper_flips - mark.flips in
    (
      record row {
        telemetry = record t {
          gripper_cycles = max (cycles flips) (cycles st'.joint_gripper.reversals);
        };
      },
      st',
    )

sample_open : ℕ → Rig → LedgerRow × SamplerState → LedgerRow × SamplerState
unfolding note_attempt note_motion note_evidence
sample_open now rig (row, st) =
    let (row', st') = note_motion now rig (note_attempt rig row, st) in
    (note_evidence rig row', st')

-- A closed row is only watched for the episode and the save.
unfoldable pub sample_rig : ℕ → Rig → LedgerRow → SamplerState → LedgerRow × SamplerState
unfolding watch_saved sample_open
sample_rig now rig row st =
    let seen =
      watch_saved (saved_count rig.record_status) (pick_episode (hub_episode (some rig)) row, st) in
    if is_open row.status then sample_open now rig seen else seen

abbrev pub is_watched : RowStatus → Bool
is_watched opened = true
is_watched closed = true
is_watched _ = false

-- Nothing is the end of the sampler.
unfoldable pub sample : ℕ → Hub → LedgerRow → SamplerState → Option (LedgerRow × SamplerState)
unfolding sample_rig get_rig
sample now hub row st = if not (is_watched row.status) then none else elim (get_rig hub row.rig) [
  | none ↦ some (row, st)
  | some rig ↦ some (sample_rig now rig row st)
]
