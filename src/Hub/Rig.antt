-- ===== src/Hub/Rig.antt =====
-- The record of a rig in apps/web/src/hub/store.ts, with the parts of apps/web/src/api/contract.ts
-- that it holds. Times are whole milliseconds; angles, axis values and fractions are whole
-- thousandths. JSON that the hub relays and never reads is `Json`.
use eth_global_lisbon_2026_h.Base.{ℕ, ℤ, String, Bool, List, Option, Json, Fields}

pub record TaskInfo : Type 0 where
  pub id : String
  pub title : String
  pub instructions : String
  pub repo_name : String
  pub episode_seconds : ℕ
  pub reset_seconds : ℕ
  pub max_episodes : Option ℕ
  pub active : Bool
  pub episodes_done : Option ℕ

pub record RecordStatus : Type 0 where
  pub active : Bool
  pub phase : String
  pub episode : ℕ
  pub saved : ℕ
  pub total : ℕ
  pub repo_id : Option String
  pub source : Option String

pub record EpisodeMotion : Type 0 where
  pub episode_index : ℕ
  pub frames : ℕ
  pub duration_s : ℕ
  pub joint_path_deg : ℕ
  pub max_joint_range_deg : ℕ
  pub gripper_cycles : ℕ
  pub still_fraction : ℕ

pub record AttemptState : Type 0 where
  pub active : Bool
  pub attempt_id : Option String
  pub task_id : Option String
  pub task_title : Option String
  pub operator : Option String
  pub episode_seconds : Option ℕ
  pub started_at : Option String
  pub last_episode : Option EpisodeMotion

pub record RigFrame : Type 0 where
  pub bytes : List ℕ
  pub at : ℕ

pub record RigCommand : Type 0 where
  pub verb : String
  pub args : Option Fields
  pub owner_key : Option String
  pub holder : Option String
  pub queued_at : ℕ

pub record RigCommandResult : Type 0 where
  pub verb : String
  pub ok : Bool
  pub error : Option String
  pub at : ℕ

pub data Transport : Type 0 where
  http websocket : Transport

-- A JS object of numbers: joint targets or axis values.
abbrev pub Readings : Type 0
Readings = List (String × ℤ)

pub record LeaderInputDebug : Type 0 where
  pub leader : String
  pub transport : Transport
  pub joints : Readings
  pub at : ℕ
  pub packets : ℕ
  pub dropped : Bool

pub record CamMapping : Type 0 where
  pub workspace : Option ℕ
  pub wrist : Option ℕ

pub record RigInput : Type 0 where
  pub axes : Option Readings
  pub joints : Option Readings
  pub at : ℕ
  pub sent_at : Option ℕ

-- -1, 0 and 1
pub data Sign : Type 0 where
  minus still plus : Sign

pub record InputOdo : Type 0 where
  pub packets : ℕ
  pub motion : ℕ
  pub gripper_flips : ℕ
  pub gripper_sign : Sign
  pub last_joints : Option Readings

pub record Lease : Type 0 where
  pub holder : String
  pub expires_at : ℕ

-- The part of a rig that each telemetry tick replaces.
pub record Telemetry : Type 0 where
  pub backend : String
  pub arm_state : String
  pub source : Option String
  pub leader : Bool
  pub joints : Readings
  pub cams : List String
  pub last_error : Option String
  pub cam_mapping : Option CamMapping
  pub cam_brightness : Readings
  pub cam_disabled : List ℕ
  pub record_status : Option RecordStatus
  pub attempt : Option AttemptState
  pub push : Option Json
  pub last_command_result : Option RigCommandResult
  pub link_ms : ℕ
  pub input_transport : Transport

-- `frame_waiters` holds, for each camera, a number for each caller blocked in `waitForFrame`.
pub record Rig : Type 0 where
  pub name : String
  pub telemetry : Telemetry
  pub open telemetry use *
  pub last_seen : ℕ
  pub frames : List (String × RigFrame)
  pub frame_waiters : List (String × List ℕ)
  pub tasks : List TaskInfo
  pub tasks_rev : Option String
  pub runs : List Json
  pub runs_rev : Option String
  pub input : Option RigInput
  pub leader_input_debug : Option LeaderInputDebug
  pub input_odo : InputOdo
  pub pending : List RigCommand
  pub lease : Option Lease
  pub lease_hard_expiry : Option ℕ

abbrev pub rig_ttl_ms : ℕ
rig_ttl_ms = 5000

abbrev pub lease_ms : ℕ
lease_ms = 20000

abbrev pub command_ttl_ms : ℕ
command_ttl_ms = 15000

abbrev pub frame_orphan_ms : ℕ
frame_orphan_ms = 3000

abbrev pub max_pending : ℕ
max_pending = 32
