-- ===== src/Hub/Routes/Link.antt =====
-- POST /link, /frame and /leaders/link of apps/web/src/hub/routes.ts: telemetry up and control down.
pub mod Mailbox
pub mod Shown
use eth_global_lisbon_2026_h.Base.{
  ℕ, ◌+◌, String, Bool, true, false, Option, none, some, List, [], ◌∷◌, ltb, or_else, ◌==◌,
  string_eq, if◌then◌else◌, Json,
}
use eth_global_lisbon_2026_h.Hub.Rig.{
  Rig, Telemetry, RigInput, RigCommand, TaskInfo, Readings, CamMapping, RecordStatus, AttemptState,
  RigCommandResult, Transport, http,
}
use eth_global_lisbon_2026_h.Hub.Lease.{lease_holder}
use eth_global_lisbon_2026_h.Hub.Queue.{drain_commands}
use eth_global_lisbon_2026_h.Hub.Frames.{set_frame}
use eth_global_lisbon_2026_h.Hub.Registry.{
  Hub, Leader, LeaderCommand, upsert_rig, put_rig, put_leader, get_rig,
}
use eth_global_lisbon_2026_h.Hub.Leaders.{
  upsert_leader, leader_bound, prune_leader_binding, take_leader_command,
}
use eth_global_lisbon_2026_h.Hub.Routes.Reply.{
  Refusal, name_required, rig_and_cam_required, unknown_rig, is_blank,
}

-- The body of a link tick: the keys that older agents leave out are options.
pub record LinkBody : Type 0 where
  pub name : Option String
  pub backend : String
  pub arm_state : String
  pub source : Option String
  pub leader : Option Bool
  pub joints : Option Readings
  pub cams : Option (List String)
  pub last_error : Option String
  pub cam_mapping : Option CamMapping
  pub cam_brightness : Option Readings
  pub cam_disabled : Option (List ℕ)
  pub record_status : Option RecordStatus
  pub attempt : Option AttemptState
  pub push : Option Json
  pub last_command_result : Option RigCommandResult
  pub link_ms : Option ℕ
  pub input_transport : Option Transport
  pub tasks : Option (List TaskInfo)
  pub tasks_rev : Option String
  pub runs : Option (List Json)
  pub runs_rev : Option String

unfoldable pub telemetry_of : LinkBody → Telemetry
telemetry_of body = record {
  backend = body.backend;
  arm_state = body.arm_state;
  source = body.source;
  leader = or_else body.leader false;
  joints = or_else body.joints [];
  cams = or_else body.cams [];
  last_error = body.last_error;
  cam_mapping = body.cam_mapping;
  cam_brightness = or_else body.cam_brightness [];
  cam_disabled = or_else body.cam_disabled [];
  record_status = body.record_status;
  attempt = body.attempt;
  push = body.push;
  last_command_result = body.last_command_result;
  link_ms = or_else body.link_ms 0;
  input_transport = or_else body.input_transport http;
}

advertise_tasks : LinkBody → Rig → Rig
advertise_tasks body rig = elim body.tasks [
  | none ↦ rig
  | some tasks ↦ record rig { tasks = tasks; tasks_rev = body.tasks_rev }
]

advertise_runs : LinkBody → Rig → Rig
advertise_runs body rig = elim body.runs [
  | none ↦ rig
  | some runs ↦ record rig { runs = runs; runs_rev = body.runs_rev }
]

-- A link tick before `impair()`, from a rig that gave its name.
link_named : ℕ → Hub → String → LinkBody → Hub × Rig
unfolding upsert_rig telemetry_of advertise_tasks advertise_runs put_rig
link_named now hub name body =
    let (hub', rig) = upsert_rig now hub name (telemetry_of body) in
    let rig' = advertise_runs body (advertise_tasks body rig) in (put_rig hub' rig', rig')

unfoldable pub link_up : ℕ → Hub → LinkBody → Hub × Option Rig
unfolding link_named
link_up now hub body = elim body.name [
  | none ↦ (hub, none)
  | some name ↦
      if name == ""
      then (hub, none)
      else (let (hub', rig) = link_named now hub name body in (hub', some rig))
]

pub record LinkReply : Type 0 where
  pub input : Option RigInput
  pub commands : List RigCommand
  pub holder : Option String
  pub tasks_rev : Option String
  pub runs_rev : Option String

abbrev pub input_ttl_ms : ℕ
input_ttl_ms = 500

unfoldable pub fresh_input : ℕ → Option RigInput → Option RigInput
fresh_input now none = none
fresh_input now (some i) = if ltb now (i.at + input_ttl_ms) then some i else none

-- A link tick after `impair()`: the mailbox and the queue are emptied, whatever they held.
unfoldable pub link_down : ℕ → Rig → Rig × LinkReply
unfolding drain_commands fresh_input lease_holder
link_down now rig =
    let (drained, commands) = drain_commands now rig in
    let (rig', holder) = lease_holder now (record drained { input = none }) in
    (
      rig',
      record {
        input = fresh_input now rig.input;
        commands = commands;
        holder = holder;
        tasks_rev = rig.tasks_rev;
        runs_rev = rig.runs_rev;
      },
    )

-- POST /frame up to `impair()`: the rig that the frame is for.
unfoldable pub frame_gate : Hub → Option String → Option String → (Option Rig) × Option Refusal
unfolding get_rig
frame_gate hub name cam =
    if is_blank name
    then (none, some rig_and_cam_required)
    else if is_blank cam
    then (none, some rig_and_cam_required)
    else elim (get_rig hub (or_else name "")) [
      | none ↦ (none, some unknown_rig)
      | some rig ↦ (some rig, none)
    ]

-- POST /leaders/link before `impair()`.
unfoldable pub leader_link_up : ℕ → Hub → Option String → Option String → Hub × Option Leader
unfolding upsert_leader
leader_link_up now hub name driving =
    if is_blank name
    then (hub, none)
    else (let (hub', leader) = upsert_leader now hub (or_else name "") driving in
        (hub', some leader))

pub record LeaderReply : Type 0 where
  pub command : Option LeaderCommand
  pub bound : Bool

-- POST /leaders/link after `impair()`: `bound` is asked about the rig that the agent says it drives.
unfoldable pub leader_link_down : ℕ → Hub → Leader → Option String → Hub × LeaderReply
unfolding leader_bound prune_leader_binding take_leader_command put_leader
leader_link_down now hub leader driving =
    let (hub', bound) = leader_bound now hub leader driving in
    let (hub'', kept) = if bound then (hub', leader) else prune_leader_binding now hub' leader in
    let (taken, command) = take_leader_command now kept in
    (put_leader hub'' taken, record { command = command; bound = bound })
