-- ===== src/Hub/Routes/Tests.antt =====
-- Runs of the hub's routes on small inputs: a rig that its operator holds, and a leader arm.
use eth_global_lisbon_2026_h.Base.{
  ℕ, ◌+◌, ◌≤◌, ◌≡◌, ◌≢◌, ◌↔◌, ◌⊎◌, refl, String, string_eq, eq_iff, true, false, none, some, List,
  [], ◌∷◌, ◌++◌, length, arith, includes, lookup, pos, Fields, end, field, str, json_length,
}
use eth_global_lisbon_2026_h.Hub.Rig.{
  max_pending, Rig, Telemetry, RigCommand, TaskInfo, still, http, Readings,
}
use eth_global_lisbon_2026_h.Hub.Lease.Laws.{IsHeldBy}
use eth_global_lisbon_2026_h.Hub.Registry.{Hub, Leader, get_rig, get_leader, is_online}
use eth_global_lisbon_2026_h.Hub.Leaders.{leader_may_drive}
use eth_global_lisbon_2026_h.Hub.Ws.{Packet, message_gate, message_deliver}
use eth_global_lisbon_2026_h.Hub.Ws.Plane.{message_gate_sound, message_deliver-mailbox}
use eth_global_lisbon_2026_h.Hub.Routes.Reply.{refused, queued, not_the_controller, RigBody}
use eth_global_lisbon_2026_h.Hub.Routes.Command.{command_route, get_field}
use eth_global_lisbon_2026_h.Hub.Routes.Command.Gate.{command_route_accepts}
use eth_global_lisbon_2026_h.Hub.Routes.Command.Verdict.{
  dataset_push-excludes, exclusion, unshipped,
}
use eth_global_lisbon_2026_h.Hub.Routes.Input.{input_gate, device_of}
use eth_global_lisbon_2026_h.Hub.Routes.Input.Authority.{IsLeader, IsBound, input_gate_iff}
use eth_global_lisbon_2026_h.Hub.Routes.Link.{link_down}
use eth_global_lisbon_2026_h.Hub.Routes.Link.Mailbox.{
  MailCall, brings, messages, ticks, mail_run, carried, held, mail_run-once,
}
use eth_global_lisbon_2026_h.Hub.Routes.Drive.{drive_rig, stop_rig}
use eth_global_lisbon_2026_h.Hub.Routes.Drive.Handover.{drive_rig-bounded}
use eth_global_lisbon_2026_h.Market.Row.{Market}

abbrev telemetry : Telemetry
telemetry = record {
  backend = "sim";
  arm_state = "teleop";
  source = some "remote";
  leader = false;
  joints = [];
  cams = [];
  last_error = none;
  cam_mapping = none;
  cam_brightness = [];
  cam_disabled = [];
  record_status = none;
  attempt = none;
  push = none;
  last_command_result = none;
  link_ms = 0;
  input_transport = http;
}

abbrev task : TaskInfo
task = record {
  id = "stack";
  title = "Stack cubes";
  instructions = "";
  repo_name = "cubes";
  episode_seconds = 30;
  reset_seconds = 10;
  max_episodes = none;
  active = true;
  episodes_done = none;
}

abbrev rig : Rig
rig = record {
  name = "so101";
  telemetry = telemetry;
  last_seen = 1000;
  frames = [];
  frame_waiters = [];
  tasks = task ∷ [];
  tasks_rev = none;
  runs = [];
  runs_rev = none;
  input = none;
  leader_input_debug = none;
  input_odo = record {
    packets = 0;
    motion = 0;
    gripper_flips = 0;
    gripper_sign = still;
    last_joints = none;
  };
  pending = [];
  lease = some (record { holder = "ann"; expires_at = 20000 });
  lease_hard_expiry = none;
}

abbrev leader : Leader
leader = record {
  name = "arm";
  driving = none;
  bound_to = some "ann";
  rig = some "so101";
  pending = none;
  last_seen = 1000;
}

abbrev hub : Hub
hub = record { rigs = ("so101", rig) ∷ []; leaders = ("arm", leader) ∷ [] }

abbrev ledger : Market
ledger = record {
  rows = [];
  open_by_rig = [];
  client_nullifier = [];
  bonds = [];
  used_stakes = [];
  earnings = [];
  seq = 0;
}

abbrev joints : Readings
joints = ("shoulder", pos 4000) ∷ []

abbrev body : RigBody
body = record {
  client_id = some "ann";
  axes = none;
  joints = some joints;
  sent_at = none;
  verb = none;
  force = false;
  args = none;
  owner_key = none;
}

started :
    (command_route 1500 true ledger rig "ann" "attempt_start"
      (field "taskId" (str "stack") end)
      none).1
    ≡ queued "attempt_start"
unfolding command_route lookup includes json_length
started = refl

turned_away :
    (command_route 1500 true ledger rig "bob" "teleop_start" end none).1
    ≡ refused not_the_controller
unfolding command_route lookup
turned_away = refl

command_route_accepts_example : is_online 1500 rig ≡ true
command_route_accepts_example =
    (command_route_accepts 1500 true ledger rig "ann" "attempt_start" "attempt_start"
      (field "taskId" (str "stack") end) none started).5

abbrev push_args : Fields
push_args = field "repoName" (str "cubes") end

push_queued :
    (command_route 1500 true ledger rig "ann" "dataset_push" push_args (some "key")).1
    ≡ queued "dataset_push"
unfolding command_route lookup includes json_length
push_queued = refl

named : get_field "repoName" push_args ≡ some (str "cubes")
unfolding get_field
named = refl

cubes_named : ◌≢◌ {A = String} "cubes" ""
cubes_named = ground (arith, eq_iff "cubes" "")

dataset_push-excludes_example :
    (c : RigCommand) × (fs : Fields) × ((command_route 1500 true ledger rig "ann" "dataset_push"
        push_args
        (some "key")).0.pending
      ≡ [] ++ c ∷ [])
    × (c.args ≡ some fs)
    × (get_field "excludeEpisodes" fs ≡ exclusion (unshipped ledger rig "cubes"))
dataset_push-excludes_example =
    dataset_push-excludes 1500 ledger rig "ann" "dataset_push" "cubes" push_args (some "key")
      push_queued named cubes_named

input_gate_iff_example :
    ((input_gate 1500 (device_of hub "leader-arm") rig "leader-arm").1 ≡ none) ↔ (
      ((l : Leader) × IsLeader hub "leader-arm" l × IsBound 1500 l rig)
      ⊎ ((device_of hub "leader-arm" ≡ none) × IsHeldBy 1500 rig "leader-arm"))
input_gate_iff_example = input_gate_iff 1500 hub rig "leader-arm"

abbrev mail : List (ℕ × MailCall)
mail =
    (1000, brings none body false)
    ∷ (1050, messages [] leader joints none false)
    ∷ (1100, ticks)
    ∷ (1200, ticks)
    ∷ []

mail_run-once_example :
    length (mail_run rig mail).1 + held (mail_run rig mail).0 ≤ carried mail + held rig
mail_run-once_example = mail_run-once rig mail

driven : (drive_rig 1500 leader rig "ann").2 ≡ queued "drive"
unfolding drive_rig
driven = refl

drive_rig-bounded_example :
    (length (drive_rig 1500 leader rig "ann").1.pending ≤ max_pending + 1)
    × (length (stop_rig 1500 rig).pending ≤ max_pending)
drive_rig-bounded_example = drive_rig-bounded 1500 leader rig "ann" (omega arith)

abbrev packet : Packet
packet = record { t = some "input"; rig = some "so101"; joints = some joints; sent_at = none }

let_through : (message_gate 1500 hub "arm" packet).1 ≡ some (rig, leader, joints)
unfolding message_gate lookup
let_through = refl

message_gate_sound_example :
    (target : String) × (before : Rig) × (packet.t ≡ some "input")
    × (packet.rig ≡ some target)
    × (packet.joints ≡ some joints)
    × (get_rig hub target ≡ some before)
    × (get_leader hub "arm" ≡ some leader)
    × ((leader_may_drive 1500 leader before).1 ≡ true)
    × (rig ≡ (leader_may_drive 1500 leader before).0)
message_gate_sound_example = message_gate_sound 1500 hub "arm" packet rig leader joints let_through

message_deliver-mailbox_example :
    (link_down 1600
      (message_deliver 1500 (("so101", 7) ∷ []) leader joints none false rig).0).1.input
    ≡ some (record { axes = none; joints = some joints; at = 1500; sent_at = none })
message_deliver-mailbox_example =
    (message_deliver-mailbox 1500 1600 (("so101", 7) ∷ []) leader joints none rig (omega arith)).0
