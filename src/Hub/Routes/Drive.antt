-- ===== src/Hub/Routes/Drive.antt =====
-- POST /leaders/:name/command of apps/web/src/hub/routes.ts: a browser that holds a rig lends it a
-- leader arm, and anyone takes the arm away again.
pub mod Handover
use eth_global_lisbon_2026_h.Base.{
  ℕ, String, Bool, true, false, not, Option, none, some, List, [], ◌∷◌, or_else, is_some, ◌==◌,
  string_eq, option_eq, if◌then◌else◌,
}
use eth_global_lisbon_2026_h.Hub.Rig.{Rig, RigCommand}
use eth_global_lisbon_2026_h.Hub.Lease.{lease_holder}
use eth_global_lisbon_2026_h.Hub.Queue.{push_commands, has_room}
use eth_global_lisbon_2026_h.Hub.Registry.{
  Hub, Leader, LeaderCommand, drive, stop, get_rig, put_rig, get_leader, put_leader, is_online,
}
use eth_global_lisbon_2026_h.Hub.Leaders.{leader_online, clear_leader_input_debug}
use eth_global_lisbon_2026_h.Hub.Routes.Reply.{
  Refusal, unknown_rig, unknown_leader, rig_offline, leader_offline, client_required,
  take_control_first, is_driving, queue_full, bad_action, Outcome, refused, queued, is_blank,
}

unfoldable pub hub_command : ℕ → String → Option String → RigCommand
hub_command now verb holder = record {
  verb = verb;
  args = none;
  owner_key = none;
  holder = holder;
  queued_at = now;
}

-- The rig that the agent says it streams to, where that is another one.
unfoldable pub elsewhere : Leader → Rig → Option String
elsewhere leader rig = elim leader.driving [
  | none ↦ none
  | some other ↦ if other == rig.name then none else some other
]

-- The checks that the rig and the leader must pass, once the lease was read.
drive_refusal : Option String → Leader → Rig → String → Option Refusal
unfolding elsewhere has_room
drive_refusal holder leader rig client =
    if not (holder == some client) then some take_control_first else elim (elsewhere leader rig) [
      | some other ↦ some (is_driving other)
      | none ↦ if not (has_room rig) then some queue_full else none
    ]

bind_leader : ℕ → Leader → Rig → String → Leader
bind_leader now leader rig client = record leader {
  bound_to = some client;
  rig = some rig.name;
  pending = some (record { action = drive; rig = some rig.name; queued_at = now });
}

start_remote : ℕ → Rig → String → Rig
unfolding push_commands clear_leader_input_debug hub_command
start_remote now rig client = push_commands (clear_leader_input_debug rig) (
    hub_command now "teleop_stop" (some client)
    ∷ hub_command now "teleop_start_remote" (some client)
    ∷ [])

-- The drive of a rig that is online, from a request with a client id.
unfoldable pub drive_rig : ℕ → Leader → Rig → String → Leader × Rig × Outcome
unfolding lease_holder drive_refusal bind_leader start_remote
drive_rig now leader rig client =
    let (rig', holder) = lease_holder now rig in
    elim (drive_refusal holder leader rig' client) [
      | some why ↦ (leader, rig', refused why)
      | none ↦ (bind_leader now leader rig' client, start_remote now rig' client, queued "drive")
    ]

drive_known : ℕ → Hub → Leader → Rig → Option String → Hub × Outcome
unfolding is_online drive_rig put_rig put_leader
drive_known now hub leader rig client =
    if not (is_online now rig)
    then (hub, refused rig_offline)
    else if is_blank client
    then (hub, refused client_required)
    else (let (leader', rig', out) = drive_rig now leader rig (or_else client "") in
        (put_leader (put_rig hub rig') leader', out))

-- A missing or empty name finds no rig.
named_rig : Hub → Option String → Option Rig
unfolding get_rig
named_rig hub none = none
named_rig hub (some name) = if name == "" then none else get_rig hub name

unfoldable pub drive_route : ℕ → Hub → Leader → Option String → Option String → Hub × Outcome
unfolding drive_known named_rig
drive_route now hub leader rig client = elim (named_rig hub rig) [
  | none ↦ (hub, refused unknown_rig)
  | some found ↦ drive_known now hub leader found client
]

-- The rig's half of a stop. The queue is asked first: a full one reads no lease.
unfoldable pub stop_rig : ℕ → Rig → Rig
unfolding clear_leader_input_debug has_room lease_holder push_commands hub_command
stop_rig now rig =
    let cleared = clear_leader_input_debug rig in
    if has_room cleared
    then (let (rig', holder) = lease_holder now cleared in
        push_commands rig' (hub_command now "teleop_stop" holder ∷ []))
    else cleared

stop_found : ℕ → Hub → Option Rig → Hub
unfolding stop_rig put_rig
stop_found now hub none = hub
stop_found now hub (some rig) = put_rig hub (stop_rig now rig)

unfoldable pub stop_route : ℕ → Hub → Leader → Hub × Outcome
unfolding stop_found named_rig put_leader
stop_route now hub leader =
    let hub' = stop_found now hub (named_rig hub leader.rig) in
    let leader' = record leader {
      bound_to = none;
      rig = none;
      pending = some (record { action = stop; rig = none; queued_at = now });
    } in
    (put_leader hub' leader', queued "stop")

leader_action : ℕ → Hub → Leader → String → Option String → Option String → Hub × Outcome
unfolding drive_route stop_route
leader_action now hub leader action rig client =
    if action == "drive"
    then drive_route now hub leader rig client
    else if action == "stop"
    then stop_route now hub leader
    else (hub, refused bad_action)

-- The whole handler: `action` is empty where the request has none.
unfoldable pub leader_command :
    ℕ → Hub → String → String → Option String → Option String → Hub × Outcome
unfolding get_leader leader_online leader_action
leader_command now hub name action rig client = elim (get_leader hub name) [
  | none ↦ (hub, refused unknown_leader)
  | some leader ↦
      if not (leader_online now leader)
      then (hub, refused leader_offline)
      else leader_action now hub leader action rig client
]
