-- ===== src/Hub/Registry.antt =====
-- The hub's registry: the map of rigs and the map of leaders of apps/web/src/hub/store.ts, with
-- `upsertRig`, `getRig`, `isOnline` and `listRigs`. A rig is one object that the map and every
-- handler share, and it is never removed: `put_rig` is the write through that reference.
pub mod Laws
use eth_global_lisbon_2026_h.Base.{
  ℕ, ◌+◌, String, Bool, Option, none, some, List, [], map, ltb, lookup, insert, string_eq,
  if◌then◌else◌,
}
use eth_global_lisbon_2026_h.Hub.Rig.{Rig, Telemetry, InputOdo, still, rig_ttl_ms}
use eth_global_lisbon_2026_h.Hub.Frames.{sweep_frames}

pub data LeaderAction : Type 0 where
  drive stop : LeaderAction

pub record LeaderCommand : Type 0 where
  pub action : LeaderAction
  pub rig : Option String
  pub queued_at : ℕ

pub record Leader : Type 0 where
  pub name : String
  pub driving : Option String
  pub bound_to : Option String
  pub rig : Option String
  pub pending : Option LeaderCommand
  pub last_seen : ℕ

pub record Hub : Type 0 where
  pub rigs : List (String × Rig)
  pub leaders : List (String × Leader)

unfoldable pub get_rig : Hub → String → Option Rig
get_rig hub name = lookup name hub.rigs

unfoldable pub put_rig : Hub → Rig → Hub
put_rig hub rig = record hub { rigs = insert rig.name rig hub.rigs }

unfoldable pub get_leader : Hub → String → Option Leader
get_leader hub name = lookup name hub.leaders

unfoldable pub put_leader : Hub → Leader → Hub
put_leader hub leader = record hub { leaders = insert leader.name leader hub.leaders }

unfoldable pub list_rigs : Hub → List Rig
list_rigs hub = map (λ e. e.1) hub.rigs

unfoldable pub is_online : ℕ → Rig → Bool
is_online now rig = ltb now (rig.last_seen + rig_ttl_ms)

new_odometer : InputOdo
new_odometer = record {
  packets = 0;
  motion = 0;
  gripper_flips = 0;
  gripper_sign = still;
  last_joints = none;
}

new_rig : ℕ → String → Telemetry → Rig
unfolding new_odometer
new_rig now name patch = record {
  name = name;
  telemetry = patch;
  last_seen = now;
  frames = [];
  frame_waiters = [];
  tasks = [];
  tasks_rev = none;
  runs = [];
  runs_rev = none;
  input = none;
  leader_input_debug = none;
  input_odo = new_odometer;
  pending = [];
  lease = none;
  lease_hard_expiry = none;
}

refreshed : ℕ → Telemetry → Rig → Rig
unfolding sweep_frames
refreshed now patch rig = record rig {
  telemetry = patch;
  last_seen = now;
  frames = sweep_frames now patch.cams rig.frames;
}

registered : ℕ → String → Telemetry → Option Rig → Rig
unfolding new_rig refreshed
registered now name patch none = new_rig now name patch
registered now name patch (some rig) = refreshed now patch rig

-- The rig as it stands after the call; it is then written to the map.
unfoldable pub upsert_rig : ℕ → Hub → String → Telemetry → Hub × Rig
unfolding registered get_rig put_rig
upsert_rig now hub name patch =
    let rig = registered now name patch (get_rig hub name) in (put_rig hub rig, rig)
