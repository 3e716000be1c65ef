-- ===== src/Hub/Tests.antt =====
-- Runs of the hub's code on small inputs: a rig, an operator's browser and a leader arm.
use eth_global_lisbon_2026_h.Base.{
  ℕ, ◌+◌, ◌<◌, ◌≡◌, ◌≢◌, ◌↔◌, ◌⊎◌, inl, refl, String, true, false, none, some, List, [], ◌∷◌, ◌++◌,
  arith, lookup, dist, pos, string_eq, nat_eq, eq_iff,
}
use mathlib.Core.List.{Sublist}
use eth_global_lisbon_2026_h.Hub.Rig.{
  Rig, Telemetry, RigCommand, Lease, InputOdo, still, http, lease_ms, Readings,
}
use eth_global_lisbon_2026_h.Hub.Lease.{claim_lease, capped, claims, lease_run}
use eth_global_lisbon_2026_h.Hub.Lease.Laws.{claim_lease_iff, IsOpenTo}
use eth_global_lisbon_2026_h.Hub.Lease.Ceiling.{IsEnded, lease_run-IsEnded}
use eth_global_lisbon_2026_h.Hub.Queue.{QueueCall, offers, drains, queue_run}
use eth_global_lisbon_2026_h.Hub.Queue.Laws.{commands, offered, queue_run-Sublist}
use eth_global_lisbon_2026_h.Hub.Odometer.{
  OperatorInput, note_odometer, note_all, leader_band_deg, references,
}
use eth_global_lisbon_2026_h.Hub.Odometer.Noise.{IsStill}
use eth_global_lisbon_2026_h.Hub.Odometer.Displacement.{displacement_counted}
use eth_global_lisbon_2026_h.Hub.Registry.{Hub, Leader}

abbrev telemetry : Telemetry
telemetry = record {
  backend = "sim";
  arm_state = "idle";
  source = none;
  leader = false;
  joints = [];
  cams = "wrist" ∷ [];
  last_error = none;
  cam_mapping = none;
  cam_brightness = [];
  cam_disabled = [];
  record_status = none;
  attempt = none;
  push = none;
  last_command_result = none;
  link_ms = 0;
  input_transport = http;
}

abbrev odo : InputOdo
odo = record {
  packets = 0;
  motion = 0;
  gripper_flips = 0;
  gripper_sign = still;
  last_joints = some (("shoulder", pos 10000) ∷ []);
}

abbrev rig : Rig
rig = record {
  name = "so101";
  telemetry = telemetry;
  last_seen = 1000;
  frames = ("wrist", record { bytes = 255 ∷ []; at = 900 }) ∷ [];
  frame_waiters = [];
  tasks = [];
  tasks_rev = none;
  runs = [];
  runs_rev = none;
  input = none;
  leader_input_debug = none;
  input_odo = odo;
  pending = [];
  lease = none;
  lease_hard_expiry = none;
}

abbrev anns_lease : Lease
anns_lease = record { holder = "ann"; expires_at = 20000 }

abbrev anns_rig : Rig
anns_rig = record rig { lease = some anns_lease }

abbrev leader : Leader
leader = record {
  name = "arm";
  driving = none;
  bound_to = some "ann";
  rig = some "so101";
  pending = none;
  last_seen = 1000;
}

abbrev hub : Hub
hub = record { rigs = ("so101", anns_rig) ∷ []; leaders = ("arm", leader) ∷ [] }

abbrev estop : RigCommand
estop = record { verb = "estop"; args = none; owner_key = none; holder = none; queued_at = 1000 }

-- Readings of the shoulder, in thousandths of a degree.
abbrev shoulder : ℕ → OperatorInput
shoulder p = record { axes = none; joints = some (("shoulder", pos p) ∷ []) }

claim_lease_iff_example : ((claim_lease 5000 anns_rig "bob" false).1 ≡ true) ↔ (
    ((false ≡ true) ⊎ IsOpenTo 5000 "bob" (some anns_lease))
    × (5000 < capped (5000 + lease_ms) none))
claim_lease_iff_example = claim_lease_iff 5000 anns_rig "bob" false

apart : ◌≢◌ {A = String} "bob" "ann"
apart = ground (arith, eq_iff "bob" "ann")

front_apart : ◌≢◌ {A = String} "front" "wrist"
front_apart = ground (arith, eq_iff "front" "wrist")

lease_run-IsEnded_example :
    IsEnded 2000
      (lease_run (record rig { lease_hard_expiry = some 2000 }) ((2500, claims "bob" true) ∷ []))
lease_run-IsEnded_example =
    lease_run-IsEnded 2000 (record rig { lease_hard_expiry = some 2000 })
      ((2500, claims "bob" true) ∷ []) (record { free = refl; ceiling = refl }) (omega arith, tt)

abbrev calls : List (ℕ × QueueCall)
calls = (1000, offers estop) ∷ (1050, drains) ∷ (1100, drains) ∷ []

queue_run-Sublist_example :
    Sublist
      (commands (queue_run rig calls).1 ++ (queue_run rig calls).0.pending)
      ([] ++ offered calls)
queue_run-Sublist_example = queue_run-Sublist rig calls

abbrev refs : Readings
refs = ("shoulder", pos 10000) ∷ []

off_by_one : IsStill refs (shoulder 11000)
unfolding lookup dist
off_by_one = (("shoulder", pos 11000) ∷ [], refl, refl, ((pos 10000, refl, omega arith), tt))

off_by_half : IsStill refs (shoulder 9500)
unfolding lookup dist
off_by_half = (("shoulder", pos 9500) ∷ [], refl, refl, ((pos 10000, refl, omega arith), tt))

displacement_counted_example :
    0 + dist (pos 10000) (pos 16000)
    < (note_odometer (shoulder 16000) (note_all (shoulder 12000 ∷ []) odo)).motion + leader_band_deg
unfolding lookup references
displacement_counted_example =
    displacement_counted "shoulder" (pos 10000) (pos 16000) (shoulder 12000 ∷ [])
      (("shoulder", pos 16000) ∷ []) odo refl (inl (refl, refl, tt))
