-- ===== src/Hub/Odometer/Evidence.antt =====
-- What one packet can do to the counters.
use eth_global_lisbon_2026_h.Base.{
  ℤ, String, ◌+◌, ◌≤◌, ◌<◌, ◌≡◌, ◌⊎◌, Option, none, some, List, [], ◌∷◌, arith, lookup, string_eq,
}
use eth_global_lisbon_2026_h.Hub.Rig.{InputOdo, Readings, Sign, minus, still, plus}
use eth_global_lisbon_2026_h.Hub.Odometer.{
  OperatorInput, Count, gripper_axis, count_axes, count_joint, references, count_joints,
  count_leader, count_input, settle_count, note_odometer, note_all,
}

-- The totals are as they were, and no reversal of the gripper is forgotten.
pub record Keeps (odo odo' : InputOdo) : Type 0 where
  pub same_packets : odo'.packets ≡ odo.packets
  pub same_motion : odo'.motion ≡ odo.motion
  pub more_flips : odo.gripper_flips ≤ odo'.gripper_flips

Keeps-trans : {a b c : InputOdo} → Keeps a b → Keeps b c → Keeps a c
Keeps-trans p q = ground arith

gripper_axis-Keeps : (s : Sign) (g : ℤ) (c : Count) → Keeps c.odo (gripper_axis s g c).odo
unfolding gripper_axis
gripper_axis-Keeps minus g c = ground arith
gripper_axis-Keeps still g c = ground arith
gripper_axis-Keeps plus g c = ground arith

count_joint-Keeps :
    (name : String) (p : ℤ) (ref : Option ℤ) (last : Readings) (c : Count)
    → Keeps c.odo (count_joint name p ref last c).odo
unfolding count_joint
count_joint-Keeps name p none last c = ground arith
count_joint-Keeps name p (some ref) last c = ground arith

count_joints-Keeps : (joints : Readings) (c : Count) → Keeps c.odo (count_joints joints c).odo
unfolding count_joints
count_joints-Keeps [] c = ground arith
count_joints-Keeps ((name, p) ∷ joints) c =
    let last = references c.odo in
    let ref = lookup name last in
    Keeps-trans (count_joint-Keeps name p ref last c)
      (count_joints-Keeps joints (count_joint name p ref last c))

count_leader-Keeps :
    (last : Option Readings) (joints : Readings) (odo : InputOdo)
    → Keeps odo (count_leader last joints odo).odo
unfolding count_leader
count_leader-Keeps none joints odo = ground arith
count_leader-Keeps (some refs) joints odo = count_joints-Keeps joints _

pub count_input-Keeps :
    (axes joints : Option Readings) (odo : InputOdo) → Keeps odo (count_input axes joints odo).odo
unfolding count_input count_axes
count_input-Keeps (some axes) joints odo = gripper_axis-Keeps _ _ _
count_input-Keeps none (some joints) odo = count_leader-Keeps odo.last_joints joints odo
count_input-Keeps none none odo = ground arith

-- The totals after a packet: either both stand still, or one packet is counted and the motion grows.
pub record Grows (odo odo' : InputOdo) : Type 0 where
  pub totals :
      ((odo'.packets ≡ odo.packets) × (odo'.motion ≡ odo.motion))
      ⊎ ((odo'.packets ≡ odo.packets + 1) × (odo.motion < odo'.motion))
  pub flips : odo.gripper_flips ≤ odo'.gripper_flips

settle_count-Grows : (odo : InputOdo) (c : Count) → Keeps odo c.odo → Grows odo (settle_count c)
unfolding settle_count
settle_count-Grows odo c k = ground arith

-- A packet is counted exactly when it adds motion, and no counter ever falls.
pub note_odometer-Grows :
    (input : OperatorInput) (odo : InputOdo) → Grows odo (note_odometer input odo)
unfolding note_odometer
note_odometer-Grows input odo =
    settle_count-Grows odo (count_input input.axes input.joints odo)
      (count_input-Keeps input.axes input.joints odo)

note_all_mono : (is : List OperatorInput) (odo : InputOdo) → odo.motion ≤ (note_all is odo).motion
unfolding note_all
note_all_mono [] odo = omega arith
note_all_mono (i ∷ is) odo =
    ground (arith, note_odometer-Grows i odo, note_all_mono is (note_odometer i odo))
