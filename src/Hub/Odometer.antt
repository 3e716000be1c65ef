-- ===== src/Hub/Odometer.antt =====
-- The input odometer: `noteInputOdometer` of apps/web/src/hub/store.ts. Positions and axis values
-- are thousandths, so motion (axis units, or degrees over ten) is counted in ten-thousandths.
pub mod Evidence
pub mod Noise
pub mod Travel
pub mod Displacement
use eth_global_lisbon_2026_h.Base.{
  ℕ, ℤ, pos, negsuc, pos_part, ◌+◌, ◌*◌, String, Bool, true, false, not, ◌&&◌, Option, none, some,
  List, [], ◌∷◌, ltb, leb, ltb_ℤ, abs, dist, lookup, insert, filter, or_else, names_part, ◌==◌,
  string_eq, if◌then◌else◌,
}
use eth_global_lisbon_2026_h.Hub.Rig.{Rig, InputOdo, Sign, minus, still, plus, Readings}

pub record OperatorInput : Type 0 where
  pub axes : Option Readings
  pub joints : Option Readings

abbrev pub leader_band_deg : ℕ
leader_band_deg = 2000

-- An odometer while a packet is being counted: `moved` is the packet's own motion so far.
pub record Count : Type 0 where
  pub odo : InputOdo
  pub moved : ℕ

sum_abs : Readings → ℕ
sum_abs [] = 0
sum_abs ((name, v) ∷ axes) = 10 * abs v + sum_abs axes

gripper_direction : ℤ → Sign
gripper_direction g =
    if ltb 200 (pos_part g) then plus else if ltb_ℤ g (negsuc 199) then minus else still

unfoldable pub reverses : Sign → Sign → Bool
reverses minus plus = true
reverses plus minus = true
reverses _ _ = false

-- A gripper that moves in direction `sign` other than `still`.
note_gripper : Sign → InputOdo → InputOdo
unfolding reverses
note_gripper sign odo = record odo {
  gripper_flips =
      if reverses odo.gripper_sign sign then odo.gripper_flips + 1 else odo.gripper_flips;
  gripper_sign = sign;
}

gripper_axis : Sign → ℤ → Count → Count
unfolding note_gripper
gripper_axis still g c = c
gripper_axis sign g c = record { odo = note_gripper sign c.odo; moved = c.moved + 10 * abs g }

count_axes : Readings → InputOdo → Count
unfolding sum_abs gripper_direction gripper_axis
count_axes axes odo =
    let gripper = or_else (lookup "gripper" axes) (pos 0) in
    let rest = filter (λ e. not (e.0 == "gripper")) axes in
    gripper_axis (gripper_direction gripper) gripper (record { odo = odo; moved = sum_abs rest })

-- One joint that has left its band: count the travel and move its reference.
advance_joint : String → ℤ → ℤ → Readings → Count → Count
unfolding note_gripper
advance_joint name position ref last c =
    let delta = dist position ref in
    let odo' =
      if names_part "gripper" name && leb 8000 delta
      then note_gripper (if ltb_ℤ ref position then plus else minus) c.odo
      else c.odo in
    record {
      odo = record odo' { last_joints = some (insert name position last) };
      moved = c.moved + delta;
    }

-- The body of the loop over the joints of a packet, at the joint's reference.
count_joint : String → ℤ → Option ℤ → Readings → Count → Count
unfolding advance_joint
count_joint name position none last c = record c {
  odo = record c.odo { last_joints = some (insert name position last) };
}
count_joint name position (some ref) last c =
    if ltb (dist position ref) leader_band_deg then c else advance_joint name position ref last c

unfoldable pub references : InputOdo → Readings
references odo = or_else odo.last_joints []

count_joints : Readings → Count → Count
unfolding count_joint references
count_joints [] c = c
count_joints ((name, position) ∷ joints) c =
    let last = references c.odo in
    count_joints joints (count_joint name position (lookup name last) last c)

-- The first packet of a leader only sets the references.
count_leader : Option Readings → Readings → InputOdo → Count
unfolding count_joints
count_leader none joints odo = record { odo = record odo { last_joints = some joints }; moved = 0 }
count_leader (some _) joints odo = count_joints joints (record { odo = odo; moved = 0 })

pub count_input : Option Readings → Option Readings → InputOdo → Count
unfolding count_axes count_leader
count_input (some axes) joints odo = count_axes axes odo
count_input none (some joints) odo = count_leader odo.last_joints joints odo
count_input none none odo = record { odo = odo; moved = 0 }

-- Only a packet that moved something counts.
settle_count : Count → InputOdo
settle_count c =
    if ltb 0 c.moved
    then record c.odo { motion = c.odo.motion + c.moved; packets = c.odo.packets + 1 }
    else c.odo

unfoldable pub note_odometer : OperatorInput → InputOdo → InputOdo
unfolding count_input settle_count
note_odometer input odo = settle_count (count_input input.axes input.joints odo)

unfoldable pub note_input_odometer : Rig → OperatorInput → Rig
unfolding note_odometer
note_input_odometer rig input = record rig { input_odo = note_odometer input rig.input_odo }

unfoldable pub note_all : List OperatorInput → InputOdo → InputOdo
note_all [] odo = odo
note_all (i ∷ is) odo = note_all is (note_odometer i odo)
