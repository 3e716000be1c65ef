-- ===== src/Hub/Odometer/Noise.antt =====
-- A leader arm at rest: readings that stay within the band of their references.
use eth_global_lisbon_2026_h.Base.{
  ℤ, String, ◌<◌, ◌≡◌, refl, Option, none, some, List, [], ◌∷◌, arith, lookup, dist, All, string_eq,
}
use eth_global_lisbon_2026_h.Hub.Rig.{InputOdo, Readings}
use eth_global_lisbon_2026_h.Hub.Odometer.{
  OperatorInput, Count, leader_band_deg, count_joint, references, count_joints, count_leader,
  count_input, settle_count, note_odometer, note_all,
}

-- A reading less than 2° from the joint's reference.
abbrev pub InBand : Readings → String × ℤ → Type 0
InBand refs (name, p) = (ref : ℤ) × (lookup name refs ≡ some ref) × (dist p ref < leader_band_deg)

-- A packet of a leader whose every reading is in the band.
abbrev pub IsStill : Readings → OperatorInput → Type 0
IsStill refs input =
    (joints : Readings) × (input.axes ≡ none)
    × (input.joints ≡ some joints)
    × All (InBand refs) joints

count_joint-still :
    (refs : Readings) (name : String) (p ref : ℤ) (c : Count)
    → dist p ref < leader_band_deg
    → count_joint name p (some ref) refs c ≡ c
unfolding count_joint
count_joint-still refs name p ref c h = ground arith

references_of_some :
    (refs : Readings) (odo : InputOdo) → odo.last_joints ≡ some refs → references odo ≡ refs
unfolding references
references_of_some refs odo e = ground arith

count_joints-still :
    (refs joints : Readings) (c : Count)
    → references c.odo ≡ refs
    → All (InBand refs) joints
    → count_joints joints c ≡ c
unfolding count_joints
count_joints-still refs [] c e h = refl
count_joints-still refs ((name, p) ∷ joints) c e ((ref, found, near), h) =
    rw (e, found, count_joint-still refs name p ref c near) (count_joints-still refs joints c e h)

count_leader-still :
    (refs js : Readings) (last : Option Readings) (odo : InputOdo)
    → last ≡ some refs
    → odo.last_joints ≡ some refs
    → All (InBand refs) js
    → count_leader last js odo ≡ record { odo = odo; moved = 0 }
unfolding count_leader
count_leader-still refs js none odo f e h = cc
count_leader-still refs js (some r) odo f e h =
    count_joints-still refs js (record { odo = odo; moved = 0 }) (references_of_some refs odo e) h

count_input-still :
    (refs : Readings) (axes joints : Option Readings) (js : Readings) (odo : InputOdo)
    → odo.last_joints ≡ some refs
    → axes ≡ none
    → joints ≡ some js
    → All (InBand refs) js
    → count_input axes joints odo ≡ record { odo = odo; moved = 0 }
unfolding count_input
count_input-still refs axes joints js odo e p q h =
    rw (p, q, count_input) (count_leader-still refs js odo.last_joints odo e e h)

note_odometer-still :
    (refs : Readings) (input : OperatorInput) (odo : InputOdo)
    → odo.last_joints ≡ some refs
    → IsStill refs input
    → note_odometer input odo ≡ odo
unfolding note_odometer settle_count
note_odometer-still refs input odo e (js, p, q, h) =
    rw (count_input-still refs input.axes input.joints js odo e p q h)

-- However long a leader arm jitters within 2° of its references, the odometer does not move.
pub note_all-still :
    (refs : Readings) (is : List OperatorInput) (odo : InputOdo)
    → odo.last_joints ≡ some refs
    → All (IsStill refs) is
    → note_all is odo ≡ odo
unfolding note_all
note_all-still refs [] odo e h = refl
note_all-still refs (i ∷ is) odo e (h, hs) =
    rw (note_odometer-still refs i odo e h) (note_all-still refs is odo e hs)
