-- ===== src/Market/Sampler/Gripper.antt =====
-- What does not count as a turn of the gripper.
use eth_global_lisbon_2026_h.Base.{
  ℤ, ◌<◌, ◌≡◌, ◌⊎◌, inl, inr, refl, ◌∙◌, none, some, List, [], ◌∷◌, All, dist, arith, Bool-cases,
}
use eth_global_lisbon_2026_h.Market.Sampler.{JointGripper, further, track_from, track_joint_gripper}

-- Readings of the joint, one after another.
unfoldable pub track_readings : List ℤ → JointGripper → JointGripper
unfolding track_joint_gripper
track_readings [] jg = jg
track_readings (at ∷ ats) jg = track_readings ats (track_joint_gripper jg at)

-- A place within half the hysteresis of the centre.
abbrev pub IsNear : ℤ → ℤ → Type 0
IsNear centre at = dist at centre < 4000

abbrev pub IsSettled : ℤ → JointGripper → Type 0
IsSettled centre jg = (jg.extreme ≡ none) ⊎ ((e : ℤ) × (jg.extreme ≡ some e) × IsNear centre e)

near-apart : (centre a b : ℤ) → IsNear centre a → IsNear centre b → dist a b < 8000
unfolding dist
near-apart centre a b h k = omega (arith, h, k)

-- A reading within the hysteresis of the extreme only moves the extreme, if anything.
track_from-still :
    (e at : ℤ) (jg : JointGripper)
    → jg.extreme ≡ some e
    → dist at e < 8000
    → (track_from e jg at ≡ jg) ⊎ (track_from e jg at ≡ record jg { extreme = some at })
unfolding track_from
track_from-still e at jg seen apart = elim (Bool-cases (further jg.direction e at)) [
  | inl on ↦ inr (ground (arith, on, apart))
  | inr off ↦ inl (ground (arith, off, apart))
]

track-near :
    (centre at : ℤ) (jg : JointGripper)
    → IsSettled centre jg
    → IsNear centre at
    → let jg' = track_joint_gripper jg at in IsSettled centre jg' × (jg'.reversals ≡ jg.reversals)
unfolding track_joint_gripper
track-near centre at jg (inl none_yet) near =
    rw (none_yet, track_joint_gripper) (inr (at, refl, near), refl)
track-near centre at jg (inr (e, seen, close)) near =
    let apart = near-apart centre at e near close in
    elim (track_from-still e at jg seen apart) [
      | inl same ↦ rw (seen, track_joint_gripper, same) (inr (e, seen, close), refl)
      | inr moved ↦ rw (seen, track_joint_gripper, moved) (inr (at, refl, near), refl)
    ]

-- A trembling gripper earns nothing: readings that all lie within 4 degrees of one place, from a
-- sampler that has seen none or whose extreme lies there too, add no reversal, whichever way the
-- joint was going.
pub track_readings-still :
    (centre : ℤ) (ats : List ℤ) (jg : JointGripper)
    → IsSettled centre jg
    → All (IsNear centre) ats
    → (track_readings ats jg).reversals ≡ jg.reversals
unfolding track_readings
track_readings-still centre [] jg ok near = refl
track_readings-still centre (at ∷ ats) jg ok (here, rest) =
    let (ok', same) = track-near centre at jg ok here in
    track_readings-still centre ats (track_joint_gripper jg at) ok' rest ∙ same
