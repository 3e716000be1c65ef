-- ===== src/Hub/Odometer/Travel.antt =====
-- The travel of a joint's reference, beside the motion that is counted.
use eth_global_lisbon_2026_h.Base.{
  ℕ, ℤ, String, ◌+◌, ◌≤◌, ◌≡◌, refl, Option, none, some, List, [], ◌∷◌, arith, lookup, insert,
  lookup-insert, dist, dist_comm, dist_triangle, eq_iff, string_eq, inl, inr, Bool-cases, ◌==◌, ◌∙◌,
  ltb,
}
use eth_global_lisbon_2026_h.Hub.Rig.{InputOdo, Readings, Sign, minus, still, plus}
use eth_global_lisbon_2026_h.Hub.Odometer.Evidence.{count_input-Keeps}
use eth_global_lisbon_2026_h.Hub.Odometer.{
  OperatorInput, Count, leader_band_deg, gripper_axis, count_axes, advance_joint, count_joint,
  references, count_joints, count_leader, count_input, settle_count, note_odometer, note_all,
}

-- The joint's reference in an odometer.
abbrev pub RefersTo : String → ℤ → InputOdo → Type 0
RefersTo name r odo = lookup name (references odo) ≡ some r

-- The reference has moved from r, and at least by so much has the packet's motion grown.
record Tracks (name : String) (r : ℤ) (start : ℕ) (c : Count) : Type 0 where
  ref : ℤ
  refers : RefersTo name ref c.odo
  credited : start + dist r ref ≤ c.moved

pub dist_self : (r : ℤ) → dist r r ≡ 0
unfolding dist
dist_self r = omega arith

advance_joint-Tracks :
    (name : String) (r : ℤ) (j : String) (p ref : ℤ) (c : Count)
    → RefersTo name r c.odo
    → lookup j (references c.odo) ≡ some ref
    → Tracks name r c.moved (advance_joint j p ref (references c.odo) c)
unfolding advance_joint references
advance_joint-Tracks name r j p ref c h e = elim (Bool-cases (j == name)) [
  | inl same ↦
      let here : lookup name (insert j p (references c.odo)) ≡ some p =
        lookup-insert j name p (references c.odo) ∙ rw same in
      record {
        ref = p;
        refers = ground (arith, here);
        credited = ground (arith, eq_iff j name, dist_comm r p);
      }
  | inr other ↦
      let kept : lookup name (insert j p (references c.odo)) ≡ some r =
        lookup-insert j name p (references c.odo) ∙ rw other h in
      record { ref = r; refers = ground (arith, kept); credited = ground (arith, dist_self r) }
]

count_joint-Tracks :
    (name : String) (r : ℤ) (j : String) (p : ℤ) (ref : Option ℤ) (c : Count)
    → RefersTo name r c.odo
    → lookup j (references c.odo) ≡ ref
    → Tracks name r c.moved (count_joint j p ref (references c.odo) c)
unfolding count_joint references
count_joint-Tracks name r j p none c h e = record {
  ref = r;
  refers = ground (arith, lookup-insert j name p (references c.odo), eq_iff j name);
  credited = omega (arith, dist_self r);
}
count_joint-Tracks name r j p (some ref) c h e =
    elim (Bool-cases (ltb (dist p ref) leader_band_deg)) [
      | inl near ↦ rw near (record { ref = r; refers = h; credited = omega (arith, dist_self r) })
      | inr far ↦ rw far (advance_joint-Tracks name r j p ref c h e)
    ]

count_joints-Tracks :
    (name : String) (r : ℤ) (joints : Readings) (c : Count)
    → RefersTo name r c.odo
    → Tracks name r c.moved (count_joints joints c)
unfolding count_joints
count_joints-Tracks name r [] c h = record {
  ref = r;
  refers = h;
  credited = omega (arith, dist_self r);
}
count_joints-Tracks name r ((j, p) ∷ joints) c h =
    let last = references c.odo in
    let c' = count_joint j p (lookup j last) last c in
    let step = count_joint-Tracks name r j p (lookup j last) c h refl in
    let rest = count_joints-Tracks name step.ref joints c' step.refers in
    record {
      ref = rest.ref;
      refers = rest.refers;
      credited = omega (arith, step.credited, rest.credited, dist_triangle r step.ref rest.ref);
    }

-- Over a whole packet, or many: the motion counted covers the way that the reference has gone.
pub record Credits (name : String) (r : ℤ) (odo odo' : InputOdo) : Type 0 where
  pub ref : ℤ
  pub refers : RefersTo name ref odo'
  pub credited : odo.motion + dist r ref ≤ odo'.motion

settle_count-Credits :
    (name : String) (r : ℤ) (odo : InputOdo) (c : Count)
    → c.odo.motion ≡ odo.motion
    → Tracks name r 0 c
    → Credits name r odo (settle_count c)
unfolding settle_count references
settle_count-Credits name r odo c k t = record {
  ref = t.ref;
  refers = ground (arith, t.refers);
  credited = ground (arith, t.credited);
}

gripper_axis-refers :
    (name : String) (r : ℤ) (s : Sign) (g : ℤ) (c : Count)
    → RefersTo name r c.odo
    → RefersTo name r (gripper_axis s g c).odo
unfolding gripper_axis references
gripper_axis-refers name r minus g c h = h
gripper_axis-refers name r still g c h = h
gripper_axis-refers name r plus g c h = h

count_axes-refers :
    (name : String) (r : ℤ) (axes : Readings) (odo : InputOdo)
    → RefersTo name r odo
    → RefersTo name r (count_axes axes odo).odo
unfolding count_axes
count_axes-refers name r axes odo h = gripper_axis-refers name r _ _ _ h

no_reference :
    (name : String) (r : ℤ) (odo : InputOdo) → odo.last_joints ≡ none → RefersTo name r odo → ⊥
unfolding references lookup
no_reference name r odo e h = ground arith

count_leader-Tracks :
    (name : String) (r : ℤ) (last : Option Readings) (joints : Readings) (odo : InputOdo)
    → odo.last_joints ≡ last
    → RefersTo name r odo
    → Tracks name r 0 (count_leader last joints odo)
unfolding count_leader
count_leader-Tracks name r none joints odo e h = absurd (no_reference name r odo e h)
count_leader-Tracks name r (some refs) joints odo e h =
    count_joints-Tracks name r joints (record { odo = odo; moved = 0 }) h

count_input-Tracks :
    (name : String) (r : ℤ) (axes joints : Option Readings) (odo : InputOdo)
    → RefersTo name r odo
    → Tracks name r 0 (count_input axes joints odo)
unfolding count_input
count_input-Tracks name r (some axes) joints odo h = record {
  ref = r;
  refers = count_axes-refers name r axes odo h;
  credited = omega (arith, dist_self r);
}
count_input-Tracks name r none (some joints) odo h =
    count_leader-Tracks name r odo.last_joints joints odo refl h
count_input-Tracks name r none none odo h = record {
  ref = r;
  refers = h;
  credited = omega (arith, dist_self r);
}

pub note_odometer-Credits :
    (name : String) (r : ℤ) (input : OperatorInput) (odo : InputOdo)
    → RefersTo name r odo
    → Credits name r odo (note_odometer input odo)
unfolding note_odometer
note_odometer-Credits name r input odo h =
    settle_count-Credits name r odo (count_input input.axes input.joints odo)
      (count_input-Keeps input.axes input.joints odo).same_motion
      (count_input-Tracks name r input.axes input.joints odo h)

-- Over any packets at all, a joint's reference never moves without the travel being counted.
pub note_all-Credits :
    (name : String) (r : ℤ) (is : List OperatorInput) (odo : InputOdo)
    → RefersTo name r odo
    → Credits name r odo (note_all is odo)
unfolding note_all
note_all-Credits name r [] odo h = record {
  ref = r;
  refers = h;
  credited = omega (arith, dist_self r);
}
note_all-Credits name r (i ∷ is) odo h =
    let step = note_odometer-Credits name r i odo h in
    let rest = note_all-Credits name step.ref is (note_odometer i odo) step.refers in
    record {
      ref = rest.ref;
      refers = rest.refers;
      credited = omega (arith, step.credited, rest.credited, dist_triangle r step.ref rest.ref);
    }
