-- ===== src/Hub/Odometer/Displacement.antt =====
-- The way between two readings of a joint, however small the steps between them.
use eth_global_lisbon_2026_h.Base.{
  ℤ, String, ◌+◌, ◌<◌, ◌≡◌, ◌≢◌, refl, Option, none, some, List, [], ◌∷◌, arith, lookup,
  lookup-insert, dist, dist_comm, dist_triangle, eq_iff, string_eq, inl, inr, Bool-cases, ltb, ◌⊎◌,
  All, or_else,
}
use eth_global_lisbon_2026_h.Hub.Rig.{InputOdo, Readings}
use eth_global_lisbon_2026_h.Hub.Odometer.Travel.{
  RefersTo, dist_self, note_odometer-Credits, note_all-Credits,
}
use eth_global_lisbon_2026_h.Hub.Odometer.{
  OperatorInput, Count, leader_band_deg, advance_joint, count_joint, references, count_joints,
  count_leader, count_input, settle_count, note_odometer, note_all,
}

-- The packet has one reading of the joint, at p.
abbrev pub ReadsOnce : String → ℤ → Readings → Type 0
ReadsOnce name p [] = ⊥
ReadsOnce name p ((j, q) ∷ joints) =
    ((j ≡ name) × (q ≡ p) × All (λ e. e.0 ≢ name) joints) ⊎ ((j ≢ name) × ReadsOnce name p joints)

-- The joint's reference is less than 2° from p.
record Near (name : String) (p : ℤ) (odo : InputOdo) : Type 0 where
  ref : ℤ
  refers : RefersTo name ref odo
  close : dist p ref < leader_band_deg

count_joint-other :
    (name : String) (r : ℤ) (j : String) (q : ℤ) (ref : Option ℤ) (c : Count)
    → j ≢ name
    → RefersTo name r c.odo
    → RefersTo name r (count_joint j q ref (references c.odo) c).odo
unfolding count_joint advance_joint references
count_joint-other name r j q none c ne h =
    ground (arith, lookup-insert j name q (references c.odo), eq_iff j name)
count_joint-other name r j q (some ref) c ne h =
    ground (arith, lookup-insert j name q (references c.odo), eq_iff j name)

count_joints-others :
    (name : String) (r : ℤ) (joints : Readings) (c : Count)
    → All (λ e. e.0 ≢ name) joints
    → RefersTo name r c.odo
    → RefersTo name r (count_joints joints c).odo
unfolding count_joints
count_joints-others name r [] c ne h = h
count_joints-others name r ((j, q) ∷ joints) c (ne, nes) h =
    count_joints-others name r joints _ nes
      (count_joint-other name r j q (lookup j (references c.odo)) c ne h)

count_joint-Near :
    (name : String) (p : ℤ) (ref : Option ℤ) (c : Count)
    → lookup name (references c.odo) ≡ ref
    → Near name p (count_joint name p ref (references c.odo) c).odo
unfolding count_joint advance_joint references
count_joint-Near name p none c e = record {
  ref = p;
  refers = ground (arith, lookup-insert name name p (references c.odo), eq_iff name name);
  close = omega (arith, dist_self p);
}
count_joint-Near name p (some ref) c e = elim (Bool-cases (ltb (dist p ref) leader_band_deg)) [
  | inl near ↦ rw near (record { ref = ref; refers = e; close = ground arith })
  | inr far ↦ rw far (record {
    ref = p;
    refers = ground (arith, lookup-insert name name p (references c.odo), eq_iff name name);
    close = omega (arith, dist_self p);
  })
]

count_joints-Near :
    (name : String) (p : ℤ) (joints : Readings) (c : Count)
    → ReadsOnce name p joints
    → Near name p (count_joints joints c).odo
unfolding count_joints
count_joints-Near name p [] c h = absurd h
count_joints-Near name p ((j, q) ∷ joints) c (inl (same, at_p, others)) =
    rw (same, at_p)
      (let here = count_joint-Near name p (lookup name (references c.odo)) c refl in
        record {
          ref = here.ref;
          refers = count_joints-others name here.ref joints _ others here.refers;
          close = here.close;
        })
count_joints-Near name p ((j, q) ∷ joints) c (inr (other, once)) =
    count_joints-Near name p joints _ once

settle_count-Near :
    (name : String) (p : ℤ) (c : Count) → Near name p c.odo → Near name p (settle_count c)
unfolding settle_count references
settle_count-Near name p c n = record {
  ref = n.ref;
  refers = ground (arith, n.refers);
  close = n.close;
}

count_leader-Near :
    (name : String) (p : ℤ) (joints refs : Readings) (last : Option Readings) (odo : InputOdo)
    → last ≡ some refs
    → ReadsOnce name p joints
    → Near name p (count_leader last joints odo).odo
unfolding count_leader
count_leader-Near name p joints refs none odo e h = cc
count_leader-Near name p joints refs (some _) odo e h = count_joints-Near name p joints _ h

note_odometer-Near :
    (name : String) (p : ℤ) (joints refs : Readings) (odo : InputOdo)
    → odo.last_joints ≡ some refs
    → ReadsOnce name p joints
    → Near name p (note_odometer (record { axes = none; joints = some joints }) odo)
unfolding note_odometer count_input
note_odometer-Near name p joints refs odo e h =
    settle_count-Near name p _ (count_leader-Near name p joints refs odo.last_joints odo e h)

has_references :
    (name : String) (r : ℤ) (last : Option Readings)
    → lookup name (or_else last []) ≡ some r
    → (refs : Readings) × (last ≡ some refs)
unfolding lookup
has_references name r none h = cc
has_references name r (some refs) h = (refs, refl)

-- From a joint's reference r, through any packets, to a packet that reads the joint at p: the motion
-- counted on the way, plus the 2° band, is more than the distance from r to p.
pub displacement_counted :
    (name : String) (r p : ℤ) (is : List OperatorInput) (joints : Readings) (odo : InputOdo)
    → RefersTo name r odo
    → ReadsOnce name p joints
    → odo.motion + dist r p
      < (note_odometer (record { axes = none; joints = some joints }) (note_all is odo)).motion
        + leader_band_deg
unfolding references
displacement_counted name r p is joints odo h once =
    let mid = note_all-Credits name r is odo h in
    let last : OperatorInput = record { axes = none; joints = some joints } in
    let end = note_odometer-Credits name mid.ref last (note_all is odo) mid.refers in
    let (refs, e) = has_references name mid.ref (note_all is odo).last_joints mid.refers in
    let near = note_odometer-Near name p joints refs (note_all is odo) e once in
    let same : near.ref ≡ end.ref = cc (near.refers, end.refers) in
    let close : dist p end.ref < leader_band_deg = rw (← same) near.close in
    omega (
      arith,
      mid.credited,
      end.credited,
      close,
      dist_triangle r mid.ref end.ref,
      dist_triangle r end.ref p,
      dist_comm p end.ref,
    )
