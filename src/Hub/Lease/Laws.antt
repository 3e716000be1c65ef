-- ===== src/Hub/Lease/Laws.antt =====
-- What a claim, a read and a release of the lease do.
use eth_global_lisbon_2026_h.Base.{
  ℕ, ◌+◌, ◌≤◌, ◌<◌, ◌≡◌, ◌≢◌, ◌↔◌, ◌⊎◌, refl, String, Bool, true, false, Option, none, some, arith,
  eq_iff, string_eq, List, [], ◌∷◌, All, inl, inr,
}
use eth_global_lisbon_2026_h.Hub.Rig.{Rig, Lease, lease_ms}
use eth_global_lisbon_2026_h.Hub.Lease.{
  lease_holder, capped, claim_lease, LeaseCall, reads, claims, releases, revokes, lease_step,
  lease_run,
}

-- Nobody but `who` has a running lease.
abbrev pub IsOpenTo : ℕ → String → Option Lease → Type 0
IsOpenTo now who none = Unit {0}
IsOpenTo now who (some l) = (l.expires_at ≤ now) ⊎ (l.holder ≡ who)

abbrev pub IsWithin : Option ℕ → ℕ → Type 0
IsWithin none at = Unit {0}
IsWithin (some cap) at = at ≤ cap

-- `who` has a lease that runs.
abbrev pub IsHeldBy : ℕ → Rig → String → Type 0
IsHeldBy now rig who = (l : Lease) × (rig.lease ≡ some l) × (l.holder ≡ who) × (now < l.expires_at)

-- Reading the holder gives a name exactly when a lease is running, and it is that lease's.
pub lease_holder_iff :
    (now : ℕ) (rig : Rig) (who : String)
    → ((lease_holder now rig).1 ≡ some who) ↔ IsHeldBy now rig who
unfolding lease_holder
lease_holder_iff now rig who = (sound rig.lease refl, complete)
  where
    sound :
        (o : Option Lease)
        → rig.lease ≡ o
        → (lease_holder now rig).1 ≡ some who
        → (l : Lease) × (rig.lease ≡ some l) × (l.holder ≡ who) × (now < l.expires_at)
    sound none e h = ground arith
    sound (some l) e h = (l, e, ground arith, ground arith)

    complete :
        (l : Lease) × (rig.lease ≡ some l) × (l.holder ≡ who) × (now < l.expires_at)
        → (lease_holder now rig).1 ≡ some who
    complete (l, e, o, a) = ground arith

claim_sound :
    (now : ℕ) (rig : Rig) (who : String) (force : Bool) (o : Option Lease)
    → rig.lease ≡ o
    → (claim_lease now rig who force).1 ≡ true
    → ((force ≡ true) ⊎ IsOpenTo now who o) × (now < capped (now + lease_ms) rig.lease_hard_expiry)
unfolding claim_lease
claim_sound now rig who true o e h = (inl refl, ground arith)
claim_sound now rig who false none e h = (inr tt, ground arith)
claim_sound now rig who false (some l) e h =
    (inr (ground (arith, eq_iff l.holder who)), ground arith)

claim_complete :
    (now : ℕ) (rig : Rig) (who : String) (force : Bool) (o : Option Lease)
    → rig.lease ≡ o
    → (force ≡ true) ⊎ IsOpenTo now who o
    → now < capped (now + lease_ms) rig.lease_hard_expiry
    → (claim_lease now rig who force).1 ≡ true
unfolding claim_lease
claim_complete now rig who force none e c h = ground arith
claim_complete now rig who true (some l) e c h = ground arith
claim_complete now rig who false (some l) e (inl c) h = ground arith
claim_complete now rig who false (some l) e (inr c) h = ground (arith, eq_iff l.holder who)

-- A claim succeeds exactly when it is forced or nobody else has a running lease, and the ceiling
-- (where there is one) lies in the future.
pub claim_lease_iff :
    (now : ℕ) (rig : Rig) (who : String) (force : Bool)
    → ((claim_lease now rig who force).1 ≡ true) ↔ (
        ((force ≡ true) ⊎ IsOpenTo now who rig.lease)
        × (now < capped (now + lease_ms) rig.lease_hard_expiry))
claim_lease_iff now rig who force = (
  claim_sound now rig who force rig.lease refl,
  λ (c, h). claim_complete now rig who force rig.lease refl c h,
)

-- A claim that succeeds makes the claimant the holder, until at most 20 s from now and never past
-- the ceiling.
pub claim_lease-Holds :
    (now : ℕ) (rig : Rig) (who : String) (force : Bool)
    → (claim_lease now rig who force).1 ≡ true
    → (l : Lease) × ((claim_lease now rig who force).0.lease ≡ some l)
      × (l.holder ≡ who)
      × (now < l.expires_at)
      × (l.expires_at ≤ now + lease_ms)
      × IsWithin (claim_lease now rig who force).0.lease_hard_expiry l.expires_at
unfolding claim_lease
claim_lease-Holds now rig who force ok = (
  record { holder = who; expires_at = capped (now + lease_ms) rig.lease_hard_expiry },
  ground arith,
  refl,
  ground arith,
  ground arith,
  ground arith,
)

-- A claim that is refused takes the seat from nobody: whoever held it still does.
pub claim_lease_refused :
    (now : ℕ) (rig : Rig) (who : String) (force : Bool)
    → (claim_lease now rig who force).1 ≡ false
    → (claim_lease now rig who force).0 ≡ (lease_holder now rig).0
unfolding claim_lease lease_holder
claim_lease_refused now rig who force h = ground arith

-- A call that cannot take a running lease away from `who` before `end`.
abbrev pub IsBystander : String → ℕ → ℕ × LeaseCall → Type 0
IsBystander who end (now, reads) = now < end
IsBystander who end (now, claims other force) = (now < end) × (force ≡ false) × (other ≢ who)
IsBystander who end (now, releases other) = (now < end) × (other ≢ who)
IsBystander who end (now, revokes) = ⊥

step_bystander :
    (rig : Rig) (l : Lease) (c : ℕ × LeaseCall)
    → rig.lease ≡ some l
    → IsBystander l.holder l.expires_at c
    → (lease_step rig c).lease ≡ some l
unfolding lease_step
step_bystander rig l (now, reads) e h = ground arith
step_bystander rig l (now, claims other force) e h = ground (arith, eq_iff l.holder other)
step_bystander rig l (now, releases other) e h = ground (arith, eq_iff l.holder other)
step_bystander rig l (now, revokes) e h = absurd h

-- While a lease runs, no sequence of reads, unforced claims by others and releases by others takes
-- it away or shortens it.
pub lease_run-bystanders :
    (rig : Rig) (l : Lease) (cs : List (ℕ × LeaseCall))
    → rig.lease ≡ some l
    → All (IsBystander l.holder l.expires_at) cs
    → (lease_run rig cs).lease ≡ some l
unfolding lease_run
lease_run-bystanders rig l [] e h = e
lease_run-bystanders rig l (c ∷ cs) e (h, hs) =
    lease_run-bystanders (lease_step rig c) l cs (step_bystander rig l c e h) hs
