-- ===== src/Hub/Lease/Ceiling.antt =====
-- The hard ceiling on the lease, and how long a lease can outlive its last renewal.
use eth_global_lisbon_2026_h.Base.{
  ℕ, ◌+◌, ◌≤◌, ◌≡◌, refl, Option, none, some, arith, List, [], ◌∷◌, All,
}
use eth_global_lisbon_2026_h.Hub.Rig.{Rig, Lease, lease_ms}
use eth_global_lisbon_2026_h.Hub.Lease.{
  lease_holder, LeaseCall, reads, claims, releases, revokes, lease_step, lease_run,
}

-- No lease, and a ceiling at `cap`.
pub record IsEnded (cap : ℕ) (rig : Rig) : Type 0 where
  pub free : rig.lease ≡ none
  pub ceiling : rig.lease_hard_expiry ≡ some cap

lease_step-IsEnded :
    (cap : ℕ) (rig : Rig) (c : ℕ × LeaseCall)
    → IsEnded cap rig
    → cap ≤ c.0
    → IsEnded cap (lease_step rig c)
unfolding lease_step
lease_step-IsEnded cap rig (now, reads) e h = ground arith
lease_step-IsEnded cap rig (now, claims who force) e h = ground arith
lease_step-IsEnded cap rig (now, releases who) e h = ground arith
lease_step-IsEnded cap rig (now, revokes) e h = ground arith

-- Once a rig's ceiling has passed and its lease is gone, no sequence of later calls, forced claims
-- included, gives anybody the seat.
pub lease_run-IsEnded :
    (cap : ℕ) (rig : Rig) (cs : List (ℕ × LeaseCall))
    → IsEnded cap rig
    → All (λ c. cap ≤ c.0) cs
    → IsEnded cap (lease_run rig cs)
unfolding lease_run
lease_run-IsEnded cap rig [] e h = e
lease_run-IsEnded cap rig (c ∷ cs) e (h, hs) =
    lease_run-IsEnded cap (lease_step rig c) cs (lease_step-IsEnded cap rig c e h) hs

-- The lease runs out by `by`.
abbrev pub EndsBy : ℕ → Option Lease → Type 0
EndsBy by none = Unit {0}
EndsBy by (some l) = l.expires_at ≤ by

lease_step-EndsBy :
    (by : ℕ) (rig : Rig) (c : ℕ × LeaseCall)
    → EndsBy (by + lease_ms) rig.lease
    → c.0 ≤ by
    → EndsBy (by + lease_ms) (lease_step rig c).lease
unfolding lease_step
lease_step-EndsBy by rig (now, reads) e h = ground arith
lease_step-EndsBy by rig (now, claims who force) e h = ground arith
lease_step-EndsBy by rig (now, releases who) e h = ground arith
lease_step-EndsBy by rig (now, revokes) e h = ground arith

lease_run-EndsBy :
    (by : ℕ) (rig : Rig) (cs : List (ℕ × LeaseCall))
    → EndsBy (by + lease_ms) rig.lease
    → All (λ c. c.0 ≤ by) cs
    → EndsBy (by + lease_ms) (lease_run rig cs).lease
unfolding lease_run
lease_run-EndsBy by rig [] e h = e
lease_run-EndsBy by rig (c ∷ cs) e (h, hs) =
    lease_run-EndsBy by (lease_step rig c) cs (lease_step-EndsBy by rig c e h) hs

holder_of_EndsBy :
    (now : ℕ) (rig : Rig) (o : Option Lease)
    → rig.lease ≡ o
    → EndsBy now o
    → (lease_holder now rig).1 ≡ none
unfolding lease_holder
holder_of_EndsBy now rig none e h = ground arith
holder_of_EndsBy now rig (some l) e h = ground arith

-- The seat frees itself: from a rig with no lease, over any calls, 20 s after the last of them
-- nobody holds it.
pub lease_expires :
    (by : ℕ) (rig : Rig) (cs : List (ℕ × LeaseCall))
    → rig.lease ≡ none
    → All (λ c. c.0 ≤ by) cs
    → (lease_holder (by + lease_ms) (lease_run rig cs)).1 ≡ none
lease_expires by rig cs e h =
    holder_of_EndsBy (by + lease_ms) (lease_run rig cs) (lease_run rig cs).lease refl
      (lease_run-EndsBy by rig cs (ground arith) h)
