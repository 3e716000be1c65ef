-- ===== src/Hub/Lease.antt =====
-- The single-writer lease of a rig: `leaseHolder`, `claimLease`, `revokeLease` and `releaseLease`
-- of apps/web/src/hub/store.ts. Each call reads the clock once, as the argument `now`.
pub mod Laws
pub mod Ceiling
use eth_global_lisbon_2026_h.Base.{
  ℕ, ◌+◌, min, String, Bool, true, false, not, ◌&&◌, Option, none, some, leb, ltb, ◌==◌, string_eq,
  option_eq, is_some, if◌then◌else◌, List, [], ◌∷◌,
}
use eth_global_lisbon_2026_h.Hub.Rig.{Rig, Lease, lease_ms}

lease_live : ℕ → Option Lease → Bool
lease_live now none = false
lease_live now (some l) = ltb now l.expires_at

holder_of : Option Lease → Option String
holder_of none = none
holder_of (some l) = some l.holder

-- Reading the holder clears a lease that has run out.
unfoldable pub lease_holder : ℕ → Rig → Rig × Option String
unfolding lease_live holder_of
lease_holder now rig =
    if lease_live now rig.lease
    then (rig, holder_of rig.lease)
    else (record rig { lease = none }, none)

-- `Math.min(at, cap)`, where no cap is infinity.
abbrev pub capped : ℕ → Option ℕ → ℕ
capped at none = at
capped at (some cap) = min at cap

unfoldable pub claim_lease : ℕ → Rig → String → Bool → Rig × Bool
unfolding lease_holder
claim_lease now rig holder force =
    let (rig', current) = lease_holder now rig in
    if not force && (is_some current && not (current == some holder))
    then (rig', false)
    else (let expires_at = capped (now + lease_ms) rig'.lease_hard_expiry in
        if leb expires_at now then (rig', false) else (
          record rig' { lease = some (record { holder = holder; expires_at = expires_at }) },
          true,
        ))

unfoldable pub revoke_lease : Rig → Rig
revoke_lease rig = record rig { lease = none }

unfoldable pub release_lease : ℕ → Rig → String → Rig
unfolding lease_holder
release_lease now rig holder =
    let (rig', current) = lease_holder now rig in
    if current == some holder then record rig' { lease = none } else rig'

-- The calls that touch the lease, from the HTTP routes, the market gate and the settlement worker.
pub data LeaseCall : Type 0 where
  reads : LeaseCall
  claims : String → Bool → LeaseCall
  releases : String → LeaseCall
  revokes : LeaseCall

unfoldable pub lease_step : Rig → ℕ × LeaseCall → Rig
unfolding lease_holder claim_lease release_lease revoke_lease
lease_step rig (now, reads) = (lease_holder now rig).0
lease_step rig (now, claims who force) = (claim_lease now rig who force).0
lease_step rig (now, releases who) = release_lease now rig who
lease_step rig (now, revokes) = revoke_lease rig

unfoldable pub lease_run : Rig → List (ℕ × LeaseCall) → Rig
lease_run rig [] = rig
lease_run rig (c ∷ cs) = lease_run (lease_step rig c) cs
