-- ===== src/Hub/Routes/Input/Authority.antt =====
-- Who may write to the mailbox of a rig, and what that does to the lease.
use eth_global_lisbon_2026_h.Base.{
  ℕ, ◌+◌, ◌<◌, String, Option, none, some, string_eq, option_eq, option_beq_iff, arith, ◌≡◌, refl,
  ◌⊎◌, inl, inr, ◌↔◌, Option-cases,
}
use eth_global_lisbon_2026_h.Hub.Rig.{Rig, lease_ms}
use eth_global_lisbon_2026_h.Hub.Lease.{lease_holder, claim_lease, capped}
use eth_global_lisbon_2026_h.Hub.Registry.{Hub, Leader, get_leader}
use eth_global_lisbon_2026_h.Hub.Lease.Laws.{IsHeldBy, lease_holder_iff}
use eth_global_lisbon_2026_h.Hub.Leaders.{leader_may_drive}
use eth_global_lisbon_2026_h.Hub.Leaders.Binding.{leader_may_drive_iff}
use eth_global_lisbon_2026_h.Hub.Routes.Input.{input_gate, strip_prefix, device_of}

-- The client id is that of a leader arm that the hub knows.
abbrev pub IsLeader : Hub → String → Leader → Type 0
IsLeader hub client leader =
    (name : String) × (strip_prefix "leader-" client ≡ some name)
    × (get_leader hub name ≡ some leader)

-- The binding of a leader arm stands for this rig, and its browser has the lease.
abbrev pub IsBound : ℕ → Leader → Rig → Type 0
IsBound now leader rig =
    (who : String) × (leader.rig ≡ some rig.name)
    × (leader.bound_to ≡ some who)
    × IsHeldBy now rig who

device-IsLeader :
    (hub : Hub) (client : String) (leader : Leader)
    → device_of hub client ≡ some leader
    → IsLeader hub client leader
unfolding device_of
device-IsLeader hub client leader e = elim (Option-cases (strip_prefix "leader-" client)) [
  | inl other ↦ ground (arith, other, e)
  | inr (name, named) ↦ (name, named, ground (arith, named, e))
]

leader-device :
    (hub : Hub) (client : String) (leader : Leader)
    → IsLeader hub client leader
    → device_of hub client ≡ some leader
unfolding device_of
leader-device hub client leader (name, named, known) = ground (arith, named, known)

gate_sound :
    (now : ℕ) (hub : Hub) (rig : Rig) (client : String) (device : Option Leader)
    → device_of hub client ≡ device
    → (input_gate now device rig client).1 ≡ none
    → ((leader : Leader) × IsLeader hub client leader × IsBound now leader rig)
      ⊎ ((device_of hub client ≡ none) × IsHeldBy now rig client)
unfolding input_gate
gate_sound now hub rig client (some leader) e h = inl (
  leader,
  device-IsLeader hub client leader e,
  (leader_may_drive_iff now leader rig).0 (ground (arith, h)),
)
gate_sound now hub rig client none e h =
    let held : (lease_holder now rig).1 ≡ some client =
      ground (arith, h, option_beq_iff (lease_holder now rig).1 (some client)) in
    inr (e, (lease_holder_iff now rig client).0 held)

gate_complete :
    (now : ℕ) (hub : Hub) (rig : Rig) (client : String)
    → ((leader : Leader) × IsLeader hub client leader × IsBound now leader rig)
      ⊎ ((device_of hub client ≡ none) × IsHeldBy now rig client)
    → (input_gate now (device_of hub client) rig client).1 ≡ none
unfolding input_gate
gate_complete now hub rig client (inl (leader, known, bound)) =
    let may = (leader_may_drive_iff now leader rig).1 bound in
    rw (leader-device hub client leader known) (ground (arith, may))
gate_complete now hub rig client (inr (e, held)) =
    let h = (lease_holder_iff now rig client).1 held in
    rw e (ground (arith, h, option_beq_iff (lease_holder now rig).1 (some client)))

-- Who may write to the mailbox of a rig: an input is let through exactly where the client id names a
-- leader arm that the hub knows, which is bound to this rig and to a browser whose lease of it runs;
-- or where it names no known leader arm, and the client's own lease of the rig runs.
pub input_gate_iff :
    (now : ℕ) (hub : Hub) (rig : Rig) (client : String)
    → ((input_gate now (device_of hub client) rig client).1 ≡ none) ↔ (
        ((leader : Leader) × IsLeader hub client leader × IsBound now leader rig)
        ⊎ ((device_of hub client ≡ none) × IsHeldBy now rig client))
input_gate_iff now hub rig client =
    (gate_sound now hub rig client (device_of hub client) refl, gate_complete now hub rig client)

-- An input that is let through changes no lease but the sender's own: a leader arm can only clear a
-- lease that has run out, and never renews one.
pub input_gate-leader_keeps :
    (now : ℕ) (leader : Leader) (rig : Rig) (client : String)
    → ((input_gate now (some leader) rig client).0 ≡ rig)
      ⊎ ((input_gate now (some leader) rig client).0 ≡ (lease_holder now rig).0)
unfolding input_gate leader_may_drive
input_gate-leader_keeps now leader rig client = ground arith

-- The input of the holder renews the lease to 20 s from now, or to the rig's ceiling if that is
-- earlier; a ceiling that has passed renews nothing.
pub input_gate_renews :
    (now : ℕ) (rig : Rig) (client : String)
    → (lease_holder now rig).1 ≡ some client
    → now < capped (now + lease_ms) rig.lease_hard_expiry
    → (input_gate now none rig client).0.lease
      ≡ some
          (record { holder = client; expires_at = capped (now + lease_ms) rig.lease_hard_expiry })
unfolding input_gate claim_lease lease_holder
input_gate_renews now rig client held early =
    ground (arith, held, early, option_beq_iff (lease_holder now rig).1 (some client))
