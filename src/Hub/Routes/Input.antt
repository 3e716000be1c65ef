-- ===== src/Hub/Routes/Input.antt =====
-- POST /rigs/:name/input of apps/web/src/hub/routes.ts: who may write to the mailbox of a rig, and
-- what an input that was let through does after `impair()`. `dropped` is what `shouldDrop()` gives.
pub mod Authority
use eth_global_lisbon_2026_h.Base.{
  ℕ, String, Bool, true, false, Option, none, some, List, [], ◌==◌, nat_eq, string_eq, option_eq,
  if◌then◌else◌, or_else,
}
use Prim.Native.Char.{code}
use eth_global_lisbon_2026_h.Hub.Rig.{Rig, RigInput, Readings, http}
use eth_global_lisbon_2026_h.Hub.Lease.{lease_holder, claim_lease}
use eth_global_lisbon_2026_h.Hub.Odometer.{OperatorInput, note_input_odometer}
use eth_global_lisbon_2026_h.Hub.Registry.{Hub, Leader, get_leader}
use eth_global_lisbon_2026_h.Hub.Leaders.{leader_may_drive, note_leader_input}
use eth_global_lisbon_2026_h.Hub.Routes.Reply.{Refusal, not_bound, not_the_controller, RigBody}

-- `s.startsWith(p)` with `s.slice(p.length)`
unfoldable pub strip_prefix : String → String → Option String
strip_prefix String.[] s = some s
strip_prefix (String.◌∷◌ c p) String.[] = none
strip_prefix (String.◌∷◌ c p) (String.◌∷◌ d s) = if code c == code d then strip_prefix p s else none

-- The leader arm that a client id names, where the hub knows it.
unfoldable pub device_of : Hub → String → Option Leader
unfolding strip_prefix get_leader
device_of hub client = elim (strip_prefix "leader-" client) [
  | none ↦ none
  | some name ↦ get_leader hub name
]

-- The part of the handler before `impair()`. A leader arm must be bound to the holder, and renews
-- nothing; any other client must be the holder, and renews its lease.
unfoldable pub input_gate : ℕ → Option Leader → Rig → String → Rig × Option Refusal
unfolding leader_may_drive lease_holder claim_lease
input_gate now (some leader) rig client =
    let (rig', may) = leader_may_drive now leader rig in
    (rig', if may then none else some not_bound)
input_gate now none rig client =
    let (rig', holder) = lease_holder now rig in
    if holder == some client
    then ((claim_lease now rig' client false).0, none)
    else (rig', some not_the_controller)

unfoldable pub note_device : ℕ → Option Leader → RigBody → Bool → Rig → Rig
unfolding note_leader_input
note_device now (some leader) body dropped rig = elim body.joints [
  | some joints ↦ note_leader_input now rig leader.name http joints dropped
  | none ↦ rig
]
note_device now none body dropped rig = rig

-- What the mailbox then holds.
unfoldable pub mailbox_entry : ℕ → RigBody → RigInput
mailbox_entry now body = elim body.joints [
  | some joints ↦ record { axes = none; joints = some joints; at = now; sent_at = body.sent_at }
  | none ↦ record { axes = some (or_else body.axes []); joints = none; at = now; sent_at = none }
]

-- The part of the handler after `impair()`.
unfoldable pub input_deliver : ℕ → Option Leader → RigBody → Bool → Rig → Rig
unfolding note_device mailbox_entry note_input_odometer
input_deliver now device body dropped rig =
    let rig' = note_device now device body dropped rig in
    if dropped
    then rig'
    else record (note_input_odometer rig' (record { axes = body.axes; joints = body.joints })) {
      input = some (mailbox_entry now body);
    }
