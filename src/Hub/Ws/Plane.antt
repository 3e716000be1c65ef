-- ===== src/Hub/Ws/Plane.antt =====
-- The socket registry, and the input plane beside the mailbox.
use eth_global_lisbon_2026_h.Base.{
  ℕ, ◌+◌, ◌<◌, String, true, false, Option, none, some, lookup, insert, lookup-insert, lookup-erase,
  ◌==◌, nat_eq, string_eq, option_eq, eq_iff, option_beq_iff, Option-cases, Bool-cases, arith, ◌≡◌,
  ◌≢◌, refl, sym, ap, ◌∙◌, inl, inr,
}
use eth_global_lisbon_2026_h.Hub.Rig.{Rig, Readings, websocket}
use eth_global_lisbon_2026_h.Hub.Odometer.{note_input_odometer}
use eth_global_lisbon_2026_h.Hub.Registry.{Hub, Leader, get_rig, get_leader}
use eth_global_lisbon_2026_h.Hub.Leaders.{leader_may_drive, note_leader_input}
use eth_global_lisbon_2026_h.Hub.Routes.Link.{link_down, fresh_input, input_ttl_ms}
use eth_global_lisbon_2026_h.Hub.Ws.{
  Sockets, open_socket, close_socket, Packet, message_gate, accepted, message_deliver, rig_socket,
  pushed, rig_in, with_joints,
}

-- A reconnect is safe in either order: when a name opens a second and different socket, the close
-- of the first, however late, leaves the second registered, and the close of the second leaves
-- none.
pub close_socket-open_socket :
    (sockets : Sockets) (name : String) (first second : ℕ)
    → first ≢ second
    → let registered = (open_socket (open_socket sockets name first).0 name second).0 in
      (lookup name (close_socket registered name first) ≡ some second)
      × (lookup name (close_socket registered name second) ≡ none)
unfolding open_socket close_socket
close_socket-open_socket sockets name first second differ = (
  ground
      (arith, differ, lookup-insert name name second (insert name first sockets), eq_iff name name),
  ground (
    arith,
    lookup-insert name name second (insert name first sockets),
    eq_iff name name,
    lookup-erase name name (insert name second (insert name first sockets)),
  ),
)

accepted_sound :
    (now : ℕ) (hub : Hub) (r : Option Rig) (l : Option Leader) (rig : Rig) (leader : Leader)
    → (accepted now hub r l).1 ≡ some (rig, leader)
    → (before : Rig) × (r ≡ some before)
      × (l ≡ some leader)
      × ((leader_may_drive now leader before).1 ≡ true)
      × (rig ≡ (leader_may_drive now leader before).0)
unfolding accepted
accepted_sound now hub none l rig leader h = ground arith
accepted_sound now hub (some before) none rig leader h = ground arith
accepted_sound now hub (some before) (some arm) rig leader h =
    elim (Bool-cases (leader_may_drive now arm before).1) [
      | inl may ↦
          let same : arm ≡ leader = ground (arith, may) in
          let to : (leader_may_drive now arm before).0 ≡ rig = ground (arith, may) in
          (before, refl, ground (arith, same), rw same at may, sym (rw same at to))
      | inr may_not ↦ ground (arith, may_not)
    ]

rig_in_sound :
    (hub : Hub) (o : Option String) (before : Rig)
    → rig_in hub o ≡ some before
    → (target : String) × (o ≡ some target) × (get_rig hub target ≡ some before)
unfolding rig_in
rig_in_sound hub none before h = ground arith
rig_in_sound hub (some name) before h = (name, refl, ground arith)

with_joints-some :
    (js joints : Readings) (o : Option (Rig × Leader)) (rig : Rig) (leader : Leader)
    → with_joints js o ≡ some (rig, leader, joints)
    → (o ≡ some (rig, leader)) × (js ≡ joints)
unfolding with_joints
with_joints-some js joints none rig leader h = ground arith
with_joints-some js joints (some (r, l)) rig leader h = (ground arith, ground arith)

gate_open :
    (now : ℕ) (hub : Hub) (name : String) (packet : Packet) (js : Readings) (rig : Rig)
    (leader : Leader) (joints : Readings)
    → packet.joints ≡ some js
    → (message_gate now hub name packet).1 ≡ some (rig, leader, joints)
    → (packet.t ≡ some "input")
      × (with_joints js (accepted now hub (rig_in hub packet.rig) (get_leader hub name)).1
          ≡ some (rig, leader, joints))
unfolding message_gate
gate_open now hub name packet js rig leader joints full h =
    elim (Bool-cases (packet.t == some "input")) [
      | inl is_input ↦
          ((option_beq_iff packet.t (some "input")).0 is_input, rw (is_input, full) at h)
      | inr is_not ↦ cc
    ]

gate_shut :
    (now : ℕ) (hub : Hub) (name : String) (packet : Packet)
    → packet.joints ≡ none
    → (message_gate now hub name packet).1 ≡ none
unfolding message_gate
gate_shut now hub name packet empty = ground (arith, empty)

-- A packet that is let through names a rig and a leader that the hub knows, and the leader may
-- drive that rig by the rule of the HTTP route.
pub message_gate_sound :
    (now : ℕ) (hub : Hub) (name : String) (packet : Packet) (rig : Rig) (leader : Leader)
    (joints : Readings)
    → (message_gate now hub name packet).1 ≡ some (rig, leader, joints)
    → (target : String) × (before : Rig) × (packet.t ≡ some "input")
      × (packet.rig ≡ some target)
      × (packet.joints ≡ some joints)
      × (get_rig hub target ≡ some before)
      × (get_leader hub name ≡ some leader)
      × ((leader_may_drive now leader before).1 ≡ true)
      × (rig ≡ (leader_may_drive now leader before).0)
message_gate_sound now hub name packet rig leader joints h = elim (Option-cases packet.joints) [
  | inl empty ↦ let shut = gate_shut now hub name packet empty in cc
  | inr (js, full) ↦
      let (input, joined) = gate_open now hub name packet js rig leader joints full h in
      let (found, same) =
        with_joints-some js joints
          (accepted now hub (rig_in hub packet.rig) (get_leader hub name)).1 rig leader joined in
      let (before, r, l, may, to) =
        accepted_sound now hub (rig_in hub packet.rig) (get_leader hub name) rig leader found in
      let (target, named, at) = rig_in_sound hub packet.rig before r in
      (target, before, input, named, full ∙ ap some same, at, l, may, to)
]

-- A packet that is not dropped is in the mailbox whether or not it was pushed over the rig's socket:
-- a link tick in the next 500 ms hands it over as well. The odometer moves only where it was not
-- pushed.
pub message_deliver-mailbox :
    (now later : ℕ) (sockets : Sockets) (leader : Leader) (joints : Readings) (sent_at : Option ℕ)
    (rig : Rig)
    → later < now + input_ttl_ms
    → let (rig', push) = message_deliver now sockets leader joints sent_at false rig in
      ((link_down later rig').1.input
        ≡ some (record { axes = none; joints = some joints; at = now; sent_at = sent_at }))
      × (rig'.input_odo ≡ (elim push [
        | some p ↦ rig.input_odo
        | none ↦ (note_input_odometer rig (record { axes = none; joints = some joints })).input_odo
      ]))
unfolding message_deliver link_down fresh_input
message_deliver-mailbox now later sockets leader joints sent_at rig soon =
    elim (Option-cases
      (rig_socket now sockets (note_leader_input now rig leader.name websocket joints false))) [
        | inl no_socket ↦
            unfold pushed note_input_odometer note_leader_input in ground (arith, no_socket, soon)
        | inr (ws, at) ↦ unfold pushed note_leader_input in ground (arith, at, soon)
      ]
