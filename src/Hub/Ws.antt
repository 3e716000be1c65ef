-- ===== src/Hub/Ws.antt =====
-- The input plane over sockets: apps/web/src/hub/ws.ts. A socket is known by a number; the two
-- registries keep one socket for each name. `message` awaits `impair()`, so it is two functions.
pub mod Plane
use eth_global_lisbon_2026_h.Base.{
  ℕ, String, Bool, true, false, Option, none, some, List, [], lookup, insert, erase, ◌==◌, nat_eq,
  string_eq, option_eq, if◌then◌else◌,
}
use eth_global_lisbon_2026_h.Hub.Rig.{Rig, RigInput, Readings, websocket}
use eth_global_lisbon_2026_h.Hub.Odometer.{note_input_odometer}
use eth_global_lisbon_2026_h.Hub.Registry.{Hub, Leader, get_rig, get_leader, put_rig, is_online}
use eth_global_lisbon_2026_h.Hub.Leaders.{leader_may_drive, note_leader_input}

-- The sockets of one role.
abbrev pub Sockets : Type 0
Sockets = List (String × ℕ)

replaced : ℕ → Option ℕ → Option ℕ
replaced ws none = none
replaced ws (some previous) = if previous == ws then none else some previous

-- The socket takes the place of the one that the name had, which is given back to be closed.
unfoldable pub open_socket : Sockets → String → ℕ → Sockets × Option ℕ
unfolding replaced
open_socket sockets name ws = (insert name ws sockets, replaced ws (lookup name sockets))

-- A socket that was replaced takes nothing away.
unfoldable pub close_socket : Sockets → String → ℕ → Sockets
close_socket sockets name ws =
    if lookup name sockets == some ws then erase name sockets else sockets

-- A packet as it is parsed: `t` is "input" and the rig and the joints are there.
pub record Packet : Type 0 where
  pub t : Option String
  pub rig : Option String
  pub joints : Option Readings
  pub sent_at : Option ℕ

accepted : ℕ → Hub → Option Rig → Option Leader → Hub × Option (Rig × Leader)
unfolding leader_may_drive put_rig
accepted now hub (some rig) (some leader) =
    let (rig', may) = leader_may_drive now leader rig in
    (put_rig hub rig', if may then some (rig', leader) else none)
accepted now hub _ _ = (hub, none)

rig_in : Hub → Option String → Option Rig
unfolding get_rig
rig_in hub none = none
rig_in hub (some name) = if name == "" then none else get_rig hub name

with_joints : Readings → Option (Rig × Leader) → Option (Rig × Leader × Readings)
with_joints joints none = none
with_joints joints (some (rig, leader)) = some (rig, leader, joints)

-- `message` before `impair()`, on a packet from the leader of that name.
unfoldable pub message_gate : ℕ → Hub → String → Packet → Hub × Option (Rig × Leader × Readings)
unfolding accepted rig_in with_joints get_leader
message_gate now hub name packet =
    if packet.t == some "input"
    then (elim packet.joints [
      | none ↦ (hub, none)
      | some joints ↦
          let (hub', found) = accepted now hub (rig_in hub packet.rig) (get_leader hub name) in
          (hub', with_joints joints found)
    ])
    else (hub, none)

-- What goes over the rig's socket.
pub record Push : Type 0 where
  pub socket : ℕ
  pub joints : Readings
  pub at : ℕ
  pub sent_at : Option ℕ

-- A socket counts only while the rig's link says that it is alive.
rig_socket : ℕ → Sockets → Rig → Option ℕ
unfolding is_online
rig_socket now sockets rig = if is_online now rig then lookup rig.name sockets else none

-- A rig with a socket gets the packet pushed; the odometer is moved only where there is none.
pushed : ℕ → Option ℕ → Readings → Option ℕ → Rig → Rig × Option Push
unfolding note_input_odometer
pushed now (some ws) joints sent_at rig =
    (rig, some (record { socket = ws; joints = joints; at = now; sent_at = sent_at }))
pushed now none joints sent_at rig =
    (note_input_odometer rig (record { axes = none; joints = some joints }), none)

-- `message` after `impair()`. The mailbox is written in both cases.
unfoldable pub message_deliver :
    ℕ → Sockets → Leader → Readings → Option ℕ → Bool → Rig → Rig × Option Push
unfolding note_leader_input rig_socket pushed
message_deliver now sockets leader joints sent_at dropped rig =
    let noted = note_leader_input now rig leader.name websocket joints dropped in
    if dropped
    then (noted, none)
    else (let (rig', push) = pushed now (rig_socket now sockets noted) joints sent_at noted in
        (
          record rig' {
            input =
                some (record { axes = none; joints = some joints; at = now; sent_at = sent_at });
          },
          push,
        ))
