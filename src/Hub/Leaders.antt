-- ===== src/Hub/Leaders.antt =====
-- Operator-side leader arms: the second half of apps/web/src/hub/store.ts.
pub mod Binding
use eth_global_lisbon_2026_h.Base.{
  ℕ, ◌+◌, String, Bool, true, false, not, ◌&&◌, Option, none, some, ltb, or_maybe, is_some, ◌==◌,
  string_eq, option_eq, if◌then◌else◌,
}
use eth_global_lisbon_2026_h.Hub.Rig.{
  Rig, LeaderInputDebug, Readings, Transport, rig_ttl_ms, command_ttl_ms,
}
use eth_global_lisbon_2026_h.Hub.Lease.{lease_holder}
use eth_global_lisbon_2026_h.Hub.Registry.{
  Hub, Leader, LeaderCommand, get_rig, put_rig, get_leader, put_leader,
}

new_leader : ℕ → String → Option String → Leader
new_leader now name driving = record {
  name = name;
  driving = driving;
  bound_to = none;
  rig = none;
  pending = none;
  last_seen = now;
}

heard_leader : ℕ → String → Option String → Option Leader → Leader
unfolding new_leader
heard_leader now name driving none = new_leader now name driving
heard_leader now name driving (some l) = record l { driving = driving; last_seen = now }

unfoldable pub upsert_leader : ℕ → Hub → String → Option String → Hub × Leader
unfolding heard_leader get_leader put_leader
upsert_leader now hub name driving =
    let leader = heard_leader now name driving (get_leader hub name) in
    (put_leader hub leader, leader)

unfoldable pub leader_online : ℕ → Leader → Bool
leader_online now leader = ltb now (leader.last_seen + rig_ttl_ms)

packets_before : String → Option LeaderInputDebug → ℕ
packets_before leader none = 0
packets_before leader (some d) = if d.leader == leader then d.packets else 0

unfoldable pub note_leader_input : ℕ → Rig → String → Transport → Readings → Bool → Rig
unfolding packets_before
note_leader_input now rig leader transport joints dropped = record rig {
  leader_input_debug = some (record {
    leader = leader;
    transport = transport;
    joints = joints;
    at = now;
    packets = packets_before leader rig.leader_input_debug + 1;
    dropped = dropped;
  });
}

unfoldable pub clear_leader_input_debug : Rig → Rig
clear_leader_input_debug rig = record rig { leader_input_debug = none }

-- A leader may write to a rig if it is bound to the holder of the rig's lease. The lease is read,
-- and so cleared if it ran out, only where the two tests before it pass.
unfoldable pub leader_may_drive : ℕ → Leader → Rig → Rig × Bool
unfolding lease_holder
leader_may_drive now leader rig =
    if leader.rig == some rig.name && is_some leader.bound_to
    then (let (rig', holder) = lease_holder now rig in (rig', leader.bound_to == holder))
    else (rig, false)

may_drive_at : ℕ → Hub → Leader → Option Rig → Hub × Bool
unfolding leader_may_drive put_rig
may_drive_at now hub leader none = (hub, false)
may_drive_at now hub leader (some rig) =
    let (rig', may) = leader_may_drive now leader rig in (put_rig hub rig', may)

bound_at : ℕ → Hub → Leader → Option String → Hub × Bool
unfolding may_drive_at get_rig
bound_at now hub leader none = (hub, false)
bound_at now hub leader (some name) =
    if is_some leader.bound_to then may_drive_at now hub leader (get_rig hub name) else (hub, false)

-- `driving ?? leader.rig` is the rig that is asked about.
unfoldable pub leader_bound : ℕ → Hub → Leader → Option String → Hub × Bool
unfolding bound_at
leader_bound now hub leader driving = bound_at now hub leader (or_maybe driving leader.rig)

debugs : String → Option LeaderInputDebug → Bool
debugs name none = false
debugs name (some d) = d.leader == name

clear_debug_of : String → Hub → Option Rig → Hub
unfolding debugs clear_leader_input_debug put_rig
clear_debug_of name hub none = hub
clear_debug_of name hub (some rig) =
    if debugs name rig.leader_input_debug then put_rig hub (clear_leader_input_debug rig) else hub

rig_of : Hub → Leader → Option Rig
unfolding get_rig
rig_of hub leader = elim leader.rig [ none ↦ none | some name ↦ get_rig hub name ]

unbind : Hub → Leader → Hub × Leader
unfolding clear_debug_of rig_of put_leader
unbind hub leader =
    let leader' = record leader { bound_to = none; rig = none } in
    (put_leader (clear_debug_of leader.name hub (rig_of hub leader)) leader', leader')

-- Drops a binding that no longer authorises input.
unfoldable pub prune_leader_binding : ℕ → Hub → Leader → Hub × Leader
unfolding leader_bound unbind
prune_leader_binding now hub leader =
    if is_some leader.bound_to
    then (let (hub', bound) = leader_bound now hub leader none in
        if bound then (hub', leader) else unbind hub' leader)
    else (hub, leader)

fresh_command : ℕ → Option LeaderCommand → Option LeaderCommand
fresh_command now none = none
fresh_command now (some c) = if ltb now (c.queued_at + command_ttl_ms) then some c else none

-- Consume-once, with the staleness rule of the rig commands.
unfoldable pub take_leader_command : ℕ → Leader → Leader × Option LeaderCommand
unfolding fresh_command
take_leader_command now leader =
    (record leader { pending = none }, fresh_command now leader.pending)
