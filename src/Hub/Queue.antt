-- ===== src/Hub/Queue.antt =====
-- The command queue of a rig: `drainCommands` of apps/web/src/hub/store.ts, and the bounded push
-- that the routes of apps/web/src/hub/routes.ts make.
pub mod Laws
use eth_global_lisbon_2026_h.Base.{
  ℕ, ◌+◌, Bool, List, [], ◌∷◌, ◌++◌, ltb, filter, length, if◌then◌else◌, map,
}
use eth_global_lisbon_2026_h.Hub.Rig.{Rig, RigCommand, command_ttl_ms, max_pending}

-- `now - c.queuedAt < COMMAND_TTL_MS`, which also holds of a stamp in the future.
abbrev pub is_fresh : ℕ → RigCommand → Bool
is_fresh now c = ltb now (c.queued_at + command_ttl_ms)

-- Empties the queue, and gives the commands that are still fresh, in order.
unfoldable pub drain_commands : ℕ → Rig → Rig × List RigCommand
drain_commands now rig = (record rig { pending = [] }, filter (is_fresh now) rig.pending)

unfoldable pub push_commands : Rig → List RigCommand → Rig
push_commands rig cs = record rig { pending = rig.pending ++ cs }

-- `rig.pending.length >= MAX_PENDING` answered by false
unfoldable pub has_room : Rig → Bool
has_room rig = ltb (length rig.pending) max_pending

-- The calls on a queue: a route offers a command, and the rig's link tick drains.
pub data QueueCall : Type 0 where
  offers : RigCommand → QueueCall
  drains : QueueCall

-- What a call delivers, each command with the time of delivery.
unfoldable pub queue_step : Rig → ℕ × QueueCall → Rig × List (ℕ × RigCommand)
unfolding drain_commands push_commands has_room
queue_step rig (now, offers c) = (if has_room rig then push_commands rig (c ∷ []) else rig, [])
queue_step rig (now, drains) =
    let (rig', fresh) = drain_commands now rig in (rig', map (λ c. (now, c)) fresh)

unfoldable pub queue_run : Rig → List (ℕ × QueueCall) → Rig × List (ℕ × RigCommand)
queue_run rig [] = (rig, [])
queue_run rig (c ∷ cs) =
    let (rig', out) = queue_step rig c in
    let (rig'', later) = queue_run rig' cs in (rig'', out ++ later)
