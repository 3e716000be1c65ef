-- ===== src/Market/Enforce.antt =====
-- The clock of a slot: `enforceSlots` and `endSlotOnRig` of apps/web/src/market/worker.ts. The sampler
-- of a closed row is stopped too; samplers stand in Market/Sampler, apart from the ledger.
pub mod Lockout
pub mod Keeping
use eth_global_lisbon_2026_h.Base.{
  ℕ, ◌+◌, ◌*◌, String, Bool, true, false, not, ◌&&◌, ◌||◌, Option, none, some, List, [], ◌∷◌, ◌++◌,
  leb, length, is_some, if◌then◌else◌, Fields, field, end, bool,
}
use eth_global_lisbon_2026_h.Hub.Rig.{Rig, RigCommand, max_pending}
use eth_global_lisbon_2026_h.Hub.Lease.{lease_holder, revoke_lease}
use eth_global_lisbon_2026_h.Hub.Queue.{push_commands}
use eth_global_lisbon_2026_h.Hub.Registry.{Hub, get_rig, put_rig, list_rigs}
use eth_global_lisbon_2026_h.Market.Row.{LedgerRow, Market, slot_expired}
use eth_global_lisbon_2026_h.Market.Ledger.{open_row_for, close_row}
use eth_global_lisbon_2026_h.Market.Slots.{
  SlotView, Mirror, live_slot, all_heads, mark_enforced, is_running, is_voided, end_ms,
}
use eth_global_lisbon_2026_h.Market.Gate.{World}

finish_command : ℕ → Option String → RigCommand
finish_command now holder = record {
  verb = "attempt_finish";
  args = some (field "success" (bool false) end);
  owner_key = none;
  holder = holder;
  queued_at = now;
}

stop_command : ℕ → Option String → RigCommand
stop_command now holder = record {
  verb = "teleop_stop";
  args = none;
  owner_key = none;
  holder = holder;
  queued_at = now;
}

-- What ends the slot on the rig: the recorder first, if an attempt was open, then the arm.
unfoldable pub end_commands : ℕ → Option String → Bool → List RigCommand
unfolding finish_command stop_command
end_commands now holder recording =
    if recording
    then finish_command now holder ∷ stop_command now holder ∷ []
    else stop_command now holder ∷ []

-- The rig's half: both commands only where two fit, then the lease goes and its ceiling is now.
unfoldable pub cut_off : ℕ → Bool → Rig → Rig
unfolding end_commands push_commands lease_holder revoke_lease
cut_off now recording rig =
    let (rig', holder) = lease_holder now rig in
    let told =
      if leb (length rig'.pending + 2) max_pending
      then push_commands rig' (end_commands now holder recording)
      else rig' in
    record (revoke_lease told) { lease_hard_expiry = some now }

unfoldable pub end_slot_on_rig : ℕ → World → String → World
unfolding cut_off get_rig put_rig open_row_for close_row
end_slot_on_rig now w name = elim (get_rig w.hub name) [
  | none ↦ w
  | some rig ↦
      let recording = is_some (open_row_for w.market name) in
      record w {
        hub = put_rig w.hub (cut_off now recording rig);
        market =
            if recording then (close_row now w.market name (some slot_expired)).0 else w.market;
      }
]

-- Whether the clock of a slot has run out, or a third strike has voided it.
abbrev pub is_over : ℕ → SlotView → Bool
is_over now head = (is_running head.status && leb (end_ms head) now) || is_voided head.status

unfoldable pub enforce_head : ℕ → World → String → SlotView → World
unfolding mark_enforced end_slot_on_rig
enforce_head now w name head =
    if not (is_over now head)
    then w
    else (let (mirror, first_time) = mark_enforced w.mirror head.slot_id in
        let w' = record w { mirror = mirror } in
        if first_time then end_slot_on_rig now w' name else w')

unfoldable pub enforce_heads : ℕ → World → String → List SlotView → World
unfolding enforce_head
enforce_heads now w name [] = w
enforce_heads now w name (h ∷ hs) = enforce_heads now (enforce_head now w name h) name hs

set_ceiling : World → String → Option ℕ → World
unfolding get_rig put_rig
set_ceiling w name at = elim (get_rig w.hub name) [
  | none ↦ w
  | some rig ↦ record w { hub = put_rig w.hub (record rig { lease_hard_expiry = at }) }
]

-- One rig: the ceiling of a live slot is its end, a rig with no slot has none, and otherwise every
-- slot that is over is ended once.
unfoldable pub enforce_rig : ℕ → World → String → World
unfolding live_slot all_heads enforce_heads set_ceiling
enforce_rig now w name = elim (live_slot now w.mirror name) [
  | some live ↦ set_ceiling w name (some (end_ms live))
  | none ↦ elim (all_heads w.mirror name) [
    | [] ↦ set_ceiling w name none
    | h ∷ hs ↦ enforce_heads now w name (h ∷ hs)
  ]
]

enforce_names : ℕ → World → List Rig → World
unfolding enforce_rig
enforce_names now w [] = w
enforce_names now w (rig ∷ rigs) = enforce_names now (enforce_rig now w rig.name) rigs

-- `slots_on` is `SLOTS.configured`.
unfoldable pub enforce_slots : ℕ → Bool → World → World
unfolding enforce_names list_rigs
enforce_slots now slots_on w = if slots_on then enforce_names now w (list_rigs w.hub) else w
