-- ===== src/Market/Enforce/Lockout.antt =====
-- What the end of a slot does to the lease, the queue and the ledger.
use eth_global_lisbon_2026_h.Base.{
  ℕ, ◌+◌, ◌≤◌, String, Bool, none, some, List, ◌++◌, length, All, lookup, string_eq, if◌then◌else◌,
  arith, ◌≡◌, refl, ◌∙◌, leb,
}
use eth_global_lisbon_2026_h.Hub.Rig.{Rig, max_pending}
use eth_global_lisbon_2026_h.Hub.Lease.{lease_holder, revoke_lease, LeaseCall, lease_run}
use eth_global_lisbon_2026_h.Hub.Lease.Ceiling.{IsEnded, lease_run-IsEnded}
use eth_global_lisbon_2026_h.Hub.Queue.{push_commands}
use eth_global_lisbon_2026_h.Hub.Registry.{get_rig}
use eth_global_lisbon_2026_h.Market.Row.{LedgerRow, id_eq, slot_expired, closed}
use eth_global_lisbon_2026_h.Market.Ledger.{open_row_for, close_row}
use eth_global_lisbon_2026_h.Market.Ledger.Order.{IsOrdered}
use eth_global_lisbon_2026_h.Market.Ledger.Closing.{close_row-IsOrdered, close_row_ends}
use eth_global_lisbon_2026_h.Market.Gate.{World}
use eth_global_lisbon_2026_h.Market.Enforce.{end_commands, cut_off, end_slot_on_rig}

cut_off-IsEnded : (now : ℕ) (recording : Bool) (rig : Rig) → IsEnded now (cut_off now recording rig)
unfolding cut_off revoke_lease
cut_off-IsEnded now recording rig = record { free = refl; ceiling = refl }

-- After the end of a slot, no sequence of later calls on the rig's lease, forced claims included,
-- gives anyone the arm. The calls do not move the ceiling, as the worker does when a next slot
-- runs.
pub cut_off-locks :
    (now later : ℕ) (recording : Bool) (rig : Rig) (cs : List (ℕ × LeaseCall))
    → All (λ c. now ≤ c.0) cs
    → (lease_holder later (lease_run (cut_off now recording rig) cs)).1 ≡ none
unfolding lease_holder
cut_off-locks now later recording rig cs h =
    let ended =
      lease_run-IsEnded now (cut_off now recording rig) cs (cut_off-IsEnded now recording rig) h in
    ground (arith, ended.free)

-- The end of a slot tells the recorder to finish, where an attempt was open, and then the arm to
-- stop, and it is told both whenever the queue has room for two; else it is told neither.
pub cut_off-pending :
    (now : ℕ) (recording : Bool) (rig : Rig)
    → (cut_off now recording rig).pending ≡ (
        if leb (length rig.pending + 2) max_pending
        then rig.pending ++ end_commands now (lease_holder now rig).1 recording
        else rig.pending)
unfolding cut_off push_commands lease_holder revoke_lease
cut_off-pending now recording rig = ground arith

ended_market :
    (now : ℕ) (w : World) (name : String) (rig : Rig) (row : LedgerRow)
    → get_rig w.hub name ≡ some rig
    → open_row_for w.market name ≡ some row
    → (end_slot_on_rig now w name).market ≡ (close_row now w.market name (some slot_expired)).0
unfolding end_slot_on_rig
ended_market now w name rig row found recording = ground (arith, found, recording)

-- With the ledger in order, the end of a slot on a known rig closes the attempt that was open on
-- it as cut off by the clock, and leaves the rig with no open attempt and the ledger in order.
pub end_slot_on_rig-closes :
    (now : ℕ) (w : World) (name : String) (rig : Rig) (row : LedgerRow)
    → IsOrdered w.market
    → get_rig w.hub name ≡ some rig
    → open_row_for w.market name ≡ some row
    → let w' = end_slot_on_rig now w name in
      (IsOrdered w'.market)
      × (open_row_for w'.market name ≡ none)
      × (lookup row.id w'.market.rows
          ≡ some
              (record row { claimed = some slot_expired; status = closed; closed_at = some now }))
end_slot_on_rig-closes now w name rig row ok found recording =
    let ends = close_row_ends now w.market name (some slot_expired) row ok recording in
    let kept = close_row-IsOrdered now w.market name (some slot_expired) ok in
    let same = ended_market now w name rig row found recording in
    rw same (kept, ends.3, ends.1 ∙ ends.0)
