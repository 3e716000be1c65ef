-- ===== src/Market/Enforce/Keeping.antt =====
-- What the clock of the slots keeps of the ledger.
use eth_global_lisbon_2026_h.Base.{
  ℕ, String, ◌≡◌, ◌⊎◌, inl, inr, refl, Bool, true, false, Option, none, some, List, [], ◌∷◌,
  Bool-cases, Option-cases, is_some, string_eq,
}
use eth_global_lisbon_2026_h.Hub.Rig.{Rig}
use eth_global_lisbon_2026_h.Hub.Registry.{get_rig, list_rigs}
use eth_global_lisbon_2026_h.Market.Row.{slot_expired}
use eth_global_lisbon_2026_h.Market.Ledger.{open_row_for}
use eth_global_lisbon_2026_h.Market.Ledger.Order.{IsOrdered}
use eth_global_lisbon_2026_h.Market.Ledger.Closing.{close_row-IsOrdered}
use eth_global_lisbon_2026_h.Market.Slots.{SlotView, live_slot, all_heads, mark_enforced, end_ms}
use eth_global_lisbon_2026_h.Market.Gate.{World}
use eth_global_lisbon_2026_h.Market.Enforce.{
  end_slot_on_rig, enforce_head, enforce_heads, enforce_rig, enforce_names, enforce_slots,
  set_ceiling, is_over,
}

heads-cases :
    (heads : List SlotView)
    → (heads ≡ []) ⊎ ((h : SlotView) × (hs : List SlotView) × (heads ≡ h ∷ hs))
heads-cases [] = inl refl
heads-cases (h ∷ hs) = inr (h, hs, refl)

end_slot-IsOrdered :
    (now : ℕ) (w : World) (name : String)
    → IsOrdered w.market
    → IsOrdered (end_slot_on_rig now w name).market
unfolding end_slot_on_rig
end_slot-IsOrdered now w name ok = elim (Option-cases (get_rig w.hub name)) [
  | inl gone ↦ rw (gone, end_slot_on_rig) ok
  | inr (rig, found) ↦ elim (Bool-cases (is_some (open_row_for w.market name))) [
    | inl recording ↦
        rw (found, end_slot_on_rig, recording)
          (close_row-IsOrdered now w.market name (some slot_expired) ok)
    | inr quiet ↦ rw (found, end_slot_on_rig, quiet) ok
  ]
]

enforce_head-IsOrdered :
    (now : ℕ) (w : World) (name : String) (head : SlotView)
    → IsOrdered w.market
    → IsOrdered (enforce_head now w name head).market
unfolding enforce_head
enforce_head-IsOrdered now w name head ok =
    let (mirror, first_time) = mark_enforced w.mirror head.slot_id in
    elim (Bool-cases (is_over now head)) [
      | inr runs ↦ rw (runs, enforce_head) ok
      | inl over ↦ elim (Bool-cases first_time) [
        | inl first ↦
            rw (over, enforce_head, first)
              (end_slot-IsOrdered now (record w { mirror = mirror }) name ok)
        | inr again ↦ rw (over, enforce_head, again) ok
      ]
    ]

enforce_heads-IsOrdered :
    (now : ℕ) (name : String) (heads : List SlotView) (w : World)
    → IsOrdered w.market
    → IsOrdered (enforce_heads now w name heads).market
unfolding enforce_heads
enforce_heads-IsOrdered now name [] w ok = ok
enforce_heads-IsOrdered now name (h ∷ hs) w ok =
    enforce_heads-IsOrdered now name hs _ (enforce_head-IsOrdered now w name h ok)

set_ceiling-market :
    (w : World) (name : String) (at : Option ℕ) → (set_ceiling w name at).market ≡ w.market
unfolding set_ceiling
set_ceiling-market w name at = elim (Option-cases (get_rig w.hub name)) [
  | inl gone ↦ rw (gone, set_ceiling) refl
  | inr (rig, found) ↦ rw (found, set_ceiling) refl
]

enforce_rig-IsOrdered :
    (now : ℕ) (w : World) (name : String)
    → IsOrdered w.market
    → IsOrdered (enforce_rig now w name).market
unfolding enforce_rig
enforce_rig-IsOrdered now w name ok = elim (Option-cases (live_slot now w.mirror name)) [
  | inl none_live ↦ elim (heads-cases (all_heads w.mirror name)) [
    | inl free ↦ rw (none_live, enforce_rig, free, set_ceiling-market w name none) ok
    | inr (h, hs, some_head) ↦
        rw (none_live, enforce_rig, some_head) (enforce_heads-IsOrdered now name (h ∷ hs) w ok)
  ]
  | inr (slot, live) ↦ rw (live, enforce_rig, set_ceiling-market w name (some (end_ms slot))) ok
]

enforce_names-IsOrdered :
    (now : ℕ) (rigs : List Rig) (w : World)
    → IsOrdered w.market
    → IsOrdered (enforce_names now w rigs).market
unfolding enforce_names
enforce_names-IsOrdered now [] w ok = ok
enforce_names-IsOrdered now (rig ∷ rigs) w ok =
    enforce_names-IsOrdered now rigs _ (enforce_rig-IsOrdered now w rig.name ok)

-- Enforcing the clock of every slot keeps the ledger in order.
pub enforce_slots-IsOrdered :
    (now : ℕ) (on : Bool) (w : World)
    → IsOrdered w.market
    → IsOrdered (enforce_slots now on w).market
unfolding enforce_slots
enforce_slots-IsOrdered now true w ok = enforce_names-IsOrdered now (list_rigs w.hub) w ok
enforce_slots-IsOrdered now false w ok = ok
