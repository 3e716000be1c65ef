-- ===== src/Hub/Leaders/Binding.antt =====
-- Who may drive through a leader arm, and pruned bindings.
use eth_global_lisbon_2026_h.Base.{
  ℕ, String, ◌≡◌, ◌↔◌, ◌⊎◌, inl, inr, refl, true, false, Option, none, some, arith, eq_iff,
  string_eq, option_eq, Option-cases, Bool-cases, or_maybe,
}
use eth_global_lisbon_2026_h.Hub.Rig.{Rig}
use eth_global_lisbon_2026_h.Hub.Lease.{lease_holder}
use eth_global_lisbon_2026_h.Hub.Lease.Laws.{IsHeldBy, lease_holder_iff}
use eth_global_lisbon_2026_h.Hub.Registry.{Hub, Leader, get_rig}
use eth_global_lisbon_2026_h.Hub.Leaders.{
  leader_may_drive, may_drive_at, bound_at, leader_bound, unbind, prune_leader_binding,
}

may_sound :
    (now : ℕ) (leader : Leader) (rig : Rig) (at bound : Option String)
    → leader.rig ≡ at
    → leader.bound_to ≡ bound
    → (leader_may_drive now leader rig).1 ≡ true
    → (who : String) × (leader.rig ≡ some rig.name)
      × (leader.bound_to ≡ some who)
      × ((lease_holder now rig).1 ≡ some who)
unfolding leader_may_drive
may_sound now leader rig none bound e b h = ground arith
may_sound now leader rig (some r) none e b h = ground arith
may_sound now leader rig (some r) (some who) e b h = elim (Option-cases (lease_holder now rig).1) [
  | inl free ↦ ground arith
  | inr (x, held) ↦ (who, ground (arith, eq_iff r rig.name), b, ground (arith, eq_iff who x))
]

-- A leader may drive a rig exactly when it is bound to that rig and to a browser whose lease of it
-- runs.
pub leader_may_drive_iff :
    (now : ℕ) (leader : Leader) (rig : Rig)
    → ((leader_may_drive now leader rig).1 ≡ true) ↔ (
        (who : String) × (leader.rig ≡ some rig.name)
        × (leader.bound_to ≡ some who)
        × IsHeldBy now rig who)
unfolding leader_may_drive
leader_may_drive_iff now leader rig = (
  λ may.
      let (who, r, b, h) = may_sound now leader rig leader.rig leader.bound_to refl refl may in
      (who, r, b, (lease_holder_iff now rig who).0 h),
  λ (who, r, b, held).
      let h = (lease_holder_iff now rig who).1 held in
      ground (arith, eq_iff rig.name rig.name, eq_iff who who, r, b, h),
)

-- A leader without a binding may drive nothing.
unbound_may_not :
    (now : ℕ) (leader : Leader) (rig : Rig)
    → leader.bound_to ≡ none
    → (leader_may_drive now leader rig).1 ≡ false
unfolding leader_may_drive
unbound_may_not now leader rig e = ground arith

unbind-bound_to : (hub : Hub) (leader : Leader) → (unbind hub leader).1.bound_to ≡ none
unfolding unbind
unbind-bound_to hub leader = refl

-- Pruning leaves a leader that the hub says is bound as it was, and any other without a binding.
prune-cases :
    (now : ℕ) (hub : Hub) (leader : Leader)
    → (((leader_bound now hub leader none).1 ≡ true)
        × ((prune_leader_binding now hub leader).1 ≡ leader))
      ⊎ ((prune_leader_binding now hub leader).1.bound_to ≡ none)
unfolding prune_leader_binding
prune-cases now hub leader = elim (Option-cases leader.bound_to) [
  | inl e ↦ inr (ground arith)
  | inr (who, e) ↦ elim (Bool-cases (leader_bound now hub leader none).1) [
    | inl bound ↦ inl (bound, ground arith)
    | inr lost ↦ inr (ground (arith, unbind-bound_to (leader_bound now hub leader none).0 leader))
  ]
]

-- A binding that has stopped authorising input cannot be revived: once it is pruned, the leader
-- may drive no rig, at any later time, whoever takes the lease, until it is bound anew.
pub prune_leader_binding-final :
    (now later : ℕ) (hub : Hub) (leader : Leader) (rig : Rig)
    → (leader_bound now hub leader none).1 ≡ false
    → (leader_may_drive later (prune_leader_binding now hub leader).1 rig).1 ≡ false
prune_leader_binding-final now later hub leader rig lost = elim (prune-cases now hub leader) [
  | inl (bound, same) ↦ cc
  | inr free ↦ unbound_may_not later (prune_leader_binding now hub leader).1 rig free
]

-- The heartbeat's answer is about the rig that the agent says it drives: it is yes only where that
-- rig is known and the leader may drive it.
pub leader_bound_sound :
    (now : ℕ) (hub : Hub) (leader : Leader) (driving : Option String)
    → (leader_bound now hub leader driving).1 ≡ true
    → (name : String) × (rig : Rig) × (or_maybe driving leader.rig ≡ some name)
      × (get_rig hub name ≡ some rig)
      × ((leader_may_drive now leader rig).1 ≡ true)
unfolding leader_bound bound_at may_drive_at
leader_bound_sound now hub leader driving h = elim (Option-cases (or_maybe driving leader.rig)) [
  | inl e ↦ ground arith
  | inr (name, e) ↦ elim (Option-cases (get_rig hub name)) [
    | inl missing ↦ ground arith
    | inr (rig, found) ↦ (name, rig, e, found, ground arith)
  ]
]
