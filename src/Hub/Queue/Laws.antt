-- ===== src/Hub/Queue/Laws.antt =====
-- What the command queue promises over any sequence of offers and drains.
use mathlib.Core.List.Sublist
use mathlib.Core.List.{Sublist, append_assoc, append-nil, map-append, sublist-append_left}
use eth_global_lisbon_2026_h.Base.{
  ℕ, ◌+◌, ◌≤◌, ◌<◌, ◌≡◌, refl, Bool, List, [], ◌∷◌, ◌++◌, map, arith, length, length-append, filter,
  All, All-append, Bool-cases, inl, inr,
}
use eth_global_lisbon_2026_h.Hub.Rig.{Rig, RigCommand, command_ttl_ms, max_pending}
use eth_global_lisbon_2026_h.Hub.Queue.{
  is_fresh, has_room, QueueCall, offers, drains, queue_step, queue_run,
}

filter-Sublist : (p : RigCommand → Bool) (cs : List RigCommand) → Sublist (filter p cs) cs
unfolding filter
filter-Sublist p [] = Sublist.refl []
filter-Sublist p (c ∷ cs) = elim (Bool-cases (p c)) [
  | inl keep ↦ rw keep (Sublist.cons-cons c (filter-Sublist p cs))
  | inr drop ↦ rw drop (Sublist.cons c (filter-Sublist p cs))
]

abbrev pub commands : List (ℕ × RigCommand) → List RigCommand
commands = map (λ d. d.1)

abbrev pub offer : QueueCall → List RigCommand
offer (offers c) = c ∷ []
offer drains = []

abbrev pub offered : List (ℕ × QueueCall) → List RigCommand
offered [] = []
offered (c ∷ cs) = offer c.1 ++ offered cs

commands-stamp : (now : ℕ) (cs : List RigCommand) → commands (map (λ c. (now, c)) cs) ≡ cs
commands-stamp now [] = refl
commands-stamp now (c ∷ cs) = rw (commands-stamp now cs)

queue_step-Sublist :
    (rig : Rig) (c : ℕ × QueueCall)
    → Sublist
        (commands (queue_step rig c).1 ++ (queue_step rig c).0.pending)
        (rig.pending ++ offer c.1)
unfolding queue_step
queue_step-Sublist rig (now, offers c) = elim (Bool-cases (has_room rig)) [
  | inl room ↦ rw room (Sublist.refl _)
  | inr full ↦ rw full (sublist-append_left rig.pending (c ∷ []))
]
queue_step-Sublist rig (now, drains) =
    simp (append-nil, commands-stamp now) (filter-Sublist (is_fresh now) rig.pending)

-- Commands reach the rig in the order in which they were offered and each at most once: what is
-- delivered, followed by what still waits, is a sublist of what was pending and then offered.
pub queue_run-Sublist :
    (rig : Rig) (cs : List (ℕ × QueueCall))
    → Sublist
        (commands (queue_run rig cs).1 ++ (queue_run rig cs).0.pending)
        (rig.pending ++ offered cs)
unfolding queue_run
queue_run-Sublist rig [] = rw append-nil (Sublist.refl rig.pending)
queue_run-Sublist rig (c ∷ cs) =
    let rig' = (queue_step rig c).0 in
    let out = commands (queue_step rig c).1 in
    simp (map-append, append_assoc)
      (Sublist.trans (Sublist.append (Sublist.refl out) (queue_run-Sublist rig' cs)) (
        rw (← append_assoc out, ← append_assoc rig.pending)
          (Sublist.append (queue_step-Sublist rig c) (Sublist.refl (offered cs)))))

-- A delivery made within 15 s of the queueing.
abbrev pub IsPrompt : ℕ × RigCommand → Type 0
IsPrompt (now, c) = now < c.queued_at + command_ttl_ms

stamped-IsPrompt :
    (now : ℕ) (cs : List RigCommand) → All IsPrompt (map (λ c. (now, c)) (filter (is_fresh now) cs))
unfolding filter
stamped-IsPrompt now [] = tt
stamped-IsPrompt now (c ∷ cs) = elim (Bool-cases (is_fresh now c)) [
  | inl fresh ↦ rw fresh (ground arith, stamped-IsPrompt now cs)
  | inr stale ↦ rw stale (stamped-IsPrompt now cs)
]

queue_step-IsPrompt : (rig : Rig) (c : ℕ × QueueCall) → All IsPrompt (queue_step rig c).1
unfolding queue_step
queue_step-IsPrompt rig (now, offers c) = tt
queue_step-IsPrompt rig (now, drains) = stamped-IsPrompt now rig.pending

-- No command is delivered 15 s or more after it was queued.
pub queue_run-IsPrompt : (rig : Rig) (cs : List (ℕ × QueueCall)) → All IsPrompt (queue_run rig cs).1
unfolding queue_run
queue_run-IsPrompt rig [] = tt
queue_run-IsPrompt rig (c ∷ cs) =
    All-append IsPrompt (queue_step rig c).1 (queue_run (queue_step rig c).0 cs).1
      (queue_step-IsPrompt rig c) (queue_run-IsPrompt (queue_step rig c).0 cs)

queue_step-bounded :
    (rig : Rig) (c : ℕ × QueueCall)
    → length rig.pending ≤ max_pending
    → length (queue_step rig c).0.pending ≤ max_pending
unfolding queue_step
queue_step-bounded rig (now, offers c) h = ground (arith, length-append rig.pending (c ∷ []))
queue_step-bounded rig (now, drains) h = ground arith

-- A queue within 32 commands stays within 32, over any offers of one command and any drains.
pub queue_run-bounded :
    (rig : Rig) (cs : List (ℕ × QueueCall))
    → length rig.pending ≤ max_pending
    → length (queue_run rig cs).0.pending ≤ max_pending
unfolding queue_run
queue_run-bounded rig [] h = h
queue_run-bounded rig (c ∷ cs) h =
    queue_run-bounded (queue_step rig c).0 cs (queue_step-bounded rig c h)
