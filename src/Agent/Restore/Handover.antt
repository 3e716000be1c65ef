-- ===== src/Agent/Restore/Handover.antt =====
-- When the arm is handed back, and to which source.
use eth_global_lisbon_2026_h.Base.{
  ℕ, zero, suc, ◌+◌, ◌<◌, ◌≤◌, ◌≡◌, refl, ap, inl, inr, String, true, false, ◌&&◌, none, some,
  or_else, ltb, arith, Bool-cases, ◌==◌, string_eq, eq_iff,
}
use eth_global_lisbon_2026_h.Agent.Restore.{
  Rounds, Restorer, RestoreOutcome, armed, restore_tries, teardown_tries, recorder_over,
  wait_teardown, retargeted, try_arming, restore_loop, restore_teleop,
}

-- The target that stands before round `n`: the last that was set, or the source of the call.
unfoldable pub aimed : Rounds → String → ℕ → String
aimed r source zero = source
aimed r source (suc n) = or_else (r.set_in n) (aimed r source n)

aimed_next :
    (r : Rounds) (source : String) (i : ℕ)
    → aimed r source (i + 1) ≡ retargeted r i (aimed r source i)
unfolding aimed retargeted
aimed_next r source i = let next : i + 1 ≡ suc i = omega arith in rw next refl

-- The wait leaves in the first round in which the recorder is over.
wait_teardown-first :
    (left i k : ℕ) (r : Rounds) (source : String)
    → i ≤ k
    → k < i + left
    → recorder_over (r.polled k) ≡ true
    → ((j : ℕ) → j < k → recorder_over (r.polled j) ≡ false)
    → wait_teardown left i r (aimed r source i) ≡ (k, aimed r source k)
unfolding wait_teardown
wait_teardown-first zero i k r source from to over busy = absurd (omega (arith, from, to))
wait_teardown-first (suc left) i k r source from to over busy = elim (Bool-cases (ltb i k)) [
  | inl less ↦
      let not_yet = busy i (ground (arith, less)) in
      let rest =
        wait_teardown-first left (i + 1) k r source (ground (arith, less)) (omega (arith, to)) over
          busy in
      rw (not_yet, ← aimed_next r source i) rest
  | inr not_less ↦
      let same : i ≡ k = ground (arith, not_less, from) in
      let here : recorder_over (r.polled i) ≡ true = rw same over in
      rw here (ap (λ j. (j, aimed r source j)) same)
]

-- The loop ends armed in round `l`, which is `k` or later and no later than `m`, with the target that
-- stands before that round, which the robot takes.
abbrev pub ArmedBetween : Rounds → String → ℕ → ℕ → RestoreOutcome → Type 0
ArmedBetween r source k m out =
    (l : ℕ) × (k ≤ l)
    × (l ≤ m)
    × (out ≡ armed (aimed r source l))
    × (r.arms l (aimed r source l) ≡ true)

try_arming-armed :
    (left i m : ℕ) (r : Rounds) (source : String)
    → i ≤ m
    → m < i + left
    → r.arms m (aimed r source m) ≡ true
    → r.set_in m ≡ none
    → ArmedBetween r source i m (try_arming left i r (aimed r source i))
unfolding try_arming
try_arming-armed zero i m r source from to takes quiet = absurd (omega (arith, from, to))
try_arming-armed (suc left) i m r source from to takes quiet =
    let target = aimed r source i in
    elim (Bool-cases (r.arms i target && retargeted r i target == target)) [
      | inl now ↦ (i, omega arith, from, rw now refl, ground (arith, now))
      | inr later ↦
          let on : i + 1 ≤ m = elim (Bool-cases (ltb i m)) [
            | inl less ↦ ground (arith, less)
            | inr not_less ↦
                let same : i ≡ m = ground (arith, not_less, from) in
                let takes' : r.arms i target ≡ true = rw same takes in
                let quiet' : r.set_in i ≡ none = rw same quiet in
                absurd
                  (unfold retargeted in ground (arith, later, takes', quiet', eq_iff target target))
          ] in
          let (l, after, before, out, took) =
            try_arming-armed left (i + 1) m r source on (omega (arith, to)) takes quiet in
          (l, omega (arith, after), before, rw (later, ← aimed_next r source i) out, took)
    ]

-- The arm is handed back, and not before the recorder is over: from a restorer that is not at work,
-- where the first of its 240 polls that finds the recorder over is that of round `k`, and one of the 20
-- rounds from there is a round `m` in which the robot takes any source and nobody sets another
-- target, the loop ends armed, in a round from `k` to `m`, with a source that the robot then takes, the
-- last target that was set before that round or the source of the call; and the restorer is free
-- again.
pub restore_teleop_arms :
    (r : Rounds) (source : String) (s : Restorer) (k m : ℕ)
    → s.restoring ≡ false
    → k < teardown_tries
    → recorder_over (r.polled k) ≡ true
    → ((j : ℕ) → j < k → recorder_over (r.polled j) ≡ false)
    → k ≤ m
    → m < k + restore_tries
    → ((x : String) → r.arms m x ≡ true)
    → r.set_in m ≡ none
    → let (s', out) = restore_teleop r source s in
      (s'.restoring ≡ false)
      × (s'.target ≡ none)
      × ((o : RestoreOutcome) × (out ≡ some o) × ArmedBetween r source k m o)
unfolding restore_teleop restore_loop
restore_teleop_arms r source s k m free polls over busy from to takes quiet =
    let left : wait_teardown teardown_tries 0 r source ≡ (k, aimed r source k) =
      unfold aimed in
      wait_teardown-first teardown_tries 0 k r source (omega arith) (omega (arith, polls)) over
        busy in
    let done =
      try_arming-armed restore_tries k m r source from to (takes (aimed r source m)) quiet in
    rw free (refl, refl, (restore_loop r source, refl, rw left done))
