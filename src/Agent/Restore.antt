-- ===== src/Agent/Restore.antt =====
-- Handing the arm back: `restoreTeleop` of apps/web/src/api/services/attempts.ts. What the recorder and
-- the robot answer, and which targets other callers set meanwhile, are functions of the round of the
-- loop. The two loops have the rounds that the source gives them.
pub mod Handover
use eth_global_lisbon_2026_h.Base.{
  ℕ, zero, suc, ◌+◌, String, Bool, true, false, not, ◌&&◌, Option, none, some, or_else, ◌==◌,
  string_eq, if◌then◌else◌,
}
use eth_global_lisbon_2026_h.Hub.Rig.{RecordStatus}

abbrev pub restore_tries : ℕ
restore_tries = 20

abbrev pub teardown_tries : ℕ
teardown_tries = 240

-- The half seconds of a loop are its rounds, counted over both of its parts: the recorder's status in
-- a round, or nothing where the read failed; whether the robot takes this source in a round; and the
-- target that a later caller sets in it.
pub record Rounds : Type 0 where
  pub polled : ℕ → Option RecordStatus
  pub arms : ℕ → String → Bool
  pub set_in : ℕ → Option String

-- `restoring` and `restoreTarget`
pub record Restorer : Type 0 where
  pub restoring : Bool
  pub target : Option String

pub data RestoreOutcome : Type 0 where
  armed : String → RestoreOutcome
  gave_up : String → RestoreOutcome

-- `status !== null && !status.active`
abbrev pub recorder_over : Option RecordStatus → Bool
recorder_over none = false
recorder_over (some status) = not status.active

-- The target after a round. It is never cleared while the loop runs.
unfoldable pub retargeted : Rounds → ℕ → String → String
retargeted r i target = or_else (r.set_in i) target

-- The first part, from round `i` with so many to go: the round that it leaves at, and the target by
-- then. It leaves a round in which the recorder is over without a pause.
unfoldable pub wait_teardown : ℕ → ℕ → Rounds → String → ℕ × String
unfolding retargeted
wait_teardown zero i r target = (i, target)
wait_teardown (suc left) i r target =
    let later = wait_teardown left (i + 1) r (retargeted r i target) in
    if recorder_over (r.polled i) then (i, target) else later

-- The second part: a source that the robot took stands unless another was set meanwhile.
unfoldable pub try_arming : ℕ → ℕ → Rounds → String → RestoreOutcome
unfolding retargeted
try_arming zero i r target = gave_up target
try_arming (suc left) i r target =
    let target' = retargeted r i target in
    let later = try_arming left (i + 1) r target' in
    if r.arms i target && target' == target then armed target else later

-- The whole loop: the tries are counted from the round in which the recorder is over, or from the end
-- of the wait.
unfoldable pub restore_loop : Rounds → String → RestoreOutcome
unfolding wait_teardown try_arming
restore_loop r source =
    let (i, target) = wait_teardown teardown_tries 0 r source in try_arming restore_tries i r target

-- A call while the loop runs only sets its target. Otherwise the loop runs to its end, and what comes
-- of it is the outcome.
unfoldable pub restore_teleop : Rounds → String → Restorer → Restorer × Option RestoreOutcome
unfolding restore_loop
restore_teleop r source s =
    if s.restoring
    then (record s { target = some source }, none)
    else (record { restoring = false; target = none }, some (restore_loop r source))
