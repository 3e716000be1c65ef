-- ===== src/Agent/Tests.antt =====
-- Runs of the rig's services on small inputs: an attempt, the arm handed back, and a task.
use eth_global_lisbon_2026_h.Base.{
  ◌<◌, ◌≡◌, refl, String, string_eq, true, false, nat_eq, none, some, [], ◌∷◌, ◌++◌, is_some, List,
  ℕ, arith, pos, negsuc, find, answer, ◌==◌, ltb, if◌then◌else◌,
}
use eth_global_lisbon_2026_h.Hub.Rig.{TaskInfo, RecordStatus, EpisodeMotion}
use eth_global_lisbon_2026_h.Agent.Attempts.{
  Desk, Current, StartInput, start_attempt, start_task, begin_attempt, remember_source, begun_desk,
  task_of, is_complete, kept_episodes, dataset_of, appended, success, tick_attempt, close_attempt,
  closed_desk, note_measured, to_state, log_row, abandoned, discard, hand_back, finish_attempt,
  finish_recording,
}
use eth_global_lisbon_2026_h.Agent.Attempts.Counting.{
  Event, finishes, ticks, on_events, on_event, begun, accounted, on_events-accounted,
}
use eth_global_lisbon_2026_h.Agent.Attempts.Ending.{IsEnd, acts, attempt_ends_once}
use eth_global_lisbon_2026_h.Agent.Attempts.Gone.{watch, gone_operator_ends}
use eth_global_lisbon_2026_h.Agent.Attempts.Measured.{
  reads, read_of, is_after_baseline, late_measurement_misplaced,
}
use eth_global_lisbon_2026_h.Agent.Attempts.Starting.{Explains, start_attempt-Explains}
use eth_global_lisbon_2026_h.Agent.Attempts.Source.{source_of, chosen_source_kept}
use eth_global_lisbon_2026_h.Agent.Restore.{
  Rounds, Restorer, RestoreOutcome, armed, recorder_over, wait_teardown, try_arming, retargeted,
  restore_loop, restore_teleop,
}
use eth_global_lisbon_2026_h.Agent.Restore.Handover.{ArmedBetween, restore_teleop_arms}
use eth_global_lisbon_2026_h.Agent.Tasks.{
  cleaned, upsert_task, put_task, load_tasks, file_after, free_repo_name, free_from, generation,
  clamp, repo_name_for,
}
use eth_global_lisbon_2026_h.Agent.Tasks.Finding.{find_task, upsert_task-find}
use eth_global_lisbon_2026_h.Agent.Tasks.Bounds.{IsTidy, upsert_task-IsTidy}

abbrev task : TaskInfo
task = record {
  id = "t1";
  title = "stack";
  instructions = "stack the cubes";
  repo_name = "poh_stack";
  episode_seconds = 30;
  reset_seconds = 5;
  max_episodes = some 5;
  active = true;
  episodes_done = none;
}

abbrev idle : RecordStatus
idle = record {
  active = false;
  phase = "idle";
  episode = 0;
  saved = 0;
  total = 0;
  repo_id = none;
  source = none;
}

abbrev recording : RecordStatus
recording = record idle { active = true; phase = "recording" }

abbrev desk : Desk
desk = record {
  current = none;
  last_episode = none;
  episode_baseline = negsuc 0;
  chosen_source = some "leader";
  log = [];
  watching = true;
}

-- Four of the six episodes will ship, of five that the task wants.
abbrev request : StartInput
request = record {
  task_id = "t1";
  operator = "ann";
  rejected_episodes = pos 2;
  status = idle;
  tasks = task ∷ [];
  datasets = record { repo_name = "poh_stack"; is_local = true; total_episodes = some 6 } ∷ [];
  live_source = none;
  started = answer true;
  latest_index = pos 5;
  new_id = "a1";
  started_at = "now";
  now = 1000;
}

abbrev cur : Current
cur = record {
  attempt_id = "a1";
  task = task;
  operator = "ann";
  prior_source = "leader";
  started_at = "now";
  started_at_ms = 1000;
  holder_gone_since = none;
}

abbrev busy : Desk
busy = record desk { current = some cur; episode_baseline = pos 5 }

granted : (start_attempt request desk).1 ≡ none
unfolding start_attempt start_task begin_attempt task_of is_complete kept_episodes dataset_of find
granted = refl

started-busy : (start_attempt request desk).0 ≡ busy
unfolding start_attempt start_task begin_attempt remember_source begun_desk task_of is_complete
    kept_episodes dataset_of find
started-busy = refl

abbrev events : List Event
events =
    finishes appended true recording (answer true) ∷ ticks appended 90000 idle (some "ann") ∷ []

on_events-accounted_example :
    accounted (on_events events busy) ≡ accounted busy ++ begun events busy
on_events-accounted_example = on_events-accounted events busy (refl, (refl, tt))

finish-ends : (acts (finishes appended true recording (answer true)) busy).0.current ≡ none
unfolding acts finish_attempt finish_recording close_attempt closed_desk
finish-ends = refl

attempt_ends_once_example :
    IsEnd appended success cur busy (acts (finishes appended true recording (answer true)) busy)
attempt_ends_once_example =
    attempt_ends_once (finishes appended true recording (answer true)) busy cur refl finish-ends

abbrev absent : List (ℕ × RecordStatus)
absent = (11000, recording) ∷ (40000, recording) ∷ []

gone_operator_ends_example :
    let (waited, quiet) = watch appended ((10000, recording) ∷ absent) busy in
    let (desk', deeds) =
      watch appended ((10000, recording) ∷ (absent ++ (40001, recording) ∷ [])) busy in
    (is_some waited.current ≡ true)
    × (quiet ≡ [])
    × (desk'.current ≡ none)
    × (desk'.log ≡ log_row cur abandoned ∷ [])
    × (deeds ≡ discard ∷ hand_back "leader" ∷ [])
gone_operator_ends_example =
    gone_operator_ends busy cur 10000 40001 recording recording absent refl refl refl refl
      ((refl, omega arith), ((refl, omega arith), tt)) refl (omega arith)

start_attempt-Explains_example :
    let (desk', error, deeds) = start_attempt request desk in
    Explains request desk error desk' deeds
start_attempt-Explains_example = start_attempt-Explains request desk

chosen_source_kept_example :
    source_of (start_attempt request (on_events events busy)).0 ≡ some "leader"
unfolding on_events on_event finish_attempt finish_recording close_attempt closed_desk tick_attempt
    start_attempt start_task begin_attempt task_of is_complete kept_episodes dataset_of find
chosen_source_kept_example =
    chosen_source_kept events request busy "leader" refl (refl, (refl, tt)) refl refl

-- The recorder ends at the third poll; the robot takes the leader at its second try.
abbrev motion : EpisodeMotion
motion = record {
  episode_index = 6;
  frames = 900;
  duration_s = 30000;
  joint_path_deg = 400000;
  max_joint_range_deg = 90000;
  gripper_cycles = 2;
  still_fraction = 100;
}

-- The next attempt begins once episode 6 is in the dataset.
abbrev next_request : StartInput
next_request = record request { new_id = "a2"; latest_index = pos 6; rejected_episodes = pos 3 }

finished-over : (finish_attempt appended true recording (answer true) busy).0.current ≡ none
unfolding finish_attempt finish_recording close_attempt closed_desk
finished-over = refl

finished-next :
    (start_attempt next_request (finish_attempt appended true recording (answer true) busy).0).1
    ≡ none
unfolding start_attempt start_task begin_attempt task_of is_complete kept_episodes dataset_of find
    finish_attempt finish_recording close_attempt closed_desk
finished-next = refl

late_measurement_misplaced_example :
    let (desk', _, deeds) = finish_attempt appended true recording (answer true) busy in
    let m = read_of busy cur motion in
    let desk'' = note_measured m (start_attempt next_request desk').0 in
    (reads deeds ≡ ("poh_stack", pos 5) ∷ [])
    × ((to_state desk'').attempt_id ≡ some "a2")
    × ((to_state desk'').last_episode ≡ some motion)
    × (is_after_baseline desk'' motion ≡ false)
late_measurement_misplaced_example =
    late_measurement_misplaced appended recording (answer true) busy cur next_request motion refl
      finished-over finished-next refl

-- The recorder is over in round 2, and the robot takes a source from round 4 on.
abbrev rounds : Rounds
rounds = record {
  polled = λ i. if ltb i 2 then some recording else some idle;
  arms = λ i s. ltb 3 i;
  set_in = λ i. if i == 3 then some "keys" else none;
}

abbrev restorer : Restorer
restorer = record { restoring = false; target = none }

handed_back : restore_loop rounds "leader" ≡ armed "keys"
unfolding restore_loop wait_teardown try_arming retargeted
handed_back = refl

still_recording : (j : ℕ) → j < 2 → recorder_over (rounds.polled j) ≡ false
still_recording j early = ground (arith, early)

restore_teleop_arms_example :
    let (s', out) = restore_teleop rounds "leader" restorer in
    (s'.restoring ≡ false)
    × (s'.target ≡ none)
    × ((o : RestoreOutcome) × (out ≡ some o) × ArmedBetween rounds "leader" 2 4 o)
restore_teleop_arms_example =
    restore_teleop_arms rounds "leader" restorer 2 4 refl (omega arith) refl still_recording
      (omega arith) (omega arith) (λ x. refl) refl

abbrev fresh_task : TaskInfo
fresh_task = record task { id = ""; repo_name = "" }

abbrev episodes : String → ℕ
episodes name = if name == "poh_stack" then 6 else 0

upsert_task-find_example :
    find_task "t2"
      (put_task (cleaned "t2" episodes "poh_stack" fresh_task) (load_tasks (task ∷ [])))
    ≡ some (cleaned "t2" episodes "poh_stack" fresh_task)
unfolding cleaned repo_name_for free_repo_name free_from generation clamp
upsert_task-find_example =
    upsert_task-find true "t2" episodes "poh_stack" fresh_task (task ∷ [])
      (put_task (cleaned "t2" episodes "poh_stack" fresh_task) (load_tasks (task ∷ [])))
      (cleaned "t2" episodes "poh_stack" fresh_task) "t2"
      (unfold upsert_task put_task load_tasks in refl)

-- The name of the old dataset is taken, so that the new task gets its second generation.
second_generation : free_repo_name episodes "poh_stack" ≡ "poh_stack_v2"
unfolding free_repo_name free_from generation
second_generation = refl

task-IsTidy : IsTidy (task ∷ [])
task-IsTidy = (omega arith, ((omega arith, omega arith), tt))

upsert_task-IsTidy_example :
    IsTidy
      (file_after (upsert_task true "t2" episodes "poh_stack" fresh_task (task ∷ [])) (task ∷ []))
upsert_task-IsTidy_example =
    upsert_task-IsTidy true "t2" episodes "poh_stack" fresh_task (task ∷ []) task-IsTidy
