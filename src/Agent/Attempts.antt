-- ===== src/Agent/Attempts.antt =====
-- One operator try at a task is one recorded episode: apps/web/src/api/services/attempts.ts. What the
-- recorder, the robot, the task list and the disk answer is an argument, the calls that the service
-- makes are part of the result, and ids and times are arguments.
pub mod Counting
pub mod Ending
pub mod Gone
pub mod Measured
pub mod Source
pub mod Starting
use eth_global_lisbon_2026_h.Base.{
  ℕ, ◌+◌, ◌-◌, ℤ, negsuc, pos_part, String, Bool, true, false, not, ◌&&◌, ◌||◌, Option, none, some,
  List, [], ◌∷◌, ◌++◌, find, ltb, leb, or_else, or_maybe, is_some, ◌==◌, string_eq, if◌then◌else◌,
  Answer, answer, thrown,
}
use eth_global_lisbon_2026_h.Hub.Rig.{TaskInfo, RecordStatus, EpisodeMotion, AttemptState}

abbrev pub abandon_after_ms : ℕ
abandon_after_ms = 30000

abbrev pub spinup_grace_ms : ℕ
spinup_grace_ms = 8000

pub record Current : Type 0 where
  pub attempt_id : String
  pub task : TaskInfo
  pub operator : String
  pub prior_source : String
  pub started_at : String
  pub started_at_ms : ℕ
  pub holder_gone_since : Option ℕ

pub data AttemptOutcome : Type 0 where
  success discarded timeout abandoned failed : AttemptOutcome

-- The end's own time, the repository's owner and the texts of the task are left out.
pub record AttemptLogRow : Type 0 where
  pub id : String
  pub task_id : String
  pub operator : String
  pub outcome : AttemptOutcome
  pub started_at : String

-- The variables of the service, its log file, and whether the watcher runs: its fiber ends with the
-- first tick that dies. The baseline is -1 where the task has no episode.
pub record Desk : Type 0 where
  pub current : Option Current
  pub last_episode : Option EpisodeMotion
  pub episode_baseline : ℤ
  pub chosen_source : Option String
  pub log : List AttemptLogRow
  pub watching : Bool

-- What one recording is asked to be; it always has one episode.
pub record RecordStart : Type 0 where
  pub repo_name : String
  pub task : String
  pub num_episodes : ℕ
  pub episode_s : ℕ
  pub reset_s : ℕ
  pub resume : Bool
  pub source : String

-- The calls that the service makes: of the recorder, of the measurement of the saved episode, which
-- runs on its own, and of the loop that hands the arm back.
pub data Deed : Type 0 where
  record_start : RecordStart → Deed
  keep discard : Deed
  measure : String → ℤ → Deed
  hand_back : String → Deed

unfoldable pub to_state : Desk → AttemptState
to_state desk = elim desk.current [
  | none ↦ record {
    active = false;
    attempt_id = none;
    task_id = none;
    task_title = none;
    operator = none;
    episode_seconds = none;
    started_at = none;
    last_episode = desk.last_episode;
  }
  | some cur ↦ record {
    active = true;
    attempt_id = some cur.attempt_id;
    task_id = some cur.task.id;
    task_title = some cur.task.title;
    operator = some cur.operator;
    episode_seconds = some cur.task.episode_seconds;
    started_at = some cur.started_at;
    last_episode = desk.last_episode;
  }
]

abbrev pub is_failed : AttemptOutcome → Bool
is_failed failed = true
is_failed _ = false

unfoldable pub log_row : Current → AttemptOutcome → AttemptLogRow
log_row cur outcome = record {
  id = cur.attempt_id;
  task_id = cur.task.id;
  operator = cur.operator;
  outcome = outcome;
  started_at = cur.started_at;
}

-- What becomes of a row for the log: the file is read and written; the file cannot be read, which is
-- taken for an empty log, and is written; what was read is no log, or the write fails, and then
-- `appendLog` dies. A write that fails is taken to leave the file as it was.
pub data LogWrite : Type 0 where
  appended unread garbled unwritten : LogWrite

unfoldable pub append_log : LogWrite → AttemptLogRow → List AttemptLogRow → List AttemptLogRow
append_log appended row rows = rows ++ row ∷ []
append_log unread row rows = row ∷ []
append_log garbled row rows = rows
append_log unwritten row rows = rows

abbrev pub dies : LogWrite → Bool
dies appended = false
dies unread = false
dies garbled = true
dies unwritten = true

unfoldable pub closed_desk : LogWrite → Desk → Current → AttemptOutcome → Desk
unfolding log_row append_log
closed_desk w desk cur outcome = record desk {
  current = none;
  log = append_log w (log_row cur outcome) desk.log;
}

-- The arm goes back to the operator's source, except after a failure of the driver. Where the log
-- died the attempt is over all the same, and nothing more is done.
unfoldable pub close_attempt : LogWrite → Desk → AttemptOutcome → Desk × List Deed
unfolding closed_desk
close_attempt w desk outcome = elim desk.current [
  | none ↦ (desk, [])
  | some cur ↦ (
    closed_desk w desk cur outcome,
    if dies w || is_failed outcome then [] else hand_back cur.prior_source ∷ [],
  )
]

-- The watcher closes an attempt that runs, and dies with the log.
unfoldable pub watched_close : LogWrite → Desk → AttemptOutcome → Desk × List Deed
unfolding close_attempt
watched_close w desk outcome =
    let (desk', deeds) = close_attempt w desk outcome in
    (record desk' { watching = not (dies w) }, deeds)

abbrev pub then_close : List Deed → Desk × List Deed → Desk × List Deed
then_close deeds (desk, more) = (desk, deeds ++ more)

abbrev pub measure_of : Desk → Current → Deed
measure_of desk cur = measure cur.task.repo_name desk.episode_baseline

unfoldable pub set_gone : Desk → Current → Option ℕ → Desk
set_gone desk cur since = record desk { current = some (record cur { holder_gone_since = since }) }

-- A session that is over, or that has not begun.
unfoldable pub tick_idle : LogWrite → ℕ → RecordStatus → Desk → Current → Desk × List Deed
unfolding watched_close
tick_idle w now status desk cur =
    if status.phase == "failed"
    then watched_close w desk failed
    else if ltb now (cur.started_at_ms + spinup_grace_ms)
    then (desk, [])
    else then_close (if status.phase == "done" then measure_of desk cur ∷ [] else [])
        (watched_close w desk (if status.phase == "idle" then failed else timeout))

-- The discard of the recorder may throw, and is not heard.
unfoldable pub tick_active : LogWrite → ℕ → Option String → Desk → Current → Desk × List Deed
unfolding watched_close set_gone
tick_active w now holder desk cur = elim holder [
  | some _ ↦ (set_gone desk cur none, [])
  | none ↦
      let since = or_else cur.holder_gone_since now in
      let desk' = set_gone desk cur (some since) in
      if ltb (since + abandon_after_ms) now
      then then_close (discard ∷ []) (watched_close w desk' abandoned)
      else (desk', [])
]

-- The watcher's second, if the watcher runs.
unfoldable pub tick_attempt : LogWrite → ℕ → RecordStatus → Option String → Desk → Desk × List Deed
unfolding tick_idle tick_active
tick_attempt w now status holder desk = elim desk.current [
  | none ↦ (desk, [])
  | some cur ↦
      if not desk.watching
      then (desk, [])
      else if status.active
      then tick_active w now holder desk cur
      else tick_idle w now status desk cur
]

-- What a background read brings: it was asked for the first episode of this repository after that one,
-- by the attempt that ended.
pub record Measurement : Type 0 where
  pub repo_name : String
  pub after_index : ℤ
  pub motion : EpisodeMotion

-- The motion is set whatever attempt runs by then, and whatever was asked for.
unfoldable pub note_measured : Measurement → Desk → Desk
note_measured m desk = record desk { last_episode = some m.motion }

pub data StartError : Type 0 where
  already_running recording no_task task_complete not_recording : StartError

pub record DatasetInfo : Type 0 where
  pub repo_name : String
  pub is_local : Bool
  pub total_episodes : Option ℕ

-- What `start` reads, in the order of its reading, and the answer of the recorder.
pub record StartInput : Type 0 where
  pub task_id : String
  pub operator : String
  pub rejected_episodes : ℤ
  pub status : RecordStatus
  pub tasks : List TaskInfo
  pub datasets : List DatasetInfo
  pub live_source : Option String
  pub started : Answer Bool
  pub latest_index : ℤ
  pub new_id : String
  pub started_at : String
  pub now : ℕ

unfoldable pub task_of : StartInput → Option TaskInfo
task_of i = find (λ t. t.id == i.task_id && t.active) i.tasks

unfoldable pub dataset_of : StartInput → TaskInfo → Option DatasetInfo
dataset_of i task = find (λ d. d.repo_name == task.repo_name) i.datasets

abbrev pub episodes_in : Option DatasetInfo → ℕ
episodes_in none = 0
episodes_in (some d) = or_else d.total_episodes 0

-- The episodes that will ship.
unfoldable pub kept_episodes : StartInput → TaskInfo → ℕ
unfolding dataset_of
kept_episodes i task = episodes_in (dataset_of i task) - pos_part i.rejected_episodes

unfoldable pub is_complete : StartInput → TaskInfo → Bool
unfolding kept_episodes
is_complete i task = elim task.max_episodes [ none ↦ false | some n ↦ leb n (kept_episodes i task) ]

abbrev pub is_local_set : Option DatasetInfo → Bool
is_local_set none = false
is_local_set (some d) = d.is_local

unfoldable pub record_params : StartInput → TaskInfo → String → RecordStart
unfolding dataset_of
record_params i task source = record {
  repo_name = task.repo_name;
  task = task.title;
  num_episodes = 1;
  episode_s = task.episode_seconds;
  reset_s = task.reset_seconds;
  resume = is_local_set (dataset_of i task) && ltb 0 (episodes_in (dataset_of i task));
  source = source;
}

-- The live source wins where there is one.
unfoldable pub remember_source : Option String → Desk → Desk
remember_source live desk = record desk { chosen_source = or_maybe live desk.chosen_source }

unfoldable pub begun_desk : StartInput → TaskInfo → String → Desk → Desk
begun_desk i task source desk = record desk {
  last_episode = none;
  episode_baseline = i.latest_index;
  current = some (record {
    attempt_id = i.new_id;
    task = task;
    operator = i.operator;
    prior_source = source;
    started_at = i.started_at;
    started_at_ms = i.now;
    holder_gone_since = none;
  });
}

-- The recorder's refusal ends the start, with the source already remembered.
unfoldable pub begin_attempt : StartInput → TaskInfo → Desk → Desk × Option StartError × List Deed
unfolding remember_source record_params begun_desk
begin_attempt i task desk =
    let desk' = remember_source i.live_source desk in
    let source = or_else desk'.chosen_source "keys" in
    let deeds = record_start (record_params i task source) ∷ [] in
    elim i.started [
      | thrown ↦ (desk', some not_recording, deeds)
      | answer _ ↦ (begun_desk i task source desk', none, deeds)
    ]

unfoldable pub start_task :
    StartInput → Desk → Option TaskInfo → Desk × Option StartError × List Deed
unfolding begin_attempt is_complete
start_task i desk none = (desk, some no_task, [])
start_task i desk (some task) =
    if is_complete i task then (desk, some task_complete, []) else begin_attempt i task desk

unfoldable pub start_attempt : StartInput → Desk → Desk × Option StartError × List Deed
unfolding start_task task_of
start_attempt i desk =
    if is_some desk.current
    then (desk, some already_running, [])
    else if i.status.active
    then (desk, some recording, [])
    else start_task i desk (task_of i)

pub data FinishError : Type 0 where
  no_attempt control_failed log_failed : FinishError

-- A claim of success has the episode measured.
unfoldable pub end_deeds : Bool → Desk → Current → List Deed
end_deeds claims desk cur = if claims then measure_of desk cur ∷ [] else []

-- A log that died is the answer's error.
abbrev pub ended : LogWrite → List Deed → Desk × List Deed → Desk × Option FinishError × List Deed
ended w deeds (desk, more) = (desk, if dies w then some log_failed else none, deeds ++ more)

-- `answered` is what the recorder gives to the keep or the discard.
unfoldable pub finish_recording :
    LogWrite → Bool → Answer Bool → Desk → Current → Desk × Option FinishError × List Deed
unfolding end_deeds close_attempt
finish_recording w claims answered desk cur =
    let control = if claims then keep else discard in
    elim answered [
      | thrown ↦ (desk, some control_failed, control ∷ [])
      | answer _ ↦
          ended w (control ∷ end_deeds claims desk cur)
            (close_attempt w desk (if claims then success else discarded))
    ]

unfoldable pub finish_attempt :
    LogWrite → Bool → RecordStatus → Answer Bool → Desk → Desk × Option FinishError × List Deed
unfolding finish_recording end_deeds close_attempt
finish_attempt w claims status answered desk = elim desk.current [
  | none ↦ (desk, some no_attempt, [])
  | some cur ↦
      if status.active
      then finish_recording w claims answered desk cur
      else ended w (end_deeds claims desk cur)
          (close_attempt w desk (if claims then success else timeout))
]
