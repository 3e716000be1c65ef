-- ===== src/Agent/Attempts/Measured.antt =====
-- Whose episode a measurement shows.
use eth_global_lisbon_2026_h.Base.{
  ℤ, pos, ltb_ℤ, ◌≡◌, inl, inr, String, Bool, true, false, none, some, List, [], ◌∷◌, arith, Answer,
  answer, thrown, Answer-cases, Bool-cases, Option-cases,
}
use eth_global_lisbon_2026_h.Hub.Rig.{RecordStatus, EpisodeMotion}
use eth_global_lisbon_2026_h.Agent.Attempts.{
  Desk, Current, Deed, record_start, keep, discard, measure, hand_back, LogWrite, dies, StartInput,
  start_attempt, start_task, begin_attempt, remember_source, begun_desk, task_of, Measurement,
  note_measured, to_state, finish_attempt, finish_recording, end_deeds, close_attempt, closed_desk,
}

-- The reads that a list of calls asks for.
unfoldable pub reads : List Deed → List (String × ℤ)
reads [] = []
reads (measure name base ∷ deeds) = (name, base) ∷ reads deeds
reads (record_start r ∷ deeds) = reads deeds
reads (keep ∷ deeds) = reads deeds
reads (discard ∷ deeds) = reads deeds
reads (hand_back source ∷ deeds) = reads deeds

-- By the rule that a read goes by, the episode can be one of the attempt that runs.
abbrev pub is_after_baseline : Desk → EpisodeMotion → Bool
is_after_baseline desk motion = ltb_ℤ desk.episode_baseline (pos motion.episode_index)

finish-reads :
    (w : LogWrite) (status : RecordStatus) (answered : Answer Bool) (desk : Desk) (cur : Current)
    → desk.current ≡ some cur
    → (finish_attempt w true status answered desk).0.current ≡ none
    → reads (finish_attempt w true status answered desk).2
      ≡ (cur.task.repo_name, desk.episode_baseline) ∷ []
unfolding finish_attempt finish_recording end_deeds close_attempt closed_desk reads
finish-reads w status thrown desk cur running over = elim (Bool-cases status.active) [
  | inl live ↦ ground (arith, running, live, over)
  | inr quiet ↦ elim (Bool-cases (dies w)) [
    | inl broke ↦ ground (arith, running, quiet, broke)
    | inr well ↦ ground (arith, running, quiet, well)
  ]
]
finish-reads w status (answer b) desk cur running over = elim (Bool-cases status.active) [
  | inl live ↦ elim (Bool-cases (dies w)) [
    | inl broke ↦ ground (arith, running, live, broke)
    | inr well ↦ ground (arith, running, live, well)
  ]
  | inr quiet ↦ elim (Bool-cases (dies w)) [
    | inl broke ↦ ground (arith, running, quiet, broke)
    | inr well ↦ ground (arith, running, quiet, well)
  ]
]

-- What the read that an attempt asks for brings.
abbrev pub read_of : Desk → Current → EpisodeMotion → Measurement
read_of desk cur motion = record {
  repo_name = cur.task.repo_name;
  after_index = desk.episode_baseline;
  motion = motion;
}

-- After a start that was granted.
abbrev Shows : StartInput → EpisodeMotion → Desk → Type 0
Shows i motion desk =
    ((to_state desk).attempt_id ≡ some i.new_id)
    × ((to_state desk).last_episode ≡ some motion)
    × (is_after_baseline desk motion ≡ false)

granted-Shows :
    (i : StartInput) (desk : Desk) (m : Measurement)
    → (start_attempt i desk).1 ≡ none
    → ltb_ℤ i.latest_index (pos m.motion.episode_index) ≡ false
    → Shows i m.motion (note_measured m (start_attempt i desk).0)
unfolding start_attempt start_task begin_attempt remember_source begun_desk to_state note_measured
granted-Shows i desk m went old = elim (Option-cases (task_of i)) [
  | inl missing ↦ ground (arith, missing, went)
  | inr (task, found) ↦ elim (Answer-cases i.started) [
    | inl refused ↦ ground (arith, found, refused, went)
    | inr (b, granted) ↦ ground (arith, found, granted, went, old)
  ]
]

-- A measurement that lands late is taken for the next attempt's. An attempt that ends with a claim of
-- success asks for one read: of its own repository, after its own baseline. If the next attempt has
-- begun by the time that the read lands, with an episode that the new baseline already counts, then the
-- rig reports that episode with the new attempt, although by its own rule the episode cannot be one of
-- that attempt.
pub late_measurement_misplaced :
    (w : LogWrite) (status : RecordStatus) (answered : Answer Bool) (desk : Desk) (cur : Current)
    (i : StartInput) (motion : EpisodeMotion)
    → desk.current ≡ some cur
    → (finish_attempt w true status answered desk).0.current ≡ none
    → (start_attempt i (finish_attempt w true status answered desk).0).1 ≡ none
    → ltb_ℤ i.latest_index (pos motion.episode_index) ≡ false
    → let (desk', _, deeds) = finish_attempt w true status answered desk in
      let m = read_of desk cur motion in
      let desk'' = note_measured m (start_attempt i desk').0 in
      (reads deeds ≡ (m.repo_name, m.after_index) ∷ [])
      × ((to_state desk'').attempt_id ≡ some i.new_id)
      × ((to_state desk'').last_episode ≡ some motion)
      × (is_after_baseline desk'' motion ≡ false)
late_measurement_misplaced w status answered desk cur i motion running over went old =
    let m = read_of desk cur motion in
    let (of_next, shown, old') =
      granted-Shows i (finish_attempt w true status answered desk).0 m went old in
    (finish-reads w status answered desk cur running over, of_next, shown, old')
