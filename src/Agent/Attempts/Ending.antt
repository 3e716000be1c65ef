-- ===== src/Agent/Attempts/Ending.antt =====
-- How an attempt ends: its row in the log, and the arm handed back.
use eth_global_lisbon_2026_h.Base.{
  ℕ, ◌+◌, ◌||◌, ◌≡◌, inl, inr, refl, ◌∙◌, String, Bool, true, false, Option, none, some, List, [],
  ◌∷◌, ◌++◌, or_else, ltb, arith, Answer, answer, Answer-cases, Bool-cases, if◌then◌else◌, ◌==◌,
  string_eq,
}
use eth_global_lisbon_2026_h.Hub.Rig.{RecordStatus}
use eth_global_lisbon_2026_h.Agent.Attempts.Counting.{Event, starts, finishes, ticks, measured}
use eth_global_lisbon_2026_h.Agent.Attempts.{
  Desk, Current, Deed, record_start, measure, hand_back, AttemptOutcome, close_attempt, closed_desk,
  LogWrite, appended, append_log, dies, watched_close, log_row, then_close, set_gone, tick_idle,
  tick_active, abandon_after_ms, spinup_grace_ms, is_failed, tick_attempt, start_attempt,
  StartError, note_measured, FinishError, finish_attempt, finish_recording, ended, end_deeds,
  failed, timeout, abandoned, success, discarded, keep, discard, measure_of,
}

-- The sources that a list of calls hands the arm back to.
unfoldable pub restores : List Deed → List String
restores [] = []
restores (hand_back source ∷ deeds) = source ∷ restores deeds
restores (record_start r ∷ deeds) = restores deeds
restores (keep ∷ deeds) = restores deeds
restores (discard ∷ deeds) = restores deeds
restores (measure name base ∷ deeds) = restores deeds

-- What the end of an attempt leaves: its row goes to the log as the file allows, and the arm to its
-- operator; or to nobody, after a failure of the driver or where the log died.
pub record IsEnd (w : LogWrite) (outcome : AttemptOutcome) (cur : Current) (desk : Desk)
    (out : Desk × List Deed) : Type 0 where
  pub logged : out.0.log ≡ append_log w (log_row cur outcome) desk.log
  pub handed : restores out.1 ≡ (if dies w || is_failed outcome then [] else cur.prior_source ∷ [])

close-IsEnd :
    (w : LogWrite) (desk : Desk) (cur : Current) (outcome : AttemptOutcome)
    → desk.current ≡ some cur
    → IsEnd w outcome cur desk (close_attempt w desk outcome)
unfolding close_attempt closed_desk
close-IsEnd w desk cur outcome running = record {
  logged = ground (arith, running);
  handed =
      unfold restores in
      elim (Bool-cases (dies w || is_failed outcome)) [
        | inl broke ↦ ground (arith, running, broke)
        | inr ended ↦ ground (arith, running, ended)
      ];
}

watched-IsEnd :
    (w : LogWrite) (desk : Desk) (cur : Current) (outcome : AttemptOutcome)
    → desk.current ≡ some cur
    → IsEnd w outcome cur desk (watched_close w desk outcome)
unfolding watched_close
watched-IsEnd w desk cur outcome running =
    let e = close-IsEnd w desk cur outcome running in
    record { logged = e.logged; handed = e.handed }

-- Calls before the end that hand nothing back.
then-IsEnd :
    (w : LogWrite) (outcome : AttemptOutcome) (deeds : List Deed) (desk : Desk) (cur : Current)
    (out : Desk × List Deed)
    → ((more : List Deed) → restores (deeds ++ more) ≡ restores more)
    → IsEnd w outcome cur desk out
    → IsEnd w outcome cur desk (then_close deeds out)
then-IsEnd w outcome deeds desk cur out quiet e = record {
  logged = e.logged;
  handed = quiet out.1 ∙ e.handed;
}

-- How a tick that finds no recording takes the end.
abbrev idle_end : RecordStatus → AttemptOutcome
idle_end status = if status.phase == "failed" || status.phase == "idle" then failed else timeout

late-IsEnd :
    (w : LogWrite) (status : RecordStatus) (desk : Desk) (cur : Current) (outcome : AttemptOutcome)
    → desk.current ≡ some cur
    → IsEnd w outcome cur desk (
        then_close
          (if status.phase == "done" then measure_of desk cur ∷ [] else [])
          (watched_close w desk outcome))
late-IsEnd w status desk cur outcome running = elim (Bool-cases (status.phase == "done")) [
  | inl done ↦ rw done (
      then-IsEnd w outcome (measure_of desk cur ∷ []) desk cur (watched_close w desk outcome)
        (λ more. unfold restores in refl) (watched-IsEnd w desk cur outcome running))
  | inr undone ↦ rw undone (
      then-IsEnd w outcome [] desk cur (watched_close w desk outcome) (λ more. refl)
        (watched-IsEnd w desk cur outcome running))
]

idle-IsEnd :
    (w : LogWrite) (now : ℕ) (status : RecordStatus) (desk : Desk) (cur : Current)
    → desk.current ≡ some cur
    → (tick_idle w now status desk cur).0.current ≡ none
    → IsEnd w (idle_end status) cur desk (tick_idle w now status desk cur)
unfolding tick_idle
idle-IsEnd w now status desk cur running over = elim (Bool-cases (status.phase == "failed")) [
  | inl broke ↦ rw (broke, tick_idle) (watched-IsEnd w desk cur failed running)
  | inr sound ↦ elim (Bool-cases (ltb now (cur.started_at_ms + spinup_grace_ms))) [
    | inl early ↦ ground (arith, sound, early, running, over)
    | inr late ↦
        rw (sound, tick_idle, late)
          (late-IsEnd w status desk cur (if status.phase == "idle" then failed else timeout)
            running)
  ]
]

active-IsEnd :
    (w : LogWrite) (now : ℕ) (holder : Option String) (desk : Desk) (cur : Current)
    → desk.current ≡ some cur
    → (tick_active w now holder desk cur).0.current ≡ none
    → IsEnd w abandoned cur desk (tick_active w now holder desk cur)
unfolding tick_active set_gone
active-IsEnd w now (some h) desk cur running over = cc
active-IsEnd w now none desk cur running over =
    let since = or_else cur.holder_gone_since now in
    let cur' = record cur { holder_gone_since = some since } in
    let desk' = record desk { current = some cur' } in
    let e = watched-IsEnd w desk' cur' abandoned refl in
    elim (Bool-cases (ltb (since + abandon_after_ms) now)) [
      | inl gone ↦ rw gone (
          then-IsEnd w abandoned (discard ∷ []) desk cur (watched_close w desk' abandoned)
            (λ more. unfold restores in refl)
            (record { logged = unfold log_row in e.logged; handed = e.handed }))
      | inr here ↦ ground (arith, here, over)
    ]

tick-IsEnd :
    (w : LogWrite) (now : ℕ) (status : RecordStatus) (holder : Option String) (desk : Desk)
    (cur : Current)
    → desk.current ≡ some cur
    → (tick_attempt w now status holder desk).0.current ≡ none
    → IsEnd w
        (if status.active then abandoned else idle_end status)
        cur
        desk
        (tick_attempt w now status holder desk)
unfolding tick_attempt
tick-IsEnd w now status holder desk cur running over = elim (Bool-cases desk.watching) [
  | inr dead ↦ ground (arith, running, dead, over)
  | inl watched ↦ elim (Bool-cases status.active) [
    | inl live ↦
        let same : tick_attempt w now status holder desk ≡ tick_active w now holder desk cur =
          ground (arith, running, watched, live) in
        rw (same, live) (active-IsEnd w now holder desk cur running (ground (arith, same, over)))
    | inr quiet ↦
        let same : tick_attempt w now status holder desk ≡ tick_idle w now status desk cur =
          ground (arith, running, watched, quiet) in
        rw (same, quiet) (idle-IsEnd w now status desk cur running (ground (arith, same, over)))
  ]
]

-- The desk and the calls of an answer to a finish.
abbrev pub of_finish : Desk × Option FinishError × List Deed → Desk × List Deed
of_finish (desk, error, deeds) = (desk, deeds)

abbrev pub of_start : Desk × Option StartError × List Deed → Desk × List Deed
of_start (desk, error, deeds) = (desk, deeds)

end_deeds-quiet :
    (claims : Bool) (desk : Desk) (cur : Current) (more : List Deed)
    → restores (end_deeds claims desk cur ++ more) ≡ restores more
unfolding end_deeds restores
end_deeds-quiet true desk cur more = refl
end_deeds-quiet false desk cur more = refl

recording-IsEnd :
    (w : LogWrite) (claims : Bool) (b : Bool) (desk : Desk) (cur : Current)
    → desk.current ≡ some cur
    → IsEnd w
        (if claims then success else discarded)
        cur
        desk
        (of_finish (finish_recording w claims (answer b) desk cur))
unfolding finish_recording
recording-IsEnd w true b desk cur running =
    then-IsEnd w success (keep ∷ end_deeds true desk cur) desk cur (close_attempt w desk success)
      (λ more. unfold restores in end_deeds-quiet true desk cur more)
      (close-IsEnd w desk cur success running)
recording-IsEnd w false b desk cur running =
    then-IsEnd w discarded (discard ∷ end_deeds false desk cur) desk cur
      (close_attempt w desk discarded)
      (λ more. unfold restores in end_deeds-quiet false desk cur more)
      (close-IsEnd w desk cur discarded running)

-- How a finish is logged: a discard is one only while the recorder still runs.
abbrev claimed_end : Bool → Bool → AttemptOutcome
claimed_end true recording = success
claimed_end false true = discarded
claimed_end false false = timeout

finish-IsEnd :
    (w : LogWrite) (claims : Bool) (status : RecordStatus) (answered : Answer Bool) (desk : Desk)
    (cur : Current)
    → desk.current ≡ some cur
    → (finish_attempt w claims status answered desk).0.current ≡ none
    → IsEnd w
        (claimed_end claims status.active)
        cur
        desk
        (of_finish (finish_attempt w claims status answered desk))
unfolding finish_attempt
finish-IsEnd w claims status answered desk cur running over = elim (Bool-cases status.active) [
  | inl live ↦
      let same : finish_attempt w claims status answered desk
          ≡ finish_recording w claims answered desk cur =
        ground (arith, running, live) in
      let named : claimed_end claims status.active ≡ (if claims then success else discarded) =
        ground (arith, live) in
      rw (same, named)
        (elim (Answer-cases answered) [
          | inl threw ↦ unfold finish_recording in ground (arith, same, over, threw, running)
          | inr (b, came) ↦ rw came (recording-IsEnd w claims b desk cur running)
        ])
  | inr quiet ↦
      let outcome = if claims then success else timeout in
      let same : finish_attempt w claims status answered desk
          ≡ ended w (end_deeds claims desk cur) (close_attempt w desk outcome) =
        ground (arith, running, quiet) in
      let named : claimed_end claims status.active ≡ outcome = ground (arith, quiet) in
      rw (same, named)
        (then-IsEnd w outcome (end_deeds claims desk cur) desk cur (close_attempt w desk outcome)
          (end_deeds-quiet claims desk cur) (close-IsEnd w desk cur outcome running))
]

-- What an event leaves of the desk, and the calls that it makes.
unfoldable pub acts : Event → Desk → Desk × List Deed
unfolding start_attempt
acts (starts i) desk = of_start (start_attempt i desk)
acts (finishes w claims status answered) desk =
    of_finish (finish_attempt w claims status answered desk)
acts (ticks w now status holder) desk = tick_attempt w now status holder desk
acts (measured motion) desk = (note_measured motion desk, [])

-- How an event that ends an attempt is logged: what the operator claims, where the call is a finish;
-- an operator who is gone, where a tick finds the recorder at work; else what the recorder says.
abbrev pub end_of : Event → AttemptOutcome
end_of (finishes w claims status answered) = claimed_end claims status.active
end_of (ticks w now status holder) = if status.active then abandoned else idle_end status
end_of _ = failed

abbrev pub log_of : Event → LogWrite
log_of (finishes w claims status answered) = w
log_of (ticks w now status holder) = w
log_of _ = appended

-- However an attempt ends, it is logged with the outcome that the event names: a finish that claims
-- success is logged as a success, one that does not as discarded, or as a timeout where the recorder
-- was over; a tick logs it as abandoned while the recorder is at work, as failed where the recorder
-- failed or never began, and else as a timeout. Its row is put behind those of the log, or becomes
-- the log where the file cannot be read; where what was read is no log, or the write fails, there is
-- no row. The arm is handed back once, to the source that its operator drove with; or not at all,
-- where the outcome is a failure of the driver or the log died.
pub attempt_ends_once :
    (e : Event) (desk : Desk) (cur : Current)
    → desk.current ≡ some cur
    → (acts e desk).0.current ≡ none
    → IsEnd (log_of e) (end_of e) cur desk (acts e desk)
unfolding acts note_measured
attempt_ends_once (starts i) desk cur running over = ground (arith, running, over)
attempt_ends_once (finishes w claims status answered) desk cur running over =
    finish-IsEnd w claims status answered desk cur running over
attempt_ends_once (ticks w now status holder) desk cur running over =
    tick-IsEnd w now status holder desk cur running over
attempt_ends_once (measured motion) desk cur running over = ground (arith, running, over)
