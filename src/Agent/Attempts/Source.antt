-- ===== src/Agent/Attempts/Source.antt =====
-- The source that an attempt is driven with.
use eth_global_lisbon_2026_h.Base.{
  ℕ, ◌≡◌, inl, inr, refl, ◌∙◌, String, Bool, true, Option, none, some, List, [], ◌∷◌, All, is_none,
  or_else, arith, Answer, Answer-cases, Bool-cases, Option-cases,
}
use eth_global_lisbon_2026_h.Hub.Rig.{RecordStatus}
use eth_global_lisbon_2026_h.Agent.Attempts.{
  Desk, Current, StartInput, start_attempt, start_task, begin_attempt, remember_source, begun_desk,
  LogWrite, watched_close, task_of, tick_attempt, tick_idle, tick_active, set_gone, close_attempt,
  closed_desk, finish_attempt, finish_recording, note_measured, AttemptOutcome, failed, timeout,
  abandoned, success, discarded,
}
use eth_global_lisbon_2026_h.Agent.Attempts.Counting.{
  Event, starts, finishes, ticks, measured, on_event, on_events,
}

close-source :
    (w : LogWrite) (desk : Desk) (outcome : AttemptOutcome)
    → (close_attempt w desk outcome).0.chosen_source ≡ desk.chosen_source
unfolding close_attempt closed_desk
close-source w desk outcome = elim (Option-cases desk.current) [
  | inl idle ↦ ground (arith, idle)
  | inr (cur, running) ↦ ground (arith, running)
]

watched-source :
    (w : LogWrite) (desk : Desk) (outcome : AttemptOutcome)
    → (watched_close w desk outcome).0.chosen_source ≡ desk.chosen_source
unfolding watched_close
watched-source w desk outcome = close-source w desk outcome

active-source :
    (w : LogWrite) (now : ℕ) (holder : Option String) (desk : Desk) (cur : Current)
    → (tick_active w now holder desk cur).0.chosen_source ≡ desk.chosen_source
unfolding tick_active set_gone
active-source w now none desk cur =
    let since = or_else cur.holder_gone_since now in
    ground (arith, watched-source w (set_gone desk cur (some since)) abandoned)
active-source w now (some h) desk cur = refl

tick-source :
    (w : LogWrite) (now : ℕ) (status : RecordStatus) (holder : Option String) (desk : Desk)
    → (tick_attempt w now status holder desk).0.chosen_source ≡ desk.chosen_source
unfolding tick_attempt tick_idle
tick-source w now status holder desk = elim (Option-cases desk.current) [
  | inl idle ↦ ground (arith, idle)
  | inr (cur, running) ↦ elim (Bool-cases status.active) [
    | inl live ↦ ground (arith, running, live, active-source w now holder desk cur)
    | inr over ↦
        ground (arith, running, over, watched-source w desk failed, watched-source w desk timeout)
  ]
]

finish-source :
    (w : LogWrite) (claims : Bool) (status : RecordStatus) (answered : Answer Bool) (desk : Desk)
    → (finish_attempt w claims status answered desk).0.chosen_source ≡ desk.chosen_source
unfolding finish_attempt finish_recording
finish-source w claims status answered desk = elim (Option-cases desk.current) [
  | inl idle ↦ ground (arith, idle)
  | inr (cur, running) ↦ elim (Answer-cases answered) [
    | inl threw ↦
        ground (arith, running, threw, close-source w desk success, close-source w desk timeout)
    | inr (b, came) ↦ ground (
      arith,
      running,
      came,
      close-source w desk success,
      close-source w desk timeout,
      close-source w desk discarded,
    )
  ]
]

start-source :
    (i : StartInput) (desk : Desk) (s : String)
    → i.live_source ≡ none
    → desk.chosen_source ≡ some s
    → (start_attempt i desk).0.chosen_source ≡ some s
unfolding start_attempt start_task begin_attempt remember_source begun_desk
start-source i desk s quiet chosen = elim (Option-cases (task_of i)) [
  | inl missing ↦ ground (arith, missing, chosen, quiet)
  | inr (task, found) ↦ elim (Answer-cases i.started) [
    | inl refused ↦ ground (arith, found, chosen, quiet, refused)
    | inr (b, granted) ↦ ground (arith, found, chosen, quiet, granted)
  ]
]

-- The robot names no source to this event.
abbrev pub names_none : Event → Bool
names_none (starts i) = is_none i.live_source
names_none _ = true

event-source :
    (e : Event) (desk : Desk) (s : String)
    → names_none e ≡ true
    → desk.chosen_source ≡ some s
    → (on_event e desk).chosen_source ≡ some s
unfolding on_event note_measured
event-source (starts i) desk s quiet chosen = elim (Option-cases i.live_source) [
  | inl nothing ↦ start-source i desk s nothing chosen
  | inr (live, named) ↦ ground (arith, quiet, named)
]
event-source (finishes w claims status answered) desk s quiet chosen =
    finish-source w claims status answered desk ∙ chosen
event-source (ticks w now status holder) desk s quiet chosen =
    tick-source w now status holder desk ∙ chosen
event-source (measured motion) desk s quiet chosen = chosen

events-source :
    (es : List Event) (desk : Desk) (s : String)
    → All (λ e. names_none e ≡ true) es
    → desk.chosen_source ≡ some s
    → (on_events es desk).chosen_source ≡ some s
unfolding on_events
events-source [] desk s quiet chosen = chosen
events-source (e ∷ es) desk s (here, rest) chosen =
    events-source es (on_event e desk) s rest (event-source e desk s here chosen)

abbrev pub source_of : Desk → Option String
source_of desk = elim desk.current [ none ↦ none | some cur ↦ some cur.prior_source ]

granted-source :
    (i : StartInput) (desk : Desk) (s : String)
    → i.live_source ≡ none
    → desk.chosen_source ≡ some s
    → (start_attempt i desk).1 ≡ none
    → source_of (start_attempt i desk).0 ≡ some s
unfolding start_attempt start_task begin_attempt remember_source begun_desk
granted-source i desk s quiet chosen went = elim (Option-cases (task_of i)) [
  | inl missing ↦ ground (arith, missing, went)
  | inr (task, found) ↦ elim (Answer-cases i.started) [
    | inl refused ↦ ground (arith, found, chosen, quiet, refused, went)
    | inr (b, granted) ↦ ground (arith, found, chosen, quiet, granted, went)
  ]
]

-- How the operator chose to drive is not forgotten between attempts: once a source has been chosen,
-- then after any calls, ticks and measurements in which the robot names no source, an attempt that
-- is started, with the robot still naming none, is driven with that source.
pub chosen_source_kept :
    (es : List Event) (i : StartInput) (desk : Desk) (s : String)
    → desk.chosen_source ≡ some s
    → All (λ e. names_none e ≡ true) es
    → i.live_source ≡ none
    → (start_attempt i (on_events es desk)).1 ≡ none
    → source_of (start_attempt i (on_events es desk)).0 ≡ some s
chosen_source_kept es i desk s chosen quiet live went =
    granted-source i (on_events es desk) s live (events-source es desk s quiet chosen) went
