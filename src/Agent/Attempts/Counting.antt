-- ===== src/Agent/Attempts/Counting.antt =====
-- Runs of the service, and what they log.
use mathlib.Core.List.{append_assoc, append-nil, map-append}
use eth_global_lisbon_2026_h.Base.{
  ℕ, ◌≡◌, refl, sym, ap, ◌∙◌, true, false, map, ◌++◌, All, inl, inr, String, Bool, Option, none,
  some, List, [], ◌∷◌, is_none, or_else, arith, Answer, answer, thrown, Answer-cases, Bool-cases,
  Option-cases, if◌then◌else◌, string_eq,
}
use eth_global_lisbon_2026_h.Hub.Rig.{RecordStatus}
use eth_global_lisbon_2026_h.Agent.Attempts.{
  Desk, Current, AttemptOutcome, StartInput, close_attempt, closed_desk, log_row, LogWrite,
  appended, unread, garbled, unwritten, append_log, watched_close, set_gone, tick_idle, tick_active,
  tick_attempt, note_measured, Measurement, start_attempt, remember_source, begun_desk, start_task,
  begin_attempt, task_of, is_complete, finish_attempt, finish_recording, failed, timeout, abandoned,
  success, discarded,
}

-- The calls of the service, the watcher's ticks, and the measurements that come in.
pub data Event : Type 0 where
  starts : StartInput → Event
  finishes : LogWrite → Bool → RecordStatus → Answer Bool → Event
  ticks : LogWrite → ℕ → RecordStatus → Option String → Event
  measured : Measurement → Event

unfoldable pub on_event : Event → Desk → Desk
unfolding start_attempt finish_attempt tick_attempt note_measured
on_event (starts i) desk = (start_attempt i desk).0
on_event (finishes w claims status answered) desk = (finish_attempt w claims status answered desk).0
on_event (ticks w now status holder) desk = (tick_attempt w now status holder desk).0
on_event (measured motion) desk = note_measured motion desk

unfoldable pub on_events : List Event → Desk → Desk
unfolding on_event
on_events [] desk = desk
on_events (e ∷ es) desk = on_events es (on_event e desk)

-- The ids of the starts that were answered with an attempt.
unfoldable pub begun_by : Event → Desk → List String
unfolding start_attempt
begun_by (starts i) desk = if is_none (start_attempt i desk).1 then i.new_id ∷ [] else []
begun_by _ desk = []

unfoldable pub begun : List Event → Desk → List String
unfolding begun_by
begun [] desk = []
begun (e ∷ es) desk = begun_by e desk ++ begun es (on_event e desk)

abbrev pub running_id : Option Current → List String
running_id none = []
running_id (some cur) = cur.attempt_id ∷ []

-- The attempts that are logged, and the one that runs.
abbrev pub accounted : Desk → List String
accounted desk = map (λ r. r.id) desk.log ++ running_id desk.current

-- The log file is read and written, if the event closes an attempt.
abbrev pub has_log : Event → Bool
has_log (finishes appended claims status answered) = true
has_log (finishes _ claims status answered) = false
has_log (ticks appended now status holder) = true
has_log (ticks _ now status holder) = false
has_log _ = true

close-accounted :
    (desk : Desk) (outcome : AttemptOutcome)
    → accounted (close_attempt appended desk outcome).0 ≡ accounted desk
unfolding close_attempt closed_desk append_log log_row
close-accounted desk outcome = elim (Option-cases desk.current) [
  | inl idle ↦ ground (arith, idle)
  | inr (cur, running) ↦
      let logged = map-append (λ r. r.id) desk.log (log_row cur outcome ∷ []) in
      ground (
        arith,
        running,
        logged,
        append-nil (map (λ r. r.id) (desk.log ++ log_row cur outcome ∷ [])),
      )
]

watched-accounted :
    (desk : Desk) (outcome : AttemptOutcome)
    → accounted (watched_close appended desk outcome).0 ≡ accounted desk
unfolding watched_close
watched-accounted desk outcome = close-accounted desk outcome

idle-accounted :
    (now : ℕ) (status : RecordStatus) (desk : Desk) (cur : Current)
    → accounted (tick_idle appended now status desk cur).0 ≡ accounted desk
unfolding tick_idle
idle-accounted now status desk cur =
    ground (arith, watched-accounted desk failed, watched-accounted desk timeout)

active-accounted :
    (now : ℕ) (holder : Option String) (desk : Desk) (cur : Current)
    → desk.current ≡ some cur
    → accounted (tick_active appended now holder desk cur).0 ≡ accounted desk
unfolding tick_active set_gone
active-accounted now (some h) desk cur running = ground (arith, running)
active-accounted now none desk cur running =
    let since = or_else cur.holder_gone_since now in
    ground (arith, running, watched-accounted (set_gone desk cur (some since)) abandoned)

tick-accounted :
    (now : ℕ) (status : RecordStatus) (holder : Option String) (desk : Desk)
    → accounted (tick_attempt appended now status holder desk).0 ≡ accounted desk
unfolding tick_attempt
tick-accounted now status holder desk = elim (Option-cases desk.current) [
  | inl idle ↦ rw (idle, tick_attempt) (ground (arith, idle))
  | inr (cur, running) ↦ elim (Bool-cases desk.watching) [
    | inr dead ↦ ground (arith, running, dead)
    | inl watched ↦ elim (Bool-cases status.active) [
      | inl live ↦
          ground (arith, running, watched, live, active-accounted now holder desk cur running)
      | inr over ↦ ground (arith, running, watched, over, idle-accounted now status desk cur)
    ]
  ]
]

started-accounted :
    (desk desk' : Desk) (id : String)
    → desk.current ≡ none
    → desk'.log ≡ desk.log
    → running_id desk'.current ≡ id ∷ []
    → accounted desk' ≡ accounted desk ++ id ∷ []
started-accounted desk desk' id idle same new =
    rw (same, new, idle, append-nil (map (λ r. r.id) desk.log)) refl

start-accounted :
    (i : StartInput) (desk : Desk)
    → accounted (start_attempt i desk).0
      ≡ accounted desk ++ (if is_none (start_attempt i desk).1 then i.new_id ∷ [] else [])
unfolding start_attempt start_task begin_attempt remember_source begun_desk
start-accounted i desk =
    let nothing = append-nil (accounted desk) in
    elim (Option-cases desk.current) [
      | inr (cur, running) ↦ ground (arith, running, nothing)
      | inl idle ↦ elim (Bool-cases i.status.active) [
        | inl busy ↦ ground (arith, idle, busy, nothing)
        | inr free ↦ elim (Option-cases (task_of i)) [
          | inl missing ↦ ground (arith, idle, free, missing, nothing)
          | inr (task, found) ↦ elim (Bool-cases (is_complete i task)) [
            | inl complete ↦ ground (arith, idle, free, found, complete, nothing)
            | inr wanted ↦ elim (Answer-cases i.started) [
              | inl refused ↦ ground (arith, idle, free, found, wanted, refused, nothing)
              | inr (b, granted) ↦
                  let desk' = (start_attempt i desk).0 in
                  let new =
                    started-accounted desk desk' i.new_id idle
                      (ground (arith, idle, free, found, wanted, granted))
                      (ground (arith, idle, free, found, wanted, granted)) in
                  ground (arith, idle, free, found, wanted, granted, new)
            ]
          ]
        ]
      ]
    ]

finish-accounted :
    (claims : Bool) (status : RecordStatus) (answered : Answer Bool) (desk : Desk)
    → accounted (finish_attempt appended claims status answered desk).0 ≡ accounted desk
unfolding finish_attempt finish_recording
finish-accounted claims status thrown desk = elim (Option-cases desk.current) [
  | inl idle ↦ ground (arith, idle)
  | inr (cur, running) ↦
      ground (arith, running, close-accounted desk success, close-accounted desk timeout)
]
finish-accounted claims status (answer b) desk = elim (Option-cases desk.current) [
  | inl idle ↦ ground (arith, idle)
  | inr (cur, running) ↦ ground (
    arith,
    running,
    close-accounted desk success,
    close-accounted desk timeout,
    close-accounted desk discarded,
  )
]

event-accounted :
    (e : Event) (desk : Desk)
    → has_log e ≡ true
    → accounted (on_event e desk) ≡ accounted desk ++ begun_by e desk
unfolding on_event begun_by note_measured
event-accounted (starts i) desk ok = start-accounted i desk
event-accounted (finishes appended claims status answered) desk ok =
    finish-accounted claims status answered desk ∙ sym (append-nil (accounted desk))
event-accounted (ticks appended now status holder) desk ok =
    tick-accounted now status holder desk ∙ sym (append-nil (accounted desk))
event-accounted (measured motion) desk ok = sym (append-nil (accounted desk))
event-accounted (finishes unread claims status answered) desk ok = cc
event-accounted (finishes garbled claims status answered) desk ok = cc
event-accounted (finishes unwritten claims status answered) desk ok = cc
event-accounted (ticks unread now status holder) desk ok = cc
event-accounted (ticks garbled now status holder) desk ok = cc
event-accounted (ticks unwritten now status holder) desk ok = cc

-- Every attempt is logged, once and in order: over any calls, ticks and measurements, with any answers
-- of the recorder, as long as the log file can be read and written, the ids of the log, followed by
-- that of the attempt that runs, if one does, are those from before, followed by the ids of the
-- attempts that were granted since.
pub on_events-accounted :
    (es : List Event) (desk : Desk)
    → All (λ e. has_log e ≡ true) es
    → accounted (on_events es desk) ≡ accounted desk ++ begun es desk
unfolding on_events begun
on_events-accounted [] desk ok = sym (append-nil (accounted desk))
on_events-accounted (e ∷ es) desk (ok, rest) =
    on_events-accounted es (on_event e desk) rest
    ∙ ap (λ ids. ids ++ begun es (on_event e desk)) (event-accounted e desk ok)
    ∙ append_assoc (accounted desk) (begun_by e desk) (begun es (on_event e desk))
