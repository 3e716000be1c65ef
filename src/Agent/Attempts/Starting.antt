-- ===== src/Agent/Attempts/Starting.antt =====
-- What each answer of `start` tells.
use eth_global_lisbon_2026_h.Base.{
  ℕ, ◌-◌, ◌<◌, ◌≤◌, ◌≡◌, ◌⊎◌, inl, inr, refl, ap, String, Bool, true, false, ◌&&◌, Option, none,
  some, List, [], ◌∷◌, ◌++◌, All, find, or_else, or_maybe, pos_part, arith, Answer, answer, thrown,
  Bool-cases, Option-cases, ◌==◌, string_eq,
}
use eth_global_lisbon_2026_h.Hub.Rig.{TaskInfo}
use eth_global_lisbon_2026_h.Agent.Attempts.{
  Desk, Current, Deed, record_start, RecordStart, StartInput, StartError, already_running,
  recording, no_task, task_complete, not_recording, DatasetInfo, start_attempt, start_task,
  begin_attempt, remember_source, begun_desk, record_params, task_of, dataset_of, episodes_in,
  kept_episodes, is_complete,
}

-- The first of a list that passes the test.
abbrev pub IsFirst {ℓ} : {A : Type ℓ} → (A → Bool) → List A → A → Type ℓ
IsFirst {A = A} p xs x =
    (before : List A) × (after : List A) × (xs ≡ before ++ x ∷ after)
    × All (λ y. p y ≡ false) before
    × (p x ≡ true)

module _ {ℓ} {A : Type ℓ} (p : A → Bool) where
  find-IsFirst : (xs : List A) (x : A) → find p xs ≡ some x → IsFirst p xs x
  unfolding find
  find-IsFirst [] x e = ground (arith, e)
  find-IsFirst (y ∷ ys) x e = elim (Bool-cases (p y)) [
    | inl hit ↦
        let same : y ≡ x = ground (arith, hit, e) in
        ([], ys, ap (λ z. z ∷ ys) same, tt, rw (← same) hit)
    | inr miss ↦
        let (before, after, split, others, passes) = find-IsFirst ys x (ground (arith, miss, e)) in
        (y ∷ before, after, ap (λ zs. y ∷ zs) split, (miss, others), passes)
  ]

  find-All : (xs : List A) → find p xs ≡ none → All (λ y. p y ≡ false) xs
  unfolding find
  find-All [] e = tt
  find-All (y ∷ ys) e = elim (Bool-cases (p y)) [
    | inl hit ↦ ground (arith, hit, e)
    | inr miss ↦ (miss, find-All ys (ground (arith, miss, e)))
  ]

-- The task that is asked for: it has the id and is active.
abbrev pub is_wanted : StartInput → TaskInfo → Bool
is_wanted i t = t.id == i.task_id && t.active

-- The episodes that the dataset of a task has: that of the first of its name, or none.
abbrev pub HasTotal : StartInput → TaskInfo → ℕ → Type 0
HasTotal i t n =
    (All (λ d. (d.repo_name == t.repo_name) ≡ false) i.datasets × (n ≡ 0))
    ⊎ ((d : DatasetInfo) × IsFirst (λ x. x.repo_name == t.repo_name) i.datasets d
        × (n ≡ or_else d.total_episodes 0))

-- A task without a limit, or with fewer episodes than it wants, those that the referee threw out not
-- counted.
abbrev pub HasRoom : StartInput → TaskInfo → Type 0
HasRoom i t =
    (t.max_episodes ≡ none)
    ⊎ ((most : ℕ) × (n : ℕ) × (t.max_episodes ≡ some most)
        × HasTotal i t n
        × (n - pos_part i.rejected_episodes < most))

abbrev pub IsFull : StartInput → TaskInfo → Type 0
IsFull i t =
    (most : ℕ) × (n : ℕ) × (t.max_episodes ≡ some most)
    × HasTotal i t n
    × (most ≤ n - pos_part i.rejected_episodes)

total-HasTotal : (i : StartInput) (t : TaskInfo) → HasTotal i t (episodes_in (dataset_of i t))
unfolding dataset_of
total-HasTotal i t = elim (Option-cases (find (λ d. d.repo_name == t.repo_name) i.datasets)) [
  | inl missing ↦
      inl (find-All (λ d. d.repo_name == t.repo_name) i.datasets missing, ground (arith, missing))
  | inr (d, found) ↦
      inr (
        d,
        find-IsFirst (λ x. x.repo_name == t.repo_name) i.datasets d found,
        ground (arith, found),
      )
]

complete-IsFull : (i : StartInput) (t : TaskInfo) → is_complete i t ≡ true → IsFull i t
unfolding is_complete kept_episodes
complete-IsFull i t e = elim (Option-cases t.max_episodes) [
  | inl free ↦ ground (arith, free, e)
  | inr (most, limited) ↦
      (most, episodes_in (dataset_of i t), limited, total-HasTotal i t, ground (arith, limited, e))
]

incomplete-HasRoom : (i : StartInput) (t : TaskInfo) → is_complete i t ≡ false → HasRoom i t
unfolding is_complete kept_episodes
incomplete-HasRoom i t e = elim (Option-cases t.max_episodes) [
  | inl free ↦ inl free
  | inr (most, limited) ↦
      inr (
        most,
        episodes_in (dataset_of i t),
        limited,
        total-HasTotal i t,
        ground (arith, limited, e),
      )
]

-- No attempt runs and nothing is recorded, and this is the task.
abbrev pub IsReady : StartInput → Desk → TaskInfo → Type 0
IsReady i desk t =
    (desk.current ≡ none) × (i.status.active ≡ false) × IsFirst (is_wanted i) i.tasks t

-- The source of an attempt: the live one, or that chosen before, or the keys.
abbrev pub source_for : StartInput → Desk → String
source_for i desk = or_else (or_maybe i.live_source desk.chosen_source) "keys"

-- The recording that is asked for: one episode of the task, which goes on with a dataset only where
-- that is on the disk and has an episode.
abbrev pub IsRecordingOf : StartInput → Desk → TaskInfo → RecordStart → Type 0
IsRecordingOf i desk t p =
    (p.repo_name ≡ t.repo_name)
    × (p.source ≡ source_for i desk)
    × (p.num_episodes ≡ 1)
    × ((p.resume ≡ false)
        ⊎ ((d : DatasetInfo) × IsFirst (λ x. x.repo_name == t.repo_name) i.datasets d
            × (d.is_local ≡ true)
            × (0 < or_else d.total_episodes 0)))

params-IsRecordingOf :
    (i : StartInput) (desk : Desk) (t : TaskInfo)
    → IsRecordingOf i desk t (record_params i t (source_for i desk))
unfolding record_params dataset_of
params-IsRecordingOf i desk t =
    let goes_on = (record_params i t (source_for i desk)).resume in
    elim (Option-cases (find (λ d. d.repo_name == t.repo_name) i.datasets)) [
      | inl missing ↦ (refl, refl, refl, inl (ground (arith, missing)))
      | inr (d, found) ↦ elim (Bool-cases goes_on) [
        | inr anew ↦ (refl, refl, refl, inl anew)
        | inl on ↦
            let first = find-IsFirst (λ x. x.repo_name == t.repo_name) i.datasets d found in
            (refl, refl, refl, inr (d, first, ground (arith, found, on), ground (arith, found, on)))
      ]
    ]

-- What each answer tells of the request, of the desk that is left and of the calls that were made.
abbrev pub Explains : StartInput → Desk → Option StartError → Desk → List Deed → Type 0
Explains i desk (some already_running) desk' deeds =
    ((cur : Current) × (desk.current ≡ some cur)) × (desk' ≡ desk) × (deeds ≡ [])
Explains i desk (some recording) desk' deeds =
    (i.status.active ≡ true) × (desk' ≡ desk) × (deeds ≡ [])
Explains i desk (some no_task) desk' deeds =
    All (λ t. is_wanted i t ≡ false) i.tasks × (desk' ≡ desk) × (deeds ≡ [])
Explains i desk (some task_complete) desk' deeds =
    ((t : TaskInfo) × IsFirst (is_wanted i) i.tasks t × IsFull i t) × (desk' ≡ desk) × (deeds ≡ [])
Explains i desk (some not_recording) desk' deeds =
    ((t : TaskInfo) × IsReady i desk t × HasRoom i t)
    × (i.started ≡ thrown)
    × ((p : RecordStart) × (deeds ≡ record_start p ∷ []))
    × (desk'.current ≡ none)
    × (desk'.log ≡ desk.log)
Explains i desk none desk' deeds =
    (t : TaskInfo) × IsReady i desk t
    × HasRoom i t
    × ((p : RecordStart) × (deeds ≡ record_start p ∷ []) × IsRecordingOf i desk t p)
    × (desk'.last_episode ≡ none)
    × (desk'.log ≡ desk.log)
    × (desk'.current
        ≡ some (record {
          attempt_id = i.new_id;
          task = t;
          operator = i.operator;
          prior_source = source_for i desk;
          started_at = i.started_at;
          started_at_ms = i.now;
          holder_gone_since = none;
        }))

-- A task with room, and the recorder's answer.
begin-Explains :
    (i : StartInput) (desk : Desk) (t : TaskInfo) (started : Answer Bool)
    → i.started ≡ started
    → IsReady i desk t
    → HasRoom i t
    → let (desk', error, deeds) = begin_attempt i t desk in Explains i desk error desk' deeds
unfolding begin_attempt remember_source begun_desk
begin-Explains i desk t thrown e ready room =
    let (idle, quiet, first) = ready in
    let out : begin_attempt i t desk ≡ (
      remember_source i.live_source desk,
      some not_recording,
      record_start (record_params i t (source_for i desk)) ∷ [],
    ) =
      ground (arith, e) in
    rw out ((t, ready, room), e, (record_params i t (source_for i desk), refl), idle, refl)
begin-Explains i desk t (answer b) e ready room =
    let source = source_for i desk in
    let out : begin_attempt i t desk ≡ (
      begun_desk i t source (remember_source i.live_source desk),
      none,
      record_start (record_params i t source) ∷ [],
    ) =
      ground (arith, e) in
    rw out (
      t,
      ready,
      room,
      (record_params i t source, refl, params-IsRecordingOf i desk t),
      refl,
      refl,
      refl,
    )

task-Explains :
    (i : StartInput) (desk : Desk) (o : Option TaskInfo)
    → find (is_wanted i) i.tasks ≡ o
    → desk.current ≡ none
    → i.status.active ≡ false
    → let (desk', error, deeds) = start_task i desk o in Explains i desk error desk' deeds
unfolding start_task
task-Explains i desk none e idle quiet = (find-All (is_wanted i) i.tasks e, refl, refl)
task-Explains i desk (some t) e idle quiet =
    let first = find-IsFirst (is_wanted i) i.tasks t e in
    elim (Bool-cases (is_complete i t)) [
      | inl full ↦ rw (full, start_task) ((t, first, complete-IsFull i t full), refl, refl)
      | inr room ↦
          rw (room, start_task)
            (begin-Explains i desk t i.started refl (idle, quiet, first)
              (incomplete-HasRoom i t room))
    ]

-- Every answer of `start` tells why. It is refused with an attempt that runs, with a recording under
-- way, where no active task has the id, and where the task's dataset has as many episodes as it wants,
-- those that the referee threw out not counted; then nothing is changed and nothing called. Else the
-- recorder is called, and where it refuses no attempt runs. Otherwise the attempt runs: with the id, on
-- the first active task of that id, which had room, for the operator, driven with the live source, or
-- with that chosen before, or with the keys, with one call of the recorder, which goes on with
-- a dataset only where that is on the disk and has an episode, and no measurement is shown.
pub start_attempt-Explains :
    (i : StartInput) (desk : Desk)
    → let (desk', error, deeds) = start_attempt i desk in Explains i desk error desk' deeds
unfolding start_attempt task_of
start_attempt-Explains i desk = elim (Option-cases desk.current) [
  | inr (cur, running) ↦
      let out : start_attempt i desk ≡ (desk, some already_running, []) = ground (arith, running) in
      rw out ((cur, running), refl, refl)
  | inl idle ↦ elim (Bool-cases i.status.active) [
    | inl busy ↦
        let out : start_attempt i desk ≡ (desk, some recording, []) = ground (arith, idle, busy) in
        rw out (busy, refl, refl)
    | inr quiet ↦
        let out : start_attempt i desk ≡ start_task i desk (task_of i) =
          ground (arith, idle, quiet) in
        rw out (task-Explains i desk (task_of i) refl idle quiet)
  ]
]
