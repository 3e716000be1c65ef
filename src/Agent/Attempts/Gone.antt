-- ===== src/Agent/Attempts/Gone.antt =====
-- An operator who is gone while the recorder works.
use eth_global_lisbon_2026_h.Base.{
  ℕ, ◌+◌, ◌<◌, ◌≤◌, All, is_some, ◌≡◌, inl, inr, refl, ap, ◌∙◌, true, none, some, List, [], ◌∷◌,
  ◌++◌, arith, Bool-cases, if◌then◌else◌, string_eq,
}
use eth_global_lisbon_2026_h.Hub.Rig.{RecordStatus}
use eth_global_lisbon_2026_h.Agent.Attempts.{
  Desk, Current, Deed, hand_back, close_attempt, closed_desk, LogWrite, appended, append_log, dies,
  watched_close, log_row, set_gone, tick_active, abandon_after_ms, tick_attempt, abandoned, discard,
}

-- Ticks that find the lease free, each with its time and what the recorder says.
unfoldable pub watch : LogWrite → List (ℕ × RecordStatus) → Desk → Desk × List Deed
unfolding tick_attempt
watch w [] desk = (desk, [])
watch w ((t, status) ∷ ts) desk =
    let (desk', deeds) = tick_attempt w t status none desk in
    let (desk'', more) = watch w ts desk' in (desk'', deeds ++ more)

-- The desk of an attempt whose operator is gone since then.
abbrev gone_desk : Desk → Current → ℕ → Desk
gone_desk desk cur since = record desk {
  current = some (record cur { holder_gone_since = some since });
}

-- The recorder is at work, and the 30 s are not over.
abbrev pub IsWaiting : ℕ → ℕ × RecordStatus → Type 0
IsWaiting since (t, status) = (status.active ≡ true) × (t ≤ since + abandon_after_ms)

last_tick :
    (w : LogWrite) (desk : Desk) (cur : Current) (since t : ℕ) (status : RecordStatus)
    → desk.watching ≡ true
    → status.active ≡ true
    → since + abandon_after_ms < t
    → let (desk', deeds) = watch w ((t, status) ∷ []) (gone_desk desk cur since) in
      (desk'.current ≡ none)
      × (desk'.log ≡ append_log w (log_row cur abandoned) desk.log)
      × (deeds ≡ discard ∷ (if dies w then [] else hand_back cur.prior_source ∷ []))
unfolding watch tick_attempt tick_active set_gone watched_close close_attempt closed_desk log_row
last_tick w desk cur since t status watched live late = elim (Bool-cases (dies w)) [
  | inl broke ↦ ground (arith, watched, live, late, broke)
  | inr well ↦ ground (arith, watched, live, late, well)
]

waiting_tick :
    (w : LogWrite) (desk : Desk) (cur : Current) (since t : ℕ) (status : RecordStatus)
    → desk.watching ≡ true
    → IsWaiting since (t, status)
    → tick_attempt w t status none (gone_desk desk cur since) ≡ (gone_desk desk cur since, [])
unfolding tick_attempt tick_active set_gone
waiting_tick w desk cur since t status watched (live, early) = ground (arith, watched, live, early)

waiting_ticks :
    (w : LogWrite) (desk : Desk) (cur : Current) (since t : ℕ) (status : RecordStatus)
    (ts : List (ℕ × RecordStatus))
    → desk.watching ≡ true
    → All (IsWaiting since) ts
    → watch w (ts ++ (t, status) ∷ []) (gone_desk desk cur since)
      ≡ watch w ((t, status) ∷ []) (gone_desk desk cur since)
unfolding watch
waiting_ticks w desk cur since t status [] watched ok = refl
waiting_ticks w desk cur since t status ((u, s) ∷ ts) watched (here, rest) =
    rw (waiting_tick w desk cur since u s watched here)
      (waiting_ticks w desk cur since t status ts watched rest)

wait_through :
    (w : LogWrite) (desk : Desk) (cur : Current) (since : ℕ) (ts : List (ℕ × RecordStatus))
    → desk.watching ≡ true
    → All (IsWaiting since) ts
    → watch w ts (gone_desk desk cur since) ≡ (gone_desk desk cur since, [])
unfolding watch
wait_through w desk cur since [] watched ok = refl
wait_through w desk cur since ((u, s) ∷ ts) watched (here, rest) =
    rw (waiting_tick w desk cur since u s watched here)
      (wait_through w desk cur since ts watched rest)

first_tick :
    (w : LogWrite) (desk : Desk) (cur : Current) (t : ℕ) (status : RecordStatus)
    (ts : List (ℕ × RecordStatus))
    → desk.current ≡ some cur
    → desk.watching ≡ true
    → cur.holder_gone_since ≡ none
    → status.active ≡ true
    → watch w ((t, status) ∷ ts) desk ≡ watch w ts (gone_desk desk cur t)
unfolding watch
first_tick w desk cur t status ts running watched fresh live =
    let first : tick_attempt w t status none desk ≡ (gone_desk desk cur t, []) =
      unfold tick_attempt tick_active set_gone in ground (arith, running, watched, fresh, live) in
    rw first refl

-- An operator who is gone loses the attempt: over any number of ticks of the watcher that find the
-- recorder at work and the lease free, the attempt runs on, with no call made, as long as no tick is
-- more than 30 s after the first; the first that is discards the recording, logs the attempt as
-- abandoned and hands the arm back, and no attempt runs any more. The watcher runs, the log file can
-- be read and written, and the lease was not found free before.
pub gone_operator_ends :
    (desk : Desk) (cur : Current) (t t' : ℕ) (status status' : RecordStatus)
    (ts : List (ℕ × RecordStatus))
    → desk.current ≡ some cur
    → desk.watching ≡ true
    → cur.holder_gone_since ≡ none
    → status.active ≡ true
    → All (IsWaiting t) ts
    → status'.active ≡ true
    → t + abandon_after_ms < t'
    → let (waited, quiet) = watch appended ((t, status) ∷ ts) desk in
      let (desk', deeds) = watch appended ((t, status) ∷ (ts ++ (t', status') ∷ [])) desk in
      (is_some waited.current ≡ true)
      × (quiet ≡ [])
      × (desk'.current ≡ none)
      × (desk'.log ≡ desk.log ++ log_row cur abandoned ∷ [])
      × (deeds ≡ discard ∷ hand_back cur.prior_source ∷ [])
unfolding watch append_log
gone_operator_ends desk cur t t' status status' ts running watched fresh live ok live' late =
    let (over, logged, done) = last_tick appended desk cur t t' status' watched live' late in
    let all = ts ++ (t', status') ∷ [] in
    let waits =
      first_tick appended desk cur t status ts running watched fresh live
      ∙ wait_through appended desk cur t ts watched ok in
    let ends =
      first_tick appended desk cur t status all running watched fresh live
      ∙ waiting_ticks appended desk cur t t' status' ts watched ok in
    (
      ap (λ x. is_some x.0.current) waits,
      ap (λ x. x.1) waits,
      ap (λ x. x.0.current) ends ∙ over,
      ap (λ x. x.0.log) ends ∙ logged,
      ap (λ x. x.1) ends ∙ done,
    )
