-- ===== src/Hub/Frames/Laws.antt =====
-- The waiters on a camera, and the sweep of frames.
use eth_global_lisbon_2026_h.Base.{
  ℕ, String, ◌+◌, ◌≤◌, ◌≡◌, ◌≢◌, ◌⊎◌, inl, inr, refl, true, not, Option, none, some, List, [], ◌∷◌,
  ◌++◌, arith, lookup, lookup-insert, lookup-erase, includes, filter, or_else, All, eq_iff,
  string_eq, nat_eq, eq_refl, Bool-cases, ◌==◌,
}
use eth_global_lisbon_2026_h.Hub.Rig.{Rig, RigFrame, frame_orphan_ms}
use eth_global_lisbon_2026_h.Hub.Frames.{
  set_frame, add_waiter, wait_for_frame, leave_cam, stop_waiting, sweep_frames,
}

-- What happens on a rig's cameras: a frame arrives, a caller waits, a caller's keepalive runs out.
pub data FrameEvent : Type 0 where
  arrives : ℕ → String → List ℕ → FrameEvent
  waits : String → ℕ → FrameEvent
  gives_up : String → ℕ → FrameEvent

unfoldable pub frame_step : Rig → FrameEvent → Rig
unfolding set_frame wait_for_frame stop_waiting
frame_step rig (arrives now cam bytes) = (set_frame now rig cam bytes).0
frame_step rig (waits cam w) = wait_for_frame rig cam w
frame_step rig (gives_up cam w) = stop_waiting rig cam w

unfoldable pub frame_run : Rig → List FrameEvent → Rig
frame_run rig [] = rig
frame_run rig (e ∷ es) = frame_run (frame_step rig e) es

-- The callers that are blocked on a camera.
abbrev pub waiting : String → Rig → List ℕ
waiting cam rig = or_else (lookup cam rig.frame_waiters) []

-- An event that neither serves `cam` nor ends the wait of w on it.
abbrev pub LeavesWaiting : String → ℕ → FrameEvent → Type 0
LeavesWaiting cam w (arrives now c bytes) = c ≢ cam
LeavesWaiting cam w (waits c v) = Unit {0}
LeavesWaiting cam w (gives_up c v) = (c ≢ cam) ⊎ (v ≢ w)

includes-append_left :
    (w : ℕ) (xs ys : List ℕ) → includes w xs ≡ true → includes w (xs ++ ys) ≡ true
unfolding includes
includes-append_left w [] ys h = cc
includes-append_left w (x ∷ xs) ys h = ground (arith, includes-append_left w xs ys)

includes-append_right :
    (w : ℕ) (xs ys : List ℕ) → includes w ys ≡ true → includes w (xs ++ ys) ≡ true
unfolding includes
includes-append_right w [] ys h = h
includes-append_right w (x ∷ xs) ys h = ground (arith, includes-append_right w xs ys h)

includes-filter_ne :
    (w v : ℕ) (xs : List ℕ)
    → v ≢ w
    → includes w xs ≡ true
    → includes w (filter (λ u. not (u == v)) xs) ≡ true
unfolding includes filter
includes-filter_ne w v [] ne h = cc
includes-filter_ne w v (x ∷ xs) ne h = ground (arith, includes-filter_ne w v xs ne)

includes-add_waiter : (w : ℕ) (ws : List ℕ) → includes w (add_waiter w ws) ≡ true
unfolding add_waiter
includes-add_waiter w ws = elim (Bool-cases (includes w ws)) [
  | inl there ↦ rw there there
  | inr new ↦ rw new (includes-append_right w ws (w ∷ []) (unfold includes in ground arith))
]

add_waiter-keeps :
    (w v : ℕ) (ws : List ℕ) → includes w ws ≡ true → includes w (add_waiter v ws) ≡ true
unfolding add_waiter
add_waiter-keeps w v ws h = elim (Bool-cases (includes v ws)) [
  | inl there ↦ rw there h
  | inr new ↦ rw new (includes-append_left w ws (v ∷ []) h)
]

-- A call that waits is on the list of its camera.
waits-waiting :
    (cam : String) (w : ℕ) (rig : Rig) → includes w (waiting cam (wait_for_frame rig cam w)) ≡ true
unfolding wait_for_frame
waits-waiting cam w rig =
    rw (lookup-insert, eq_refl) (includes-add_waiter w (or_else (lookup cam rig.frame_waiters) []))

wait_for_frame-waiting :
    (cam c : String) (w v : ℕ) (rig : Rig)
    → includes w (waiting cam rig) ≡ true
    → includes w (waiting cam (wait_for_frame rig c v)) ≡ true
unfolding wait_for_frame
wait_for_frame-waiting cam c w v rig h = elim (Bool-cases (c == cam)) [
  | inl same ↦
      rw ((eq_iff c cam).0 same, lookup-insert, eq_refl) (add_waiter-keeps w v (waiting cam rig) h)
  | inr other ↦ rw (lookup-insert, other) h
]

leave_cam-waiting :
    (cam c : String) (w v : ℕ) (at_c : Option (List ℕ)) (waiters : List (String × List ℕ))
    → lookup c waiters ≡ at_c
    → (c ≢ cam) ⊎ (v ≢ w)
    → includes w (or_else (lookup cam waiters) []) ≡ true
    → includes w (or_else (lookup cam (leave_cam c v at_c waiters)) []) ≡ true
unfolding leave_cam
leave_cam-waiting cam c w v none waiters e ne h = h
leave_cam-waiting cam c w v (some ws) waiters e ne h = elim (Bool-cases (c == cam)) [
  | inl same ↦
      let p = (eq_iff c cam).0 same in
      let in_ws : includes w ws ≡ true = ground (arith, p, e, h) in
      let apart : v ≢ w = ground (arith, p) in
      rw (lookup-insert, same) (includes-filter_ne w v ws apart in_ws)
  | inr other ↦ rw (lookup-insert, other) h
]

step-waiting :
    (cam : String) (w : ℕ) (rig : Rig) (e : FrameEvent)
    → LeavesWaiting cam w e
    → includes w (waiting cam rig) ≡ true
    → includes w (waiting cam (frame_step rig e)) ≡ true
unfolding frame_step
step-waiting cam w rig (arrives now c bytes) ne h =
    ground (arith, lookup-erase c cam rig.frame_waiters, eq_iff c cam)
step-waiting cam w rig (waits c v) ne h = wait_for_frame-waiting cam c w v rig h
step-waiting cam w rig (gives_up c v) ne h =
    unfold stop_waiting in
    leave_cam-waiting cam c w v (lookup c rig.frame_waiters) rig.frame_waiters refl ne h

run-waiting :
    (cam : String) (w : ℕ) (rig : Rig) (es : List FrameEvent)
    → All (LeavesWaiting cam w) es
    → includes w (waiting cam rig) ≡ true
    → includes w (waiting cam (frame_run rig es)) ≡ true
unfolding frame_run
run-waiting cam w rig [] ne h = h
run-waiting cam w rig (e ∷ es) (ne, nes) h =
    run-waiting cam w (frame_step rig e) es nes (step-waiting cam w rig e ne h)

-- No wake-up is lost: a caller that waits for a camera is woken by its next frame, whatever
-- happens in between but the end of the caller's own keepalive; and the frame leaves nobody
-- waiting on the camera, so nobody is woken twice.
pub set_frame-wakes :
    (cam : String) (w : ℕ) (rig : Rig) (es : List FrameEvent) (now : ℕ) (bytes : List ℕ)
    → All (LeavesWaiting cam w) es
    → let woken = set_frame now (frame_run (wait_for_frame rig cam w) es) cam bytes in
      (includes w woken.1 ≡ true) × (waiting cam woken.0 ≡ [])
unfolding set_frame
set_frame-wakes cam w rig es now bytes ne = (
  run-waiting cam w (wait_for_frame rig cam w) es ne (waits-waiting cam w rig),
  rw (lookup-erase, eq_refl),
)

-- A frame is kept while its camera is advertised, or for 3 s after the frame came.
pub lookup-sweep_frames :
    (now : ℕ) (cams : List String) (frames : List (String × RigFrame)) (cam : String) (f : RigFrame)
    → lookup cam frames ≡ some f
    → (includes cam cams ≡ true) ⊎ (now ≤ f.at + frame_orphan_ms)
    → lookup cam (sweep_frames now cams frames) ≡ some f
unfolding sweep_frames lookup filter
lookup-sweep_frames now cams [] cam f h k = cc
lookup-sweep_frames now cams ((c, g) ∷ frames) cam f h k =
    ground (arith, eq_iff c cam, lookup-sweep_frames now cams frames cam f)

-- What the sweep leaves is advertised, or came in the last 3 s.
pub sweep_frames-All :
    (now : ℕ) (cams : List String) (frames : List (String × RigFrame))
    → All
        (λ e. (includes e.0 cams ≡ true) ⊎ (now ≤ e.1.at + frame_orphan_ms))
        (sweep_frames now cams frames)
unfolding sweep_frames filter
sweep_frames-All now cams [] = tt
sweep_frames-All now cams ((c, f) ∷ frames) = ground (arith, sweep_frames-All now cams frames)
