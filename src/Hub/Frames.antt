-- ===== src/Hub/Frames.antt =====
-- Camera frames and their waiters: `setFrame` and `waitForFrame` of apps/web/src/hub/store.ts, and
-- the sweep of orphaned frames in `upsertRig`. A caller that waits is known by a number.
pub mod Laws
use eth_global_lisbon_2026_h.Base.{
  ℕ, ◌+◌, String, Bool, not, ◌&&◌, ◌||◌, Option, none, some, List, [], ◌∷◌, ◌++◌, ltb, lookup,
  insert, erase, filter, includes, or_else, ◌==◌, nat_eq, string_eq, if◌then◌else◌,
}
use eth_global_lisbon_2026_h.Hub.Rig.{Rig, RigFrame, frame_orphan_ms}

-- Stores the frame, and gives the waiters to wake: each is woken once.
unfoldable pub set_frame : ℕ → Rig → String → List ℕ → Rig × List ℕ
set_frame now rig cam bytes =
    let rig' = record rig {
      frames = insert cam (record { bytes = bytes; at = now }) rig.frames;
      frame_waiters = erase cam rig.frame_waiters;
    } in
    (rig', or_else (lookup cam rig.frame_waiters) [])

add_waiter : ℕ → List ℕ → List ℕ
add_waiter w ws = if includes w ws then ws else ws ++ w ∷ []

-- The caller registers itself and blocks.
unfoldable pub wait_for_frame : Rig → String → ℕ → Rig
unfolding add_waiter
wait_for_frame rig cam w = record rig {
  frame_waiters =
      insert cam (add_waiter w (or_else (lookup cam rig.frame_waiters) [])) rig.frame_waiters;
}

leave_cam : String → ℕ → Option (List ℕ) → List (String × List ℕ) → List (String × List ℕ)
leave_cam cam w none waiters = waiters
leave_cam cam w (some ws) waiters = insert cam (filter (λ v. not (v == w)) ws) waiters

-- The keepalive of a caller runs out.
unfoldable pub stop_waiting : Rig → String → ℕ → Rig
unfolding leave_cam
stop_waiting rig cam w = record rig {
  frame_waiters = leave_cam cam w (lookup cam rig.frame_waiters) rig.frame_waiters;
}

-- A frame goes if its camera is not advertised and has sent nothing for 3 s.
unfoldable pub sweep_frames : ℕ → List String → List (String × RigFrame) → List (String × RigFrame)
sweep_frames now cams = filter (λ e. includes e.0 cams || not (ltb (e.1.at + frame_orphan_ms) now))
