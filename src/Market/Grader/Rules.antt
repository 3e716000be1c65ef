-- ===== src/Market/Grader/Rules.antt =====
-- What the referee can and cannot pass.
use eth_global_lisbon_2026_h.Base.{
  ◌≤◌, ◌<◌, ◌≡◌, ◌≢◌, ◌↔◌, ◌⊎◌, inl, inr, refl, true, false, Option, none, some, arith,
  Option-cases,
}
use eth_global_lisbon_2026_h.Hub.Rig.{EpisodeMotion}
use eth_global_lisbon_2026_h.Market.Row.{
  LedgerRow, Claimed, success, discarded, abandoned, slot_expired,
}
use eth_global_lisbon_2026_h.Market.Grader.{
  grade_local, Grader, local, zg, zg_router, Remote, failed, is_still, still_path_deg, judge, grade,
  grade_remote,
}

-- A recorded episode passes the local rules exactly when it went 25 degrees and stood still for
-- at most 0.9 of the frames, or when it has 15 frames, reaches over 5 degrees and does one of
-- these two.
pub grade_local_iff :
    (row : LedgerRow) (e : EpisodeMotion)
    → row.telemetry.episode ≡ some e
    → ((grade_local row).pass ≡ true) ↔ (
        ((25000 ≤ e.joint_path_deg) × (e.still_fraction ≤ 900))
        ⊎ ((15 ≤ e.frames)
            × (5000 ≤ e.max_joint_range_deg)
            × ((25000 ≤ e.joint_path_deg) ⊎ (e.still_fraction ≤ 900))))
unfolding grade_local
grade_local_iff row e recorded = ground (arith, recorded)

passed_claimed :
    (grader : Grader) (remote : Remote) (row : LedgerRow) (c : Option Claimed)
    → row.claimed ≡ c
    → (grade grader remote row).pass ≡ true
    → row.claimed ≡ some success
unfolding grade
passed_claimed grader remote row none e h = ground (arith, e)
passed_claimed grader remote row (some success) e h = e
passed_claimed grader remote row (some discarded) e h = ground (arith, e)
passed_claimed grader remote row (some abandoned) e h = ground (arith, e)
passed_claimed grader remote row (some slot_expired) e h = ground (arith, e)

passed_saved :
    (grader : Grader) (remote : Remote) (row : LedgerRow)
    → row.claimed ≡ some success
    → row.telemetry.episode ≡ none
    → (grade grader remote row).pass ≡ true
    → row.telemetry.episode_saved ≢ some false
unfolding grade
passed_saved grader remote row claimed unread h unsaved = ground (arith, claimed, unread, unsaved)

passed_moved :
    (grader : Grader) (remote : Remote) (row : LedgerRow) (e : EpisodeMotion)
    → row.claimed ≡ some success
    → row.telemetry.episode ≡ some e
    → (grade grader remote row).pass ≡ true
    → is_still (some e) ≡ false
unfolding grade
passed_moved grader remote row e claimed recorded h = ground (arith, claimed, recorded)

still_short :
    (e : EpisodeMotion)
    → is_still (some e) ≡ false
    → 0 < e.frames
    → still_path_deg ≤ e.joint_path_deg
unfolding is_still
still_short e h some_frames = ground arith

-- Whatever the remote grader answers, a pass is of an attempt that was claimed as a success; whose
-- episode was read back, or is not known to be unsaved; and whose episode, where it was read back
-- with frames in it, went at least 15 degrees.
pub grade_passes :
    (grader : Grader) (remote : Remote) (row : LedgerRow)
    → (grade grader remote row).pass ≡ true
    → (row.claimed ≡ some success)
      × ((row.telemetry.episode_saved ≢ some false)
          ⊎ ((e : EpisodeMotion) × (row.telemetry.episode ≡ some e)))
      × ((e : EpisodeMotion)
          → row.telemetry.episode ≡ some e
          → 0 < e.frames
          → still_path_deg ≤ e.joint_path_deg)
grade_passes grader remote row h =
    let claimed = passed_claimed grader remote row row.claimed refl h in
    (
      claimed,
      elim (Option-cases row.telemetry.episode) [
        | inl unread ↦ inl (passed_saved grader remote row claimed unread h)
        | inr found ↦ inr found
      ],
      λ e recorded. still_short e (passed_moved grader remote row e claimed recorded h),
    )

-- Grading never stops for want of the remote grader: where it fails, every row gets the score and
-- the verdict that the local grader would give it.
pub grade_falls_back :
    (grader : Grader) (row : LedgerRow)
    → ((grade grader failed row).score ≡ (grade local failed row).score)
      × ((grade grader failed row).pass ≡ (grade local failed row).pass)
unfolding grade judge grade_remote
grade_falls_back local row = (refl, refl)
grade_falls_back zg row = ground arith
grade_falls_back zg_router row = ground arith
