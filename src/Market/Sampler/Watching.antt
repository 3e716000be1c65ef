-- ===== src/Market/Sampler/Watching.antt =====
-- What the sampler may change of a row.
use eth_global_lisbon_2026_h.Base.{
  ℕ, ◌≡◌, ◌⊎◌, inl, inr, refl, ◌∙◌, true, Option, none, some, lookup, Bool-cases, Option-cases,
  string_eq,
}
use eth_global_lisbon_2026_h.Hub.Rig.{Rig, EpisodeMotion}
use eth_global_lisbon_2026_h.Market.Row.{LedgerRow, id_eq, is_open}
use eth_global_lisbon_2026_h.Market.Settle.{pick_episode, hub_episode}
use eth_global_lisbon_2026_h.Market.Sampler.{
  SamplerState, saved_count, watch_saved, note_evidence, pick_cam, note_motion, note_attempt,
  sample_open, sample_rig,
}

-- What the money and the verdict of an attempt rest on beside its evidence.
pub record SameStanding (old new : LedgerRow) : Type 0 where
  pub same_id : new.id ≡ old.id
  pub same_rig : new.rig ≡ old.rig
  pub same_status : new.status ≡ old.status
  pub same_claim : new.claimed ≡ old.claimed
  pub same_operator : new.operator ≡ old.operator
  pub same_slot : new.slot_id ≡ old.slot_id
  pub same_grade : new.grade ≡ old.grade
  pub same_payment : new.payment ≡ old.payment
  pub same_provenance : new.provenance ≡ old.provenance

SameStanding-trans : (a b c : LedgerRow) → SameStanding a b → SameStanding b c → SameStanding a c
SameStanding-trans a b c h k = record {
  same_id = k.same_id ∙ h.same_id;
  same_rig = k.same_rig ∙ h.same_rig;
  same_status = k.same_status ∙ h.same_status;
  same_claim = k.same_claim ∙ h.same_claim;
  same_operator = k.same_operator ∙ h.same_operator;
  same_slot = k.same_slot ∙ h.same_slot;
  same_grade = k.same_grade ∙ h.same_grade;
  same_payment = k.same_payment ∙ h.same_payment;
  same_provenance = k.same_provenance ∙ h.same_provenance;
}

seen-standing :
    (c : Option ℕ) (ep : Option EpisodeMotion) (row : LedgerRow) (st : SamplerState)
    → SameStanding row (watch_saved c (pick_episode ep row, st)).0
unfolding watch_saved pick_episode
seen-standing none ep row st = record {
  same_id = refl;
  same_rig = refl;
  same_status = refl;
  same_claim = refl;
  same_operator = refl;
  same_slot = refl;
  same_grade = refl;
  same_payment = refl;
  same_provenance = refl;
}
seen-standing (some c) ep row st = record {
  same_id = refl;
  same_rig = refl;
  same_status = refl;
  same_claim = refl;
  same_operator = refl;
  same_slot = refl;
  same_grade = refl;
  same_payment = refl;
  same_provenance = refl;
}

seen-frozen :
    (c : Option ℕ) (ep : Option EpisodeMotion) (row : LedgerRow) (st : SamplerState)
    → let row' = (watch_saved c (pick_episode ep row, st)).0 in
      row' ≡ record row {
        telemetry = record row.telemetry {
          episode = row'.telemetry.episode;
          episode_saved = row'.telemetry.episode_saved;
        };
      }
unfolding watch_saved pick_episode
seen-frozen none ep row st = refl
seen-frozen (some c) ep row st = refl

motion-standing :
    (now : ℕ) (rig : Rig) (row : LedgerRow) (st : SamplerState)
    → SameStanding row (note_motion now rig (row, st)).0
unfolding note_motion
motion-standing now rig row st = record {
  same_id = refl;
  same_rig = refl;
  same_status = refl;
  same_claim = refl;
  same_operator = refl;
  same_slot = refl;
  same_grade = refl;
  same_payment = refl;
  same_provenance = refl;
}

attempt-standing : (rig : Rig) (row : LedgerRow) → SameStanding row (note_attempt rig row)
unfolding note_attempt
attempt-standing rig row = record {
  same_id = refl;
  same_rig = refl;
  same_status = refl;
  same_claim = refl;
  same_operator = refl;
  same_slot = refl;
  same_grade = refl;
  same_payment = refl;
  same_provenance = refl;
}

evidence-standing : (rig : Rig) (row : LedgerRow) → SameStanding row (note_evidence rig row)
unfolding note_evidence
evidence-standing rig row = elim (Option-cases (pick_cam rig.frames rig.cam_mapping)) [
  | inl gone ↦
      rw (gone, note_evidence)
        record {
          same_id = refl;
          same_rig = refl;
          same_status = refl;
          same_claim = refl;
          same_operator = refl;
          same_slot = refl;
          same_grade = refl;
          same_payment = refl;
          same_provenance = refl;
        }
  | inr (cam, picked) ↦ elim (Option-cases (lookup cam rig.frames)) [
    | inl gone ↦
        rw (picked, note_evidence, gone)
          record {
            same_id = refl;
            same_rig = refl;
            same_status = refl;
            same_claim = refl;
            same_operator = refl;
            same_slot = refl;
            same_grade = refl;
            same_payment = refl;
            same_provenance = refl;
          }
    | inr (frame, found) ↦
        rw (picked, note_evidence, found)
          record {
            same_id = refl;
            same_rig = refl;
            same_status = refl;
            same_claim = refl;
            same_operator = refl;
            same_slot = refl;
            same_grade = refl;
            same_payment = refl;
            same_provenance = refl;
          }
  ]
]

open-standing :
    (now : ℕ) (rig : Rig) (row : LedgerRow) (st : SamplerState)
    → SameStanding row (sample_open now rig (row, st)).0
unfolding sample_open
open-standing now rig row st =
    let row1 = note_attempt rig row in
    let row2 = (note_motion now rig (row1, st)).0 in
    SameStanding-trans row row1 (note_evidence rig row2) (attempt-standing rig row) (
      SameStanding-trans row1 row2 (note_evidence rig row2) (motion-standing now rig row1 st)
        (evidence-standing rig row2))

-- A tick of the sampler leaves alone what the money and the verdict of an attempt rest on beside its
-- evidence: its identity, its state, its claim, its operator and its slot, its grade and its payment.
-- Of a closed row it changes nothing but the episode and whether that was saved.
pub sample_rig-standing :
    (now : ℕ) (rig : Rig) (row : LedgerRow) (st : SamplerState)
    → let row' = (sample_rig now rig row st).0 in
      SameStanding row row'
      × ((is_open row.status ≡ true)
          ⊎ (row' ≡ record row {
            telemetry = record row.telemetry {
              episode = row'.telemetry.episode;
              episode_saved = row'.telemetry.episode_saved;
            };
          }))
unfolding sample_rig
sample_rig-standing now rig row st =
    let c = saved_count rig.record_status in
    let ep = hub_episode (some rig) in
    let (row1, st1) = watch_saved c (pick_episode ep row, st) in
    elim (Bool-cases (is_open row.status)) [
      | inl live ↦
          rw (live, sample_rig)
            (
              SameStanding-trans row row1 (sample_open now rig (row1, st1)).0
                  (seen-standing c ep row st) (open-standing now rig row1 st1),
              inl refl,
            )
      | inr shut ↦ rw (shut, sample_rig) (seen-standing c ep row st, inr (seen-frozen c ep row st))
    ]
