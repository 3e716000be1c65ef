-- ===== src/Hub/Routes/Reply.antt =====
-- The answers of the routes of apps/web/src/hub/routes.ts: each error is a constructor, with its
-- status code, and the body of a request as it is parsed.
use eth_global_lisbon_2026_h.Base.{
  ℕ, String, Bool, true, Option, none, some, Fields, ◌==◌, string_eq,
}
use eth_global_lisbon_2026_h.Hub.Rig.{Readings}

pub data Refusal : Type 0 where
  name_required client_required rig_and_cam_required bad_action : Refusal
  unknown_rig unknown_leader not_found : Refusal
  rig_offline leader_offline : Refusal
  is_driving : String → Refusal
  verb_not_allowed : String → Refusal
  arg_not_allowed : String → Refusal
  owner_key_required not_the_controller not_bound take_control_first : Refusal
  args_too_large queue_full : Refusal

unfoldable pub status_code : Refusal → ℕ
status_code name_required = 400
status_code client_required = 400
status_code rig_and_cam_required = 400
status_code bad_action = 400
status_code unknown_rig = 404
status_code unknown_leader = 404
status_code not_found = 404
status_code rig_offline = 409
status_code leader_offline = 409
status_code (is_driving _) = 409
status_code (verb_not_allowed _) = 403
status_code (arg_not_allowed _) = 403
status_code owner_key_required = 403
status_code not_the_controller = 403
status_code not_bound = 403
status_code take_control_first = 403
status_code args_too_large = 413
status_code queue_full = 429

-- `holds` answers a claim, with status 409 where it failed; `awaits` is an input that was let
-- through and waits for `impair()`.
pub data Outcome : Type 0 where
  refused : Refusal → Outcome
  holds : Bool → Option String → Outcome
  released : Option String → Outcome
  queued : String → Outcome
  awaits : Outcome
  done : Outcome

-- The body of a POST to a rig. A key of the wrong type is outside the model.
pub record RigBody : Type 0 where
  pub client_id : Option String
  pub axes : Option Readings
  pub joints : Option Readings
  pub sent_at : Option ℕ
  pub verb : Option String
  pub force : Bool
  pub args : Option Fields
  pub owner_key : Option String

-- `!text`: undefined, null or empty.
abbrev pub is_blank : Option String → Bool
is_blank none = true
is_blank (some s) = s == ""
