-- ===== src/Agent/LinkTests.antt =====
-- Runs of the rig's link on small inputs: packets for the driver, tasks for the hub, and a command.
use mathlib.Core.List.{Sublist}
use eth_global_lisbon_2026_h.Base.{
  ℕ, ◌+◌, ◌≤◌, ◌≡◌, refl, ◌⊎◌, String, true, false, none, some, List, [], ◌∷◌, ◌++◌, length,
  string_eq, arith, str, Fields, end, field, option_eq, lookup,
}
use eth_global_lisbon_2026_h.Hub.Rig.{RigCommand}
use eth_global_lisbon_2026_h.Hub.Verbs.{VerbSpec, verb_spec, IsVerb}
use eth_global_lisbon_2026_h.Hub.Registry.{Hub, get_rig}
use eth_global_lisbon_2026_h.Hub.Registry.Laws.{shown}
use eth_global_lisbon_2026_h.Hub.Routes.Link.{LinkBody}
use eth_global_lisbon_2026_h.Hub.Routes.Command.{get_field}
use eth_global_lisbon_2026_h.Agent.Link.{
  Link, DrainEvent, comes, answered, drain_run, link_tick, advertised,
}
use eth_global_lisbon_2026_h.Agent.Link.Inputs.{idle, answers, came, last_from, apply_input_settles}
use eth_global_lisbon_2026_h.Agent.Link.Advertised.{Agrees, link_tick_converges}
use eth_global_lisbon_2026_h.Agent.Link.Commands.{
  called, run_command, sent_field, command_body, with_args, put_text, run_command_calls,
}

-- Two of three packets reach the driver.
abbrev burst : List (DrainEvent ℕ)
burst = comes 1 ∷ comes 2 ∷ comes 3 ∷ answered ∷ []

second_is_skipped : (drain_run idle burst).1 ≡ 1 ∷ 3 ∷ []
unfolding drain_run
second_is_skipped = refl

apply_input_settles_example :
    let (s, out) = drain_run idle burst in
    let (s', out') = drain_run s (answered ∷ answered ∷ []) in
    (length out ≤ answers burst + 1)
    × (s' ≡ idle)
    × Sublist (out ++ out') (came burst)
    × (last_from none (out ++ out') ≡ last_from none (came burst))
apply_input_settles_example = apply_input_settles burst

abbrev empty_hub : Hub
empty_hub = record { rigs = []; leaders = [] }

abbrev telemetry_body : LinkBody
telemetry_body = record {
  name = none;
  backend = "sim";
  arm_state = "idle";
  source = none;
  leader = none;
  joints = none;
  cams = none;
  last_error = none;
  cam_mapping = none;
  cam_brightness = none;
  cam_disabled = none;
  record_status = none;
  attempt = none;
  push = none;
  last_command_result = none;
  link_ms = none;
  input_transport = none;
  tasks = none;
  tasks_rev = none;
  runs = none;
  runs_rev = none;
}

-- A link that heard of this revision from a hub that was started again since.
abbrev restarted : Link
restarted = record {
  tasks = record {
    rows =
        record {
          id = "t1";
          title = "stack";
          instructions = "stack the cubes";
          repo_name = "poh_stack";
          episode_seconds = 30;
          reset_seconds = 5;
          max_episodes = some 5;
          active = true;
          episodes_done = none;
        }
        ∷ [];
    rev = some "1f";
    hub_rev = some (some "1f");
  };
  runs = record { rows = []; rev = none; hub_rev = none };
}

not_registered : Agrees restarted.tasks (shown (get_rig empty_hub "rig"))
unfolding get_rig lookup
not_registered = λ e. absurd (ground (arith, e))

link_tick_converges_example :
    let (h', l') = link_tick 100 "rig" empty_hub telemetry_body restarted in
    let (h'', l'') = link_tick 150 "rig" h' telemetry_body l' in
    (shown (get_rig h'' "rig") ≡ (restarted.tasks.rows, restarted.tasks.rev))
    × (advertised l''.tasks ≡ none)
link_tick_converges_example =
    link_tick_converges 100 150 "rig" empty_hub telemetry_body telemetry_body restarted tt refl
      not_registered

abbrev start_command : RigCommand
start_command = record {
  verb = "attempt_start";
  args = some (field "taskId" (str "t1") (field "operator" (str "mallory") end));
  owner_key = none;
  holder = some "alice";
  queued_at = 0;
}

abbrev start_body : Fields
start_body = field "taskId" (str "t1") (field "operator" (str "alice") end)

starts : run_command (λ k. false) start_command ≡ called (some "/api/attempts/start") start_body
unfolding run_command verb_spec command_body with_args put_text lookup
starts = refl

run_command_calls_example :
    (spec : VerbSpec) × IsVerb "attempt_start" spec
    × (some "/api/attempts/start" ≡ spec.path)
    × ((spec.owner ≡ false) ⊎ (false ≡ true))
    × ((j : String) → get_field j start_body ≡ sent_field spec start_command j)
run_command_calls_example =
    run_command_calls (λ k. false) start_command (some "/api/attempts/start") start_body starts
