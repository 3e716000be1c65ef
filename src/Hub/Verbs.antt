-- ===== src/Hub/Verbs.antt =====
-- The closed set of verbs that the hub relays: apps/web/src/hub/verbs.ts. `v in table` also finds the
-- names that every JavaScript object inherits; what stands there has none of the fields of a `VerbSpec`.
use eth_global_lisbon_2026_h.Base.{
  String, Bool, true, false, Option, none, some, List, [], ◌∷◌, lookup, includes, string_eq,
  if◌then◌else◌, Fields, ◌≡◌, ◌⊎◌, inl, inr, refl, ◌∙◌, arith, Bool-cases, end, field, str, bool,
}

pub record VerbSpec : Type 0 where
  pub path : Option String
  pub body : Option Fields
  pub safety : Bool
  pub owner : Bool
  pub stamps_holder : Bool
  pub args : Option (List String)
  pub hub_only : List String

-- A verb with a path and a body, gated by the lease.
abbrev pub plain : String → Fields → VerbSpec
plain path body = record {
  path = some path;
  body = some body;
  safety = false;
  owner = false;
  stamps_holder = false;
  args = none;
  hub_only = [];
}

-- What a name that the table only inherits gives.
abbrev pub inherited_spec : VerbSpec
inherited_spec = record {
  path = none;
  body = none;
  safety = false;
  owner = false;
  stamps_holder = false;
  args = none;
  hub_only = [];
}

abbrev pub connect : String → VerbSpec
connect backend =
    plain "/api/robot/connect" (field "withLeader" (bool true) (field "backend" (str backend) end))

abbrev pub teleop : String → VerbSpec
teleop source = plain "/api/robot/teleop/start" (field "source" (str source) end)

abbrev pub safety_verb : String → VerbSpec
safety_verb path = record inherited_spec { path = some path; safety = true }

abbrev pub owner_verb : String → Option (List String) → VerbSpec
owner_verb path args = record inherited_spec { path = some path; owner = true; args = args }

abbrev pub attempt_verb : String → List String → VerbSpec
attempt_verb path args = record inherited_spec { path = some path; args = some args }

abbrev pub run_args : List String
run_args =
    "id" ∷ "name" ∷ "datasetRepoId" ∷ "episodes" ∷ "pretrainedPath" ∷ "steps" ∷ "batchSize"
    ∷ "saveFreq" ∷ "hypothesis" ∷ []

unfoldable pub table : List (String × VerbSpec)
table =
    ("connect_sim", connect "sim")
    ∷ ("connect_real", connect "real")
    ∷ ("teleop_start", teleop "keys")
    ∷ ("teleop_start_leader", teleop "leader")
    ∷ ("teleop_start_remote", teleop "remote")
    ∷ ("teleop_stop", safety_verb "/api/robot/teleop/stop")
    ∷ ("estop", safety_verb "/api/robot/estop")
    ∷ ("task_upsert", owner_verb "/api/tasks/upsert" (some ("task" ∷ [])))
    ∷ ("task_delete", owner_verb "/api/tasks/delete" (some ("id" ∷ [])))
    ∷ (
      "dataset_push",
      record (owner_verb "/api/datasets/push"
          (some ("repoName" ∷ "private" ∷ "excludeEpisodes" ∷ []))) {
            hub_only = "excludeEpisodes" ∷ [];
          },
    )
    ∷ (
      "attempt_start",
      record (attempt_verb "/api/attempts/start" ("taskId" ∷ "rejectedEpisodes" ∷ [])) {
        hub_only = "rejectedEpisodes" ∷ [];
        stamps_holder = true;
      },
    )
    ∷ ("attempt_finish", attempt_verb "/api/attempts/finish" ("success" ∷ []))
    ∷ ("camera_probe", owner_verb "/api/cameras/probe-preview" none)
    ∷ ("camera_confirm", owner_verb "/api/cameras/confirm" (some ("workspace" ∷ "wrist" ∷ [])))
    ∷ ("camera_disable", owner_verb "/api/cameras/disable" (some ("index" ∷ "disabled" ∷ [])))
    ∷ ("run_create", owner_verb "/api/runs" (some run_args))
    ∷ (
      "run_update",
      owner_verb "/api/runs/update" (some ("id" ∷ "status" ∷ "hypothesis" ∷ "finding" ∷ [])),
    )
    ∷ []

-- The names on `Object.prototype`.
unfoldable pub inherited : List String
inherited =
    "constructor" ∷ "__defineGetter__" ∷ "__defineSetter__" ∷ "hasOwnProperty" ∷ "__lookupGetter__"
    ∷ "__lookupSetter__" ∷ "isPrototypeOf" ∷ "propertyIsEnumerable" ∷ "toString" ∷ "valueOf"
    ∷ "__proto__" ∷ "toLocaleString" ∷ []

spec_or_inherited : String → Option VerbSpec → Option VerbSpec
unfolding inherited
spec_or_inherited verb (some spec) = some spec
spec_or_inherited verb none = if includes verb inherited then some inherited_spec else none

-- `isVerb(verb)` with `VERBS[verb]`: none where the verb is not in the table.
unfoldable pub verb_spec : String → Option VerbSpec
unfolding table spec_or_inherited
verb_spec verb = spec_or_inherited verb (lookup verb table)

-- What stands under a name: a row of the table, or, under an inherited name, what has no fields.
abbrev pub IsVerb : String → VerbSpec → Type 0
IsVerb verb spec =
    (lookup verb table ≡ some spec) ⊎ ((includes verb inherited ≡ true) × (spec ≡ inherited_spec))

found-IsVerb :
    (verb : String) (spec : VerbSpec) (o : Option VerbSpec)
    → lookup verb table ≡ o
    → spec_or_inherited verb o ≡ some spec
    → IsVerb verb spec
unfolding spec_or_inherited
found-IsVerb verb spec (some row) e h = inl (e ∙ h)
found-IsVerb verb spec none e h = elim (Bool-cases (includes verb inherited)) [
  | inl named ↦ inr (named, ground (arith, named, h))
  | inr unknown ↦ ground (arith, unknown, h)
]

pub verb_spec-IsVerb :
    (verb : String) (spec : VerbSpec) → verb_spec verb ≡ some spec → IsVerb verb spec
unfolding verb_spec
verb_spec-IsVerb verb spec h = found-IsVerb verb spec (lookup verb table) refl h
