-- ===== src/Hub/Routes/Command.antt =====
-- POST /rigs/:name/command of apps/web/src/hub/routes.ts: the gates of a relayed verb, and the
-- arguments that the hub adds to it (`excludeFor`).
pub mod Gate
pub mod Verdict
use eth_global_lisbon_2026_h.Base.{
  ℕ, ◌+◌, String, Bool, true, false, not, ◌&&◌, ◌||◌, Option, none, some, List, [], ◌∷◌, map,
  filter, length, includes, ltb, is_some, or_else, ◌==◌, nat_eq, string_eq, option_eq,
  if◌then◌else◌, Json, Elems, Fields, null, str, num, arr, obj, nil, cons, end, field, json_length,
  pos,
}
use eth_global_lisbon_2026_h.Hub.Rig.{Rig, RigCommand, TaskInfo}
use eth_global_lisbon_2026_h.Hub.Lease.{lease_holder}
use eth_global_lisbon_2026_h.Hub.Queue.{push_commands, has_room}
use eth_global_lisbon_2026_h.Hub.Registry.{is_online}
use eth_global_lisbon_2026_h.Hub.Verbs.{VerbSpec, verb_spec}
use eth_global_lisbon_2026_h.Hub.Routes.Reply.{
  Refusal, verb_not_allowed, arg_not_allowed, owner_key_required, not_the_controller,
  args_too_large, queue_full, rig_offline, Outcome, refused, queued, is_blank,
}
use eth_global_lisbon_2026_h.Market.Row.{Market}
use eth_global_lisbon_2026_h.Market.Exclusion.{failed_episode_indices}

abbrev pub max_args_bytes : ℕ
max_args_bytes = 4096

-- `args[key]`
unfoldable pub get_field : String → Fields → Option Json
get_field k end = none
get_field k (field j v fs) = if j == k then some v else get_field k fs

-- `{ ...args, [key]: value }`
unfoldable pub put_field : String → Json → Fields → Fields
put_field k v end = field k v end
put_field k v (field j w fs) =
    let rest = put_field k v fs in if j == k then field j v fs else field j w rest

-- `typeof v === "string" ? v : ""`
abbrev pub text_of : Option Json → String
text_of (some (str s)) = s
text_of _ = ""

unfoldable pub numbers : List ℕ → Elems
numbers [] = nil
numbers (n ∷ ns) = cons (num (pos n)) (numbers ns)

-- The tasks that collect for the repository.
unfoldable pub tasks_for : String → List TaskInfo → List String
tasks_for repo tasks = map (λ t. t.id) (filter (λ t. t.repo_name == repo) tasks)

rejected_count : ℕ → Option (String × Json)
rejected_count n = if n == 0 then none else some ("rejectedEpisodes", num (pos n))

unfoldable pub exclusion_list : List ℕ → Option (String × Json)
unfolding numbers
exclusion_list [] = none
exclusion_list (n ∷ ns) = some ("excludeEpisodes", arr (numbers (n ∷ ns)))

-- A repository that no task points at is not looked up.
unfoldable pub exclude_tasks : Market → String → List String → Option (String × Json)
unfolding exclusion_list
exclude_tasks m rig [] = none
exclude_tasks m rig (t ∷ ts) = exclusion_list (failed_episode_indices m rig (t ∷ ts))

-- The one argument that the hub adds, if any, from the verdicts that it holds. `market_on` is
-- `marketEnabled()`.
unfoldable pub exclude_for : Bool → Market → String → Rig → Fields → Option (String × Json)
unfolding rejected_count exclude_tasks tasks_for get_field
exclude_for market_on m verb rig args =
    if not (verb == "dataset_push") && not (verb == "attempt_start")
    then none
    else if not market_on
    then none
    else if verb == "attempt_start"
    then (let task = text_of (get_field "taskId" args) in
        if task == ""
        then none
        else rejected_count (length (failed_episode_indices m rig.name (task ∷ []))))
    else (let repo = text_of (get_field "repoName" args) in
        if repo == "" then none else exclude_tasks m rig.name (tasks_for repo rig.tasks))

-- Safety verbs are anyone's, owner verbs need a key, and all others are the lease holder's.
unfoldable pub command_gate : ℕ → Rig → String → VerbSpec → Option String → Rig × Option Refusal
unfolding lease_holder
command_gate now rig client spec key =
    if spec.owner
    then (rig, if is_blank key then some owner_key_required else none)
    else if spec.safety
    then (rig, none)
    else (let (rig', holder) = lease_holder now rig in
        (rig', if holder == some client then none else some not_the_controller))

-- The first key that the caller may not send.
unfoldable pub bad_arg : VerbSpec → Fields → Option String
bad_arg spec end = none
bad_arg spec (field k v fs) =
    if not (includes k (or_else spec.args [])) || includes k spec.hub_only
    then some k
    else bad_arg spec fs

unfoldable pub args_refusal : VerbSpec → Fields → Option Refusal
unfolding bad_arg
args_refusal spec args = elim (bad_arg spec args) [
  | some k ↦ some (arg_not_allowed k)
  | none ↦ if ltb max_args_bytes (json_length (obj args)) then some args_too_large else none
]

unfoldable pub queue_refusal : ℕ → Rig → Option Refusal
unfolding is_online has_room
queue_refusal now rig =
    if not (is_online now rig)
    then some rig_offline
    else if not (has_room rig)
    then some queue_full
    else none

unfoldable pub with_extra : Option (String × Json) → Fields → Fields
unfolding put_field
with_extra none args = args
with_extra (some (k, v)) args = put_field k v args

-- The command that is queued: it carries the holder at this time, never a name from the request.
unfoldable pub relayed : ℕ → String → VerbSpec → Fields → Option String → Option String → RigCommand
relayed now verb spec args key holder = record {
  verb = verb;
  args = if is_some spec.args then some args else none;
  owner_key = if spec.owner then key else none;
  holder = holder;
  queued_at = now;
}

enqueue : ℕ → Rig → String → VerbSpec → Fields → Option String → Rig × Outcome
unfolding relayed push_commands lease_holder
enqueue now rig verb spec args key =
    let (rig', holder) = lease_holder now rig in
    (push_commands rig' (relayed now verb spec args key holder ∷ []), queued verb)

-- The second half of the handler, past the gate of the verb.
admit : ℕ → Bool → Market → Rig → String → VerbSpec → Fields → Option String → Rig × Outcome
unfolding args_refusal queue_refusal enqueue with_extra exclude_for
admit now market_on m rig verb spec args key = elim (args_refusal spec args) [
  | some why ↦ (rig, refused why)
  | none ↦ elim (queue_refusal now rig) [
    | some why ↦ (rig, refused why)
    | none ↦ enqueue now rig verb spec (with_extra (exclude_for market_on m verb rig args) args) key
  ]
]

command_as :
    ℕ → Bool → Market → Rig → String → String → VerbSpec → Fields → Option String → Rig × Outcome
unfolding command_gate admit
command_as now market_on m rig client verb spec args key =
    let (rig', gate) = command_gate now rig client spec key in
    elim gate [
      | some why ↦ (rig', refused why)
      | none ↦ admit now market_on m rig' verb spec args key
    ]

-- The whole handler, from a request with a client id.
unfoldable pub command_route :
    ℕ → Bool → Market → Rig → String → String → Fields → Option String → Rig × Outcome
unfolding verb_spec command_as
command_route now market_on m rig client verb args key = elim (verb_spec verb) [
  | none ↦ (rig, refused (verb_not_allowed verb))
  | some spec ↦ command_as now market_on m rig client verb spec args key
]
