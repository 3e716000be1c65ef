-- ===== src/Agent/Tasks.antt =====
-- The rig's own store of tasks: apps/web/src/api/services/tasks-registry.ts. The file is the list that
-- it holds; the progress of a dataset, the check of the owner's key and the id of a new task are
-- arguments, and so is the name that `slugRepoName` makes of a task. A text is cut by its characters,
-- which are the units of the source's `slice` in the basic plane.
pub mod Generations
pub mod Bounds
pub mod Finding
use Prim.Native.String.{◌++◌ as ◌and◌, count}
use eth_global_lisbon_2026_h.Base.{
  ℕ, zero, suc, ◌+◌, ◌/◌, ◌%◌, String, Bool, true, false, not, Option, none, some, List, [], ◌∷◌,
  ◌++◌, map, filter, any, find, length, ltb, or_else, ◌==◌, nat_eq, string_eq, if◌then◌else◌,
}
use eth_global_lisbon_2026_h.Hub.Rig.{TaskInfo}

abbrev pub max_tasks : ℕ
max_tasks = 16

abbrev pub max_title : ℕ
max_title = 80

abbrev pub max_instructions : ℕ
max_instructions = 400

-- `clamp`: the first characters of a text.
unfoldable pub clamp : ℕ → String → String
clamp zero s = ""
clamp (suc n) String.[] = ""
clamp (suc n) (String.◌∷◌ c s) = String.◌∷◌ c (clamp n s)

digit : ℕ → String
digit n =
    if n == 0
    then "0"
    else if n == 1
    then "1"
    else if n == 2
    then "2"
    else if n == 3
    then "3"
    else if n == 4
    then "4"
    else if n == 5
    then "5"
    else if n == 6
    then "6"
    else if n == 7
    then "7"
    else if n == 8
    then "8"
    else "9"

-- A number below 100, as a text.
decimal : ℕ → String
unfolding digit
decimal n = if ltb n 10 then digit n else (digit (n / 10) and digit (n % 10))

-- `wanted`, `<wanted>_v2`, `<wanted>_v3` and so on.
unfoldable pub generation : String → ℕ → String
unfolding decimal
generation wanted gen = if gen == 1 then wanted else (wanted and ("_v" and decimal gen))

-- The loop at generation `gen` with so many rounds to go. `episodes` is `episodesIn`.
unfoldable pub free_from : ℕ → ℕ → (String → ℕ) → String → String
unfolding generation
free_from zero gen episodes wanted = generation wanted gen
free_from (suc left) gen episodes wanted =
    let later = free_from left (gen + 1) episodes wanted in
    if episodes (generation wanted gen) == 0 then generation wanted gen else later

abbrev pub max_generations : ℕ
max_generations = 50

unfoldable pub free_repo_name : (String → ℕ) → String → String
unfolding free_from
free_repo_name episodes wanted = free_from max_generations 1 episodes wanted

-- What is read back from the file: progress is never kept there.
abbrev pub forget_progress : TaskInfo → TaskInfo
forget_progress t = record t { episodes_done = none }

unfoldable pub load_tasks : List TaskInfo → List TaskInfo
load_tasks file = map forget_progress file

-- `list`: each task with the episodes of its dataset, if there is one.
unfoldable pub with_progress : (String → Option ℕ) → List TaskInfo → List TaskInfo
unfolding load_tasks
with_progress total file =
    map (λ (t : TaskInfo). record t { episodes_done = total t.repo_name }) (load_tasks file)

pub data UpsertResult : Type 0 where
  wrong_key too_many : UpsertResult
  saved : List TaskInfo → TaskInfo → UpsertResult

-- A task with no id is a new one, and gets a name that holds no episodes.
unfoldable pub repo_name_for : (String → ℕ) → String → TaskInfo → String
unfolding free_repo_name
repo_name_for episodes wanted task =
    if task.id == "" then free_repo_name episodes wanted else wanted

unfoldable pub cleaned : String → (String → ℕ) → String → TaskInfo → TaskInfo
unfolding repo_name_for clamp
cleaned new_id episodes wanted task = record task {
  repo_name = repo_name_for episodes wanted task;
  episodes_done = none;
  id = if task.id == "" then new_id else task.id;
  title = clamp max_title task.title;
  instructions = clamp max_instructions task.instructions;
}

-- In place of the first task with its id, at the end where there is none.
unfoldable pub put_task : TaskInfo → List TaskInfo → List TaskInfo
put_task task [] = task ∷ []
put_task task (t ∷ ts) =
    let rest = put_task task ts in if t.id == task.id then task ∷ ts else t ∷ rest

unfoldable pub upsert_task :
    Bool → String → (String → ℕ) → String → TaskInfo → List TaskInfo → UpsertResult
unfolding load_tasks put_task cleaned
upsert_task key_ok new_id episodes wanted task file =
    if not key_ok
    then wrong_key
    else (let clean = cleaned new_id episodes wanted task in
        let next = put_task clean (load_tasks file) in
        if ltb max_tasks (length next) then too_many else saved next clean)

unfoldable pub remove_task : Bool → String → List TaskInfo → Option (List TaskInfo)
unfolding load_tasks
remove_task key_ok id file =
    if key_ok then some (filter (λ t. not (t.id == id)) (load_tasks file)) else none

-- What the file holds after a call.
unfoldable pub file_after : UpsertResult → List TaskInfo → List TaskInfo
file_after (saved next clean) file = next
file_after _ file = file
