-- ===== src/Agent/Tasks/Bounds.antt =====
-- What may stand in the file.
use Prim.Native.String.{count}
use Prim.Native.String.count.{nil as count_nil, cons as count_cons}
use eth_global_lisbon_2026_h.Base.{
  ℕ, zero, suc, ◌≤◌, ◌≡◌, inl, inr, refl, String, Bool, true, false, List, [], ◌∷◌, length, All,
  arith, ltb, Bool-cases, ◌==◌, string_eq,
}
use eth_global_lisbon_2026_h.Hub.Rig.{TaskInfo}
use eth_global_lisbon_2026_h.Agent.Tasks.{
  max_tasks, max_title, max_instructions, clamp, load_tasks, cleaned, put_task, upsert_task,
  file_after,
}

count-clamp : (n : ℕ) (s : String) → count (clamp n s) ≤ n
unfolding clamp
count-clamp zero s = omega (arith, count_nil)
count-clamp (suc n) String.[] = omega (arith, count_nil)
count-clamp (suc n) (String.◌∷◌ c s) =
    let shorter = count-clamp n s in
    let one_more : count (String.◌∷◌ c (clamp n s)) ≡ suc (count (clamp n s)) =
      count_cons c (clamp n s) in
    omega (arith, shorter, one_more)

-- A task that the link can carry.
abbrev pub IsShort : TaskInfo → Type 0
IsShort t = (count t.title ≤ max_title) × (count t.instructions ≤ max_instructions)

-- A file that the link can carry.
abbrev pub IsTidy : List TaskInfo → Type 0
IsTidy tasks = (length tasks ≤ max_tasks) × All IsShort tasks

load-IsShort : (file : List TaskInfo) → All IsShort file → All IsShort (load_tasks file)
unfolding load_tasks
load-IsShort [] ok = tt
load-IsShort (t ∷ ts) (here, rest) = (here, load-IsShort ts rest)

length-load : (file : List TaskInfo) → length (load_tasks file) ≡ length file
unfolding load_tasks
length-load [] = refl
length-load (t ∷ ts) = omega (arith, length-load ts)

put_task-IsShort :
    (task : TaskInfo) (tasks : List TaskInfo)
    → IsShort task
    → All IsShort tasks
    → All IsShort (put_task task tasks)
unfolding put_task
put_task-IsShort task [] short ok = (short, tt)
put_task-IsShort task (t ∷ ts) short (here, rest) = elim (Bool-cases (t.id == task.id)) [
  | inl same ↦ rw same (short, rest)
  | inr other ↦ rw other (here, put_task-IsShort task ts short rest)
]

cleaned-IsShort :
    (new_id : String) (episodes : String → ℕ) (wanted : String) (task : TaskInfo)
    → IsShort (cleaned new_id episodes wanted task)
unfolding cleaned
cleaned-IsShort new_id episodes wanted task =
    (count-clamp max_title task.title, count-clamp max_instructions task.instructions)

-- The payload of the link stays bounded: no upsert, accepted or not and with whatever texts, leaves
-- the file with more than 16 tasks, or with a title of more than 80 or instructions of more than 400
-- characters, if it had none before.
pub upsert_task-IsTidy :
    (key_ok : Bool) (new_id : String) (episodes : String → ℕ) (wanted : String) (task : TaskInfo)
    (file : List TaskInfo)
    → IsTidy file
    → IsTidy (file_after (upsert_task key_ok new_id episodes wanted task file) file)
unfolding upsert_task file_after
upsert_task-IsTidy false new_id episodes wanted task file ok = ok
upsert_task-IsTidy true new_id episodes wanted task file (few, short) =
    let clean = cleaned new_id episodes wanted task in
    let next = put_task clean (load_tasks file) in
    elim (Bool-cases (ltb max_tasks (length next))) [
      | inl many ↦ rw many (few, short)
      | inr fits ↦ rw fits (
        ground (arith, fits),
        put_task-IsShort clean (load_tasks file) (cleaned-IsShort new_id episodes wanted task)
            (load-IsShort file short),
      )
    ]
