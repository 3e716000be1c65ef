-- ===== src/Agent/Tasks/Finding.antt =====
-- Putting a task, finding it again, and taking it away.
use eth_global_lisbon_2026_h.Base.{
  ℕ, ◌≡◌, ◌≢◌, inl, inr, String, Bool, true, not, Option, none, some, List, [], ◌∷◌, filter, find,
  arith, Bool-cases, if◌then◌else◌, ◌==◌, nat_eq, string_eq, eq_iff,
}
use eth_global_lisbon_2026_h.Hub.Rig.{TaskInfo}
use eth_global_lisbon_2026_h.Agent.Tasks.{
  load_tasks, saved, cleaned, put_task, upsert_task, remove_task, repo_name_for,
}

abbrev pub find_task : String → List TaskInfo → Option TaskInfo
find_task id tasks = find (λ t. t.id == id) tasks

find-put_task :
    (task : TaskInfo) (id : String) (tasks : List TaskInfo)
    → find_task id (put_task task tasks) ≡ (if task.id == id then some task else find_task id tasks)
unfolding put_task find
find-put_task task id [] = ground arith
find-put_task task id (t ∷ ts) =
    ground (arith, find-put_task task id ts, eq_iff t.id task.id, eq_iff t.id id, eq_iff task.id id)

find-filter :
    (gone id : String) (tasks : List TaskInfo)
    → find_task id (filter (λ t. not (t.id == gone)) tasks)
      ≡ (if gone == id then none else find_task id tasks)
unfolding filter find
find-filter gone id [] = ground arith
find-filter gone id (t ∷ ts) =
    ground (arith, find-filter gone id ts, eq_iff t.id gone, eq_iff t.id id, eq_iff gone id)

-- What is saved is found again: where an upsert is accepted, the file then gives the saved task
-- under its id, and under every other id what it gave before.
pub upsert_task-find :
    (key_ok : Bool) (new_id : String) (episodes : String → ℕ) (wanted : String) (task : TaskInfo)
    (file next : List TaskInfo) (clean : TaskInfo) (id : String)
    → upsert_task key_ok new_id episodes wanted task file ≡ saved next clean
    → find_task id next ≡ (if clean.id == id then some clean else find_task id (load_tasks file))
unfolding upsert_task
upsert_task-find key_ok new_id episodes wanted task file next clean id went =
    let clean' = cleaned new_id episodes wanted task in
    elim (Bool-cases key_ok) [
      | inr bad ↦ ground (arith, bad, went)
      | inl good ↦ ground (arith, good, went, find-put_task clean' id (load_tasks file))
    ]

-- What is removed is gone, and nothing else is.
pub remove_task-find :
    (key_ok : Bool) (gone id : String) (file next : List TaskInfo)
    → remove_task key_ok gone file ≡ some next
    → find_task id next ≡ (if gone == id then none else find_task id (load_tasks file))
unfolding remove_task
remove_task-find key_ok gone id file next went =
    ground (arith, went, find-filter gone id (load_tasks file))

-- A task with an id that the rig does not know is added as a new one, but under the very name that is
-- wanted, whatever episodes its dataset holds.
pub unknown_id_adopts :
    (new_id : String) (episodes : String → ℕ) (wanted : String) (task : TaskInfo)
    (file next : List TaskInfo) (clean : TaskInfo)
    → task.id ≢ ""
    → find_task task.id (load_tasks file) ≡ none
    → upsert_task true new_id episodes wanted task file ≡ saved next clean
    → (find_task task.id next ≡ some clean) × (clean.repo_name ≡ wanted)
unfolding upsert_task cleaned repo_name_for
unknown_id_adopts new_id episodes wanted task file next clean known unknown went =
    let clean' = cleaned new_id episodes wanted task in
    ground (
      arith,
      went,
      find-put_task clean' task.id (load_tasks file),
      known,
      eq_iff task.id "",
      eq_iff task.id task.id,
    )
