-- ===== src/Hub/Routes/Command/Verdict.antt =====
-- The arguments that only the hub may set.
use eth_global_lisbon_2026_h.Base.{
  ℕ, String, true, false, Option, none, some, List, [], ◌∷◌, ◌++◌, lookup, includes, ◌==◌,
  string_eq, eq_iff, if◌then◌else◌, Bool-cases, arith, ◌≡◌, ◌≢◌, refl, inl, inr, Fields, end, field,
  Json, arr, str,
}
use eth_global_lisbon_2026_h.Hub.Rig.{Rig, RigCommand}
use eth_global_lisbon_2026_h.Hub.Lease.{lease_holder}
use eth_global_lisbon_2026_h.Hub.Verbs.{VerbSpec, verb_spec, owner_verb}
use eth_global_lisbon_2026_h.Hub.Routes.Reply.{queued}
use eth_global_lisbon_2026_h.Hub.Routes.Command.{
  get_field, put_field, exclude_tasks, exclusion_list, relayed, with_extra, exclude_for, numbers,
  tasks_for, command_route,
}
use eth_global_lisbon_2026_h.Hub.Routes.Command.Gate.{
  IsAllowed, no_args, one_arg, IsQueued, command_route_accepts,
}
use eth_global_lisbon_2026_h.Market.Row.{Market}
use eth_global_lisbon_2026_h.Market.Exclusion.{failed_episode_indices}

pub get-put :
    (k j : String) (v : Json) (fs : Fields)
    → get_field j (put_field k v fs) ≡ (if k == j then some v else get_field j fs)
unfolding get_field put_field
get-put k j v end = refl
get-put k j v (field i w fs) = ground (arith, eq_iff i k, eq_iff i j, eq_iff k j, get-put k j v fs)

-- Arguments that a caller may send hold none of the hub's.
no_hub_arg :
    (spec : VerbSpec) (args : Fields) (k : String)
    → IsAllowed spec args
    → includes k spec.hub_only ≡ true
    → get_field k args ≡ none
unfolding get_field
no_hub_arg spec end k no_args h = refl
no_hub_arg spec (field j v fs) k (one_arg known own rest) h = elim (Bool-cases (j == k)) [
  | inl same ↦
      let p = (eq_iff j k).0 same in
      let q : includes k spec.hub_only ≡ false = rw p at own in ground arith
  | inr other ↦ rw other (no_hub_arg spec fs k rest h)
]

-- What a publish of the repository must leave behind: the failed episodes of the tasks that
-- collect for it.
pub unshipped : Market → Rig → String → List ℕ
unshipped m rig repo = elim (tasks_for repo rig.tasks) [
  | [] ↦ []
  | t ∷ ts ↦ failed_episode_indices m rig.name (t ∷ ts)
]

abbrev pub exclusion : List ℕ → Option Json
exclusion [] = none
exclusion (n ∷ ns) = some (arr (numbers (n ∷ ns)))

push_spec : VerbSpec
push_spec =
    record (owner_verb "/api/datasets/push"
      (some ("repoName" ∷ "private" ∷ "excludeEpisodes" ∷ []))) {
        hub_only = "excludeEpisodes" ∷ [];
      }

push_known : verb_spec "dataset_push" ≡ some push_spec
unfolding verb_spec lookup push_spec
push_known = refl

push_extra :
    (m : Market) (rig : Rig) (args : Fields) (repo : String)
    → get_field "repoName" args ≡ some (str repo)
    → repo ≢ ""
    → exclude_for true m "dataset_push" rig args
      ≡ exclude_tasks m rig.name (tasks_for repo rig.tasks)
unfolding exclude_for
push_extra m rig args repo named nonempty = rw named ground (arith, nonempty, eq_iff repo "")

exclude-list :
    (ns : List ℕ) (args : Fields)
    → get_field "excludeEpisodes" args ≡ none
    → get_field "excludeEpisodes" (with_extra (exclusion_list ns) args) ≡ exclusion ns
unfolding with_extra exclusion_list
exclude-list [] args free = free
exclude-list (n ∷ ns) args free =
    ground (arith, get-put "excludeEpisodes" "excludeEpisodes" (arr (numbers (n ∷ ns))) args)

exclude-field :
    (m : Market) (rig : String) (tasks : List String) (args : Fields)
    → get_field "excludeEpisodes" args ≡ none
    → get_field "excludeEpisodes" (with_extra (exclude_tasks m rig tasks) args)
      ≡ exclusion (elim tasks [ [] ↦ [] | t ∷ ts ↦ failed_episode_indices m rig (t ∷ ts) ])
unfolding exclude_tasks with_extra
exclude-field m rig [] args free = free
exclude-field m rig (t ∷ ts) args free =
    exclude-list (failed_episode_indices m rig (t ∷ ts)) args free

-- With the market on, a publish that names a repository and is accepted is queued with the failed
-- episodes of the tasks that collect for it as its `excludeEpisodes`, and with no such argument
-- where none failed.
pub dataset_push-excludes :
    (now : ℕ) (m : Market) (rig : Rig) (client sent repo : String) (args : Fields)
    (key : Option String)
    → (command_route now true m rig client "dataset_push" args key).1 ≡ queued sent
    → get_field "repoName" args ≡ some (str repo)
    → repo ≢ ""
    → (c : RigCommand) × (fs : Fields) × ((command_route now true m rig client "dataset_push" args
          key).0.pending
        ≡ rig.pending ++ c ∷ [])
      × (c.args ≡ some fs)
      × (get_field "excludeEpisodes" fs ≡ exclusion (unshipped m rig repo))
unfolding IsQueued relayed push_spec unshipped includes
dataset_push-excludes now m rig client sent repo args key h named nonempty =
    let (spec, known, entitled, allowed, fits, on, room, gained) =
      command_route_accepts now true m rig client "dataset_push" sent args key h in
    let is_push : spec ≡ push_spec = ground (arith, known, push_known) in
    let free = no_hub_arg spec args "excludeEpisodes" allowed (rw is_push refl) in
    let fs = with_extra (exclude_for true m "dataset_push" rig args) args in
    (
      relayed now "dataset_push" push_spec fs key (lease_holder now rig).1,
      fs,
      rw is_push at gained,
      refl,
      rw (push_extra m rig args repo named nonempty)
          (exclude-field m rig.name (tasks_for repo rig.tasks) args free),
    )
