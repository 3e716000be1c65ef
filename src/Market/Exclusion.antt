-- ===== src/Market/Exclusion.antt =====
-- Which recorded episodes ship: `failedEpisodeIndices` and `passedEpisodeCount` of
-- apps/web/src/market/store.ts.
pub mod Verdicts
pub mod Ascending
use eth_global_lisbon_2026_h.Base.{
  ℕ, suc, ◌+◌, String, Bool, true, false, not, ◌&&◌, ◌||◌, Option, none, some, List, [], ◌∷◌, ◌++◌,
  map, leb, ltb, lookup, insert, erase, includes, filter, length, or_else, is_some, is_none, codes,
  to_lower, Eq, ◌==◌, nat_eq, string_eq, option_eq, list_eq, if◌then◌else◌, Fields, ◌↔◌, ◌≡◌,
  eq_iff, arith,
}
use eth_global_lisbon_2026_h.Hub.Rig.{EpisodeMotion}
use eth_global_lisbon_2026_h.Market.Row.{
  RowStatus, opened, closed, graded, paid, rejected, anchored, Claimed, success, discarded,
  abandoned, slot_expired, RowId, id_eq, Operator, RowTelemetry, Evidence, Grade, PaymentKind,
  bonus, nothing, Payment, Provenance, LedgerRow, BondStatus, locked, released, slashed, BondState,
  Market, is_open,
}

-- The referee did not pass the row, or the clock cut it off.
abbrev pub failed_pass : Option Grade → Bool
failed_pass none = false
failed_pass (some g) = not g.pass

abbrev pub passed_pass : Option Grade → Bool
passed_pass none = false
passed_pass (some g) = g.pass

abbrev pub is_expired : Option Claimed → Bool
is_expired (some slot_expired) = true
is_expired _ = false

abbrev pub task_in : List String → Option String → Bool
task_in tasks none = false
task_in tasks (some t) = includes t tasks

-- The episode of a row that must not ship.
unfoldable pub failed_episode : String → List String → LedgerRow → Option ℕ
failed_episode rig tasks row =
    if row.rig == rig
      && (task_in tasks row.task_id && (is_expired row.claimed || failed_pass row.grade))
    then (elim row.telemetry.episode [ none ↦ none | some ep ↦ some ep.episode_index ])
    else none

unfoldable pub passed_episode : String → String → LedgerRow → Option ℕ
passed_episode rig task row =
    if row.rig == rig && (row.task_id == some task && passed_pass row.grade)
    then (elim row.telemetry.episode [ none ↦ none | some ep ↦ some ep.episode_index ])
    else none

-- `set.add(n)`
add_once : Option ℕ → List ℕ → List ℕ
add_once none ns = ns
add_once (some n) ns = if includes n ns then ns else ns ++ n ∷ []

-- The loop over the rows that fills the set.
unfoldable pub collect : (LedgerRow → Option ℕ) → List (RowId × LedgerRow) → List ℕ → List ℕ
unfolding add_once
collect pick [] seen = seen
collect pick ((id, row) ∷ rows) seen = collect pick rows (add_once (pick row) seen)

insert_index : ℕ → List ℕ → List ℕ
insert_index n [] = n ∷ []
insert_index n (k ∷ ks) = if leb n k then n ∷ k ∷ ks else k ∷ insert_index n ks

unfoldable pub sort_indices : List ℕ → List ℕ
unfolding insert_index
sort_indices [] = []
sort_indices (n ∷ ns) = insert_index n (sort_indices ns)

unfoldable pub failed_episode_indices : Market → String → List String → List ℕ
failed_episode_indices m rig tasks = sort_indices (collect (failed_episode rig tasks) m.rows [])

unfoldable pub passed_episode_count : Market → String → String → ℕ
passed_episode_count m rig task = length (collect (passed_episode rig task) m.rows [])
