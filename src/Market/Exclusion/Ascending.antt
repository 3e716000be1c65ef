-- ===== src/Market/Exclusion/Ascending.antt =====
-- The order of the list of failed episodes.
use eth_global_lisbon_2026_h.Base.{
  ℕ, String, ◌≡◌, ◌<◌, inl, inr, refl, false, Option, none, some, List, [], ◌∷◌, ◌++◌, arith,
  includes, nat_eq, leb, Bool-cases,
}
use eth_global_lisbon_2026_h.Market.Row.{RowId, LedgerRow, Market}
use eth_global_lisbon_2026_h.Market.Exclusion.Verdicts.{includes-append, includes-sort_indices}
use eth_global_lisbon_2026_h.Market.Exclusion.{
  failed_episode, add_once, collect, insert_index, sort_indices, failed_episode_indices,
}

-- Ascending, with no number twice.
abbrev pub IsAscending : List ℕ → Type 0
IsAscending [] = Unit {0}
IsAscending (n ∷ []) = Unit {0}
IsAscending (n ∷ k ∷ ks) = (n < k) × IsAscending (k ∷ ks)

abbrev IsDistinct : List ℕ → Type 0
IsDistinct [] = Unit {0}
IsDistinct (n ∷ ns) = (includes n ns ≡ false) × IsDistinct ns

insert_above :
    (n k : ℕ) (ks : List ℕ)
    → n < k
    → IsAscending (n ∷ ks)
    → includes k ks ≡ false
    → IsAscending (n ∷ insert_index k ks)
unfolding insert_index includes
insert_above n k [] lt h d = (lt, tt)
insert_above n k (j ∷ ks) lt (first, h) d = elim (Bool-cases (leb k j)) [
  | inl le ↦ rw le (lt, (ground arith, h))
  | inr gt ↦ rw gt (first, insert_above j k ks (ground arith) h (ground arith))
]

insert_index-IsAscending :
    (k : ℕ) (ks : List ℕ) → IsAscending ks → includes k ks ≡ false → IsAscending (insert_index k ks)
unfolding insert_index includes
insert_index-IsAscending k [] h d = tt
insert_index-IsAscending k (j ∷ ks) h d = elim (Bool-cases (leb k j)) [
  | inl le ↦ rw le (ground arith, h)
  | inr gt ↦ rw gt (insert_above j k ks (ground arith) h (ground arith))
]

sort_indices-IsAscending : (ks : List ℕ) → IsDistinct ks → IsAscending (sort_indices ks)
unfolding sort_indices
sort_indices-IsAscending [] d = tt
sort_indices-IsAscending (k ∷ ks) (new, d) =
    insert_index-IsAscending k (sort_indices ks) (sort_indices-IsAscending ks d)
      (rw includes-sort_indices new)

append-IsDistinct :
    (n : ℕ) (ns : List ℕ) → IsDistinct ns → includes n ns ≡ false → IsDistinct (ns ++ n ∷ [])
unfolding includes
append-IsDistinct n [] d e = (refl, tt)
append-IsDistinct n (k ∷ ns) (new, d) e =
    (ground (arith, includes-append k ns (n ∷ [])), append-IsDistinct n ns d (ground arith))

add_once-IsDistinct :
    (o : Option ℕ) (seen : List ℕ) → IsDistinct seen → IsDistinct (add_once o seen)
unfolding add_once
add_once-IsDistinct none seen d = d
add_once-IsDistinct (some n) seen d = elim (Bool-cases (includes n seen)) [
  | inl there ↦ rw there d
  | inr new ↦ rw new (append-IsDistinct n seen d new)
]

collect-IsDistinct :
    (pick : LedgerRow → Option ℕ) (rows : List (RowId × LedgerRow)) (seen : List ℕ)
    → IsDistinct seen
    → IsDistinct (collect pick rows seen)
unfolding collect
collect-IsDistinct pick [] seen d = d
collect-IsDistinct pick ((id, row) ∷ rows) seen d =
    collect-IsDistinct pick rows (add_once (pick row) seen) (add_once-IsDistinct (pick row) seen d)

-- The list of failed episodes ascends, so it names no episode twice.
pub failed_episode_indices-IsAscending :
    (m : Market) (rig : String) (tasks : List String)
    → IsAscending (failed_episode_indices m rig tasks)
unfolding failed_episode_indices
failed_episode_indices-IsAscending m rig tasks =
    sort_indices-IsAscending (collect (failed_episode rig tasks) m.rows [])
      (collect-IsDistinct (failed_episode rig tasks) m.rows [] tt)
