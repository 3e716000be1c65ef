-- ===== src/Market/Exclusion/Verdicts.antt =====
-- The list of failed episodes beside the verdicts of the rows.
use eth_global_lisbon_2026_h.Base.{
  ℕ, String, ◌≡◌, ◌↔◌, ◌⊎◌, inl, inr, refl, true, false, ◌||◌, Option, none, some, List, [], ◌∷◌,
  ◌++◌, arith, includes, ◌==◌, nat_eq, option_eq, option_beq_iff, eq_iff, string_eq,
}
use eth_global_lisbon_2026_h.Hub.Rig.{EpisodeMotion}
use eth_global_lisbon_2026_h.Market.Row.{
  RowId, LedgerRow, Market, Claimed, Grade, success, discarded, abandoned, slot_expired,
}
use eth_global_lisbon_2026_h.Market.Exclusion.{
  is_expired, failed_pass, failed_episode, add_once, collect, insert_index, sort_indices,
  failed_episode_indices,
}

-- Some row of the ledger satisfies P.
abbrev pub Some : (LedgerRow → Type 0) → List (RowId × LedgerRow) → Type 0
Some P [] = ⊥
Some P ((id, row) ∷ rows) = P row ⊎ Some P rows

pub includes-append :
    (n : ℕ) (xs ys : List ℕ) → includes n (xs ++ ys) ≡ (includes n xs || includes n ys)
unfolding includes
includes-append n [] ys = refl
includes-append n (x ∷ xs) ys = ground (arith, includes-append n xs ys)

includes-add_once :
    (n : ℕ) (o : Option ℕ) (seen : List ℕ)
    → includes n (add_once o seen) ≡ (o == some n || includes n seen)
unfolding add_once includes
includes-add_once n none seen = refl
includes-add_once n (some k) seen = ground (arith, includes-append n seen (k ∷ []))

includes-collect :
    (n : ℕ) (pick : LedgerRow → Option ℕ) (rows : List (RowId × LedgerRow)) (seen : List ℕ)
    → (includes n (collect pick rows seen) ≡ true)
      ↔ ((includes n seen ≡ true) ⊎ Some (λ row. pick row ≡ some n) rows)
unfolding collect
includes-collect n pick [] seen = (λ h. inl h, λ h. elim h [ inl old ↦ old | inr e ↦ absurd e ])
includes-collect n pick ((id, row) ∷ rows) seen =
    let rest = includes-collect n pick rows (add_once (pick row) seen) in
    let once = includes-add_once n (pick row) seen in
    let same = option_beq_iff (pick row) (some n) in
    (
      λ h. elim (rest.0 h) [ inl now ↦ ground (arith, once, same) | inr later ↦ inr (inr later) ],
      λ h. elim h [
        | inl old ↦ rest.1 (inl (ground (arith, once)))
        | inr (inl here) ↦ rest.1 (inl (ground (arith, once, same)))
        | inr (inr later) ↦ rest.1 (inr later)
      ],
    )

no_index : (n : ℕ) → includes n [] ≡ true → ⊥
unfolding includes
no_index n h = cc

includes-insert_index :
    (n k : ℕ) (ks : List ℕ) → includes n (insert_index k ks) ≡ (k == n || includes n ks)
unfolding insert_index includes
includes-insert_index n k [] = refl
includes-insert_index n k (j ∷ ks) = ground (arith, includes-insert_index n k ks)

pub includes-sort_indices : (n : ℕ) (ks : List ℕ) → includes n (sort_indices ks) ≡ includes n ks
unfolding sort_indices includes
includes-sort_indices n [] = refl
includes-sort_indices n (k ∷ ks) =
    ground (arith, includes-insert_index n k (sort_indices ks), includes-sort_indices n ks)

-- The row holds episode n of this rig, for one of these tasks, and the referee did not pass it or the
-- clock cut it off.
pub record IsRejected (rig : String) (tasks : List String) (n : ℕ) (row : LedgerRow) : Type 0 where
  pub same_rig : row.rig ≡ rig
  pub task : String
  pub of_task : row.task_id ≡ some task
  pub listed : includes task tasks ≡ true
  pub verdict :
      (row.claimed ≡ some slot_expired) ⊎ ((g : Grade) × (row.grade ≡ some g) × (g.pass ≡ false))
  pub ep : EpisodeMotion
  pub recorded : row.telemetry.episode ≡ some ep
  pub index : ep.episode_index ≡ n

verdict_sound :
    (c : Option Claimed) (o : Option Grade)
    → (is_expired c || failed_pass o) ≡ true
    → (c ≡ some slot_expired) ⊎ ((g : Grade) × (o ≡ some g) × (g.pass ≡ false))
verdict_sound (some slot_expired) o h = inl refl
verdict_sound (some success) (some g) h = inr (g, refl, ground arith)
verdict_sound (some discarded) (some g) h = inr (g, refl, ground arith)
verdict_sound (some abandoned) (some g) h = inr (g, refl, ground arith)
verdict_sound none (some g) h = inr (g, refl, ground arith)
verdict_sound (some success) none h = cc
verdict_sound (some discarded) none h = cc
verdict_sound (some abandoned) none h = cc
verdict_sound none none h = cc

failed_row-IsRejected :
    (rig : String) (tasks : List String) (n : ℕ) (row : LedgerRow) (task : Option String)
    (episode : Option EpisodeMotion)
    → row.task_id ≡ task
    → row.telemetry.episode ≡ episode
    → failed_episode rig tasks row ≡ some n
    → IsRejected rig tasks n row
unfolding failed_episode
failed_row-IsRejected rig tasks n row none episode t e h = ground arith
failed_row-IsRejected rig tasks n row (some task) none t e h = ground arith
failed_row-IsRejected rig tasks n row (some task) (some ep) t e h = record {
  same_rig = ground (arith, eq_iff row.rig rig);
  task = task;
  of_task = t;
  listed = ground arith;
  verdict = verdict_sound row.claimed row.grade (ground arith);
  ep = ep;
  recorded = e;
  index = ground arith;
}

verdict_complete :
    (c : Option Claimed) (o : Option Grade)
    → (c ≡ some slot_expired) ⊎ ((g : Grade) × (o ≡ some g) × (g.pass ≡ false))
    → (is_expired c || failed_pass o) ≡ true
verdict_complete c o (inl e) = rw e
verdict_complete none o (inr (g, e, f)) = rw (e, f)
verdict_complete (some c) o (inr (g, e, f)) = ground arith

rejected_complete :
    (rig : String) (tasks : List String) (n : ℕ) (row : LedgerRow)
    → IsRejected rig tasks n row
    → failed_episode rig tasks row ≡ some n
unfolding failed_episode
rejected_complete rig tasks n row r = ground (
  arith,
  eq_iff row.rig rig,
  r.same_rig,
  r.of_task,
  r.listed,
  r.recorded,
  r.index,
  verdict_complete row.claimed row.grade r.verdict,
)

Some-mono :
    (P Q : LedgerRow → Type 0) (f : (row : LedgerRow) → P row → Q row)
    (rows : List (RowId × LedgerRow))
    → Some P rows
    → Some Q rows
Some-mono P Q f [] h = h
Some-mono P Q f ((id, row) ∷ rows) (inl p) = inl (f row p)
Some-mono P Q f ((id, row) ∷ rows) (inr r) = inr (Some-mono P Q f rows r)

failed_iff :
    (m : Market) (rig : String) (tasks : List String) (n : ℕ)
    → (includes n (failed_episode_indices m rig tasks) ≡ true)
      ↔ Some (λ row. failed_episode rig tasks row ≡ some n) m.rows
unfolding failed_episode_indices
failed_iff m rig tasks n =
    let all = includes-collect n (failed_episode rig tasks) m.rows [] in
    rw includes-sort_indices (
      λ h. elim (all.0 h) [ inl e ↦ absurd (no_index n e) | inr some_row ↦ some_row ],
      λ h. all.1 (inr h),
    )

-- An episode is on the list exactly when some row of the ledger is an attempt of this rig at one of
-- these tasks that recorded it, and that the referee did not pass or the clock cut off.
pub failed_episode_indices_iff :
    (m : Market) (rig : String) (tasks : List String) (n : ℕ)
    → (includes n (failed_episode_indices m rig tasks) ≡ true)
      ↔ Some (IsRejected rig tasks n) m.rows
failed_episode_indices_iff m rig tasks n =
    let picked = failed_iff m rig tasks n in
    let P = λ (row : LedgerRow). failed_episode rig tasks row ≡ some n in
    (
      λ h.
          Some-mono P (IsRejected rig tasks n)
            (λ row e.
              failed_row-IsRejected rig tasks n row row.task_id row.telemetry.episode refl refl e)
            m.rows (picked.0 h),
      λ h. picked.1 (Some-mono (IsRejected rig tasks n) P (rejected_complete rig tasks n) m.rows h),
    )
