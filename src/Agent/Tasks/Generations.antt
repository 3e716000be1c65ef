-- ===== src/Agent/Tasks/Generations.antt =====
-- The name of a new dataset.
use eth_global_lisbon_2026_h.Base.{
  ℕ, zero, suc, ◌+◌, ◌≤◌, ◌≡◌, ◌⊎◌, String, Bool, not, ◌&&◌, true, ◌==◌, nat_eq,
}
use eth_global_lisbon_2026_h.Agent.Tasks.{generation}

-- So many generations from this one on all hold episodes.
abbrev pub all_taken : (String → ℕ) → String → ℕ → ℕ → Bool
all_taken episodes wanted gen zero = true
all_taken episodes wanted gen (suc n) =
    not (episodes (generation wanted gen) == 0) && all_taken episodes wanted (gen + 1) n

-- The name is that of the first generation that holds none, or the last name of all.
abbrev pub FirstFree : (String → ℕ) → String → ℕ → ℕ → String → Type 0
FirstFree episodes wanted from rounds name =
    (n : ℕ) × (n ≤ rounds)
    × (name ≡ generation wanted (from + n))
    × (all_taken episodes wanted from n ≡ true)
    × ((episodes name ≡ 0) ⊎ (n ≡ rounds))
