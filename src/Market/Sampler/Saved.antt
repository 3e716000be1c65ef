-- ===== src/Market/Sampler/Saved.antt =====
-- When the save of an episode is seen.
use eth_global_lisbon_2026_h.Base.{
  ℕ, ◌≡◌, inl, inr, refl, ◌∙◌, Bool, true, false, ◌||◌, Option, none, some, List, [], ◌∷◌, any, ltb,
  arith, Bool-cases,
}
use eth_global_lisbon_2026_h.Market.Row.{LedgerRow}
use eth_global_lisbon_2026_h.Market.Grader.{is_true}
use eth_global_lisbon_2026_h.Market.Sampler.{SamplerState, rebased, save_flag, watch_saved}

-- The counter at each tick of a sampler.
unfoldable pub watch_all : List ℕ → LedgerRow × SamplerState → LedgerRow × SamplerState
unfolding watch_saved
watch_all [] s = s
watch_all (c ∷ cs) s = watch_all cs (watch_saved (some c) s)

-- Some later number is above some earlier one.
abbrev pub climbs : List ℕ → Bool
climbs [] = false
climbs (c ∷ cs) = any (ltb c) cs || climbs cs

save_flag-saved :
    (base c : ℕ) (flag : Option Bool)
    → is_true (save_flag base c flag) ≡ (ltb base c || is_true flag)
unfolding save_flag
save_flag-saved base c none = ground arith
save_flag-saved base c (some true) = ground arith
save_flag-saved base c (some false) = ground arith

any_lower :
    (a b : ℕ) (cs : List ℕ) → ltb b a ≡ true → (any (ltb a) cs || any (ltb b) cs) ≡ any (ltb b) cs
unfolding any
any_lower a b [] h = refl
any_lower a b (c ∷ cs) h = ground (arith, any_lower a b cs h)

any_upper :
    (a b : ℕ) (cs : List ℕ) → ltb b a ≡ false → ltb a b ≡ false → any (ltb a) cs ≡ any (ltb b) cs
unfolding any
any_upper a b [] h k = refl
any_upper a b (c ∷ cs) h k = ground (arith, any_upper a b cs h k)

-- The base that a counter leaves behind is enough to see the next rise by.
climbs-rebased :
    (base c : ℕ) (cs : List ℕ) (flag : Option Bool)
    → (is_true (save_flag (rebased (some base) c) c flag) || climbs (rebased (some base) c ∷ cs))
      ≡ (is_true flag || climbs (base ∷ c ∷ cs))
unfolding rebased any
climbs-rebased base c cs flag =
    let saved = save_flag-saved (rebased (some base) c) c flag in
    elim (Bool-cases (ltb c base)) [
      | inl dropped ↦ ground (arith, saved, dropped, any_lower base c cs dropped)
      | inr kept ↦ elim (Bool-cases (ltb base c)) [
        | inl rose ↦ ground (arith, saved, kept, rose)
        | inr level ↦ ground (arith, saved, kept, level, any_upper base c cs kept level)
      ]
    ]

-- The sampler sees a save exactly where there is one to see: over any readings of the recorder's
-- counter, the row says that its episode was saved if and only if it said so before, or some later
-- one of the readings, with the one that the sampler started from as the first, is above some
-- earlier one.
pub watch_all-climbs :
    (cs : List ℕ) (base : ℕ) (row : LedgerRow) (st : SamplerState)
    → st.saved_at_open ≡ some base
    → is_true (watch_all cs (row, st)).0.telemetry.episode_saved
      ≡ (is_true row.telemetry.episode_saved || climbs (base ∷ cs))
unfolding watch_all any watch_saved
watch_all-climbs [] base row st e = ground arith
watch_all-climbs (c ∷ cs) base row st e =
    let (row', st') = watch_saved (some c) (row, st) in
    let base' = rebased st.saved_at_open c in
    let later = watch_all-climbs cs base' row' st' refl in
    let same = climbs-rebased base c cs row.telemetry.episode_saved in later ∙ rw e same
