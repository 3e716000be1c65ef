-- ===== src/Market/Sampler/Camera.antt =====
-- Which camera gives the evidence.
use eth_global_lisbon_2026_h.Base.{
  ℕ, ◌≤◌, ◌≡◌, ◌⊎◌, inl, inr, refl, String, Bool, true, Option, none, some, List, [], ◌∷◌, All,
  find, any, ◌&&◌, nat_eq, ltb, lookup, names_part, arith, Bool-cases, Option-cases, ◌==◌,
  string_eq, eq_iff, is_some,
}
use eth_global_lisbon_2026_h.Hub.Rig.{RigFrame, CamMapping}
use eth_global_lisbon_2026_h.Market.Sampler.{pick_cam, freshest, fresher, is_mapped, name_in}

-- The camera has a frame.
abbrev pub HasFrame : List (String × RigFrame) → String → Type 0
HasFrame frames name = is_some (lookup name frames) ≡ true

found-HasFrame :
    (p : String × RigFrame → Bool) (frames : List (String × RigFrame)) (name : String)
    → name_in (find p frames) ≡ some name
    → HasFrame frames name
unfolding find lookup
found-HasFrame p [] name h = cc
found-HasFrame p ((n, f) ∷ frames) name h = elim (Bool-cases (p (n, f))) [
  | inl here ↦ ground (arith, here, h, eq_iff n name)
  | inr away ↦ ground (arith, away, h, found-HasFrame p frames name)
]

-- The newest of the frames, or the best before them.
freshest-HasFrame :
    (frames : List (String × RigFrame)) (best : Option (String × ℕ)) (name : String)
    → name_in (freshest frames best) ≡ some name
    → HasFrame frames name ⊎ (name_in best ≡ some name)
unfolding freshest lookup fresher
freshest-HasFrame [] best name h = inr h
freshest-HasFrame ((n, f) ∷ frames) none name h =
    ground (arith, freshest-HasFrame frames (some (n, f.at)) name h, eq_iff n name)
freshest-HasFrame ((n, f) ∷ frames) (some (b, at)) name h = elim (Bool-cases (ltb at f.at)) [
  | inl newer ↦
      let h' : name_in (freshest frames (some (n, f.at))) ≡ some name = ground (arith, newer, h) in
      ground (arith, freshest-HasFrame frames (some (n, f.at)) name h', eq_iff n name)
  | inr older ↦
      let h' : name_in (freshest frames (some (b, at))) ≡ some name = ground (arith, older, h) in
      ground (arith, freshest-HasFrame frames (some (b, at)) name h', eq_iff n name)
]

freshest-some :
    (frames : List (String × RigFrame)) (b : String × ℕ) → is_some (freshest frames (some b)) ≡ true
unfolding freshest fresher
freshest-some [] b = refl
freshest-some ((n, f) ∷ frames) (m, at) = elim (Bool-cases (ltb at f.at)) [
  | inl newer ↦ rw newer (freshest-some frames (n, f.at))
  | inr older ↦ rw older (freshest-some frames (m, at))
]

-- Nothing that was offered is newer than the best.
freshest-newest :
    (frames : List (String × RigFrame)) (best : Option (String × ℕ)) (name : String) (at : ℕ)
    → freshest frames best ≡ some (name, at)
    → All (λ f. f.1.at ≤ at) frames
      × elim best as (λ _. Type 0) [ none ↦ 0 ≤ at | some (_, old) ↦ old ≤ at ]
unfolding freshest fresher
freshest-newest [] none name at h = cc
freshest-newest [] (some (b, old)) name at h = ground (arith, h)
freshest-newest ((n, f) ∷ frames) none name at h =
    let (rest, mine) = freshest-newest frames (some (n, f.at)) name at h in
    ((mine, rest), omega arith)
freshest-newest ((n, f) ∷ frames) (some (b, old)) name at h = elim (Bool-cases (ltb old f.at)) [
  | inl newer ↦
      let (rest, mine) =
        freshest-newest frames (some (n, f.at)) name at (ground (arith, newer, h)) in
      ((mine, rest), ground (arith, newer, mine))
  | inr older ↦
      let (rest, mine) =
        freshest-newest frames (some (b, old)) name at (ground (arith, older, h)) in
      ((ground (arith, older, mine), rest), mine)
]

found_sound :
    (p : String × RigFrame → Bool) (q : String → Bool) (frames : List (String × RigFrame))
    (name : String)
    → ((n : String) (f : RigFrame) → p (n, f) ≡ q n)
    → name_in (find p frames) ≡ some name
    → q name ≡ true
unfolding find
found_sound p q [] name same h = cc
found_sound p q ((n, f) ∷ frames) name same h = elim (Bool-cases (p (n, f))) [
  | inl here ↦ ground (arith, here, h, same n f)
  | inr away ↦ found_sound p q frames name same (ground (arith, away, h))
]

abbrev pub taken_at : String → ℕ → String × RigFrame → Bool
taken_at name at f = f.0 == name && f.1.at == at

freshest-among :
    (frames : List (String × RigFrame)) (best : Option (String × ℕ)) (name : String) (at : ℕ)
    → freshest frames best ≡ some (name, at)
    → (any (taken_at name at) frames ≡ true) ⊎ (best ≡ some (name, at))
unfolding freshest fresher any
freshest-among [] best name at h = inr h
freshest-among ((n, f) ∷ frames) none name at h =
    ground (arith, freshest-among frames (some (n, f.at)) name at h, eq_iff n name)
freshest-among ((n, f) ∷ frames) (some (b, old)) name at h = elim (Bool-cases (ltb old f.at)) [
  | inl newer ↦
      let h' : freshest frames (some (n, f.at)) ≡ some (name, at) = ground (arith, newer, h) in
      ground (arith, freshest-among frames (some (n, f.at)) name at h', eq_iff n name)
  | inr older ↦
      let h' : freshest frames (some (b, old)) ≡ some (name, at) = ground (arith, older, h) in
      ground (arith, freshest-among frames (some (b, old)) name at h')
]

-- One of the frames is this camera's, and none of them is newer than that.
abbrev pub IsNewest : List (String × RigFrame) → String → Type 0
IsNewest frames name =
    (at : ℕ) × (any (taken_at name at) frames ≡ true) × All (λ f. f.1.at ≤ at) frames

freshest-IsNewest :
    (frames : List (String × RigFrame)) (name : String) (at : ℕ)
    → freshest frames none ≡ some (name, at)
    → IsNewest frames name
freshest-IsNewest frames name at e = (
  at,
  ground (arith, freshest-among frames none name at e),
  (freshest-newest frames none name at e).0,
)

-- The evidence is never missing while there is a frame: of one frame or more, a camera is picked that
-- has a frame; and it is the one that the rig calls its workspace, or one with the word in its name,
-- or the one whose frame none of the frames is newer than.
pub pick_cam_shows :
    (f : String × RigFrame) (fs : List (String × RigFrame)) (mapping : Option CamMapping)
    → let frames = f ∷ fs in
      (name : String) × (pick_cam frames mapping ≡ some name)
      × HasFrame frames name
      × ((is_mapped mapping name ≡ true)
          ⊎ ((names_part "workspace" name ≡ true) ⊎ IsNewest frames name))
unfolding pick_cam
pick_cam_shows f fs mapping =
    let frames = f ∷ fs in
    let mapped : String × RigFrame → Bool = λ e. is_mapped mapping e.0 in
    let called : String × RigFrame → Bool = λ e. names_part "workspace" e.0 in
    elim (Option-cases (name_in (find mapped frames))) [
      | inr (name, e) ↦ (
        name,
        ground (arith, e),
        found-HasFrame mapped frames name e,
        inl (found_sound mapped (is_mapped mapping) frames name (λ n g. refl) e),
      )
      | inl none_mapped ↦ elim (Option-cases (name_in (find called frames))) [
        | inr (name, e) ↦ (
          name,
          ground (arith, none_mapped, e),
          found-HasFrame called frames name e,
          inr (inl (found_sound called (names_part "workspace") frames name (λ n g. refl) e)),
        )
        | inl none_called ↦ elim (Option-cases (freshest frames none)) [
          | inl nothing_new ↦ ground (arith, nothing_new, freshest_first f fs)
          | inr (best, e) ↦ (
            best.0,
            ground (arith, none_mapped, none_called, e),
            ground (arith, freshest-HasFrame frames none best.0 (ground (arith, e))),
            inr (inr (freshest-IsNewest frames best.0 best.1 e)),
          )
        ]
      ]
    ]
  where
    freshest_first :
        (f : String × RigFrame) (fs : List (String × RigFrame))
        → is_some (freshest (f ∷ fs) none) ≡ true
    freshest_first f fs = unfold freshest fresher in freshest-some fs (f.0, f.1.at)
