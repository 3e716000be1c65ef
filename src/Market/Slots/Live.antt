-- ===== src/Market/Slots/Live.antt =====
-- The slot that may drive, and failed reads of the chains.
use eth_global_lisbon_2026_h.Base.{
  ℕ, ◌<◌, ◌≤◌, String, true, Option, none, some, List, [], ◌∷◌, leb, filter, All, All-filter,
  lookup, lookup-insert, eq_iff, string_eq, if◌then◌else◌, Option-cases, Bool-cases, arith, ◌≡◌,
  refl, ap, inl, inr,
}
use eth_global_lisbon_2026_h.Market.Slots.{
  SlotView, Mirror, heads_of, all_heads, insert_slot, sort_slots, is_live, first, live_slot,
  is_running, end_ms, refresh_failed, RigSlots, failed_entry,
}

insert_slot-All {κ} :
    (P : SlotView → Type κ) (t : SlotView) (ss : List SlotView)
    → P t
    → All P ss
    → All P (insert_slot t ss)
unfolding insert_slot
insert_slot-All P t [] p h = (p, tt)
insert_slot-All P t (u ∷ us) p h = elim (Bool-cases (leb t.started_at u.started_at)) [
  | inl early ↦ rw early (p, h)
  | inr late ↦ rw late (h.0, insert_slot-All P t us p h.1)
]

sort_slots-All {κ} : (P : SlotView → Type κ) (ss : List SlotView) → All P ss → All P (sort_slots ss)
unfolding sort_slots
sort_slots-All P [] h = tt
sort_slots-All P (t ∷ ts) h = insert_slot-All P t (sort_slots ts) h.0 (sort_slots-All P ts h.1)

first-All {κ} :
    (P : SlotView → Type κ) (s : SlotView) (ss : List SlotView) → first ss ≡ some s → All P ss → P s
first-All P s [] e h = cc
first-All P s (t ∷ ts) e h = let same : t ≡ s = cc in rw (← same) h.0

first-insert_slot :
    (t : SlotView) (ss : List SlotView)
    → first (insert_slot t ss)
      ≡ some
          (elim (first ss) [ none ↦ t | some u ↦ if leb t.started_at u.started_at then t else u ])
unfolding insert_slot
first-insert_slot t [] = refl
first-insert_slot t (u ∷ us) = ground arith

sort_slots-empty : (ss : List SlotView) → first (sort_slots ss) ≡ none → ss ≡ []
unfolding sort_slots
sort_slots-empty [] h = refl
sort_slots-empty (t ∷ ts) h = ground (arith, first-insert_slot t (sort_slots ts))

All-later :
    (a b : ℕ) (ss : List SlotView)
    → a ≤ b
    → All (λ u. b ≤ u.started_at) ss
    → All (λ u. a ≤ u.started_at) ss
All-later a b [] le h = tt
All-later a b (t ∷ ts) le h = (omega (arith, le, h.0), All-later a b ts le h.1)

starts : (t s : SlotView) → t ≡ s → s.started_at ≤ t.started_at
starts t s e = let same = ap (λ x. x.started_at) e in omega (arith, same)

sort_slots-least :
    (ss : List SlotView) (s : SlotView)
    → first (sort_slots ss) ≡ some s
    → All (λ u. s.started_at ≤ u.started_at) ss
unfolding sort_slots
sort_slots-least [] s h = tt
sort_slots-least (t ∷ ts) s h = elim (Option-cases (first (sort_slots ts))) [
  | inl none_left ↦
      let alone = sort_slots-empty ts none_left in
      let head : t ≡ s = ground (arith, first-insert_slot t (sort_slots ts), none_left) in
      (starts t s head, rw alone tt)
  | inr (r, found) ↦
      let rest = sort_slots-least ts r found in
      elim (Bool-cases (leb t.started_at r.started_at)) [
        | inl early ↦
            let head : t ≡ s = ground (arith, first-insert_slot t (sort_slots ts), found, early) in
            let s_t = starts t s head in
            (s_t, All-later s.started_at r.started_at ts (ground (arith, early, s_t)) rest)
        | inr late ↦
            let head : r ≡ s = ground (arith, first-insert_slot t (sort_slots ts), found, late) in
            let s_r = starts r s head in
            (ground (arith, late, s_r), All-later s.started_at r.started_at ts s_r rest)
      ]
]

-- The slot that may drive a rig runs and its end is still to come, and none of the slots that do,
-- on any chain, started earlier.
pub live_slot_earliest :
    (now : ℕ) (mirror : Mirror) (rig : String) (s : SlotView)
    → live_slot now mirror rig ≡ some s
    → (is_running s.status ≡ true)
      × (now < end_ms s)
      × (All (λ u. s.started_at ≤ u.started_at) (filter (is_live now) (all_heads mirror rig)))
unfolding live_slot
live_slot_earliest now mirror rig s h =
    let heads = all_heads mirror rig in
    let live = filter (is_live now) heads in
    let kept = All-filter (λ u. Unit {0}) (is_live now) heads (trivial heads) in
    let ok =
      first-All (λ u. (Unit {0}) × (is_live now u ≡ true)) s (sort_slots live) h
        (sort_slots-All (λ u. (Unit {0}) × (is_live now u ≡ true)) live kept) in
    (ground (arith, ok.1), ground (arith, ok.1), sort_slots-least live s h)
  where
    trivial : (ss : List SlotView) → All (λ u. Unit {0}) ss
    trivial [] = tt
    trivial (t ∷ ts) = (tt, trivial ts)

heads_kept :
    (at : ℕ) (mirror : Mirror) (failed rig message : String) (before : Option RigSlots)
    → lookup failed mirror.by_rig ≡ before
    → all_heads (refresh_failed at mirror failed message) rig ≡ all_heads mirror rig
unfolding all_heads refresh_failed failed_entry heads_of
heads_kept at mirror failed rig message none e = ground (
  arith,
  e,
  eq_iff failed rig,
  lookup-insert failed rig (failed_entry at failed message (lookup failed mirror.by_rig))
      mirror.by_rig,
)
heads_kept at mirror failed rig message (some entry) e = ground (
  arith,
  e,
  eq_iff failed rig,
  lookup-insert failed rig (failed_entry at failed message (lookup failed mirror.by_rig))
      mirror.by_rig,
)

-- A read of the chains that fails takes no slot away: whatever ran on a rig before still runs.
pub live_slot-refresh_failed :
    (now at : ℕ) (mirror : Mirror) (failed rig message : String)
    → live_slot now (refresh_failed at mirror failed message) rig ≡ live_slot now mirror rig
unfolding live_slot
live_slot-refresh_failed now at mirror failed rig message =
    ap (λ hs. first (sort_slots (filter (is_live now) hs)))
      (heads_kept at mirror failed rig message (lookup failed mirror.by_rig) refl)
