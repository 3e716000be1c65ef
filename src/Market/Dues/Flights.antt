-- ===== src/Market/Dues/Flights.antt =====
-- The guard against two settlements of one slot at once.
use eth_global_lisbon_2026_h.Base.{
  ℕ, ◌≡◌, inl, inr, refl, ◌∙◌, false, not, Option, none, some, List, [], ◌∷◌, ◌++◌, String, arith,
  filter, includes, lookup, ◌==◌, Bool-cases, Option-cases, string_eq, beq_self,
}
use eth_global_lisbon_2026_h.Hub.Rig.{Rig}
use eth_global_lisbon_2026_h.Market.Row.{Market}
use eth_global_lisbon_2026_h.Market.Slots.{
  SlotView, Mirror, FlightKey, flight_eq, begin_in_flight, end_in_flight, note_payout,
  refreshed_rig, refresh_failed, all_heads, ChainSlots,
}
use eth_global_lisbon_2026_h.Market.Settle.{Setup, Answer, answer, thrown}
use eth_global_lisbon_2026_h.Market.Dues.{
  Chains, Round, settle_slot, called, refresh, reread, note_settled, note_withdrawn, Reading,
  chains_read, read_failed, withdraw_slot, settle_called, landed, flight_of_settle, may_settle,
  settle_head, settle_heads, settle_rigs, settle_due_slots, skip_with, skip_called, skip_entry,
  may_skip, skip_entries, skip_rigs, skip_no_shows, flight_of_skip,
}

filter_out :
    (key : FlightKey) (keys : List FlightKey)
    → includes key keys ≡ false
    → filter (λ k. not (k == key)) keys ≡ keys
unfolding filter includes
filter_out key [] h = refl
filter_out key (k ∷ keys) h = ground (arith, filter_out key keys)

filter_snoc :
    (key : FlightKey) (keys : List FlightKey)
    → includes key keys ≡ false
    → filter (λ k. not (k == key)) (keys ++ key ∷ []) ≡ keys
unfolding filter includes
filter_snoc key [] h = rw (beq_self key) refl
filter_snoc key (k ∷ keys) h = ground (arith, filter_snoc key keys)

refresh-in_flight :
    (now : ℕ) (rig : String) (mirror : Mirror) (reading : Reading)
    → (refresh now rig mirror reading).in_flight ≡ mirror.in_flight
unfolding refresh refreshed_rig refresh_failed
refresh-in_flight now rig mirror (chains_read cs) = refl
refresh-in_flight now rig mirror (read_failed message) = refl

module _ (now : ℕ) (chains : Chains) (rig : String) (head : SlotView) where
  withdraw_slot-in_flight :
      (r : Round) (a : Answer (Option String))
      → (withdraw_slot now chains rig head r a).mirror.in_flight ≡ r.mirror.in_flight
  unfolding withdraw_slot note_withdrawn note_payout reread called
  withdraw_slot-in_flight r thrown = refl
  withdraw_slot-in_flight r (answer none) = refresh-in_flight now rig r.mirror (chains.reading rig)
  withdraw_slot-in_flight r (answer (some tx)) =
      refresh-in_flight now rig (note_withdrawn now head (some tx) r).mirror (chains.reading rig)

  settle_called-in_flight :
      (r : Round) (a : Answer (Option String))
      → (settle_called now chains rig head r a).mirror.in_flight ≡ r.mirror.in_flight
  unfolding settle_called note_settled note_payout called
  settle_called-in_flight r thrown = refl
  settle_called-in_flight r (answer none) =
      withdraw_slot-in_flight (called r (settle_slot head)) (chains.withdrawn head)
  settle_called-in_flight r (answer (some tx)) =
      withdraw_slot-in_flight (note_settled now head (some tx) (called r (settle_slot head)))
        (chains.withdrawn head)

  skip_called-in_flight :
      (r : Round) (a : Answer (Option String))
      → (skip_called now chains rig head r a).mirror.in_flight ≡ r.mirror.in_flight
  unfolding skip_called reread called
  skip_called-in_flight r thrown = refl
  skip_called-in_flight r (answer none) = refl
  skip_called-in_flight r (answer (some tx)) =
      refresh-in_flight now rig r.mirror (chains.reading rig)

  skip_with-in_flight :
      (entry : ChainSlots) (r : Round) (a : Answer (Option ℕ))
      → (skip_with now chains rig entry head r a).mirror.in_flight ≡ r.mirror.in_flight
  unfolding skip_with
  skip_with-in_flight entry r thrown = refl
  skip_with-in_flight entry r (answer none) = refl
  skip_with-in_flight entry r (answer (some grace)) =
      ground (arith, skip_called-in_flight r (chains.skipped head))

-- A flight that ends clears its key and no other.
landed-in_flight :
    (key : FlightKey) (r r' : Round)
    → includes key r.mirror.in_flight ≡ false
    → r'.mirror.in_flight ≡ r.mirror.in_flight ++ key ∷ []
    → (landed key r').mirror.in_flight ≡ r.mirror.in_flight
unfolding landed end_in_flight
landed-in_flight key r r' free e = rw e (filter_snoc key r.mirror.in_flight free)

settle_head-in_flight :
    (setup : Setup) (now : ℕ) (chains : Chains) (m : Market) (rig : String) (head : SlotView)
    (r : Round)
    → (settle_head setup now chains m rig head r).mirror.in_flight ≡ r.mirror.in_flight
unfolding settle_head begin_in_flight
settle_head-in_flight setup now chains m rig head r =
    let key = flight_of_settle head in
    elim (Bool-cases (may_settle setup now m head)) [
      | inr held ↦ ground (arith, held)
      | inl may ↦ elim (Bool-cases (includes key r.mirror.in_flight)) [
        | inl busy ↦ ground (arith, may, busy)
        | inr free ↦
            let begun = record r {
              mirror = record r.mirror { in_flight = r.mirror.in_flight ++ key ∷ [] };
            } in
            let after = settle_called now chains rig head begun (chains.settled head) in
            rw (may, free)
              (landed-in_flight key r after free
                (settle_called-in_flight now chains rig head begun (chains.settled head)))
      ]
    ]

skip_entry-in_flight :
    (setup : Setup) (now : ℕ) (chains : Chains) (rig : String) (entry : ChainSlots)
    (head : SlotView) (r : Round)
    → (skip_entry setup now chains rig entry head r).mirror.in_flight ≡ r.mirror.in_flight
unfolding skip_entry begin_in_flight
skip_entry-in_flight setup now chains rig entry head r =
    let key = flight_of_skip entry head in
    elim (Bool-cases (may_skip setup entry head)) [
      | inr held ↦ ground (arith, held)
      | inl may ↦ elim (Bool-cases (includes key r.mirror.in_flight)) [
        | inl busy ↦ ground (arith, may, busy)
        | inr free ↦
            let begun = record r {
              mirror = record r.mirror { in_flight = r.mirror.in_flight ++ key ∷ [] };
            } in
            let grace = chains.no_show_grace head.chain_key in
            let after = skip_with now chains rig entry head begun grace in
            rw (may, free)
              (landed-in_flight key r after free
                (skip_with-in_flight now chains rig head entry begun grace))
      ]
    ]

settle_heads-in_flight :
    (setup : Setup) (now : ℕ) (chains : Chains) (m : Market) (rig : String) (heads : List SlotView)
    (r : Round)
    → (settle_heads setup now chains m rig heads r).mirror.in_flight ≡ r.mirror.in_flight
unfolding settle_heads
settle_heads-in_flight setup now chains m rig [] r = refl
settle_heads-in_flight setup now chains m rig (h ∷ hs) r =
    settle_heads-in_flight setup now chains m rig hs (settle_head setup now chains m rig h r)
    ∙ settle_head-in_flight setup now chains m rig h r

settle_rigs-in_flight :
    (setup : Setup) (now : ℕ) (chains : Chains) (m : Market) (rigs : List Rig) (r : Round)
    → (settle_rigs setup now chains m rigs r).mirror.in_flight ≡ r.mirror.in_flight
unfolding settle_rigs
settle_rigs-in_flight setup now chains m [] r = refl
settle_rigs-in_flight setup now chains m (rig ∷ rigs) r =
    let heads = all_heads r.mirror rig.name in
    settle_rigs-in_flight setup now chains m rigs (settle_heads setup now chains m rig.name heads r)
    ∙ settle_heads-in_flight setup now chains m rig.name heads r

skip_entries-in_flight :
    (setup : Setup) (now : ℕ) (chains : Chains) (rig : String) (entries : List ChainSlots)
    (r : Round)
    → (skip_entries setup now chains rig entries r).mirror.in_flight ≡ r.mirror.in_flight
unfolding skip_entries
skip_entries-in_flight setup now chains rig [] r = refl
skip_entries-in_flight setup now chains rig (entry ∷ entries) r = elim (Option-cases entry.head) [
  | inl gone ↦ rw gone (skip_entries-in_flight setup now chains rig entries r)
  | inr (head, found) ↦
      let r' = skip_entry setup now chains rig entry head r in
      rw found (
        skip_entries-in_flight setup now chains rig entries r'
        ∙ skip_entry-in_flight setup now chains rig entry head r)
]

skip_rigs-in_flight :
    (setup : Setup) (now : ℕ) (chains : Chains) (rigs : List Rig) (r : Round)
    → (skip_rigs setup now chains rigs r).mirror.in_flight ≡ r.mirror.in_flight
unfolding skip_rigs
skip_rigs-in_flight setup now chains [] r = refl
skip_rigs-in_flight setup now chains (rig ∷ rigs) r =
    elim (Option-cases (lookup rig.name r.mirror.by_rig)) [
      | inl gone ↦ rw (gone, skip_rigs) (skip_rigs-in_flight setup now chains rigs r)
      | inr (cached, found) ↦
          let r' = skip_entries setup now chains rig.name cached.chains r in
          rw (found, skip_rigs)
            (skip_rigs-in_flight setup now chains rigs r'
              ∙ skip_entries-in_flight setup now chains rig.name cached.chains r)
    ]

-- The guard is always let go: whatever the chains answer, and whichever of the calls throw, the set
-- of what is in flight is after a round of settlements, and after a round of skips, what it was.
pub in_flight_restored :
    (setup : Setup) (now : ℕ) (chains : Chains) (m : Market) (rigs : List Rig) (mirror : Mirror)
    → ((settle_due_slots setup now chains m rigs mirror).mirror.in_flight ≡ mirror.in_flight)
      × ((skip_no_shows setup now chains rigs mirror).mirror.in_flight ≡ mirror.in_flight)
unfolding settle_due_slots skip_no_shows
in_flight_restored setup now chains m rigs mirror =
    let r : Round = record { mirror = mirror; calls = [] } in
    (
      ground (arith, settle_rigs-in_flight setup now chains m rigs r),
      ground (arith, skip_rigs-in_flight setup now chains rigs r),
    )
