-- ===== src/Market/Dues.antt =====
-- The money of stakes and slots once the clock is past: `releaseIdleStakes`, `settleDueSlots` and
-- `skipNoShows` of apps/web/src/market/worker.ts. What the chains answer is an argument, and the calls
-- that are made of them are part of the result.
pub mod Held
pub mod Flights
pub mod Released
pub mod NoShows
pub mod Keeping
use eth_global_lisbon_2026_h.Base.{
  ℕ, ◌+◌, ◌*◌, String, Bool, true, false, not, ◌&&◌, ◌||◌, Option, none, some, List, [], ◌∷◌, ◌++◌,
  map, ltb, leb, any, length, insert, lookup, includes, is_some, ◌==◌, nat_eq, string_eq, option_eq,
  if◌then◌else◌,
}
use eth_global_lisbon_2026_h.Hub.Rig.{Rig}
use eth_global_lisbon_2026_h.Market.Row.{
  LedgerRow, RowStatus, rejected, anchored, released, BondState, Market,
}
use eth_global_lisbon_2026_h.Market.Ledger.{list_rows, is_locked}
use eth_global_lisbon_2026_h.Market.Slots.{
  SlotView, ChainSlots, RigSlots, Mirror, FlightKey, flight_eq, settling, skipping, all_heads,
  begin_in_flight, end_in_flight, note_payout, refreshed_rig, refresh_failed, is_running, is_booked,
  is_voided, end_ms,
}
use eth_global_lisbon_2026_h.Market.Enforce.{is_over}
use eth_global_lisbon_2026_h.Market.Settle.{
  Answer, answer, thrown, Setup, has_slots, settle, set_bond,
}

abbrev pub stake_idle_ms : ℕ
stake_idle_ms = 300000

-- Neither anchored nor rejected.
abbrev pub is_unfinished : RowStatus → Bool
is_unfinished anchored = false
is_unfinished rejected = false
is_unfinished _ = true

abbrev pub holds_stake : String → LedgerRow → Bool
holds_stake who row = row.operator.nullifier == some who && is_unfinished row.status

-- A locked stake that nobody has used for five minutes and no attempt still needs.
unfoldable pub is_idle : ℕ → Market → BondState → Bool
unfolding list_rows
is_idle now m bond =
    is_locked bond.status
    && (not (ltb now (bond.last_active_at + stake_idle_ms))
        && not (any (holds_stake bond.nullifier) (list_rows m)))

-- The bond under this key, as it then is, with the answer of its transfer.
unfoldable pub release_bond : ℕ → (String → Answer String) → Market → String → Market
unfolding is_idle settle set_bond
release_bond now transfer m n = elim (lookup n m.bonds) [
  | none ↦ m
  | some bond ↦ if is_idle now m bond then set_bond m n (settle (transfer n) released bond) else m
]

release_keys : ℕ → (String → Answer String) → Market → List String → Market
unfolding release_bond
release_keys now transfer m [] = m
release_keys now transfer m (n ∷ ns) = release_keys now transfer (release_bond now transfer m n) ns

unfoldable pub release_idle_stakes : ℕ → (String → Answer String) → Market → Market
unfolding release_keys
release_idle_stakes now transfer m = release_keys now transfer m (map (λ e. e.0) m.bonds)

pub data ChainCall : Type 0 where
  settle_slot : SlotView → ChainCall
  withdraw_for : SlotView → ChainCall
  skip_head : SlotView → ChainCall

-- What `refreshRig` reads of the chains, or the message of its failure.
pub data Reading : Type 0 where
  chains_read : List ChainSlots → Reading
  read_failed : String → Reading

-- The answers of the chains: `settleSlot`, `withdrawFor`, `skipHead`, the grace of `slotParams` in
-- seconds, and a read of a rig.
pub record Chains : Type 0 where
  pub settled : SlotView → Answer (Option String)
  pub withdrawn : SlotView → Answer (Option String)
  pub skipped : SlotView → Answer (Option String)
  pub no_show_grace : String → Answer (Option ℕ)
  pub reading : String → Reading

-- The mirror, and the calls that were made of the chains so far.
pub record Round : Type 0 where
  pub mirror : Mirror
  pub calls : List ChainCall

unfoldable pub called : Round → ChainCall → Round
called r call = record r { calls = r.calls ++ call ∷ [] }

unfoldable pub refresh : ℕ → String → Mirror → Reading → Mirror
unfolding refreshed_rig refresh_failed
refresh now rig mirror (chains_read cs) = refreshed_rig now mirror rig cs
refresh now rig mirror (read_failed message) = refresh_failed now mirror rig message

reread : ℕ → Chains → String → Round → Round
unfolding refresh
reread now chains rig r = record r { mirror = refresh now rig r.mirror (chains.reading rig) }

note_settled : ℕ → SlotView → Option String → Round → Round
unfolding note_payout
note_settled now head none r = r
note_settled now head (some tx) r = record r {
  mirror = note_payout now r.mirror head.slot_id head.chain_key (some tx) none none;
}

note_withdrawn : ℕ → SlotView → Option String → Round → Round
unfolding note_payout
note_withdrawn now head none r = r
note_withdrawn now head (some tx) r = record r {
  mirror = note_payout now r.mirror head.slot_id head.chain_key none (some tx) none;
}

-- After the settlement: what is still owed is pushed, and the rig is read again.
withdraw_slot : ℕ → Chains → String → SlotView → Round → Answer (Option String) → Round
unfolding called note_withdrawn reread
withdraw_slot now chains rig head r (answer tx) =
    reread now chains rig (note_withdrawn now head tx (called r (withdraw_for head)))
withdraw_slot now chains rig head r thrown = called r (withdraw_for head)

-- A call that throws ends the attempt.
settle_called : ℕ → Chains → String → SlotView → Round → Answer (Option String) → Round
unfolding called note_settled withdraw_slot
settle_called now chains rig head r (answer tx) =
    withdraw_slot now chains rig head (note_settled now head tx (called r (settle_slot head)))
      (chains.withdrawn head)
settle_called now chains rig head r thrown = called r (settle_slot head)

abbrev pub flight_of_settle : SlotView → FlightKey
flight_of_settle head = record { task = settling; chain = head.chain_key; slot = head.slot_id }

unfoldable pub landed : FlightKey → Round → Round
unfolding end_in_flight
landed key r = record r { mirror = end_in_flight r.mirror key }

-- A row of this slot that the settlement waits for.
abbrev pub is_awaited : SlotView → LedgerRow → Bool
is_awaited head row = row.slot_id == some head.slot_id && is_unfinished row.status

-- Whether the slot is over, none of its rows is waited for, and its chain is known.
unfoldable pub may_settle : Setup → ℕ → Market → SlotView → Bool
unfolding list_rows
may_settle setup now m head =
    is_over now head
    && (not (any (is_awaited head) (list_rows m)) && includes head.chain_key setup.slot_chains)

unfoldable pub settle_head : Setup → ℕ → Chains → Market → String → SlotView → Round → Round
unfolding may_settle settle_called landed begin_in_flight
settle_head setup now chains m rig head r =
    if not (may_settle setup now m head)
    then r
    else (let key = flight_of_settle head in
        let (mirror, free) = begin_in_flight r.mirror key in
        if free
        then landed key
            (settle_called now chains rig head (record r { mirror = mirror }) (chains.settled head))
        else r)

settle_heads : Setup → ℕ → Chains → Market → String → List SlotView → Round → Round
unfolding settle_head
settle_heads setup now chains m rig [] r = r
settle_heads setup now chains m rig (h ∷ hs) r =
    settle_heads setup now chains m rig hs (settle_head setup now chains m rig h r)

settle_rigs : Setup → ℕ → Chains → Market → List Rig → Round → Round
unfolding settle_heads all_heads
settle_rigs setup now chains m [] r = r
settle_rigs setup now chains m (rig ∷ rigs) r =
    settle_rigs setup now chains m rigs
      (settle_heads setup now chains m rig.name (all_heads r.mirror rig.name) r)

unfoldable pub settle_due_slots : Setup → ℕ → Chains → Market → List Rig → Mirror → Round
unfolding settle_rigs
settle_due_slots setup now chains m rigs mirror =
    let r : Round = record { mirror = mirror; calls = [] } in
    if has_slots setup && setup.autosettle then settle_rigs setup now chains m rigs r else r

abbrev pub flight_of_skip : ChainSlots → SlotView → FlightKey
flight_of_skip entry head = record { task = skipping; chain = entry.chain_key; slot = head.slot_id }

-- The head has been the head for the grace, as far as is known since when.
unfoldable pub skip_due : ℕ → ChainSlots → ℕ → Bool
skip_due now entry grace = ltb 0 entry.head_since && leb ((entry.head_since + grace) * 1000) now

skip_called : ℕ → Chains → String → SlotView → Round → Answer (Option String) → Round
unfolding called reread
skip_called now chains rig head r (answer (some tx)) =
    reread now chains rig (called r (skip_head head))
skip_called now chains rig head r _ = called r (skip_head head)

skip_with : ℕ → Chains → String → ChainSlots → SlotView → Round → Answer (Option ℕ) → Round
unfolding skip_called skip_due
skip_with now chains rig entry head r (answer (some grace)) =
    if skip_due now entry grace then skip_called now chains rig head r (chains.skipped head) else r
skip_with now chains rig entry head r _ = r

-- A booked head with somebody behind it, on a chain that is known.
unfoldable pub may_skip : Setup → ChainSlots → SlotView → Bool
may_skip setup entry head =
    is_booked head.status
    && (leb 2 (length entry.queue) && includes head.chain_key setup.slot_chains)

unfoldable pub skip_entry : Setup → ℕ → Chains → String → ChainSlots → SlotView → Round → Round
unfolding may_skip skip_with landed begin_in_flight
skip_entry setup now chains rig entry head r =
    if not (may_skip setup entry head)
    then r
    else (let key = flight_of_skip entry head in
        let (mirror, free) = begin_in_flight r.mirror key in
        if free
        then landed key (
            skip_with now chains rig entry head (record r { mirror = mirror })
              (chains.no_show_grace head.chain_key))
        else r)

skip_entries : Setup → ℕ → Chains → String → List ChainSlots → Round → Round
unfolding skip_entry
skip_entries setup now chains rig [] r = r
skip_entries setup now chains rig (entry ∷ entries) r = elim entry.head [
  | none ↦ skip_entries setup now chains rig entries r
  | some head ↦
      skip_entries setup now chains rig entries (skip_entry setup now chains rig entry head r)
]

skip_rigs : Setup → ℕ → Chains → List Rig → Round → Round
unfolding skip_entries
skip_rigs setup now chains [] r = r
skip_rigs setup now chains (rig ∷ rigs) r = elim (lookup rig.name r.mirror.by_rig) [
  | none ↦ skip_rigs setup now chains rigs r
  | some cached ↦
      skip_rigs setup now chains rigs (skip_entries setup now chains rig.name cached.chains r)
]

unfoldable pub skip_no_shows : Setup → ℕ → Chains → List Rig → Mirror → Round
unfolding skip_rigs
skip_no_shows setup now chains rigs mirror =
    let r : Round = record { mirror = mirror; calls = [] } in
    if has_slots setup then skip_rigs setup now chains rigs r else r
