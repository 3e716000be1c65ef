-- ===== src/Market/Slots.antt =====
-- The mirror of the slots that the chains keep: apps/web/src/market/slots.ts. Times on a chain are
-- whole seconds; the hub's are milliseconds. Of a slot the model has what the hub decides by.
pub mod Live
use eth_global_lisbon_2026_h.Base.{
  ℕ, ◌+◌, ◌-◌, ◌*◌, String, Bool, true, false, not, ◌&&◌, ◌||◌, Option, none, some, List, [], ◌∷◌,
  ◌++◌, ltb, leb, filter, find, any, lookup, insert, includes, or_else, or_maybe, Eq, ◌==◌, nat_eq,
  string_eq, if◌then◌else◌, ◌↔◌, ◌≡◌, arith, eq_iff,
}

pub data SlotStatus : Type 0 where
  booked running settled voided skipped cancelled : SlotStatus

pub record SlotView : Type 0 where
  pub chain_key : String
  pub slot_id : ℕ
  pub rig_id : String
  pub operator : String
  pub started_at : ℕ
  pub end_at : ℕ
  pub status : SlotStatus

-- What one chain says about one rig.
pub record ChainSlots : Type 0 where
  pub chain_key : String
  pub head : Option SlotView
  pub queue : List SlotView
  pub head_since : ℕ

pub record RigSlots : Type 0 where
  pub rig : String
  pub chains : List ChainSlots
  pub polled_at : ℕ
  pub error : Option String

pub data PaidBy : Type 0 where
  hub self : PaidBy

pub record SlotPayout : Type 0 where
  pub chain_key : String
  pub settle_tx : Option String
  pub withdraw_tx : Option String
  pub by : PaidBy
  pub at : ℕ

pub data FlightTask : Type 0 where
  settling skipping : FlightTask

-- The parts of the texts `settle:<chain>:<slot>` and `skip:<chain>:<slot>`, which determine them.
pub record FlightKey : Type 0 where
  pub task : FlightTask
  pub chain : String
  pub slot : ℕ

abbrev pub same_task : FlightTask → FlightTask → Bool
same_task settling settling = true
same_task skipping skipping = true
same_task _ _ = false

unfoldable pub flight_beq : FlightKey → FlightKey → Bool
flight_beq a b = same_task a.task b.task && (a.chain == b.chain && a.slot == b.slot)

pub flight_beq_iff : (a b : FlightKey) → (flight_beq a b ≡ true) ↔ (a ≡ b)
unfolding flight_beq
flight_beq_iff a b = ground (arith, eq_iff a.chain b.chain)

instance abbrev pub flight_eq : Eq FlightKey
flight_eq = record { beq = flight_beq; beq_iff = flight_beq_iff }

pub record Mirror : Type 0 where
  pub by_rig : List (String × RigSlots)
  pub client_slot : List (String × (ℕ × ℕ))
  pub enforced : List ℕ
  pub in_flight : List FlightKey
  pub payouts : List (ℕ × SlotPayout)

abbrev pub is_running : SlotStatus → Bool
is_running running = true
is_running _ = false

abbrev pub is_booked : SlotStatus → Bool
is_booked booked = true
is_booked _ = false

abbrev pub is_voided : SlotStatus → Bool
is_voided voided = true
is_voided _ = false

unfoldable pub heads_of : List ChainSlots → List SlotView
heads_of [] = []
heads_of (c ∷ cs) = elim c.head [ none ↦ heads_of cs | some h ↦ h ∷ heads_of cs ]

abbrev pub poll_live_ms : ℕ
poll_live_ms = 3000

abbrev pub poll_queued_ms : ℕ
poll_queued_ms = 5000

abbrev pub poll_idle_ms : ℕ
poll_idle_ms = 15000

unfoldable pub stale_after : RigSlots → ℕ
unfolding heads_of
stale_after entry = elim (heads_of entry.chains) [
  | [] ↦ poll_idle_ms
  | h ∷ hs ↦ if any (λ s. is_running s.status) (h ∷ hs) then poll_live_ms else poll_queued_ms
]

-- A read of the chains that came back, and one that failed: the last good read is kept.
unfoldable pub refreshed_rig : ℕ → Mirror → String → List ChainSlots → Mirror
refreshed_rig now mirror rig chains = record mirror {
  by_rig =
      insert rig (record { rig = rig; chains = chains; polled_at = now; error = none })
        mirror.by_rig;
}

failed_entry : ℕ → String → String → Option RigSlots → RigSlots
failed_entry now rig message none = record {
  rig = rig;
  chains = [];
  polled_at = now;
  error = some message;
}
failed_entry now rig message (some previous) = record previous { error = some message }

unfoldable pub refresh_failed : ℕ → Mirror → String → String → Mirror
unfolding failed_entry
refresh_failed now mirror rig message = record mirror {
  by_rig = insert rig (failed_entry now rig message (lookup rig mirror.by_rig)) mirror.by_rig;
}

unfoldable pub all_heads : Mirror → String → List SlotView
unfolding heads_of
all_heads mirror rig = elim (lookup rig mirror.by_rig) [
  | none ↦ []
  | some entry ↦ heads_of entry.chains
]

unfoldable pub insert_slot : SlotView → List SlotView → List SlotView
insert_slot s [] = s ∷ []
insert_slot s (t ∷ ts) = if leb s.started_at t.started_at then s ∷ t ∷ ts else t ∷ insert_slot s ts

-- `sort` by the start, which keeps the order of equal starts.
unfoldable pub sort_slots : List SlotView → List SlotView
unfolding insert_slot
sort_slots [] = []
sort_slots (s ∷ ss) = insert_slot s (sort_slots ss)

abbrev pub end_ms : SlotView → ℕ
end_ms s = s.end_at * 1000

abbrev pub is_live : ℕ → SlotView → Bool
is_live now s = is_running s.status && ltb now (end_ms s)

abbrev pub first {ℓ} : {A : Type ℓ} → List A → Option A
first [] = none
first (x ∷ xs) = some x

-- The slot that may drive the rig: of those that run, on any chain, the one that started first.
unfoldable pub live_slot : ℕ → Mirror → String → Option SlotView
unfolding all_heads sort_slots
live_slot now mirror rig = first (sort_slots (filter (is_live now) (all_heads mirror rig)))

unfoldable pub pending_slot : Mirror → String → Option SlotView
unfolding all_heads
pending_slot mirror rig = find (λ h. is_booked h.status) (all_heads mirror rig)

unfoldable pub remaining_ms : ℕ → SlotView → ℕ
remaining_ms now slot = end_ms slot - now

unfoldable pub note_slot_client : ℕ → Mirror → String → ℕ → Mirror
note_slot_client now mirror client slot = record mirror {
  client_slot = insert client (slot, now) mirror.client_slot;
}

unfoldable pub slot_id_for_client : Mirror → String → Option ℕ
slot_id_for_client mirror client = elim (lookup client mirror.client_slot) [
  | none ↦ none
  | some (slot, at) ↦ some slot
]

-- True the first time that the id of a slot is marked.
unfoldable pub mark_enforced : Mirror → ℕ → Mirror × Bool
mark_enforced mirror slot =
    if includes slot mirror.enforced
    then (mirror, false)
    else (record mirror { enforced = mirror.enforced ++ slot ∷ [] }, true)

unfoldable pub begin_in_flight : Mirror → FlightKey → Mirror × Bool
begin_in_flight mirror key =
    if includes key mirror.in_flight
    then (mirror, false)
    else (record mirror { in_flight = mirror.in_flight ++ key ∷ [] }, true)

unfoldable pub end_in_flight : Mirror → FlightKey → Mirror
end_in_flight mirror key = record mirror {
  in_flight = filter (λ k. not (k == key)) mirror.in_flight;
}

-- The transactions that a note leaves out are those of the note before.
unfoldable pub note_payout :
    ℕ → Mirror → ℕ → String → Option String → Option String → Option PaidBy → Mirror
note_payout now mirror slot chain settle_tx withdraw_tx by =
    let before = lookup slot mirror.payouts in
    record mirror {
      payouts =
          insert slot
            (record {
              chain_key = chain;
              settle_tx = or_maybe settle_tx (elim before [ none ↦ none | some p ↦ p.settle_tx ]);
              withdraw_tx =
                  or_maybe withdraw_tx (elim before [ none ↦ none | some p ↦ p.withdraw_tx ]);
              by = or_else by (elim before [ none ↦ hub | some p ↦ p.by ]);
              at = now;
            })
            mirror.payouts;
    }
