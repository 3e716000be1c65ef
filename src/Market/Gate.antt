-- ===== src/Market/Gate.antt =====
-- The market's gate in front of the hub's claim and command routes: apps/web/src/market/interceptor.ts.
-- The session and the slot token are what the request's cookies were read as.
pub mod Entry
use eth_global_lisbon_2026_h.Base.{
  ℕ, String, Bool, true, false, not, ◌&&◌, Option, none, some, ◌==◌, nat_eq, string_eq, option_eq,
  list_eq, is_some, is_none, or_else, or_maybe, if◌then◌else◌, Json, str, bool, Fields,
}
use eth_global_lisbon_2026_h.Hub.Lease.{lease_holder}
use eth_global_lisbon_2026_h.Hub.Registry.{Hub, get_rig, put_rig}
use eth_global_lisbon_2026_h.Hub.Rig.{Rig}
use eth_global_lisbon_2026_h.Hub.Routes.Reply.{is_blank}
use eth_global_lisbon_2026_h.Hub.Routes.Command.{get_field}
use eth_global_lisbon_2026_h.Market.Row.{LedgerRow, Market, Claimed, success, discarded, BondState}
use eth_global_lisbon_2026_h.Market.Ledger.{
  note_client, open_row, close_row, get_bond, lower_case, OpenRequest,
}
use eth_global_lisbon_2026_h.Market.Slots.{
  SlotView, Mirror, live_slot, pending_slot, note_slot_client,
}

-- `marketEnabled()`, `SLOTS.configured` and `SLOTS.required`.
pub record Config : Type 0 where
  pub market_on : Bool
  pub slots_on : Bool
  pub slot_required : Bool

pub record Session : Type 0 where
  pub nullifier : String
  pub address : Option String

pub record SlotToken : Type 0 where
  pub slot_id : ℕ
  pub rig : String
  pub operator : String
  pub expires_at : ℕ

pub data Denial : Type 0 where
  start_your_slot : ℕ → Denial
  book_a_slot : Denial
  other_wallet : Denial
  other_browser : ℕ → ℕ → Denial
  verification_required bond_required : Denial

-- The state that the gate reads and writes.
pub record World : Type 0 where
  pub hub : Hub
  pub market : Market
  pub mirror : Mirror

-- The slot and the chain that a row is stamped with, or a refusal.
pub data Gate : Type 0 where
  admits : Option ℕ → Option String → Gate
  denies : Denial → Gate

-- No slot runs on the rig.
idle_gate : Config → Mirror → String → Gate
unfolding pending_slot
idle_gate cfg mirror rig = elim (pending_slot mirror rig) [
  | some pending ↦ denies (start_your_slot pending.slot_id)
  | none ↦ if cfg.slot_required then denies book_a_slot else admits none none
]

unfoldable pub wrong_wallet : Option Session → SlotView → Bool
wrong_wallet none live = false
wrong_wallet (some s) live = elim s.address [
  | none ↦ false
  | some address ↦ not (lower_case address == lower_case live.operator)
]

unfoldable pub token_matches : Option SlotToken → SlotView → Bool
token_matches none live = false
token_matches (some t) live = t.slot_id == live.slot_id

note_holder : ℕ → Mirror → Option String → ℕ → Mirror
unfolding note_slot_client
note_holder now mirror client slot =
    if is_blank client then mirror else note_slot_client now mirror (or_else client "") slot

-- A slot runs on the rig.
live_gate :
    ℕ → Mirror → Option Session → Option SlotToken → Option String → SlotView → Mirror × Gate
unfolding wrong_wallet token_matches note_holder
live_gate now mirror session token client live =
    if wrong_wallet session live
    then (mirror, denies other_wallet)
    else if not (token_matches token live)
    then (mirror, denies (other_browser live.slot_id live.end_at))
    else (
      note_holder now mirror client live.slot_id,
      admits (some live.slot_id) (some live.chain_key),
    )

unfoldable pub slot_gate :
    ℕ → Config → Mirror → String → Option Session → Option SlotToken → Option String → Mirror × Gate
unfolding idle_gate live_gate live_slot
slot_gate now cfg mirror rig session token client =
    if not cfg.slots_on then (mirror, admits none none) else elim (live_slot now mirror rig) [
      | none ↦ (mirror, idle_gate cfg mirror rig)
      | some live ↦ live_gate now mirror session token client live
    ]

-- Without slots, a bond buys the right to drive.
unfoldable pub lacks_bond : Config → Market → Session → Bool
unfolding get_bond
lacks_bond cfg m session = not cfg.slots_on && is_none (get_bond m session.nullifier)

note_verified : ℕ → Market → Option String → Session → Market
unfolding note_client
note_verified now m client session =
    if is_blank client then m else note_client now m (or_else client "") session.nullifier

claim_verified :
    ℕ → Config → World → String → Session → Option SlotToken → Option String → World × Option Denial
unfolding lacks_bond slot_gate note_verified
claim_verified now cfg w rig session token client =
    if lacks_bond cfg w.market session
    then (w, some bond_required)
    else (let (mirror, gate) = slot_gate now cfg w.mirror rig (some session) token client in
        elim gate [
          | denies why ↦ (record w { mirror = mirror }, some why)
          | admits slot chain ↦ (
            record w { mirror = mirror; market = note_verified now w.market client session },
            none,
          )
        ])

-- A claim: none lets the request through to the hub.
unfoldable pub intercept_claim :
    ℕ
    → Config
    → World
    → String
    → Option Session
    → Option SlotToken
    → Option String
    → World × Option Denial
unfolding claim_verified
intercept_claim now cfg w rig session token client = elim session [
  | none ↦ (w, some verification_required)
  | some s ↦ claim_verified now cfg w rig s token client
]

text_arg : String → Option Fields → Option String
unfolding get_field
text_arg key none = none
text_arg key (some args) = elim (get_field key args) as (λ x. Option String) [
  | some (str s) ↦ some s
  | _ ↦ none
]

operator_address : ℕ → Config → World → String → Session → Option String
unfolding get_bond live_slot
operator_address now cfg w rig session =
    or_maybe
      (if cfg.slots_on then none else elim (get_bond w.market session.nullifier) [
        | none ↦ none
        | some b ↦ some b.evm_address
      ])
      (elim (live_slot now w.mirror rig) [ none ↦ none | some s ↦ some s.operator ])

start_admitted :
    ℕ
    → Config
    → World
    → String
    → Session
    → String
    → Option Fields
    → Option ℕ
    → Option String
    → World × LedgerRow
unfolding note_client open_row text_arg operator_address
start_admitted now cfg w rig session client args slot chain =
    let m = note_client now w.market client session.nullifier in
    let (m', row) = open_row now m (record {
      rig = rig;
      task_id = text_arg "taskId" args;
      client_id = client;
      evm_address = operator_address now cfg w rig session;
      slot_id = slot;
      slot_chain = chain;
    }) in
    (record w { market = m' }, row)

start_verified :
    ℕ
    → Config
    → World
    → String
    → Session
    → Option SlotToken
    → String
    → Option Fields
    → World × Option Denial × Option LedgerRow
unfolding lacks_bond slot_gate start_admitted
start_verified now cfg w rig session token client args =
    if lacks_bond cfg w.market session
    then (w, some bond_required, none)
    else (let (mirror, gate) = slot_gate now cfg w.mirror rig (some session) token (some client) in
        elim gate [
          | denies why ↦ (record w { mirror = mirror }, some why, none)
          | admits slot chain ↦
              let (w', row) =
                start_admitted now cfg (record w { mirror = mirror }) rig session client args slot
                  chain in
              (w', none, some row)
        ])

-- The start of an attempt by the holder of the lease; the row that comes back is to be sampled.
unfoldable pub intercept_start :
    ℕ
    → Config
    → World
    → String
    → Option Session
    → Option SlotToken
    → String
    → Option Fields
    → World × Option Denial × Option LedgerRow
unfolding start_verified
intercept_start now cfg w rig session token client args = elim session [
  | none ↦ (w, some verification_required, none)
  | some s ↦ start_verified now cfg w rig s token client args
]

claims_success : Option Fields → Bool
unfolding get_field
claims_success none = false
claims_success (some args) = elim (get_field "success" args) as (λ x. Bool) [
  | some (bool true) ↦ true
  | _ ↦ false
]

-- The end of an attempt by the holder of the lease is never denied.
unfoldable pub intercept_finish : ℕ → World → String → Option Fields → World
unfolding close_row claims_success
intercept_finish now w rig args = record w {
  market =
      (close_row now w.market rig (some (if claims_success args then success else discarded))).0;
}

-- Whether the hub is about to take the command, with the lease read.
holds_rig : ℕ → Hub → String → Option String → Hub × Bool
unfolding get_rig put_rig lease_holder
holds_rig now hub rig client = elim (get_rig hub rig) [
  | none ↦ (hub, false)
  | some r ↦
      if is_blank client
      then (hub, false)
      else (let (r', holder) = lease_holder now r in (put_rig hub r', holder == client))
]

unfoldable pub intercept_command :
    ℕ
    → Config
    → World
    → String
    → Option Session
    → Option SlotToken
    → Option String
    → String
    → Option Fields
    → World × Option Denial × Option LedgerRow
unfolding holds_rig intercept_start intercept_finish
intercept_command now cfg w rig session token client verb args =
    if not (verb == "attempt_start") && not (verb == "attempt_finish")
    then (w, none, none)
    else (let (hub, held) = holds_rig now w.hub rig client in
        let w' = record w { hub = hub } in
        if not held
        then (w', none, none)
        else if verb == "attempt_start"
        then intercept_start now cfg w' rig session token (or_else client "") args
        else (intercept_finish now w' rig args, none, none))
