-- ===== src/Market/Gate/Entry.antt =====
-- Who gets through the market's gate.
use eth_global_lisbon_2026_h.Base.{
  ℕ, String, true, false, not, ◌&&◌, Option, none, some, ◌==◌, nat_eq, string_eq, option_eq,
  list_eq, list_beq_iff, or_else, Bool-cases, arith, ◌≡◌, refl, inl, inr, Fields,
}
use eth_global_lisbon_2026_h.Market.Row.{Market}
use eth_global_lisbon_2026_h.Market.Ledger.{note_client, lower_case}
use eth_global_lisbon_2026_h.Market.Ledger.Order.{IsOrdered, open_row-IsOrdered}
use eth_global_lisbon_2026_h.Market.Ledger.Closing.{close_row-IsOrdered}
use eth_global_lisbon_2026_h.Market.Slots.{SlotView, Mirror, live_slot}
use eth_global_lisbon_2026_h.Market.Gate.{
  Config, Session, SlotToken, World, Gate, admits, denies, wrong_wallet, token_matches, live_gate,
  slot_gate, lacks_bond, claim_verified, intercept_claim, intercept_start, intercept_finish,
  intercept_command, start_verified, start_admitted, holds_rig,
}

live_gate-admits :
    (now : ℕ) (mirror : Mirror) (session : Option Session) (token : Option SlotToken)
    (client : Option String) (live : SlotView) (slot : Option ℕ) (chain : Option String)
    → (live_gate now mirror session token client live).1 ≡ admits slot chain
    → (wrong_wallet session live ≡ false)
      × (token_matches token live ≡ true)
      × (slot ≡ some live.slot_id)
      × (chain ≡ some live.chain_key)
unfolding live_gate
live_gate-admits now mirror session token client live slot chain h = ground arith

token-slot :
    (token : Option SlotToken) (live : SlotView)
    → token_matches token live ≡ true
    → (t : SlotToken) × (token ≡ some t) × (t.slot_id ≡ live.slot_id)
unfolding token_matches
token-slot none live h = ground arith
token-slot (some t) live h = (t, refl, ground arith)

wallet-agrees :
    (session : Session) (live : SlotView) (address : String)
    → wrong_wallet (some session) live ≡ false
    → session.address ≡ some address
    → lower_case address ≡ lower_case live.operator
unfolding wrong_wallet
wallet-agrees session live address h e =
    (list_beq_iff (lower_case address) (lower_case live.operator)).0 (ground (arith, e, h))

gate_live :
    (now : ℕ) (cfg : Config) (mirror : Mirror) (rig : String) (session : Option Session)
    (token : Option SlotToken) (client : Option String) (live : SlotView)
    → cfg.slots_on ≡ true
    → live_slot now mirror rig ≡ some live
    → slot_gate now cfg mirror rig session token client
      ≡ live_gate now mirror session token client live
unfolding slot_gate
gate_live now cfg mirror rig session token client live on runs = ground (arith, on, runs)

claim_gate :
    (now : ℕ) (cfg : Config) (w : World) (rig : String) (s : Session) (token : Option SlotToken)
    (client : Option String)
    → (claim_verified now cfg w rig s token client).1 ≡ none
    → (slot : Option ℕ) × (chain : Option String) × ((slot_gate now cfg w.mirror rig
          (some s)
          token
          client).1
        ≡ admits slot chain)
unfolding claim_verified
claim_gate now cfg w rig s token client h =
    go (slot_gate now cfg w.mirror rig (some s) token client).1 refl
  where
    go :
        (g : Gate)
        → (slot_gate now cfg w.mirror rig (some s) token client).1 ≡ g
        → (slot : Option ℕ) × (chain : Option String) × ((slot_gate now cfg w.mirror rig
              (some s)
              token
              client).1
            ≡ admits slot chain)
    go (admits slot chain) e = (slot, chain, e)
    go (denies why) e = ground (arith, e)

-- With slots configured, a claim that is let through while a slot runs on the rig comes from a
-- verified browser that holds a token with the number of that slot, and whose wallet, where it gave
-- one, is the operator's. The token names no chain: the slot of another chain with the same number
-- would do as well.
pub intercept_claim_sound :
    (now : ℕ) (cfg : Config) (w : World) (rig : String) (session : Option Session)
    (token : Option SlotToken) (client : Option String) (live : SlotView)
    → cfg.slots_on ≡ true
    → live_slot now w.mirror rig ≡ some live
    → (intercept_claim now cfg w rig session token client).1 ≡ none
    → (s : Session) × (t : SlotToken) × (session ≡ some s)
      × (token ≡ some t)
      × (t.slot_id ≡ live.slot_id)
      × ((address : String)
          → s.address ≡ some address
          → lower_case address ≡ lower_case live.operator)
unfolding intercept_claim
intercept_claim_sound now cfg w rig none token client live on runs h = ground arith
intercept_claim_sound now cfg w rig (some s) token client live on runs h =
    let (slot, chain, admitted) = claim_gate now cfg w rig s token client h in
    let same = gate_live now cfg w.mirror rig (some s) token client live on runs in
    let (right, matches, stamped, on_chain) =
      live_gate-admits now w.mirror (some s) token client live slot chain
        (ground (arith, admitted, same)) in
    let (t, has, at) = token-slot token live matches in
    (s, t, refl, has, at, λ address e. wallet-agrees s live address right e)

-- The end of an attempt is never denied: whatever the session, the token and the slots say.
pub intercept_command-finish :
    (now : ℕ) (cfg : Config) (w : World) (rig : String) (session : Option Session)
    (token : Option SlotToken) (client : Option String) (args : Option Fields)
    → (intercept_command now cfg w rig session token client "attempt_finish" args).1 ≡ none
unfolding intercept_command
intercept_command-finish now cfg w rig session token client args = ground arith

note_client-IsOrdered :
    (now : ℕ) (m : Market) (client nullifier : String)
    → IsOrdered m
    → IsOrdered (note_client now m client nullifier)
unfolding note_client
note_client-IsOrdered now m client nullifier ok = record {
  entries = λ id row e.
      let was = ok.entries id row e in
      record { keyed = was.keyed; issued = was.issued; pointed = was.pointed };
  pointers =
      λ r id e. let was = ok.pointers r id e in record { issued = was.issued; own = was.own };
}

start_admitted-IsOrdered :
    (now : ℕ) (cfg : Config) (w : World) (rig : String) (s : Session) (client : String)
    (args : Option Fields) (slot : Option ℕ) (chain : Option String)
    → IsOrdered w.market
    → IsOrdered (start_admitted now cfg w rig s client args slot chain).0.market
unfolding start_admitted
start_admitted-IsOrdered now cfg w rig s client args slot chain ok =
    open_row-IsOrdered now (note_client now w.market client s.nullifier) _
      (note_client-IsOrdered now w.market client s.nullifier ok)

start_verified-IsOrdered :
    (now : ℕ) (cfg : Config) (w : World) (rig : String) (s : Session) (token : Option SlotToken)
    (client : String) (args : Option Fields) (g : Gate)
    → (slot_gate now cfg w.mirror rig (some s) token (some client)).1 ≡ g
    → IsOrdered w.market
    → IsOrdered (start_verified now cfg w rig s token client args).0.market
unfolding start_verified
start_verified-IsOrdered now cfg w rig s token client args (denies why) e ok =
    elim (Bool-cases (lacks_bond cfg w.market s)) [
      | inl lacks ↦ rw (lacks, start_verified) ok
      | inr has ↦ rw (has, e, start_verified) ok
    ]
start_verified-IsOrdered now cfg w rig s token client args (admits slot chain) e ok =
    elim (Bool-cases (lacks_bond cfg w.market s)) [
      | inl lacks ↦ rw (lacks, start_verified) ok
      | inr has ↦
          rw (has, e, start_verified)
            (start_admitted-IsOrdered now cfg
              (record w {
                mirror = (slot_gate now cfg w.mirror rig (some s) token (some client)).0;
              })
              rig s client args slot chain ok)
    ]

start-IsOrdered :
    (now : ℕ) (cfg : Config) (w : World) (rig : String) (session : Option Session)
    (token : Option SlotToken) (client : String) (args : Option Fields)
    → IsOrdered w.market
    → IsOrdered (intercept_start now cfg w rig session token client args).0.market
unfolding intercept_start
start-IsOrdered now cfg w rig none token client args ok = ok
start-IsOrdered now cfg w rig (some s) token client args ok =
    start_verified-IsOrdered now cfg w rig s token client args
      (slot_gate now cfg w.mirror rig (some s) token (some client)).1 refl ok

finish-IsOrdered :
    (now : ℕ) (w : World) (rig : String) (args : Option Fields)
    → IsOrdered w.market
    → IsOrdered (intercept_finish now w rig args).market
unfolding intercept_finish
finish-IsOrdered now w rig args ok = close_row-IsOrdered now w.market rig _ ok

-- Whatever command comes by, the gate leaves a ledger that is in order in order: an open row is
-- the one that its rig's pointer leads to, and each pointer leads to no other rig's row.
pub intercept_command-IsOrdered :
    (now : ℕ) (cfg : Config) (w : World) (rig : String) (session : Option Session)
    (token : Option SlotToken) (client : Option String) (verb : String) (args : Option Fields)
    → IsOrdered w.market
    → IsOrdered (intercept_command now cfg w rig session token client verb args).0.market
unfolding intercept_command
intercept_command-IsOrdered now cfg w rig session token client verb args ok =
    let (hub, held) = holds_rig now w.hub rig client in
    let w' = record w { hub = hub } in
    let started = start-IsOrdered now cfg w' rig session token (or_else client "") args ok in
    let finished = finish-IsOrdered now w' rig args ok in
    elim (Bool-cases (not (verb == "attempt_start") && not (verb == "attempt_finish"))) [
      | inl other ↦ rw (other, intercept_command) ok
      | inr attempt ↦ elim (Bool-cases (holds_rig now w.hub rig client).1) [
        | inr idle ↦ rw (attempt, idle, intercept_command) ok
        | inl holds ↦ elim (Bool-cases (verb == "attempt_start")) [
          | inl start ↦ rw (attempt, holds, start, intercept_command) started
          | inr finish ↦ rw (attempt, holds, finish, intercept_command) finished
        ]
      ]
    ]
