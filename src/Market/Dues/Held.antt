-- ===== src/Market/Dues/Held.antt =====
-- What the settlement of slots waits for, and the guard against two at once.
use eth_global_lisbon_2026_h.Base.{
  ℕ, ◌≡◌, inl, inr, refl, ◌∙◌, Bool, true, false, ◌||◌, Option, none, some, List, [], ◌∷◌, ◌++◌,
  String, arith, any, lookup, ◌==◌, Bool-cases, nat_eq, option_eq, string_eq,
}
use eth_global_lisbon_2026_h.Hub.Rig.{Rig}
use eth_global_lisbon_2026_h.Market.Row.{LedgerRow, RowId, id_eq, Market}
use eth_global_lisbon_2026_h.Market.Ledger.Listing.{any-list_rows}
use eth_global_lisbon_2026_h.Market.Slots.{SlotView, Mirror, flight_eq, begin_in_flight, all_heads}
use eth_global_lisbon_2026_h.Market.Settle.{Setup, Answer, answer, thrown}
use eth_global_lisbon_2026_h.Market.Dues.{
  Chains, Round, ChainCall, settle_slot, withdraw_for, skip_head, called, reread, note_settled,
  note_withdrawn, withdraw_slot, settle_called, landed, flight_of_settle, is_awaited, is_unfinished,
  may_settle, settle_head, settle_heads, settle_rigs, settle_due_slots,
}

-- Calls of a settlement for the slot with this number.
abbrev pub settles : ℕ → ChainCall → Bool
settles n (settle_slot head) = head.slot_id == n
settles n (withdraw_for head) = head.slot_id == n
settles n (skip_head head) = false

any-snoc {ℓ} :
    {A : Type ℓ} (p : A → Bool) (xs : List A) (x : A) → any p (xs ++ x ∷ []) ≡ (any p xs || p x)
unfolding any
any-snoc p [] x = ground arith
any-snoc p (y ∷ xs) x = ground (arith, any-snoc p xs x)

called-settles :
    (n : ℕ) (r : Round) (call : ChainCall)
    → settles n call ≡ false
    → any (settles n) (called r call).calls ≡ any (settles n) r.calls
unfolding called
called-settles n r call e = ground (arith, any-snoc (settles n) r.calls call, e)

module _ (n : ℕ) (now : ℕ) (chains : Chains) (rig : String) (head : SlotView)
    (other : (head.slot_id == n) ≡ false) where
  withdraw_slot-settles :
      (r : Round) (a : Answer (Option String))
      → any (settles n) (withdraw_slot now chains rig head r a).calls ≡ any (settles n) r.calls
  unfolding withdraw_slot note_withdrawn reread called
  withdraw_slot-settles r thrown = ground (arith, called-settles n r (withdraw_for head), other)
  withdraw_slot-settles r (answer none) =
      ground (arith, called-settles n r (withdraw_for head), other)
  withdraw_slot-settles r (answer (some tx)) =
      ground (arith, called-settles n r (withdraw_for head), other)

  settle_called-settles :
      (r : Round) (a : Answer (Option String))
      → any (settles n) (settle_called now chains rig head r a).calls ≡ any (settles n) r.calls
  unfolding settle_called note_settled called
  settle_called-settles r thrown = ground (arith, called-settles n r (settle_slot head), other)
  settle_called-settles r (answer none) =
      let r' = called r (settle_slot head) in
      ground (
        arith,
        called-settles n r (settle_slot head),
        other,
        withdraw_slot-settles r' (chains.withdrawn head),
      )
  settle_called-settles r (answer (some tx)) =
      let r' = note_settled now head (some tx) (called r (settle_slot head)) in
      ground (
        arith,
        called-settles n r (settle_slot head),
        other,
        withdraw_slot-settles r' (chains.withdrawn head),
      )

-- A head of another slot, or one that may not be settled, brings no call for this slot.
settle_head-settles :
    (setup : Setup) (now : ℕ) (chains : Chains) (m : Market) (rig : String) (head : SlotView)
    (r : Round) (n : ℕ)
    → ((head.slot_id == n) ≡ true → may_settle setup now m head ≡ false)
    → any (settles n) (settle_head setup now chains m rig head r).calls ≡ any (settles n) r.calls
unfolding settle_head landed
settle_head-settles setup now chains m rig head r n held = elim (Bool-cases (head.slot_id == n)) [
  | inl mine ↦ ground (arith, held mine)
  | inr other ↦ elim (Bool-cases (may_settle setup now m head)) [
    | inl may ↦
        let (mirror, free) = begin_in_flight r.mirror (flight_of_settle head) in
        let same =
          settle_called-settles n now chains rig head other (record r { mirror = mirror })
            (chains.settled head) in
        ground (arith, may, same)
    | inr not_now ↦ ground (arith, not_now)
  ]
]

-- An attempt of the slot that is neither rejected nor anchored.
module _ (setup : Setup) (now : ℕ) (chains : Chains) (m : Market) (id : RowId) (row : LedgerRow)
    (n : ℕ) (stored : lookup id m.rows ≡ some row) (of_slot : row.slot_id ≡ some n)
    (unfinished : is_unfinished row.status ≡ true) where
  awaited : (head : SlotView) → (head.slot_id == n) ≡ true → may_settle setup now m head ≡ false
  unfolding may_settle
  awaited head mine =
      let waits : is_awaited head row ≡ true = ground (arith, of_slot, unfinished, mine) in
      ground (arith, any-list_rows (is_awaited head) m id row stored waits)

  settle_heads-settles :
      (rig : String) (heads : List SlotView) (r : Round)
      → any (settles n) (settle_heads setup now chains m rig heads r).calls
        ≡ any (settles n) r.calls
  unfolding settle_heads
  settle_heads-settles rig [] r = refl
  settle_heads-settles rig (h ∷ hs) r =
      settle_heads-settles rig hs (settle_head setup now chains m rig h r)
      ∙ settle_head-settles setup now chains m rig h r n (awaited h)

  settle_rigs-settles :
      (rigs : List Rig) (r : Round)
      → any (settles n) (settle_rigs setup now chains m rigs r).calls ≡ any (settles n) r.calls
  unfolding settle_rigs
  settle_rigs-settles [] r = refl
  settle_rigs-settles (rig ∷ rigs) r =
      settle_rigs-settles rigs
        (settle_heads setup now chains m rig.name (all_heads r.mirror rig.name) r)
      ∙ settle_heads-settles rig.name (all_heads r.mirror rig.name) r

  -- No late verdict is settled away while it is graded or paid: as long as the ledger holds an
  -- attempt of a slot that is neither rejected nor anchored, a round of settlements calls neither
  -- `settle` nor `withdraw` for that slot, on any chain.
  pub settle_due_slots_waits :
      (rigs : List Rig) (mirror : Mirror)
      → any (settles n) (settle_due_slots setup now chains m rigs mirror).calls ≡ false
  unfolding settle_due_slots any
  settle_due_slots_waits rigs mirror =
      ground (arith, settle_rigs-settles rigs (record { mirror = mirror; calls = [] }))
