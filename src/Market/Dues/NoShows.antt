-- ===== src/Market/Dues/NoShows.antt =====
-- Who is skipped, and which slots are settled.
use eth_global_lisbon_2026_h.Base.{
  ℕ, ◌+◌, ◌*◌, ◌<◌, ◌≤◌, ◌≡◌, ◌⊎◌, inl, inr, refl, true, Option, none, some, [], ◌∷◌, ◌++◌, String,
  arith, includes, length, Bool-cases, string_eq,
}
use eth_global_lisbon_2026_h.Market.Slots.{
  SlotView, ChainSlots, flight_eq, begin_in_flight, is_booked, SlotStatus, booked, running, settled,
  voided, skipped, cancelled,
}
use eth_global_lisbon_2026_h.Market.Settle.{Setup, Answer, answer, thrown}
use eth_global_lisbon_2026_h.Market.Dues.{
  Chains, Round, skip_head, called, reread, landed, flight_of_skip, skip_due, skip_called,
  skip_with, may_skip, skip_entry,
}

skip_called-calls :
    (now : ℕ) (chains : Chains) (rig : String) (head : SlotView) (r : Round)
    (a : Answer (Option String))
    → (skip_called now chains rig head r a).calls ≡ r.calls ++ skip_head head ∷ []
unfolding skip_called called reread
skip_called-calls now chains rig head r thrown = refl
skip_called-calls now chains rig head r (answer none) = refl
skip_called-calls now chains rig head r (answer (some tx)) = refl

-- Why a head was skipped.
pub record IsNoShow (setup : Setup) (now : ℕ) (chains : Chains) (entry : ChainSlots)
    (head : SlotView) : Type 0 where
  pub never_came : head.status ≡ booked
  pub someone_waits : 2 ≤ length entry.queue
  pub chain_known : includes head.chain_key setup.slot_chains ≡ true
  pub grace : ℕ
  pub grace_read : chains.no_show_grace head.chain_key ≡ answer (some grace)
  pub since_known : 0 < entry.head_since
  pub grace_over : (entry.head_since + grace) * 1000 ≤ now

may_skip-booked : (s : SlotStatus) → is_booked s ≡ true → s ≡ booked
may_skip-booked booked e = refl
may_skip-booked running e = cc
may_skip-booked settled e = cc
may_skip-booked voided e = cc
may_skip-booked skipped e = cc
may_skip-booked cancelled e = cc

skip_with-calls :
    (setup : Setup) (now : ℕ) (chains : Chains) (rig : String) (entry : ChainSlots)
    (head : SlotView) (r : Round) (a : Answer (Option ℕ))
    → chains.no_show_grace head.chain_key ≡ a
    → may_skip setup entry head ≡ true
    → let r' = skip_with now chains rig entry head r a in
      (r'.calls ≡ r.calls)
      ⊎ ((r'.calls ≡ r.calls ++ skip_head head ∷ []) × IsNoShow setup now chains entry head)
unfolding skip_with
skip_with-calls setup now chains rig entry head r thrown e may = inl refl
skip_with-calls setup now chains rig entry head r (answer none) e may = inl refl
skip_with-calls setup now chains rig entry head r (answer (some g)) e may =
    elim (Bool-cases (skip_due now entry g)) [
      | inr early ↦ inl (rw early refl)
      | inl due ↦ inr (
        rw due (skip_called-calls now chains rig head r (chains.skipped head)),
        unfold may_skip skip_due in
            record {
              never_came = may_skip-booked head.status (ground (arith, may));
              someone_waits = ground (arith, may);
              chain_known = ground (arith, may);
              grace = g;
              grace_read = e;
              since_known = ground (arith, due);
              grace_over = ground (arith, due);
            },
      )
    ]

-- Nobody is skipped who blocks nobody: the look at the head of a queue makes either no call, or the
-- one call that skips this head; and then it was booked and never started, somebody stands behind
-- it, its chain is known and told its grace, and it has been the head for that long.
pub skip_entry_fair :
    (setup : Setup) (now : ℕ) (chains : Chains) (rig : String) (entry : ChainSlots)
    (head : SlotView) (r : Round)
    → let r' = skip_entry setup now chains rig entry head r in
      (r'.calls ≡ r.calls)
      ⊎ ((r'.calls ≡ r.calls ++ skip_head head ∷ []) × IsNoShow setup now chains entry head)
unfolding skip_entry landed
skip_entry_fair setup now chains rig entry head r =
    let (mirror, free) = begin_in_flight r.mirror (flight_of_skip entry head) in
    elim (Bool-cases (may_skip setup entry head)) [
      | inr held ↦ inl (rw (held, skip_entry) refl)
      | inl may ↦ elim (Bool-cases free) [
        | inr busy ↦ inl (ground (arith, may, busy))
        | inl ready ↦
            let begun = record r { mirror = mirror } in
            rw (may, skip_entry, ready)
              (skip_with-calls setup now chains rig entry head begun
                (chains.no_show_grace head.chain_key) refl may)
      ]
    ]
