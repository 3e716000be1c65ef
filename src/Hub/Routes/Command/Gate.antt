-- ===== src/Hub/Routes/Command/Gate.antt =====
-- Who may have a command queued.
use eth_global_lisbon_2026_h.Base.{
  ℕ, ◌<◌, ◌≤◌, String, Bool, true, false, Option, none, some, [], ◌∷◌, ◌++◌, length, includes,
  or_else, lookup, string_eq, option_eq, option_beq_iff, Option-cases, Bool-cases, arith, ◌≡◌, refl,
  ◌⊎◌, inl, inr, Fields, end, field, Json, json_length, fields_length, obj,
}
use eth_global_lisbon_2026_h.Hub.Rig.{Rig, max_pending}
use eth_global_lisbon_2026_h.Hub.Lease.{lease_holder}
use eth_global_lisbon_2026_h.Hub.Queue.{push_commands, has_room}
use eth_global_lisbon_2026_h.Hub.Registry.{is_online}
use eth_global_lisbon_2026_h.Hub.Verbs.{VerbSpec, verb_spec, safety_verb}
use eth_global_lisbon_2026_h.Hub.Routes.Reply.{Refusal, refused, queued, is_blank}
use eth_global_lisbon_2026_h.Hub.Routes.Command.{
  command_gate, bad_arg, args_refusal, queue_refusal, exclude_for, relayed, enqueue, with_extra,
  admit, command_as, command_route, max_args_bytes,
}
use eth_global_lisbon_2026_h.Market.Row.{Market}

-- What a verb asks of the caller.
unfoldable pub IsEntitled : ℕ → Rig → String → VerbSpec → Option String → Type 0
IsEntitled now rig client spec key =
    ((spec.owner ≡ true) × (is_blank key ≡ false))
    ⊎ ((spec.owner ≡ false) × (spec.safety ≡ true))
    ⊎ ((spec.owner ≡ false) × ((lease_holder now rig).1 ≡ some client))

-- Each argument is one that the verb takes and that is not the hub's.
pub data IsAllowed (spec : VerbSpec) : Fields → Type 0 where
  no_args : IsAllowed spec end
  one_arg :
      {k : String} {v : Json} {fs : Fields}
      → includes k (or_else spec.args []) ≡ true
      → includes k spec.hub_only ≡ false
      → IsAllowed spec fs
      → IsAllowed spec (field k v fs)

bad_arg-IsAllowed :
    (spec : VerbSpec) (args : Fields) → bad_arg spec args ≡ none → IsAllowed spec args
unfolding bad_arg
bad_arg-IsAllowed spec end h = no_args
bad_arg-IsAllowed spec (field k v fs) h =
    one_arg (ground arith) (ground arith) (bad_arg-IsAllowed spec fs (ground arith))

gate_passed :
    (now : ℕ) (rig : Rig) (client : String) (spec : VerbSpec) (key : Option String)
    → (command_gate now rig client spec key).1 ≡ none
    → IsEntitled now rig client spec key
unfolding command_gate IsEntitled
gate_passed now rig client spec key h = elim (Bool-cases spec.owner) [
  | inl owned ↦ inl (owned, ground arith)
  | inr free ↦ elim (Bool-cases spec.safety) [
    | inl safe ↦ inr (inl (free, safe))
    | inr leased ↦
        inr (inr (free, ground (arith, option_beq_iff (lease_holder now rig).1 (some client))))
  ]
]

gate-pending :
    (now : ℕ) (rig : Rig) (client : String) (spec : VerbSpec) (key : Option String)
    → ((command_gate now rig client spec key).0 ≡ rig)
      ⊎ ((command_gate now rig client spec key).0 ≡ (lease_holder now rig).0)
unfolding command_gate
gate-pending now rig client spec key = ground arith

lease_holder-keeps :
    (now : ℕ) (rig : Rig)
    → let rig' = (lease_holder now rig).0 in
      (rig'.pending ≡ rig.pending)
      × (rig'.last_seen ≡ rig.last_seen)
      × ((lease_holder now rig').1 ≡ (lease_holder now rig).1)
unfolding lease_holder
lease_holder-keeps now rig = ground arith

gate-keeps :
    (now : ℕ) (rig : Rig) (client : String) (spec : VerbSpec) (key : Option String)
    → let rig' = (command_gate now rig client spec key).0 in
      (rig'.pending ≡ rig.pending)
      × (rig'.last_seen ≡ rig.last_seen)
      × ((lease_holder now rig').1 ≡ (lease_holder now rig).1)
gate-keeps now rig client spec key = elim (gate-pending now rig client spec key) [
  | inl e ↦ rw e (refl, refl, refl)
  | inr e ↦ rw e (lease_holder-keeps now rig)
]

-- What the queue gains when a verb is accepted.
unfoldable pub IsQueued : ℕ → Rig → Rig → String → VerbSpec → Fields → Option String → Type 0
IsQueued now rig rig' verb spec args key =
    rig'.pending ≡ rig.pending ++ relayed now verb spec args key (lease_holder now rig).1 ∷ []

module _ (now : ℕ) (market_on : Bool) (m : Market) where
  admit_accepts :
      (rig : Rig) (verb sent : String) (spec : VerbSpec) (args : Fields) (key : Option String)
      → (admit now market_on m rig verb spec args key).1 ≡ queued sent
      → (IsAllowed spec args)
        × (json_length (obj args) ≤ max_args_bytes)
        × (is_online now rig ≡ true)
        × (length rig.pending < max_pending)
        × (IsQueued now rig
            (admit now market_on m rig verb spec args key).0
            verb
            spec
            (with_extra (exclude_for market_on m verb rig args) args)
            key)
  unfolding admit args_refusal queue_refusal enqueue push_commands has_room IsQueued
  admit_accepts rig verb sent spec args key h = elim (Option-cases (bad_arg spec args)) [
    | inr (k, e) ↦ ground (arith, e)
    | inl e ↦ (
      bad_arg-IsAllowed spec args e,
      ground (arith, e),
      ground (arith, e),
      ground (arith, e),
      ground (arith, e, lease_holder-keeps now rig),
    )
  ]

  admit_refuses :
      (rig : Rig) (verb : String) (spec : VerbSpec) (args : Fields) (key : Option String)
      (why : Refusal)
      → (admit now market_on m rig verb spec args key).1 ≡ refused why
      → (admit now market_on m rig verb spec args key).0 ≡ rig
  unfolding admit args_refusal queue_refusal enqueue
  admit_refuses rig verb spec args key why h = ground arith

  admit-exclude_for :
      (rig : Rig) (client verb : String) (spec : VerbSpec) (args : Fields) (key : Option String)
      → exclude_for market_on m verb (command_gate now rig client spec key).0 args
        ≡ exclude_for market_on m verb rig args
  unfolding exclude_for lease_holder
  admit-exclude_for rig client verb spec args key = elim (gate-pending now rig client spec key) [
    | inl e ↦ rw e refl
    | inr e ↦ rw e ground arith
  ]

  command_route-admit :
      (rig : Rig) (client verb : String) (spec : VerbSpec) (args : Fields) (key : Option String)
      → verb_spec verb ≡ some spec
      → (command_gate now rig client spec key).1 ≡ none
      → command_route now market_on m rig client verb args key
        ≡ admit now market_on m (command_gate now rig client spec key).0 verb spec args key
  unfolding command_route command_as
  command_route-admit rig client verb spec args key known through =
      rw (known, command_route) (rw (through, command_as) refl)

  -- A command that the route accepts has one new entry on the queue and nothing else: its verb
  -- is in the table or is a name that every object inherits, the caller is entitled to it
  -- (owner key, safety verb or lease), each argument is allowed to the caller, they fit in 4096
  -- characters, the rig is online, the queue had room, and the entry has the caller's arguments
  -- with the hub's, the holder of the lease and the time.
  pub command_route_accepts :
      (rig : Rig) (client verb sent : String) (args : Fields) (key : Option String)
      → (command_route now market_on m rig client verb args key).1 ≡ queued sent
      → (spec : VerbSpec) × (verb_spec verb ≡ some spec)
        × (IsEntitled now rig client spec key)
        × (IsAllowed spec args)
        × (json_length (obj args) ≤ max_args_bytes)
        × (is_online now rig ≡ true)
        × (length rig.pending < max_pending)
        × (IsQueued now rig
            (command_route now market_on m rig client verb args key).0
            verb
            spec
            (with_extra (exclude_for market_on m verb rig args) args)
            key)
  unfolding command_route command_as
  command_route_accepts rig client verb sent args key h = elim (Option-cases (verb_spec verb)) [
    | inl unknown ↦ ground (arith, unknown)
    | inr (spec, known) ↦ elim (Option-cases (command_gate now rig client spec key).1) [
      | inr (why, shut) ↦ ground (arith, known, shut)
      | inl through ↦
          let rig' = (command_gate now rig client spec key).0 in
          let same = command_route-admit rig client verb spec args key known through in
          let a = admit_accepts rig' verb sent spec args key (ground (arith, same)) in
          let k = gate-keeps now rig client spec key in
          let x = admit-exclude_for rig client verb spec args key in
          (
            spec,
            known,
            gate_passed now rig client spec key through,
            a.0,
            a.1,
            unfold is_online in ground (arith, a, k),
            ground (arith, a, k),
            unfold IsQueued in ground (arith, same, a, k, x),
          )
    ]
  ]

  -- A command that is refused leaves the rig as it was, but for a lease that had run out.
  pub command_route_refuses :
      (rig : Rig) (client verb : String) (args : Fields) (key : Option String) (why : Refusal)
      → (command_route now market_on m rig client verb args key).1 ≡ refused why
      → ((command_route now market_on m rig client verb args key).0 ≡ rig)
        ⊎ ((command_route now market_on m rig client verb args key).0 ≡ (lease_holder now rig).0)
  unfolding command_route command_as
  command_route_refuses rig client verb args key why h = elim (Option-cases (verb_spec verb)) [
    | inl unknown ↦ ground (arith, unknown)
    | inr (spec, known) ↦ ground (
      arith,
      known,
      gate-pending now rig client spec key,
      admit_refuses (command_gate now rig client spec key).0 verb spec args key why,
    )
  ]

  safe_verb :
      (rig : Rig) (client verb : String) (key : Option String) (spec : VerbSpec)
      → verb_spec verb ≡ some spec
      → spec.owner ≡ false
      → spec.safety ≡ true
      → is_online now rig ≡ true
      → length rig.pending < max_pending
      → (command_route now market_on m rig client verb end key).1 ≡ queued verb
  unfolding command_gate admit args_refusal bad_arg queue_refusal enqueue has_room json_length
      fields_length
  safe_verb rig client verb key spec known free safe on room =
      rw (command_route-admit rig client verb spec end key known (ground (arith, free, safe)))
        ground (arith, free, safe, on, room)

  -- Anyone can stop the arm: with no key, no argument and no lease, each of the two safety verbs is
  -- queued whenever the rig is online and its queue has room.
  pub command_route-safety :
      (rig : Rig) (client verb : String) (key : Option String)
      → (verb ≡ "estop") ⊎ (verb ≡ "teleop_stop")
      → is_online now rig ≡ true
      → length rig.pending < max_pending
      → (command_route now market_on m rig client verb end key).1 ≡ queued verb
  unfolding verb_spec lookup
  command_route-safety rig client verb key (inl e) on room =
      rw e
        (safe_verb rig client "estop" key (safety_verb "/api/robot/estop") refl refl refl on room)
  command_route-safety rig client verb key (inr e) on room = rw e (
      safe_verb rig client "teleop_stop" key (safety_verb "/api/robot/teleop/stop") refl refl refl
        on room)
