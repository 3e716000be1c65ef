-- ===== src/Hub/Routes/Drive/Handover.antt =====
-- What a drive and a stop do to the leader arm and to the rig.
use eth_global_lisbon_2026_h.Base.{
  ℕ, ◌+◌, ◌<◌, ◌≤◌, String, true, Option, none, some, [], ◌∷◌, ◌++◌, length, length-append,
  string_eq, option_eq, eq_iff, option_beq_iff, Option-cases, arith, ◌≡◌, refl, inl, inr,
}
use eth_global_lisbon_2026_h.Hub.Rig.{Rig, max_pending}
use eth_global_lisbon_2026_h.Hub.Lease.{lease_holder}
use eth_global_lisbon_2026_h.Hub.Queue.{push_commands, has_room}
use eth_global_lisbon_2026_h.Hub.Registry.{Leader}
use eth_global_lisbon_2026_h.Hub.Leaders.{leader_may_drive, clear_leader_input_debug}
use eth_global_lisbon_2026_h.Hub.Routes.Reply.{Refusal, refused, queued}
use eth_global_lisbon_2026_h.Hub.Routes.Drive.{
  drive_rig, drive_refusal, bind_leader, start_remote, elsewhere, stop_rig, hub_command,
}

drive_passed :
    (holder : Option String) (leader : Leader) (rig : Rig) (client : String)
    → drive_refusal holder leader rig client ≡ none
    → (holder ≡ some client) × (elsewhere leader rig ≡ none) × (length rig.pending < max_pending)
unfolding drive_refusal has_room
drive_passed holder leader rig client h = elim (Option-cases (elsewhere leader rig)) [
  | inl e ↦ ground (arith, e, option_beq_iff holder (some client))
  | inr (o, e) ↦ ground (arith, e)
]

lease_holder-keeps :
    (now : ℕ) (rig : Rig)
    → let rig' = (lease_holder now rig).0 in
      (rig'.pending ≡ rig.pending)
      × (rig'.name ≡ rig.name)
      × ((lease_holder now rig').1 ≡ (lease_holder now rig).1)
unfolding lease_holder
lease_holder-keeps now rig = ground arith

bound_may_drive :
    (now : ℕ) (leader : Leader) (rig : Rig) (client : String)
    → (lease_holder now rig).1 ≡ some client
    → (leader_may_drive now (bind_leader now leader rig client) (start_remote now rig client)).1
      ≡ true
unfolding leader_may_drive bind_leader start_remote push_commands clear_leader_input_debug
    lease_holder
bound_may_drive now leader rig client held =
    ground (arith, eq_iff rig.name rig.name, eq_iff client client)

drive_refused :
    (now : ℕ) (leader : Leader) (rig : Rig) (client : String) (why : Refusal)
    → drive_refusal (lease_holder now rig).1 leader (lease_holder now rig).0 client ≡ some why
    → drive_rig now leader rig client ≡ (leader, (lease_holder now rig).0, refused why)
unfolding drive_rig
drive_refused now leader rig client why e = ground (arith, e)

drive_bound :
    (now : ℕ) (leader : Leader) (rig : Rig) (client : String)
    → drive_refusal (lease_holder now rig).1 leader (lease_holder now rig).0 client ≡ none
    → drive_rig now leader rig client ≡ (
      bind_leader now leader (lease_holder now rig).0 client,
      start_remote now (lease_holder now rig).0 client,
      queued "drive",
    )
unfolding drive_rig
drive_bound now leader rig client e = ground (arith, e)

start_remote-pending :
    (now : ℕ) (rig : Rig) (client : String)
    → (start_remote now rig client).pending
      ≡ rig.pending
        ++ hub_command now "teleop_stop" (some client)
          ∷ hub_command now "teleop_start_remote" (some client)
          ∷ []
unfolding start_remote push_commands clear_leader_input_debug
start_remote-pending now rig client = refl

stop_rig-bounded :
    (now : ℕ) (rig : Rig)
    → length rig.pending ≤ max_pending
    → length (stop_rig now rig).pending ≤ max_pending
unfolding stop_rig has_room push_commands clear_leader_input_debug lease_holder
stop_rig-bounded now rig bound = ground (
  arith,
  bound,
  length-append rig.pending (hub_command now "teleop_stop" (lease_holder now rig).1 ∷ []),
)

-- A drive that is accepted came from the lease's holder, for a leader that streams to no other rig.
-- From then on the leader may drive the rig, and the rig's queue has gained a stop of whatever was
-- driving and then the start of the remote source, in this order and both in the holder's name.
pub drive_rig_accepts :
    (now : ℕ) (leader : Leader) (rig : Rig) (client sent : String)
    → (drive_rig now leader rig client).2 ≡ queued sent
    → ((lease_holder now rig).1 ≡ some client)
      × (elsewhere leader rig ≡ none)
      × ((leader_may_drive now
            (drive_rig now leader rig client).0
            (drive_rig now leader rig client).1).1
          ≡ true)
      × ((drive_rig now leader rig client).1.pending
          ≡ rig.pending
            ++ hub_command now "teleop_stop" (some client)
              ∷ hub_command now "teleop_start_remote" (some client)
              ∷ [])
drive_rig_accepts now leader rig client sent h =
    elim (Option-cases
      (drive_refusal (lease_holder now rig).1 leader (lease_holder now rig).0 client)) [
        | inr (why, e) ↦ ground (arith, drive_refused now leader rig client why e)
        | inl e ↦
            let rig' = (lease_holder now rig).0 in
            let (held, here, room) = drive_passed (lease_holder now rig).1 leader rig' client e in
            let k = lease_holder-keeps now rig in
            rw (drive_bound now leader rig client e) (
              held,
              unfold elsewhere in ground (arith, here, k),
              bound_may_drive now leader rig' client (ground (arith, held, k)),
              ground (arith, start_remote-pending now rig' client, k),
            )
      ]

-- A drive that is refused changes neither the leader nor the rig, but for a lease that had run out.
pub drive_rig_refuses :
    (now : ℕ) (leader : Leader) (rig : Rig) (client : String) (why : Refusal)
    → (drive_rig now leader rig client).2 ≡ refused why
    → ((drive_rig now leader rig client).0 ≡ leader)
      × ((drive_rig now leader rig client).1 ≡ (lease_holder now rig).0)
unfolding drive_rig
drive_rig_refuses now leader rig client why h = ground arith

-- A drive that finds a queue within the limit leaves it at most one past the limit, and a stop
-- leaves it within the limit.
pub drive_rig-bounded :
    (now : ℕ) (leader : Leader) (rig : Rig) (client : String)
    → length rig.pending ≤ max_pending
    → (length (drive_rig now leader rig client).1.pending ≤ max_pending + 1)
      × (length (stop_rig now rig).pending ≤ max_pending)
drive_rig-bounded now leader rig client bound = (
  elim (Option-cases
      (drive_refusal (lease_holder now rig).1 leader (lease_holder now rig).0 client)) [
        | inr (why, e) ↦
            rw (drive_refused now leader rig client why e) ground
              (arith, lease_holder-keeps now rig, bound)
        | inl e ↦
            let rig' = (lease_holder now rig).0 in
            let p = drive_passed (lease_holder now rig).1 leader rig' client e in
            rw
              (
                drive_bound now leader rig client e,
                start_remote-pending now rig' client,
                length-append,
              )
              omega (arith, p)
      ],
  stop_rig-bounded now rig bound,
)
