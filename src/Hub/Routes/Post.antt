-- ===== src/Hub/Routes/Post.antt =====
-- The POST half of /rigs/:name of apps/web/src/hub/routes.ts: the checks that come before every
-- action, and the choice of the action.
use eth_global_lisbon_2026_h.Base.{
  ℕ, String, Bool, none, some, or_else, ◌==◌, string_eq, if◌then◌else◌, end,
}
use eth_global_lisbon_2026_h.Hub.Rig.{Rig}
use eth_global_lisbon_2026_h.Hub.Lease.{lease_holder, claim_lease, release_lease}
use eth_global_lisbon_2026_h.Hub.Registry.{Hub, get_rig, put_rig}
use eth_global_lisbon_2026_h.Hub.Routes.Reply.{
  Outcome, refused, holds, released, awaits, RigBody, unknown_rig, client_required, not_found,
  is_blank,
}
use eth_global_lisbon_2026_h.Hub.Routes.Command.{command_route}
use eth_global_lisbon_2026_h.Hub.Routes.Input.{device_of, input_gate}
use eth_global_lisbon_2026_h.Market.Row.{Market}

unfoldable pub claim_route : ℕ → Rig → String → Bool → Rig × Outcome
unfolding claim_lease lease_holder
claim_route now rig client force =
    let (rig', ok) = claim_lease now rig client force in
    let (rig'', holder) = lease_holder now rig' in (rig'', holds ok holder)

unfoldable pub release_route : ℕ → Rig → String → Rig × Outcome
unfolding release_lease lease_holder
release_route now rig client =
    let (rig', holder) = lease_holder now (release_lease now rig client) in (rig', released holder)

input_route : ℕ → Hub → Rig → String → Rig × Outcome
unfolding device_of input_gate
input_route now hub rig client =
    let (rig', gate) = input_gate now (device_of hub client) rig client in
    (rig', elim gate [ none ↦ awaits | some why ↦ refused why ])

rig_action : ℕ → Bool → Market → Hub → Rig → String → String → RigBody → Rig × Outcome
unfolding claim_route release_route input_route command_route
rig_action now market_on m hub rig action client body =
    if action == "/claim"
    then claim_route now rig client body.force
    else if action == "/release"
    then release_route now rig client
    else if action == "/input"
    then input_route now hub rig client
    else if action == "/command"
    then command_route now market_on m rig client (or_else body.verb "") (or_else body.args end)
        body.owner_key
    else (rig, refused not_found)

unfoldable pub post_rig : ℕ → Bool → Market → Hub → String → String → RigBody → Hub × Outcome
unfolding get_rig put_rig rig_action
post_rig now market_on m hub name action body = elim (get_rig hub name) [
  | none ↦ (hub, refused unknown_rig)
  | some rig ↦
      if is_blank body.client_id
      then (hub, refused client_required)
      else (let (rig', out) =
            rig_action now market_on m hub rig action (or_else body.client_id "") body in
          (put_rig hub rig', out))
]
