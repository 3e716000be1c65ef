-- ===== src/Agent/Link.antt =====
-- What the rig's link to the hub keeps, from `startRigLink` of apps/web/src/rig/link.ts: the lists
-- that it advertises with their revisions, and the one input that is on its way to the driver. The
-- telemetry of a tick is read from the rig's own API, and stands in the body that `filled` completes.
pub mod Advertised
pub mod Commands
pub mod Inputs
use eth_global_lisbon_2026_h.Base.{
  ℕ, String, Bool, true, false, Option, none, some, List, [], ◌∷◌, ◌++◌, ◌==◌, string_eq, option_eq,
  if◌then◌else◌, Json,
}
use eth_global_lisbon_2026_h.Hub.Rig.{Rig, TaskInfo}
use eth_global_lisbon_2026_h.Hub.Registry.{Hub, put_rig}
use eth_global_lisbon_2026_h.Hub.Routes.Link.{LinkBody, LinkReply, link_up, link_down}

-- A list from the rig's own files, the revision that `rev` gave for it, and the revision that the hub
-- echoed last, once it did.
pub record Cache {ℓ} (A : Type ℓ) : Type ℓ where
  pub rows : List A
  pub rev : Option String
  pub hub_rev : Option (Option String)

pub record Link : Type 0 where
  pub tasks : Cache TaskInfo
  pub runs : Cache Json

-- The rows to send in this tick, if the echo differs.
unfoldable pub advertised {ℓ} : {A : Type ℓ} → Cache A → Option (List A)
advertised c = if c.hub_rev == some c.rev then none else some c.rows

-- The body of a tick.
unfoldable pub filled : String → Link → LinkBody → LinkBody
unfolding advertised
filled name l body = record body {
  name = some name;
  tasks_rev = l.tasks.rev;
  tasks = advertised l.tasks;
  runs_rev = l.runs.rev;
  runs = advertised l.runs;
}

-- What the tick takes from the hub's answer.
unfoldable pub heard : LinkReply → Link → Link
heard reply l = record {
  tasks = record l.tasks { hub_rev = some reply.tasks_rev };
  runs = record l.runs { hub_rev = some reply.runs_rev };
}

-- The hub's answer, or none for a rig without a name.
unfoldable pub link_answer : ℕ → Hub × Option Rig → Hub × Option LinkReply
unfolding link_down put_rig
link_answer now (hub, none) = (hub, none)
link_answer now (hub, some rig) =
    let (rig', reply) = link_down now rig in (put_rig hub rig', some reply)

-- What the tick takes from the answer; one that is refused leaves the link as it was.
unfoldable pub hears : Link → Option LinkReply → Link
unfolding heard
hears l none = l
hears l (some reply) = heard reply l

-- A tick of the link whose answer arrives.
unfoldable pub link_tick : ℕ → String → Hub → LinkBody → Link → Hub × Link
unfolding link_up link_answer filled hears
link_tick now name hub body l =
    let (hub', reply) = link_answer now (link_up now hub (filled name l body)) in
    (hub', hears l reply)

-- `inputQueued` and `inputDraining`.
pub record InputDrain {ℓ} (A : Type ℓ) : Type ℓ where
  pub queued : Option A
  pub draining : Bool

-- A packet comes in, or the driver's answer to the one in flight does.
pub data DrainEvent {ℓ} (A : Type ℓ) : Type ℓ where
  comes : A → DrainEvent A
  answered : DrainEvent A

-- The head of the loop of `applyInput`: what is sent to the driver.
drain {ℓ} : {A : Type ℓ} → InputDrain A → InputDrain A × List A
drain s = elim s.queued [
  | none ↦ (record { queued = none; draining = false }, [])
  | some next ↦ (record { queued = none; draining = true }, next ∷ [])
]

unfoldable pub apply_input {ℓ} : {A : Type ℓ} → A → InputDrain A → InputDrain A × List A
unfolding drain
apply_input packet s =
    let s' = record s { queued = some packet } in if s.draining then (s', []) else drain s'

unfoldable pub drain_step {ℓ} : {A : Type ℓ} → InputDrain A → DrainEvent A → InputDrain A × List A
unfolding apply_input drain
drain_step s (comes packet) = apply_input packet s
drain_step s answered = if s.draining then drain s else (s, [])

unfoldable pub drain_run {ℓ} :
    {A : Type ℓ} → InputDrain A → List (DrainEvent A) → InputDrain A × List A
unfolding drain_step
drain_run s [] = (s, [])
drain_run s (e ∷ es) =
    let (s', out) = drain_step s e in let (s'', later) = drain_run s' es in (s'', out ++ later)
