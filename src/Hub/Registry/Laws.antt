-- ===== src/Hub/Registry/Laws.antt =====
-- What the registry keeps.
use eth_global_lisbon_2026_h.Base.{
  ℕ, String, ◌≡◌, refl, Option, none, some, arith, lookup-insert, string_eq, ◌==◌, if◌then◌else◌,
  All, lookup-All, insert-All, List, [],
}
use eth_global_lisbon_2026_h.Hub.Rig.{Rig, Telemetry, TaskInfo}
use eth_global_lisbon_2026_h.Hub.Registry.{Hub, get_rig, put_rig, registered, upsert_rig}

-- Every rig stands under its own name.
abbrev pub IsKeyed : Hub → Type 0
IsKeyed hub = All (λ e. e.1.name ≡ e.0) hub.rigs

pub get_rig-name :
    (hub : Hub) (name : String) (rig : Rig)
    → IsKeyed hub
    → get_rig hub name ≡ some rig
    → rig.name ≡ name
unfolding get_rig
get_rig-name hub name rig h e = lookup-All (λ n r. r.name ≡ n) name rig hub.rigs h e

pub get_rig-put_rig :
    (hub : Hub) (rig : Rig) (name : String)
    → get_rig (put_rig hub rig) name ≡ (if rig.name == name then some rig else get_rig hub name)
unfolding get_rig put_rig
get_rig-put_rig hub rig name = lookup-insert rig.name name rig hub.rigs

pub put_rig-IsKeyed : (hub : Hub) (rig : Rig) → IsKeyed hub → IsKeyed (put_rig hub rig)
unfolding put_rig
put_rig-IsKeyed hub rig h = insert-All (λ n r. r.name ≡ n) rig.name rig hub.rigs refl h

-- What a telemetry tick must not touch.
pub record KeepsControl (old new : Rig) : Type 0 where
  pub lease : new.lease ≡ old.lease
  pub ceiling : new.lease_hard_expiry ≡ old.lease_hard_expiry
  pub pending : new.pending ≡ old.pending
  pub input : new.input ≡ old.input
  pub input_odo : new.input_odo ≡ old.input_odo
  pub tasks : new.tasks ≡ old.tasks
  pub tasks_rev : new.tasks_rev ≡ old.tasks_rev
  pub frame_waiters : new.frame_waiters ≡ old.frame_waiters

registered-name :
    (now : ℕ) (hub : Hub) (name : String) (patch : Telemetry) (o : Option Rig)
    → IsKeyed hub
    → get_rig hub name ≡ o
    → (registered now name patch o).name ≡ name
unfolding registered
registered-name now hub name patch none h e = refl
registered-name now hub name patch (some r) h e = get_rig-name hub name r h e

-- A tick of telemetry keeps the registry in order, registers the rig under its own name, and leaves
-- every other rig as it was.
pub upsert_rig-IsKeyed :
    (now : ℕ) (hub : Hub) (name other : String) (patch : Telemetry)
    → IsKeyed hub
    → IsKeyed (upsert_rig now hub name patch).0
      × (get_rig (upsert_rig now hub name patch).0 other
          ≡ (if name == other then some (upsert_rig now hub name patch).1 else get_rig hub other))
unfolding upsert_rig
upsert_rig-IsKeyed now hub name other patch keyed =
    let rig = registered now name patch (get_rig hub name) in
    let named = registered-name now hub name patch (get_rig hub name) keyed refl in
    (put_rig-IsKeyed hub rig keyed, rw (get_rig-put_rig, named))

-- Of a rig that is known, a tick of telemetry keeps the lease and its ceiling, the command queue, the
-- mailbox, the odometer, the tasks and the waiting callers.
pub upsert_rig-KeepsControl :
    (now : ℕ) (hub : Hub) (name : String) (patch : Telemetry) (old : Rig)
    → get_rig hub name ≡ some old
    → KeepsControl old (upsert_rig now hub name patch).1
unfolding upsert_rig registered
upsert_rig-KeepsControl now hub name patch old e = rw (e, registered) (ground arith)

-- What the hub shows of a rig, and at which revision: nothing for a rig that it does not know.
abbrev pub Shown : Type 0
Shown = List TaskInfo × Option String

abbrev pub shown : Option Rig → Shown
shown none = ([], none)
shown (some rig) = (rig.tasks, rig.tasks_rev)

registered-shown :
    (now : ℕ) (name : String) (patch : Telemetry) (o : Option Rig)
    → shown (some (registered now name patch o)) ≡ shown o
unfolding registered
registered-shown now name patch none = refl
registered-shown now name patch (some r) = refl

-- A telemetry tick shows what was shown before it, under the name that it gave.
pub upsert_rig-shown :
    (now : ℕ) (hub : Hub) (name : String) (patch : Telemetry)
    → IsKeyed hub
    → ((upsert_rig now hub name patch).1.name ≡ name)
      × (shown (some (upsert_rig now hub name patch).1) ≡ shown (get_rig hub name))
      × IsKeyed (upsert_rig now hub name patch).0
unfolding upsert_rig
upsert_rig-shown now hub name patch keyed = (
  registered-name now hub name patch (get_rig hub name) keyed refl,
  registered-shown now name patch (get_rig hub name),
  put_rig-IsKeyed hub (registered now name patch (get_rig hub name)) keyed,
)
