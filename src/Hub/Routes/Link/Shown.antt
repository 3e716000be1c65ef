-- ===== src/Hub/Routes/Link/Shown.antt =====
-- Which tasks the hub shows after a link tick of a rig.
use eth_global_lisbon_2026_h.Base.{
  ℕ, ◌≡◌, refl, false, Option, none, some, String, List, ◌==◌, string_eq, arith, Json,
}
use eth_global_lisbon_2026_h.Hub.Rig.{Rig, TaskInfo}
use eth_global_lisbon_2026_h.Hub.Lease.{lease_holder}
use eth_global_lisbon_2026_h.Hub.Queue.{drain_commands}
use eth_global_lisbon_2026_h.Hub.Registry.{Hub, get_rig, upsert_rig}
use eth_global_lisbon_2026_h.Hub.Registry.Laws.{
  IsKeyed, put_rig-IsKeyed, Shown, shown, upsert_rig-shown,
}
use eth_global_lisbon_2026_h.Hub.Routes.Link.{
  LinkBody, link_up, link_down, link_named, telemetry_of, advertise_tasks, advertise_runs,
}

pub link_down-shown :
    (now : ℕ) (rig : Rig)
    → ((link_down now rig).0.name ≡ rig.name)
      × (shown (some (link_down now rig).0) ≡ shown (some rig))
      × ((link_down now rig).1.tasks_rev ≡ rig.tasks_rev)
unfolding link_down lease_holder drain_commands
link_down-shown now rig = ground arith

-- The rows that came with the body, or else those that were there.
abbrev pub received : Option (List TaskInfo) → Option String → Shown → Shown
received none rev before = before
received (some rows) rev before = (rows, rev)

runs-kept :
    (body : LinkBody) (rig : Rig) (o : Option (List Json))
    → body.runs ≡ o
    → ((advertise_runs body rig).name ≡ rig.name)
      × (shown (some (advertise_runs body rig)) ≡ shown (some rig))
unfolding advertise_runs
runs-kept body rig none e = rw e (refl, refl)
runs-kept body rig (some runs) e = rw e (refl, refl)

tasks-received :
    (body : LinkBody) (rig : Rig) (o : Option (List TaskInfo))
    → body.tasks ≡ o
    → ((advertise_tasks body rig).name ≡ rig.name)
      × (shown (some (advertise_tasks body rig)) ≡ received o body.tasks_rev (shown (some rig)))
unfolding advertise_tasks
tasks-received body rig none e = rw e (refl, refl)
tasks-received body rig (some rows) e = rw e (refl, refl)

-- The rig as a tick leaves it before its answer.
pub link_up-shown :
    (now : ℕ) (hub : Hub) (name : String) (body : LinkBody)
    → IsKeyed hub
    → body.name ≡ some name
    → (name == "") ≡ false
    → let (hub', o) = link_up now hub body in
      IsKeyed hub'
      × ((rig : Rig) × (o ≡ some rig)
          × (rig.name ≡ name)
          × (shown (some rig) ≡ received body.tasks body.tasks_rev (shown (get_rig hub name))))
unfolding link_up link_named
link_up-shown now hub name body keyed named filled =
    let (at, same, keyed') = upsert_rig-shown now hub name (telemetry_of body) keyed in
    let rig = (upsert_rig now hub name (telemetry_of body)).1 in
    let (at', same') = tasks-received body rig body.tasks refl in
    let (at'', same'') = runs-kept body (advertise_tasks body rig) body.runs refl in
    rw (named, filled)
      (
        put_rig-IsKeyed (upsert_rig now hub name (telemetry_of body)).0 _ keyed',
        (
          advertise_runs body (advertise_tasks body rig),
          refl,
          rw (at'', at') at,
          rw (same'', same', same),
        ),
      )
