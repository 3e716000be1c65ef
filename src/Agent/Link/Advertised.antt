-- ===== src/Agent/Link/Advertised.antt =====
-- The tasks that the hub shows against those of the rig's file.
use eth_global_lisbon_2026_h.Base.{
  ℕ, ◌≡◌, refl, ap, false, none, some, String, Bool-cases, inl, inr, ◌⊎◌, ◌==◌, string_eq,
  option_eq, arith, eq_refl,
}
use eth_global_lisbon_2026_h.Hub.Rig.{Rig, TaskInfo}
use eth_global_lisbon_2026_h.Hub.Registry.{Hub, get_rig, put_rig}
use eth_global_lisbon_2026_h.Hub.Registry.Laws.{
  IsKeyed, get_rig-put_rig, put_rig-IsKeyed, Shown, shown,
}
use eth_global_lisbon_2026_h.Hub.Routes.Link.{LinkBody, link_up, link_down}
use eth_global_lisbon_2026_h.Hub.Routes.Link.Shown.{link_down-shown, link_up-shown, received}
use eth_global_lisbon_2026_h.Agent.Link.{
  Link, Cache, advertised, filled, heard, hears, link_answer, link_tick,
}

link_tick-found :
    (now : ℕ) (name : String) (hub : Hub) (body : LinkBody) (l : Link) (rig : Rig)
    → (link_up now hub (filled name l body)).1 ≡ some rig
    → link_tick now name hub body l ≡ (
      put_rig (link_up now hub (filled name l body)).0 (link_down now rig).0,
      heard (link_down now rig).1 l,
    )
unfolding link_tick link_answer hears
link_tick-found now name hub body l rig found =
    let hub' = (link_up now hub (filled name l body)).0 in
    ap (λ o. let (h, reply) = link_answer now (hub', o) in (h, hears l reply)) found

-- What a tick does to the tasks: the hub shows what it received, and the rig hears of the revision.
link_tick-shown :
    (now : ℕ) (name : String) (hub : Hub) (body : LinkBody) (l : Link)
    → IsKeyed hub
    → (name == "") ≡ false
    → let (hub', l') = link_tick now name hub body l in
      IsKeyed hub'
      × (shown (get_rig hub' name)
          ≡ received (advertised l.tasks) l.tasks.rev (shown (get_rig hub name)))
      × (l'.tasks ≡ record l.tasks { hub_rev = some (shown (get_rig hub' name)).1 })
unfolding filled heard
link_tick-shown now name hub body l keyed named =
    let b = filled name l body in
    let (keyed', (rig, found, at, same)) = link_up-shown now hub name b keyed refl named in
    let (at', same', echo) = link_down-shown now rig in
    let rig' = (link_down now rig).0 in
    let hub' = (link_up now hub b).0 in
    let stands : get_rig (put_rig hub' rig') name ≡ some rig' =
      rw (get_rig-put_rig, at', at, eq_refl name) refl in
    rw (link_tick-found now name hub body l rig found) (
      put_rig-IsKeyed hub' rig' keyed',
      rw (stands, same') same,
      rw (stands, echo, ap (λ x. x.1) same') refl,
    )

advertised-cases :
    (c : Cache TaskInfo)
    → ((advertised c ≡ none) × (c.hub_rev ≡ some c.rev)) ⊎ (advertised c ≡ some c.rows)
unfolding advertised
advertised-cases c = elim (Bool-cases (c.hub_rev == some c.rev)) [
  | inl echoed ↦ inl (rw echoed refl, (option_eq.beq_iff c.hub_rev (some c.rev)).0 echoed)
  | inr differs ↦ inr (rw differs refl)
]

advertised-echoed : (c : Cache TaskInfo) → c.hub_rev ≡ some c.rev → advertised c ≡ none
unfolding advertised
advertised-echoed c e = rw (e, (option_eq.beq_iff (some c.rev) (some c.rev)).1 refl) refl

-- The rows of the file stand at its revision, where anything does.
abbrev pub Agrees : Cache TaskInfo → Shown → Type 0
Agrees c s = s.1 ≡ c.rev → s.0 ≡ c.rows

-- A tick of the tasks alone.
settle_rows : Cache TaskInfo → Shown → Shown
settle_rows c s = received (advertised c) c.rev s

settle_rows-Agrees : (c : Cache TaskInfo) (s : Shown) → Agrees c s → Agrees c (settle_rows c s)
unfolding settle_rows
settle_rows-Agrees c s same = elim (advertised-cases c) [
  | inl (kept, _) ↦ rw kept same
  | inr sent ↦ rw sent (λ e. refl)
]

settle_rows-echoed :
    (c : Cache TaskInfo) (s : Shown)
    → Agrees c s
    → c.hub_rev ≡ some s.1
    → settle_rows c s ≡ (c.rows, c.rev)
unfolding settle_rows
settle_rows-echoed c s same echo = elim (advertised-cases c) [
  | inl (kept, e) ↦
      let rev : s.1 ≡ c.rev = ground (arith, e, echo) in rw kept (λ i. (same rev i, rev i))
  | inr sent ↦ rw sent refl
]

settle_rows-twice :
    (c : Cache TaskInfo) (s : Shown)
    → Agrees c s
    → let s' = settle_rows c s in
      settle_rows (record c { hub_rev = some s'.1 }) s' ≡ (c.rows, c.rev)
settle_rows-twice c s same =
    let s' = settle_rows c s in
    settle_rows-echoed (record c { hub_rev = some s'.1 }) s' (settle_rows-Agrees c s same) refl

-- Whatever the hub holds, be it a new process or the tasks of an older file, and whatever the rig heard
-- of it before: after two ticks whose answers arrive, with the file unchanged, the hub shows exactly
-- the rows of the file at the revision of the file, and the third tick sends no rows. The rig has a
-- name, every rig of the hub stands under its own, and if the hub starts from the revision of the file
-- then it has the rows of the file.
pub link_tick_converges :
    (t u : ℕ) (name : String) (hub : Hub) (body body' : LinkBody) (l : Link)
    → IsKeyed hub
    → (name == "") ≡ false
    → Agrees l.tasks (shown (get_rig hub name))
    → let (h', l') = link_tick t name hub body l in
      let (h'', l'') = link_tick u name h' body' l' in
      (shown (get_rig h'' name) ≡ (l.tasks.rows, l.tasks.rev)) × (advertised l''.tasks ≡ none)
link_tick_converges t u name hub body body' l keyed named same =
    let (h', l') = link_tick t name hub body l in
    let (h'', l'') = link_tick u name h' body' l' in
    let (keyed', first, heard') = link_tick-shown t name hub body l keyed named in
    let (_, second, heard'') = link_tick-shown u name h' body' l' keyed' named in
    let first' : shown (get_rig h' name) ≡ settle_rows l.tasks (shown (get_rig hub name)) =
      unfold settle_rows in first in
    let done : shown (get_rig h'' name) ≡ (l.tasks.rows, l.tasks.rev) =
      rw (second, heard', first')
        (unfold settle_rows in settle_rows-twice l.tasks (shown (get_rig hub name)) same) in
    (done, advertised-echoed l''.tasks (rw (heard'', done, heard') refl))
