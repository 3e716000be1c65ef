-- ===== src/Hub/Routes/Link/Mailbox.antt =====
-- The mailbox of a rig over sequences of inputs and link ticks.
use eth_global_lisbon_2026_h.Base.{
  ℕ, ◌+◌, ◌<◌, ◌≤◌, Bool, true, false, Option, none, some, List, [], ◌∷◌, ◌++◌, length,
  length-append, All, All-append, is_some, if◌then◌else◌, Bool-cases, arith, ◌≡◌, refl, ltb, inl,
  inr,
}
use eth_global_lisbon_2026_h.Hub.Rig.{Rig, RigInput, Readings}
use eth_global_lisbon_2026_h.Hub.Registry.{Leader}
use eth_global_lisbon_2026_h.Hub.Lease.{lease_holder}
use eth_global_lisbon_2026_h.Hub.Leaders.{note_leader_input}
use eth_global_lisbon_2026_h.Hub.Ws.{Sockets, message_deliver}
use eth_global_lisbon_2026_h.Hub.Routes.Reply.{RigBody}
use eth_global_lisbon_2026_h.Hub.Routes.Input.{input_deliver, note_device}
use eth_global_lisbon_2026_h.Hub.Routes.Link.{link_down, fresh_input, input_ttl_ms}

-- The calls on the mailbox: an input that was let through, over HTTP and over a leader's socket, with
-- what `shouldDrop()` gave, and the rig's link tick.
pub data MailCall : Type 0 where
  brings : Option Leader → RigBody → Bool → MailCall
  messages : Sockets → Leader → Readings → Option ℕ → Bool → MailCall
  ticks : MailCall

-- What the mailbox hands to the rig at a call, with the time. What goes over the rig's socket at once
-- does not come out of the mailbox.
unfoldable pub mail_step : Rig → ℕ × MailCall → Rig × List (ℕ × RigInput)
unfolding input_deliver link_down message_deliver
mail_step rig (now, brings device body dropped) = (input_deliver now device body dropped rig, [])
mail_step rig (now, messages sockets leader joints sent_at dropped) =
    ((message_deliver now sockets leader joints sent_at dropped rig).0, [])
mail_step rig (now, ticks) =
    let (rig', reply) = link_down now rig in
    (rig', elim reply.input [ none ↦ [] | some i ↦ (now, i) ∷ [] ])

unfoldable pub mail_run : Rig → List (ℕ × MailCall) → Rig × List (ℕ × RigInput)
mail_run rig [] = (rig, [])
mail_run rig (c ∷ cs) =
    let (rig', out) = mail_step rig c in
    let (rig'', later) = mail_run rig' cs in (rig'', out ++ later)

-- The writes of the mailbox: the inputs that were not dropped.
abbrev pub carried : List (ℕ × MailCall) → ℕ
carried [] = 0
carried ((now, brings device body true) ∷ cs) = carried cs
carried ((now, brings device body false) ∷ cs) = 1 + carried cs
carried ((now, messages sockets leader joints sent_at true) ∷ cs) = carried cs
carried ((now, messages sockets leader joints sent_at false) ∷ cs) = 1 + carried cs
carried ((now, ticks) ∷ cs) = carried cs

abbrev pub held : Rig → ℕ
held rig = if is_some rig.input then 1 else 0

abbrev IsFresh : ℕ × RigInput → Type 0
IsFresh (t, i) = t < i.at + input_ttl_ms

note_device-input :
    (now : ℕ) (device : Option Leader) (body : RigBody) (dropped : Bool) (rig : Rig)
    → (note_device now device body dropped rig).input ≡ rig.input
unfolding note_device
note_device-input now none body dropped rig = refl
note_device-input now (some l) body dropped rig = ground arith

link_down-input : (now : ℕ) (rig : Rig) → (link_down now rig).0.input ≡ none
unfolding link_down lease_holder
link_down-input now rig = ground arith

link_down-served : (now : ℕ) (rig : Rig) → (link_down now rig).1.input ≡ fresh_input now rig.input
unfolding link_down
link_down-served now rig = refl

fresh_input-IsFresh :
    (now : ℕ) (o : Option RigInput)
    → All IsFresh (elim (fresh_input now o) [ none ↦ [] | some i ↦ (now, i) ∷ [] ])
unfolding fresh_input
fresh_input-IsFresh now none = tt
fresh_input-IsFresh now (some i) = elim (Bool-cases (ltb now (i.at + input_ttl_ms))) [
  | inl early ↦ rw early (ground (arith, early), tt)
  | inr late ↦ rw late tt
]

served_count :
    (now : ℕ) (o : Option RigInput)
    → length (elim (fresh_input now o) as (λ x. List (ℕ × RigInput)) [
      | none ↦ []
      | some i ↦ (now, i) ∷ []
    ])
      ≤ (if is_some o then 1 else 0)
unfolding fresh_input
served_count now none = omega arith
served_count now (some i) = ground arith

step-IsFresh : (rig : Rig) (c : ℕ × MailCall) → All IsFresh (mail_step rig c).1
unfolding mail_step
step-IsFresh rig (now, brings device body dropped) = tt
step-IsFresh rig (now, messages sockets leader joints sent_at dropped) = tt
step-IsFresh rig (now, ticks) = fresh_input-IsFresh now rig.input

step-counts :
    (rig : Rig) (c : ℕ × MailCall)
    → length (mail_step rig c).1 + held (mail_step rig c).0 ≤ carried (c ∷ []) + held rig
unfolding mail_step
step-counts rig (now, brings device body true) =
    unfold input_deliver in ground (arith, note_device-input now device body true rig)
step-counts rig (now, brings device body false) = unfold input_deliver in ground (arith)
step-counts rig (now, messages sockets leader joints sent_at true) =
    unfold message_deliver note_leader_input in omega arith
step-counts rig (now, messages sockets leader joints sent_at false) =
    unfold message_deliver in omega arith
step-counts rig (now, ticks) = ground (arith, served_count now rig.input, link_down-input now rig)

carried_cons :
    (c : ℕ × MailCall) (cs : List (ℕ × MailCall)) → carried (c ∷ cs) ≡ carried (c ∷ []) + carried cs
carried_cons (now, brings device body true) cs = omega arith
carried_cons (now, brings device body false) cs = omega arith
carried_cons (now, messages sockets leader joints sent_at true) cs = omega arith
carried_cons (now, messages sockets leader joints sent_at false) cs = omega arith
carried_cons (now, ticks) cs = omega arith

-- Every input that a link tick hands to the rig came to the mailbox less than 500 ms before.
pub mail_run-IsFresh :
    (rig : Rig) (cs : List (ℕ × MailCall))
    → All (λ e. e.0 < e.1.at + input_ttl_ms) (mail_run rig cs).1
unfolding mail_run
mail_run-IsFresh rig [] = tt
mail_run-IsFresh rig (c ∷ cs) =
    All-append IsFresh (mail_step rig c).1 (mail_run (mail_step rig c).0 cs).1 (step-IsFresh rig c)
      (mail_run-IsFresh (mail_step rig c).0 cs)

-- The mailbox is drained, not repeated: over any inputs by HTTP and by socket and any link ticks, the
-- inputs that the ticks hand over and the one that is left in the mailbox are no more than those that
-- were written to it, with the one that was there before. A packet that was pushed over the rig's
-- socket is one such write.
pub mail_run-once :
    (rig : Rig) (cs : List (ℕ × MailCall))
    → length (mail_run rig cs).1 + held (mail_run rig cs).0 ≤ carried cs + held rig
unfolding mail_run
mail_run-once rig [] = omega arith
mail_run-once rig (c ∷ cs) =
    let step = step-counts rig c in
    let rest = mail_run-once (mail_step rig c).0 cs in
    let both = length-append (mail_step rig c).1 (mail_run (mail_step rig c).0 cs).1 in
    let sum = carried_cons c cs in omega (arith, step, rest, both, sum)
