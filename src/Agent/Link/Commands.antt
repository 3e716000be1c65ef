-- ===== src/Agent/Link/Commands.antt =====
-- What a command from the hub makes the rig do: `runCommand` of apps/web/src/rig/link.ts. `isOwnerKey`
-- compares with a key from the environment or a file, and is a parameter.
use eth_global_lisbon_2026_h.Base.{
  ◌≡◌, refl, sym, ap, ◌∙◌, ◌⊎◌, inl, inr, String, Bool, true, false, ◌&&◌, not, Option, none, some,
  or_else, List, [], ◌∷◌, includes, is_some, codes, starts_with, string_eq, ◌==◌, if◌then◌else◌,
  Json, str, Fields, end, Bool-cases, Option-cases, arith, eq_iff,
}
use eth_global_lisbon_2026_h.Hub.Rig.{RigCommand}
use eth_global_lisbon_2026_h.Hub.Verbs.{VerbSpec, verb_spec, IsVerb, verb_spec-IsVerb}
use eth_global_lisbon_2026_h.Hub.Routes.Command.{get_field, put_field}
use eth_global_lisbon_2026_h.Hub.Routes.Command.Verdict.{get-put}

-- What a command comes to: nothing, a failure that the next tick reports, or a call of the rig's own
-- API at a path, with a body.
pub data Commanded : Type 0 where
  unknown_command wrong_owner_key : Commanded
  called : Option String → Fields → Commanded

-- The arguments of the table that the command has.
unfoldable pub with_args : List String → Fields → Fields → Fields
unfolding get_field put_field
with_args [] args body = body
with_args (k ∷ ks) args body =
    with_args ks args (elim (get_field k args) [ none ↦ body | some v ↦ put_field k v body ])

-- The tasks endpoints take the key in the body.
abbrev pub takes_key : VerbSpec → Bool
takes_key spec = spec.owner && starts_with (codes (or_else spec.path "")) (codes "/api/tasks/")

-- A key that is undefined is left out of the JSON.
unfoldable pub put_text : String → Option String → Fields → Fields
unfolding put_field
put_text k none body = body
put_text k (some s) body = put_field k (str s) body

unfoldable pub command_body : VerbSpec → RigCommand → Fields
unfolding with_args put_text starts_with
command_body spec cmd =
    let given = with_args (or_else spec.args []) (or_else cmd.args end) (or_else spec.body end) in
    let keyed = if takes_key spec then put_text "ownerKey" cmd.owner_key given else given in
    if spec.stamps_holder
    then put_text "operator" (some (or_else cmd.holder "unknown")) keyed
    else keyed

unfoldable pub run_command : (String → Bool) → RigCommand → Commanded
unfolding verb_spec command_body
run_command is_owner_key cmd = elim (verb_spec cmd.verb) [
  | none ↦ unknown_command
  | some spec ↦
      if spec.owner && not (is_owner_key (or_else cmd.owner_key ""))
      then wrong_owner_key
      else called spec.path (command_body spec cmd)
]

with_args-field :
    (j : String) (ks : List String) (args body : Fields)
    → get_field j (with_args ks args body)
      ≡ (if includes j ks && is_some (get_field j args) then get_field j args else get_field j body)
unfolding with_args includes
with_args-field j [] args body = refl
with_args-field j (k ∷ ks) args body = elim (Option-cases (get_field k args)) [
  | inl absent ↦
      let rest = with_args-field j ks args body in ground (arith, absent, rest, eq_iff k j)
  | inr (v, given) ↦
      let rest = with_args-field j ks args (put_field k v body) in
      let put = get-put k j v body in ground (arith, given, rest, put, eq_iff k j)
]

put_text-field :
    (k j : String) (o : Option String) (body : Fields)
    → get_field j (put_text k o body)
      ≡ (if is_some o && k == j then some (str (or_else o "")) else get_field j body)
unfolding put_text
put_text-field k j none body = refl
put_text-field k j (some s) body = get-put k j (str s) body

-- The field `j` of the body of a call.
abbrev pub sent_field : VerbSpec → RigCommand → String → Option Json
sent_field spec cmd j =
    let args = or_else cmd.args end in
    if spec.stamps_holder && "operator" == j
    then some (str (or_else cmd.holder "unknown"))
    else if takes_key spec && (is_some cmd.owner_key && "ownerKey" == j)
    then some (str (or_else cmd.owner_key ""))
    else if includes j (or_else spec.args []) && is_some (get_field j args)
    then get_field j args
    else get_field j (or_else spec.body end)

command_body-field :
    (spec : VerbSpec) (cmd : RigCommand) (j : String)
    → get_field j (command_body spec cmd) ≡ sent_field spec cmd j
unfolding command_body
command_body-field spec cmd j =
    let args = or_else cmd.args end in
    let given = with_args (or_else spec.args []) args (or_else spec.body end) in
    let picked = with_args-field j (or_else spec.args []) args (or_else spec.body end) in
    let key = put_text-field "ownerKey" j cmd.owner_key given in
    elim (Bool-cases spec.stamps_holder) [
      | inl stamps ↦ elim (Bool-cases (takes_key spec)) [
        | inl takes ↦ rw (stamps, takes, get-put, key, picked) refl
        | inr not_taken ↦ rw (stamps, not_taken, get-put, picked) refl
      ]
      | inr no_stamp ↦ elim (Bool-cases (takes_key spec)) [
        | inl takes ↦ rw (no_stamp, takes, key, picked) refl
        | inr not_taken ↦ rw (no_stamp, not_taken, picked) refl
      ]
    ]

abbrev path_of : Commanded → Option String
path_of (called path body) = path
path_of _ = none

abbrev body_of : Commanded → Fields
body_of (called path body) = body
body_of _ = end

-- A call of the rig's own API comes only from a verb of the table, or from a name that every JavaScript
-- object inherits, which is taken for a verb without a path, a body or arguments. It goes to the path
-- of that verb, and for a verb of the owner only with the owner's key. Its body has, for every key, exactly this: the
-- operator is the holder that the hub stamped, for a verb that stamps one; the owner's key is there
-- for the tasks endpoints; an argument is taken from the command only if the table names it; and
-- anything else is from the body of the table.
pub run_command_calls :
    (is_owner_key : String → Bool) (cmd : RigCommand) (path : Option String) (body : Fields)
    → run_command is_owner_key cmd ≡ called path body
    → (spec : VerbSpec) × IsVerb cmd.verb spec
      × (path ≡ spec.path)
      × ((spec.owner ≡ false) ⊎ (is_owner_key (or_else cmd.owner_key "") ≡ true))
      × ((j : String) → get_field j body ≡ sent_field spec cmd j)
unfolding run_command
run_command_calls own cmd path body e = elim (Option-cases (verb_spec cmd.verb)) [
  | inl unknown ↦ absurd (ground (arith, unknown, e))
  | inr (spec, found) ↦ elim (Bool-cases (spec.owner && not (own (or_else cmd.owner_key "")))) [
    | inl wrong ↦ absurd (ground (arith, found, wrong, e))
    | inr right ↦
        let same : called path body ≡ called spec.path (command_body spec cmd) =
          sym e ∙ rw (run_command, found, right) refl in
        (
          spec,
          verb_spec-IsVerb cmd.verb spec found,
          ap path_of same,
          ground (arith, right),
          λ j. rw (ap body_of same) (command_body-field spec cmd j),
        )
  ]
]
