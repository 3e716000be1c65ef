-- ===== src/Agent/Link/Inputs.antt =====
-- Which inputs reach the driver, and in which order.
use mathlib.Core.List.Sublist
use mathlib.Core.List.{Sublist, append_assoc, append-nil}
use eth_global_lisbon_2026_h.Base.{
  ℕ, ◌+◌, ◌≤◌, ◌≡◌, refl, Bool, true, false, Option, none, some, List, [], ◌∷◌, ◌++◌, length,
  length-append, arith, ◌⊎◌, inl, inr, ap,
}
use eth_global_lisbon_2026_h.Agent.Link.{
  InputDrain, DrainEvent, comes, answered, apply_input, drain, drain_step, drain_run,
}

abbrev pub idle {ℓ} : {A : Type ℓ} → InputDrain A
idle = record { queued = none; draining = false }

abbrev listed {ℓ} : {A : Type ℓ} → Option A → List A
listed none = []
listed (some p) = p ∷ []

abbrev brought {ℓ} : {A : Type ℓ} → DrainEvent A → List A
brought (comes p) = p ∷ []
brought answered = []

-- The packets that came.
abbrev pub came {ℓ} : {A : Type ℓ} → List (DrainEvent A) → List A
came [] = []
came (e ∷ es) = brought e ++ came es

abbrev is_answer {ℓ} : {A : Type ℓ} → DrainEvent A → ℕ
is_answer (comes p) = 0
is_answer answered = 1

-- The answers of the driver.
abbrev pub answers {ℓ} : {A : Type ℓ} → List (DrainEvent A) → ℕ
answers [] = 0
answers (e ∷ es) = is_answer e + answers es

-- The last of `xs`, or what came before them.
abbrev pub last_from {ℓ} : {A : Type ℓ} → Option A → List A → Option A
last_from o [] = o
last_from o (x ∷ xs) = last_from (some x) xs

abbrev in_flight : Bool → ℕ
in_flight true = 1
in_flight false = 0

module _ {ℓ} {A : Type ℓ} where
  last_from-append :
      (o : Option A) (xs ys : List A) → last_from o (xs ++ ys) ≡ last_from (last_from o xs) ys
  last_from-append o [] ys = refl
  last_from-append o (x ∷ xs) ys = last_from-append (some x) xs ys

  step-Sublist :
      (q : Option A) (d : Bool) (e : DrainEvent A)
      → let (s', out) = drain_step (record { queued = q; draining = d }) e in
        Sublist (out ++ listed s'.queued) (listed q ++ brought e)
  unfolding drain_step apply_input drain
  step-Sublist none true (comes p) = Sublist.refl _
  step-Sublist none false (comes p) = Sublist.refl _
  step-Sublist (some q) true (comes p) = Sublist.cons q (Sublist.refl _)
  step-Sublist (some q) false (comes p) = Sublist.cons q (Sublist.refl _)
  step-Sublist none true answered = Sublist.refl _
  step-Sublist none false answered = Sublist.refl _
  step-Sublist (some q) true answered = Sublist.refl _
  step-Sublist (some q) false answered = Sublist.refl _

  step-last :
      (o q : Option A) (d : Bool) (e : DrainEvent A)
      → let (s', out) = drain_step (record { queued = q; draining = d }) e in
        last_from o (out ++ listed s'.queued) ≡ last_from o (listed q ++ brought e)
  unfolding drain_step apply_input drain
  step-last o none true (comes p) = refl
  step-last o none false (comes p) = refl
  step-last o (some q) true (comes p) = refl
  step-last o (some q) false (comes p) = refl
  step-last o none true answered = refl
  step-last o none false answered = refl
  step-last o (some q) true answered = refl
  step-last o (some q) false answered = refl

  step-counts :
      (q : Option A) (d : Bool) (e : DrainEvent A)
      → let (s', out) = drain_step (record { queued = q; draining = d }) e in
        length out + in_flight d ≤ is_answer e + in_flight s'.draining
  unfolding drain_step apply_input drain
  step-counts none true (comes p) = omega arith
  step-counts none false (comes p) = omega arith
  step-counts (some q) true (comes p) = omega arith
  step-counts (some q) false (comes p) = omega arith
  step-counts none true answered = omega arith
  step-counts none false answered = omega arith
  step-counts (some q) true answered = omega arith
  step-counts (some q) false answered = omega arith

  run-Sublist :
      (s : InputDrain A) (es : List (DrainEvent A))
      → let (s', out) = drain_run s es in
        Sublist (out ++ listed s'.queued) (listed s.queued ++ came es)
  unfolding drain_run
  run-Sublist s [] = rw append-nil (Sublist.refl (listed s.queued))
  run-Sublist s (e ∷ es) =
      let (s', out) = drain_step s e in
      let (s'', later) = drain_run s' es in
      rw append_assoc (
        Sublist.trans (Sublist.append (Sublist.refl out) (run-Sublist s' es)) (
          rw (← append_assoc out (listed s'.queued) (came es), ← append_assoc (listed s.queued))
            (Sublist.append (step-Sublist s.queued s.draining e) (Sublist.refl (came es)))))

  run-last :
      (o : Option A) (s : InputDrain A) (es : List (DrainEvent A))
      → let (s', out) = drain_run s es in
        last_from o (out ++ listed s'.queued) ≡ last_from o (listed s.queued ++ came es)
  unfolding drain_run
  run-last o s [] = rw append-nil
  run-last o s (e ∷ es) =
      let (s', out) = drain_step s e in
      let (s'', later) = drain_run s' es in
      let rest = run-last (last_from o out) s' es in
      let step = step-last o s.queued s.draining e in
      rw (
        append_assoc,
        last_from-append o out,
        rest,
        ← last_from-append o out,
        ← append_assoc out,
        last_from-append o (out ++ listed s'.queued),
        step,
        ← last_from-append,
        append_assoc,
      )

  run-counts :
      (s : InputDrain A) (es : List (DrainEvent A))
      → let (s', out) = drain_run s es in
        length out + in_flight s.draining ≤ answers es + in_flight s'.draining
  unfolding drain_run
  run-counts s [] = omega arith
  run-counts s (e ∷ es) =
      let (s', out) = drain_step s e in
      let (s'', later) = drain_run s' es in
      let step = step-counts s.queued s.draining e in
      let rest = run-counts s' es in
      let both = length-append out later in omega (arith, step, rest, both)

  -- A loop that has ended left nothing behind.
  abbrev Rests : InputDrain A → Type ℓ
  Rests s = (s.draining ≡ true) ⊎ (s ≡ idle)

  step-Rests :
      (q : Option A) (d : Bool) (e : DrainEvent A)
      → Rests (record { queued = q; draining = d })
      → Rests (drain_step (record { queued = q; draining = d }) e).0
  unfolding drain_step apply_input drain
  step-Rests q true (comes p) h = inl refl
  step-Rests q false (comes p) h = inl refl
  step-Rests none true answered h = inr refl
  step-Rests (some q) true answered h = inl refl
  step-Rests q false answered h = h

  run-Rests : (s : InputDrain A) (es : List (DrainEvent A)) → Rests s → Rests (drain_run s es).0
  unfolding drain_run
  run-Rests s [] h = h
  run-Rests s (e ∷ es) h = run-Rests (drain_step s e).0 es (step-Rests s.queued s.draining e h)

  settled :
      (q : Option A) (d : Bool)
      → Rests (record { queued = q; draining = d })
      → drain_run (record { queued = q; draining = d }) (answered ∷ answered ∷ [])
        ≡ (idle, listed q)
  unfolding drain_run drain_step drain
  settled none true h = refl
  settled (some q) true h = refl
  settled none false h = refl
  settled (some q) false (inl d) = ground (arith, d)
  settled (some q) false (inr i) = ground (arith, ap (λ s. s.queued) i)

at_most_one : (d : Bool) → in_flight d ≤ 1
at_most_one true = omega arith
at_most_one false = omega arith

-- What reaches the driver: from an idle link, over any packets and answers, there are never more than
-- one request more than answers; once two further answers have come the link is idle again, and then
-- what was sent is a sublist of the packets in the order in which they came, and ends with the last.
pub apply_input_settles {ℓ} :
    {A : Type ℓ} (es : List (DrainEvent A))
    → let (s, out) = drain_run idle es in
      let (s', out') = drain_run s (answered ∷ answered ∷ []) in
      (length out ≤ answers es + 1)
      × (s' ≡ idle)
      × Sublist (out ++ out') (came es)
      × (last_from none (out ++ out') ≡ last_from none (came es))
apply_input_settles es =
    let (s, out) = drain_run idle es in
    let one = at_most_one s.draining in
    let counted = run-counts idle es in
    let end = settled s.queued s.draining (run-Rests idle es (inr refl)) in
    rw end (omega (arith, one, counted), refl, run-Sublist idle es, run-last none idle es)
