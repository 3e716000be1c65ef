-- ===== src/Base/Assoc.antt =====
-- The `Map` of the source as a list of entries in the order of insertion, and the `Set` as a list.
use mathlib.Core.Path.{◌≡◌, refl}
use mathlib.Core.Logic.{inl, inr}
use mathlib.Core.Bool.{Bool, true, false, ◌||◌}
use mathlib.Core.List.{List, [], ◌∷◌}
use mathlib.Core.Option.{Option, none, some}
use native.Mathlib.Omega.{arith}
use eth_global_lisbon_2026_h.Base.Tests.{if◌then◌else◌, Eq, ◌==◌, Bool-cases}
use eth_global_lisbon_2026_h.Base.Lists.{All}

module _ {ℓ κ} {K : Type ℓ} {V : Type κ} ⦃e : Eq K⦄ where
  -- `m.get(k)`
  unfoldable pub lookup : K → List (K × V) → Option V
  lookup k [] = none
  lookup k ((j, v) ∷ m) = if j == k then some v else lookup k m

  -- `m.set(k, v)`: in place where the key is there, at the end otherwise.
  unfoldable pub insert : K → V → List (K × V) → List (K × V)
  insert k v [] = (k, v) ∷ []
  insert k v ((j, w) ∷ m) = if j == k then (j, v) ∷ m else (j, w) ∷ insert k v m

  -- `m.delete(k)`
  unfoldable pub erase : K → List (K × V) → List (K × V)
  erase k [] = []
  erase k ((j, w) ∷ m) = let rest = erase k m in if j == k then rest else (j, w) ∷ rest

  pub lookup-insert :
      (key other : K) (value : V) (m : List (K × V))
      → lookup other (insert key value m) ≡ (if key == other then some value else lookup other m)
  unfolding lookup insert
  lookup-insert key other value [] = refl
  lookup-insert key other value ((i, w) ∷ m) = ground (
    arith,
    e.beq_iff i key,
    e.beq_iff i other,
    e.beq_iff key other,
    lookup-insert key other value m,
  )

  -- Setting a key to the value that it has changes nothing.
  pub insert_same :
      (key : K) (value : V) (m : List (K × V)) → lookup key m ≡ some value → insert key value m ≡ m
  unfolding lookup insert
  insert_same key value [] h = cc
  insert_same key value ((i, w) ∷ m) h = ground (arith, e.beq_iff i key, insert_same key value m)

  -- What holds of every entry holds of the one that is found, and of a map with one more such entry.
  pub lookup-All {μ} :
      (P : K → V → Type μ) (k : K) (v : V) (m : List (K × V))
      → All (λ e. P e.0 e.1) m
      → lookup k m ≡ some v
      → P k v
  unfolding lookup
  lookup-All P k v [] h f = cc
  lookup-All P k v ((j, w) ∷ m) (here, rest) f = elim (Bool-cases (j == k)) [
    | inl same ↦
        let found : some w ≡ some v = rw same at f in
        let value : w ≡ v = cc in rw (← (e.beq_iff j k).0 same, ← value) here
    | inr other ↦ lookup-All P k v m rest (rw other at f)
  ]

  pub insert-All {μ} :
      (P : K → V → Type μ) (k : K) (v : V) (m : List (K × V))
      → P k v
      → All (λ e. P e.0 e.1) m
      → All (λ e. P e.0 e.1) (insert k v m)
  unfolding insert
  insert-All P k v [] p h = (p, tt)
  insert-All P k v ((j, w) ∷ m) p (here, rest) = elim (Bool-cases (j == k)) [
    | inl same ↦ rw (same, (e.beq_iff j k).0 same) (p, rest)
    | inr other ↦ rw other (here, insert-All P k v m p rest)
  ]

  pub lookup-erase :
      (k j : K) (m : List (K × V)) → lookup j (erase k m) ≡ (if k == j then none else lookup j m)
  unfolding lookup erase
  lookup-erase k j [] = ground arith
  lookup-erase k j ((i, w) ∷ m) =
      ground (arith, e.beq_iff k j, e.beq_iff i k, e.beq_iff i j, lookup-erase k j m)

module _ {ℓ} {A : Type ℓ} ⦃e : Eq A⦄ where
  pub beq_self : (a : A) → (a == a) ≡ true
  beq_self a = (e.beq_iff a a).1 refl

  -- `s.has(a)`, `xs.includes(a)`
  unfoldable pub includes : A → List A → Bool
  includes a [] = false
  includes a (x ∷ xs) = x == a || includes a xs
