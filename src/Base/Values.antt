-- ===== src/Base/Values.antt =====
-- JSON values as the hub relays them. Numbers are whole: no number that the hub reads has a
-- fraction.
use Prim.Native.Nat.{ℕ, zero, suc, ◌+◌, ◌/◌}
use Prim.Native.String.{String}
use mathlib.Core.Bool.{Bool, true, false, ◌||◌}
use mathlib.Core.List.{List, [], ◌∷◌}
use eth_global_lisbon_2026_h.Base.Tests.{ltb, if◌then◌else◌, ◌==◌, nat_eq}
use eth_global_lisbon_2026_h.Base.Int.{ℤ, pos, negsuc}
use eth_global_lisbon_2026_h.Base.Text.{codes}

mutual
  pub data Json : Type 0 where
    null : Json
    bool : Bool → Json
    num : ℤ → Json
    str : String → Json
    arr : Elems → Json
    obj : Fields → Json

  pub data Elems : Type 0 where
    nil : Elems
    cons : Json → Elems → Elems

  pub data Fields : Type 0 where
    end : Fields
    field : String → Json → Fields → Fields

-- The decimal digits of n, by rounds of division; n + 1 rounds are always enough.
digits_from : ℕ → ℕ → ℕ
digits_from zero n = 1
digits_from (suc f) n = let rest = digits_from f (n / 10) in if ltb n 10 then 1 else suc rest

number_length : ℤ → ℕ
unfolding digits_from
number_length (pos n) = digits_from (suc n) n
number_length (negsuc n) = 1 + digits_from (suc (suc n)) (suc n)

-- What `JSON.stringify` writes for one code point, in UTF-16 units.
char_length : ℕ → ℕ
char_length c =
    if c == b'"' || c == 92
    then 2
    else if c == 8 || c == 9 || c == 10 || c == 12 || c == 13
    then 2
    else if ltb c 32
    then 6
    else if ltb c 65536
    then 1
    else 2

chars_length : List ℕ → ℕ
unfolding char_length
chars_length [] = 0
chars_length (c ∷ cs) = char_length c + chars_length cs

-- The quotes and what stands between them.
string_length : String → ℕ
unfolding chars_length
string_length s = 2 + chars_length (codes s)

-- `JSON.stringify(v).length`
unfoldable mutual
  unfolding string_length number_length

  pub json_length : Json → ℕ
  json_length null = 4
  json_length (bool true) = 4
  json_length (bool false) = 5
  json_length (num n) = number_length n
  json_length (str s) = string_length s
  json_length (arr vs) = 2 + elems_length vs
  json_length (obj fs) = 2 + fields_length fs

  pub elems_length : Elems → ℕ
  elems_length nil = 0
  elems_length (cons v nil) = json_length v
  elems_length (cons v vs) = json_length v + 1 + elems_length vs

  pub fields_length : Fields → ℕ
  fields_length end = 0
  fields_length (field k v end) = string_length k + 1 + json_length v
  fields_length (field k v fs) = string_length k + 1 + json_length v + 1 + fields_length fs
