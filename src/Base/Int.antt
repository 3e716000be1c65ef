-- ===== src/Base/Int.antt =====
-- Signed integers over the native numbers, under the library's names (its ℤ stands on another ℕ).
use Prim.Native.Nat.{ℕ, suc, ◌+◌, ◌-◌, ◌≤◌}
use mathlib.Core.Path.{◌≡◌}
use mathlib.Core.Bool.{Bool}
use native.Mathlib.Omega.{arith}
use eth_global_lisbon_2026_h.Base.Tests.{ltb}

-- `negsuc n` is -(n + 1).
pub data ℤ : Type 0 where
  pos : ℕ → ℤ
  negsuc : ℕ → ℤ

abbrev pub pos_part : ℤ → ℕ
pos_part (pos n) = n
pos_part (negsuc n) = 0

abbrev pub neg_part : ℤ → ℕ
neg_part (pos n) = 0
neg_part (negsuc n) = suc n

abbrev pub ltb_ℤ : ℤ → ℤ → Bool
ltb_ℤ a b = ltb (pos_part a + neg_part b) (pos_part b + neg_part a)

-- `Math.abs(a)`
abbrev pub abs : ℤ → ℕ
abs a = pos_part a + neg_part a

-- `Math.abs(a - b)`
unfoldable pub dist : ℤ → ℤ → ℕ
dist a b =
    let up = pos_part a + neg_part b in
    let down = pos_part b + neg_part a in (up - down) + (down - up)

pub dist_comm : (a b : ℤ) → dist a b ≡ dist b a
unfolding dist
dist_comm a b = omega arith

pub dist_triangle : (a b c : ℤ) → dist a c ≤ dist a b + dist b c
unfolding dist
dist_triangle a b c = omega arith
