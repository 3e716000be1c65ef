-- ===== src/Market/Dues/Keeping.antt =====
-- What giving back stakes keeps of the ledger.
use eth_global_lisbon_2026_h.Base.{
  ℕ, String, inl, inr, refl, List, [], ◌∷◌, map, lookup, Bool-cases, Option-cases, string_eq,
}
use eth_global_lisbon_2026_h.Market.Row.{Market}
use eth_global_lisbon_2026_h.Market.Ledger.Order.{IsOrdered}
use eth_global_lisbon_2026_h.Market.Settle.{Answer, set_bond}
use eth_global_lisbon_2026_h.Market.Settle.Forward.{SameRows}
use eth_global_lisbon_2026_h.Market.Settle.Runs.{SameRows-IsOrdered}
use eth_global_lisbon_2026_h.Market.Dues.{is_idle, release_bond, release_keys, release_idle_stakes}

release_bond-SameRows :
    (now : ℕ) (transfer : String → Answer String) (m : Market) (n : String)
    → SameRows m (release_bond now transfer m n)
unfolding release_bond set_bond
release_bond-SameRows now transfer m n = elim (Option-cases (lookup n m.bonds)) [
  | inl gone ↦
      rw (gone, release_bond) (record { same_rows = refl; same_pointers = refl; same_seq = refl })
  | inr (bond, found) ↦ elim (Bool-cases (is_idle now m bond)) [
    | inl idle ↦
        rw (found, release_bond, idle)
          (record { same_rows = refl; same_pointers = refl; same_seq = refl })
    | inr kept ↦
        rw (found, release_bond, kept)
          (record { same_rows = refl; same_pointers = refl; same_seq = refl })
  ]
]

release_keys-IsOrdered :
    (now : ℕ) (transfer : String → Answer String) (ns : List String) (m : Market)
    → IsOrdered m
    → IsOrdered (release_keys now transfer m ns)
unfolding release_keys
release_keys-IsOrdered now transfer [] m ok = ok
release_keys-IsOrdered now transfer (n ∷ ns) m ok =
    release_keys-IsOrdered now transfer ns _
      (SameRows-IsOrdered m _ (release_bond-SameRows now transfer m n) ok)

-- Giving back idle stakes keeps the ledger in order.
pub release_idle_stakes-IsOrdered :
    (now : ℕ) (transfer : String → Answer String) (m : Market)
    → IsOrdered m
    → IsOrdered (release_idle_stakes now transfer m)
unfolding release_idle_stakes
release_idle_stakes-IsOrdered now transfer m ok =
    release_keys-IsOrdered now transfer (map (λ e. e.0) m.bonds) m ok
