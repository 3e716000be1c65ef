-- ===== src/Market/Tick/Keeping.antt =====
-- What a tick keeps of the ledger.
use eth_global_lisbon_2026_h.Base.{ℕ, Bool, true, false, List, [], ◌∷◌, string_eq}
use eth_global_lisbon_2026_h.Market.Row.{Market}
use eth_global_lisbon_2026_h.Market.Ledger.Order.{IsOrdered}
use eth_global_lisbon_2026_h.Market.Gate.{World}
use eth_global_lisbon_2026_h.Market.Enforce.{enforce_slots}
use eth_global_lisbon_2026_h.Market.Abandon.{abandon_stale_rows}
use eth_global_lisbon_2026_h.Market.Abandon.Stale.{abandon_stale_rows-IsOrdered}
use eth_global_lisbon_2026_h.Market.Settle.{Setup, has_slots}
use eth_global_lisbon_2026_h.Market.Settle.Runs.{Turn, advance_all, advance-IsOrdered}
use eth_global_lisbon_2026_h.Market.Tick.{Heard, turns, advance_rows, slow_tick, tick}
use eth_global_lisbon_2026_h.Market.Enforce.Keeping.{enforce_slots-IsOrdered}
use eth_global_lisbon_2026_h.Market.Dues.Keeping.{release_idle_stakes-IsOrdered}

advance_all-IsOrdered :
    (setup : Setup) (ts : List Turn) (m : Market) → IsOrdered m → IsOrdered (advance_all setup ts m)
unfolding advance_all
advance_all-IsOrdered setup [] m ok = ok
advance_all-IsOrdered setup (t ∷ ts) m ok =
    advance_all-IsOrdered setup ts _ (advance-IsOrdered setup t m ok)

advance_rows-IsOrdered :
    (setup : Setup) (heard : Heard) (now : ℕ) (w : World)
    → IsOrdered w.market
    → IsOrdered (advance_rows setup heard now w)
unfolding advance_rows
advance_rows-IsOrdered setup heard now w ok =
    advance_all-IsOrdered setup (turns heard now w) w.market ok

-- A tick keeps the ledger in order: the end of slots, the sweep of abandoned attempts, one step of
-- every row and the return of idle stakes, whatever the chains answer and whether or not an earlier
-- tick still runs.
pub tick-IsOrdered :
    (setup : Setup) (heard : Heard) (now : ℕ) (busy : Bool) (w : World)
    → IsOrdered w.market
    → IsOrdered (tick setup heard now busy w).0.market
unfolding tick slow_tick
tick-IsOrdered setup heard now true w ok = enforce_slots-IsOrdered now (has_slots setup) w ok
tick-IsOrdered setup heard now false w ok =
    let w1 = enforce_slots now (has_slots setup) w in
    let w2 = abandon_stale_rows now w1 in
    let ok1 = enforce_slots-IsOrdered now (has_slots setup) w ok in
    let ok2 = abandon_stale_rows-IsOrdered now w1 ok1 in
    let ok3 = advance_rows-IsOrdered setup heard now w2 ok2 in
    release_idle_stakes-IsOrdered now heard.transfer (advance_rows setup heard now w2) ok3
