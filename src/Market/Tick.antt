-- ===== src/Market/Tick.antt =====
-- The worker's tick: `tick` and `slowTick` of apps/web/src/market/worker.ts. The clock of the slots is
-- enforced first and always; the rest only if the tick before has ended.
pub mod Keeping
use eth_global_lisbon_2026_h.Base.{
  ℕ, String, Bool, true, false, Option, List, [], ◌∷◌, ◌++◌, map, if◌then◌else◌,
}
use eth_global_lisbon_2026_h.Hub.Registry.{Hub, list_rigs}
use eth_global_lisbon_2026_h.Market.Row.{LedgerRow, RowId, Market}
use eth_global_lisbon_2026_h.Market.Ledger.{list_rows}
use eth_global_lisbon_2026_h.Market.Gate.{World}
use eth_global_lisbon_2026_h.Market.Enforce.{enforce_slots}
use eth_global_lisbon_2026_h.Market.Abandon.{abandon_stale_rows}
use eth_global_lisbon_2026_h.Market.Settle.{Setup, has_slots, Answer, Answers}
use eth_global_lisbon_2026_h.Market.Settle.Runs.{Turn, advance_all}
use eth_global_lisbon_2026_h.Market.Dues.{
  Chains, ChainCall, release_idle_stakes, settle_due_slots, skip_no_shows,
}

-- What a slow tick hears: for each row, for each transfer of a stake, and from the chains before the
-- skips and after.
pub record Heard : Type 0 where
  pub rows : RowId → Answers
  pub transfer : String → Answer String
  pub settling : Chains
  pub skipping : Chains

turn_of : Heard → ℕ → Hub → LedgerRow → Turn
turn_of heard now hub row = record {
  answers = heard.rows row.id;
  now = now;
  hub = hub;
  id = row.id;
}

-- `for (const row of listRows())`
unfoldable pub turns : Heard → ℕ → World → List Turn
unfolding turn_of list_rows
turns heard now w = map (turn_of heard now w.hub) (list_rows w.market)

unfoldable pub advance_rows : Setup → Heard → ℕ → World → Market
unfolding turns advance_all
advance_rows setup heard now w = advance_all setup (turns heard now w) w.market

unfoldable pub slow_tick : Setup → Heard → ℕ → World → World × List ChainCall
unfolding advance_rows abandon_stale_rows release_idle_stakes settle_due_slots skip_no_shows
    list_rigs
slow_tick setup heard now w =
    let abandoned = abandon_stale_rows now w in
    let advanced = advance_rows setup heard now abandoned in
    let released = release_idle_stakes now heard.transfer advanced in
    let rigs = list_rigs abandoned.hub in
    let due = settle_due_slots setup now heard.settling released rigs abandoned.mirror in
    let skips = skip_no_shows setup now heard.skipping rigs due.mirror in
    (record abandoned { market = released; mirror = skips.mirror }, due.calls ++ skips.calls)

-- `busy` is true while the slow part of an earlier tick still runs.
unfoldable pub tick : Setup → Heard → ℕ → Bool → World → World × List ChainCall
unfolding slow_tick enforce_slots
tick setup heard now busy w =
    let w' = enforce_slots now (has_slots setup) w in
    if busy then (w', []) else slow_tick setup heard now w'
