-- ===== src/Engine/Opens/Exposure.antt =====
-- runner.py and repo.py together: the open rows after an open that was not refused.
use xupertrade.Control.{BotControl}
use xupertrade.Engine.Opens.{
  Caps, Refusal, Signal, Wanted, add_notional, ceiling_gate, exposure_gate, first_of,
  multi_coin_gate, multi_flag, not_own, of_others, open_refusal, opposite_gate, rows_of_repo,
}
use xupertrade.Exchange.{PositionSide}
use xupertrade.Float.{Floats, Number, nil, ◌≺◌, ◌⊕◌, ◌⊗◌}
use xupertrade.Prelude.{
  Bool, List, Option, String, [], ap, arith, false, filter, filter_cong, none, refl, some, subst,
  true, ℕ, ◌&&◌, ◌++◌, ◌∙◌, ◌∷◌, ◌≡◌,
}
use xupertrade.Reconcile.Backfill.{Trade}
use xupertrade.Repository.{
  Database, Row, get_open_position, get_open_positions, is_current, is_row_of, new_row, no_row,
  open_position_rows, record_trade_and_open_position,
}
use xupertrade.Repository.SignalPath.{one_or_none-no_row, open_position_rows-open}

module _ ⦃N : Floats⦄ where
  first_of-none : (a b : Option Refusal) → first_of a b ≡ none → (a ≡ none) × (b ≡ none)
  first_of-none none b e = (refl, e)
  first_of-none (some why) b e = cc

  rows_of_repo-some :
      (mode : String) (db : Database) → rows_of_repo mode (some db) ≡ open_position_rows mode db
  unfolding get_open_positions open_position_rows
  rows_of_repo-some mode db =
      filter_cong (λ r. is_current mode r && true) (is_current mode) db.positions
        (λ r. ground arith)

  -- The signal of a trade, and what it wanted.
  abbrev pub signal_of : Option Number → Trade → Signal
  signal_of asked t = record { strategy_name = t.strategy_name; symbol = t.symbol; size = asked }

  -- What each test found, where none of them refused.
  abbrev pub Admitted : Caps → Signal → Wanted → List Row → Type 0
  Admitted caps signal w rows =
      (opposite_gate signal w.side (of_others signal rows) ≡ none)
      × (exposure_gate caps true signal w rows ≡ none)

  pub open_refusal-Admitted :
      (mode : String) (family : String → Option String) (caps : Caps) (control : Option BotControl)
      (flag : Bool) (signal : Signal) (w : Wanted) (db : Database)
      → open_refusal mode family caps control flag signal w (some db) ≡ none
      → Admitted caps signal w (open_position_rows mode db)
  unfolding open_refusal
  open_refusal-Admitted mode family caps control flag signal w db admitted =
      let rows = rows_of_repo mode (some db) in
      let others = of_others signal rows in
      let multi = multi_coin_gate family (multi_flag control flag) signal others in
      let opposed = opposite_gate signal w.side others in
      let exposed = exposure_gate caps true signal w rows in
      let after_multi =
        first_of-none multi (first_of opposed (first_of exposed (ceiling_gate caps signal w)))
          admitted in
      let after_opposed =
        first_of-none opposed (first_of exposed (ceiling_gate caps signal w)) after_multi.1 in
      let after_exposed = first_of-none exposed (ceiling_gate caps signal w) after_opposed.1 in
      subst (Admitted caps signal w) (rows_of_repo-some mode db) (after_opposed.0, after_exposed.0)

  add_notional-snoc :
      (l : List Row) (r : Row) (acc : Number)
      → add_notional (l ++ r ∷ []) acc ≡ add_notional l acc ⊕ (r.size ⊗ r.entry_price)
  add_notional-snoc [] r acc = refl
  add_notional-snoc (x ∷ l) r acc = add_notional-snoc l r (acc ⊕ (x.size ⊗ x.entry_price))

  not_own-filter :
      (mode : String) (signal : Signal) (l : List Row)
      → filter (is_row_of mode signal.strategy_name signal.symbol) l ≡ []
      → not_own signal (filter (is_current mode) l) ≡ filter (is_current mode) l
  not_own-filter mode signal [] none_own = refl
  not_own-filter mode signal (r ∷ l) none_own = ground (arith, not_own-filter mode signal l)

  not_own-open_position_rows :
      (mode : String) (signal : Signal) (db : Database)
      → get_open_position mode signal.strategy_name signal.symbol db ≡ no_row
      → not_own signal (open_position_rows mode db) ≡ open_position_rows mode db
  unfolding get_open_position open_position_rows
  not_own-open_position_rows mode signal db none_own = not_own-filter mode signal db.positions (
      one_or_none-no_row (filter (is_row_of mode signal.strategy_name signal.symbol) db.positions)
        none_own)

  exposure_gate-none :
      (caps : Caps) (signal : Signal) (w : Wanted) (rows : List Row)
      → exposure_gate caps true signal w rows ≡ none
      → nil ≺ caps.max_total_exposure_usd ≡ true
      → caps.max_total_exposure_usd
          ≺ (add_notional (not_own signal rows) nil ⊕ (w.size ⊗ w.current_price))
        ≡ false
  unfolding exposure_gate
  exposure_gate-none caps signal w rows admitted capped = ground arith

  -- After an open that was not refused, and filled at the price it was checked with, the notional
  -- of all open rows is not above the exposure cap, if there is a cap and the strategy had no open
  -- row on the coin.
  pub open_refusal-bounds :
      (mode : String) (family : String → Option String) (caps : Caps) (control : Option BotControl)
      (flag : Bool) (asked : Option Number) (leverage : Option ℕ) (side : PositionSide) (t : Trade)
      (commits : Bool) (now : ℕ) (db after : Database)
      → open_refusal mode family caps control flag
          (signal_of asked t)
          (record { side = side; size = t.size; current_price = t.price; leverage = leverage })
          (some db)
        ≡ none
      → nil ≺ caps.max_total_exposure_usd ≡ true
      → get_open_position mode t.strategy_name t.symbol db ≡ no_row
      → record_trade_and_open_position mode commits now t side db ≡ some after
      → caps.max_total_exposure_usd ≺ add_notional (open_position_rows mode after) nil ≡ false
  open_refusal-bounds mode family caps control flag asked leverage side t commits now db after
        admitted capped none_own written =
      let signal = signal_of asked t in
      let w : Wanted = record {
        side = side;
        size = t.size;
        current_price = t.price;
        leverage = leverage;
      } in
      let rows = open_position_rows mode db in
      let checked = open_refusal-Admitted mode family caps control flag signal w db admitted in
      let bound = exposure_gate-none caps signal w rows checked.1 capped in
      let same = not_own-open_position_rows mode signal db none_own in
      let row = new_row mode now t.strategy_name t.symbol side t.size t.price db.next_id in
      let total : caps.max_total_exposure_usd ≺ add_notional (rows ++ row ∷ []) nil ≡ false =
        rw (add_notional-snoc rows row nil) (
          subst
            (λ l. caps.max_total_exposure_usd ≺ (add_notional l nil ⊕ (t.size ⊗ t.price)) ≡ false)
            same bound) in
      ap (λ l. caps.max_total_exposure_usd ≺ add_notional l nil)
        (open_position_rows-open mode commits now t side db after written)
      ∙ total
