-- ===== src/Engine/FlatAll.antt =====
-- runner.py: `_flat_all_positions`, `_pause_after_flat_all` and the part of `tick` that honours a
-- request. The answers of the exchange are arguments, none where it raises. The resets of the
-- strategies are the names they are called with.
pub mod Shared
pub mod Honoured
use xupertrade.Control.{
  BotControl, acknowledge_flat_request, get_pending_flat_request, set_paused, state_of,
}
use xupertrade.Exchange.{Order, Position, Side, buy, is_long, sell}
use xupertrade.Float.{Floats, Number, nil, ◌⊗◌}
use xupertrade.Portfolio.{Env, Portfolio, record_pnl}
use xupertrade.Prelude.{
  Bool, List, Option, String, [], eqb, false, if◌then◌else◌, none, some, true, ℕ, ◌++◌, ◌+◌, ◌∷◌,
}
use xupertrade.Reconcile.{realized_pnl}
use xupertrade.Reconcile.Backfill.{Trade}
use xupertrade.Repository.{
  Database, Row, get_open_positions_for_symbol, record_trade, record_trade_and_close_position,
}
use xupertrade.Repository.Reconciler.Orphans.{is_filled}

pub record FlatAllStatus : Type 0 where
  pub ok : Bool
  pub closed : ℕ
  pub failed : ℕ

module _ ⦃N : Floats⦄ where
  -- What a flat-all meets: the exchange, whether the database commits, the rate and the clock, and
  -- what the portfolio manager meets.
  pub record Scene : Type 0 where
    pub mode : String
    pub has_repo : Bool
    pub positions_read : Option (List Position)
    pub order_answer : String → Side → Number → Option Order
    pub db_commits : Bool
    pub fee_rate : Number
    pub clock : ℕ
    pub pnl_env : Env

  -- The loop's state.
  pub record Flat : Type 0 where
    pub db : Database
    pub portfolio : Portfolio
    pub resets : List String
    pub sent : List (String × Side × Number)
    pub closed_count : ℕ
    pub failed_count : ℕ

  -- order.filled_price or 0
  abbrev pub price_of : Option Number → Number
  price_of none = nil
  price_of (some x) = x

  abbrev text_of : Side → String
  text_of buy = "buy"
  text_of sell = "sell"

  abbrev fee_at : Scene → Order → Number → Number
  fee_at sc order size = price_of order.filled_price ⊗ size ⊗ sc.fee_rate

  -- The trade of one row of the coin.
  abbrev pub row_trade : Scene → Position → Order → Row → Trade
  row_trade sc p order r = record {
    order_id = order.id;
    strategy_name = r.strategy_name;
    symbol = p.symbol;
    side = text_of order.side;
    size = r.size;
    price = price_of order.filled_price;
    fee = fee_at sc order r.size;
    pnl = none;
    reason = "Flat-all from dashboard";
    timestamp = sc.clock;
  }

  abbrev pub row_pnl : Scene → Order → Row → Number
  row_pnl sc order r =
      realized_pnl r.side r.entry_price (price_of order.filled_price) r.size
        (fee_at sc order r.size)

  -- The trade of a position without a row, and its PnL.
  abbrev orphan_pnl : Scene → Position → Order → Number
  orphan_pnl sc p order =
      realized_pnl p.side p.entry_price (price_of order.filled_price) order.size
        (fee_at sc order order.size)

  abbrev pub rowless_trade : Scene → Position → Order → Trade
  rowless_trade sc p order = record {
    order_id = order.id;
    strategy_name = "manual_flat";
    symbol = p.symbol;
    side = text_of order.side;
    size = order.size;
    price = price_of order.filled_price;
    fee = fee_at sc order order.size;
    pnl = some (orphan_pnl sc p order);
    reason = "Flat-all from dashboard (no open DB rec)";
    timestamp = sc.clock;
  }

  abbrev book_pnl : Scene → Number → Portfolio → Portfolio
  book_pnl sc pnl p = record_pnl pnl sc.pnl_env p

  -- One row after its trade and its close were written.
  abbrev pub row_done : Scene → Order → Row → Database → Flat → Flat
  row_done sc order r changed s = record s {
    db = changed;
    portfolio = book_pnl sc (row_pnl sc order r) s.portfolio;
    resets = s.resets ++ r.strategy_name ∷ [];
  }

  abbrev pub write_row : Scene → Position → Order → Row → Database → Option Database
  write_row sc p order r db =
      record_trade_and_close_position sc.mode sc.db_commits sc.clock (row_trade sc p order r)
        (row_pnl sc order r) nil db

  abbrev pub after_write : Option Database → (Database → Flat × Bool) → Flat → Flat × Bool
  after_write none next s = (s, false)
  after_write (some changed) next s = next changed

  -- The loop over the rows of the coin; false where a write raises out of it.
  unfoldable pub close_rows : Scene → Position → Order → List Row → Flat → Flat × Bool
  close_rows sc p order [] s = (s, true)
  close_rows sc p order (r ∷ l) s =
      after_write (write_row sc p order r s.db)
        (λ changed. close_rows sc p order l (row_done sc order r changed s)) s

  abbrev pub tally : Flat × Bool → Flat
  tally (s, true) = record s { closed_count = s.closed_count + 1 }
  tally (s, false) = record s { failed_count = s.failed_count + 1 }

  abbrev pub rowless : Scene → Position → Order → Flat → Option Database → Flat × Bool
  rowless sc p order s none = (s, false)
  rowless sc p order s (some changed) =
      (record s { db = changed; portfolio = book_pnl sc (orphan_pnl sc p order) s.portfolio }, true)

  unfoldable pub close_without_row : Scene → Position → Order → Flat → Flat × Bool
  unfolding record_trade record_pnl realized_pnl
  close_without_row sc p order s = rowless sc p order s (
      if sc.has_repo
      then record_trade sc.mode sc.db_commits (rowless_trade sc p order) s.db
      else some s.db)

  abbrev pub book_close : Scene → Position → Order → List Row → Flat → Flat × Bool
  book_close sc p order [] s = close_without_row sc p order s
  book_close sc p order (r ∷ l) s = close_rows sc p order (r ∷ l) s

  abbrev pub rows_on : Scene → Position → Database → List Row
  rows_on sc p db = if sc.has_repo then get_open_positions_for_symbol sc.mode p.symbol db else []

  abbrev pub on_answer : Scene → Position → List Row → Option Order → Flat → Flat × Bool
  on_answer sc p rows none s = (s, false)
  on_answer sc p rows (some order) s =
      if is_filled order.status then book_close sc p order rows s else (s, false)

  -- One position of the exchange: its rows are read before the order is sent.
  unfoldable pub flatten : Scene → Position → Flat → Flat
  unfolding close_rows close_without_row get_open_positions_for_symbol
  flatten sc p s =
      let side = if is_long p.side then sell else buy in
      let rows = rows_on sc p s.db in
      tally (
        on_answer sc p rows (sc.order_answer p.symbol side p.size)
          (record s { sent = s.sent ++ (p.symbol, side, p.size) ∷ [] }))

  unfoldable pub flatten_all : Scene → List Position → Flat → Flat
  unfolding flatten
  flatten_all sc [] s = s
  flatten_all sc (p ∷ l) s = flatten_all sc l (flatten sc p s)

  abbrev status_of : Flat → FlatAllStatus
  status_of s = record {
    ok = eqb s.failed_count 0;
    closed = s.closed_count;
    failed = s.failed_count;
  }

  abbrev pub begin : Database → Portfolio → Flat
  begin db portfolio = record {
    db = db;
    portfolio = portfolio;
    resets = [];
    sent = [];
    closed_count = 0;
    failed_count = 0;
  }

  abbrev pub flat_read : Scene → Flat → Option (List Position) → Flat × FlatAllStatus
  flat_read sc s none = (s, record { ok = false; closed = 0; failed = 0 })
  flat_read sc s (some positions) = let t = flatten_all sc positions s in (t, status_of t)

  -- A read of no positions is the loop over none.
  unfoldable pub flat_all_positions : Scene → Database → Portfolio → Flat × FlatAllStatus
  unfolding flatten_all
  flat_all_positions sc db portfolio = flat_read sc (begin db portfolio) sc.positions_read

  -- `_pause_after_flat_all`, whose write is caught, and the acknowledgement, which is not.
  abbrev pub finish_flat : Bool → Bool → String → Flat × FlatAllStatus → BotControl → BotControl
  finish_flat pause_lands acknowledged token (s, status) c =
      if status.ok
      then state_of
          (acknowledge_flat_request acknowledged token (state_of (set_paused pause_lands true c)))
      else c

  abbrev pub honour_pending :
      Bool
      → Bool
      → Option String
      → Scene
      → Database
      → Portfolio
      → BotControl
      → BotControl × Option (Flat × FlatAllStatus)
  honour_pending pause_lands acknowledged none sc db portfolio c = (c, none)
  honour_pending pause_lands acknowledged (some token) sc db portfolio c =
      let result = flat_all_positions sc db portfolio in
      (finish_flat pause_lands acknowledged token result c, some result)

  -- The part of `tick`: the control afterwards, and what was done, if a request was pending.
  unfoldable pub honour_flat_all :
      Bool
      → Bool
      → Scene
      → Database
      → Portfolio
      → BotControl
      → BotControl × Option (Flat × FlatAllStatus)
  unfolding flat_all_positions get_pending_flat_request set_paused acknowledge_flat_request
  honour_flat_all pause_lands acknowledged sc db portfolio c =
      honour_pending pause_lands acknowledged (get_pending_flat_request c) sc db portfolio c
