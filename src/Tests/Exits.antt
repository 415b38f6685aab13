-- ===== src/Tests/Exits.antt =====
-- runner.py: opens, an outage and a flat-all, on whole numbers as the floats.
use xupertrade.Control.{BotControl, acknowledge_flat_request, get_pending_flat_request, set_paused}
use xupertrade.Engine.FlatAll.{
  Flat, Scene, close_rows, flat_all_positions, flatten, flatten_all, honour_flat_all,
}
use xupertrade.Engine.FlatAll.Honoured.{IsFlattened, honour_flat_all-IsFlattened}
use xupertrade.Engine.FlatAll.Shared.{flatten-shared_coin}
use xupertrade.Engine.Opens.{Caps, Wanted, add_notional, open_refusal}
use xupertrade.Engine.Opens.Exposure.{open_refusal-bounds}
use xupertrade.Engine.Opens.OneSided.{IsOneSided, open_refusal-IsOneSided}
use xupertrade.Engine.Outage.{Tick, fail_ticks, new_outage}
use xupertrade.Engine.Outage.Alerts.{fail_ticks-one_alert}
use xupertrade.Exchange.{Order, OrderStatus, OrderType, Position, PositionSide, Side}
use xupertrade.Float.{◌≺◌}
use xupertrade.Float.Whole.{whole_floats}
use xupertrade.Portfolio.{Env, Portfolio, Publish}
use xupertrade.Prelude.{[], false, length, none, refl, some, true, ℕ, ◌∷◌, ◌≡◌}
use xupertrade.Prelude.Int.{pos, ◌*ℤ◌, ◌+ℤ◌}
use xupertrade.Reconcile.Backfill.{Trade}
use xupertrade.Repository.{
  Database, Row, add_trade, get_open_position, get_open_positions_for_symbol, new_row,
  open_position, open_position_rows, record_trade_and_close_position,
  record_trade_and_open_position,
}

abbrev long_btc : Row
long_btc = record {
  id = 1;
  strategy_name = "a";
  symbol = "BTC";
  side = PositionSide.long;
  size = pos 2;
  entry_price = pos 10;
  exit_price = none;
  pnl = none;
  is_open = true;
  mode = "testnet";
  opened_at = some 5000;
  closed_at = none;
}

abbrev one_row_db : Database
one_row_db = record { positions = long_btc ∷ []; trades = []; next_id = 2 }

abbrev caps_100 : Caps
caps_100 = record {
  max_total_exposure_usd = pos 100;
  signal_size_max_multiplier = pos 3;
  max_position_size_usd = pos 50;
}

abbrev buy_btc : Trade
buy_btc = record {
  order_id = "x1";
  strategy_name = "b";
  symbol = "BTC";
  side = "buy";
  size = pos 3;
  price = pos 20;
  fee = pos 0;
  pnl = none;
  reason = "";
  timestamp = 7000;
}

abbrev two_row_db : Database
two_row_db = record {
  positions = long_btc ∷ new_row "testnet" 7000 "b" "BTC" PositionSide.long (pos 3) (pos 20) 2 ∷ [];
  trades = ("testnet", buy_btc) ∷ [];
  next_id = 3;
}

abbrev wanted_long : Wanted
wanted_long = record {
  side = PositionSide.long;
  size = pos 3;
  current_price = pos 20;
  leverage = some 2;
}

abbrev asked_flat : BotControl
asked_flat = record {
  connected = true;
  hold_unwritten = false;
  sentinel_unwritten = false;
  paused_key = none;
  disabled_key = [];
  flat_req_key = some "t1";
  flat_done_key = none;
  kill_switch_key = none;
  sentinel_key = some "1";
  reconcile_hold_key = none;
}

open_refusal-bounds_example :
    pos 100 ≺ add_notional (open_position_rows "testnet" two_row_db) (pos 0) ≡ false
unfolding open_refusal ◌+ℤ◌ ◌*ℤ◌ get_open_position record_trade_and_open_position open_position
    add_trade
open_refusal-bounds_example =
    open_refusal-bounds "testnet" (λ name. none) caps_100 (some asked_flat) true (some (pos 3))
      (some 2) PositionSide.long buy_btc true 7000 one_row_db two_row_db refl refl refl refl

open_refusal-IsOneSided_example : IsOneSided (open_position_rows "testnet" two_row_db)
unfolding open_refusal ◌+ℤ◌ ◌*ℤ◌ record_trade_and_open_position open_position add_trade
    open_position_rows
open_refusal-IsOneSided_example =
    open_refusal-IsOneSided "testnet" (λ name. none) caps_100 (some asked_flat) true none
      wanted_long buy_btc true 7000 one_row_db two_row_db refl refl ((refl, tt), tt)

abbrev tick_at : ℕ → Tick
tick_at now = record { now = now; first = "a"; others = "b" ∷ [] }

fail_ticks-one_alert_example :
    length
      (fail_ticks 300 true
        (tick_at 1000 ∷ tick_at 1200 ∷ tick_at 1400 ∷ tick_at 1900 ∷ [])
        new_outage).published
    ≡ 1
fail_ticks-one_alert_example =
    fail_ticks-one_alert 300 (tick_at 1000) (tick_at 1200 ∷ tick_at 1400 ∷ tick_at 1900 ∷ [])
      new_outage refl refl

abbrev btc_5 : Position
btc_5 = record {
  symbol = "BTC";
  side = PositionSide.long;
  size = pos 5;
  entry_price = pos 16;
  unrealized_pnl = pos 0;
  liquidation_price = none;
}

abbrev sold_5 : Order
sold_5 = record {
  id = "x2";
  symbol = "BTC";
  side = Side.sell;
  size = pos 5;
  order_type = OrderType.market;
  price = none;
  filled_price = some (pos 18);
  status = OrderStatus.filled;
  timestamp = 0;
  error = none;
}

abbrev calm : Env
calm = record {
  today = "d1";
  readable = true;
  writable = true;
  kill_flag = some none;
  publish = Publish.delivered;
}

abbrev flat_scene : Scene
flat_scene = record {
  mode = "testnet";
  has_repo = true;
  positions_read = some (btc_5 ∷ []);
  order_answer = λ symbol side size. some sold_5;
  db_commits = true;
  fee_rate = pos 0;
  clock = 9000;
  pnl_env = calm;
}

abbrev new_day : Portfolio
new_day = record {
  has_control = true;
  has_bus = true;
  daily_pnl = pos 0;
  date_str = "d1";
  loaded = false;
  persist_pending = false;
  kill_switch_unreadable = false;
  persist_failure_logged = false;
  persist_alerted = false;
  opens_held = none;
  stored = [];
  events = [];
}

abbrev flat_start : Flat
flat_start = record {
  db = two_row_db;
  portfolio = new_day;
  resets = [];
  sent = [];
  closed_count = 0;
  failed_count = 0;
}

flatten-shared_coin_example :
    ((flatten flat_scene btc_5 flat_start).failed_count ≡ 1)
    × ((flatten flat_scene btc_5 flat_start).closed_count ≡ 0)
unfolding get_open_positions_for_symbol
flatten-shared_coin_example =
    flatten-shared_coin flat_scene btc_5 sold_5 long_btc
      (new_row "testnet" 7000 "b" "BTC" PositionSide.long (pos 3) (pos 20) 2) [] flat_start refl
      refl refl refl

honour_flat_all-IsFlattened_example :
    IsFlattened flat_scene (flat_all_positions flat_scene one_row_db new_day)
unfolding honour_flat_all get_pending_flat_request flat_all_positions flatten_all flatten close_rows
    set_paused acknowledge_flat_request record_trade_and_close_position add_trade
    get_open_positions_for_symbol get_open_position
honour_flat_all-IsFlattened_example =
    honour_flat_all-IsFlattened true true flat_scene one_row_db new_day asked_flat refl refl
