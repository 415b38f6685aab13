-- ===== src/Tests/Closes.antt =====
-- runner.py: the size of a close, on whole numbers as the floats.
use xupertrade.Engine.CloseSize.{
  Beliefs, Methods, close_at, nothing, raises, reset_strategy_state, resolve_close_size,
}
use xupertrade.Engine.CloseSize.Believed.{IsForgotten, closed-resolve_close_size}
use xupertrade.Engine.CloseSize.Bounded.{IsSent, resolve_close_size-IsSent}
use xupertrade.Exchange.{Position, PositionSide}
use xupertrade.Float.Whole.{whole_exact, whole_floats}
use xupertrade.Prelude.{Bool, String, [], false, none, refl, some, true, ℕ, ◌∷◌, ◌≡◌}
use xupertrade.Prelude.Int.{pos, ◌+ℤ◌}
use xupertrade.Reconcile.Backfill.{Trade}
use xupertrade.Repository.{
  Database, Row, add_trade, get_open_position, record_trade_and_close_position,
}

abbrev three_btc : Row
three_btc = record {
  id = 1;
  strategy_name = "a";
  symbol = "BTC";
  side = PositionSide.long;
  size = pos 3;
  entry_price = pos 10;
  exit_price = none;
  pnl = none;
  is_open = true;
  mode = "testnet";
  opened_at = some 5000;
  closed_at = none;
}

abbrev before_close : Database
before_close = record { positions = three_btc ∷ []; trades = []; next_id = 2 }

abbrev exit_trade : Trade
exit_trade = record {
  order_id = "o2";
  symbol = "BTC";
  side = "sell";
  size = pos 3;
  price = pos 12;
  fee = pos 0;
  strategy_name = "a";
  pnl = none;
  reason = "";
  timestamp = 7000;
}

abbrev closed_btc : Row
closed_btc = record three_btc {
  exit_price = some (pos 12);
  pnl = some (pos 6);
  is_open = false;
  closed_at = some 7000;
}

abbrev after_exit : Database
after_exit = record {
  positions = closed_btc ∷ [];
  trades = ("testnet", record exit_trade { pnl = some (pos 6) }) ∷ [];
  next_id = 2;
}

abbrev two_held : Position
two_held = record {
  symbol = "BTC";
  side = PositionSide.long;
  size = pos 2;
  entry_price = pos 10;
  unrealized_pnl = pos 0;
  liquidation_price = none;
}

-- A strategy is its name and whether it believes to hold a position.
abbrev simple : Methods (String × Bool)
simple = record { name = λ s. s.0; reset_position = λ s. ((s.0, false), true) }

abbrev believing : Beliefs (String × Bool) ℕ
believing = record {
  strategies = ("b", true) ∷ ("a", true) ∷ [];
  close_rejects = (("a", "BTC"), 2) ∷ (("b", "ETH"), 1) ∷ [];
  saves = [];
}

abbrev flat_a : Beliefs (String × Bool) ℕ
flat_a = record {
  strategies = ("b", true) ∷ ("a", false) ∷ [];
  close_rejects = (("b", "ETH"), 1) ∷ [];
  saves = ("a", false) ∷ [];
}

-- The exchange holds less than the row: the close is cut to what it holds.
clamps_to_exchange :
    resolve_close_size simple
      (some ("testnet", before_close))
      (some (some two_held))
      "a"
      "BTC"
      PositionSide.long
      believing
    ≡ (close_at (pos 2) (some three_btc), believing)
unfolding resolve_close_size get_open_position ◌+ℤ◌
clamps_to_exchange = refl

unread_exchange_without_rows :
    resolve_close_size simple none none "a" "BTC" PositionSide.long believing ≡ (raises, believing)
unfolding resolve_close_size
unread_exchange_without_rows = refl

resolve_close_size-IsSent_example :
    IsSent whole_exact three_btc PositionSide.long (some (some two_held)) believing (
      resolve_close_size simple
        (some ("testnet", before_close))
        (some (some two_held))
        "a"
        "BTC"
        PositionSide.long
        believing)
unfolding get_open_position
resolve_close_size-IsSent_example =
    resolve_close_size-IsSent whole_exact simple "testnet" "a" "BTC" PositionSide.long before_close
      three_btc (some (some two_held)) believing refl refl refl

closed-resolve_close_size_example :
    ((resolve_close_size simple
        (some ("testnet", after_exit))
        (some (some two_held))
        "a"
        "BTC"
        PositionSide.long
        believing).0
      ≡ nothing)
    × IsForgotten simple "a" believing (
        (resolve_close_size simple
          (some ("testnet", after_exit))
          (some (some two_held))
          "a"
          "BTC"
          PositionSide.long
          believing).1)
unfolding get_open_position record_trade_and_close_position add_trade
closed-resolve_close_size_example =
    closed-resolve_close_size simple (λ s. refl) "testnet" true 7000 exit_trade (pos 6) (pos 0)
      before_close after_exit three_btc PositionSide.long (some (some two_held)) believing refl refl
      refl

-- The strategy and its streak are forgotten, and the snapshot is saved.
resets_on_missing_row :
    resolve_close_size simple
      (some ("testnet", after_exit))
      none
      "a"
      "BTC"
      PositionSide.long
      believing
    ≡ (nothing, flat_a)
unfolding resolve_close_size get_open_position reset_strategy_state
resets_on_missing_row = refl
