-- ===== src/Tests/Books.antt =====
-- repo.py, on whole numbers as the floats.
use xupertrade.Exchange.{Order, OrderStatus, OrderType, Position, PositionSide, Side}
use xupertrade.Float.Whole.{whole_floats}
use xupertrade.Prelude.{
  All, List, Option, String, [], false, none, refl, some, subst, true, ◌∷◌, ◌≡◌,
}
use xupertrade.Prelude.Int.{negsuc, pos, ℤ}
use xupertrade.Reconcile.Backfill.{Trade}
use xupertrade.Repository.{
  Database, Row, add_trade, get_open_position, new_row, one_row, open_position, open_position_rows,
  record_trade_and_close_position, record_trade_and_open_position,
}
use xupertrade.Repository.Closing.{OrphanClosePrice, Surroundings, close_row_priced, find_row}
use xupertrade.Repository.Closing.Booked.{Books, close_row_priced-Books}
use xupertrade.Repository.Reconciler.{Exchange, Options, by_symbol}
use xupertrade.Repository.Reconciler.Run.{reconcile_positions}
use xupertrade.Repository.Reconciler.Run.Backed.{Backed}
use xupertrade.Repository.Reconciler.Run.Lone.{AtMostOne, reconcile_positions-AtMostOne}
use xupertrade.Repository.Reconciler.Run.Quiet.{Untouched, dry_run-Untouched}
use xupertrade.Repository.Reconciler.Run.Spared.{find_row-reconcile_positions}
use xupertrade.Repository.SignalPath.{close-get_open_position, open-get_open_position}

-- Two open rows: "up" is backed by the exchange, "gone" is not.
abbrev row_up : Row
row_up = record {
  id = 1;
  strategy_name = "up";
  symbol = "BTC";
  side = PositionSide.long;
  size = pos 2;
  entry_price = pos 100;
  exit_price = none;
  pnl = none;
  is_open = true;
  mode = "testnet";
  opened_at = some 5000;
  closed_at = none;
}

abbrev row_gone : Row
row_gone = record row_up { id = 2; strategy_name = "gone"; symbol = "ETH" }

abbrev books : Database
books = record { positions = row_up ∷ row_gone ∷ []; trades = []; next_id = 3 }

abbrev btc : Position
btc = record {
  symbol = "BTC";
  side = PositionSide.long;
  size = pos 2;
  entry_price = pos 100;
  unrealized_pnl = pos 0;
  liquidation_price = none;
}

-- A position without a row.
abbrev sol : Position
sol = record btc { symbol = "SOL"; size = pos 7 }

-- The answer to an order.
abbrev order_of : String → Side → ℤ → Order
order_of symbol side size = record {
  id = "o1";
  symbol = symbol;
  side = side;
  size = size;
  order_type = OrderType.market;
  price = none;
  filled_price = some (pos 50);
  status = OrderStatus.filled;
  timestamp = 0;
  error = none;
}

abbrev venue : Exchange
venue = record {
  first_read = some (btc ∷ sol ∷ []);
  second_read = some (btc ∷ sol ∷ []);
  orphan_read = some (btc ∷ sol ∷ []);
  send_order = λ symbol side size. some (order_of symbol side size);
}

abbrev around : Surroundings
around = record {
  fold = λ s. s;
  user_fills = λ since. none;
  current_price = λ symbol. some (pos 90);
  taker_fee_rate = pos 0;
  now = 9000;
  fresh_id = λ id. "reconcile-1";
  others = λ db. db;
  commits = true;
  trade_commits = true;
}

abbrev live : Options
live = record {
  close_exchange_orphans = true;
  dry_run = false;
  hold_orphans = none;
  traded_symbols = "BTC" ∷ "ETH" ∷ "SOL" ∷ [];
}

dry_run-Untouched_example :
    Untouched books
      (reconcile_positions "testnet" around venue (record live { dry_run = true }) books)
dry_run-Untouched_example =
    dry_run-Untouched "testnet" around venue (record live { dry_run = true }) books refl

abbrev answered : Option (List Position) → List Position
answered none = []
answered (some l) = l

find_row-reconcile_positions_example :
    find_row 1 (reconcile_positions "testnet" around venue live books).db.positions
    ≡ find_row 1 books.positions
unfolding open_position_rows
find_row-reconcile_positions_example =
    find_row-reconcile_positions 1 "testnet" around venue live books
      (λ second e.
        subst (λ o. All (Backed 1 (by_symbol (answered o))) (open_position_rows "testnet" books)) e
          (λ h. refl, (λ h. cc, tt)))
      refl

reconcile_positions-AtMostOne_example :
    AtMostOne live (reconcile_positions "testnet" around venue live books).sent
reconcile_positions-AtMostOne_example =
    reconcile_positions-AtMostOne "testnet" around venue live books

abbrev at_90 : OrphanClosePrice
at_90 = record {
  exit_price = pos 90;
  fee = pos 0;
  pnl = negsuc 19;
  order_id = none;
  reason = "test";
  estimated = true;
}

close_row_priced-Books_example :
    Books "testnet" around 2 at_90 books (close_row_priced "testnet" around 2 at_90 books)
close_row_priced-Books_example = close_row_priced-Books "testnet" around 2 at_90 books (λ r e. refl)

abbrev bought : Trade
bought = record {
  order_id = "o2";
  strategy_name = "up";
  symbol = "SOL";
  side = "buy";
  size = pos 3;
  price = pos 40;
  fee = pos 1;
  pnl = none;
  reason = "";
  timestamp = 7000;
}

abbrev opened_books : Database
opened_books = record {
  positions =
      row_up
      ∷ row_gone
      ∷ new_row "testnet" 7000 "up" "SOL" PositionSide.long (pos 3) (pos 40) 3
      ∷ [];
  trades = ("testnet", bought) ∷ [];
  next_id = 4;
}

open-get_open_position_example :
    get_open_position "testnet" "up" "SOL" opened_books
    ≡ one_row (record {
      id = 3;
      strategy_name = "up";
      symbol = "SOL";
      side = PositionSide.long;
      size = pos 3;
      entry_price = pos 40;
      exit_price = none;
      pnl = none;
      is_open = true;
      mode = "testnet";
      opened_at = some 7000;
      closed_at = none;
    })
unfolding get_open_position record_trade_and_open_position open_position add_trade
open-get_open_position_example =
    open-get_open_position "testnet" true 7000 bought PositionSide.long books opened_books refl refl

abbrev sold : Trade
sold = record bought { order_id = "o3"; symbol = "BTC"; side = "sell"; size = pos 1 }

abbrev sold_books : Database
sold_books = record {
  positions = record row_up { size = pos 1 } ∷ row_gone ∷ [];
  trades = ("testnet", record sold { pnl = some (pos 4) }) ∷ [];
  next_id = 3;
}

close-get_open_position_example :
    get_open_position "testnet" "up" "BTC" sold_books ≡ one_row (record row_up { size = pos 1 })
unfolding get_open_position record_trade_and_close_position add_trade
close-get_open_position_example =
    close-get_open_position "testnet" true 7100 sold (pos 4) (pos 1) books sold_books row_up refl
      refl
