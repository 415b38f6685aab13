-- ===== src/Tests/Paper.antt =====
-- exchange/paper.py, on whole numbers.
use xupertrade.Dict.{lookup}
use xupertrade.Exchange.{OrderType, Position, PositionSide, sell}
use xupertrade.Exchange.Paper.{Json, PaperExchange, Saved, SavedPosition}
use xupertrade.Exchange.Paper.Equity.{account_total}
use xupertrade.Exchange.Paper.Equity.Filled.{cost, place_order-account_total}
use xupertrade.Exchange.Paper.Orders.{Request, place_order}
use xupertrade.Exchange.Paper.Reducing.{Shrinks, place_order-Shrinks}
use xupertrade.Exchange.Paper.Storage.{
  load_state, load_state-persist, load_state_malformed, persist, restart_positions, saved_of,
}
use xupertrade.Exchange.Paper.Table.{IsValid}
use xupertrade.Float.Whole.{whole_exact, whole_floats, whole_laws}
use xupertrade.Prelude.{Bool, [], false, inl, inr, none, refl, some, true, ◌∷◌, ◌≡◌}
use xupertrade.Prelude.Int.{pos, ◌+ℤ◌}

-- One long position of 2 at 100, with the price now at 110.
abbrev two_long : Position
two_long = record {
  symbol = "BTC";
  side = PositionSide.long;
  size = pos 2;
  entry_price = pos 100;
  unrealized_pnl = pos 20;
  liquidation_price = none;
}

abbrev desk : PaperExchange
desk = record {
  balance = pos 1000;
  positions = ("BTC", two_long) ∷ [];
  orders = [];
  prices = ("BTC", pos 110) ∷ [];
  initial_balance = pos 1200;
  connected = true;
  stored = none;
}

abbrev sell_five : Bool → Request
sell_five reduce_only = record {
  symbol = "BTC";
  side = sell;
  size = pos 5;
  order_type = OrderType.market;
  price = none;
  reduce_only = reduce_only;
  rejected_id = "r-1";
  order_id = "o-1";
  now = 7;
  written = true;
}

-- A text that stands for the desk's state.
abbrev one_text : Json
one_text = record { dumps = λ d. "state"; loads = λ t. some (saved_of desk) }

desk-IsValid : IsValid desk.positions
desk-IsValid = ((refl, refl), refl, tt)

place_order-account_total_example :
    account_total whole_exact (place_order one_text (sell_five false) desk).0
      +ℤ cost whole_exact (place_order one_text (sell_five false) desk).1
    ≡ account_total whole_exact desk
place_order-account_total_example =
    place_order-account_total whole_exact one_text (sell_five false) desk desk-IsValid refl

place_order-Shrinks_example :
    Shrinks (some two_long) (lookup "BTC" (place_order one_text (sell_five true) desk).0.positions)
place_order-Shrinks_example =
    place_order-Shrinks whole_laws one_text (sell_five true) desk desk-IsValid refl refl

abbrev cold : PaperExchange
cold = record desk {
  balance = pos 50;
  positions = [];
  connected = false;
  stored = (persist one_text true desk).stored;
}

load_state-persist_example :
    ((load_state one_text true cold).balance ≡ pos 1000)
    × ((load_state one_text true cold).positions ≡ restart_positions desk.positions)
    × ((load_state one_text true cold).connected ≡ true)
load_state-persist_example = load_state-persist one_text desk cold refl refl refl refl

-- A saved position without a side.
abbrev no_side : SavedPosition
no_side = record {
  symbol = some "BTC";
  side = none;
  size = some (pos 1);
  entry_price = some (pos 9);
}

abbrev damaged : Saved
damaged = record { balance = some (some (pos 77)); positions = some (("BTC", no_side) ∷ []) }

abbrev damaged_text : Json
damaged_text = record { dumps = λ d. "state"; loads = λ t. some damaged }

abbrev before_load : PaperExchange
before_load = record desk { connected = false; stored = some "damaged" }

load_state_malformed_example :
    load_state damaged_text true before_load
    ≡ record before_load { connected = true; balance = pos 77 }
load_state_malformed_example =
    load_state_malformed damaged_text before_load "damaged" damaged (pos 77) [] [] "BTC" no_side
      refl refl refl refl refl (inr (inl refl))
