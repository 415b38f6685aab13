-- ===== src/Exchange/Paper/Orders.antt =====
-- paper.py: `place_order` and the reads of positions and prices.
use xupertrade.Prelude.{
  ℕ, String, Bool, false, Option, none, some, List, [], ◌∷◌, ◌++◌, if◌then◌else◌,
}
use xupertrade.Float.{Floats, Number, nil, min_f, ◌⊗◌, ◌≼◌}
use xupertrade.Dict.{lookup, values}
use xupertrade.Exchange.{
  Side, buy, sell, PositionSide, long, short, same_side, OrderType, filled, rejected, Order,
  Position,
}
use xupertrade.Exchange.Paper.{PaperExchange, Json, handle_buy, handle_sell, update_unrealized_pnl}
use xupertrade.Exchange.Paper.Storage.{persist}

module _ ⦃N : Floats⦄ where
  -- The arguments of `place_order`, with what it takes from outside: two fresh ids, the time, and
  -- whether the write of the new state succeeds.
  pub record Request : Type 0 where
    pub symbol : String
    pub side : Side
    pub size : Number
    pub order_type : OrderType
    pub price : Option Number
    pub reduce_only : Bool
    pub rejected_id : String
    pub order_id : String
    pub now : ℕ
    pub written : Bool

  abbrev pub rejection : Request → Option String → Order
  rejection r error = record {
    id = r.rejected_id;
    symbol = r.symbol;
    side = r.side;
    size = r.size;
    order_type = r.order_type;
    price = r.price;
    filled_price = none;
    status = rejected;
    timestamp = r.now;
    error = error;
  }

  abbrev pub fill : Request → Number → Number → Order
  fill r size price = record {
    id = r.order_id;
    symbol = r.symbol;
    side = r.side;
    size = size;
    order_type = r.order_type;
    price = r.price;
    filled_price = some price;
    status = filled;
    timestamp = r.now;
    error = none;
  }

  abbrev price_or_zero : Option Number → Number
  price_or_zero none = nil
  price_or_zero (some p) = p

  -- self._prices.get(symbol, 0.0)
  unfoldable pub get_current_price : String → PaperExchange → Number
  get_current_price symbol s = price_or_zero (lookup symbol s.prices)

  -- `price if price else self._prices.get(symbol, 0.0)`
  unfoldable pub fill_price : Option Number → String → PaperExchange → Number
  unfolding get_current_price
  fill_price none symbol s = get_current_price symbol s
  fill_price (some p) symbol s = if N.eq p nil then get_current_price symbol s else p

  -- The side that an order of this side reduces.
  abbrev pub reduces : Side → PositionSide
  reduces buy = short
  reduces sell = long

  -- The size of a reduce-only order once clipped, or none when it is refused.
  unfoldable pub clip : Option Position → Side → Number → Option Number
  clip none side size = none
  clip (some existing) side size =
      if same_side existing.side (reduces side) then some (min_f size existing.size) else none

  -- 0.00045, the taker fee
  abbrev pub fee_of : Number → Number → Number
  fee_of price size = (price ⊗ size) ⊗ N.decimal 45 5

  unfoldable pub handle : Side → String → Number → Number → Number → PaperExchange → PaperExchange
  unfolding handle_buy handle_sell
  handle buy = handle_buy
  handle sell = handle_sell

  unfoldable pub execute : Json → Request → Number → Number → PaperExchange → PaperExchange × Order
  unfolding handle
  execute json r size price s =
      let order = fill r size price in
      let s' = record s { orders = s.orders ++ order ∷ [] } in
      (persist json r.written (handle r.side r.symbol size price (fee_of price size) s'), order)

  abbrev reduce_only_error : String
  reduce_only_error = "Reduce only order would increase position."

  unfoldable pub place_order : Json → Request → PaperExchange → PaperExchange × Order
  unfolding execute fill_price clip
  place_order json r s =
      let price = fill_price r.price r.symbol s in
      if price ≼ nil
      then (s, rejection r none)
      else if r.reduce_only
      then elim (clip (lookup r.symbol s.positions) r.side r.size) [
        | none ↦ (s, rejection r (some reduce_only_error))
        | some size ↦ execute json r size price s
      ]
      else execute json r r.size price s

  -- The simulated exchange has no resting orders.
  unfoldable pub cancel_order : String → String → PaperExchange → PaperExchange × Bool
  cancel_order order_id symbol s = (s, false)

  unfoldable pub get_positions : PaperExchange → PaperExchange × List Position
  unfolding update_unrealized_pnl
  get_positions s = let s' = update_unrealized_pnl s in (s', values s'.positions)

  unfoldable pub get_position : String → PaperExchange → PaperExchange × Option Position
  unfolding update_unrealized_pnl
  get_position symbol s = let s' = update_unrealized_pnl s in (s', lookup symbol s'.positions)
