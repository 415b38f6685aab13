-- ===== src/Exchange.antt =====
-- bot/hypertrade/exchange/base.py: the values that every exchange speaks of. The texts "buy",
-- "sell", "long" and "short" are constructors.
pub mod Paper
use xupertrade.Prelude.{ℕ, String, Bool, true, false, Option}
use xupertrade.Float.{Floats, Number}

pub data Side : Type 0 where
  buy sell : Side

pub data PositionSide : Type 0 where
  long short : PositionSide

pub data OrderType : Type 0 where
  market limit : OrderType

pub data OrderStatus : Type 0 where
  pending filled cancelled rejected : OrderStatus

-- side == "long"
abbrev pub is_long : PositionSide → Bool
is_long long = true
is_long short = false

abbrev pub same_side : PositionSide → PositionSide → Bool
same_side long long = true
same_side short short = true
same_side _ _ = false

module _ ⦃N : Floats⦄ where
  pub record Order : Type 0 where
    pub id : String
    pub symbol : String
    pub side : Side
    pub size : Number
    pub order_type : OrderType
    pub price : Option Number
    pub filled_price : Option Number
    pub status : OrderStatus
    pub timestamp : ℕ
    pub error : Option String

  pub record Position : Type 0 where
    pub symbol : String
    pub side : PositionSide
    pub size : Number
    pub entry_price : Number
    pub unrealized_pnl : Number
    pub liquidation_price : Option Number

  pub record Balance : Type 0 where
    pub total : Number
    pub available : Number
    pub unrealized_pnl : Number
