-- ===== src/Exchange/Paper.antt =====
-- bot/hypertrade/exchange/paper.py: the simulated exchange. Its Redis key is the field `stored`;
-- whether a write to it fails is an argument, and so are the fresh ids and the clock.
pub mod Storage
pub mod Orders
pub mod Funds
pub mod Table
pub mod Reducing
pub mod Equity
use xupertrade.Prelude.{String, Bool, false, Option, none, some, List, [], ◌∷◌, if◌then◌else◌}
use xupertrade.Float.{Floats, Number, nil, min_f, ◌⊕◌, ◌⊖◌, ◌⊗◌, ◌⊘◌, ◌≺◌}
use xupertrade.Dict.{Dict, lookup, insert, erase}
use xupertrade.Exchange.{PositionSide, long, short, is_long, Order, Position}

module _ ⦃N : Floats⦄ where
  -- What is written to the key: the balance, and each position without its PnL. A field that a
  -- read does not find, or that `float` refuses with a TypeError, is `none`.
  pub record SavedPosition : Type 0 where
    pub symbol : Option String
    pub side : Option PositionSide
    pub size : Option Number
    pub entry_price : Option Number

  pub record Saved : Type 0 where
    pub balance : Option (Option Number)
    pub positions : Option (Dict SavedPosition)

  -- The json module, which reads back what it wrote.
  pub record Json : Type 0 where
    pub dumps : Saved → String
    pub loads : String → Option Saved

  pub record PaperExchange : Type 0 where
    pub balance : Number
    pub positions : Dict Position
    pub orders : List Order
    pub prices : Dict Number
    pub initial_balance : Number
    -- `_redis is not None`
    pub connected : Bool
    -- the value of the key in Redis
    pub stored : Option String

  pub new_exchange : Number → Option String → PaperExchange
  new_exchange initial stored = record {
    balance = initial;
    positions = [];
    orders = [];
    prices = [];
    initial_balance = initial;
    connected = false;
    stored = stored;
  }

  abbrev new_position : String → PositionSide → Number → Number → Position
  new_position symbol side size price = record {
    symbol = symbol;
    side = side;
    size = size;
    entry_price = price;
    unrealized_pnl = nil;
    liquidation_price = none;
  }

  -- `_update_unrealized_pnl`, one position
  pub refresh : Dict Number → Position → Position
  refresh prices p = elim (lookup p.symbol prices) [
    | none ↦ p
    | some current ↦ record p {
      unrealized_pnl =
          if is_long p.side
          then (current ⊖ p.entry_price) ⊗ p.size
          else (p.entry_price ⊖ current) ⊗ p.size;
    }
  ]

  abbrev refresh_all : Dict Number → Dict Position → Dict Position
  refresh_all prices [] = []
  refresh_all prices ((k, p) ∷ d) = (k, refresh prices p) ∷ refresh_all prices d

  pub update_unrealized_pnl : PaperExchange → PaperExchange
  unfolding refresh
  update_unrealized_pnl s = record s { positions = refresh_all s.prices s.positions }

  pub set_price : String → Number → PaperExchange → PaperExchange
  unfolding update_unrealized_pnl
  set_price symbol price s =
      update_unrealized_pnl (record s { prices = insert symbol price s.prices })

  -- The body of `_handle_buy` and `_handle_sell` where the position is on the other side: it is
  -- reduced, or removed and what is left of the order opens the other side.
  abbrev put_size : String → Position → Number → PaperExchange → PaperExchange
  put_size symbol p size s = record s {
    positions = insert symbol (record p { size = size }) s.positions;
  }

  pub cover : String → Number → Number → Number → Position → PaperExchange → PaperExchange
  cover symbol size price fee existing s =
      let size_covered = min_f size existing.size in
      let paid = record s { balance = s.balance ⊖ ((price ⊗ size_covered) ⊕ fee) } in
      let remaining_short = existing.size ⊖ size_covered in
      if nil ≺ remaining_short
      then put_size symbol existing remaining_short paid
      else let gone = record paid { positions = erase symbol paid.positions } in
        let flip_size = size ⊖ existing.size in
        if nil ≺ flip_size
        then record gone {
          balance = gone.balance ⊖ (price ⊗ flip_size);
          positions = insert symbol (new_position symbol long flip_size price) gone.positions;
        }
        else gone

  pub unwind : String → Number → Number → Number → Position → PaperExchange → PaperExchange
  unwind symbol size price fee existing s =
      let size_closed = min_f size existing.size in
      let paid = record s { balance = s.balance ⊕ ((price ⊗ size_closed) ⊖ fee) } in
      let remaining_long = existing.size ⊖ size_closed in
      if nil ≺ remaining_long
      then put_size symbol existing remaining_long paid
      else let gone = record paid { positions = erase symbol paid.positions } in
        let flip_size = size ⊖ existing.size in
        if nil ≺ flip_size
        then record gone {
          balance = gone.balance ⊕ (price ⊗ flip_size);
          positions = insert symbol (new_position symbol short flip_size price) gone.positions;
        }
        else gone

  -- Adding to a position of the order's own side averages the entry price. Python raises where the
  -- total size is 0; on a valid table, no order of positive size adds up to that.
  add_to : Position → Number → Number → Position
  add_to existing size price =
      let total_size = existing.size ⊕ size in
      record existing {
        size = total_size;
        entry_price = ((existing.entry_price ⊗ existing.size) ⊕ (price ⊗ size)) ⊘ total_size;
      }

  pub enter :
      PositionSide → String → Number → Number → Option Position → Dict Position → Dict Position
  unfolding add_to
  enter side symbol size price none d = insert symbol (new_position symbol side size price) d
  enter side symbol size price (some existing) d = insert symbol (add_to existing size price) d

  abbrev long_entry : String → Number → Number → Number → PaperExchange → PaperExchange
  long_entry symbol size price fee s = record s {
    balance = s.balance ⊖ ((price ⊗ size) ⊕ fee);
    positions = enter long symbol size price (lookup symbol s.positions) s.positions;
  }

  abbrev short_entry : String → Number → Number → Number → PaperExchange → PaperExchange
  short_entry symbol size price fee s = record s {
    balance = s.balance ⊕ ((price ⊗ size) ⊖ fee);
    positions = enter short symbol size price (lookup symbol s.positions) s.positions;
  }

  pub handle_buy : String → Number → Number → Number → PaperExchange → PaperExchange
  unfolding cover enter
  handle_buy symbol size price fee s = elim (lookup symbol s.positions) [
    | none ↦ long_entry symbol size price fee s
    | some existing ↦
        if is_long existing.side
        then long_entry symbol size price fee s
        else cover symbol size price fee existing s
  ]

  pub handle_sell : String → Number → Number → Number → PaperExchange → PaperExchange
  unfolding unwind enter
  handle_sell symbol size price fee s = elim (lookup symbol s.positions) [
    | none ↦ short_entry symbol size price fee s
    | some existing ↦
        if is_long existing.side
        then unwind symbol size price fee existing s
        else short_entry symbol size price fee s
  ]
