-- ===== src/Repository.antt =====
-- bot/hypertrade/db/repo.py: the positions and trades of a bot, and the writes of its signal path.
-- A table is a list in insertion order. The columns that the model carries are those that the
-- operations read; the tenant, `is_paper` and `state_json` are left out. Instants are microseconds
-- since the epoch. A write that fails raises and leaves the database as it was.
pub mod Closing
pub mod Reconciler
pub mod SignalPath
use xupertrade.Exchange.{PositionSide}
use xupertrade.Float.{Floats, Number, nil, ◌≺◌}
use xupertrade.Prelude.{
  Bool, List, Option, String, [], eqb, false, filter, if◌then◌else◌, none, some, true, ℕ, ◌&&◌,
  ◌++◌, ◌+◌, ◌==◌, ◌>>=◌, ◌||◌, ◌∷◌,
}
use xupertrade.Reconcile.Backfill.{Trade}

module _ ⦃N : Floats⦄ where
  -- `PositionRecord`
  pub record Row : Type 0 where
    pub id : ℕ
    pub strategy_name : String
    pub symbol : String
    pub side : PositionSide
    pub size : Number
    pub entry_price : Number
    pub exit_price : Option Number
    pub pnl : Option Number
    pub is_open : Bool
    pub mode : String
    pub opened_at : Option ℕ
    pub closed_at : Option ℕ

  -- The two tables. A trade stands with its mode.
  pub record Database : Type 0 where
    pub positions : List Row
    pub trades : List (String × Trade)
    pub next_id : ℕ

  -- `.is_open == True, .mode == self._mode`
  abbrev pub is_current : String → Row → Bool
  is_current mode r = r.is_open && r.mode == mode

  unfoldable pub open_position_rows : String → Database → List Row
  open_position_rows mode db = filter (is_current mode) db.positions

  -- `if strategy_name:`, where an empty name is false
  abbrev of_strategy : Option String → Row → Bool
  of_strategy none r = true
  of_strategy (some name) r = name == "" || r.strategy_name == name

  unfoldable pub get_open_positions : String → Option String → Database → List Row
  get_open_positions mode strategy_name db =
      filter (λ r. is_current mode r && of_strategy strategy_name r) db.positions

  unfoldable pub get_open_positions_for_symbol : String → String → Database → List Row
  get_open_positions_for_symbol mode symbol db =
      filter (λ r. r.symbol == symbol && is_current mode r) db.positions

  -- `scalar_one_or_none`, which raises when there are several rows.
  pub data OneOrNone : Type 0 where
    no_row : OneOrNone
    one_row : Row → OneOrNone
    several_rows : OneOrNone

  abbrev one_or_none : List Row → OneOrNone
  one_or_none [] = no_row
  one_or_none (r ∷ []) = one_row r
  one_or_none (r ∷ s ∷ l) = several_rows

  abbrev pub is_row_of : String → String → String → Row → Bool
  is_row_of mode strategy_name symbol r =
      r.strategy_name == strategy_name && (r.symbol == symbol && is_current mode r)

  unfoldable pub get_open_position : String → String → String → Database → OneOrNone
  get_open_position mode strategy_name symbol db =
      one_or_none (filter (is_row_of mode strategy_name symbol) db.positions)

  -- `Trade.order_id` is unique over all modes.
  abbrev pub has_order : String → List (String × Trade) → Bool
  has_order order_id [] = false
  has_order order_id ((_, t) ∷ ts) = t.order_id == order_id || has_order order_id ts

  -- An INSERT into `trades`, none where it raises.
  unfoldable pub add_trade : String → Trade → Database → Option Database
  add_trade mode t db =
      if has_order t.order_id db.trades
      then none
      else some (record db { trades = db.trades ++ (mode, t) ∷ [] })

  -- `record_trade`, none where it raises
  unfoldable pub record_trade : String → Bool → Trade → Database → Option Database
  unfolding add_trade
  record_trade mode commits t db = if commits then add_trade mode t db else none

  -- The row of `open_position`, whose id the database gives.
  abbrev pub new_row : String → ℕ → String → String → PositionSide → Number → Number → ℕ → Row
  new_row mode now strategy_name symbol side size entry_price id = record {
    id = id;
    strategy_name = strategy_name;
    symbol = symbol;
    side = side;
    size = size;
    entry_price = entry_price;
    exit_price = none;
    pnl = none;
    is_open = true;
    mode = mode;
    opened_at = some now;
    closed_at = none;
  }

  unfoldable pub open_position :
      String → ℕ → String → String → PositionSide → Number → Number → Database → Database
  open_position mode now strategy_name symbol side size entry_price db = record db {
    positions =
        db.positions ++ new_row mode now strategy_name symbol side size entry_price db.next_id ∷ [];
    next_id = db.next_id + 1;
  }

  -- Both inserts in one transaction; none where it raises. The trade has no pnl.
  unfoldable pub record_trade_and_open_position :
      String → Bool → ℕ → Trade → PositionSide → Database → Option Database
  unfolding open_position add_trade
  record_trade_and_open_position mode commits now t side db =
      if commits
      then add_trade mode (record t { pnl = none })
          (open_position mode now t.strategy_name t.symbol side t.size t.price db)
      else none

  -- `pos.is_open = False` and the columns that go with it.
  abbrev pub closed_row : Number → Number → ℕ → Row → Row
  closed_row exit_price pnl now r = record r {
    is_open = false;
    exit_price = some exit_price;
    pnl = some pnl;
    closed_at = some now;
  }

  -- An UPDATE of the row with one id.
  abbrev pub update_row : ℕ → (Row → Row) → List Row → List Row
  update_row id f [] = []
  update_row id f (r ∷ l) = (if eqb r.id id then f r else r) ∷ update_row id f l

  -- The change of the row in `record_trade_and_close_position`.
  abbrev pub after_close : Number → Number → Number → ℕ → Row → Row
  after_close remaining price pnl now r =
      if nil ≺ remaining then record r { size = remaining } else closed_row price pnl now r

  abbrev pub close_found : OneOrNone → (Row → Row) → Database → Option Database
  close_found no_row f db = some db
  close_found (one_row r) f db = some (record db { positions = update_row r.id f db.positions })
  close_found several_rows f db = none

  -- The insert and the update in one transaction; none where it raises.
  unfoldable pub record_trade_and_close_position :
      String → Bool → ℕ → Trade → Number → Number → Database → Option Database
  unfolding get_open_position add_trade
  record_trade_and_close_position mode commits now t pnl remaining db =
      if commits
      then (close_found (get_open_position mode t.strategy_name t.symbol db)
            (after_close remaining t.price pnl now) db
          >>= add_trade mode (record t { pnl = some pnl }))
      else none

  unfoldable pub close_position :
      String → ℕ → String → String → Number → Number → Database → Option Database
  unfolding get_open_position
  close_position mode now strategy_name symbol exit_price pnl db =
      close_found (get_open_position mode strategy_name symbol db) (closed_row exit_price pnl now)
        db
