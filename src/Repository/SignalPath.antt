-- ===== src/Repository/SignalPath.antt =====
-- repo.py: a position's row over the writes of the signal path, an open and its closes.
use xupertrade.Exchange.{PositionSide}
use xupertrade.Float.{Floats, Number, nil, ◌≺◌}
use xupertrade.Prelude.{
  Bool, Bool-cases, List, Option, String, [], ap, arith, eq_iff, false, filter, filter-append,
  if◌then◌else◌, inl, inr, none, refl, some, subst, sym, true, ℕ, ◌&&◌, ◌++◌, ◌==◌, ◌∙◌, ◌∷◌, ◌≡◌,
}
use xupertrade.Reconcile.Backfill.{Trade}
use xupertrade.Repository.{
  Database, OneOrNone, Row, add_trade, after_close, get_open_position, has_order, is_current,
  is_row_of, new_row, no_row, one_or_none, one_row, open_position, open_position_rows,
  record_trade_and_close_position, record_trade_and_open_position, several_rows, update_row,
}

module _ ⦃N : Floats⦄ where
  pub one_or_none-no_row : (l : List Row) → one_or_none l ≡ no_row → l ≡ []
  one_or_none-no_row [] e = refl
  one_or_none-no_row (r ∷ []) e = cc
  one_or_none-no_row (r ∷ s ∷ l) e = cc

  abbrev row_or : Row → OneOrNone → Row
  row_or d no_row = d
  row_or d (one_row r) = r
  row_or d several_rows = d

  one_or_none-one_row : (l : List Row) (r : Row) → one_or_none l ≡ one_row r → l ≡ r ∷ []
  one_or_none-one_row [] r e = cc
  one_or_none-one_row (x ∷ []) r e = ap (λ o. row_or r o ∷ []) e
  one_or_none-one_row (x ∷ y ∷ l) r e = cc

  eq_refl : (a : String) → a == a ≡ true
  eq_refl a = (eq_iff a a).1 refl

  -- What an insert into the trades may leave: none, or the same positions.
  abbrev SamePositions : Database → Option Database → Type 0
  SamePositions db none = Unit
  SamePositions db (some after) = after.positions ≡ db.positions

  add_trade-SamePositions :
      (mode : String) (t : Trade) (db : Database) → SamePositions db (add_trade mode t db)
  unfolding add_trade
  add_trade-SamePositions mode t db = elim (Bool-cases (has_order t.order_id db.trades)) [
    | inl taken ↦ simp taken tt
    | inr free ↦ simp free refl
  ]

  opened_positions :
      (mode : String) (commits : Bool) (now : ℕ) (t : Trade) (side : PositionSide) (db : Database)
      → SamePositions
          (open_position mode now t.strategy_name t.symbol side t.size t.price db)
          (record_trade_and_open_position mode commits now t side db)
  unfolding record_trade_and_open_position
  opened_positions mode false now t side db = tt
  opened_positions mode true now t side db =
      add_trade-SamePositions mode (record t { pnl = none })
        (open_position mode now t.strategy_name t.symbol side t.size t.price db)

  abbrev rows_for : String → Trade → Database → List Row
  rows_for mode t db = filter (is_row_of mode t.strategy_name t.symbol) db.positions

  -- After an open that is written, where no row of the strategy and the symbol was open, the open
  -- row is an open one of this mode under the next id, with the trade's strategy, symbol and size,
  -- the trade's price as its entry, and the side that was given; it has no exit.
  pub open-get_open_position :
      (mode : String) (commits : Bool) (now : ℕ) (t : Trade) (side : PositionSide)
      (db after : Database)
      → get_open_position mode t.strategy_name t.symbol db ≡ no_row
      → record_trade_and_open_position mode commits now t side db ≡ some after
      → get_open_position mode t.strategy_name t.symbol after
        ≡ one_row (record {
          id = db.next_id;
          strategy_name = t.strategy_name;
          symbol = t.symbol;
          side = side;
          size = t.size;
          entry_price = t.price;
          exit_price = none;
          pnl = none;
          is_open = true;
          mode = mode;
          opened_at = some now;
          closed_at = none;
        })
  unfolding get_open_position open_position
  open-get_open_position mode commits now t side db after none_open written =
      let test = is_row_of mode t.strategy_name t.symbol in
      let row = new_row mode now t.strategy_name t.symbol side t.size t.price db.next_id in
      let opened = open_position mode now t.strategy_name t.symbol side t.size t.price db in
      let same =
        subst (SamePositions opened) written (opened_positions mode commits now t side db) in
      let before : filter test db.positions ≡ [] =
        one_or_none-no_row (filter test db.positions) none_open in
      let after_it : one_or_none (filter test (db.positions ++ row ∷ [])) ≡ one_row row =
        rw (filter-append test db.positions (row ∷ []), before)
          (simp (eq_refl t.strategy_name, eq_refl t.symbol, eq_refl mode) refl) in
      ap (λ l. one_or_none (filter test l)) same ∙ after_it

  -- An open that is written adds its row to the open ones, at the end.
  pub open_position_rows-open :
      (mode : String) (commits : Bool) (now : ℕ) (t : Trade) (side : PositionSide)
      (db after : Database)
      → record_trade_and_open_position mode commits now t side db ≡ some after
      → open_position_rows mode after
        ≡ open_position_rows mode db
          ++ new_row mode now t.strategy_name t.symbol side t.size t.price db.next_id ∷ []
  unfolding open_position_rows open_position
  open_position_rows-open mode commits now t side db after written =
      let row = new_row mode now t.strategy_name t.symbol side t.size t.price db.next_id in
      let opened = open_position mode now t.strategy_name t.symbol side t.size t.price db in
      let same =
        subst (SamePositions opened) written (opened_positions mode commits now t side db) in
      let added : filter (is_current mode) (db.positions ++ row ∷ [])
          ≡ filter (is_current mode) db.positions ++ row ∷ [] =
        rw (filter-append (is_current mode) db.positions (row ∷ [])) (simp (eq_refl mode) refl) in
      ap (λ l. filter (is_current mode) l) same ∙ added

  -- An update of rows under one id, where it leaves a matching row matching or not by `still`.
  abbrev first_row : Row → List Row → Row
  first_row d [] = d
  first_row d (r ∷ l) = r

  abbrev rest_rows : List Row → List Row
  rest_rows [] = []
  rest_rows (r ∷ l) = l

  filter-update_row_none :
      (test : Row → Bool) (f : Row → Row) (still : Bool) (id : ℕ) (l : List Row)
      → ((r : Row) → test (f r) ≡ (test r && still))
      → filter test l ≡ []
      → filter test (update_row id f l) ≡ []
  filter-update_row_none test f still id [] h e = refl
  filter-update_row_none test f still id (x ∷ l) h e = elim (Bool-cases (test x)) [
    | inl matches ↦ cc
    | inr skips ↦ ground (arith, h x, filter-update_row_none test f still id l h)
  ]

  filter-update_row_one :
      (test : Row → Bool) (f : Row → Row) (still : Bool) (l : List Row) (r : Row)
      → ((x : Row) → test (f x) ≡ (test x && still))
      → filter test l ≡ r ∷ []
      → filter test (update_row r.id f l) ≡ (if still then f r ∷ [] else [])
  filter-update_row_one test f still [] r h e = cc
  filter-update_row_one test f still (x ∷ l) r h e = elim (Bool-cases (test x)) [
    | inl matches ↦
        let split = sym (ap (λ b. if b then x ∷ filter test l else filter test l) matches) ∙ e in
        subst (λ r. filter test (update_row r.id f (x ∷ l)) ≡ (if still then f r ∷ [] else []))
          (ap (first_row r) split) (head_case (ap rest_rows split) matches)
    | inr skips ↦ ground (arith, h x, filter-update_row_one test f still l r h)
  ]
    where
      head_case :
          filter test l ≡ []
          → test x ≡ true
          → filter test (update_row x.id f (x ∷ l)) ≡ (if still then f x ∷ [] else [])
      head_case none_left matches =
          ground (arith, h x, filter-update_row_none test f still x.id l h none_left)

  -- What a close that is written leaves of the positions.
  closed_positions :
      (mode : String) (commits : Bool) (now : ℕ) (t : Trade) (pnl remaining : Number)
      (db : Database) (r : Row)
      → get_open_position mode t.strategy_name t.symbol db ≡ one_row r
      → SamePositions
          (record db {
            positions = update_row r.id (after_close remaining t.price pnl now) db.positions;
          })
          (record_trade_and_close_position mode commits now t pnl remaining db)
  unfolding record_trade_and_close_position
  closed_positions mode false now t pnl remaining db r found = tt
  closed_positions mode true now t pnl remaining db r found = simp found (
      add_trade-SamePositions mode (record t { pnl = some pnl })
        (record db {
          positions = update_row r.id (after_close remaining t.price pnl now) db.positions;
        }))

  -- After a close that is written, of the one open row of the strategy and the symbol: a close
  -- that leaves a positive size keeps the row open with that size, any other leaves no open row.
  pub close-get_open_position :
      (mode : String) (commits : Bool) (now : ℕ) (t : Trade) (pnl remaining : Number)
      (db after : Database) (r : Row)
      → get_open_position mode t.strategy_name t.symbol db ≡ one_row r
      → record_trade_and_close_position mode commits now t pnl remaining db ≡ some after
      → get_open_position mode t.strategy_name t.symbol after
        ≡ (if nil ≺ remaining then one_row (record r { size = remaining }) else no_row)
  unfolding get_open_position
  close-get_open_position mode commits now t pnl remaining db after r found written =
      let test = is_row_of mode t.strategy_name t.symbol in
      let changed = after_close remaining t.price pnl now in
      let after_it : Database = record db { positions = update_row r.id changed db.positions } in
      let same =
        subst (SamePositions after_it) written
          (closed_positions mode commits now t pnl remaining db r found) in
      let before : filter test db.positions ≡ r ∷ [] =
        one_or_none-one_row (filter test db.positions) r found in
      ap (λ l. one_or_none (filter test l)) same
      ∙ ap one_or_none (
          filter-update_row_one test changed (nil ≺ remaining) db.positions r (λ x. ground arith)
            before)
      ∙ ground arith
