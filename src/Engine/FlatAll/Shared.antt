-- ===== src/Engine/FlatAll/Shared.antt =====
-- runner.py and repo.py together: the flat-all of a coin that several strategies hold.
use xupertrade.Engine.FlatAll.{
  Flat, Scene, close_rows, flatten, price_of, row_done, row_pnl, row_trade, tally, write_row,
}
use xupertrade.Exchange.{Order, Position, buy, is_long, sell}
use xupertrade.Float.{Floats, nil}
use xupertrade.Prelude.{
  Bool, Bool-cases, List, Option, Option-cases, String, [], ap, arith, eq_iff, false, if-cases,
  if◌then◌else◌, inl, inr, none, refl, some, subst, true, ◌++◌, ◌+◌, ◌>>=◌, ◌||◌, ◌∷◌, ◌≡◌,
}
use xupertrade.Reconcile.Backfill.{Trade}
use xupertrade.Repository.{
  Database, OneOrNone, Row, add_trade, after_close, close_found, get_open_position,
  get_open_positions_for_symbol, has_order, no_row, one_row, record_trade_and_close_position,
  several_rows, update_row,
}
use xupertrade.Repository.Reconciler.Orphans.{is_filled}

module _ ⦃N : Floats⦄ where
  has_order-append :
      (o : String) (l m : List (String × Trade))
      → has_order o (l ++ m) ≡ (has_order o l || has_order o m)
  has_order-append o [] m = refl
  has_order-append o ((mode, t) ∷ l) m = ground (arith, has_order-append o l m)

  -- What a write of a row may leave: none, or the trade's order id booked.
  abbrev Booked : String → Option Database → Type 0
  Booked o none = Unit
  Booked o (some db) = has_order o db.trades ≡ true

  add_trade-Booked :
      (mode : String) (t : Trade) (db : Database) → Booked t.order_id (add_trade mode t db)
  unfolding add_trade
  add_trade-Booked mode t db = elim (Bool-cases (has_order t.order_id db.trades)) [
    | inl taken ↦ simp taken tt
    | inr free ↦ simp free (
        rw (has_order-append t.order_id db.trades ((mode, t) ∷ []))
          (ground (arith, eq_iff t.order_id t.order_id)))
  ]

  -- What follows the update of the row, if there is one to update.
  chained-Booked :
      (mode : String) (t : Trade) (found : OneOrNone) (f : Row → Row) (db : Database)
      → Booked t.order_id (close_found found f db >>= add_trade mode t)
  chained-Booked mode t no_row f db = add_trade-Booked mode t db
  chained-Booked mode t (one_row r) f db =
      add_trade-Booked mode t (record db { positions = update_row r.id f db.positions })
  chained-Booked mode t several_rows f db = tt

  write_row-Booked :
      (sc : Scene) (p : Position) (order : Order) (r : Row) (db : Database)
      → Booked order.id (write_row sc p order r db)
  unfolding record_trade_and_close_position
  write_row-Booked sc p order r db =
      if-cases (Booked order.id) sc.db_commits _ none
        (λ commits.
          chained-Booked sc.mode
            (record (row_trade sc p order r) { pnl = some (row_pnl sc order r) })
            (get_open_position sc.mode r.strategy_name p.symbol db)
            (after_close nil (price_of order.filled_price) (row_pnl sc order r) sc.clock) db)
        (λ fails. tt)

  chained-taken :
      (mode : String) (t : Trade) (found : OneOrNone) (f : Row → Row) (db : Database)
      → has_order t.order_id db.trades ≡ true
      → (close_found found f db >>= add_trade mode t) ≡ none
  unfolding add_trade
  chained-taken mode t no_row f db taken = simp taken refl
  chained-taken mode t (one_row r) f db taken = simp taken refl
  chained-taken mode t several_rows f db taken = refl

  write_row-taken :
      (sc : Scene) (p : Position) (order : Order) (r : Row) (db : Database)
      → has_order order.id db.trades ≡ true
      → write_row sc p order r db ≡ none
  unfolding record_trade_and_close_position
  write_row-taken sc p order r db taken =
      if-cases (λ (o : Option Database). o ≡ none) sc.db_commits _ none
        (λ commits.
          chained-taken sc.mode
            (record (row_trade sc p order r) { pnl = some (row_pnl sc order r) })
            (get_open_position sc.mode r.strategy_name p.symbol db)
            (after_close nil (price_of order.filled_price) (row_pnl sc order r) sc.clock) db taken)
        (λ fails. refl)

  -- The second row's trade would carry the order id of the first.
  close_rows-shared :
      (sc : Scene) (p : Position) (order : Order) (r q : Row) (l : List Row) (s : Flat)
      → (close_rows sc p order (r ∷ q ∷ l) s).1 ≡ false
  unfolding close_rows
  close_rows-shared sc p order r q l s = elim (Option-cases (write_row sc p order r s.db)) [
    | inl raises ↦ simp raises refl
    | inr (db, written) ↦
        let booked = subst (Booked order.id) written (write_row-Booked sc p order r s.db) in
        simp (written, write_row-taken sc p order q db booked) refl
  ]

  abbrev pub SameCounts : Flat → Flat → Type 0
  SameCounts s t =
      (t.failed_count ≡ s.failed_count) × (t.closed_count ≡ s.closed_count) × (t.sent ≡ s.sent)

  pub close_rows-SameCounts :
      (sc : Scene) (p : Position) (order : Order) (l : List Row) (s : Flat)
      → SameCounts s (close_rows sc p order l s).0
  unfolding close_rows
  close_rows-SameCounts sc p order [] s = (refl, refl, refl)
  close_rows-SameCounts sc p order (r ∷ l) s = elim (Option-cases (write_row sc p order r s.db)) [
    | inl raises ↦ simp raises (refl, refl, refl)
    | inr (db, written) ↦
        simp written (close_rows-SameCounts sc p order l (row_done sc order r db s))
  ]

  tally-failed :
      (s : Flat) (k : Flat × Bool)
      → k.1 ≡ false
      → SameCounts s k.0
      → ((tally k).failed_count ≡ s.failed_count + 1) × ((tally k).closed_count ≡ s.closed_count)
  tally-failed s (t, true) fails h = cc
  tally-failed s (t, false) fails h = (ap (λ n. n + 1) h.0, h.1)

  -- When the order for a coin with two or more open rows fills, the flat-all counts that coin as
  -- failed: the trade of the second row would need the order id that the first one has.
  pub flatten-shared_coin :
      (sc : Scene) (p : Position) (order : Order) (r q : Row) (l : List Row) (s : Flat)
      → sc.has_repo ≡ true
      → get_open_positions_for_symbol sc.mode p.symbol s.db ≡ r ∷ q ∷ l
      → sc.order_answer p.symbol (if is_long p.side then sell else buy) p.size ≡ some order
      → is_filled order.status ≡ true
      → ((flatten sc p s).failed_count ≡ s.failed_count + 1)
        × ((flatten sc p s).closed_count ≡ s.closed_count)
  unfolding flatten
  flatten-shared_coin sc p order r q l s with_repo shared answer complete =
      let asked : Flat = record s {
        sent = s.sent ++ (p.symbol, if is_long p.side then sell else buy, p.size) ∷ [];
      } in
      simp (with_repo, shared, answer, complete)
        (tally-failed asked (close_rows sc p order (r ∷ q ∷ l) asked)
          (close_rows-shared sc p order r q l asked)
          (close_rows-SameCounts sc p order (r ∷ q ∷ l) asked))
