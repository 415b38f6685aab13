-- ===== src/Repository/Reconciler/Orphans.antt =====
-- repo.py: pass 2 of `reconcile_positions`, the positions of the exchange that no row covers.
use xupertrade.Dict.{Dict, lookup}
use xupertrade.Exchange.{
  Order, OrderStatus, Position, PositionSide, Side, buy, filled, long, same_side, sell, short,
}
use xupertrade.Float.{Floats, Number, nil, ◌≺◌, ◌≼◌, ◌⊖◌, ◌⊗◌}
use xupertrade.Prelude.{
  Bool, List, Option, String, [], contains, false, filter, if◌then◌else◌, is_some, none, not, some,
  true, ℕ, ◌&&◌, ◌++◌, ◌+◌, ◌==◌, ◌||◌, ◌∷◌,
}
use xupertrade.Reconcile.Backfill.{Trade}
use xupertrade.Repository.{Database, Row, open_position_rows, record_trade}
use xupertrade.Repository.Closing.{Surroundings}
use xupertrade.Repository.Reconciler.{
  Exchange, HoldReason, Options, Progress, act, by_symbol, close_failed_note, closed_orphan_note,
  fail, held_note, orphan_hold_reason, unbooked_note, unconfirmed,
}

module _ ⦃N : Floats⦄ where
  abbrev pub symbols_of : List Row → List String
  symbols_of [] = []
  symbols_of (r ∷ l) = r.symbol ∷ symbols_of l

  abbrev keys : Dict (List Row) → List String
  keys [] = []
  keys ((symbol, _) ∷ d) = symbol ∷ keys d

  -- `sym not in db_symbols and p.size >= 1e-6`
  abbrev pub dust : Number
  dust = N.decimal 1 6

  abbrev pub is_orphan : List String → String × Position → Bool
  is_orphan db_symbols o = not (contains o.0 db_symbols) && dust ≼ o.1.size

  -- sum(sym in traded_symbols for sym, _ in orphans)
  abbrev pub count_traded : List String → List (String × Position) → ℕ
  count_traded traded [] = 0
  count_traded traded ((symbol, _) ∷ l) =
      (if contains symbol traded then 1 else 0) + count_traded traded l

  -- [s for s, _ in orphans if not reasons[s]]
  abbrev pub unheld : (String → Option HoldReason) → List (String × Position) → List String
  unheld reasons [] = []
  unheld reasons ((symbol, _) ∷ l) =
      if is_some (reasons symbol) then unheld reasons l else symbol ∷ unheld reasons l

  -- {s: None if reasons[s] else p for s, p in orphans}
  abbrev expected :
      (String → Option HoldReason) → List (String × Position) → List (String × Option Position)
  expected reasons [] = []
  expected reasons ((symbol, p) ∷ l) =
      (symbol, if is_some (reasons symbol) then none else some p) ∷ expected reasons l

  abbrev abs_f : Number → Number
  abs_f x = if x ≺ nil then N.neg x else x

  abbrev has_symbol {ℓ} : {A : Type ℓ} → String → List (String × A) → Bool
  has_symbol symbol [] = false
  has_symbol symbol ((s, _) ∷ l) = s == symbol || has_symbol symbol l

  abbrev all_have {ℓ κ} : {A : Type ℓ} {B : Type κ} → List (String × A) → List (String × B) → Bool
  all_have [] other = true
  all_have ((s, _) ∷ l) other = has_symbol s other && all_have l other

  abbrev is_same : Option Position → Option Position → Bool
  is_same seen none = true
  is_same none (some p) = false
  is_same (some q) (some p) = same_side q.side p.side && abs_f (q.size ⊖ p.size) ≺ dust

  abbrev all_same : Dict Position → List (String × Option Position) → Bool
  all_same seen [] = true
  all_same seen ((symbol, p) ∷ l) = is_same (lookup symbol seen) p && all_same seen l

  -- False where the re-read raises.
  unfoldable pub same_orphans :
      Option (List Position) → List String → List (String × Option Position) → Bool
  same_orphans none db_symbols orphans = false
  same_orphans (some again) db_symbols orphans =
      let seen = filter (is_orphan db_symbols) (by_symbol again) in
      all_have seen orphans && (all_have orphans seen && all_same seen orphans)

  abbrev pub close_side : PositionSide → Side
  close_side short = buy
  close_side long = sell

  abbrev side_text : Side → String
  side_text buy = "buy"
  side_text sell = "sell"

  -- `a or b`, where None and 0.0 are false
  abbrev price_or : Option Number → Number → Number
  price_or none b = b
  price_or (some a) b = if N.eq a nil then b else a

  -- The trade of an orphan that was closed.
  unfoldable pub orphan_trade : Surroundings → Position → Order → Trade
  orphan_trade env p order =
      let price = price_or order.filled_price p.entry_price in
      record {
        order_id = order.id;
        strategy_name = "reconcile";
        symbol = p.symbol;
        side = side_text (close_side p.side);
        size = order.size;
        price = price;
        fee = price ⊗ order.size ⊗ env.taker_fee_rate;
        pnl = none;
        reason = "reconcile: exchange-orphan close";
        timestamp = env.now;
      }

  -- unresolved_orphans.remove(sym)
  abbrev remove : String → List String → List String
  remove symbol [] = []
  remove symbol (s ∷ l) = if s == symbol then l else s ∷ remove symbol l

  abbrev pub resolve : String → Progress → Progress
  resolve symbol p = record p {
    result = record p.result { unresolved_orphans = remove symbol p.result.unresolved_orphans };
  }

  abbrev pub is_filled : OrderStatus → Bool
  is_filled filled = true
  is_filled _ = false

  -- The trade's insert, and the notes of the close.
  abbrev pub book_orphan : Position → Order → Option Database → Progress → Progress
  book_orphan position order none p =
      act (closed_orphan_note position order) (fail (unbooked_note position order) p)
  book_orphan position order (some changed) p =
      act (closed_orphan_note position order) (record p { db = changed })

  unfoldable pub after_order :
      String → Surroundings → String → Position → Option Order → Progress → Progress
  unfolding orphan_trade record_trade
  after_order mode env symbol position none p = fail (close_failed_note position none) p
  after_order mode env symbol position (some order) p =
      if is_filled order.status
      then book_orphan position order
          (record_trade mode env.trade_commits (orphan_trade env position order) p.db)
          (resolve symbol p)
      else fail (close_failed_note position (some order)) p

  unfoldable pub close_orphan :
      String → Surroundings → Exchange → String → Position → Progress → Progress
  unfolding after_order
  close_orphan mode env ex symbol position p =
      let side = close_side position.side in
      after_order mode env symbol position (ex.send_order symbol side position.size)
        (record p { sent = p.sent ++ (symbol, side, position.size) ∷ [] })

  abbrev hold_orphan : String → Position → HoldReason → Progress → Progress
  hold_orphan symbol position why p = fail (held_note position why) (record p {
    result = record p.result { held_orphans = p.result.held_orphans ++ symbol ∷ [] };
  })

  -- One round of the loop over the orphans.
  unfoldable pub treat_orphan :
      String
      → Surroundings
      → Exchange
      → Bool
      → Option HoldReason
      → String
      → Position
      → Progress
      → Progress
  unfolding close_orphan
  treat_orphan mode env ex confirmed (some why) symbol position p =
      hold_orphan symbol position why p
  treat_orphan mode env ex confirmed none symbol position p =
      if confirmed
      then close_orphan mode env ex symbol position p
      else fail (held_note position unconfirmed) p

  unfoldable pub treat_orphans :
      String
      → Surroundings
      → Exchange
      → Bool
      → (String → Option HoldReason)
      → List (String × Position)
      → Progress
      → Progress
  unfolding treat_orphan
  treat_orphans mode env ex confirmed reasons [] p = p
  treat_orphans mode env ex confirmed reasons ((symbol, position) ∷ l) p =
      treat_orphans mode env ex confirmed reasons l
        (treat_orphan mode env ex confirmed (reasons symbol) symbol position p)

  abbrev is_nil {ℓ} : {A : Type ℓ} → List A → Bool
  is_nil [] = true
  is_nil (x ∷ l) = false

  -- The symbols that still have an open row.
  abbrev pub still_open : String → Dict (List Row) → Progress → List String
  still_open mode rows p =
      if is_nil p.closed then keys rows else symbols_of (open_position_rows mode p.db)

  -- The orphans, and why each is held.
  abbrev pub orphans_of : List String → Dict Position → List (String × Position)
  orphans_of db_symbols ex = filter (is_orphan db_symbols) ex

  abbrev pub reasons_of : Options → List (String × Position) → String → Option HoldReason
  reasons_of opts orphans symbol =
      orphan_hold_reason symbol (count_traded opts.traded_symbols orphans) opts.hold_orphans
        opts.traded_symbols

  unfoldable pub treat_all :
      String
      → Surroundings
      → Exchange
      → Options
      → List String
      → List (String × Position)
      → Progress
      → Progress
  unfolding same_orphans treat_orphans orphan_hold_reason
  treat_all mode env ex opts db_symbols orphans p =
      let reasons = reasons_of opts orphans in
      let waiting = unheld reasons orphans in
      let confirmed =
        is_nil waiting || same_orphans ex.orphan_read db_symbols (expected reasons orphans) in
      treat_orphans mode env ex confirmed reasons orphans
        (record p { result = record p.result { unresolved_orphans = waiting } })

  unfoldable pub pass_2 :
      String
      → Surroundings
      → Exchange
      → Options
      → Dict (List Row)
      → Dict Position
      → Progress
      → Progress
  unfolding treat_all open_position_rows
  pass_2 mode env ex opts rows by p =
      let db_symbols = still_open mode rows p in
      treat_all mode env ex opts db_symbols (orphans_of db_symbols by) p
