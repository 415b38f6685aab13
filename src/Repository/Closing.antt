-- ===== src/Repository/Closing.antt =====
-- repo.py: what a row that vanished from the exchange closed at, and the writes that close it. What
-- the exchange answers is an argument; none where it raises.
pub mod Booked
use xupertrade.Dict.{Dict, insert, lookup}
use xupertrade.Exchange.{is_long}
use xupertrade.Float.{Floats, Number, nil, ◌≺◌, ◌⊗◌}
use xupertrade.Prelude.{
  Bool, List, Option, String, [], contains, eqb, false, if◌then◌else◌, none, not, some, true, ℕ,
  ◌&&◌, ◌/◌, ◌==◌, ◌∷◌,
}
use xupertrade.Reconcile.{Fill, fill_order_id, realized_pnl}
use xupertrade.Reconcile.Backfill.{Trade}
use xupertrade.Reconcile.Ledger.{FillLedger, Summary, new_ledger, take_fills}
use xupertrade.Repository.{Database, Row, add_trade, closed_row, update_row}

-- The texts of a close's reason.
pub data Label : Type 0 where
  orphan_close external_close : Label

abbrev fill_reason : Label → String
fill_reason orphan_close = "reconcile: orphan close (fill)"
fill_reason external_close = "reconcile: external close (fill)"

abbrev mid_reason : Label → String
mid_reason orphan_close = "ESTIMATED reconcile: orphan close @ mid"
mid_reason external_close = "ESTIMATED reconcile: external close @ mid"

unfoldable pub to_epoch_ms : Option ℕ → Option ℕ
to_epoch_ms none = none
to_epoch_ms (some t) = some (t / 1000)

module _ ⦃N : Floats⦄ where
  -- `_OrphanClosePrice`
  pub record OrphanClosePrice : Type 0 where
    pub exit_price : Number
    pub fee : Number
    pub pnl : Number
    pub order_id : Option String
    pub reason : String
    pub estimated : Bool

  -- What a pass meets while it prices and closes rows: Python's `strip().upper()`, the fills and
  -- the mid prices that the exchange answers, the taker rate, the clock, the fresh id for the close
  -- of a row, what others write before the transaction of the pass, whether it
  -- commits, and whether the insert of a single trade does.
  pub record Surroundings : Type 0 where
    pub fold : String → String
    pub user_fills : Option ℕ → Option (List Fill)
    pub current_price : String → Option Number
    pub taker_fee_rate : Number
    pub now : ℕ
    pub fresh_id : ℕ → String
    pub others : Database → Database
    pub commits : Bool
    pub trade_commits : Bool

  -- The first case of `_price_orphan_close`: from the fills.
  abbrev priced_by_fill : Label → Row → Summary → OrphanClosePrice
  priced_by_fill label r s = record {
    exit_price = s.price;
    fee = s.fee;
    pnl = realized_pnl r.side r.entry_price s.price r.size s.fee;
    order_id = s.order_id;
    reason = fill_reason label;
    estimated = false;
  }

  -- The second case: from the mid.
  abbrev priced_by_mid : Label → Number → Row → Number → OrphanClosePrice
  priced_by_mid label rate r mid =
      let fee = mid ⊗ r.size ⊗ rate in
      record {
        exit_price = mid;
        fee = fee;
        pnl = realized_pnl r.side r.entry_price mid r.size fee;
        order_id = none;
        reason = mid_reason label;
        estimated = true;
      }

  -- A price that cannot be read counts as 0.
  abbrev or_nil : Option Number → Number
  or_nil none = nil
  or_nil (some x) = x

  -- The mid of the pass for one coin, and the cache with it.
  unfoldable pub cached_mid : Surroundings → String → Dict Number → Number × Dict Number
  cached_mid env symbol cache = elim (lookup symbol cache) [
    | some mid ↦ (mid, cache)
    | none ↦ let mid = or_nil (env.current_price symbol) in (mid, insert symbol mid cache)
  ]

  -- The price, and what is left of the ledger and of the cache.
  pub record Pricing : Type 0 where
    pub ledger : FillLedger
    pub mid_cache : Dict Number

  unfoldable pub price_by_mid :
      Surroundings → Label → Row → Pricing → Pricing × Option OrphanClosePrice
  unfolding cached_mid
  price_by_mid env label r p =
      let (mid, cache) = cached_mid env r.symbol p.mid_cache in
      (
        record p { mid_cache = cache },
        if nil ≺ mid then some (priced_by_mid label env.taker_fee_rate r mid) else none,
      )

  abbrev price_by :
      Surroundings → Label → Row → Pricing → Option Summary → Pricing × Option OrphanClosePrice
  price_by env label r p none = price_by_mid env label r p
  price_by env label r p (some s) = (p, some (priced_by_fill label r s))

  unfoldable pub price_orphan_close :
      Surroundings → Label → Row → Pricing → Pricing × Option OrphanClosePrice
  unfolding to_epoch_ms
  price_orphan_close env label r p =
      let (ledger, summary) =
        take_fills r.symbol r.side r.size (to_epoch_ms r.opened_at) p.ledger in
      price_by env label r (record p { ledger = ledger }) summary

  -- `fill_order_ids`, and which of them the table has in this mode.
  abbrev order_ids : List Fill → List String
  order_ids [] = []
  order_ids (f ∷ fs) = elim (fill_order_id f) [ none ↦ order_ids fs | some o ↦ o ∷ order_ids fs ]

  unfoldable pub recorded_order_ids : String → List String → List (String × Trade) → List String
  recorded_order_ids mode asked [] = []
  recorded_order_ids mode asked ((m, t) ∷ ts) =
      let rest = recorded_order_ids mode asked ts in
      if m == mode && (contains t.order_id asked && not (t.order_id == ""))
      then t.order_id ∷ rest
      else rest

  abbrev or_no_fills : Option (List Fill) → List Fill
  or_no_fills none = []
  or_no_fills (some fills) = fills

  unfoldable pub fill_ledger : Surroundings → String → Option ℕ → Database → FillLedger
  unfolding recorded_order_ids
  fill_ledger env mode since db =
      let fills = or_no_fills (env.user_fills since) in
      new_ledger env.fold fills (recorded_order_ids mode (order_ids fills) db.trades)

  -- The row that `_insert_reconcile_trade` writes, under an order id.
  abbrev close_trade : ℕ → Row → OrphanClosePrice → String → Trade
  close_trade now r priced order_id = record {
    order_id = order_id;
    strategy_name = r.strategy_name;
    symbol = r.symbol;
    side = if is_long r.side then "sell" else "buy";
    size = r.size;
    price = priced.exit_price;
    fee = priced.fee;
    pnl = some priced.pnl;
    reason = priced.reason;
    timestamp = now;
  }

  -- `[c for c in (preferred_order_id, "reconcile-...") if c]`
  abbrev candidates : Option String → String → List String
  candidates none fresh = fresh ∷ []
  candidates (some o) fresh = if o == "" then fresh ∷ [] else o ∷ fresh ∷ []

  abbrev pub or_else : Option Database → Database → Database
  or_else none next = next
  or_else (some changed) next = changed

  -- The loop over the candidates: the first whose insert does not raise, or no row at all.
  unfoldable pub insert_first : String → (String → Trade) → List String → Database → Database
  insert_first mode trade [] db = db
  insert_first mode trade (c ∷ cs) db =
      or_else (add_trade mode (trade c) db) (insert_first mode trade cs db)

  unfoldable pub insert_reconcile_trade :
      String → Surroundings → Row → OrphanClosePrice → Database → Database
  unfolding insert_first
  insert_reconcile_trade mode env r priced db =
      insert_first mode (close_trade env.now r priced)
        (candidates priced.order_id (env.fresh_id r.id)) db

  -- `session.get`
  abbrev pub find_row : ℕ → List Row → Option Row
  find_row id [] = none
  find_row id (r ∷ l) = if eqb r.id id then some r else find_row id l

  abbrev pub open_only : Option Row → Option Row
  open_only none = none
  open_only (some r) = if r.is_open then some r else none

  abbrev close_open :
      String → Surroundings → ℕ → OrphanClosePrice → Database → Option Row → Database × Option Row
  close_open mode env id priced db none = (db, none)
  close_open mode env id priced db (some r) = (
    insert_reconcile_trade mode env r priced (record db {
      positions = update_row id (closed_row priced.exit_price priced.pnl env.now) db.positions;
    }),
    some r,
  )

  -- The database, and the row that was closed (as it was), if it was still open.
  unfoldable pub close_row_priced :
      String → Surroundings → ℕ → OrphanClosePrice → Database → Database × Option Row
  unfolding insert_reconcile_trade
  close_row_priced mode env id priced db =
      close_open mode env id priced db (open_only (find_row id db.positions))

  -- The commit of `close_row_externally`: nothing is written where it raises.
  abbrev commit_close :
      Bool
      → Database
      → OrphanClosePrice
      → Database × Option Row
      → Database × Option OrphanClosePrice
  commit_close commits db priced (changed, none) = (db, none)
  commit_close commits db priced (changed, some r) =
      if commits then (changed, some priced) else (db, none)

  abbrev close_priced :
      String
      → Surroundings
      → Row
      → Database
      → Option OrphanClosePrice
      → Database × Option OrphanClosePrice
  close_priced mode env r db none = (db, none)
  close_priced mode env r db (some priced) =
      let now_db = env.others db in
      commit_close env.commits now_db priced (close_row_priced mode env r.id priced now_db)

  -- The database, and the price used: none where nothing was written, which is also the model's
  -- answer where the commit raises.
  unfoldable pub close_row_externally :
      String → Surroundings → Row → Database → Database × Option OrphanClosePrice
  unfolding price_orphan_close fill_ledger close_row_priced
  close_row_externally mode env r db =
      close_priced mode env r db
        (price_orphan_close env external_close r
          (record { ledger = fill_ledger env mode (to_epoch_ms r.opened_at) db; mid_cache = [] })).1
