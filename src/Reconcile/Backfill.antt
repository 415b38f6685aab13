-- ===== src/Reconcile/Backfill.antt =====
-- fills.py: `reconcile_fills_from_hl`. The database is the list of booked rows; how each insert
-- ends is an argument, since a concurrent writer can make it fail.
pub mod Rows
use xupertrade.Dict.{insert}
use xupertrade.Float.{Floats, Number}
use xupertrade.Prelude.{
  List, Option, String, [], contains, if◌then◌else◌, length, ltb, none, some, ℕ, ◌++◌, ◌+◌, ◌>>=◌,
  ◌∷◌,
}
use xupertrade.Reconcile.{Fill, normalize_side}

-- How the savepoint of one row ends.
pub data Insert : Type 0 where
  stored : Option ℕ → Insert
  integrity_error db_error : Insert

pub record Report : Type 0 where
  pub examined : ℕ
  pub inserted : ℕ
  pub skipped : ℕ
  pub inserted_ids : List ℕ

module _ ⦃N : Floats⦄ where
  -- The columns of a `Trade` row that the function fills in; the tenant, the mode and whether it
  -- is paper are the repository's.
  pub record Trade : Type 0 where
    pub order_id : String
    pub strategy_name : String
    pub symbol : String
    pub side : String
    pub size : Number
    pub price : Number
    pub fee : Number
    pub pnl : Option Number
    pub reason : String
    pub timestamp : ℕ

  -- The timestamp: the fill's time in milliseconds if positive, otherwise now.
  abbrev executed_at : ℕ → ℕ → ℕ
  executed_at ts now = if ltb 0 ts then ts else now

  abbrev closed_pnl_of : Option (Option Number) → Option (Option Number)
  closed_pnl_of none = some none
  closed_pnl_of (some none) = none
  closed_pnl_of (some (some p)) = some (some p)

  -- The row of a fill, or none when one of its numbers is bad.
  pub trade_of : (String → String) → ℕ → String → Fill → Option Trade
  unfolding normalize_side
  trade_of fold now order_id f = do
    size ← f.sz
    price ← f.px
    fee ← f.fee
    pnl ← closed_pnl_of f.closed_pnl
    ts ← f.time
    some (record {
      order_id = order_id;
      strategy_name = "reconciled";
      symbol = f.coin;
      side = normalize_side fold f.side;
      size = size;
      price = price;
      fee = fee;
      pnl = pnl;
      reason = "backfilled from HL user_fills";
      timestamp = executed_at ts now;
    })

  -- The loop's state: the report, the ids known to be booked, and the rows added so far.
  pub record Pass : Type 0 where
    pub report : Report
    pub existing : List String
    pub rows : List Trade

  abbrev skip : Pass → Pass
  skip p = record p { report = record p.report { skipped = p.report.skipped + 1 } }

  abbrev add_id : Option ℕ → List ℕ → List ℕ
  add_id none ids = ids
  add_id (some i) ids = ids ++ i ∷ []

  store : Trade → Insert → Pass → Pass
  store trade (stored id) p = record {
    report = record p.report {
      inserted = p.report.inserted + 1;
      inserted_ids = add_id id p.report.inserted_ids;
    };
    existing = trade.order_id ∷ p.existing;
    rows = p.rows ++ trade ∷ [];
  }
  store trade integrity_error p = skip p
  store trade db_error p = skip p

  -- One fill of the loop.
  pub process : (String → String) → ℕ → (Trade → Insert) → Fill → Pass → Pass
  unfolding trade_of store
  process fold now insert f p = elim f.oid [
    | none ↦ skip p
    | some order_id ↦
        if contains order_id p.existing then skip p else elim (trade_of fold now order_id f) [
          | none ↦ skip p
          | some trade ↦ store trade (insert trade) p
        ]
  ]

  pub process_all : (String → String) → ℕ → (Trade → Insert) → List Fill → Pass → Pass
  unfolding process
  process_all fold now insert [] p = p
  process_all fold now insert (f ∷ fs) p =
      process_all fold now insert fs (process fold now insert f p)

  -- The ids that the query asks about.
  abbrev pub oids : List Fill → List String
  oids [] = []
  oids (f ∷ fs) = elim f.oid [ none ↦ oids fs | some o ↦ o ∷ oids fs ]

  -- `select(Trade.order_id).where(Trade.order_id.in_(oids))`
  abbrev booked : List Trade → List String → List String
  booked [] asked = []
  booked (t ∷ ts) asked =
      if contains t.order_id asked then t.order_id ∷ booked ts asked else booked ts asked

  abbrev begin : List Fill → List String → List Trade → Pass
  begin fills asked table = record {
    report = record { examined = length fills; inserted = 0; skipped = 0; inserted_ids = [] };
    existing = booked table asked;
    rows = [];
  }

  -- The report, and the table afterwards.
  pub reconcile_fills_from_hl :
      (String → String) → ℕ → (Trade → Insert) → List Fill → List Trade → Report × List Trade
  unfolding process_all
  reconcile_fills_from_hl fold now insert fills table = elim (oids fills) [
    | [] ↦ ((begin fills [] table).report, table)
    | o ∷ os ↦
        let p = process_all fold now insert fills (begin fills (o ∷ os) table) in
        (p.report, table ++ p.rows)
  ]
