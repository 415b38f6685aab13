-- ===== src/Tests/Fills.antt =====
-- fills.py, on whole numbers.
use xupertrade.Exchange.{PositionSide}
use xupertrade.Float.Whole.{whole_exact, whole_floats}
use xupertrade.Prelude.{Distinct, List, String, [], arith, none, some, ◌++◌, ◌∷◌, ◌≡◌}
use xupertrade.Prelude.Int.{pos, ◌+ℤ◌}
use xupertrade.Reconcile.{Fill}
use xupertrade.Reconcile.Backfill.{Insert, Trade, reconcile_fills_from_hl}
use xupertrade.Reconcile.Backfill.Rows.{ids, reconcile_fills_from_hl-Distinct}
use xupertrade.Reconcile.Ledger.{Entry, FillLedger, take_fills}
use xupertrade.Reconcile.Ledger.Coverage.{Covers, take_fills-Covers}
use xupertrade.Reconcile.Ledger.History.{AllUsed, Ask, handed_out, take_all, take_all-AllUsed}
use xupertrade.Reconcile.Ledger.Spending.{unspent}

abbrev entry : Entry
entry = record {
  coin = "BTC";
  side = "sell";
  time_ms = 5;
  price = pos 100;
  fee = pos 4;
  size = pos 4;
  remaining = pos 4;
  order_id = some "a";
}

abbrev fills_ledger : FillLedger
fills_ledger = record {
  entries = entry ∷ record entry { time_ms = 6; remaining = pos 3; order_id = some "b" } ∷ [];
  excluded_count = 0;
  usable_count = 2;
}

-- The second take finds only the rest of the later fill.
abbrev asks : List Ask
asks =
    record { symbol = "BTC"; side = PositionSide.long; size = pos 5; since = none }
    ∷ record { symbol = "BTC"; side = PositionSide.long; size = pos 2; since = some 6 }
    ∷ record { symbol = "BTC"; side = PositionSide.long; size = pos 1; since = none }
    ∷ []

take_all-AllUsed_example :
    AllUsed whole_exact fills_ledger.entries (take_all asks fills_ledger).0.entries
    × (unspent whole_exact (take_all asks fills_ledger).0.entries
          +ℤ handed_out whole_exact (take_all asks fills_ledger).1
        ≡ unspent whole_exact fills_ledger.entries)
take_all-AllUsed_example = take_all-AllUsed whole_exact asks fills_ledger

take_fills-Covers_example :
    Covers whole_exact
      (omega arith)
      (pos 5)
      (take_fills "BTC" PositionSide.long (pos 5) none fills_ledger).1
take_fills-Covers_example =
    take_fills-Covers whole_exact (omega arith) "BTC" PositionSide.long (pos 5) none fills_ledger

abbrev raw_fill : String → Fill
raw_fill oid = record {
  coin = "BTC";
  side = "A";
  time = some 5;
  sz = some (pos 4);
  px = some (pos 100);
  fee = some (pos 1);
  closed_pnl = none;
  oid = some oid;
  tid = none;
}

abbrev fills : List Fill
fills = raw_fill "a" ∷ raw_fill "b" ∷ raw_fill "a" ∷ []

-- The texts of these fills are upper case and trimmed already.
abbrev as_is : String → String
as_is t = t

-- Every insert lands with the row id 1.
abbrev lands : Trade → Insert
lands row = Insert.stored (some 1)

reconcile_fills_from_hl-Distinct_example :
    let (_, table) = reconcile_fills_from_hl as_is 9 lands fills [] in
    Distinct (ids table) × ((rows : List Trade) × (table ≡ [] ++ rows))
reconcile_fills_from_hl-Distinct_example =
    reconcile_fills_from_hl-Distinct as_is 9 lands fills [] tt
