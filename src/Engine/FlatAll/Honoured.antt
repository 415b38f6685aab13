-- ===== src/Engine/FlatAll/Honoured.antt =====
-- runner.py and control.py together: when a flat-all request is acknowledged.
use xupertrade.Control.{BotControl, get_pending_flat_request}
use xupertrade.Engine.FlatAll.{
  Flat, FlatAllStatus, Scene, begin, book_close, close_without_row, finish_flat, flat_all_positions,
  flat_read, flatten, flatten_all, honour_flat_all, honour_pending, on_answer, rowless,
  rowless_trade, rows_on, tally,
}
use xupertrade.Engine.FlatAll.Shared.{SameCounts, close_rows-SameCounts}
use xupertrade.Exchange.{Order, Position, Side, buy, is_long, sell}
use xupertrade.Float.{Floats, Number}
use xupertrade.Portfolio.{Portfolio}
use xupertrade.Prelude.{
  Bool, List, Option, String, [], ap, append-nil, append_assoc, arith, false, if-cases,
  if◌then◌else◌, is_some, length, map, none, refl, some, sym, true, ◌++◌, ◌+◌, ◌∙◌, ◌∷◌, ◌≡◌,
}
use xupertrade.Repository.{Database, Row, record_trade}
use xupertrade.Repository.Reconciler.Orphans.{is_filled}

module _ ⦃N : Floats⦄ where
  rowless-SameCounts :
      (sc : Scene) (p : Position) (order : Order) (s : Flat) (written : Option Database)
      → SameCounts s (rowless sc p order s written).0
  rowless-SameCounts sc p order s none = (refl, refl, refl)
  rowless-SameCounts sc p order s (some db) = (refl, refl, refl)

  book_close-SameCounts :
      (sc : Scene) (p : Position) (order : Order) (rows : List Row) (s : Flat)
      → SameCounts s (book_close sc p order rows s).0
  unfolding close_without_row
  book_close-SameCounts sc p order [] s = rowless-SameCounts sc p order s (
      if sc.has_repo
      then record_trade sc.mode sc.db_commits (rowless_trade sc p order) s.db
      else some s.db)
  book_close-SameCounts sc p order (r ∷ l) s = close_rows-SameCounts sc p order (r ∷ l) s

  on_answer-SameCounts :
      (sc : Scene) (p : Position) (rows : List Row) (answer : Option Order) (s : Flat)
      → SameCounts s (on_answer sc p rows answer s).0
  on_answer-SameCounts sc p rows none s = (refl, refl, refl)
  on_answer-SameCounts sc p rows (some order) s =
      if-cases (λ (k : Flat × Bool). SameCounts s k.0) (is_filled order.status)
        (book_close sc p order rows s) (s, false)
        (λ complete. book_close-SameCounts sc p order rows s) (λ rest. (refl, refl, refl))

  -- One position is counted once, as closed or as failed.
  tally-counts :
      (s : Flat) (k : Flat × Bool)
      → SameCounts s k.0
      → ((tally k).closed_count + (tally k).failed_count ≡ s.closed_count + s.failed_count + 1)
        × ((tally k).sent ≡ s.sent)
  tally-counts s (t, true) h = (omega (arith, h.0, h.1), h.2)
  tally-counts s (t, false) h = (omega (arith, h.0, h.1), h.2)

  -- The orders that flatten the positions.
  abbrev pub closing_order : Position → String × Side × Number
  closing_order p = (p.symbol, if is_long p.side then sell else buy, p.size)

  flatten_all-counts :
      (sc : Scene) (l : List Position) (s : Flat)
      → ((flatten_all sc l s).closed_count + (flatten_all sc l s).failed_count
          ≡ s.closed_count + s.failed_count + length l)
        × ((flatten_all sc l s).sent ≡ s.sent ++ map closing_order l)
  unfolding flatten_all flatten
  flatten_all-counts sc [] s = (omega arith, sym (append-nil s.sent))
  flatten_all-counts sc (p ∷ l) s =
      let asked : Flat = record s { sent = s.sent ++ closing_order p ∷ [] } in
      let k =
        on_answer sc p (rows_on sc p s.db)
          (sc.order_answer p.symbol (if is_long p.side then sell else buy) p.size) asked in
      let one = tally-counts asked k (
        on_answer-SameCounts sc p (rows_on sc p s.db)
          (sc.order_answer p.symbol (if is_long p.side then sell else buy) p.size) asked) in
      let rest = flatten_all-counts sc l (tally k) in
      (
        omega (arith, one.0, rest.0),
        rest.1
            ∙ ap (λ z. z ++ map closing_order l) one.1
            ∙ append_assoc s.sent (closing_order p ∷ []) (map closing_order l),
      )

  -- The positions were read, an order for its whole size was sent for each in turn, each was counted
  -- as closed, and none failed.
  abbrev FlattenedBy : Option (List Position) → Flat × FlatAllStatus → Type 0
  FlattenedBy read k =
      (positions : List Position) × (read ≡ some positions)
      × (k.0.sent ≡ map closing_order positions)
      × (k.1.closed ≡ length positions)
      × (k.1.failed ≡ 0)

  abbrev pub IsFlattened : Scene → Flat × FlatAllStatus → Type 0
  IsFlattened sc k = FlattenedBy sc.positions_read k

  flat_read-FlattenedBy :
      (sc : Scene) (db : Database) (portfolio : Portfolio) (read : Option (List Position))
      → (flat_read sc (begin db portfolio) read).1.ok ≡ true
      → FlattenedBy read (flat_read sc (begin db portfolio) read)
  flat_read-FlattenedBy sc db portfolio none good = cc
  flat_read-FlattenedBy sc db portfolio (some l) good =
      let counts = flatten_all-counts sc l (begin db portfolio) in
      (l, refl, counts.1, ground (arith, counts.0), ground arith)

  flat_all_positions-IsFlattened :
      (sc : Scene) (db : Database) (portfolio : Portfolio)
      → (flat_all_positions sc db portfolio).1.ok ≡ true
      → IsFlattened sc (flat_all_positions sc db portfolio)
  unfolding flat_all_positions
  flat_all_positions-IsFlattened sc db portfolio good =
      flat_read-FlattenedBy sc db portfolio sc.positions_read good

  -- A request that was pending and is not any more was finished by a good status.
  finish_flat-ok :
      (pause_lands acknowledged : Bool) (token : String) (k : Flat × FlatAllStatus) (c : BotControl)
      → get_pending_flat_request c ≡ some token
      → get_pending_flat_request (finish_flat pause_lands acknowledged token k c) ≡ none
      → k.1.ok ≡ true
  finish_flat-ok pause_lands acknowledged token (s, status) c asked gone =
      if-cases (λ (d : BotControl). get_pending_flat_request d ≡ none → status.ok ≡ true) status.ok
        _ c (λ good h. good) (λ bad h. cc) gone

  honour_pending-IsFlattened :
      (pause_lands acknowledged : Bool) (request : Option String) (sc : Scene) (db : Database)
      (portfolio : Portfolio) (c : BotControl)
      → get_pending_flat_request c ≡ request
      → is_some request ≡ true
      → get_pending_flat_request
          (honour_pending pause_lands acknowledged request sc db portfolio c).0
        ≡ none
      → IsFlattened sc (flat_all_positions sc db portfolio)
  honour_pending-IsFlattened pause_lands acknowledged none sc db portfolio c asked is_there gone =
      cc
  honour_pending-IsFlattened pause_lands acknowledged (some token) sc db portfolio c asked is_there
        gone =
      flat_all_positions-IsFlattened sc db portfolio (
        finish_flat-ok pause_lands acknowledged token (flat_all_positions sc db portfolio) c asked
          gone)

  -- When a request is pending before the tick's flat-all and not afterwards: the positions were
  -- read, an order for its whole size was sent for each in turn, as many closes were counted as
  -- there are positions, and none failed.
  pub honour_flat_all-IsFlattened :
      (pause_lands acknowledged : Bool) (sc : Scene) (db : Database) (portfolio : Portfolio)
      (c : BotControl)
      → is_some (get_pending_flat_request c) ≡ true
      → get_pending_flat_request (honour_flat_all pause_lands acknowledged sc db portfolio c).0
        ≡ none
      → IsFlattened sc (flat_all_positions sc db portfolio)
  unfolding honour_flat_all
  honour_flat_all-IsFlattened pause_lands acknowledged sc db portfolio c is_there gone =
      honour_pending-IsFlattened pause_lands acknowledged (get_pending_flat_request c) sc db
        portfolio c refl is_there gone
