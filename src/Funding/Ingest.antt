-- ===== src/Funding/Ingest.antt =====
-- engine/funding.py: `parse_event`, `_ingest_page` and the page loop of `ingest_funding`. The state
-- is the stored payments, the keys seen in this run and the counts of the report. A fetch may fail
-- and end the run; an insert that fails, which ends it too, is left out.
pub mod Once
pub mod Paging
use xupertrade.Float.{Floats, Number, ◌⊕◌}
use xupertrade.Funding.{
  FundingEvent, Key, Payment, Position, Raw, attribute, from_ms, get_funding_event_keys,
  get_positions_covering, has_key, insert_funding_payments, key, payment_key, to_ms,
}
use xupertrade.Portfolio.Accounting.{counted}
use xupertrade.Prelude.{
  Bool, List, Option, String, [], false, if◌then◌else◌, leb, length, ltb, map, none, not, some, suc,
  true, zero, ℕ, ◌++◌, ◌+◌, ◌==◌, ◌||◌, ◌∷◌,
}
use xupertrade.Prelude.Int.{negsuc, pos, ℤ}
use xupertrade.Reconcile.Backfill.{stored}

module _ ⦃N : Floats⦄ where
  pub record IngestResult : Type 0 where
    pub pages : ℕ
    pub events : ℕ
    pub skipped : ℕ
    pub new : ℕ
    pub total_usdc : Number
    pub new_usdc : Number
    pub unattributed_new : ℕ
    pub newest : Option ℕ
    pub complete : Bool

  pub record Ingest : Type 0 where
    pub table : List Payment
    pub seen : List Key
    pub result : IngestResult

  -- What parsing a record needs of Python and of the columns.
  pub record Column : Type 0 where
    pub finite : Number → Bool
    pub len : String → ℕ
    -- whether a datetime can hold the time; otherwise `from_ms` raises
    pub in_range : ℕ → Bool

  abbrev opt_float : Column → Option Number → Option Number
  opt_float c none = none
  opt_float c (some x) = if c.finite x then some x else none

  -- ts_ms > 0
  abbrev positive_ms : ℤ → Option ℕ
  positive_ms (pos ms) = if ltb 0 ms then some ms else none
  positive_ms (negsuc ms) = none

  abbrev event_at : Column → Raw → Option ℕ → Option FundingEvent
  event_at c r none = none
  event_at c r (some ms) =
      if not (c.in_range ms)
      then none
      else some record {
        ts = from_ms ms;
        coin = r.coin;
        usdc = r.usdc;
        szi = opt_float c r.szi;
        funding_rate = opt_float c r.funding_rate;
        hash = if leb (c.len r.hash) 80 then r.hash else "";
      }

  -- none: a conversion raises
  unfoldable pub parse_event : Column → Option Raw → Option FundingEvent
  parse_event c none = none
  parse_event c (some r) =
      if not (r.kind == "funding")
      then none
      else if r.coin == "" || (ltb 16 (c.len r.coin) || not (c.finite r.usdc))
      then none
      else event_at c r (positive_ms r.time)

  -- The first loop of `_ingest_page`.
  pub record Scan : Type 0 where
    pub keys : List Key
    pub found : List FundingEvent
    pub unreadable : ℕ
    pub newest_ms : ℕ

  abbrev pub max_ℕ : ℕ → ℕ → ℕ
  max_ℕ a b = if ltb a b then b else a

  abbrev min_ℕ : ℕ → ℕ → ℕ
  min_ℕ a b = if ltb b a then b else a

  abbrev pub scan_event : Scan → Option FundingEvent → Scan
  scan_event s none = record s { unreadable = suc s.unreadable }
  scan_event s (some e) =
      let later = record s { newest_ms = max_ℕ s.newest_ms (to_ms e.ts) } in
      if has_key (key e) s.keys
      then later
      else record later { keys = key e ∷ s.keys; found = s.found ++ e ∷ [] }

  pub scan : Column → List (Option Raw) → Scan → Scan
  unfolding parse_event
  scan c [] s = s
  scan c (r ∷ rs) s = scan c rs (scan_event s (parse_event c r))

  abbrev first_ts : FundingEvent → List FundingEvent → ℕ
  first_ts e [] = e.ts
  first_ts e (f ∷ fs) = min_ℕ e.ts (first_ts f fs)

  abbrev last_ts : FundingEvent → List FundingEvent → ℕ
  last_ts e [] = e.ts
  last_ts e (f ∷ fs) = max_ℕ e.ts (last_ts f fs)

  abbrev strategy_of : Option Position → Option String
  strategy_of none = none
  strategy_of (some p) = some p.strategy_name

  abbrev pub payment_of : List Position → FundingEvent → Payment
  unfolding attribute
  payment_of positions e = record {
    timestamp = e.ts;
    hash = e.hash;
    coin = e.coin;
    usdc = e.usdc;
    szi = e.szi;
    funding_rate = e.funding_rate;
    strategy_name = strategy_of (attribute positions e);
  }

  abbrev pub read_event : IngestResult → FundingEvent → IngestResult
  read_event r e = record r { events = suc r.events; total_usdc = r.total_usdc ⊕ e.usdc }

  abbrev count_read : IngestResult → List FundingEvent → IngestResult
  count_read r [] = r
  count_read r (e ∷ es) = count_read (read_event r e) es

  abbrev orphan : Option String → ℕ
  orphan none = 1
  orphan (some name) = 0

  abbrev pub count_row : IngestResult → Payment → IngestResult
  count_row r row = record r {
    new = suc r.new;
    new_usdc = r.new_usdc ⊕ row.usdc;
    unattributed_new = r.unattributed_new + orphan row.strategy_name;
  }

  -- The last loop of `_ingest_page`.
  abbrev pub count_new : List Key → IngestResult → List Payment → IngestResult
  count_new new_keys r [] = r
  count_new new_keys r (row ∷ rows) =
      count_new new_keys (if has_key (payment_key row) new_keys then count_row r row else r) rows

  -- A set of keys less another.
  abbrev drop_keys : List Key → List Key → List Key
  drop_keys gone [] = []
  drop_keys gone (k ∷ ks) =
      let rest = drop_keys gone ks in if has_key k gone then rest else k ∷ rest

  abbrev coin_of : FundingEvent → String
  coin_of e = e.coin

  abbrev page_limit : Option ℕ → ℕ → Bool
  page_limit none pages = false
  page_limit (some most) pages = leb most pages

  abbrev store_rows : Bool → ℕ → ℕ → List Payment → List Payment → List Payment × List Key
  unfolding insert_funding_payments get_funding_event_keys
  store_rows true lo hi rows table = insert_funding_payments rows table
  store_rows false lo hi rows table =
      (table, drop_keys (get_funding_event_keys lo hi table) (map payment_key rows))

  abbrev newest_of : Option ℕ → ℕ → Option ℕ
  newest_of none hi = some hi
  newest_of (some t) hi = some (max_ℕ t hi)

  -- The rest of `_ingest_page`, over the events that were found.
  abbrev keep_page : Bool → List Position → List FundingEvent → Ingest → Ingest
  unfolding store_rows payment_of get_positions_covering
  keep_page apply positions [] st = st
  keep_page apply positions (e ∷ es) st =
      let lo = first_ts e es in
      let hi = last_ts e es in
      let covering = get_positions_covering (map coin_of (e ∷ es)) lo hi positions in
      let rows = map (payment_of covering) (e ∷ es) in
      let stored = store_rows apply lo hi rows st.table in
      let counted = count_new stored.1 (count_read st.result (e ∷ es)) rows in
      record st {
        table = stored.0;
        result = record counted { newest = newest_of counted.newest hi };
      }

  pub ingest_page : Column → List Position → Bool → List (Option Raw) → Ingest → Ingest × ℕ
  unfolding scan keep_page
  ingest_page c positions apply page st =
      let s = scan c page (record { keys = st.seen; found = []; unreadable = 0; newest_ms = 0 }) in
      let skipped = record st {
        seen = s.keys;
        result = record st.result { skipped = st.result.skipped + s.unreadable };
      } in
      (keep_page apply positions s.found skipped, s.newest_ms)

  -- How a run ends: HL has no more, a request raises, paging stops early, the fuel is spent.
  pub data End : Type 0 where
    done failed incomplete ran_out : End

  pub data Step : Type 0 where
    stop : End → Step
    go_on : Step

  -- The tests after a page of that many records, up to the next cursor.
  pub next_step : Option ℕ → ℕ → ℕ → ℕ → ℕ → Step
  next_step max_pages pages size cursor newest =
      if ltb size 500
      then stop done
      else if leb newest cursor
      then stop incomplete
      else if page_limit max_pages pages
      then stop incomplete
      else go_on

  abbrev end_run : End → Ingest → Ingest
  end_run incomplete st = record st { result = record st.result { complete = false } }
  end_run done st = st
  end_run failed st = st
  end_run ran_out st = st

  module _ (c : Column) (positions : List Position) (apply : Bool) (max_pages : Option ℕ)
      (fetch : ℕ → ℕ → Option (List (Option Raw))) where
    abbrev pub read_page : List (Option Raw) → Ingest → Ingest × ℕ
    unfolding ingest_page
    read_page page st =
        ingest_page c positions apply page
          (record st { result = record st.result { pages = suc st.result.pages } })

    -- The rest of the run is the first argument.
    abbrev pub on_step : (ℕ → Ingest → Ingest × End) → Ingest × ℕ → Step → Ingest × End
    on_step rest out (stop how) = (end_run how out.0, how)
    on_step rest out go_on = rest out.1 out.0

    abbrev pub on_answer :
        (ℕ → Ingest → Ingest × End) → ℕ → Ingest → Option (List (Option Raw)) → Ingest × End
    unfolding next_step read_page
    on_answer rest cursor st none = (st, failed)
    on_answer rest cursor st (some []) = (st, done)
    on_answer rest cursor st (some (r ∷ rs)) =
        let out = read_page (r ∷ rs) st in
        on_step rest out (next_step max_pages out.0.result.pages (length (r ∷ rs)) cursor out.1)

    -- The first number of a fetch is how many pages came before it.
    pub ingest_funding : ℕ → ℕ → Ingest → Ingest × End
    unfolding on_answer
    ingest_funding zero cursor st = (st, ran_out)
    ingest_funding (suc fuel) cursor st =
        on_answer (ingest_funding fuel) cursor st (fetch st.result.pages cursor)
