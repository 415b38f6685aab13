-- ===== src/Reconcile/Ledger.antt =====
-- fills.py: `_parse_entries`, `_consume` and `FillLedger`. The ledger's entries are shared with the
-- list that `take` filters out of them: what is spent on that list is put back in its place.
pub mod Spending
pub mod Coverage
pub mod Targets
pub mod History
use xupertrade.Exchange.{PositionSide}
use xupertrade.Float.{Floats, Number, max_f, min_f, nil, ◌≺◌, ◌≼◌, ◌⊕◌, ◌⊖◌, ◌⊗◌, ◌⊘◌}
use xupertrade.Prelude.{
  Bool, List, Option, String, [], false, filter, if◌then◌else◌, length, none, not, some, take, true,
  ℕ, ◌&&◌, ◌-◌, ◌==◌, ◌||◌, ◌∷◌,
}
use xupertrade.Reconcile.{
  Fill, closing_side, fill_order_id, is_excluded, normalize_side, not_before, sort_by,
}

module _ ⦃N : Floats⦄ where
  -- `_LedgerEntry`
  pub record Entry : Type 0 where
    pub coin : String
    pub side : String
    pub time_ms : ℕ
    pub price : Number
    pub fee : Number
    pub size : Number
    pub remaining : Number
    pub order_id : Option String

  -- `ClosingFillSummary`
  pub record Summary : Type 0 where
    pub price : Number
    pub size : Number
    pub fee : Number
    pub order_id : Option String

  -- `_COVER_EPS`
  abbrev pub cover_eps : Number
  cover_eps = N.decimal 1 12

  -- One fill as an entry, or none when a number in it is bad or its size or price is not positive.
  unfoldable pub parse_entry : (String → String) → Fill → Option Entry
  unfolding normalize_side fill_order_id
  parse_entry fold f = elim f.sz [
    | none ↦ none
    | some size ↦ elim f.px [
      | none ↦ none
      | some price ↦ elim f.fee [
        | none ↦ none
        | some fee ↦ elim f.time [
          | none ↦ none
          | some ts ↦
              if size ≼ nil || price ≼ nil
              then none
              else some (record {
                coin = f.coin;
                side = normalize_side fold f.side;
                time_ms = ts;
                price = price;
                fee = fee;
                size = size;
                remaining = size;
                order_id = fill_order_id f;
              })
        ]
      ]
    ]
  ]

  abbrev add_parsed : Option Entry → List Entry → List Entry
  add_parsed none l = l
  add_parsed (some e) l = e ∷ l

  collect : (String → String) → List Fill → List Entry
  unfolding parse_entry
  collect fold [] = []
  collect fold (f ∷ fs) = add_parsed (parse_entry fold f) (collect fold fs)

  pub parse_entries : (String → String) → List Fill → List Entry
  unfolding collect sort_by
  parse_entries fold fills = sort_by (λ e. e.time_ms) (collect fold fills)

  -- sum(e.remaining for e in entries), from the left, each addition rounded. From Python 3.12 on,
  -- `sum` of floats compensates for rounding.
  abbrev pub sum_remaining : List Entry → Number → Number
  sum_remaining [] acc = acc
  sum_remaining (e ∷ l) acc = sum_remaining l (acc ⊕ e.remaining)

  -- The variables of the loop of `_consume`.
  pub record Walk : Type 0 where
    pub remaining : Number
    pub notional : Number
    pub consumed : Number
    pub fee_total : Number
    pub order_id : Option String

  abbrev first_of_ids : Option String → Option String → Option String
  first_of_ids none o = o
  first_of_ids (some i) o = some i

  -- min(entry.remaining, remaining)
  abbrev pub take_of : Entry → Walk → Number
  take_of e w = min_f e.remaining w.remaining

  -- A round that takes from `e`.
  take_from : Entry → Walk → Walk
  take_from e w =
      let take = take_of e w in
      record {
        remaining = w.remaining ⊖ take;
        notional = w.notional ⊕ (e.price ⊗ take);
        consumed = w.consumed ⊕ take;
        fee_total = w.fee_total ⊕ (e.fee ⊗ (take ⊘ e.size));
        order_id = first_of_ids w.order_id e.order_id;
      }

  -- After the `break` nothing more is taken.
  abbrev nothing : List Entry → List (Option Number)
  nothing [] = []
  nothing (_ ∷ l) = none ∷ nothing l

  -- The loop: what is taken of each entry, none where the loop skips it or has ended.
  pub walk : List Entry → Walk → List (Option Number) × Walk
  unfolding take_from
  walk [] w = ([], w)
  walk (e ∷ l) w =
      let skipped = walk l w in
      let taken = walk l (take_from e w) in
      if w.remaining ≼ cover_eps
      then (none ∷ nothing l, w)
      else if e.remaining ≼ nil
      then (none ∷ skipped.0, skipped.1)
      else (some (take_of e w) ∷ taken.0, taken.1)

  -- `entry.remaining -= take` for each entry that was taken from.
  abbrev spend : Entry → Option Number → Entry
  spend e none = e
  spend e (some take) = record e { remaining = e.remaining ⊖ take }

  pub settle : List Entry → List (Option Number) → List Entry
  settle [] takes = []
  settle (e ∷ l) [] = e ∷ l
  settle (e ∷ l) (t ∷ takes) = spend e t ∷ settle l takes

  abbrev start : Number → Walk
  start size = record {
    remaining = size;
    notional = nil;
    consumed = nil;
    fee_total = nil;
    order_id = none;
  }

  abbrev summary_of : Walk → Summary
  summary_of w = record {
    price = w.notional ⊘ w.consumed;
    size = w.consumed;
    fee = w.fee_total;
    order_id = w.order_id;
  }

  -- max(size * 1e-9, _COVER_EPS)
  abbrev pub tolerance : Number → Number
  tolerance size = max_f (size ⊗ N.decimal 1 9) cover_eps

  -- The entries as they are left, and the summary.
  pub consume : List Entry → Number → Bool → List Entry × Option Summary
  unfolding walk settle
  consume entries size commit =
      if size ≼ nil
      then (entries, none)
      else if sum_remaining entries nil ≺ size ⊖ tolerance size
      then (entries, none)
      else let (takes, w) = walk entries (start size) in
        if w.consumed ≼ nil
        then (entries, none)
        else (if commit then settle entries takes else entries, some (summary_of w))

  pub record FillLedger : Type 0 where
    pub entries : List Entry
    pub excluded_count : ℕ
    pub usable_count : ℕ

  -- `FillLedger.__init__`
  pub new_ledger : (String → String) → List Fill → List String → FillLedger
  unfolding parse_entries
  new_ledger fold fills excluded =
      let parsed = parse_entries fold fills in
      let usable = filter (λ (e : Entry). not (is_excluded e.order_id excluded)) parsed in
      record {
        entries = usable;
        excluded_count = length parsed - length usable;
        usable_count = length usable;
      }

  -- The test of the comprehension of `take`.
  pub is_candidate : String → PositionSide → Option ℕ → Entry → Bool
  unfolding closing_side
  is_candidate symbol side since e =
      e.coin == symbol
      && (e.side == closing_side side && (nil ≺ e.remaining && not_before since e.time_ms))

  -- The candidates stand where they stood.
  pub put_back : (Entry → Bool) → List Entry → List Entry → List Entry
  put_back test [] changed = []
  put_back test (e ∷ l) [] = e ∷ l
  put_back test (e ∷ l) (c ∷ changed) =
      let next = put_back test l changed in
      let same = put_back test l (c ∷ changed) in if test e then c ∷ next else e ∷ same

  -- `FillLedger.take`
  pub take_fills :
      String → PositionSide → Number → Option ℕ → FillLedger → FillLedger × Option Summary
  unfolding consume is_candidate put_back
  take_fills symbol side size since ledger =
      let test = is_candidate symbol side since in
      let (left, summary) = consume (filter test ledger.entries) size true in
      (record ledger { entries = put_back test ledger.entries left }, summary)

  pub summarize_closing_fills : (String → String) → List Fill → Number → Option Summary
  unfolding consume parse_entries
  summarize_closing_fills fold fills size = (consume (parse_entries fold fills) size false).1
