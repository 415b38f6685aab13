-- ===== src/Repository/Reconciler.antt =====
-- repo.py: `reconcile_positions`. The answers of the exchange are arguments, none where it raises;
-- reads of the database answer. An entry of a report is a constructor instead of its text.
pub mod Orphans
pub mod Run
use xupertrade.Dict.{Dict, insert, lookup}
use xupertrade.Exchange.{Order, Position, Side, same_side}
use xupertrade.Float.{Floats, Number}
use xupertrade.Prelude.{
  Bool, List, Option, String, [], contains, eqb, false, if◌then◌else◌, ltb, none, not, some, true,
  ℕ, ◌++◌, ◌==◌, ◌||◌, ◌∷◌,
}
use xupertrade.Repository.{Database, Row}
use xupertrade.Repository.Closing.{
  OrphanClosePrice, Pricing, Surroundings, close_row_priced, orphan_close, price_orphan_close,
  to_epoch_ms,
}

pub data Kind : Type 0 where
  orphan wrong_side : Kind

-- Why an orphan is not closed.
pub data HoldReason : Type 0 where
  told : Option String → HoldReason
  not_traded : HoldReason
  several : ℕ → HoldReason
  unconfirmed : HoldReason

-- `if hold_orphans:`
abbrev pub is_told : Option String → Bool
is_told none = false
is_told (some why) = not (why == "")

unfoldable pub orphan_hold_reason : String → ℕ → Option String → List String → Option HoldReason
orphan_hold_reason symbol traded_count hold_orphans traded_symbols =
    if is_told hold_orphans
    then some (told hold_orphans)
    else if not (contains symbol traded_symbols)
    then some not_traded
    else if ltb 1 traded_count
    then some (several traded_count)
    else none

module _ ⦃N : Floats⦄ where
  -- A failed close carries the order, if the exchange answered one. `hold_set_note` is the runner's:
  -- the hold was set for these coins.
  pub data Note : Type 0 where
    closed_row_note : Kind → Row → OrphanClosePrice → Note
    paused_note : Kind → Row → Note
    unpriceable_note : Row → Note
    held_note : Position → HoldReason → Note
    close_failed_note : Position → Option Order → Note
    unbooked_note : Position → Order → Note
    closed_orphan_note : Position → Order → Note
    hold_set_note : List String → Note

  pub record ReconcileResult : Type 0 where
    pub actions : List Note
    pub failures : List Note
    -- true: the confirming read failed; false: the first
    pub skipped : Option Bool
    pub db_open : ℕ
    pub exchange_open : ℕ
    pub held_orphans : List String
    pub unresolved_orphans : List String

  abbrev pub is_nonempty {ℓ} : {A : Type ℓ} → List A → Bool
  is_nonempty [] = false
  is_nonempty (x ∷ l) = true

  unfoldable pub took_action : ReconcileResult → Bool
  took_action r = is_nonempty r.actions || is_nonempty r.failures

  abbrev pub new_result : ReconcileResult
  new_result = record {
    actions = [];
    failures = [];
    skipped = none;
    db_open = 0;
    exchange_open = 0;
    held_orphans = [];
    unresolved_orphans = [];
  }

  -- The three reads of the positions, and the answer to a reduce-only market order.
  pub record Exchange : Type 0 where
    pub first_read : Option (List Position)
    pub second_read : Option (List Position)
    pub orphan_read : Option (List Position)
    pub send_order : String → Side → Number → Option Order

  pub record Options : Type 0 where
    pub close_exchange_orphans : Bool
    pub dry_run : Bool
    pub hold_orphans : Option String
    pub traded_symbols : List String

  -- The pass so far: the tables, the orders sent, the report, and the calls of
  -- `on_strategy_close` to make.
  pub record Progress : Type 0 where
    pub db : Database
    pub sent : List (String × Side × Number)
    pub result : ReconcileResult
    pub closed : List (String × Number)

  abbrev pub fail : Note → Progress → Progress
  fail note p = record p { result = record p.result { failures = p.result.failures ++ note ∷ [] } }

  abbrev pub act : Note → Progress → Progress
  act note p = record p { result = record p.result { actions = p.result.actions ++ note ∷ [] } }

  -- {p.symbol: p for p in positions}
  abbrev add_position : List Position → Dict Position → Dict Position
  add_position [] d = d
  add_position (p ∷ l) d = add_position l (insert p.symbol p d)

  abbrev pub by_symbol : List Position → Dict Position
  by_symbol l = add_position l []

  abbrev or_empty : Option (List Row) → List Row
  or_empty none = []
  or_empty (some l) = l

  -- db_by_symbol.setdefault(p.symbol, []).append(p)
  abbrev add_row : List Row → Dict (List Row) → Dict (List Row)
  add_row [] d = d
  add_row (r ∷ l) d = add_row l (insert r.symbol (or_empty (lookup r.symbol d) ++ r ∷ []) d)

  abbrev pub rows_by_symbol : List Row → Dict (List Row)
  rows_by_symbol l = add_row l []

  -- One coin's rows that its position does not back.
  unfoldable pub classify_rows : List Row → Option Position → List (Row × Kind)
  classify_rows [] position = []
  classify_rows (r ∷ l) none = (r, orphan) ∷ classify_rows l none
  classify_rows (r ∷ l) (some p) =
      let rest = classify_rows l (some p) in
      if same_side r.side p.side then rest else (r, wrong_side) ∷ rest

  unfoldable pub classify_closes : Dict (List Row) → Dict Position → List (Row × Kind)
  unfolding classify_rows
  classify_closes [] ex = []
  classify_closes ((symbol, rows) ∷ d) ex =
      classify_rows rows (lookup symbol ex) ++ classify_closes d ex

  -- Step 3, and the first half of step 4: what becomes of the candidates.
  abbrev pub note_paused : List (Row × Kind) → Progress → Progress
  note_paused [] p = p
  note_paused ((r, kind) ∷ l) p = note_paused l (fail (paused_note kind r) p)

  -- min((... or 0) ...) or None
  abbrev or_0 : Option ℕ → ℕ
  or_0 none = 0
  or_0 (some t) = t

  abbrev opened : Row → ℕ
  opened r = or_0 (to_epoch_ms r.opened_at)

  abbrev earliest : ℕ → List (Row × Kind) → ℕ
  earliest t [] = t
  earliest t ((r, _) ∷ l) = earliest (if ltb (opened r) t then opened r else t) l

  abbrev since_of : List (Row × Kind) → Option ℕ
  since_of [] = none
  since_of ((r, _) ∷ l) = let t = earliest (opened r) l in if eqb t 0 then none else some t

  abbrev Planned : Type 0
  Planned = Row × Kind × OrphanClosePrice

  abbrev plan :
      Row → Kind → Option OrphanClosePrice → List Planned × Progress → List Planned × Progress
  plan r kind none (planned, p) = (planned, fail (unpriceable_note r) p)
  plan r kind (some priced) (planned, p) = (planned ++ (r, kind, priced) ∷ [], p)

  -- Step 4.
  unfoldable pub price_all :
      Surroundings → List (Row × Kind) → Pricing → List Planned × Progress → List Planned × Progress
  unfolding price_orphan_close
  price_all env [] pricing acc = acc
  price_all env ((r, kind) ∷ l) pricing acc =
      let (next, priced) = price_orphan_close env orphan_close r pricing in
      price_all env l next (plan r kind priced acc)

  -- One round of step 5.
  abbrev note_closed : Kind → OrphanClosePrice → Database × Option Row → Progress → Progress
  note_closed kind priced (changed, none) p = p
  note_closed kind priced (changed, some r) p =
      act (closed_row_note kind r priced)
        (record p { db = changed; closed = p.closed ++ (r.strategy_name, priced.pnl) ∷ [] })

  unfoldable pub apply_all : String → Surroundings → List Planned → Progress → Progress
  unfolding close_row_priced
  apply_all mode env [] p = p
  apply_all mode env ((r, kind, priced) ∷ l) p =
      apply_all mode env l (note_closed kind priced (close_row_priced mode env r.id priced p.db) p)

  -- Step 5, none where the commit raises out of the pass.
  unfoldable pub close_planned : String → Surroundings → List Planned → Progress → Option Progress
  unfolding apply_all
  close_planned mode env [] p = some p
  close_planned mode env (c ∷ cs) p =
      let closed = apply_all mode env (c ∷ cs) (record p { db = env.others p.db }) in
      if env.commits then some closed else none
