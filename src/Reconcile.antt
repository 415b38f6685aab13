-- ===== src/Reconcile.antt =====
-- bot/hypertrade/reconcile/fills.py: the exchange's fill records, and what is read off them.
pub mod Ledger
pub mod Backfill
use xupertrade.Exchange.{PositionSide, is_long}
use xupertrade.Float.{Floats, Number, ◌⊖◌, ◌⊗◌}
use xupertrade.Funding.{key}
use xupertrade.Prelude.{
  Bool, List, Option, String, [], contains, false, filter, if◌then◌else◌, leb, none, not, some,
  true, ℕ, ◌&&◌, ◌==◌, ◌||◌, ◌∷◌,
}

module _ ⦃N : Floats⦄ where
  -- One raw fill. `float` and `int` are Python's: a field is none where they raise. A missing or
  -- zero `time` is 0. An id is its `str`, none where it is missing.
  pub record Fill : Type 0 where
    pub coin : String
    pub side : String
    pub time : Option ℕ
    pub sz : Option Number
    pub px : Option Number
    pub fee : Option Number
    -- the outer `none`: not given, or an empty text
    pub closed_pnl : Option (Option Number)
    pub oid : Option String
    pub tid : Option String

  -- `value not in (None, "")`
  abbrev not_empty : Option String → Option String
  not_empty none = none
  not_empty (some v) = if v == "" then none else some v

  -- `_fill_order_id`: the first of `oid` and `tid` that is there and not empty.
  abbrev first_id : Option String → Option String → Option String
  first_id none t = not_empty t
  first_id (some o) t = if o == "" then not_empty t else some o

  unfoldable pub fill_order_id : Fill → Option String
  fill_order_id f = first_id f.oid f.tid

  -- The order side that reduces a position: "sell" a long, "buy" anything else.
  unfoldable pub closing_side : PositionSide → String
  closing_side side = if is_long side then "sell" else "buy"

  -- `fold` is `strip().upper()` of Python's texts.
  unfoldable pub normalize_side : (String → String) → String → String
  normalize_side fold raw =
      let s = fold raw in
      if s == "B" || s == "BUY"
      then "buy"
      else if s == "A" || (s == "S" || s == "SELL")
      then "sell"
      else raw

  -- `oid in excluded`
  abbrev pub is_excluded : Option String → List String → Bool
  is_excluded none excluded = false
  is_excluded (some o) excluded = contains o excluded

  abbrev pub not_before : Option ℕ → ℕ → Bool
  not_before none ts = true
  not_before (some since) ts = leb since ts

  -- The test of the loop of `select_closing_fills`.
  closes : (String → String) → String → PositionSide → Option ℕ → List String → Fill → Bool
  unfolding closing_side normalize_side fill_order_id
  closes fold symbol side since excluded f =
      f.coin == symbol
      && (normalize_side fold f.side == closing_side side
          && (not (is_excluded (fill_order_id f) excluded)
              && elim f.time [ none ↦ false | some ts ↦ not_before since ts ]))

  abbrev time_or_zero : Option ℕ → ℕ
  time_or_zero none = 0
  time_or_zero (some t) = t

  -- `list.sort(key=...)`, which is stable.
  insert_by {ℓ} : {A : Type ℓ} → (A → ℕ) → A → List A → List A
  insert_by key a [] = a ∷ []
  insert_by key a (b ∷ l) = if leb (key a) (key b) then a ∷ b ∷ l else b ∷ insert_by key a l

  pub sort_by {ℓ} : {A : Type ℓ} → (A → ℕ) → List A → List A
  unfolding insert_by
  sort_by key [] = []
  sort_by key (a ∷ l) = insert_by key a (sort_by key l)

  pub select_closing_fills :
      (String → String) → List Fill → String → PositionSide → Option ℕ → List String → List Fill
  unfolding closes sort_by
  select_closing_fills fold fills symbol side since excluded =
      sort_by (λ f. time_or_zero f.time) (filter (closes fold symbol side since excluded) fills)

  -- `realized_pnl`, from the position's side
  unfoldable pub realized_pnl : PositionSide → Number → Number → Number → Number → Number
  realized_pnl side entry_price exit_price size fee =
      (if is_long side
        then (exit_price ⊖ entry_price) ⊗ size
        else (entry_price ⊖ exit_price) ⊗ size)
      ⊖ fee
