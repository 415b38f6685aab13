-- ===== src/Funding.antt =====
-- engine/funding.py: funding events, their positions, and the paged ingest; with the three queries
-- of db/repo.py that it makes. Instants are microseconds since the epoch, so `as_utc` is the
-- identity. What HyperLiquid answers, `math.isfinite` and `len` of a text are arguments; the
-- per-coin and per-strategy sums of the report are left out.
pub mod Attribution
pub mod Ingest
use xupertrade.Float.{Floats, Number, nil, ◌≺◌}
use xupertrade.Prelude.{
  Bool, List, Option, String, [], contains, eqb, false, filter, if◌then◌else◌, leb, ltb, map, none,
  some, ℕ, ◌&&◌, ◌*◌, ◌++◌, ◌/◌, ◌==◌, ◌||◌, ◌∷◌,
}
use xupertrade.Prelude.Int.{ℤ}

unfoldable pub to_ms : ℕ → ℕ
to_ms value = value / 1000

unfoldable pub from_ms : ℕ → ℕ
from_ms ms = ms * 1000

-- (coin, milliseconds)
abbrev pub Key : Type 0
Key = String × ℕ

abbrev pub same_key : Key → Key → Bool
same_key a b = a.0 == b.0 && eqb a.1 b.1

abbrev pub has_key : Key → List Key → Bool
has_key k [] = false
has_key k (j ∷ js) = same_key j k || has_key k js

module _ ⦃N : Floats⦄ where
  pub record FundingEvent : Type 0 where
    pub ts : ℕ
    pub coin : String
    pub usdc : Number
    pub szi : Option Number
    pub funding_rate : Option Number
    pub hash : String

  abbrev pub key : FundingEvent → Key
  key e = (e.coin, to_ms e.ts)

  -- A `userFunding` record whose fields convert; `kind` and the texts have the code's defaults.
  pub record Raw : Type 0 where
    pub kind : String
    pub coin : String
    pub time : ℤ
    pub usdc : Number
    pub szi : Option Number
    pub funding_rate : Option Number
    pub hash : String

  -- The columns that the queries read.
  pub record Position : Type 0 where
    pub strategy_name : String
    pub symbol : String
    pub side : String
    pub opened_at : Option ℕ
    pub closed_at : Option ℕ
    pub is_open : Bool

  pub record Payment : Type 0 where
    pub timestamp : ℕ
    pub hash : String
    pub coin : String
    pub usdc : Number
    pub szi : Option Number
    pub funding_rate : Option Number
    pub strategy_name : Option String

  -- position.opened_at is not None and as_utc(position.opened_at) <= ts
  abbrev opened_by : Option ℕ → ℕ → Bool
  opened_by none ts = false
  opened_by (some at) ts = leb at ts

  abbrev closed_after : Option ℕ → Bool → ℕ → Bool
  closed_after none is_open ts = is_open
  closed_after (some at) is_open ts = ltb ts at

  abbrev pub covers : Position → ℕ → Bool
  covers p ts = opened_by p.opened_at ts && closed_after p.closed_at p.is_open ts

  -- The one element of a list that has just one.
  abbrev the_only : List Position → Option Position
  the_only [] = none
  the_only (p ∷ []) = some p
  the_only (p ∷ q ∷ ps) = none

  abbrev by_side : Option Number → List Position → Option Position
  by_side none covering = none
  by_side (some szi) covering =
      if N.eq szi nil
      then none
      else let side = if nil ≺ szi then "long" else "short" in
        the_only (filter (λ p. p.side == side) covering)

  abbrev choose : Option Number → List Position → Option Position
  choose szi [] = none
  choose szi (p ∷ []) = some p
  choose szi (p ∷ q ∷ ps) = by_side szi (p ∷ q ∷ ps)

  pub attribute : List Position → FundingEvent → Option Position
  attribute positions e = choose e.szi (filter (λ p. p.symbol == e.coin && covers p e.ts) positions)

  -- The query, over the rows of this tenant and mode in the order of opening.
  pub get_positions_covering : List String → ℕ → ℕ → List Position → List Position
  get_positions_covering coins start end rows =
      filter
        (λ p.
          contains p.symbol coins
          && (opened_by p.opened_at end && closed_after p.closed_at p.is_open start))
        rows

  abbrev pub payment_key : Payment → Key
  payment_key row = (row.coin, to_ms row.timestamp)

  -- Each row is inserted unless a row has its key; the keys that went in are returned.
  pub insert_funding_payments : List Payment → List Payment → List Payment × List Key
  insert_funding_payments [] table = (table, [])
  insert_funding_payments (row ∷ rows) table =
      let later = insert_funding_payments rows table in
      let added = insert_funding_payments rows (table ++ row ∷ []) in
      if has_key (payment_key row) (map payment_key table)
      then later
      else (added.0, payment_key row ∷ added.1)

  pub get_funding_event_keys : ℕ → ℕ → List Payment → List Key
  get_funding_event_keys start end table =
      map payment_key (filter (λ row. leb start row.timestamp && leb row.timestamp end) table)
