-- ===== src/Tests/Pages.antt =====
-- engine/funding.py, on whole numbers.
use xupertrade.Float.Whole.{whole_floats}
use xupertrade.Funding.{
  FundingEvent, Position, Raw, attribute, from_ms, get_positions_covering, to_ms,
}
use xupertrade.Funding.Attribution.{attribute-get_positions_covering}
use xupertrade.Funding.Ingest.{Column, Ingest, ingest_funding, parse_event}
use xupertrade.Funding.Ingest.Once.{ingest_funding-new}
use xupertrade.Funding.Ingest.Paging.{AnswersUpTo, NoLater, ended, ingest_funding-ends}
use xupertrade.Prelude.{
  List, Option, String, [], arith, false, length, none, refl, some, subst, suc, true, zero, ℕ, ◌+◌,
  ◌∷◌, ◌≡◌,
}
use xupertrade.Prelude.Int.{pos}

abbrev column : Column
column = record { finite = λ x. true; len = λ t. 3; in_range = λ ms. true }

abbrev paid : FundingEvent
paid = record {
  ts = 5000;
  coin = "BTC";
  usdc = pos 1;
  szi = some (pos 2);
  funding_rate = none;
  hash = "";
}

abbrev held : String → Position
held coin = record {
  strategy_name = "trend";
  symbol = coin;
  side = "long";
  opened_at = some 1000;
  closed_at = some 9000;
  is_open = false;
}

attribute-get_positions_covering_example :
    attribute (get_positions_covering ("BTC" ∷ []) 4000 6000 (held "ETH" ∷ held "BTC" ∷ [])) paid
    ≡ attribute (held "ETH" ∷ held "BTC" ∷ []) paid
attribute-get_positions_covering_example =
    attribute-get_positions_covering ("BTC" ∷ []) 4000 6000 (held "ETH" ∷ held "BTC" ∷ []) paid refl
      (omega arith) (omega arith)

abbrev raw_event : Raw
raw_event = record {
  kind = "funding";
  coin = "BTC";
  time = pos 5;
  usdc = pos 1;
  szi = some (pos 2);
  funding_rate = none;
  hash = "";
}

-- HL answers the event twice on the first page, and nothing after it.
abbrev answers : ℕ → ℕ → Option (List (Option Raw))
answers zero cursor = some (some raw_event ∷ some raw_event ∷ none ∷ [])
answers (suc i) cursor = some []

abbrev start : Ingest
start = record {
  table = [];
  seen = [];
  result = record {
    pages = 0;
    events = 0;
    skipped = 0;
    new = 0;
    total_usdc = pos 0;
    new_usdc = pos 0;
    unattributed_new = 0;
    newest = none;
    complete = true;
  };
}

-- No event of an answer is later than 5 ms.
abbrev Fits : Option (List (Option Raw)) → Type 0
Fits none = Unit
Fits (some page) = NoLater column [] true none answers 5 page

first-Fits : Fits (answers 0 0)
unfolding parse_event to_ms from_ms
first-Fits = (omega arith, (omega arith, (omega arith, tt)))

answers-Fits : (i cursor : ℕ) → Fits (answers i cursor)
answers-Fits zero cursor = first-Fits
answers-Fits (suc i) cursor = tt

answers_up_to : AnswersUpTo column [] true none answers 5
answers_up_to i cursor page e = subst Fits e (answers-Fits i cursor)

ingest_funding-ends_example :
    ended column [] true none answers (ingest_funding column [] true none answers 6 0 start).1
    ≡ true
ingest_funding-ends_example =
    ingest_funding-ends column [] true none answers 5 6 0 start answers_up_to (omega arith)
      (omega arith)

ingest_funding-new_example :
    (ingest_funding column [] true none answers 6 0 start).0.result.new + 0
    ≡ 0 + length (ingest_funding column [] true none answers 6 0 start).0.table
ingest_funding-new_example = ingest_funding-new column [] none answers 6 0 start
