-- ===== src/Engine/Opens.antt =====
-- runner.py: `_open_refusal`. A refusal is its category; the text with the live numbers is left out.
-- The family of a strategy, in the registry of the strategies, is an argument.
pub mod Exposure
pub mod OneSided
use xupertrade.Control.{BotControl}
use xupertrade.Exchange.{PositionSide, same_side}
use xupertrade.Float.{Floats, Number, nil, ◌≺◌, ◌⊕◌, ◌⊗◌, ◌⊘◌}
use xupertrade.Prelude.{
  Bool, List, Option, String, [], false, filter, if◌then◌else◌, is_some, ltb, none, not, some, ℕ,
  ◌&&◌, ◌==◌, ◌||◌, ◌∷◌,
}
use xupertrade.Repository.{Database, Row, get_open_positions}
use xupertrade.Repository.Reconciler.{is_nonempty}

-- The categories, in the order of the tests.
pub data Refusal : Type 0 where
  coin_held family_exposed opposite_side exposure_cap size_ceiling : Refusal

pub data Level : Type 0 where
  info warning : Level

pub level_of : Refusal → Level
level_of coin_held = info
level_of family_exposed = info
level_of opposite_side = warning
level_of exposure_cap = warning
level_of size_ceiling = warning

module _ ⦃N : Floats⦄ where
  pub record Signal : Type 0 where
    pub strategy_name : String
    pub symbol : String
    pub size : Option Number

  -- The settings that the refusal reads.
  pub record Caps : Type 0 where
    pub max_total_exposure_usd : Number
    pub signal_size_max_multiplier : Number
    pub max_position_size_usd : Number

  -- What the order would be.
  pub record Wanted : Type 0 where
    pub side : PositionSide
    pub size : Number
    pub current_price : Number
    pub leverage : Option ℕ

  abbrev pub rows_of_repo : String → Option Database → List Row
  rows_of_repo mode none = []
  rows_of_repo mode (some db) = get_open_positions mode none db

  -- [p for p in open_rows if p.strategy_name != ...], and those on the coin
  abbrev pub of_others : Signal → List Row → List Row
  of_others signal rows = filter (λ (r : Row). not (r.strategy_name == signal.strategy_name)) rows

  abbrev pub on_coin : Signal → List Row → List Row
  on_coin signal rows = filter (λ (r : Row). r.symbol == signal.symbol) rows

  abbrev is_family : Option String → Option String → Bool
  is_family none g = false
  is_family (some f) none = false
  is_family (some f) (some g) = f == g

  -- `if family:`
  abbrev named_family : Option String → Bool
  named_family none = false
  named_family (some f) = not (f == "")

  abbrev shares_family : (String → Option String) → Option String → List Row → Bool
  shares_family family mine [] = false
  shares_family family mine (r ∷ l) =
      is_family mine (family r.strategy_name) || shares_family family mine l

  -- The gates of `allow_multi_coin=False`.
  unfoldable pub multi_coin_gate :
      (String → Option String) → Bool → Signal → List Row → Option Refusal
  multi_coin_gate family allow_multi signal others =
      if allow_multi
      then none
      else if is_nonempty (on_coin signal others)
      then some coin_held
      else if named_family (family signal.strategy_name)
          && shares_family family (family signal.strategy_name) others
      then some family_exposed
      else none

  abbrev pub opposite : PositionSide → List Row → List Row
  opposite wanted rows = filter (λ (r : Row). not (same_side r.side wanted)) rows

  unfoldable pub opposite_gate : Signal → PositionSide → List Row → Option Refusal
  opposite_gate signal wanted others =
      if is_nonempty (opposite wanted (on_coin signal others)) then some opposite_side else none

  -- sum(size * entry_price), from the left, each addition rounded. From Python 3.12 on, `sum` of
  -- floats compensates for rounding.
  abbrev pub add_notional : List Row → Number → Number
  add_notional [] acc = acc
  add_notional (r ∷ l) acc = add_notional l (acc ⊕ (r.size ⊗ r.entry_price))

  abbrev pub is_own : Signal → Row → Bool
  is_own signal r = r.strategy_name == signal.strategy_name && r.symbol == signal.symbol

  abbrev pub not_own : Signal → List Row → List Row
  not_own signal rows = filter (λ (r : Row). not (is_own signal r)) rows

  unfoldable pub exposure_gate : Caps → Bool → Signal → Wanted → List Row → Option Refusal
  exposure_gate caps has_repo signal w rows =
      if has_repo && nil ≺ caps.max_total_exposure_usd
      then (if caps.max_total_exposure_usd
            ≺ (add_notional (not_own signal rows) nil ⊕ (w.size ⊗ w.current_price))
          then some exposure_cap
          else none)
      else none

  -- max(int(leverage or 1), 1)
  abbrev lever : Option ℕ → ℕ
  lever none = 1
  lever (some n) = if ltb n 1 then 1 else n

  abbrev ceiling_of : Caps → Wanted → Option Number → Option Refusal
  ceiling_of caps w none = none
  ceiling_of caps w (some asked) =
      if (caps.signal_size_max_multiplier ⊗ caps.max_position_size_usd)
        ≺ ((w.size ⊗ w.current_price) ⊘ N.decimal (lever w.leverage) 0)
      then some size_ceiling
      else none

  unfoldable pub ceiling_gate : Caps → Signal → Wanted → Option Refusal
  ceiling_gate caps signal w = ceiling_of caps w signal.size

  abbrev pub first_of : Option Refusal → Option Refusal → Option Refusal
  first_of none next = next
  first_of (some why) next = some why

  abbrev pub multi_flag : Option BotControl → Bool → Bool
  multi_flag none flag = false
  multi_flag (some c) flag = flag

  -- Without a repository there are no rows, and the gates that read them are left out. The flag is
  -- what `get_allow_multi_coin` answers.
  unfoldable pub open_refusal :
      String
      → (String → Option String)
      → Caps
      → Option BotControl
      → Bool
      → Signal
      → Wanted
      → Option Database
      → Option Refusal
  unfolding multi_coin_gate opposite_gate exposure_gate ceiling_gate get_open_positions
  open_refusal mode family caps control flag signal w repo =
      let rows = rows_of_repo mode repo in
      let others = of_others signal rows in
      let multi =
        if is_some repo
        then multi_coin_gate family (multi_flag control flag) signal others
        else none in
      first_of multi (
        first_of (opposite_gate signal w.side others)
          (first_of (exposure_gate caps (is_some repo) signal w rows) (ceiling_gate caps signal w)))
