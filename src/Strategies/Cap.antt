-- ===== src/Strategies/Cap.antt =====
-- strategy_cap.py: `enforce_strategy_cap` at boot. What the database and Redis answer is an
-- argument; the result is the names to instantiate and those added to the `disabled` set.
pub mod Held
pub mod Count
pub mod Within
use xupertrade.Prelude.{
  Bool, List, Option, String, [], contains, drop, filter, if◌then◌else◌, length, ltb, none, not,
  some, take, ℕ, ◌-◌, ◌==◌, ◌||◌, ◌∷◌,
}
use xupertrade.Strategies.{or_blank}
use xupertrade.Strategies.Sort.{sorted}

-- The two sets that are read from Redis.
pub record Switches : Type 0 where
  pub disabled : List String
  pub opted_in : List String

-- What the boot meets.
pub record Boot : Type 0 where
  -- the strategy names of the open positions; none: no repository, or the query fails
  pub position_names : Option (List String)
  pub has_control : Bool
  -- none: a read raises
  pub switches : Option Switches
  -- whether `disable_strategy` of a name lands
  pub disable_lands : String → Bool
  -- whether `mainnet_tenant_id` is set
  pub mainnet_tenant : Bool

pub record Outcome : Type 0 where
  pub names : List String
  pub added : List String

pub data Cap : Type 0 where
  unset malformed : Cap
  at_most : ℕ → Cap

module _ (strip : String → String) (all_digits : String → Bool) (int : String → ℕ) where
  unfoldable pub parse_strategy_cap : Option String → Cap
  parse_strategy_cap raw =
      let text = strip (or_blank raw) in
      if text == "" then unset else if not (all_digits text) then malformed else at_most (int text)

-- A set: no name twice.
abbrev add_name : String → List String → List String
add_name n names = if contains n names then names else n ∷ names

abbrev set_of : List String → List String
set_of [] = []
set_of (n ∷ ns) = add_name n (set_of ns)

strategies_holding_positions : List String → Option (List String) → Option (List String)
strategies_holding_positions names none = none
strategies_holding_positions names (some rows) = some (set_of (filter (λ n. contains n names) rows))

holding_plus_first_flat : List String → List String → ℕ → List String
holding_plus_first_flat names holding most =
    let room = most - length holding in
    let flat_kept = take room (filter (λ n. not (contains n holding)) names) in
    filter (λ n. contains n holding || contains n flat_kept) names

redis_unavailable : Bool → List String → List String → ℕ → List String
unfolding holding_plus_first_flat
redis_unavailable mainnet_tenant names holding most =
    if mainnet_tenant
    then filter (λ n. contains n holding) names
    else holding_plus_first_flat names holding most

-- The opt-in set counts on mainnet only.
priority : Bool → List String → List String → String → ℕ
priority mainnet_tenant opted_in holding n =
    if contains n holding then 0 else if not mainnet_tenant || contains n opted_in then 1 else 2

abbrev pub max : ℕ → ℕ → ℕ
max a b = if ltb a b then b else a

-- The enabled strategies past the kept ones.
surplus : Bool → List String → List String → ℕ → Switches → List String
unfolding priority
surplus mainnet_tenant names holding most switches =
    let enabled = filter (λ n. not (contains n switches.disabled)) names in
    let held_enabled = filter (λ n. contains n holding) enabled in
    drop (max most (length held_enabled))
      (sorted (priority mainnet_tenant switches.opted_in holding) enabled)

-- [n for n in names if n not in failed], if any failed
abbrev without : List String → List String → List String
without [] names = names
without (f ∷ fs) names = filter (λ n. not (contains n (f ∷ fs))) names

abbrev disable_all : Boot → List String → List String → Outcome
disable_all boot names [] = record { names = names; added = [] }
disable_all boot names (p ∷ ps) = record {
  names = without (filter (λ n. not (boot.disable_lands n)) (p ∷ ps)) names;
  added = filter boot.disable_lands (p ∷ ps);
}

-- The part of `enforce_strategy_cap` from where the switches are read.
trim : Boot → List String → List String → ℕ → Switches → Outcome
unfolding surplus
trim boot names holding most switches =
    disable_all boot names (surplus boot.mainnet_tenant names holding most switches)

-- `names` as they are, and nothing written.
abbrev untouched : List String → Outcome
untouched names = record { names = names; added = [] }

-- The part from where the cap is known.
abbrev limited : Boot → List String → List String → ℕ → Option Switches → Outcome
limited boot names holding most none =
    untouched (redis_unavailable boot.mainnet_tenant names holding most)
limited boot names holding most (some switches) = trim boot names holding most switches

-- What is done once it is known whether positions were read, and what the cap is.
abbrev decide : Boot → List String → Option (List String) → Cap → Outcome
decide boot names none most = untouched names
decide boot names (some holding) unset = untouched names
decide boot names (some holding) malformed = untouched (filter (λ n. contains n holding) names)
decide boot names (some holding) (at_most most) =
    limited boot names holding most (if boot.has_control then boot.switches else none)

module _ (strip : String → String) (all_digits : String → Bool) (int : String → ℕ) where
  pub enforce_strategy_cap : Boot → List String → Option String → Outcome
  unfolding parse_strategy_cap strategies_holding_positions
  enforce_strategy_cap boot names raw_cap =
      let text = strip (or_blank raw_cap) in
      if text == ""
      then untouched names
      else decide boot names (strategies_holding_positions names boot.position_names)
          (parse_strategy_cap strip all_digits int (some text))
