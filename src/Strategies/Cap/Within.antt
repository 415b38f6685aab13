-- ===== src/Strategies/Cap/Within.antt =====
-- strategy_cap.py: the trim adds no strategy.
-- Every name that is kept is one that was given.
use xupertrade.Prelude.{
  Bool, Bool-cases, List, Option, String, [], arith, contains, filter, if◌then◌else◌, inl, inr,
  length, none, not, some, take, ℕ, ◌&&◌, ◌-◌, ◌==◌, ◌||◌, ◌∷◌, ◌≡◌,
}
use xupertrade.Strategies.{contains-filter, or_blank}
use xupertrade.Strategies.Cap.{
  Boot, Cap, Outcome, Switches, at_most, decide, disable_all, enforce_strategy_cap,
  holding_plus_first_flat, limited, malformed, parse_strategy_cap, redis_unavailable,
  strategies_holding_positions, surplus, trim, unset,
}
use xupertrade.Strategies.Cap.Held.{contains-without}

abbrev pub Within : String → List String → Outcome → Type 0
Within n names out = contains n out.names ≡ (contains n out.names && contains n names)

Within-filter :
    (n : String) (test : String → Bool) (names added : List String)
    → Within n names (record { names = filter test names; added = added })
Within-filter n test names added = ground (arith, contains-filter n test names)

Within-disable_all :
    (n : String) (boot : Boot) (names past : List String)
    → Within n names (disable_all boot names past)
Within-disable_all n boot names [] = ground arith
Within-disable_all n boot names (p ∷ past) =
    ground (arith, contains-without n (filter (λ m. not (boot.disable_lands m)) (p ∷ past)) names)

Within-limited :
    (n : String) (boot : Boot) (names holding : List String) (most : ℕ) (switches : Option Switches)
    → Within n names (limited boot names holding most switches)
unfolding redis_unavailable holding_plus_first_flat trim
Within-limited n boot names holding most (some switches) =
    Within-disable_all n boot names (surplus boot.mainnet_tenant names holding most switches)
Within-limited n boot names holding most none = elim (Bool-cases boot.mainnet_tenant) [
  | inl tenant ↦ rw tenant (Within-filter n (λ m. contains m holding) names [])
  | inr shared ↦
      let room = most - length holding in
      let flat_kept = take room (filter (λ m. not (contains m holding)) names) in
      rw shared (Within-filter n (λ m. contains m holding || contains m flat_kept) names [])
]

Within-decide :
    (n : String) (boot : Boot) (names : List String) (holding : Option (List String)) (most : Cap)
    → Within n names (decide boot names holding most)
Within-decide n boot names none most = ground arith
Within-decide n boot names (some holding) unset = ground arith
Within-decide n boot names (some holding) malformed =
    Within-filter n (λ m. contains m holding) names []
Within-decide n boot names (some holding) (at_most most) =
    Within-limited n boot names holding most (if boot.has_control then boot.switches else none)

pub Within-cap :
    (strip : String → String) (all_digits : String → Bool) (int : String → ℕ) (n : String)
    (boot : Boot) (names : List String) (raw_cap : Option String)
    → Within n names (enforce_strategy_cap strip all_digits int boot names raw_cap)
unfolding enforce_strategy_cap
Within-cap strip all_digits int n boot names raw_cap =
    elim (Bool-cases (strip (or_blank raw_cap) == "")) [
      | inl blank ↦ rw blank (ground arith)
      | inr given ↦ rw given (
          Within-decide n boot names (strategies_holding_positions names boot.position_names)
            (parse_strategy_cap strip all_digits int (some (strip (or_blank raw_cap)))))
    ]
