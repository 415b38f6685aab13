-- ===== src/Strategies/Cap/Held.antt =====
-- strategy_cap.py: the strategies that hold a position.
use xupertrade.Prelude.{
  Bool, Bool-cases, List, Option, String, [], arith, contains, drop, eq_iff, eqb, false, filter,
  if◌then◌else◌, inl, inr, length, none, not, refl, some, take, true, ℕ, ◌&&◌, ◌-◌, ◌==◌, ◌||◌, ◌∙◌,
  ◌∷◌, ◌≡◌, ◌≤◌,
}
use xupertrade.Strategies.{contains-filter, or_blank}
use xupertrade.Strategies.Cap.{
  Boot, Cap, Outcome, Switches, at_most, decide, disable_all, enforce_strategy_cap, limited,
  malformed, max, parse_strategy_cap, priority, redis_unavailable, set_of,
  strategies_holding_positions, surplus, trim, unset, without,
}
use xupertrade.Strategies.Sort.{count, count-sorted, late_key, sorted, sorted-Ascending}

pub contains-set_of : (a : String) (ns : List String) → contains a (set_of ns) ≡ contains a ns
contains-set_of a [] = refl
contains-set_of a (n ∷ ns) = ground (arith, contains-set_of a ns, contains-set_of n ns, eq_iff n a)

pub count_same :
    (p q : String → Bool) (ns : List String) → ((n : String) → p n ≡ q n) → count p ns ≡ count q ns
count_same p q [] same = refl
count_same p q (n ∷ ns) same = ground (arith, same n, count_same p q ns same)

priority-held :
    (mainnet : Bool) (opted holding : List String) (n : String)
    → eqb (priority mainnet opted holding n) 0 ≡ contains n holding
unfolding priority
priority-held mainnet opted holding n = ground arith

max-right : (a b : ℕ) → b ≤ max a b
max-right a b = ground arith

-- No name in the surplus holds a position.
surplus-flat :
    (mainnet : Bool) (names holding : List String) (most : ℕ) (sets : Switches) (n : String)
    → contains n holding ≡ true
    → contains n (surplus mainnet names holding most sets) ≡ false
unfolding surplus
surplus-flat mainnet names holding most sets n held =
    let enabled = filter (λ m. not (contains m sets.disabled)) names in
    let key = priority mainnet sets.opted_in holding in
    let room = max most (count (λ m. contains m holding) enabled) in
    elim (Bool-cases (contains n (drop room (sorted key enabled)))) [
      | inl late ↦
          let few : count (λ m. eqb (key m) 0) (sorted key enabled) ≤ room =
            rw
              (
                count-sorted key (λ m. eqb (key m) 0) enabled,
                count_same (λ m. eqb (key m) 0) (λ m. contains m holding) enabled
                    (priority-held mainnet sets.opted_in holding),
              )
              (max-right most (count (λ m. contains m holding) enabled)) in
          let positive =
            late_key key n room (sorted key enabled) (sorted-Ascending key enabled) few late in
          ground (arith, priority-held mainnet sets.opted_in holding n)
      | inr absent ↦ absent
    ]

pub contains-without :
    (n : String) (failed names : List String)
    → contains n (without failed names) ≡ (contains n names && not (contains n failed))
contains-without n [] names = ground arith
contains-without n (f ∷ fs) names = contains-filter n (λ m. not (contains m (f ∷ fs))) names

-- The names that are kept are instantiated and not added to the disabled set.
abbrev Kept : String → Outcome → Type 0
Kept n out = (contains n out.names ≡ true) × (contains n out.added ≡ false)

Kept-disable_all :
    (boot : Boot) (names past : List String) (n : String)
    → contains n names ≡ true
    → contains n past ≡ false
    → Kept n (disable_all boot names past)
Kept-disable_all boot names [] n known flat = (known, refl)
Kept-disable_all boot names (p ∷ ps) n known flat =
    let failed = filter (λ m. not (boot.disable_lands m)) (p ∷ ps) in
    (
      contains-without n failed names
          ∙ ground (arith, contains-filter n (λ m. not (boot.disable_lands m)) (p ∷ ps)),
      ground (arith, contains-filter n boot.disable_lands (p ∷ ps)),
    )

keeps-held :
    (holding names : List String) (n : String)
    → contains n names ≡ true
    → contains n holding ≡ true
    → contains n (filter (λ m. contains m holding) names) ≡ true
keeps-held holding names n known held =
    contains-filter n (λ m. contains m holding) names ∙ ground arith

redis_unavailable-held :
    (mainnet : Bool) (names holding : List String) (most : ℕ) (n : String)
    → contains n names ≡ true
    → contains n holding ≡ true
    → contains n (redis_unavailable mainnet names holding most) ≡ true
unfolding redis_unavailable
redis_unavailable-held true names holding most n known held = keeps-held holding names n known held
redis_unavailable-held false names holding most n known held =
    let flat_kept = take (most - length holding) (filter (λ m. not (contains m holding)) names) in
    contains-filter n (λ m. contains m holding || contains m flat_kept) names ∙ ground arith

Kept-limited :
    (boot : Boot) (names holding : List String) (most : ℕ) (read : Option Switches) (n : String)
    → contains n names ≡ true
    → contains n holding ≡ true
    → Kept n (limited boot names holding most read)
unfolding trim
Kept-limited boot names holding most none n known held =
    (redis_unavailable-held boot.mainnet_tenant names holding most n known held, refl)
Kept-limited boot names holding most (some sets) n known held =
    Kept-disable_all boot names (surplus boot.mainnet_tenant names holding most sets) n known
      (surplus-flat boot.mainnet_tenant names holding most sets n held)

Kept-decide :
    (boot : Boot) (names holding : List String) (cap_read : Cap) (n : String)
    → contains n names ≡ true
    → contains n holding ≡ true
    → Kept n (decide boot names (some holding) cap_read)
Kept-decide boot names holding unset n known held = (known, refl)
Kept-decide boot names holding malformed n known held =
    (keeps-held holding names n known held, refl)
Kept-decide boot names holding (at_most most) n known held =
    Kept-limited boot names holding most (if boot.has_control then boot.switches else none) n known
      held

module _ (strip : String → String) (all_digits : String → Bool) (int : String → ℕ) where
  -- Where the positions can be read, a registered strategy with an open position is instantiated
  -- and is not switched off at boot, whatever the cap says, whether it can be read, and whatever
  -- Redis answers.
  pub enforce_strategy_cap-held :
      (boot : Boot) (names : List String) (raw_cap : Option String) (rows : List String)
      (n : String)
      → boot.position_names ≡ some rows
      → contains n rows ≡ true
      → contains n names ≡ true
      → (contains n (enforce_strategy_cap strip all_digits int boot names raw_cap).names ≡ true)
        × (contains n (enforce_strategy_cap strip all_digits int boot names raw_cap).added ≡ false)
  unfolding enforce_strategy_cap strategies_holding_positions
  enforce_strategy_cap-held boot names raw_cap rows n positions open_row known =
      let holding = set_of (filter (λ m. contains m names) rows) in
      let held : contains n holding ≡ true =
        contains-set_of n (filter (λ m. contains m names) rows)
        ∙ contains-filter n (λ m. contains m names) rows
        ∙ ground arith in
      elim (Bool-cases (strip (or_blank raw_cap) == "")) [
        | inl blank ↦ simp blank (known, refl)
        | inr given ↦
            simp (given, positions)
              (Kept-decide boot names holding
                (parse_strategy_cap strip all_digits int (some (strip (or_blank raw_cap)))) n known
                held)
      ]
