-- ===== src/Strategies/Cap/Count.antt =====
-- strategy_cap.py: how many strategies may open trades after the boot.
use xupertrade.Prelude.{
  Bool, List, Option, String, [], arith, contains, contains-append, drop, eq_iff, false, filter,
  length, not, refl, some, subst, suc, true, zero, ℕ, ◌&&◌, ◌++◌, ◌+◌, ◌==◌, ◌∙◌, ◌∷◌, ◌≡◌, ◌≤◌,
}
use xupertrade.Strategies.{contains-filter, or_blank}
use xupertrade.Strategies.Cap.{
  Boot, Outcome, Switches, at_most, disable_all, enforce_strategy_cap, max, parse_strategy_cap,
  priority, set_of, strategies_holding_positions, surplus, trim, without,
}
use xupertrade.Strategies.Cap.Held.{contains-set_of, count_same}
use xupertrade.Strategies.Sort.{count, count-sorted, sorted}

count-drop : (p : String → Bool) (k : ℕ) (ns : List String) → count p ns ≤ k + count p (drop k ns)
count-drop p zero ns = omega arith
count-drop p (suc k) [] = omega arith
count-drop p (suc k) (n ∷ ns) = ground (arith, count-drop p k ns)

count_zero :
    (p : String → Bool) (ns : List String)
    → ((n : String) → contains n ns ≡ true → p n ≡ false)
    → count p ns ≡ 0
count_zero p [] never = refl
count_zero p (n ∷ ns) never =
    let here = never n (ground (arith, eq_iff n n)) in
    let later = count_zero p ns (λ m h. never m (ground arith)) in ground arith

count_and :
    (p q : String → Bool) (ns : List String) → count q (filter p ns) ≡ count (λ n. p n && q n) ns
count_and p q [] = refl
count_and p q (n ∷ ns) = ground (arith, count_and p q ns)

count-without :
    (p : String → Bool) (failed names : List String)
    → count p (without failed names) ≡ count (λ n. not (contains n failed) && p n) names
count-without p [] names = count_same p (λ n. true && p n) names (λ n. refl)
count-without p (f ∷ fs) names = count_and (λ n. not (contains n (f ∷ fs))) p names

-- The names that may trade: instantiated, and not in the disabled set.
abbrev pub running : List String → Outcome → List String
running disabled out = filter (λ n. not (contains n (disabled ++ out.added))) out.names

running-disable_all :
    (boot : Boot) (names past disabled : List String)
    → length (running disabled (disable_all boot names past))
      ≡ count (λ n. not (contains n disabled) && not (contains n past)) names
running-disable_all boot names [] disabled =
    count_same _ _ names (λ n. ground (arith, contains-append n disabled []))
running-disable_all boot names (p ∷ ps) disabled =
    let failed = filter (λ n. not (boot.disable_lands n)) (p ∷ ps) in
    let added = filter boot.disable_lands (p ∷ ps) in
    count-without (λ n. not (contains n (disabled ++ added))) failed names
    ∙ count_same _ _ names (λ n. ground (
      arith,
      contains-append n disabled added,
      contains-filter n (λ m. not (boot.disable_lands m)) (p ∷ ps),
      contains-filter n boot.disable_lands (p ∷ ps),
    ))

kept_few :
    (key : String → ℕ) (k : ℕ) (enabled : List String)
    → count (λ n. not (contains n (drop k (sorted key enabled)))) enabled ≤ k
kept_few key k enabled =
    let past = drop k (sorted key enabled) in
    let p : String → Bool = λ n. not (contains n past) in
    let none_past = count_zero p past (λ n h. rw h refl) in
    omega (arith, count-sorted key p enabled, count-drop p k (sorted key enabled), none_past)

trim-few :
    (boot : Boot) (names holding : List String) (most : ℕ) (sets : Switches)
    → length (running sets.disabled (trim boot names holding most sets))
      ≤ max most
          (count (λ n. contains n holding) (filter (λ n. not (contains n sets.disabled)) names))
unfolding trim surplus
trim-few boot names holding most sets =
    let enabled = filter (λ n. not (contains n sets.disabled)) names in
    let room = max most (count (λ n. contains n holding) enabled) in
    let key = priority boot.mainnet_tenant sets.opted_in holding in
    let past = drop room (sorted key enabled) in
    omega (
      arith,
      running-disable_all boot names past sets.disabled,
      count_and (λ n. not (contains n sets.disabled)) (λ n. not (contains n past)) names,
      kept_few key room enabled,
    )

-- How many of the names are switched on and hold a position.
abbrev pub held_enabled : List String → List String → List String → ℕ
held_enabled disabled rows names =
    count (λ n. contains n rows && contains n names) (filter (λ n. not (contains n disabled)) names)

module _ (strip : String → String) (all_digits : String → Bool) (int : String → ℕ) where
  -- With a cap that reads, positions that read and Redis switches that read: after the boot, at
  -- most as many strategies are both instantiated and switched on as the cap allows, or as hold
  -- positions if those are more. This holds whichever of the disable writes fail.
  pub enforce_strategy_cap-few :
      (boot : Boot) (names : List String) (raw_cap : Option String) (rows : List String) (most : ℕ)
      (sets : Switches)
      → strip (or_blank raw_cap) == "" ≡ false
      → parse_strategy_cap strip all_digits int (some (strip (or_blank raw_cap))) ≡ at_most most
      → boot.position_names ≡ some rows
      → boot.has_control ≡ true
      → boot.switches ≡ some sets
      → length
          (running sets.disabled (enforce_strategy_cap strip all_digits int boot names raw_cap))
        ≤ max most (held_enabled sets.disabled rows names)
  unfolding enforce_strategy_cap strategies_holding_positions
  enforce_strategy_cap-few boot names raw_cap rows most sets given parsed positions wired read =
      let holding = set_of (filter (λ m. contains m names) rows) in
      let enabled = filter (λ n. not (contains n sets.disabled)) names in
      let same =
        count_same (λ n. contains n holding) (λ n. contains n rows && contains n names) enabled
          (λ n.
            contains-set_of n (filter (λ m. contains m names) rows)
            ∙ contains-filter n (λ m. contains m names) rows) in
      simp (given, parsed, positions, wired, read)
        (subst
          (λ c. length (running sets.disabled (trim boot names holding most sets)) ≤ max most c)
          same (trim-few boot names holding most sets))
