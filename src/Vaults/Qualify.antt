-- ===== src/Vaults/Qualify.antt =====
-- vaults/filters.py: `evaluate` and `coarse_prefilter` together, and looser settings.
use xupertrade.Float.{ExactLaws, Floats, Number, ◌≺◌, ◌≼◌}
use xupertrade.Float.Exact.{le_of_value, le_value}
use xupertrade.Prelude.{
  Bool, Bool-cases, List, Option, [], arith, false, filter, inl, inr, none, not, refl, some, subst,
  sym, true, ◌&&◌, ◌++◌, ◌||◌, ◌∙◌, ◌∷◌, ◌≡◌,
}
use xupertrade.Prelude.Int.{ltb_ℤ, pos, ℤ, ◌≤ℤ◌}
use xupertrade.Vaults.{
  FilterConfig, FilterResult, VaultDetails, VaultMetrics, VaultSnapshot, VaultSummary, above,
  all_passed, coarse_prefilter, evaluate, in_band, not_above, open_rule, or_default, worth_fetching,
  year_rule,
}

module _ ⦃N : Floats⦄ where
  filter-keeps :
      (p : VaultSummary → Bool) (s : VaultSummary) (before later : List VaultSummary)
      → p s ≡ true
      → filter p (before ++ s ∷ later) ≡ filter p before ++ s ∷ filter p later
  filter-keeps p s [] later h = rw h refl
  filter-keeps p s (x ∷ before) later h = elim (Bool-cases (p x)) [
    | inl kept ↦ rw (kept, filter-keeps p s before later h) refl
    | inr dropped ↦ rw (dropped, filter-keeps p s before later h) refl
  ]

  -- `open_to_deposits` passes, or is not asked for.
  abbrev open_ok : FilterConfig → VaultDetails → Bool
  open_ok cfg d = not cfg.require_open_to_deposits || (d.allow_deposits && not d.is_closed)

  abbrev year_ok : FilterConfig → ℤ → VaultMetrics → Bool
  year_ok cfg age m = ltb_ℤ age (pos 365) || above m.roi_365d cfg.min_roi_365d

  all_passed-open :
      (cfg : FilterConfig) (d : VaultDetails) (rest : List FilterResult)
      → all_passed (open_rule cfg d ++ rest) ≡ (open_ok cfg d && all_passed rest)
  all_passed-open cfg d rest = ground arith

  year_rule-passes :
      (cfg : FilterConfig) (age : ℤ) (m : VaultMetrics)
      → (year_rule cfg age m).passed ≡ year_ok cfg age m
  year_rule-passes cfg age m = elim (Bool-cases (ltb_ℤ age (pos 365))) [
    | inl young ↦ rw young refl
    | inr old ↦ rw old refl
  ]

  -- The verdict is the conjunction of the rules.
  qualified_rules :
      (snap : VaultSnapshot) (cfg : Option FilterConfig)
      → (let c = or_default cfg in
          let s = snap.summary in
          let d = snap.details in
          let m = snap.metrics in
          (evaluate snap cfg).qualified ≡ (
            open_ok c d
            && (not (ltb_ℤ s.age_days c.min_age_days)
                && (in_band c s.tvl_usd
                    && ((c.min_manager_equity_pct ≼ d.leader_fraction)
                        && ((d.leader_commission ≼ c.max_profit_share_pct)
                            && (above m.roi_90d c.min_roi_90d
                                && (above m.roi_180d c.min_roi_180d
                                    && (year_ok c s.age_days m
                                        && (not_above m.max_drawdown_pct c.max_drawdown_pct
                                            && (above m.sharpe_180d c.min_sharpe_180d
                                                && true)))))))))))
  unfolding evaluate
  qualified_rules snap cfg =
      all_passed-open (or_default cfg) snap.details _
      ∙ rw (year_rule-passes (or_default cfg) snap.summary.age_days snap.metrics) refl

  -- The prefilter keeps, in its place, every vault that the full filter would accept with the
  -- same settings, if the catalog lists it as open and normal and its APR is not below -50%.
  pub coarse_prefilter-keeps :
      (snap : VaultSnapshot) (cfg : Option FilterConfig) (before later : List VaultSummary)
      → (evaluate snap cfg).qualified ≡ true
      → snap.summary.is_closed ≡ false
      → snap.summary.relationship_type ≡ "normal"
      → snap.summary.apr ≺ N.neg (N.decimal 5 1) ≡ false
      → coarse_prefilter (before ++ snap.summary ∷ later) cfg
        ≡ coarse_prefilter before cfg ++ snap.summary ∷ coarse_prefilter later cfg
  unfolding coarse_prefilter
  coarse_prefilter-keeps snap cfg before later q opened normal apr =
      let rules = sym (qualified_rules snap cfg) ∙ q in
      filter-keeps (worth_fetching (or_default cfg)) snap.summary before later
        (simp (opened, normal, apr) (ground arith))

module _ ⦃N : Floats⦄ (exact : ExactLaws) where
  open exact use {value, value-lt, value-le}

  -- Every bound of the first settings is at least as loose as the second's.
  abbrev pub Looser : FilterConfig → FilterConfig → Type 0
  Looser c d =
      ((not c.require_open_to_deposits || d.require_open_to_deposits) ≡ true)
      × (c.min_age_days ≤ℤ d.min_age_days)
      × (value c.min_roi_90d ≤ℤ value d.min_roi_90d)
      × (value c.min_roi_180d ≤ℤ value d.min_roi_180d)
      × (value c.min_roi_365d ≤ℤ value d.min_roi_365d)
      × (value d.max_drawdown_pct ≤ℤ value c.max_drawdown_pct)
      × (value c.min_sharpe_180d ≤ℤ value d.min_sharpe_180d)
      × (value c.min_manager_equity_pct ≤ℤ value d.min_manager_equity_pct)
      × (value c.min_aum_usd ≤ℤ value d.min_aum_usd)
      × (value d.max_aum_usd ≤ℤ value c.max_aum_usd)
      × (value d.max_profit_share_pct ≤ℤ value c.max_profit_share_pct)

  le-lower : (a b x : Number) → value a ≤ℤ value b → b ≼ x ≡ true → a ≼ x ≡ true
  le-lower a b x h e =
      le_of_value exact a x (trans (value a) (value b) (value x) h (le_value exact b x e))
    where
      trans : (a b c : ℤ) → a ≤ℤ b → b ≤ℤ c → a ≤ℤ c
      trans a b c h k = omega arith

  le-upper : (a b x : Number) → value a ≤ℤ value b → x ≼ a ≡ true → x ≼ b ≡ true
  le-upper a b x h e =
      le_of_value exact x b (trans (value x) (value a) (value b) (le_value exact x a e) h)
    where
      trans : (a b c : ℤ) → a ≤ℤ b → b ≤ℤ c → a ≤ℤ c
      trans a b c h k = omega arith

  lt-lower : (a b x : Number) → value a ≤ℤ value b → b ≺ x ≡ true → a ≺ x ≡ true
  lt-lower a b x h e = value-lt a x ∙ lower (value a) (value b) (value x) h (sym (value-lt b x) ∙ e)
    where
      lower : (a b c : ℤ) → a ≤ℤ b → ltb_ℤ b c ≡ true → ltb_ℤ a c ≡ true
      lower a b c h k = ground arith

  above-lower :
      (o : Option Number) (a b : Number) → value a ≤ℤ value b → above o b ≡ true → above o a ≡ true
  above-lower none a b h e = e
  above-lower (some x) a b h e = lt-lower a b x h e

  not_above-upper :
      (o : Option Number) (a b : Number)
      → value a ≤ℤ value b
      → not_above o a ≡ true
      → not_above o b ≡ true
  not_above-upper none a b h e = e
  not_above-upper (some x) a b h e = le-upper a b x h e

  age-lower : (a b x : ℤ) → a ≤ℤ b → not (ltb_ℤ x b) ≡ true → not (ltb_ℤ x a) ≡ true
  age-lower a b x h e = ground arith

  and_mono :
      (a b c d : Bool)
      → (a ≡ true → c ≡ true)
      → (b ≡ true → d ≡ true)
      → (a && b) ≡ true
      → (c && d) ≡ true
  and_mono a b c d f g h = ground arith

  open_ok-looser :
      (c d : FilterConfig) (v : VaultDetails)
      → (not c.require_open_to_deposits || d.require_open_to_deposits) ≡ true
      → open_ok d v ≡ true
      → open_ok c v ≡ true
  open_ok-looser c d v fits h = ground arith

  year_ok-looser :
      (c d : FilterConfig) (age : ℤ) (m : VaultMetrics)
      → value c.min_roi_365d ≤ℤ value d.min_roi_365d
      → year_ok d age m ≡ true
      → year_ok c age m ≡ true
  year_ok-looser c d age m h e = elim (Bool-cases (ltb_ℤ age (pos 365))) [
    | inl young ↦ rw young refl
    | inr old ↦ rw old (
        above-lower m.roi_365d c.min_roi_365d d.min_roi_365d h
          (subst (λ b. (b || above m.roi_365d d.min_roi_365d) ≡ true) old e))
  ]

  in_band-looser :
      (c d : FilterConfig) (x : Number)
      → value c.min_aum_usd ≤ℤ value d.min_aum_usd
      → value d.max_aum_usd ≤ℤ value c.max_aum_usd
      → in_band d x ≡ true
      → in_band c x ≡ true
  in_band-looser c d x low high =
      and_mono (d.min_aum_usd ≼ x) (x ≼ d.max_aum_usd) (c.min_aum_usd ≼ x) (x ≼ c.max_aum_usd)
        (le-lower c.min_aum_usd d.min_aum_usd x low) (le-upper d.max_aum_usd c.max_aum_usd x high)

  -- With exact arithmetic, a vault that qualifies under some settings qualifies under looser ones.
  pub evaluate-Looser :
      (snap : VaultSnapshot) (c d : FilterConfig)
      → Looser c d
      → (evaluate snap (some d)).qualified ≡ true
      → (evaluate snap (some c)).qualified ≡ true
  evaluate-Looser snap c d fits q =
      let s = snap.summary in
      let v = snap.details in
      let m = snap.metrics in
      let rules = sym (qualified_rules snap (some d)) ∙ q in
      qualified_rules snap (some c)
      ∙ and_mono _ _ _ _ (open_ok-looser c d v fits.0)
          (and_mono _ _ _ _ (age-lower c.min_age_days d.min_age_days s.age_days fits.1) (
            and_mono _ _ _ _ (in_band-looser c d s.tvl_usd fits.8 fits.9) (
              and_mono _ _ _ _
                (le-lower c.min_manager_equity_pct d.min_manager_equity_pct v.leader_fraction
                  fits.7)
                (and_mono _ _ _ _
                  (le-upper d.max_profit_share_pct c.max_profit_share_pct v.leader_commission
                    fits.10)
                  (and_mono _ _ _ _ (above-lower m.roi_90d c.min_roi_90d d.min_roi_90d fits.2) (
                    and_mono _ _ _ _ (above-lower m.roi_180d c.min_roi_180d d.min_roi_180d fits.3) (
                      and_mono _ _ _ _ (year_ok-looser c d s.age_days m fits.4) (
                        and_mono _ _ _ _
                          (not_above-upper m.max_drawdown_pct d.max_drawdown_pct c.max_drawdown_pct
                            fits.5)
                          (and_mono _ _ _ _
                            (above-lower m.sharpe_180d c.min_sharpe_180d d.min_sharpe_180d fits.6)
                            (λ t. t))))))))))
          rules
