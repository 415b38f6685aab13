-- ===== src/Vaults.antt =====
-- vaults/models.py and vaults/filters.py: which vaults qualify. The texts of a breakdown that only
-- the page shows (`value`, `threshold`) are left out; `None` for a config is `FilterConfig()`.
pub mod Qualify
use xupertrade.Float.{Floats, Number, nil, ◌≺◌, ◌≼◌}
use xupertrade.Prelude.{
  Bool, List, Option, String, [], false, filter, if◌then◌else◌, none, not, some, true, ◌&&◌, ◌++◌,
  ◌==◌, ◌∷◌,
}
use xupertrade.Prelude.Int.{ltb_ℤ, pos, ℤ}

module _ ⦃N : Floats⦄ where
  -- The part of `VaultSummary` that the filters read; `age_days` is read once per call.
  pub record VaultSummary : Type 0 where
    pub address : String
    pub tvl_usd : Number
    pub is_closed : Bool
    pub relationship_type : String
    pub age_days : ℤ
    pub apr : Number

  pub record VaultDetails : Type 0 where
    pub leader_fraction : Number
    pub leader_commission : Number
    pub allow_deposits : Bool
    pub is_closed : Bool

  pub record VaultMetrics : Type 0 where
    pub roi_90d : Option Number
    pub roi_180d : Option Number
    pub roi_365d : Option Number
    pub max_drawdown_pct : Option Number
    pub sharpe_180d : Option Number

  pub record VaultSnapshot : Type 0 where
    pub summary : VaultSummary
    pub details : VaultDetails
    pub metrics : VaultMetrics

  pub record FilterConfig : Type 0 where
    pub min_age_days : ℤ
    pub min_roi_90d : Number
    pub min_roi_180d : Number
    pub min_roi_365d : Number
    pub max_drawdown_pct : Number
    pub min_sharpe_180d : Number
    pub min_manager_equity_pct : Number
    pub min_aum_usd : Number
    pub max_aum_usd : Number
    pub max_profit_share_pct : Number
    pub require_open_to_deposits : Bool

  pub default_config : FilterConfig
  default_config = record {
    min_age_days = pos 180;
    min_roi_90d = nil;
    min_roi_180d = nil;
    min_roi_365d = nil;
    max_drawdown_pct = N.decimal 25 2;
    min_sharpe_180d = N.decimal 15 1;
    min_manager_equity_pct = N.decimal 5 2;
    min_aum_usd = N.decimal 200000 0;
    max_aum_usd = N.decimal 20000000 0;
    max_profit_share_pct = N.decimal 15 2;
    require_open_to_deposits = true;
  }

  pub record FilterResult : Type 0 where
    pub name : String
    pub passed : Bool
    pub waived : Bool

  pub record QualifyVerdict : Type 0 where
    pub qualified : Bool
    pub breakdown : List FilterResult

  abbrev rule : String → Bool → FilterResult
  rule name passed = record { name = name; passed = passed; waived = false }

  -- x is not None and x > bar
  abbrev pub above : Option Number → Number → Bool
  above none bar = false
  above (some x) bar = bar ≺ x

  -- x is not None and x <= bar
  abbrev pub not_above : Option Number → Number → Bool
  not_above none bar = false
  not_above (some x) bar = x ≼ bar

  abbrev pub all_passed : List FilterResult → Bool
  all_passed [] = true
  all_passed (r ∷ rs) = r.passed && all_passed rs

  -- cfg.min_aum_usd <= aum <= cfg.max_aum_usd
  abbrev pub in_band : FilterConfig → Number → Bool
  in_band cfg aum = cfg.min_aum_usd ≼ aum && aum ≼ cfg.max_aum_usd

  abbrev open_rule : FilterConfig → VaultDetails → List FilterResult
  open_rule cfg d =
      if cfg.require_open_to_deposits
      then rule "open_to_deposits" (d.allow_deposits && not d.is_closed) ∷ []
      else []

  abbrev year_rule : FilterConfig → ℤ → VaultMetrics → FilterResult
  year_rule cfg age m =
      if ltb_ℤ age (pos 365)
      then record { name = "roi_365d"; passed = true; waived = true }
      else rule "roi_365d" (above m.roi_365d cfg.min_roi_365d)

  abbrev breakdown_of :
      FilterConfig → VaultSummary → VaultDetails → VaultMetrics → List FilterResult
  breakdown_of cfg s d m =
      open_rule cfg d
      ++ (rule "min_age" (not (ltb_ℤ s.age_days cfg.min_age_days))
          ∷ rule "aum_band" (in_band cfg s.tvl_usd)
          ∷ rule "manager_equity" (cfg.min_manager_equity_pct ≼ d.leader_fraction)
          ∷ rule "profit_share_fee" (d.leader_commission ≼ cfg.max_profit_share_pct)
          ∷ rule "roi_90d" (above m.roi_90d cfg.min_roi_90d)
          ∷ rule "roi_180d" (above m.roi_180d cfg.min_roi_180d)
          ∷ year_rule cfg s.age_days m
          ∷ rule "max_drawdown" (not_above m.max_drawdown_pct cfg.max_drawdown_pct)
          ∷ rule "sharpe_180d" (above m.sharpe_180d cfg.min_sharpe_180d)
          ∷ [])

  abbrev or_default : Option FilterConfig → FilterConfig
  or_default none = default_config
  or_default (some cfg) = cfg

  unfoldable pub evaluate : VaultSnapshot → Option FilterConfig → QualifyVerdict
  evaluate snap cfg =
      let out = breakdown_of (or_default cfg) snap.summary snap.details snap.metrics in
      record { qualified = all_passed out; breakdown = out }

  -- The body of the loop: whether the summary is kept.
  abbrev pub worth_fetching : FilterConfig → VaultSummary → Bool
  worth_fetching cfg s =
      if s.is_closed
      then false
      else if not (s.relationship_type == "normal")
      then false
      else if not (in_band cfg s.tvl_usd)
      then false
      else if ltb_ℤ s.age_days cfg.min_age_days
      then false
      else not (s.apr ≺ N.neg (N.decimal 5 1))

  pub coarse_prefilter : List VaultSummary → Option FilterConfig → List VaultSummary
  coarse_prefilter summaries cfg = filter (worth_fetching (or_default cfg)) summaries
