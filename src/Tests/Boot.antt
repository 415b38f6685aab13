-- ===== src/Tests/Boot.antt =====
-- strategy_cap.py, engine/strategy_allowlist.py and vaults/filters.py on concrete inputs.
use xupertrade.Float.Whole.{whole_exact, whole_floats}
use xupertrade.Prelude.{
  Bool, List, Option, String, [], arith, contains, false, length, none, not, refl, some, true, ℕ,
  ◌&&◌, ◌++◌, ◌==◌, ◌∷◌, ◌≡◌, ◌≤◌,
}
use xupertrade.Prelude.Int.{ltb_ℤ, pos, ◌-ℤ◌}
use xupertrade.Strategies.{parse_tenant_allowlist}
use xupertrade.Strategies.Cap.{Boot, at_most, enforce_strategy_cap, max, parse_strategy_cap}
use xupertrade.Strategies.Cap.Count.{enforce_strategy_cap-few, held_enabled, running}
use xupertrade.Strategies.Cap.Held.{enforce_strategy_cap-held}
use xupertrade.Strategies.Layers.{SelectionSettings, TickReads, active_names, instantiated_names}
use xupertrade.Strategies.Layers.Running.{active-layers}
use xupertrade.Vaults.{FilterConfig, VaultSnapshot, coarse_prefilter, evaluate}
use xupertrade.Vaults.Qualify.{coarse_prefilter-keeps, evaluate-Looser}

abbrev trimmed : String → String
trimmed t = t

-- Every text but "many" is a number of digits, and reads as 1.
abbrev digits : String → Bool
digits t = not (t == "many")

abbrev one : String → ℕ
one t = 1

abbrev registry : List String
registry = "a" ∷ "b" ∷ "c" ∷ []

abbrev boot : Boot
boot = record {
  position_names = some ("c" ∷ "c" ∷ []);
  has_control = true;
  switches = some (record { disabled = []; opted_in = [] });
  disable_lands = λ n. not (n == "b");
  mainnet_tenant = false;
}

enforce_strategy_cap-held_example :
    (contains "c" (enforce_strategy_cap trimmed digits one boot registry (some "1")).names ≡ true)
    × (contains "c" (enforce_strategy_cap trimmed digits one boot registry (some "1")).added
        ≡ false)
enforce_strategy_cap-held_example =
    enforce_strategy_cap-held trimmed digits one boot registry (some "1") ("c" ∷ "c" ∷ []) "c" refl
      refl refl

one-reads : parse_strategy_cap trimmed digits one (some "1") ≡ at_most 1
unfolding parse_strategy_cap
one-reads = refl

enforce_strategy_cap-few_example :
    length (running [] (enforce_strategy_cap trimmed digits one boot registry (some "1")))
    ≤ max 1 (held_enabled [] ("c" ∷ "c" ∷ []) registry)
enforce_strategy_cap-few_example =
    enforce_strategy_cap-few trimmed digits one boot registry (some "1") ("c" ∷ "c" ∷ []) 1
      (record { disabled = []; opted_in = [] }) refl one-reads refl refl refl

-- The only list of these cases, as it splits at its commas.
abbrev at_commas : String → List String
at_commas t = "a" ∷ "c" ∷ "z" ∷ []

abbrev mainnet_settings : SelectionSettings
mainnet_settings = record {
  is_mainnet = true;
  mainnet_enabled_strategies = "a,c,z";
  tenant_allowed_strategies = some "";
  tenant_max_active_strategies = some "1";
  has_tenant = true;
}

abbrev tick_reads : TickReads
tick_reads = record {
  wired = true;
  paused = false;
  disabled = "a" ∷ [];
  opted_in = some ("c" ∷ []);
}

abbrev no_json : String → Option (List String)
no_json t = none

active-layers_example :
    contains "c" (
      active_names mainnet_settings tick_reads
        (instantiated_names trimmed at_commas no_json digits one mainnet_settings boot registry))
    ≡ (contains "c"
          (instantiated_names trimmed at_commas no_json digits one mainnet_settings boot registry)
        && true)
unfolding parse_tenant_allowlist
active-layers_example =
    active-layers trimmed at_commas no_json digits one mainnet_settings boot tick_reads registry "c"
      refl

abbrev vault : VaultSnapshot
vault = record {
  summary = record {
    address = "0x1";
    tvl_usd = pos 500000;
    is_closed = false;
    relationship_type = "normal";
    age_days = pos 200;
    apr = pos 1;
  };
  details = record {
    leader_fraction = pos 1;
    leader_commission = pos 0;
    allow_deposits = true;
    is_closed = false;
  };
  metrics = record {
    roi_90d = some (pos 2);
    roi_180d = some (pos 2);
    roi_365d = none;
    max_drawdown_pct = some (pos 0);
    sharpe_180d = some (pos 2);
  };
}

abbrev strict : FilterConfig
strict = record {
  min_age_days = pos 180;
  min_roi_90d = pos 0;
  min_roi_180d = pos 0;
  min_roi_365d = pos 0;
  max_drawdown_pct = pos 0;
  min_sharpe_180d = pos 1;
  min_manager_equity_pct = pos 0;
  min_aum_usd = pos 200000;
  max_aum_usd = pos 20000000;
  max_profit_share_pct = pos 0;
  require_open_to_deposits = true;
}

vault-qualifies : (evaluate vault (some strict)).qualified ≡ true
unfolding evaluate
vault-qualifies = refl

apr-above : ltb_ℤ vault.summary.apr (whole_floats.neg (pos 0)) ≡ false
unfolding ◌-ℤ◌
apr-above = refl

coarse_prefilter-keeps_example :
    coarse_prefilter ([] ++ vault.summary ∷ []) (some strict)
    ≡ coarse_prefilter [] (some strict) ++ vault.summary ∷ coarse_prefilter [] (some strict)
coarse_prefilter-keeps_example =
    coarse_prefilter-keeps vault (some strict) [] [] vault-qualifies refl refl apr-above

evaluate-Looser_example :
    (evaluate vault (some (record strict { min_age_days = pos 90 }))).qualified ≡ true
evaluate-Looser_example =
    evaluate-Looser whole_exact vault (record strict { min_age_days = pos 90 }) strict
      (
        refl,
        omega arith,
        omega arith,
        omega arith,
        omega arith,
        omega arith,
        omega arith,
        omega arith,
        omega arith,
        omega arith,
        omega arith,
      )
      vault-qualifies
