-- ===== src/Strategies/Layers.antt =====
-- main.py and runner.py: which strategies are instantiated at boot, and which of them run in a
-- tick. A strategy stands for its name. What Redis and the database answer is an argument.
pub mod Running
use xupertrade.Prelude.{Bool, List, Option, String, [], if◌then◌else◌, none, some, ℕ, ◌&&◌}
use xupertrade.Strategies.{
  apply_mainnet_allowlist, apply_tenant_allowlist, filter_strategies_for_tick, or_empty,
  parse_tenant_allowlist,
}
use xupertrade.Strategies.Cap.{Boot, enforce_strategy_cap}

-- The settings that the two read.
pub record SelectionSettings : Type 0 where
  pub is_mainnet : Bool
  pub mainnet_enabled_strategies : String
  pub tenant_allowed_strategies : Option String
  pub tenant_max_active_strategies : Option String
  -- whether `tenant_id` is set and not empty
  pub has_tenant : Bool

-- What a tick reads: `paused` is as it stands after the flat-all and the pending restore;
-- `opted_in` is none where the read raises.
pub record TickReads : Type 0 where
  pub wired : Bool
  pub paused : Bool
  pub disabled : List String
  pub opted_in : Option (List String)

-- The part of `main` from the registered names to those that are instantiated.
module _ (strip : String → String) (split_commas : String → List String)
    (json_strings : String → Option (List String)) (all_digits : String → Bool)
    (int : String → ℕ) where
  pub instantiated_names : SelectionSettings → Boot → List String → List String
  instantiated_names settings boot all_names =
      let allowed =
        apply_mainnet_allowlist strip split_commas all_names settings.is_mainnet
          settings.mainnet_enabled_strategies in
      let admitted =
        apply_tenant_allowlist allowed
          (parse_tenant_allowlist strip json_strings settings.tenant_allowed_strategies) in
      (enforce_strategy_cap strip all_digits int
        (record boot { mainnet_tenant = settings.is_mainnet && settings.has_tenant }) admitted
        settings.tenant_max_active_strategies).names

-- `disabled`, which is empty without Redis
abbrev pub disabled_names : TickReads → List String
disabled_names reads = if reads.wired then reads.disabled else []

-- `mainnet_enabled`: None without Redis, outside mainnet or without a tenant; no name where the
-- read raises.
abbrev pub mainnet_enabled : SelectionSettings → TickReads → Option (List String)
mainnet_enabled settings reads =
    if reads.wired && (settings.is_mainnet && settings.has_tenant)
    then some (or_empty reads.opted_in)
    else none

-- The part of `tick` that chooses the strategies to run.
pub active_names : SelectionSettings → TickReads → List String → List String
active_names settings reads names =
    if reads.paused
    then []
    else filter_strategies_for_tick names (disabled_names reads) (mainnet_enabled settings reads)
