-- ===== src/Strategies/Layers/Running.antt =====
-- main.py, runner.py, engine/strategy_allowlist.py and strategy_cap.py: the layers together.
-- Whether the tenant's allowlist lets a name through.
use xupertrade.Prelude.{
  Bool, Bool-cases, List, Option, String, ap, arith, contains, inl, inr, none, not, refl, some,
  true, ℕ, ◌&&◌, ◌==◌, ◌||◌, ◌∙◌, ◌≡◌,
}
use xupertrade.Strategies.{
  apply_mainnet_allowlist, apply_tenant_allowlist, contains-filter, filter_strategies_for_tick,
  or_empty, parse_tenant_allowlist, requested_names,
}
use xupertrade.Strategies.Cap.{Boot}
use xupertrade.Strategies.Cap.Count.{running}
use xupertrade.Strategies.Cap.Within.{Within-cap}
use xupertrade.Strategies.Layers.{
  SelectionSettings, TickReads, active_names, disabled_names, instantiated_names, mainnet_enabled,
}

abbrev pub allows : Option (List String) → String → Bool
allows none n = true
allows (some tenant_allowlist) n = contains n tenant_allowlist

contains-tick :
    (names off : List String) (opted : Option (List String)) (n : String)
    → contains n (filter_strategies_for_tick names off opted)
      ≡ (contains n names && (not (contains n off) && allows opted n))
unfolding filter_strategies_for_tick
contains-tick names off none n = contains-filter n (λ m. not (contains m off)) names ∙ ground arith
contains-tick names off (some opted) n =
    contains-filter n (λ m. not (contains m off) && contains m opted) names

contains-active :
    (settings : SelectionSettings) (reads : TickReads) (names : List String) (n : String)
    → contains n (active_names settings reads names) ≡ (
        not reads.paused
        && (contains n names
            && (not (contains n (disabled_names reads))
                && allows (mainnet_enabled settings reads) n)))
unfolding active_names
contains-active settings reads names n = elim (Bool-cases reads.paused) [
  | inl halted ↦ rw halted refl
  | inr running ↦
      rw running (contains-tick names (disabled_names reads) (mainnet_enabled settings reads) n)
]

contains-tenant :
    (names : List String) (allowed : Option (List String)) (n : String)
    → contains n (apply_tenant_allowlist names allowed) ≡ (contains n names && allows allowed n)
unfolding apply_tenant_allowlist
contains-tenant names none n = ground arith
contains-tenant names (some allowed) n = contains-filter n (λ m. contains m allowed) names

contains-disabled_names :
    (reads : TickReads) (n : String)
    → contains n (disabled_names reads) ≡ (reads.wired && contains n reads.disabled)
contains-disabled_names reads n = elim (Bool-cases reads.wired) [
  | inl wired ↦ rw wired refl
  | inr bare ↦ rw bare refl
]

allows-mainnet_enabled :
    (settings : SelectionSettings) (reads : TickReads) (n : String)
    → settings.is_mainnet ≡ true
    → allows (mainnet_enabled settings reads) n
      ≡ (not (reads.wired && settings.has_tenant) || contains n (or_empty reads.opted_in))
allows-mainnet_enabled settings reads n live =
    elim (Bool-cases (reads.wired && settings.has_tenant)) [
      | inl asked ↦ rw live (rw asked refl)
      | inr free ↦ rw live (rw free refl)
    ]

-- The layers' answers in the order of the statement.
in_order :
    (kept registered given requested allowed free on opted : Bool)
    → kept ≡ (kept && ((registered && (given && requested)) && allowed))
    → (free && (kept && (on && opted)))
      ≡ (kept && (given && (requested && (registered && (allowed && (free && (on && opted)))))))
in_order kept registered given requested allowed free on opted h = ground arith

module _ (strip : String → String) (split_commas : String → List String) where
  contains-mainnet :
      (all_names : List String) (raw_csv : String) (n : String)
      → contains n (apply_mainnet_allowlist strip split_commas all_names true raw_csv) ≡ (
          contains n all_names
          && (not (strip raw_csv == "")
              && contains n (requested_names strip split_commas (strip raw_csv))))
  unfolding apply_mainnet_allowlist
  contains-mainnet all_names raw_csv n = elim (Bool-cases (strip raw_csv == "")) [
    | inl blank ↦ rw blank (ground arith)
    | inr given ↦ rw given (
        contains-filter n (λ m. contains m (requested_names strip split_commas (strip raw_csv)))
          all_names)
  ]

  module _ (json_strings : String → Option (List String)) (all_digits : String → Bool)
      (int : String → ℕ) where
    -- On mainnet, a strategy runs in a tick exactly if the boot instantiated it, the operator's list
    -- is not blank and names it, it is registered, the tenant's allowlist (if there is one) names
    -- it, the bot is not paused, it is not switched off, and, with Redis and a tenant, the tenant
    -- has opted in by a set that could be read.
    pub active-layers :
        (settings : SelectionSettings) (boot : Boot) (reads : TickReads) (all_names : List String)
        (n : String)
        → settings.is_mainnet ≡ true
        → (let names =
              instantiated_names strip split_commas json_strings all_digits int settings boot
                all_names in
            let raw = strip settings.mainnet_enabled_strategies in
            contains n (active_names settings reads names) ≡ (
              contains n names
              && (not (raw == "")
                  && (contains n (requested_names strip split_commas raw)
                      && (contains n all_names
                          && (allows
                                (parse_tenant_allowlist strip json_strings
                                  settings.tenant_allowed_strategies)
                                n
                              && (not reads.paused
                                  && (not (reads.wired && contains n reads.disabled)
                                      && (not (reads.wired && settings.has_tenant)
                                          || contains n (or_empty reads.opted_in))))))))))
    unfolding instantiated_names
    active-layers settings boot reads all_names n live =
        let raw = strip settings.mainnet_enabled_strategies in
        let tenant_names =
          parse_tenant_allowlist strip json_strings settings.tenant_allowed_strategies in
        let allowed =
          apply_mainnet_allowlist strip split_commas all_names settings.is_mainnet
            settings.mainnet_enabled_strategies in
        let names =
          instantiated_names strip split_commas json_strings all_digits int settings boot
            all_names in
        let listed : contains n allowed ≡ (
            contains n all_names
            && (not (raw == "") && contains n (requested_names strip split_commas raw))) =
          rw live (contains-mainnet all_names settings.mainnet_enabled_strategies n) in
        let admitted =
          contains-tenant allowed tenant_names n ∙ ap (λ b. b && allows tenant_names n) listed in
        let within =
          Within-cap strip all_digits int n
            (record boot { mainnet_tenant = settings.is_mainnet && settings.has_tenant })
            (apply_tenant_allowlist allowed tenant_names) settings.tenant_max_active_strategies in
        contains-active settings reads names n
        ∙ rw (contains-disabled_names reads n, allows-mainnet_enabled settings reads n live)
            (in_order (contains n names) (contains n all_names) (not (raw == ""))
              (contains n (requested_names strip split_commas raw)) (allows tenant_names n)
              (not reads.paused) (not (reads.wired && contains n reads.disabled))
              (not (reads.wired && settings.has_tenant) || contains n (or_empty reads.opted_in))
              (within ∙ ap (λ b. contains n names && b) admitted))
