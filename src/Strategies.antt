-- ===== src/Strategies.antt =====
-- Which strategies run: engine/strategy_allowlist.py, and the tenant's cap of
-- engine/strategy_cap.py in the children. A Python set of names is a list asked by `contains`.
-- `str.strip`, `str.split`, `re.fullmatch`, `int` and `json.loads` are parameters.
pub mod Sort
pub mod Cap
pub mod Layers
use xupertrade.Engine.Guard.{text}
use xupertrade.Prelude.{
  Bool, List, Option, String, [], arith, contains, eq_iff, false, filter, if◌then◌else◌, map, none,
  not, refl, some, true, ◌&&◌, ◌==◌, ◌∷◌, ◌≡◌,
}

-- The strategies of a tick, by name.
pub filter_strategies_for_tick : List String → List String → Option (List String) → List String
filter_strategies_for_tick names disabled none = filter (λ n. not (contains n disabled)) names
filter_strategies_for_tick names disabled (some mainnet_enabled) =
    filter (λ n. not (contains n disabled) && contains n mainnet_enabled) names

module _ (strip : String → String) (split_commas : String → List String) where
  -- {n.strip() for n in raw.split(",") if n.strip()}
  abbrev pub requested_names : String → List String
  requested_names raw = filter (λ n. not (n == "")) (map strip (split_commas raw))

  pub apply_mainnet_allowlist : List String → Bool → String → List String
  apply_mainnet_allowlist all_names false raw_csv = all_names
  apply_mainnet_allowlist all_names true raw_csv =
      let raw = strip raw_csv in
      if raw == "" then [] else filter (λ n. contains n (requested_names raw)) all_names

pub apply_tenant_allowlist : List String → Option (List String) → List String
apply_tenant_allowlist names none = names
apply_tenant_allowlist names (some tenant_allowlist) =
    filter (λ n. contains n tenant_allowlist) names

-- `json.loads`, where the text is a JSON array of strings; none for every other text.
abbrev pub or_empty : Option (List String) → List String
or_empty none = []
or_empty (some names) = names

-- `raw or ""`
abbrev pub or_blank : Option String → String
or_blank none = ""
or_blank (some raw) = raw

module _ (strip : String → String) (json_strings : String → Option (List String)) where
  unfoldable pub parse_tenant_allowlist : Option String → Option (List String)
  parse_tenant_allowlist raw =
      let text = strip (or_blank raw) in
      if text == "" then none else some (or_empty (json_strings text))

-- The filters' effect on one name.
pub contains-filter :
    (a : String) (p : String → Bool) (xs : List String)
    → contains a (filter p xs) ≡ (contains a xs && p a)
contains-filter a p [] = refl
contains-filter a p (x ∷ xs) = ground (arith, contains-filter a p xs, eq_iff x a)
