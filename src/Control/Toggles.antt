-- ===== src/Control/Toggles.antt =====
-- engine/control.py: the strategies' switches.
use xupertrade.Control.{
  BotControl, disable_strategy, enable_strategy, is_strategy_enabled, state_of,
}
use xupertrade.Prelude.{
  List, String, ap, arith, contains, eq_iff, if◌then◌else◌, not, true, ◌&&◌, ◌==◌, ◌||◌, ◌∙◌, ◌∷◌,
  ◌≡◌,
}
use xupertrade.Strategies.{contains-filter}

contains-add :
    (name j : String) (names : List String)
    → contains j (if contains name names then names else name ∷ names)
      ≡ (name == j || contains j names)
contains-add name j names = ground (arith, eq_iff name j)

enabled-disable :
    (name j : String) (c : BotControl)
    → c.connected ≡ true
    → is_strategy_enabled j (state_of (disable_strategy true name c))
      ≡ (not (name == j) && is_strategy_enabled j c)
unfolding disable_strategy is_strategy_enabled
enabled-disable name j c wired =
    simp wired (ap not (contains-add name j c.disabled_key) ∙ ground arith)

enabled-enable :
    (name j : String) (c : BotControl)
    → c.connected ≡ true
    → is_strategy_enabled j (state_of (enable_strategy true name c))
      ≡ (name == j || is_strategy_enabled j c)
unfolding enable_strategy is_strategy_enabled
enabled-enable name j c wired = simp wired (
    ap not (contains-filter j (λ n. not (n == name)) c.disabled_key)
    ∙ ground (arith, eq_iff name j, eq_iff j name))

connected-disable :
    (name : String) (c : BotControl)
    → (state_of (disable_strategy true name c)).connected ≡ c.connected
unfolding disable_strategy
connected-disable name c = ground arith

-- With Redis, switching a strategy off and on again are read back for that strategy, whatever it
-- was before, and leave every other strategy as it was.
disable-enable :
    (name j : String) (c : BotControl)
    → c.connected ≡ true
    → let off = state_of (disable_strategy true name c) in
      let on = state_of (enable_strategy true name off) in
      (is_strategy_enabled j off ≡ (not (name == j) && is_strategy_enabled j c))
      × (is_strategy_enabled j on ≡ (name == j || is_strategy_enabled j c))
disable-enable name j c wired =
    let off = state_of (disable_strategy true name c) in
    let switched = enabled-disable name j c wired in
    (switched, enabled-enable name j off (connected-disable name c ∙ wired) ∙ ground arith)
