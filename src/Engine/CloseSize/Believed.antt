-- ===== src/Engine/CloseSize/Believed.antt =====
-- runner.py: what a strategy believes after a close that found nothing.
use mathlib.Core.Option.{map as map_option}
use xupertrade.Engine.CloseSize.{
  Beliefs, Methods, nothing, reset_first, reset_strategy_state, resolve_close_size, streak_of_other,
}
use xupertrade.Exchange.{Position, PositionSide}
use xupertrade.Float.{Floats, Number, nil, ◌≺◌}
use xupertrade.Prelude.{
  All, Bool, Bool-cases, List, Option, String, [], ap, arith, eq_iff, false, filter, if◌then◌else◌,
  inl, inr, none, refl, some, true, ℕ, ◌==◌, ◌∙◌, ◌∷◌, ◌≡◌,
}
use xupertrade.Reconcile.Backfill.{Trade}
use xupertrade.Reconcile.Ledger.Spending.{spent}
use xupertrade.Repository.{
  Database, Row, get_open_position, no_row, one_row, record_trade_and_close_position,
}
use xupertrade.Repository.SignalPath.{close-get_open_position}

-- The first strategy of a name.
abbrev pub named : {S : Type 0} → Methods S → String → List S → Option S
named m strategy_name [] = none
named m strategy_name (s ∷ rest) =
    if m.name s == strategy_name then some s else named m strategy_name rest

-- Nothing of that name stays believed: no streak of rejected closes, and the strategy of that
-- name, if there is one, is as `reset_position` left it.
pub record IsForgotten {S R : Type 0} (m : Methods S) (strategy_name : String)
    (before after : Beliefs S R) : Type 0 where
  pub no_streak : All (λ k. streak_of_other strategy_name k ≡ true) after.close_rejects
  pub as_reset :
      named m strategy_name after.strategies
      ≡ map_option (λ s. (m.reset_position s).0) (named m strategy_name before.strategies)
  pub others_stay :
      (name : String)
      → (name == strategy_name) ≡ false
      → named m name after.strategies ≡ named m name before.strategies

streak_of_other-All :
    {R : Type 0} (n : String) (l : List ((String × String) × R))
    → All (λ k. streak_of_other n k ≡ true) (filter (λ k. streak_of_other n k) l)
streak_of_other-All n [] = tt
streak_of_other-All n (k ∷ l) = elim (Bool-cases (streak_of_other n k)) [
  | inl other ↦ simp other (refl, streak_of_other-All n l)
  | inr own ↦ simp own (streak_of_other-All n l)
]

module _ {S : Type 0} (m : Methods S)
    (keeps : (s : S) → m.name (m.reset_position s).0 ≡ m.name s) where
  named-reset_first :
      (n : String) (l : List S)
      → named m n (reset_first m n l).0 ≡ map_option (λ s. (m.reset_position s).0) (named m n l)
  named-reset_first n [] = refl
  named-reset_first n (s ∷ l) = elim (Bool-cases (m.name s == n)) [
    | inl own ↦ simp (own, keeps s) refl
    | inr other ↦ simp other (named-reset_first n l)
  ]

  named-reset_first_ne :
      (n name : String) (l : List S)
      → (name == n) ≡ false
      → named m name (reset_first m n l).0 ≡ named m name l
  named-reset_first_ne n name [] h = refl
  named-reset_first_ne n name (s ∷ l) h = elim (Bool-cases (m.name s == n)) [
    | inl own ↦ simp (own, keeps s, not_named own) refl
    | inr other ↦
        simp other
          (ap (λ r. if m.name s == name then some s else r) (named-reset_first_ne n name l h))
  ]
    where
      not_named : m.name s == n ≡ true → (m.name s == name) ≡ false
      not_named own = ground (arith, eq_iff (m.name s) n, eq_iff name n, eq_iff (m.name s) name)

  reset_strategy_state-IsForgotten :
      {R : Type 0} (n : String) (b : Beliefs S R) → IsForgotten m n b (reset_strategy_state m n b)
  unfolding reset_strategy_state
  reset_strategy_state-IsForgotten n b = record {
    no_streak = streak_of_other-All n b.close_rejects;
    as_reset = named-reset_first n b.strategies;
    others_stay = λ name h. named-reset_first_ne n name b.strategies h;
  }

  module _ ⦃N : Floats⦄ {R : Type 0} where
    -- After a close that is written, of the one open row of the strategy and the symbol, and that
    -- leaves nothing of it, a further close sends nothing, whatever the exchange answers. If
    -- resets keep the names of strategies, it leaves no streak of rejected closes of the strategy,
    -- has reset the first strategy of that name, and left those of other names as they were.
    pub closed-resolve_close_size :
        (mode : String) (commits : Bool) (now : ℕ) (t : Trade) (pnl remaining : Number)
        (db after : Database) (r : Row) (side : PositionSide) (answer : Option (Option Position))
        (b : Beliefs S R)
        → get_open_position mode t.strategy_name t.symbol db ≡ one_row r
        → record_trade_and_close_position mode commits now t pnl remaining db ≡ some after
        → nil ≺ remaining ≡ false
        → ((resolve_close_size m (some (mode, after)) answer t.strategy_name t.symbol side b).0
            ≡ nothing)
          × IsForgotten m t.strategy_name b
              ((resolve_close_size m (some (mode, after)) answer t.strategy_name t.symbol side b).1)
    unfolding resolve_close_size
    closed-resolve_close_size mode commits now t pnl remaining db after r side answer b found
          written spent =
        let gone : get_open_position mode t.strategy_name t.symbol after ≡ no_row =
          close-get_open_position mode commits now t pnl remaining db after r found written
          ∙ ap (λ k. if k then one_row (record r { size = remaining }) else no_row) spent in
        simp gone (refl, reset_strategy_state-IsForgotten t.strategy_name b)
