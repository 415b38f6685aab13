-- ===== src/Engine/CloseSize.antt =====
-- runner.py: the size of a close, `_resolve_close_size`, and the reset of a strategy that it
-- makes. The strategies are a type; what their methods do is an argument. Log lines are left out.
pub mod Bounded
pub mod Believed
use xupertrade.Exchange.{Position, PositionSide, same_side}
use xupertrade.Float.{Floats, Number, nil, ◌≺◌, ◌⊕◌}
use xupertrade.Funding.Ingest.{done}
use xupertrade.Prelude.{
  Bool, List, Option, String, [], filter, if◌then◌else◌, none, not, some, ◌&&◌, ◌++◌, ◌==◌, ◌∷◌,
}
use xupertrade.Repository.{
  Database, OneOrNone, Row, get_open_position, no_row, one_row, several_rows,
}

-- What the runner asks of a strategy: its name, and `reset_position`, with the strategy it leaves
-- and whether it returned.
pub record Methods (S : Type 0) : Type 0 where
  pub name : S → String
  pub reset_position : S → S × Bool

-- What `_reset_strategy_state` changes: the strategies in memory, the streaks of rejected closes
-- (`_close_rejects`), and the snapshots that were given to `_save_strategy_snapshot`, in order.
pub record Beliefs (S R : Type 0) : Type 0 where
  pub strategies : List S
  pub close_rejects : List ((String × String) × R)
  pub saves : List S

-- The first strategy of that name is reset, and handed on for its snapshot if that returned.
abbrev pub reset_first : {S : Type 0} → Methods S → String → List S → List S × List S
reset_first m strategy_name [] = ([], [])
reset_first m strategy_name (s ∷ rest) =
    let after = reset_first m strategy_name rest in
    let done = m.reset_position s in
    if m.name s == strategy_name
    then (done.0 ∷ rest, if done.1 then done.0 ∷ [] else [])
    else (s ∷ after.0, after.1)

abbrev pub streak_of_other : {R : Type 0} → String → (String × String) × R → Bool
streak_of_other strategy_name ((name, symbol), streak) = not (name == strategy_name)

unfoldable pub reset_strategy_state :
    {S R : Type 0} → Methods S → String → Beliefs S R → Beliefs S R
reset_strategy_state m strategy_name b =
    let after = reset_first m strategy_name b.strategies in
    record {
      strategies = after.0;
      close_rejects = filter (λ k. streak_of_other strategy_name k) b.close_rejects;
      saves = b.saves ++ after.1;
    }

module _ ⦃N : Floats⦄ where
  -- `_held_on_side`
  abbrev pub held_on_side : Option Position → PositionSide → Number
  held_on_side none side = nil
  held_on_side (some p) side = if same_side p.side side then p.size else nil

  abbrev pub eps : Number
  eps = N.decimal 1 9

  -- The answers: nothing to close, a size with the row that it closes, or an exception.
  pub data CloseSize : Type 0 where
    nothing : CloseSize
    close_at : Number → Option Row → CloseSize
    raises : CloseSize

  -- The size for a row, from what `get_position` answered; none is a read that failed.
  abbrev pub clamped : Row → PositionSide → Option (Option Position) → Number
  clamped r side none = r.size
  clamped r side (some p) =
      let size = held_on_side p side in
      if (eps ≺ size) && (size ⊕ eps ≺ r.size) then size else r.size

  module _ {S R : Type 0} (m : Methods S) where
    abbrev pub size_of_row :
        String
        → PositionSide
        → Option (Option Position)
        → OneOrNone
        → Beliefs S R
        → CloseSize × Beliefs S R
    size_of_row strategy_name side answer several_rows b = (raises, b)
    size_of_row strategy_name side answer no_row b =
        (nothing, reset_strategy_state m strategy_name b)
    size_of_row strategy_name side answer (one_row r) b =
        if same_side r.side side
        then (close_at (clamped r side answer) (some r), b)
        else (nothing, b)

    -- Without a database, the size is the exchange's.
    abbrev pub size_of_exchange :
        String → PositionSide → Option (Option Position) → Beliefs S R → CloseSize × Beliefs S R
    size_of_exchange strategy_name side none b = (raises, b)
    size_of_exchange strategy_name side (some none) b =
        (nothing, reset_strategy_state m strategy_name b)
    size_of_exchange strategy_name side (some (some p)) b =
        if same_side p.side side
        then (close_at p.size none, b)
        else (nothing, reset_strategy_state m strategy_name b)

    -- The repository is its mode and its tables.
    unfoldable pub resolve_close_size :
        Option (String × Database)
        → Option (Option Position)
        → String
        → String
        → PositionSide
        → Beliefs S R
        → CloseSize × Beliefs S R
    resolve_close_size (some (mode, db)) answer strategy_name symbol side b =
        size_of_row strategy_name side answer (get_open_position mode strategy_name symbol db) b
    resolve_close_size none answer strategy_name symbol side b =
        size_of_exchange strategy_name side answer b
