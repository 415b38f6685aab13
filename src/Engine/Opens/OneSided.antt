-- ===== src/Engine/Opens/OneSided.antt =====
-- runner.py and repo.py together: the sides of the open rows on one coin.
use xupertrade.Control.{BotControl}
use xupertrade.Engine.Opens.{
  Caps, Signal, Wanted, of_others, on_coin, open_refusal, opposite, opposite_gate,
}
use xupertrade.Engine.Opens.Exposure.{open_refusal-Admitted, signal_of}
use xupertrade.Exchange.{PositionSide, long, same_side, short}
use xupertrade.Float.{Floats, Number}
use xupertrade.Prelude.{
  All, All-snoc, All-map, Bool, List, List-cases, Option, String, [], ap, arith, eq_iff, inl, inr,
  none, not, refl, some, subst, sym, true, ℕ, ◌++◌, ◌==◌, ◌||◌, ◌∷◌, ◌≡◌,
}
use xupertrade.Reconcile.Backfill.{Trade}
use xupertrade.Repository.{
  Database, Row, new_row, open_position_rows, record_trade_and_open_position,
}
use xupertrade.Repository.Reconciler.{is_nonempty}
use xupertrade.Repository.SignalPath.{open_position_rows-open}

module _ ⦃N : Floats⦄ where
  -- Two rows of different strategies on one coin stand on the same side.
  abbrev pub agrees : Row → Row → Bool
  agrees p q =
      not (p.symbol == q.symbol) || (p.strategy_name == q.strategy_name || same_side p.side q.side)

  abbrev pub IsOneSided : List Row → Type 0
  IsOneSided rows = All (λ p. All (λ q. agrees p q ≡ true) rows) rows

  same_side_comm : (a b : PositionSide) → same_side a b ≡ same_side b a
  same_side_comm long long = refl
  same_side_comm long short = refl
  same_side_comm short long = refl
  same_side_comm short short = refl

  opposite_gate-none :
      (signal : Signal) (side : PositionSide) (others : List Row)
      → opposite_gate signal side others ≡ none
      → opposite side (on_coin signal others) ≡ []
  unfolding opposite_gate
  opposite_gate-none signal side others admitted =
      elim (List-cases (opposite side (on_coin signal others))) [
        | inl clear ↦ clear
        | inr (r, l, found) ↦ ground (arith, ap is_nonempty found)
      ]

  -- The new row, of this strategy, coin and side, against every other one.
  abbrev Fits : Signal → PositionSide → Row → Type 0
  Fits signal side q =
      ((not (signal.symbol == q.symbol)
          || (signal.strategy_name == q.strategy_name || same_side side q.side))
        ≡ true)
      × ((not (q.symbol == signal.symbol)
            || (q.strategy_name == signal.strategy_name || same_side q.side side))
          ≡ true)

  opposite-Fits :
      (signal : Signal) (side : PositionSide) (rows : List Row)
      → opposite side (on_coin signal (of_others signal rows)) ≡ []
      → All (Fits signal side) rows
  opposite-Fits signal side [] clear = tt
  opposite-Fits signal side (r ∷ rows) clear = (
    ground (
      arith,
      eq_iff signal.symbol r.symbol,
      eq_iff r.symbol signal.symbol,
      eq_iff signal.strategy_name r.strategy_name,
      eq_iff r.strategy_name signal.strategy_name,
      same_side_comm side r.side,
    ),
    opposite-Fits signal side rows (ground arith),
  )

  IsOneSided-snoc :
      (rows : List Row) (row : Row)
      → IsOneSided rows
      → All (λ q. (agrees row q ≡ true) × (agrees q row ≡ true)) rows
      → agrees row row ≡ true
      → IsOneSided (rows ++ row ∷ [])
  IsOneSided-snoc rows row h fits own =
      let against =
        All-map (λ q. (agrees row q ≡ true) × (agrees q row ≡ true)) (λ q. agrees row q ≡ true) rows
          (λ q f. f.0) fits in
      All-snoc (λ p. All (λ q. agrees p q ≡ true) (rows ++ row ∷ [])) rows row (widened rows h fits)
        (All-snoc (λ q. agrees row q ≡ true) rows row against own)
    where
      widened :
          (l : List Row)
          → All (λ p. All (λ q. agrees p q ≡ true) rows) l
          → All (λ q. (agrees row q ≡ true) × (agrees q row ≡ true)) l
          → All (λ p. All (λ q. agrees p q ≡ true) (rows ++ row ∷ [])) l
      widened [] k f = tt
      widened (p ∷ l) k f =
          (All-snoc (λ q. agrees p q ≡ true) rows row k.0 f.0.1, widened l k.1 f.1)

  -- Where no two strategies stand on opposite sides of a coin, an open that was not refused and is
  -- written keeps it so.
  pub open_refusal-IsOneSided :
      (mode : String) (family : String → Option String) (caps : Caps) (control : Option BotControl)
      (flag : Bool) (asked : Option Number) (w : Wanted) (t : Trade) (commits : Bool) (now : ℕ)
      (db after : Database)
      → open_refusal mode family caps control flag (signal_of asked t) w (some db) ≡ none
      → record_trade_and_open_position mode commits now t w.side db ≡ some after
      → IsOneSided (open_position_rows mode db)
      → IsOneSided (open_position_rows mode after)
  open_refusal-IsOneSided mode family caps control flag asked w t commits now db after admitted
        written h =
      let signal = signal_of asked t in
      let rows = open_position_rows mode db in
      let row = new_row mode now t.strategy_name t.symbol w.side t.size t.price db.next_id in
      let checked = open_refusal-Admitted mode family caps control flag signal w db admitted in
      subst IsOneSided (sym (open_position_rows-open mode commits now t w.side db after written)) (
        IsOneSided-snoc rows row h
          (opposite-Fits signal w.side rows
            (opposite_gate-none signal w.side (of_others signal rows) checked.0))
          (ground (arith, eq_iff t.strategy_name t.strategy_name)))
