-- ===== src/Funding/Attribution.antt =====
-- engine/funding.py: the position that a payment is attributed to.
use xupertrade.Float.{Floats}
use xupertrade.Funding.{
  FundingEvent, Position, attribute, choose, closed_after, from_ms, get_positions_covering,
  opened_by, to_ms,
}
use xupertrade.Prelude.{
  Bool, List, Option, String, [], ap, arith, contains, eq_iff, filter, none, refl, some, true, ℕ,
  ◌∷◌, ◌≡◌, ◌≤◌,
}

to_ms-from_ms : (ms : ℕ) → to_ms (from_ms ms) ≡ ms
unfolding to_ms from_ms
to_ms-from_ms ms = omega arith

module _ ⦃N : Floats⦄ where
  filter-filter :
      (p q : Position → Bool) (rows : List Position)
      → ((r : Position) → p r ≡ true → q r ≡ true)
      → filter p (filter q rows) ≡ filter p rows
  filter-filter p q [] sub = refl
  filter-filter p q (r ∷ rows) sub = ground (arith, sub r, filter-filter p q rows sub)

  opened_mono :
      (o : Option ℕ) (ts end : ℕ) → ts ≤ end → opened_by o ts ≡ true → opened_by o end ≡ true
  opened_mono none ts end h e = e
  opened_mono (some at) ts end h e = ground arith

  closed_mono :
      (o : Option ℕ) (is_open : Bool) (start ts : ℕ)
      → start ≤ ts
      → closed_after o is_open ts ≡ true
      → closed_after o is_open start ≡ true
  closed_mono none is_open start ts h e = e
  closed_mono (some at) is_open start ts h e = ground arith

  -- Asking the database only for the positions that overlap the page's time span and coins loses
  -- nothing: every event of the page is attributed as if all positions had been looked at.
  pub attribute-get_positions_covering :
      (coins : List String) (start end : ℕ) (rows : List Position) (e : FundingEvent)
      → contains e.coin coins ≡ true
      → start ≤ e.ts
      → e.ts ≤ end
      → attribute (get_positions_covering coins start end rows) e ≡ attribute rows e
  unfolding attribute get_positions_covering
  attribute-get_positions_covering coins start end rows e known from to = ap (choose e.szi) (
      filter-filter _ _ rows (λ p h. ground (
        arith,
        eq_iff p.symbol e.coin,
        opened_mono p.opened_at e.ts end to,
        closed_mono p.closed_at p.is_open start e.ts from,
      )))
