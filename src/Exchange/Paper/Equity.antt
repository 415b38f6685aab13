-- ===== src/Exchange/Paper/Equity.antt =====
-- exchange/paper.py: the account's total under exact arithmetic.
pub mod Entering
pub mod Crossing
pub mod Filled
use xupertrade.Dict.{Dict, lookup, total}
use xupertrade.Exchange.{Position, is_long, long, short}
use xupertrade.Exchange.Paper.{PaperExchange, refresh, refresh_all}
use xupertrade.Exchange.Paper.Funds.{get_balance, mark, position_equity}
use xupertrade.Float.{ExactLaws, Floats, Number, nil, ◌≺◌, ◌⊕◌, ◌⊖◌, ◌⊗◌}
use xupertrade.Prelude.{
  Bool-cases, String, [], arith, false, if◌then◌else◌, inl, inr, refl, some, ◌∙◌, ◌∷◌, ◌≡◌,
}
use xupertrade.Prelude.Int.{gap_ℤ, int_laws, pos, tie_ℤ, ℤ, ◌+ℤ◌, ◌-ℤ◌}

module _ ⦃N : Floats⦄ (exact : ExactLaws) where
  open exact use {value, value-add, value-sub, value-nil, mul-sub, mul-add, mul_comm, value-lt}

  -- What a position is worth at a table of prices: a short is owed.
  pub worth : Dict Number → Position → ℤ
  worth prices p =
      if is_long p.side
      then value (p.size ⊗ mark prices p)
      else pos 0 -ℤ value (p.size ⊗ mark prices p)

  value-position_equity :
      (prices : Dict Number) (d : Dict Position) (acc : Number)
      → value (position_equity prices d acc) ≡ value acc +ℤ total (worth prices) d
  unfolding position_equity worth
  value-position_equity prices [] acc = omega int_laws
  value-position_equity prices ((k, p) ∷ d) acc = elim (Bool-cases (is_long p.side)) [
    | inl up ↦
        rw (up, value-position_equity prices d (acc ⊕ (p.size ⊗ mark prices p)), value-add)
          (omega int_laws)
    | inr down ↦
        rw (down, value-position_equity prices d (acc ⊖ (p.size ⊗ mark prices p)), value-sub)
          (omega int_laws)
  ]

  worth-refresh :
      (prices : Dict Number) (p : Position) → worth prices (refresh prices p) ≡ worth prices p
  unfolding worth refresh
  worth-refresh prices p = ground arith

  total-refresh_all :
      (prices : Dict Number) (d : Dict Position)
      → total (worth prices) (refresh_all prices d) ≡ total (worth prices) d
  total-refresh_all prices [] = refl
  total-refresh_all prices ((k, p) ∷ d) = cc (worth-refresh prices p, total-refresh_all prices d)

  -- The account's total, as a client of `get_balance` reads it.
  pub account_total : PaperExchange → ℤ
  account_total s = value (get_balance s).1.total

  pub account_total_lem :
      (s : PaperExchange) → account_total s ≡ value s.balance +ℤ total (worth s.prices) s.positions
  unfolding account_total get_balance
  account_total_lem s =
      rw (value-add, value-position_equity, value-nil, total-refresh_all) (omega int_laws)

  pub gap : (a b : Number) → nil ≺ a ⊖ b ≡ b ≺ a
  gap a b =
      rw (value-lt nil (a ⊖ b), value-lt b a, value-sub, value-nil) (gap_ℤ (value a) (value b))

  pub tie : (a b : Number) → a ≺ b ≡ false → b ≺ a ≡ false → a ≡ b
  tie a b h k =
      exact.value_injective a b (tie_ℤ (value a) (value b) (rw value-lt at h) (rw value-lt at k))

  pub irrefl : (a : Number) → a ≺ a ≡ false
  irrefl a = rw value-lt (ground arith)

  pub no_gap : (a : Number) → nil ≺ a ⊖ a ≡ false
  no_gap a = gap a a ∙ irrefl a

  -- The account's value at a table of prices, with the balance and the positions given apart.
  abbrev pub account : Dict Number → Number → Dict Position → ℤ
  account prices balance d = value balance +ℤ total (worth prices) d

  module _ (symbol : String) (price : Number) (s : PaperExchange)
      (priced : lookup symbol s.prices ≡ some price) where
    pub worth_long :
        (p : Position)
        → p.symbol ≡ symbol
        → p.side ≡ long
        → worth s.prices p ≡ value (price ⊗ p.size)
    unfolding worth
    worth_long p e side = ground (arith, mul_comm p.size price)

    pub worth_short :
        (p : Position)
        → p.symbol ≡ symbol
        → p.side ≡ short
        → worth s.prices p ≡ pos 0 -ℤ value (price ⊗ p.size)
    unfolding worth
    worth_short p e side = ground (arith, mul_comm p.size price)
