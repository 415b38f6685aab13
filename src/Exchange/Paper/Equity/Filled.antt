-- ===== src/Exchange/Paper/Equity/Filled.antt =====
-- exchange/paper.py: a whole order, and the account's total.
use xupertrade.Dict.{lookup}
use xupertrade.Exchange.{Order, Position, PositionSide, Side, buy, is_long, long, sell, short}
use xupertrade.Exchange.Paper.{Json, PaperExchange, handle_buy, handle_sell}
use xupertrade.Exchange.Paper.Equity.{account, account_total, account_total_lem}
use xupertrade.Exchange.Paper.Equity.Crossing.{cover-account, unwind-account}
use xupertrade.Exchange.Paper.Equity.Entering.{long_entry-account, short_entry-account}
use xupertrade.Exchange.Paper.Orders.{
  Request, execute, fee_of, fill, fill_price, get_current_price, handle, place_order,
}
use xupertrade.Exchange.Paper.Storage.{balance-persist, positions-persist, prices-persist}
use xupertrade.Exchange.Paper.Table.{IsValid, place_order_cases}
use xupertrade.Float.{ExactLaws, Floats, Number, nil, ◌≼◌}
use xupertrade.Prelude.{
  Bool-cases, Option, Option-cases, String, [], arith, false, inl, inr, none, some, subst, true,
  ◌++◌, ◌∙◌, ◌∷◌, ◌≡◌,
}
use xupertrade.Prelude.Int.{int_laws, pos, ℤ, ◌+ℤ◌}

module _ ⦃N : Floats⦄ (exact : ExactLaws) where
  open exact use {value, value-le}

  abbrev side_of : Option Position → PositionSide
  side_of none = long
  side_of (some p) = p.side

  side_up : (x : PositionSide) → is_long x ≡ true → x ≡ long
  side_up x h = ground arith

  side_down : (x : PositionSide) → is_long x ≡ false → x ≡ short
  side_down x h = ground arith

  prices-handle :
      (side : Side) (symbol : String) (size price fee : Number) (s : PaperExchange)
      → (handle side symbol size price fee s).prices ≡ s.prices
  unfolding handle handle_buy handle_sell
  prices-handle buy symbol size price fee s = ground arith
  prices-handle sell symbol size price fee s = ground arith

  module _ (symbol : String) (price : Number) (s : PaperExchange)
      (priced : lookup symbol s.prices ≡ some price) where
    module _ (size fee : Number) (valid : IsValid s.positions) where
      handle-account :
          (side : Side)
          → account exact s.prices
                (handle side symbol size price fee s).balance
                (handle side symbol size price fee s).positions
              +ℤ value fee
            ≡ account exact s.prices s.balance s.positions
      unfolding handle handle_buy handle_sell
      handle-account buy = elim (Option-cases (lookup symbol s.positions)) [
        | inl flat ↦
            rw (flat, handle_buy, flat)
              (long_entry-account exact symbol price s priced size fee valid none flat (λ p e. cc))
        | inr (p, held) ↦ elim (Bool-cases (is_long p.side)) [
          | inl up ↦
              rw (held, handle_buy, up, held)
                (long_entry-account exact symbol price s priced size fee valid (some p) held (λ q e.
                  side_up q.side
                    (subst (λ (o : Option Position). is_long (side_of o) ≡ true) e up)))
          | inr down ↦
              rw (held, handle_buy, down)
                (cover-account exact symbol price s priced size fee valid p held
                  (side_down p.side down))
        ]
      ]
      handle-account sell = elim (Option-cases (lookup symbol s.positions)) [
        | inl flat ↦
            rw (flat, handle_sell, flat)
              (short_entry-account exact symbol price s priced size fee valid none flat (λ p e. cc))
        | inr (p, held) ↦ elim (Bool-cases (is_long p.side)) [
          | inl up ↦
              rw (held, handle_sell, up)
                (unwind-account exact symbol price s priced size fee valid p held
                  (side_up p.side up))
          | inr down ↦
              rw (held, handle_sell, down, held)
                (short_entry-account exact symbol price s priced size fee valid (some p) held
                  (λ q e.
                    side_down q.side
                      (subst (λ (o : Option Position). is_long (side_of o) ≡ false) e down)))
        ]
      ]

  -- What an order costs: the fee of what it filled, and nothing when it was refused.
  abbrev pub cost : Order → ℤ
  cost o = elim o.filled_price [ none ↦ pos 0 | some price ↦ value (fee_of price o.size) ]

  nil_le : nil ≼ nil ≡ true
  nil_le = value-le nil nil ∙ ground arith

  -- A price that is not 0.0 or less was looked up.
  price-known :
      (symbol : String) (s : PaperExchange)
      → get_current_price symbol s ≼ nil ≡ false
      → lookup symbol s.prices ≡ some (get_current_price symbol s)
  unfolding get_current_price
  price-known symbol s h =
      let zero_le = nil_le in
      elim (Option-cases (lookup symbol s.prices)) [
        | inl unknown ↦ absurd (ground arith)
        | inr (p, known) ↦ rw known
      ]

  price_known_at_market :
      (o : Option Number) (symbol : String) (s : PaperExchange)
      → o ≡ none
      → fill_price o symbol s ≼ nil ≡ false
      → lookup symbol s.prices ≡ some (fill_price o symbol s)
  unfolding fill_price
  price_known_at_market none symbol s e h = price-known symbol s h
  price_known_at_market (some p) symbol s e h = cc

  execute-account_total :
      (json : Json) (r : Request) (size price : Number) (s : PaperExchange)
      → IsValid s.positions
      → lookup r.symbol s.prices ≡ some price
      → let (s', o) = execute json r size price s in
        account_total exact s' +ℤ cost o ≡ account_total exact s
  unfolding execute
  execute-account_total json r size price s valid priced =
      rw
        (
          account_total_lem exact,
          account_total_lem exact,
          balance-persist,
          prices-persist,
          positions-persist,
          prices-handle,
        )
        (handle-account r.symbol price (record s { orders = s.orders ++ fill r size price ∷ [] })
          priced size (fee_of price size) valid r.side)

  -- A market order, whether it opens, adds to, reduces, closes or turns over a position, lowers
  -- the account's total by exactly its fee when it is filled, and leaves it unchanged when it is
  -- refused. The table is valid and arithmetic is exact.
  pub place_order-account_total :
      (json : Json) (r : Request) (s : PaperExchange)
      → IsValid s.positions
      → r.price ≡ none
      → let (s', o) = place_order json r s in
        account_total exact s' +ℤ cost o ≡ account_total exact s
  place_order-account_total json r s valid at_market =
      place_order_cases (λ t. account_total exact t.0 +ℤ cost t.1 ≡ account_total exact s) json r s
        (λ e. omega int_laws)
        (λ size sent priced.
          execute-account_total json r size (fill_price r.price r.symbol s) s valid
            (price_known_at_market r.price r.symbol s at_market priced))
