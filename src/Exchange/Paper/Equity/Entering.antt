-- ===== src/Exchange/Paper/Equity/Entering.antt =====
-- exchange/paper.py: a fill that opens a position or adds to one, and the account's value.
use xupertrade.Dict.{Entries-lookup, lookup, total-insert, total-insert_new}
use xupertrade.Exchange.{Position, long, short}
use xupertrade.Exchange.Paper.{PaperExchange, add_to, enter, new_position}
use xupertrade.Exchange.Paper.Equity.{account, worth, worth_long, worth_short}
use xupertrade.Exchange.Paper.Table.{IsHeld, IsValid}
use xupertrade.Float.{ExactLaws, Floats, Number, ◌⊕◌, ◌⊖◌, ◌⊗◌}
use xupertrade.Prelude.{Option, String, none, refl, some, ◌≡◌}
use xupertrade.Prelude.Int.{int_laws, parts, ◌+ℤ◌}

module _ ⦃N : Floats⦄ (exact : ExactLaws) where
  open exact use {value, value-add, value-sub, mul-add}

  module _ (symbol : String) (price : Number) (s : PaperExchange)
      (priced : lookup symbol s.prices ≡ some price) where
    module _ (size fee : Number) (valid : IsValid s.positions) where
      pub long_entry-account :
          (o : Option Position)
          → lookup symbol s.positions ≡ o
          → ((p : Position) → o ≡ some p → p.side ≡ long)
          → account exact s.prices
                (s.balance ⊖ ((price ⊗ size) ⊕ fee))
                (enter long symbol size price o s.positions)
              +ℤ value fee
            ≡ account exact s.prices s.balance s.positions
      unfolding enter add_to
      long_entry-account none flat sides =
          let q = new_position symbol long size price in
          rw (value-sub, value-add)
            (omega (
              int_laws,
              parts (total-insert_new (worth exact s.prices) symbol q s.positions flat),
              parts (worth_long exact symbol price s priced q refl refl),
            ))
      long_entry-account (some p) held sides =
          let k = (Entries-lookup IsHeld symbol p s.positions valid held).0 in
          let q = add_to p size price in
          rw (value-sub, value-add)
            (omega (
              int_laws,
              parts (total-insert (worth exact s.prices) symbol q p s.positions held),
              parts (worth_long exact symbol price s priced p k (sides p refl)),
              parts (worth_long exact symbol price s priced q k (sides p refl)),
              parts (mul-add price p.size size),
            ))

      pub short_entry-account :
          (o : Option Position)
          → lookup symbol s.positions ≡ o
          → ((p : Position) → o ≡ some p → p.side ≡ short)
          → account exact s.prices
                (s.balance ⊕ ((price ⊗ size) ⊖ fee))
                (enter short symbol size price o s.positions)
              +ℤ value fee
            ≡ account exact s.prices s.balance s.positions
      unfolding enter add_to
      short_entry-account none flat sides =
          let q = new_position symbol short size price in
          rw (value-add, value-sub)
            (omega (
              int_laws,
              parts (total-insert_new (worth exact s.prices) symbol q s.positions flat),
              parts (worth_short exact symbol price s priced q refl refl),
            ))
      short_entry-account (some p) held sides =
          let k = (Entries-lookup IsHeld symbol p s.positions valid held).0 in
          let q = add_to p size price in
          rw (value-add, value-sub)
            (omega (
              int_laws,
              parts (total-insert (worth exact s.prices) symbol q p s.positions held),
              parts (worth_short exact symbol price s priced p k (sides p refl)),
              parts (worth_short exact symbol price s priced q k (sides p refl)),
              parts (mul-add price p.size size),
            ))
