-- ===== src/Exchange/Paper/Equity/Crossing.antt =====
-- exchange/paper.py: a fill against a position on the other side, and the account's value.
use xupertrade.Dict.{
  Entries-lookup, erase, lookup, lookup-erase_self, total-erase, total-insert, total-insert_new,
}
use xupertrade.Exchange.{Position, long, short}
use xupertrade.Exchange.Paper.{PaperExchange, cover, new_position, unwind}
use xupertrade.Exchange.Paper.Equity.{
  account, gap, irrefl, no_gap, tie, worth, worth_long, worth_short,
}
use xupertrade.Exchange.Paper.Table.{IsHeld, IsValid}
use xupertrade.Float.{ExactLaws, Floats, Number, ◌≺◌, ◌⊖◌}
use xupertrade.Prelude.{Bool-cases, String, false, inl, inr, refl, some, true, ◌≡◌}
use xupertrade.Prelude.Int.{int_laws, parts, ◌+ℤ◌}

module _ ⦃N : Floats⦄ (exact : ExactLaws) where
  open exact use {value, value-add, value-sub, mul-sub}

  module _ (symbol : String) (price : Number) (s : PaperExchange)
      (priced : lookup symbol s.prices ≡ some price) where
    module _ (size fee : Number) (valid : IsValid s.positions) where
      module _ (p : Position) (held : lookup symbol s.positions ≡ some p) where
        -- The three ways in which an order meets a position on the other side.
        data Meets : Type 0 where
          partly : size ≺ p.size ≡ true → p.size ≺ size ≡ false → Meets
          exactly : size ≡ p.size → p.size ≺ size ≡ false → Meets
          beyond : p.size ≺ size ≡ true → Meets

        meets : Meets
        meets = elim (Bool-cases (p.size ≺ size)) [
          | inl over ↦ beyond over
          | inr within ↦ elim (Bool-cases (size ≺ p.size)) [
            | inl part ↦ partly part within
            | inr whole ↦ exactly (tie exact size p.size whole within) within
          ]
        ]

        pub cover-account :
            p.side ≡ short
            → account exact s.prices
                  (cover symbol size price fee p s).balance
                  (cover symbol size price fee p s).positions
                +ℤ value fee
              ≡ account exact s.prices s.balance s.positions
        unfolding cover
        cover-account side =
            let k = (Entries-lookup IsHeld symbol p s.positions valid held).0 in
            elim meets [
              | partly part within ↦
                  let q = record p { size = p.size ⊖ size } in
                  rw (within, gap exact p.size size, part, value-sub, value-add)
                    (omega (
                      int_laws,
                      parts (total-insert (worth exact s.prices) symbol q p s.positions held),
                      parts (worth_short exact symbol price s priced p k side),
                      parts (worth_short exact symbol price s priced q k side),
                      parts (mul-sub price p.size size),
                    ))
              | exactly same within ↦
                  rw (within, same, no_gap exact p.size, value-sub, value-add)
                    (omega (
                      int_laws,
                      parts (total-erase (worth exact s.prices) symbol p s.positions held),
                      parts (worth_short exact symbol price s priced p k side),
                    ))
              | beyond over ↦
                  let q = new_position symbol long (size ⊖ p.size) price in
                  rw
                    (
                      over,
                      gap exact p.size p.size,
                      irrefl exact p.size,
                      gap exact size p.size,
                      over,
                      value-sub,
                      value-sub,
                      value-add,
                    )
                    (omega (
                      int_laws,
                      parts (total-erase (worth exact s.prices) symbol p s.positions held),
                      parts (
                          total-insert_new (worth exact s.prices) symbol q
                            (erase symbol s.positions)
                            (lookup-erase_self IsHeld symbol s.positions valid)),
                      parts (worth_short exact symbol price s priced p k side),
                      parts (worth_long exact symbol price s priced q refl refl),
                      parts (mul-sub price size p.size),
                    ))
            ]

        pub unwind-account :
            p.side ≡ long
            → account exact s.prices
                  (unwind symbol size price fee p s).balance
                  (unwind symbol size price fee p s).positions
                +ℤ value fee
              ≡ account exact s.prices s.balance s.positions
        unfolding unwind
        unwind-account side =
            let k = (Entries-lookup IsHeld symbol p s.positions valid held).0 in
            elim meets [
              | partly part within ↦
                  let q = record p { size = p.size ⊖ size } in
                  rw (within, gap exact p.size size, part, value-add, value-sub)
                    (omega (
                      int_laws,
                      parts (total-insert (worth exact s.prices) symbol q p s.positions held),
                      parts (worth_long exact symbol price s priced p k side),
                      parts (worth_long exact symbol price s priced q k side),
                      parts (mul-sub price p.size size),
                    ))
              | exactly same within ↦
                  rw (within, same, no_gap exact p.size, value-add, value-sub)
                    (omega (
                      int_laws,
                      parts (total-erase (worth exact s.prices) symbol p s.positions held),
                      parts (worth_long exact symbol price s priced p k side),
                    ))
              | beyond over ↦
                  let q = new_position symbol short (size ⊖ p.size) price in
                  rw
                    (
                      over,
                      gap exact p.size p.size,
                      irrefl exact p.size,
                      gap exact size p.size,
                      over,
                      value-add,
                      value-add,
                      value-sub,
                    )
                    (omega (
                      int_laws,
                      parts (total-erase (worth exact s.prices) symbol p s.positions held),
                      parts (
                          total-insert_new (worth exact s.prices) symbol q
                            (erase symbol s.positions)
                            (lookup-erase_self IsHeld symbol s.positions valid)),
                      parts (worth_long exact symbol price s priced p k side),
                      parts (worth_short exact symbol price s priced q refl refl),
                      parts (mul-sub price size p.size),
                    ))
            ]
