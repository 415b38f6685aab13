-- ===== src/Exchange/Paper/Table.antt =====
-- The table of positions under every order: its invariant, and what an order leaves alone.
use xupertrade.Dict.{
  Dict, Entries, Entries-erase, Entries-insert, Entries-lookup, lookup, lookup-erase_ne,
  lookup-insert,
}
use xupertrade.Exchange.{
  Order, Position, PositionSide, Side, buy, is_long, long, same_side, sell, short,
}
use xupertrade.Exchange.Paper.{Json, PaperExchange, cover, enter, handle_buy, handle_sell, unwind}
use xupertrade.Exchange.Paper.Orders.{
  Request, clip, execute, fill_price, handle, place_order, reduces, rejection,
}
use xupertrade.Exchange.Paper.Storage.{positions-persist}
use xupertrade.Float.{FloatLaws, Floats, Number, min_f, nil, ◌≺◌, ◌≼◌, ◌⊖◌}
use xupertrade.Prelude.{
  Bool-cases, Option, Option-cases, String, arith, false, inl, inr, none, refl, some, true, ◌==◌,
  ◌≡◌, ◌⊎◌,
}

module _ ⦃N : Floats⦄ where
  -- A key is its position's symbol, and a held size is positive.
  abbrev pub IsHeld : String → Position → Type 0
  IsHeld k p = (p.symbol ≡ k) × (nil ≺ p.size ≡ true)

  abbrev pub IsValid : Dict Position → Type 0
  IsValid = Entries IsHeld

  -- The sizes that an order may be sent with: its own, or clipped to the position it reduces.
  abbrev IsSent : Request → PaperExchange → Number → Type 0
  IsSent r s size =
      (size ≡ r.size)
      ⊎ ((p : Position) × (lookup r.symbol s.positions ≡ some p) × (size ≡ min_f r.size p.size))

  -- An order is refused with the state unchanged, or executed at one of these sizes.
  pub place_order_cases :
      (P : PaperExchange × Order → Type 0) (json : Json) (r : Request) (s : PaperExchange)
      → ((error : Option String) → P (s, rejection r error))
      → ((size : Number)
          → IsSent r s size
          → fill_price r.price r.symbol s ≼ nil ≡ false
          → P (execute json r size (fill_price r.price r.symbol s) s))
      → P (place_order json r s)
  unfolding place_order
  place_order_cases P json r s refused sent =
      elim (Bool-cases (fill_price r.price r.symbol s ≼ nil)) [
        | inl low ↦ rw low (refused none)
        | inr priced ↦ rw priced (elim (Bool-cases r.reduce_only) [
          | inr any ↦ rw any (sent r.size (inl refl) priced)
          | inl only ↦ rw only (elim (Option-cases (lookup r.symbol s.positions)) [
            | inl flat ↦ rw (flat, clip) (refused _)
            | inr (p, held) ↦ elim (Bool-cases (same_side p.side (reduces r.side))) [
              | inl reduced ↦ rw (held, clip, reduced) (sent _ (inr (p, held, refl)) priced)
              | inr other ↦ rw (held, clip, other) (refused _)
            ]
          ])
        ])
      ]

  handle-lookup_ne :
      (side : Side) (symbol j : String) (size price fee : Number) (s : PaperExchange)
      → symbol == j ≡ false
      → lookup j (handle side symbol size price fee s).positions ≡ lookup j s.positions
  unfolding handle handle_buy handle_sell
  handle-lookup_ne buy symbol j size price fee s other =
      grind (arith, lookup-insert, lookup-erase_ne)
  handle-lookup_ne sell symbol j size price fee s other =
      grind (arith, lookup-insert, lookup-erase_ne)

  -- An order on one symbol leaves the position on every other symbol as it was.
  place_order-lookup_ne :
      (json : Json) (r : Request) (j : String) (s : PaperExchange)
      → r.symbol == j ≡ false
      → lookup j (place_order json r s).0.positions ≡ lookup j s.positions
  place_order-lookup_ne json r j s other =
      place_order_cases (λ t. lookup j t.0.positions ≡ lookup j s.positions) json r s (λ e. refl)
        (λ size sent _.
          unfold execute in
          rw positions-persist (handle-lookup_ne r.side r.symbol j size _ _ _ other))

  module _ (laws : FloatLaws) (symbol : String) (size price fee : Number) where
    enter-IsValid :
        (side : PositionSide) (o : Option Position) (d : Dict Position)
        → IsValid d
        → nil ≺ size ≡ true
        → lookup symbol d ≡ o
        → IsValid (enter side symbol size price o d)
    unfolding enter
    enter-IsValid side none d valid positive e =
        Entries-insert IsHeld symbol _ d valid (refl, positive)
    enter-IsValid side (some p) d valid positive e =
        let h = Entries-lookup IsHeld symbol p d valid e in
        Entries-insert IsHeld symbol _ d valid (h.0, laws.add_pos _ _ h.1 positive)

    cover-IsValid :
        (s : PaperExchange) (p : Position)
        → IsValid s.positions
        → lookup symbol s.positions ≡ some p
        → IsValid (cover symbol size price fee p s).positions
    unfolding cover
    cover-IsValid s p valid held =
        let h = Entries-lookup IsHeld symbol p s.positions valid held in
        elim (Bool-cases (nil ≺ p.size ⊖ min_f size p.size)) [
          | inl more ↦ rw more (Entries-insert IsHeld symbol _ s.positions valid (h.0, more))
          | inr done ↦ rw done (elim (Bool-cases (nil ≺ size ⊖ p.size)) [
            | inl flip ↦ rw flip (
                Entries-insert IsHeld symbol _ _ (Entries-erase IsHeld symbol s.positions valid)
                  (refl, flip))
            | inr exact ↦ rw exact (Entries-erase IsHeld symbol s.positions valid)
          ])
        ]

    unwind-IsValid :
        (s : PaperExchange) (p : Position)
        → IsValid s.positions
        → lookup symbol s.positions ≡ some p
        → IsValid (unwind symbol size price fee p s).positions
    unfolding unwind
    unwind-IsValid s p valid held =
        let h = Entries-lookup IsHeld symbol p s.positions valid held in
        elim (Bool-cases (nil ≺ p.size ⊖ min_f size p.size)) [
          | inl more ↦ rw more (Entries-insert IsHeld symbol _ s.positions valid (h.0, more))
          | inr done ↦ rw done (elim (Bool-cases (nil ≺ size ⊖ p.size)) [
            | inl flip ↦ rw flip (
                Entries-insert IsHeld symbol _ _ (Entries-erase IsHeld symbol s.positions valid)
                  (refl, flip))
            | inr exact ↦ rw exact (Entries-erase IsHeld symbol s.positions valid)
          ])
        ]

    handle_buy-IsValid :
        (s : PaperExchange)
        → IsValid s.positions
        → nil ≺ size ≡ true
        → IsValid (handle_buy symbol size price fee s).positions
    unfolding handle_buy
    handle_buy-IsValid s valid positive = elim (Option-cases (lookup symbol s.positions)) [
      | inl flat ↦
          rw (flat, handle_buy, flat) (enter-IsValid long none s.positions valid positive flat)
      | inr (p, held) ↦ elim (Bool-cases (is_long p.side)) [
        | inl same ↦
            rw (held, handle_buy, same, held)
              (enter-IsValid long (some p) s.positions valid positive held)
        | inr other ↦ rw (held, handle_buy, other) (cover-IsValid s p valid held)
      ]
    ]

    handle_sell-IsValid :
        (s : PaperExchange)
        → IsValid s.positions
        → nil ≺ size ≡ true
        → IsValid (handle_sell symbol size price fee s).positions
    unfolding handle_sell
    handle_sell-IsValid s valid positive = elim (Option-cases (lookup symbol s.positions)) [
      | inl flat ↦
          rw (flat, handle_sell, flat) (enter-IsValid short none s.positions valid positive flat)
      | inr (p, held) ↦ elim (Bool-cases (is_long p.side)) [
        | inl other ↦ rw (held, handle_sell, other) (unwind-IsValid s p valid held)
        | inr same ↦
            rw (held, handle_sell, same, held)
              (enter-IsValid short (some p) s.positions valid positive held)
      ]
    ]

    handle-IsValid :
        (side : Side) (s : PaperExchange)
        → IsValid s.positions
        → nil ≺ size ≡ true
        → IsValid (handle side symbol size price fee s).positions
    unfolding handle
    handle-IsValid buy = handle_buy-IsValid
    handle-IsValid sell = handle_sell-IsValid

  min_f_pos : (a b : Number) → nil ≺ a ≡ true → nil ≺ b ≡ true → nil ≺ min_f a b ≡ true
  min_f_pos a b h k = ground arith

  IsSent-pos :
      (r : Request) (s : PaperExchange) (size : Number)
      → IsValid s.positions
      → nil ≺ r.size ≡ true
      → IsSent r s size
      → nil ≺ size ≡ true
  IsSent-pos r s size valid positive (inl e) = rw e positive
  IsSent-pos r s size valid positive (inr (p, held, e)) =
      rw e (
        min_f_pos r.size p.size positive
          (Entries-lookup IsHeld r.symbol p s.positions valid held).1)

  -- Every order of positive size, filled or refused, keeps the table valid.
  place_order-IsValid :
      (laws : FloatLaws) (json : Json) (r : Request) (s : PaperExchange)
      → IsValid s.positions
      → nil ≺ r.size ≡ true
      → IsValid (place_order json r s).0.positions
  place_order-IsValid laws json r s valid positive =
      place_order_cases (λ t. IsValid t.0.positions) json r s (λ e. valid)
        (λ size sent _.
          unfold execute in
          rw positions-persist (
            handle-IsValid laws r.symbol size _ _ r.side _ valid
              (IsSent-pos r s size valid positive sent)))
