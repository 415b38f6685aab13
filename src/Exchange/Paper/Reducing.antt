-- ===== src/Exchange/Paper/Reducing.antt =====
-- The promise of reduce-only orders, in exchange/base.py and `place_order` of paper.py.
use xupertrade.Dict.{lookup, lookup-erase_self, lookup-insert}
use xupertrade.Exchange.{Position, PositionSide, Side, buy, long, same_side, sell, short}
use xupertrade.Exchange.Paper.{Json, PaperExchange, handle_buy, handle_sell}
use xupertrade.Exchange.Paper.Orders.{
  Request, clip, execute, fill_price, handle, place_order, reduces,
}
use xupertrade.Exchange.Paper.Storage.{positions-persist}
use xupertrade.Exchange.Paper.Table.{IsHeld, IsValid}
use xupertrade.Float.{FloatLaws, Floats, Number, min_f, nil, ◌≺◌, ◌≼◌, ◌⊖◌}
use xupertrade.Prelude.{
  Bool-cases, Option, Option-cases, String, arith, eq_iff, false, inl, inr, none, refl, some, true,
  ◌≡◌,
}

module _ ⦃N : Floats⦄ where
  -- What a reduce-only order may make of a position: nothing out of nothing, and otherwise no
  -- position or one on the same side that is not larger.
  abbrev pub Shrinks : Option Position → Option Position → Type 0
  Shrinks none after = after ≡ none
  Shrinks (some p) none = Unit
  Shrinks (some p) (some q) = (q.side ≡ p.side) × (p.size ≺ q.size ≡ false)

  module _ (laws : FloatLaws) where
    clipped_not_above : (a b : Number) → nil ≺ min_f a b ⊖ b ≡ false
    clipped_not_above a b =
        ground (arith, laws.sub_pos (min_f a b) b, laws.lt_irrefl b, laws.lt_asymm b a)

    handle_buy-clipped :
        (symbol : String) (size price fee : Number) (s : PaperExchange) (p : Position)
        → IsValid s.positions
        → lookup symbol s.positions ≡ some p
        → p.side ≡ short
        → nil ≺ size ≡ true
        → Shrinks
            (some p)
            (lookup symbol (handle_buy symbol (min_f size p.size) price fee s).positions)
    unfolding handle_buy
    handle_buy-clipped symbol size price fee s p valid held same positive = ground (
      arith,
      clipped_not_above size p.size,
      laws.sub_le p.size size,
      laws.sub_pos p.size p.size,
      laws.sub_pos p.size size,
      laws.lt_irrefl p.size,
      laws.lt_irrefl size,
      lookup-erase_self IsHeld symbol s.positions valid,
      eq_iff symbol symbol,
      lookup-insert symbol symbol (record p { size = p.size ⊖ size }) s.positions,
    )

    handle_sell-clipped :
        (symbol : String) (size price fee : Number) (s : PaperExchange) (p : Position)
        → IsValid s.positions
        → lookup symbol s.positions ≡ some p
        → p.side ≡ long
        → nil ≺ size ≡ true
        → Shrinks
            (some p)
            (lookup symbol (handle_sell symbol (min_f size p.size) price fee s).positions)
    unfolding handle_sell
    handle_sell-clipped symbol size price fee s p valid held same positive = ground (
      arith,
      clipped_not_above size p.size,
      laws.sub_le p.size size,
      laws.sub_pos p.size p.size,
      laws.sub_pos p.size size,
      laws.lt_irrefl p.size,
      laws.lt_irrefl size,
      lookup-erase_self IsHeld symbol s.positions valid,
      eq_iff symbol symbol,
      lookup-insert symbol symbol (record p { size = p.size ⊖ size }) s.positions,
    )

    Shrinks-refl : (o : Option Position) → Shrinks o o
    Shrinks-refl none = refl
    Shrinks-refl (some p) = (refl, laws.lt_irrefl p.size)

    handle-clipped :
        (side : Side) (symbol : String) (size price fee : Number) (s : PaperExchange) (p : Position)
        → IsValid s.positions
        → lookup symbol s.positions ≡ some p
        → p.side ≡ reduces side
        → nil ≺ size ≡ true
        → Shrinks
            (some p)
            (lookup symbol (handle side symbol (min_f size p.size) price fee s).positions)
    unfolding handle
    handle-clipped buy = handle_buy-clipped
    handle-clipped sell = handle_sell-clipped

    execute-clipped :
        (json : Json) (r : Request) (price : Number) (s : PaperExchange) (p : Position)
        → IsValid s.positions
        → lookup r.symbol s.positions ≡ some p
        → p.side ≡ reduces r.side
        → nil ≺ r.size ≡ true
        → Shrinks
            (some p)
            (lookup r.symbol (execute json r (min_f r.size p.size) price s).0.positions)
    unfolding execute
    execute-clipped json r price s p valid held same positive =
        rw positions-persist
          (handle-clipped r.side r.symbol r.size price _ _ p valid held same positive)

    same_side→eq : (a b : PositionSide) → same_side a b ≡ true → a ≡ b
    same_side→eq a b h = ground arith

    reduce_held :
        (json : Json) (r : Request) (s : PaperExchange) (p : Position)
        → IsValid s.positions
        → r.reduce_only ≡ true
        → nil ≺ r.size ≡ true
        → lookup r.symbol s.positions ≡ some p
        → Shrinks (some p) (lookup r.symbol (place_order json r s).0.positions)
    unfolding place_order
    reduce_held json r s p valid only positive held =
        elim (Bool-cases (fill_price r.price r.symbol s ≼ nil)) [
          | inl low ↦ rw (low, held) (Shrinks-refl (some p))
          | inr priced ↦
              rw (priced, only)
                (elim (Bool-cases (same_side p.side (reduces r.side))) [
                  | inl same ↦
                      rw (held, clip, same)
                        (execute-clipped json r _ s p valid held (same_side→eq _ _ same) positive)
                  | inr other ↦ rw (held, clip, other, held) (Shrinks-refl (some p))
                ])
        ]

    -- A reduce-only order of positive size, on a valid table, never opens a position, never turns
    -- one over and never enlarges one, whether it is filled or refused.
    pub place_order-Shrinks :
        (json : Json) (r : Request) (s : PaperExchange)
        → IsValid s.positions
        → r.reduce_only ≡ true
        → nil ≺ r.size ≡ true
        → Shrinks (lookup r.symbol s.positions) (lookup r.symbol (place_order json r s).0.positions)
    place_order-Shrinks json r s valid only positive =
        elim (Option-cases (lookup r.symbol s.positions)) [
          | inl flat ↦ rw flat (unfold place_order in ground arith)
          | inr (p, held) ↦ rw held (reduce_held json r s p valid only positive held)
        ]
