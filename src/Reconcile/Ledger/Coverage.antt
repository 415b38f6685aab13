-- ===== src/Reconcile/Ledger/Coverage.antt =====
-- reconcile/fills.py: how much of the asked size `_consume` covers.
use xupertrade.Exchange.{PositionSide}
use xupertrade.Float.{ExactLaws, Floats, Number, min_f, nil, ◌≺◌, ◌≼◌, ◌⊕◌, ◌⊖◌, ◌⊗◌}
use xupertrade.Float.Exact.{
  le_of_value, le_value, max_f-ge_right, min_f-le_right, not_le_value, not_lt_value,
}
use xupertrade.Prelude.{
  Bool-cases, List, Option, String, [], arith, false, filter, inl, inr, none, refl, some, true, ℕ,
  ◌∷◌, ◌≡◌, ◌⊎◌,
}
use xupertrade.Prelude.Int.{eq_of_parts, int_laws, parts, pos, ℤ, ◌+ℤ◌, ◌≤ℤ◌}
use xupertrade.Reconcile.Ledger.{
  Entry, FillLedger, Summary, Walk, consume, cover_eps, is_candidate, start, sum_remaining,
  summary_of, take_fills, take_from, tolerance, walk,
}
use xupertrade.Reconcile.Ledger.Spending.{consume_cases, unspent}

module _ ⦃N : Floats⦄ where
  walk-done : (l : List Entry) (w : Walk) → w.remaining ≼ cover_eps ≡ true → (walk l w).1 ≡ w
  unfolding walk
  walk-done [] w h = refl
  walk-done (e ∷ l) w h = rw h

  module _ (exact : ExactLaws) (eps_nonneg : pos 0 ≤ℤ exact.value cover_eps) where
    open exact use {value, value-add, value-sub, value-nil, value-lt, value-le}

    -- What the loop has left to take and what it took make up what it began with.
    abbrev Splits : ℤ → Walk → Type 0
    Splits size w = (value w.remaining +ℤ value w.consumed ≡ size) × (pos 0 ≤ℤ value w.remaining)

    take_from-Splits :
        (size : ℤ) (e : Entry) (w : Walk) → Splits size w → Splits size (take_from e w)
    unfolding take_from
    take_from-Splits size e w h =
        let m = min_f e.remaining w.remaining in
        (
          rw (value-sub, value-add) (eq_of_parts _ _ (omega (int_laws, parts h.0))),
          rw value-sub (omega (int_laws, h.1, min_f-le_right exact e.remaining w.remaining)),
        )

    walk-Splits : (size : ℤ) (l : List Entry) (w : Walk) → Splits size w → Splits size (walk l w).1
    unfolding walk
    walk-Splits size [] w h = h
    walk-Splits size (e ∷ l) w h = elim (Bool-cases (w.remaining ≼ cover_eps)) [
      | inl done ↦ rw done h
      | inr more ↦ elim (Bool-cases (e.remaining ≼ nil)) [
        | inl empty ↦ rw (more, empty) (walk-Splits size l w h)
        | inr some_left ↦
            rw (more, some_left) (walk-Splits size l (take_from e w) (take_from-Splits size e w h))
      ]
    ]

    -- The loop ends because it has enough, or has taken all that there is.
    abbrev Finished : ℤ → Walk → Type 0
    Finished all w = (w.remaining ≼ cover_eps ≡ true) ⊎ (all ≤ℤ value w.consumed)

    -- After a round that takes all that was wanted.
    walk-filled :
        (e : Entry) (l : List Entry) (w : Walk)
        → w.remaining ≺ e.remaining ≡ true
        → (walk l (take_from e w)).1.remaining ≼ cover_eps ≡ true
    unfolding take_from
    walk-filled e l w less =
        let zero_left : (take_from e w).remaining ≼ cover_eps ≡ true =
          rw less (le_of_value exact _ _ (rw value-sub (omega (int_laws, eps_nonneg)))) in
        rw (walk-done l (take_from e w) zero_left) zero_left

    Finished-mono : (a b : ℤ) (w : Walk) → a ≤ℤ b → Finished b w → Finished a w
    Finished-mono a b w le (inl h) = inl h
    Finished-mono a b w le (inr h) = inr (omega (arith, le, h))

    took_all :
        (e : Entry) (w : Walk)
        → w.remaining ≺ e.remaining ≡ false
        → value (w.consumed ⊕ min_f e.remaining w.remaining) ≡ value w.consumed +ℤ value e.remaining
    took_all e w h = rw h (value-add w.consumed e.remaining)

    walk-Finished :
        (l : List Entry) (w : Walk)
        → pos 0 ≤ℤ value w.remaining
        → Finished (unspent exact l +ℤ value w.consumed) (walk l w).1
    unfolding walk
    walk-Finished [] w h = inr (omega int_laws)
    walk-Finished (e ∷ l) w h = elim (Bool-cases (w.remaining ≼ cover_eps)) [
      | inl done ↦ rw done (inl done)
      | inr more ↦ elim (Bool-cases (e.remaining ≼ nil)) [
        | inl empty ↦
            rw (more, empty)
              (Finished-mono _ _ (walk l w).1
                (omega (int_laws, le_value exact e.remaining nil empty, parts value-nil))
                (walk-Finished l w h))
        | inr some_left ↦ elim (Bool-cases (w.remaining ≺ e.remaining)) [
          | inl filled_up ↦ rw (more, some_left) (inl (walk-filled e l w filled_up))
          | inr all_taken ↦
              rw (more, some_left)
                (Finished-mono _ _ (walk l (take_from e w)).1
                  (omega (int_laws, parts (took_all e w all_taken)))
                  (walk-Finished l (take_from e w) (take_from-Splits _ e w (refl, h)).1))
        ]
      ]
    ]

    value-sum_remaining :
        (l : List Entry) (acc : Number) → value (sum_remaining l acc) ≡ value acc +ℤ unspent exact l
    value-sum_remaining [] acc = omega int_laws
    value-sum_remaining (e ∷ l) acc = omega (
      int_laws,
      parts (value-sum_remaining l (acc ⊕ e.remaining)),
      parts (value-add acc e.remaining),
    )

    abbrev pub Covers : Number → Option Summary → Type 0
    Covers size none = Unit
    Covers size (some s) =
        (value s.size ≤ℤ value size) × (value size ≤ℤ value s.size +ℤ value (tolerance size))

    covered-le :
        (l : List Entry) (size : Number)
        → sum_remaining l nil ≺ size ⊖ tolerance size ≡ false
        → value size ≤ℤ unspent exact l +ℤ value (tolerance size)
    covered-le l size h = omega (
      int_laws,
      not_lt_value exact (sum_remaining l nil) (size ⊖ tolerance size) h,
      parts (value-sub size (tolerance size)),
      parts (value-sum_remaining l nil),
      parts value-nil,
    )

    walk-Covers :
        (l : List Entry) (size : Number) (w : Walk)
        → Splits (value size) w
        → value size ≤ℤ unspent exact l +ℤ value (tolerance size)
        → Finished (unspent exact l) w
        → Covers size (some (summary_of w))
    walk-Covers l size w h enough (inl done) = (
      omega (int_laws, parts h.0, h.1),
      omega (
        int_laws,
        parts h.0,
        le_value exact w.remaining cover_eps done,
        max_f-ge_right exact (size ⊗ N.decimal 1 9) cover_eps,
      ),
    )
    walk-Covers l size w h enough (inr all) =
        (omega (int_laws, parts h.0, h.1), omega (int_laws, enough, all))

    start-Splits : (size : Number) → size ≼ nil ≡ false → Splits (value size) (start size)
    start-Splits size wanted = (
      eq_of_parts _ _ (omega (int_laws, parts value-nil)),
      omega (int_laws, not_le_value exact size nil wanted, parts value-nil),
    )

    consume-Covers : (l : List Entry) (size : Number) → Covers size (consume l size true).1
    consume-Covers l size =
        consume_cases (λ t. Covers size t.1) l size tt
          (λ wanted covered.
            walk-Covers l size (walk l (start size)).1
              (walk-Splits (value size) l (start size) (start-Splits size wanted))
              (covered-le l size covered)
              (Finished-mono _ _ (walk l (start size)).1 (omega (int_laws, parts value-nil))
                (walk-Finished l (start size) (start-Splits size wanted).1)))

    -- With exact arithmetic and a tolerance that is not negative, a take that answers has consumed
    -- at most the size asked for and falls short of it by at most the tolerance.
    pub take_fills-Covers :
        (symbol : String) (side : PositionSide) (size : Number) (since : Option ℕ)
        (ledger : FillLedger)
        → Covers size (take_fills symbol side size since ledger).1
    unfolding take_fills
    take_fills-Covers symbol side size since ledger =
        consume-Covers (filter (is_candidate symbol side since) ledger.entries) size
