-- ===== src/Reconcile/Ledger/History.antt =====
-- reconcile/fills.py: one ledger over any sequence of takes.
use xupertrade.Exchange.{PositionSide}
use xupertrade.Float.{ExactLaws, Floats, Number, min_f, nil, ◌≺◌, ◌≼◌, ◌⊖◌}
use xupertrade.Float.Exact.{lt_value, min_f-le_right, not_le_value}
use xupertrade.Prelude.{
  Bool, Bool-cases, List, Option, String, [], ap, arith, false, filter, if◌then◌else◌, inl, inr,
  refl, subst, sym, true, ℕ, ◌∙◌, ◌∷◌, ◌≡◌, ◌⊎◌,
}
use xupertrade.Prelude.Int.{int_laws, parts, pos, ℤ, ◌+ℤ◌, ◌≤ℤ◌}
use xupertrade.Reconcile.Ledger.{
  Entry, FillLedger, Summary, Walk, consume, cover_eps, is_candidate, put_back, settle, start,
  take_fills, take_from, walk,
}
use xupertrade.Reconcile.Ledger.Spending.{
  consume_cases, settle-nothing, spent, take_fills-unspent, unspent,
}

module _ ⦃N : Floats⦄ where
  -- The arguments of one take.
  pub record Ask : Type 0 where
    pub symbol : String
    pub side : PositionSide
    pub size : Number
    pub since : Option ℕ

  -- The takes in turn, with what each hands out.
  abbrev pub take_all : List Ask → FillLedger → FillLedger × List (Option Summary)
  take_all [] ledger = (ledger, [])
  take_all (a ∷ asks) ledger =
      let first = take_fills a.symbol a.side a.size a.since ledger in
      let rest = take_all asks first.0 in (rest.0, first.1 ∷ rest.1)

  module _ (exact : ExactLaws) where
    open exact use {value, value-sub, value-lt, value-nil}

    -- A fill as it was, or with a smaller remainder that is not negative and nothing else changed.
    abbrev pub Used : Entry → Entry → Type 0
    Used e d =
        (d ≡ e)
        ⊎ ((d ≡ record e { remaining = d.remaining })
            × (pos 0 ≤ℤ value d.remaining)
            × (value d.remaining ≤ℤ value e.remaining))

    -- Fill by fill, in the same order.
    abbrev pub AllUsed : List Entry → List Entry → Type 0
    AllUsed [] [] = Unit
    AllUsed [] (d ∷ m) = ⊥
    AllUsed (e ∷ l) [] = ⊥
    AllUsed (e ∷ l) (d ∷ m) = Used e d × AllUsed l m

    AllUsed-refl : (l : List Entry) → AllUsed l l
    AllUsed-refl [] = tt
    AllUsed-refl (e ∷ l) = (inl refl, AllUsed-refl l)

    Used-trans : (e d f : Entry) → Used e d → Used d f → Used e f
    Used-trans e d f (inl same) later = subst (λ x. Used x f) same later
    Used-trans e d f (inr h) (inl same) = subst (λ x. Used e x) (sym same) (inr h)
    Used-trans e d f (inr h) (inr k) = inr (
      k.0 ∙ ap (λ (x : Entry). record x { remaining = f.remaining }) h.0,
      k.1,
      omega (arith, k.2, h.2),
    )

    AllUsed-trans : (l m n : List Entry) → AllUsed l m → AllUsed m n → AllUsed l n
    AllUsed-trans [] [] [] h k = tt
    AllUsed-trans [] [] (f ∷ n) h k = absurd k
    AllUsed-trans [] (d ∷ m) n h k = absurd h
    AllUsed-trans (e ∷ l) [] n h k = absurd h
    AllUsed-trans (e ∷ l) (d ∷ m) [] h k = absurd k
    AllUsed-trans (e ∷ l) (d ∷ m) (f ∷ n) h k =
        (Used-trans e d f h.0 k.0, AllUsed-trans l m n h.1 k.1)

    min_f-le_left : (a b : Number) → value (min_f a b) ≤ℤ value a
    min_f-le_left a b = elim (Bool-cases (b ≺ a)) [
      | inl less ↦ rw less (lt_value exact b a less)
      | inr not_less ↦ rw not_less (omega arith)
    ]

    min_f-nonneg : (a b : Number) → pos 0 ≤ℤ value a → pos 0 ≤ℤ value b → pos 0 ≤ℤ value (min_f a b)
    min_f-nonneg a b h k = elim (Bool-cases (b ≺ a)) [
      | inl less ↦ rw less k
      | inr not_less ↦ rw not_less h
    ]

    -- A round that takes from a fill with something left, for a size that is not negative.
    round-Used :
        (e : Entry) (w : Walk)
        → e.remaining ≼ nil ≡ false
        → pos 0 ≤ℤ value w.remaining
        → Used e (record e { remaining = e.remaining ⊖ min_f e.remaining w.remaining })
    round-Used e w some_left h =
        let left : pos 0 ≤ℤ value e.remaining =
          omega (int_laws, not_le_value exact e.remaining nil some_left, parts value-nil) in
        inr (
          refl,
          rw value-sub (omega (int_laws, min_f-le_left e.remaining w.remaining)),
          rw value-sub (omega (int_laws, min_f-nonneg e.remaining w.remaining left h)),
        )

    walk-AllUsed :
        (l : List Entry) (w : Walk) → pos 0 ≤ℤ value w.remaining → AllUsed l (settle l (walk l w).0)
    unfolding walk settle take_from
    walk-AllUsed [] w h = tt
    walk-AllUsed (e ∷ l) w h = elim (Bool-cases (w.remaining ≼ cover_eps)) [
      | inl enough ↦ rw (enough, settle-nothing l) (inl refl, AllUsed-refl l)
      | inr more ↦ elim (Bool-cases (e.remaining ≼ nil)) [
        | inl empty ↦ rw (more, empty) (inl refl, walk-AllUsed l w h)
        | inr some_left ↦
            let still : pos 0 ≤ℤ value (take_from e w).remaining =
              rw value-sub (omega (int_laws, min_f-le_right exact e.remaining w.remaining)) in
            rw (more, some_left) (round-Used e w some_left h, walk-AllUsed l (take_from e w) still)
      ]
    ]

    consume-AllUsed : (l : List Entry) (size : Number) → AllUsed l (consume l size true).0
    consume-AllUsed l size =
        consume_cases (λ t. AllUsed l t.0) l size (AllUsed-refl l)
          (λ wanted covered.
            walk-AllUsed l (start size)
              (omega (int_laws, not_le_value exact size nil wanted, parts value-nil)))

    put_back-AllUsed :
        (test : Entry → Bool) (l changed : List Entry)
        → AllUsed (filter test l) changed
        → AllUsed l (put_back test l changed)
    unfolding put_back
    put_back-AllUsed test [] changed h = tt
    put_back-AllUsed test (e ∷ l) [] h = AllUsed-refl (e ∷ l)
    put_back-AllUsed test (e ∷ l) (c ∷ changed) h = elim (Bool-cases (test e)) [
      | inl hit ↦
          let split : AllUsed (e ∷ filter test l) (c ∷ changed) =
            subst (λ b. AllUsed (if b then e ∷ filter test l else filter test l) (c ∷ changed)) hit
              h in
          rw hit (split.0, put_back-AllUsed test l changed split.1)
      | inr miss ↦
          let split : AllUsed (filter test l) (c ∷ changed) =
            subst (λ b. AllUsed (if b then e ∷ filter test l else filter test l) (c ∷ changed)) miss
              h in
          rw miss (inl refl, put_back-AllUsed test l (c ∷ changed) split)
    ]

    take_fills-AllUsed :
        (symbol : String) (side : PositionSide) (size : Number) (since : Option ℕ)
        (ledger : FillLedger)
        → AllUsed ledger.entries (take_fills symbol side size since ledger).0.entries
    unfolding take_fills
    take_fills-AllUsed symbol side size since ledger =
        let test = is_candidate symbol side since in
        let chosen = filter test ledger.entries in
        put_back-AllUsed test ledger.entries (consume chosen size true).0
          (consume-AllUsed chosen size)

    abbrev pub handed_out : List (Option Summary) → ℤ
    handed_out [] = pos 0
    handed_out (s ∷ l) = spent exact s +ℤ handed_out l

    -- With exact arithmetic, over any sequence of takes: each fill stays in its place and is as it
    -- was, or only its remainder has changed, to one that is not negative and not above what it
    -- was, so no fill is spent beyond what it held; and what the takes handed out together is
    -- exactly what the fills lost.
    pub take_all-AllUsed :
        (asks : List Ask) (ledger : FillLedger)
        → AllUsed ledger.entries (take_all asks ledger).0.entries
          × (unspent exact (take_all asks ledger).0.entries +ℤ handed_out (take_all asks ledger).1
              ≡ unspent exact ledger.entries)
    take_all-AllUsed [] ledger = (AllUsed-refl ledger.entries, omega int_laws)
    take_all-AllUsed (a ∷ asks) ledger =
        let first = take_fills a.symbol a.side a.size a.since ledger in
        let rest = take_all-AllUsed asks first.0 in
        (
          AllUsed-trans ledger.entries first.0.entries (take_all asks first.0).0.entries
              (take_fills-AllUsed a.symbol a.side a.size a.since ledger) rest.0,
          omega (
            int_laws,
            parts rest.1,
            parts (take_fills-unspent exact a.symbol a.side a.size a.since ledger),
          ),
        )
