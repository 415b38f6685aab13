-- ===== src/Reconcile/Ledger/Spending.antt =====
-- reconcile/fills.py: how much of the fills `take` spends.
use xupertrade.Exchange.{PositionSide}
use xupertrade.Float.{ExactLaws, Floats, Number, min_f, nil, ◌≺◌, ◌≼◌, ◌⊖◌}
use xupertrade.Prelude.{
  Bool, Bool-cases, List, Option, String, [], ap, arith, false, filter, inl, inr, length, none,
  refl, some, suc, sym, true, ℕ, ◌∷◌, ◌≡◌,
}
use xupertrade.Prelude.Int.{int_laws, parts, pos, ℤ, ◌+ℤ◌}
use xupertrade.Reconcile.Ledger.{
  Entry, FillLedger, Summary, Walk, consume, cover_eps, nothing, is_candidate, put_back, settle,
  start, sum_remaining, summary_of, take_fills, take_from, tolerance, walk,
}

module _ ⦃N : Floats⦄ where
  pub settle-nothing : (l : List Entry) → settle l (nothing l) ≡ l
  unfolding settle
  settle-nothing [] = refl
  settle-nothing (e ∷ l) = rw (settle-nothing l)

  length-settle :
      (l : List Entry) (takes : List (Option Number)) → length (settle l takes) ≡ length l
  unfolding settle
  length-settle [] takes = refl
  length-settle (e ∷ l) [] = refl
  length-settle (e ∷ l) (t ∷ takes) = ap suc (length-settle l takes)

  -- The outcomes of a committed `consume`: nothing, or what the loop took.
  pub consume_cases :
      (P : List Entry × Option Summary → Type 0) (l : List Entry) (size : Number)
      → P (l, none)
      → (size ≼ nil ≡ false
          → sum_remaining l nil ≺ size ⊖ tolerance size ≡ false
          → P (settle l (walk l (start size)).0, some (summary_of (walk l (start size)).1)))
      → P (consume l size true)
  unfolding consume
  consume_cases P l size missed took = elim (Bool-cases (size ≼ nil)) [
    | inl empty ↦ rw empty missed
    | inr wanted ↦ elim (Bool-cases (sum_remaining l nil ≺ size ⊖ tolerance size)) [
      | inl too_little ↦ rw (wanted, too_little) missed
      | inr covered ↦ elim (Bool-cases ((walk l (start size)).1.consumed ≼ nil)) [
        | inl none_taken ↦ rw (wanted, covered, none_taken) missed
        | inr some_taken ↦ rw (wanted, covered, some_taken) (took wanted covered)
      ]
    ]
  ]

  module _ (exact : ExactLaws) where
    open exact use {value, value-add, value-sub, value-nil}

    -- What is still unspent.
    abbrev pub unspent : List Entry → ℤ
    unspent [] = pos 0
    unspent (e ∷ l) = value e.remaining +ℤ unspent l

    abbrev pub spent : Option Summary → ℤ
    spent none = pos 0
    spent (some s) = value s.size

    unspent-walk :
        (l : List Entry) (w : Walk)
        → unspent (settle l (walk l w).0) +ℤ value (walk l w).1.consumed
          ≡ unspent l +ℤ value w.consumed
    unfolding walk settle
    unspent-walk [] w = refl
    unspent-walk (e ∷ l) w = elim (Bool-cases (w.remaining ≼ cover_eps)) [
      | inl enough ↦ rw (enough, settle-nothing l)
      | inr more ↦ elim (Bool-cases (e.remaining ≼ nil)) [
        | inl empty ↦ rw (more, empty) (omega (int_laws, parts (unspent-walk l w)))
        | inr some_left ↦
            rw (more, some_left)
              (rw value-sub (
                omega (
                  int_laws,
                  parts (unspent-walk l (take_from e w)),
                  parts (value-add w.consumed (min_f e.remaining w.remaining)),
                )))
      ]
    ]

    unspent-consume :
        (l : List Entry) (size : Number)
        → unspent (consume l size true).0 +ℤ spent (consume l size true).1 ≡ unspent l
    unspent-consume l size =
        consume_cases (λ t. unspent t.0 +ℤ spent t.1 ≡ unspent l) l size (omega int_laws)
          (λ wanted covered. omega (int_laws, parts (unspent-walk l (start size)), parts value-nil))

    unspent-nil : (l : List Entry) → length l ≡ 0 → unspent l ≡ pos 0
    unspent-nil [] h = refl
    unspent-nil (e ∷ l) h = absurd (omega arith)

    unspent-put_back :
        (test : Entry → Bool) (l changed : List Entry)
        → length changed ≡ length (filter test l)
        → unspent (put_back test l changed) +ℤ unspent (filter test l)
          ≡ unspent l +ℤ unspent changed
    unfolding put_back
    unspent-put_back test [] [] h = omega int_laws
    unspent-put_back test [] (c ∷ changed) h = absurd (omega arith)
    unspent-put_back test (e ∷ l) [] h =
        rw (unspent-nil (filter test (e ∷ l)) (sym h)) (omega int_laws)
    unspent-put_back test (e ∷ l) (c ∷ changed) h = elim (Bool-cases (test e)) [
      | inl hit ↦ rw hit (omega (int_laws, parts (unspent-put_back test l changed (ground arith))))
      | inr miss ↦
          rw miss (omega (int_laws, parts (unspent-put_back test l (c ∷ changed) (ground arith))))
    ]

    length-consume : (l : List Entry) (size : Number) → length (consume l size true).0 ≡ length l
    length-consume l size =
        consume_cases (λ t. length t.0 ≡ length l) l size refl
          (λ wanted covered. length-settle l (walk l (start size)).0)

    -- With exact arithmetic, what the ledger holds before a take is what it holds afterwards plus
    -- the size of the summary that was handed out, which is nothing on a miss.
    pub take_fills-unspent :
        (symbol : String) (side : PositionSide) (size : Number) (since : Option ℕ)
        (ledger : FillLedger)
        → let (ledger', summary) = take_fills symbol side size since ledger in
          unspent ledger'.entries +ℤ spent summary ≡ unspent ledger.entries
    unfolding take_fills
    take_fills-unspent symbol side size since ledger =
        let test = is_candidate symbol side since in
        let chosen = filter test ledger.entries in
        omega (
          int_laws,
          parts (
              unspent-put_back test ledger.entries (consume chosen size true).0
                (length-consume chosen size)),
          parts (unspent-consume chosen size),
        )
