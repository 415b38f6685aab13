-- ===== src/Reconcile/Ledger/Targets.antt =====
-- reconcile/fills.py: which entries `take` may spend from, and which fills a ledger holds.
use xupertrade.Exchange.{PositionSide}
use xupertrade.Float.{Floats, Number}
use xupertrade.Prelude.{
  All, Bool, Bool-cases, List, Option, String, [], ap, arith, false, filter, inl, inr, length, none,
  not, refl, some, sym, true, ℕ, ◌+◌, ◌∙◌, ◌∷◌, ◌≡◌, ◌≤◌, ◌⊎◌,
}
use xupertrade.Reconcile.{Fill, is_excluded}
use xupertrade.Reconcile.Ledger.{
  Entry, FillLedger, is_candidate, new_ledger, parse_entries, put_back, settle, take_fills,
}
use xupertrade.Reconcile.Ledger.Spending.{consume_cases}

module _ ⦃N : Floats⦄ where
  -- Entry by entry: nothing changed, or an entry that passes the test has another remainder.
  abbrev SpentOnly : (Entry → Bool) → List Entry → List Entry → Type 0
  SpentOnly test [] [] = Unit
  SpentOnly test [] (f ∷ m) = ⊥
  SpentOnly test (e ∷ l) [] = ⊥
  SpentOnly test (e ∷ l) (f ∷ m) =
      ((f ≡ e) ⊎ ((test e ≡ true) × (f ≡ record e { remaining = f.remaining })))
      × SpentOnly test l m

  SpentOnly-refl : (test : Entry → Bool) (l : List Entry) → SpentOnly test l l
  SpentOnly-refl test [] = tt
  SpentOnly-refl test (e ∷ l) = (inl refl, SpentOnly-refl test l)

  put_back-nil : (test : Entry → Bool) (l : List Entry) → put_back test l [] ≡ l
  unfolding put_back
  put_back-nil test [] = refl
  put_back-nil test (e ∷ l) = refl

  put_back_none : (test : Entry → Bool) (c : List Entry) → put_back test [] c ≡ []
  unfolding put_back
  put_back_none test c = refl

  put_back_miss :
      (test : Entry → Bool) (e : Entry) (l changed : List Entry)
      → test e ≡ false
      → put_back test (e ∷ l) changed ≡ e ∷ put_back test l changed
  unfolding put_back
  put_back_miss test e l [] miss = ap (λ (m : List Entry). e ∷ m) (sym (put_back-nil test l))
  put_back_miss test e l (c ∷ changed) miss = rw miss

  put_back_hit :
      (test : Entry → Bool) (e c : Entry) (l changed : List Entry)
      → test e ≡ true
      → put_back test (e ∷ l) (c ∷ changed) ≡ c ∷ put_back test l changed
  unfolding put_back
  put_back_hit test e c l changed hit = rw hit

  put_back-filter : (test : Entry → Bool) (l : List Entry) → put_back test l (filter test l) ≡ l
  put_back-filter test [] = put_back-nil test []
  put_back-filter test (e ∷ l) = elim (Bool-cases (test e)) [
    | inl hit ↦ rw hit (
        put_back_hit test e e l (filter test l) hit
        ∙ ap (λ (m : List Entry). e ∷ m) (put_back-filter test l))
    | inr miss ↦ rw miss (
        put_back_miss test e l (filter test l) miss
        ∙ ap (λ (m : List Entry). e ∷ m) (put_back-filter test l))
  ]

  settle-nil : (l : List Entry) → settle l [] ≡ l
  unfolding settle
  settle-nil [] = refl
  settle-nil (e ∷ l) = refl

  put_back-SpentOnly :
      (test : Entry → Bool) (takes : List (Option Number)) (l : List Entry)
      → SpentOnly test l (put_back test l (settle (filter test l) takes))
  unfolding settle
  put_back-SpentOnly test [] l =
      rw (settle-nil (filter test l), put_back-filter test l) (SpentOnly-refl test l)
  put_back-SpentOnly test (t ∷ takes) [] = rw (put_back_none test []) tt
  put_back-SpentOnly test (none ∷ takes) (e ∷ l) = elim (Bool-cases (test e)) [
    | inl hit ↦ rw (hit, put_back_hit test e _ l _ hit) (inl refl, put_back-SpentOnly test takes l)
    | inr miss ↦
        rw (miss, put_back_miss test e l _ miss)
          (inl refl, put_back-SpentOnly test (none ∷ takes) l)
  ]
  put_back-SpentOnly test (some n ∷ takes) (e ∷ l) = elim (Bool-cases (test e)) [
    | inl hit ↦
        rw (hit, put_back_hit test e _ l _ hit) (inr (hit, refl), put_back-SpentOnly test takes l)
    | inr miss ↦
        rw (miss, put_back_miss test e l _ miss)
          (inl refl, put_back-SpentOnly test (some n ∷ takes) l)
  ]

  -- A take changes nothing of the ledger but the remainders of fills on the symbol, of the side
  -- that closes the position, with something left and not from before `since`.
  take_fills-SpentOnly :
      (symbol : String) (side : PositionSide) (size : Number) (since : Option ℕ)
      (ledger : FillLedger)
      → SpentOnly
          (is_candidate symbol side since)
          ledger.entries
          (take_fills symbol side size since ledger).0.entries
  unfolding take_fills
  take_fills-SpentOnly symbol side size since ledger =
      let test = is_candidate symbol side since in
      consume_cases (λ t. SpentOnly test ledger.entries (put_back test ledger.entries t.0))
        (filter test ledger.entries) size (rw put_back-filter (SpentOnly-refl test ledger.entries))
        (λ wanted covered. put_back-SpentOnly test _ ledger.entries)

  not_excluded :
      (excluded : List String) (l : List Entry)
      → All
          (λ e. is_excluded e.order_id excluded ≡ false)
          (filter (λ (e : Entry). not (is_excluded e.order_id excluded)) l)
  not_excluded excluded [] = tt
  not_excluded excluded (e ∷ l) = elim (Bool-cases (is_excluded e.order_id excluded)) [
    | inl booked ↦ rw booked (not_excluded excluded l)
    | inr free ↦ rw free (free, not_excluded excluded l)
  ]

  length-filter {ℓ} : {A : Type ℓ} (p : A → Bool) (l : List A) → length (filter p l) ≤ length l
  length-filter p [] = omega arith
  length-filter p (a ∷ l) = ground (arith, length-filter p l)

  -- A fill whose id is already booked is not in a new ledger, and the two counts make up all the
  -- fills that were parsed.
  new_ledger-not_excluded :
      (fold : String → String) (fills : List Fill) (excluded : List String)
      → let ledger = new_ledger fold fills excluded in
        All (λ e. is_excluded e.order_id excluded ≡ false) ledger.entries
        × (ledger.excluded_count + ledger.usable_count ≡ length (parse_entries fold fills))
  unfolding new_ledger
  new_ledger-not_excluded fold fills excluded = (
    not_excluded excluded (parse_entries fold fills),
    omega (
      arith,
      length-filter (λ (e : Entry). not (is_excluded e.order_id excluded))
          (parse_entries fold fills),
    ),
  )
