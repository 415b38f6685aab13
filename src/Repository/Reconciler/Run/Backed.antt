-- ===== src/Repository/Reconciler/Run/Backed.antt =====
-- repo.py: the rows that `reconcile_positions` leaves alone.
use xupertrade.Dict.{Dict, insert, lookup}
use xupertrade.Exchange.{Position, same_side}
use xupertrade.Float.{Floats}
use xupertrade.Prelude.{
  All, Bool, Bool-cases, List, Option, String, [], arith, eq_iff, eqb, false, inl, inr, none, refl,
  some, subst, sym, true, ℕ, ◌++◌, ◌==◌, ◌∷◌, ◌≡◌,
}
use xupertrade.Repository.{Row}
use xupertrade.Repository.Closing.{
  OrphanClosePrice, Pricing, Surroundings, orphan_close, price_orphan_close,
}
use xupertrade.Repository.Reconciler.{
  Kind, Planned, Progress, add_row, classify_closes, classify_rows, or_empty, plan, price_all,
  rows_by_symbol,
}

module _ ⦃N : Floats⦄ where
  -- Whether a position stands for the row, on its side.
  abbrev backs : Option Position → Row → Bool
  backs none r = false
  backs (some p) r = same_side r.side p.side

  abbrev pub is_backed : Dict Position → Row → Bool
  is_backed ex r = backs (lookup r.symbol ex) r

  -- Every row with this id is backed.
  abbrev pub Backed : ℕ → Dict Position → Row → Type 0
  Backed id ex r = eqb r.id id ≡ true → is_backed ex r ≡ true

  -- No candidate has this id.
  abbrev pub Spares : ℕ → List (Row × Kind) → Type 0
  Spares id = All (λ c. eqb c.0.id id ≡ false)

  -- The groups by coin hold nothing but the rows, each under its coin.
  abbrev IsGroup : (Row → Type 0) → String → List Row → Type 0
  IsGroup P symbol rows = All (λ r. (r.symbol ≡ symbol) × P r) rows

  abbrev Groups : (Row → Type 0) → Dict (List Row) → Type 0
  Groups P [] = Unit
  Groups P ((symbol, rows) ∷ d) = IsGroup P symbol rows × Groups P d

  IsGroup-snoc :
      (P : Row → Type 0) (symbol : String) (rows : List Row) (r : Row)
      → IsGroup P symbol rows
      → r.symbol ≡ symbol
      → P r
      → IsGroup P symbol (rows ++ r ∷ [])
  IsGroup-snoc P symbol [] r h e p = ((e, p), tt)
  IsGroup-snoc P symbol (x ∷ rows) r h e p = (h.0, IsGroup-snoc P symbol rows r h.1 e p)

  Groups-lookup :
      (P : Row → Type 0) (symbol : String) (d : Dict (List Row))
      → Groups P d
      → IsGroup P symbol (or_empty (lookup symbol d))
  Groups-lookup P symbol [] h = tt
  Groups-lookup P symbol ((s, rows) ∷ d) h = elim (Bool-cases (s == symbol)) [
    | inl same ↦ rw same (subst (λ k. IsGroup P k rows) ((eq_iff s symbol).0 same) h.0)
    | inr other ↦ rw other (Groups-lookup P symbol d h.1)
  ]

  Groups-insert :
      (P : Row → Type 0) (symbol : String) (rows : List Row) (d : Dict (List Row))
      → Groups P d
      → IsGroup P symbol rows
      → Groups P (insert symbol rows d)
  Groups-insert P symbol rows [] h g = (g, tt)
  Groups-insert P symbol rows ((s, old) ∷ d) h g = elim (Bool-cases (s == symbol)) [
    | inl same ↦ rw same (subst (λ k. IsGroup P k rows) (sym ((eq_iff s symbol).0 same)) g, h.1)
    | inr other ↦ rw other (h.0, Groups-insert P symbol rows d h.1 g)
  ]

  add_row-Groups :
      (P : Row → Type 0) (l : List Row) (d : Dict (List Row))
      → All P l
      → Groups P d
      → Groups P (add_row l d)
  add_row-Groups P [] d a h = h
  add_row-Groups P (r ∷ l) d a h =
      add_row-Groups P l (insert r.symbol (or_empty (lookup r.symbol d) ++ r ∷ []) d) a.1 (
        Groups-insert P r.symbol (or_empty (lookup r.symbol d) ++ r ∷ []) d h (
          IsGroup-snoc P r.symbol (or_empty (lookup r.symbol d)) r (Groups-lookup P r.symbol d h)
            refl a.0))

  -- Candidates are not backed, so none of them has the id of a backed row.
  classify_rows-Spares :
      (id : ℕ) (rows : List Row) (position : Option Position)
      → All (λ r. eqb r.id id ≡ true → backs position r ≡ true) rows
      → Spares id (classify_rows rows position)
  unfolding classify_rows
  classify_rows-Spares id [] position h = tt
  classify_rows-Spares id (r ∷ rows) none h =
      (ground (arith, h.0), classify_rows-Spares id rows none h.1)
  classify_rows-Spares id (r ∷ rows) (some p) h = elim (Bool-cases (same_side r.side p.side)) [
    | inl same ↦ rw same (classify_rows-Spares id rows (some p) h.1)
    | inr other ↦ rw other (ground (arith, h.0), classify_rows-Spares id rows (some p) h.1)
  ]

  IsGroup-Backed :
      (id : ℕ) (symbol : String) (rows : List Row) (ex : Dict Position)
      → IsGroup (Backed id ex) symbol rows
      → All (λ r. eqb r.id id ≡ true → backs (lookup symbol ex) r ≡ true) rows
  IsGroup-Backed id symbol [] ex h = tt
  IsGroup-Backed id symbol (r ∷ rows) ex h = (
    λ e. subst (λ k. backs (lookup k ex) r ≡ true) h.0.0 (h.0.1 e),
    IsGroup-Backed id symbol rows ex h.1,
  )

  Spares-append :
      (id : ℕ) (l m : List (Row × Kind)) → Spares id l → Spares id m → Spares id (l ++ m)
  Spares-append id [] m h k = k
  Spares-append id (c ∷ l) m h k = (h.0, Spares-append id l m h.1 k)

  classify_closes-Spares :
      (id : ℕ) (d : Dict (List Row)) (ex : Dict Position)
      → Groups (Backed id ex) d
      → Spares id (classify_closes d ex)
  unfolding classify_closes
  classify_closes-Spares id [] ex h = tt
  classify_closes-Spares id ((symbol, rows) ∷ d) ex h =
      Spares-append id (classify_rows rows (lookup symbol ex)) (classify_closes d ex)
        (classify_rows-Spares id rows (lookup symbol ex) (IsGroup-Backed id symbol rows ex h.0))
        (classify_closes-Spares id d ex h.1)

  pub rows_by_symbol-Spares :
      (id : ℕ) (rows : List Row) (ex : Dict Position)
      → All (Backed id ex) rows
      → Spares id (classify_closes (rows_by_symbol rows) ex)
  rows_by_symbol-Spares id rows ex h =
      classify_closes-Spares id (rows_by_symbol rows) ex
        (add_row-Groups (Backed id ex) rows [] h tt)

  -- Nor does a planned close.
  abbrev pub Avoids : ℕ → List Planned → Type 0
  Avoids id = All (λ c. eqb c.0.id id ≡ false)

  Avoids-snoc :
      (id : ℕ) (l : List Planned) (c : Planned)
      → Avoids id l
      → eqb c.0.id id ≡ false
      → Avoids id (l ++ c ∷ [])
  Avoids-snoc id [] c h e = (e, tt)
  Avoids-snoc id (x ∷ l) c h e = (h.0, Avoids-snoc id l c h.1 e)

  plan-Avoids :
      (id : ℕ) (r : Row) (kind : Kind) (priced : Option OrphanClosePrice)
      (acc : List Planned × Progress)
      → Avoids id acc.0
      → eqb r.id id ≡ false
      → Avoids id (plan r kind priced acc).0
  plan-Avoids id r kind none (planned, p) h e = h
  plan-Avoids id r kind (some priced) (planned, p) h e =
      Avoids-snoc id planned (r, kind, priced) h e

  pub price_all-Avoids :
      (id : ℕ) (env : Surroundings) (l : List (Row × Kind)) (pricing : Pricing)
      (acc : List Planned × Progress)
      → Spares id l
      → Avoids id acc.0
      → Avoids id (price_all env l pricing acc).0
  unfolding price_all
  price_all-Avoids id env [] pricing acc h a = a
  price_all-Avoids id env ((r, kind) ∷ l) pricing acc h a =
      let (next, priced) = price_orphan_close env orphan_close r pricing in
      price_all-Avoids id env l next (plan r kind priced acc) h.1
        (plan-Avoids id r kind priced acc a h.0)
