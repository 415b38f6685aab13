-- ===== src/Reconcile/Backfill/Rows.antt =====
-- reconcile/fills.py: the rows and the report of `reconcile_fills_from_hl`.
use xupertrade.Float.{Floats}
use xupertrade.Prelude.{
  Bool-cases, Distinct, Distinct-snoc, List, List-cases, Option, Option-cases, String, [], ap,
  append-nil, append_assoc, arith, contains, contains-append, eq_iff, false, inl, inr, length,
  length-append, refl, some, subst, sym, true, ℕ, ◌++◌, ◌+◌, ◌∙◌, ◌∷◌, ◌≡◌, ◌⊎◌,
}
use xupertrade.Reconcile.{Fill}
use xupertrade.Reconcile.Backfill.{
  Insert, Pass, Trade, begin, booked, db_error, integrity_error, oids, process, process_all,
  reconcile_fills_from_hl, skip, store, stored, trade_of,
}

module _ ⦃N : Floats⦄ where
  -- The order ids of a table.
  abbrev pub ids : List Trade → List String
  ids [] = []
  ids (t ∷ ts) = t.order_id ∷ ids ts

  ids-append : (ts us : List Trade) → ids (ts ++ us) ≡ ids ts ++ ids us
  ids-append [] us = refl
  ids-append (t ∷ ts) us = ap (λ (l : List String). t.order_id ∷ l) (ids-append ts us)

  module _ (fold : String → String) (now : ℕ) (insert : Trade → Insert) where
    order_id-trade_of :
        (o : String) (f : Fill) (t : Trade) → trade_of fold now o f ≡ some t → t.order_id ≡ o
    unfolding trade_of
    order_id-trade_of o f t e = ground arith

    store_cases :
        (P : Pass → Type 0) (t : Trade) (i : Insert) (p : Pass)
        → P (skip p)
        → ((id : Option ℕ) → P (store t (stored id) p))
        → P (store t i p)
    unfolding store
    store_cases P t (stored id) p skipped added = added id
    store_cases P t integrity_error p skipped added = skipped
    store_cases P t db_error p skipped added = skipped

    -- A fill is skipped, or its order, which was not known to be booked, gets a row.
    process_cases :
        (P : Pass → Type 0) (f : Fill) (p : Pass)
        → P (skip p)
        → ((t : Trade) (id : Option ℕ)
            → f.oid ≡ some t.order_id
            → contains t.order_id p.existing ≡ false
            → P (store t (stored id) p))
        → P (process fold now insert f p)
    unfolding process
    process_cases P f p skipped added = elim (Option-cases f.oid) [
      | inl missing ↦ rw missing skipped
      | inr (o, there) ↦ elim (Bool-cases (contains o p.existing)) [
        | inl known ↦ rw (there, known) skipped
        | inr new ↦ elim (Option-cases (trade_of fold now o f)) [
          | inl bad ↦ rw (there, new, bad) skipped
          | inr (t, row) ↦
              let same = order_id-trade_of o f t row in
              rw (there, new, row)
                (store_cases P t (insert t) p skipped
                  (λ id. added t id (there ∙ ap some (sym same)) (rw same new)))
        ]
      ]
    ]

    -- Each fill is counted once, and each row added is counted as inserted.
    abbrev Counted : ℕ → Pass → Pass → Type 0
    Counted n p q =
        (q.report.inserted + q.report.skipped ≡ p.report.inserted + p.report.skipped + n)
        × (length q.rows + p.report.inserted ≡ length p.rows + q.report.inserted)
        × (q.report.examined ≡ p.report.examined)

    process-Counted : (f : Fill) (p : Pass) → Counted 1 p (process fold now insert f p)
    process-Counted f p =
        process_cases (Counted 1 p) f p (omega arith)
          (λ t id e new. unfold store in omega (arith, length-append p.rows (t ∷ [])))

    process_all-Counted :
        (fs : List Fill) (p : Pass) → Counted (length fs) p (process_all fold now insert fs p)
    unfolding process_all
    process_all-Counted [] p = omega arith
    process_all-Counted (f ∷ fs) p =
        omega (arith, process-Counted f p, process_all-Counted fs (process fold now insert f p))

    module _ (asked : List String) (table : List Trade) where
      -- Every id that was added, and every id of the table that was asked about, is known; and no
      -- order stands twice in the table with the added rows.
      record Fresh (p : Pass) : Type 0 where
        added : (o : String) → contains o (ids p.rows) ≡ true → contains o p.existing ≡ true
        known :
            (o : String)
            → contains o asked ≡ true
            → contains o (ids table) ≡ true
            → contains o p.existing ≡ true
        distinct : Distinct (ids (table ++ p.rows))

      contains-unknown :
          (o : String) (p : Pass)
          → Fresh p
          → contains o asked ≡ true
          → contains o p.existing ≡ false
          → contains o (ids (table ++ p.rows)) ≡ false
      contains-unknown o p h wanted new =
          rw (ids-append table p.rows, contains-append) (ground (arith, h.added o, h.known o))

      store-Fresh :
          (t : Trade) (id : Option ℕ) (p : Pass)
          → Fresh p
          → contains t.order_id asked ≡ true
          → contains t.order_id p.existing ≡ false
          → Fresh (store t (stored id) p)
      unfolding store
      store-Fresh t id p h wanted new = record {
        added = λ o e.
            let e' =
              rw (ids-append p.rows (t ∷ []), contains-append o (ids p.rows) (t.order_id ∷ [])) at
                e in
            ground (arith, h.added o);
        known = λ o a b. ground (arith, h.known o);
        distinct =
            rw (← append_assoc table p.rows (t ∷ []), ids-append (table ++ p.rows) (t ∷ []))
              (Distinct-snoc (ids (table ++ p.rows)) t.order_id h.distinct
                (contains-unknown t.order_id p h wanted new));
      }

      process-Fresh :
          (f : Fill) (p : Pass)
          → Fresh p
          → ((o : String) → f.oid ≡ some o → contains o asked ≡ true)
          → Fresh (process fold now insert f p)
      process-Fresh f p h wanted =
          process_cases Fresh f p
            (record { added = h.added; known = h.known; distinct = h.distinct })
            (λ t id e new. store-Fresh t id p h (wanted t.order_id e) new)

      oids-head :
          (f : Fill) (fs : List Fill) (o : String)
          → f.oid ≡ some o
          → contains o (oids (f ∷ fs)) ≡ true
      oids-head f fs o e = rw e (ground (arith, eq_iff o o))

      oids-tail :
          (f : Fill) (fs : List Fill) (o : String)
          → contains o (oids fs) ≡ true
          → contains o (oids (f ∷ fs)) ≡ true
      oids-tail f fs o e = ground arith

      process_all-Fresh :
          (fs : List Fill) (p : Pass)
          → Fresh p
          → ((o : String) → contains o (oids fs) ≡ true → contains o asked ≡ true)
          → Fresh (process_all fold now insert fs p)
      unfolding process_all
      process_all-Fresh [] p h wanted = h
      process_all-Fresh (f ∷ fs) p h wanted =
          process_all-Fresh fs (process fold now insert f p)
            (process-Fresh f p h (λ o e. wanted o (oids-head f fs o e)))
            (λ o e. wanted o (oids-tail f fs o e))

    contains-booked :
        (table : List Trade) (asked : List String) (o : String)
        → contains o asked ≡ true
        → contains o (ids table) ≡ true
        → contains o (booked table asked) ≡ true
    contains-booked [] asked o a e = e
    contains-booked (t ∷ table) asked o a e =
        ground (arith, eq_iff t.order_id o, contains-booked table asked o a)

    reconcile_without_ids :
        (fills : List Fill) (table : List Trade)
        → oids fills ≡ []
        → reconcile_fills_from_hl fold now insert fills table
          ≡ ((begin fills [] table).report, table)
    unfolding reconcile_fills_from_hl
    reconcile_without_ids fills table e = rw (e, reconcile_fills_from_hl)

    reconcile_with_ids :
        (fills : List Fill) (table : List Trade) (o : String) (os : List String)
        → oids fills ≡ o ∷ os
        → let q = process_all fold now insert fills (begin fills (o ∷ os) table) in
          reconcile_fills_from_hl fold now insert fills table ≡ (q.report, table ++ q.rows)
    unfolding reconcile_fills_from_hl
    reconcile_with_ids fills table o os e = rw (e, reconcile_fills_from_hl)

    begin-Fresh :
        (fills : List Fill) (asked : List String) (table : List Trade)
        → Distinct (ids table)
        → Fresh asked table (begin fills asked table)
    begin-Fresh fills asked table h = record {
      added = λ o e. cc;
      known = contains-booked table asked;
      distinct = rw append-nil h;
    }

    -- If no order is booked twice before the backfill, none is afterwards, whatever fills the
    -- exchange returned and however each insert ended; the rows that were there are kept, in front.
    pub reconcile_fills_from_hl-Distinct :
        (fills : List Fill) (table : List Trade)
        → Distinct (ids table)
        → let (_, table') = reconcile_fills_from_hl fold now insert fills table in
          Distinct (ids table') × ((rows : List Trade) × (table' ≡ table ++ rows))
    reconcile_fills_from_hl-Distinct fills table h = elim (List-cases (oids fills)) [
      | inl no_ids ↦ rw (reconcile_without_ids fills table no_ids) (h, ([], sym (append-nil table)))
      | inr (o, os, e) ↦
          let q = process_all fold now insert fills (begin fills (o ∷ os) table) in
          rw (reconcile_with_ids fills table o os e) (
            (process_all-Fresh (o ∷ os) table fills (begin fills (o ∷ os) table)
                (begin-Fresh fills (o ∷ os) table h)
                (λ x there. subst (λ (l : List String). contains x l ≡ true) e there)).distinct,
            (q.rows, refl),
          )
    ]

    -- The report's `examined` counts the fills, its `inserted` the rows that were added, and, if
    -- any fill has an order id, `inserted` and `skipped` make up `examined`.
    reconcile_fills_from_hl-counts :
        (fills : List Fill) (table : List Trade)
        → let (report, table') = reconcile_fills_from_hl fold now insert fills table in
          (report.examined ≡ length fills)
          × (length table' ≡ length table + report.inserted)
          × ((oids fills ≡ []) ⊎ (report.inserted + report.skipped ≡ report.examined))
    reconcile_fills_from_hl-counts fills table = elim (List-cases (oids fills)) [
      | inl no_ids ↦ rw (reconcile_without_ids fills table no_ids) (refl, omega arith, inl no_ids)
      | inr (o, os, e) ↦
          let p = begin fills (o ∷ os) table in
          let q = process_all fold now insert fills p in
          let counted : Counted (length fills) p q = process_all-Counted fills p in
          rw (reconcile_with_ids fills table o os e) (
            counted.2,
            omega (arith, counted, length-append table q.rows),
            inr (omega (arith, counted)),
          )
    ]
