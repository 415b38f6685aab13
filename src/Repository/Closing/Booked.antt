-- ===== src/Repository/Closing/Booked.antt =====
-- repo.py: `_close_row_priced`, the row and its trade together.
use xupertrade.Engine.CloseSize.Believed.{named}
use xupertrade.Exchange.{is_long}
use xupertrade.Float.{Floats, Number}
use xupertrade.Prelude.{
  Bool, Bool-cases, List, Option, Option-cases, String, [], ap, eqb, false, if◌then◌else◌, inl, inr,
  none, refl, some, subst, sym, true, ℕ, ◌++◌, ◌==◌, ◌∙◌, ◌∷◌, ◌≡◌,
}
use xupertrade.Reconcile.Backfill.{Trade}
use xupertrade.Repository.{Database, Row, add_trade, closed_row, has_order, update_row}
use xupertrade.Repository.Closing.{
  OrphanClosePrice, Surroundings, candidates, close_row_priced, close_trade, find_row, insert_first,
  insert_reconcile_trade, open_only, or_else,
}

module _ ⦃N : Floats⦄ where
  abbrev on_found : (Row → Row) → Option Row → Option Row
  on_found f none = none
  on_found f (some r) = some (f r)

  find_row-update_row_self :
      (id : ℕ) (exit_price pnl : Number) (now : ℕ) (l : List Row)
      → find_row id (update_row id (closed_row exit_price pnl now) l)
        ≡ on_found (closed_row exit_price pnl now) (find_row id l)
  find_row-update_row_self id exit_price pnl now [] = refl
  find_row-update_row_self id exit_price pnl now (x ∷ l) = elim (Bool-cases (eqb x.id id)) [
    | inl same ↦ simp same refl
    | inr other ↦ simp other (find_row-update_row_self id exit_price pnl now l)
  ]

  -- An insert into the trades leaves the positions.
  or_else-positions :
      (mode : String) (t : Trade) (db next : Database)
      → next.positions ≡ db.positions
      → (or_else (add_trade mode t db) next).positions ≡ db.positions
  unfolding add_trade
  or_else-positions mode t db next h = elim (Bool-cases (has_order t.order_id db.trades)) [
    | inl taken ↦ simp taken h
    | inr free ↦ simp free refl
  ]

  pub insert_first-positions :
      (mode : String) (trade : String → Trade) (l : List String) (db : Database)
      → (insert_first mode trade l db).positions ≡ db.positions
  unfolding insert_first
  insert_first-positions mode trade [] db = refl
  insert_first-positions mode trade (c ∷ l) db =
      or_else-positions mode (trade c) db (insert_first mode trade l db)
        (insert_first-positions mode trade l db)

  -- One trade more, under an order id that was free.
  abbrev pub Inserts : String → (String → Trade) → Database → Database → Type 0
  Inserts mode trade db after =
      (order_id : String) × (after.trades ≡ db.trades ++ (mode, trade order_id) ∷ [])
      × (has_order order_id db.trades ≡ false)

  -- What a close may leave: the database as it was, where no row with this id is open; otherwise
  -- the row closed at the price and one trade more, and the row cannot be closed again.
  abbrev pub Books :
      String → Surroundings → ℕ → OrphanClosePrice → Database → Database × Option Row → Type 0
  Books mode env id priced db (after, none) =
      (after ≡ db) × (open_only (find_row id db.positions) ≡ none)
  Books mode env id priced db (after, some r) =
      (find_row id db.positions ≡ some r)
      × (r.is_open ≡ true)
      × (find_row id after.positions
          ≡ some (record r {
            is_open = false;
            exit_price = some priced.exit_price;
            pnl = some priced.pnl;
            closed_at = some env.now;
          }))
      × (open_only (find_row id after.positions) ≡ none)
      × Inserts mode
          (λ order_id. record {
            order_id = order_id;
            strategy_name = r.strategy_name;
            symbol = r.symbol;
            side = if is_long r.side then "sell" else "buy";
            size = r.size;
            price = priced.exit_price;
            fee = priced.fee;
            pnl = some priced.pnl;
            reason = priced.reason;
            timestamp = env.now;
          })
          db after

  -- The first candidate that is free is inserted; the last one is free here.
  insert_first-Inserts :
      (mode : String) (trade : String → Trade) (preferred : Option String) (fresh : String)
      (db : Database)
      → ((order_id : String) → (trade order_id).order_id ≡ order_id)
      → has_order fresh db.trades ≡ false
      → Inserts mode trade db (insert_first mode trade (candidates preferred fresh) db)
  unfolding insert_first add_trade
  insert_first-Inserts mode trade none fresh db id free = (fresh, simp (id fresh, free) refl, free)
  insert_first-Inserts mode trade (some o) fresh db id free = elim (Bool-cases (o == "")) [
    | inl blank ↦ simp blank (fresh, simp (id fresh, free) refl, free)
    | inr named ↦ elim (Bool-cases (has_order o db.trades)) [
      | inl taken ↦ simp (named, id o, taken) (fresh, simp (id fresh, free) refl, free)
      | inr untaken ↦ simp (named, id o, untaken) (o, refl, untaken)
    ]
  ]

  abbrev opened_or_none : Option Row → Bool
  opened_or_none none = true
  opened_or_none (some r) = r.is_open

  open_only-some :
      (o : Option Row) (r : Row) → open_only o ≡ some r → (o ≡ some r) × (r.is_open ≡ true)
  open_only-some none r e = cc
  open_only-some (some x) r e = elim (Bool-cases x.is_open) [
    | inl opened ↦
        let same = sym (ap (λ b. if b then some x else none) opened) ∙ e in
        (same, subst (λ o. opened_or_none o ≡ true) same opened)
    | inr shut ↦ cc
  ]

  -- If the fresh id of the row is not booked: the close does nothing unless a row with this id is
  -- open, and then it closes that row at the price and writes exactly one trade for it, under an
  -- order id that was free; the row cannot be closed again.
  pub close_row_priced-Books :
      (mode : String) (env : Surroundings) (id : ℕ) (priced : OrphanClosePrice) (db : Database)
      → ((r : Row)
          → find_row id db.positions ≡ some r
          → has_order (env.fresh_id r.id) db.trades ≡ false)
      → Books mode env id priced db (close_row_priced mode env id priced db)
  unfolding close_row_priced insert_reconcile_trade
  close_row_priced-Books mode env id priced db free =
      elim (Option-cases (open_only (find_row id db.positions))) [
        | inl gone ↦ simp gone (refl, refl)
        | inr (r, found) ↦
            let (there, is_open) = open_only-some (find_row id db.positions) r found in
            let shut =
              find_row-update_row_self id priced.exit_price priced.pnl env.now db.positions
              ∙ ap (on_found (closed_row priced.exit_price priced.pnl env.now)) there in
            simp found (
              there,
              is_open,
              rw insert_first-positions shut,
              rw (insert_first-positions, shut) refl,
              insert_first-Inserts mode (close_trade env.now r priced) priced.order_id
                  (env.fresh_id r.id)
                  (record db {
                    positions =
                        update_row id (closed_row priced.exit_price priced.pnl env.now)
                          db.positions;
                  })
                  (λ order_id. refl) (free r there),
            )
      ]
