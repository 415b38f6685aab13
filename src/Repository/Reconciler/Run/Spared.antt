-- ===== src/Repository/Reconciler/Run/Spared.antt =====
-- repo.py: what `reconcile_positions` does to one row of the table.
use xupertrade.Control.Hold.{keeps}
use xupertrade.Dict.{Dict}
use xupertrade.Exchange.{Order, Position}
use xupertrade.Float.{Floats, Number}
use xupertrade.Prelude.{
  All, Bool, Bool-cases, List, Option, Option-cases, String, [], arith, eqb, false, inl, inr, none,
  not, refl, some, subst, true, ℕ, ◌&&◌, ◌++◌, ◌∙◌, ◌∷◌, ◌≡◌,
}
use xupertrade.Reconcile.Backfill.{Trade}
use xupertrade.Repository.{
  Database, Row, add_trade, closed_row, open_position_rows, record_trade, update_row,
}
use xupertrade.Repository.Closing.{
  OrphanClosePrice, Pricing, Surroundings, close_row_priced, fill_ledger, find_row,
  insert_reconcile_trade, open_only, orphan_close, price_orphan_close,
}
use xupertrade.Repository.Closing.Booked.{insert_first-positions}
use xupertrade.Repository.Reconciler.{
  Exchange, HoldReason, Kind, Options, Planned, Progress, apply_all, by_symbol, classify_closes,
  close_planned, note_closed, plan, price_all, rows_by_symbol, since_of,
}
use xupertrade.Repository.Reconciler.Orphans.{
  after_order, book_orphan, close_orphan, close_side, is_filled, orphan_trade, pass_2, resolve,
  treat_all, treat_orphan, treat_orphans,
}
use xupertrade.Repository.Reconciler.Run.{
  commit_or_raise, confirm, confirm_by, finish_pass, only_read, plan_all, plan_closes, proceed,
  reconcile_positions, reconcile_positions-cases, rows_of,
}
use xupertrade.Repository.Reconciler.Run.Backed.{
  Avoids, Backed, Spares, price_all-Avoids, rows_by_symbol-Spares,
}
use xupertrade.Repository.Reconciler.Run.Quiet.{note_paused-keeps}

module _ ⦃N : Floats⦄ where
  find_row-update_row :
      (id other : ℕ) (exit_price pnl : Number) (now : ℕ) (l : List Row)
      → eqb other id ≡ false
      → find_row id (update_row other (closed_row exit_price pnl now) l) ≡ find_row id l
  find_row-update_row id other exit_price pnl now [] h = refl
  find_row-update_row id other exit_price pnl now (r ∷ l) h =
      ground (arith, find_row-update_row id other exit_price pnl now l h)

  close_row_priced-other :
      (mode : String) (env : Surroundings) (id other : ℕ) (priced : OrphanClosePrice)
      (db : Database)
      → eqb other id ≡ false
      → find_row id (close_row_priced mode env other priced db).0.positions
        ≡ find_row id db.positions
  unfolding close_row_priced insert_reconcile_trade
  close_row_priced-other mode env id other priced db h =
      elim (Option-cases (open_only (find_row other db.positions))) [
        | inl gone ↦ simp gone refl
        | inr (r, found) ↦ simp found (
            rw insert_first-positions
              (find_row-update_row id other priced.exit_price priced.pnl env.now db.positions h))
      ]

  note_closed-db :
      (id : ℕ) (kind : Kind) (priced : OrphanClosePrice) (change : Database × Option Row)
      (p : Progress)
      → find_row id change.0.positions ≡ find_row id p.db.positions
      → find_row id (note_closed kind priced change p).db.positions ≡ find_row id p.db.positions
  note_closed-db id kind priced (changed, none) p h = refl
  note_closed-db id kind priced (changed, some r) p h = h

  apply_all-Avoids :
      (mode : String) (env : Surroundings) (id : ℕ) (l : List Planned) (p : Progress)
      → Avoids id l
      → find_row id (apply_all mode env l p).db.positions ≡ find_row id p.db.positions
  unfolding apply_all
  apply_all-Avoids mode env id [] p h = refl
  apply_all-Avoids mode env id ((r, kind, priced) ∷ l) p h =
      let change = close_row_priced mode env r.id priced p.db in
      apply_all-Avoids mode env id l (note_closed kind priced change p) h.1
      ∙ note_closed-db id kind priced change p
          (close_row_priced-other mode env id r.id priced p.db h.0)

  abbrev pricing_at : String → Surroundings → List (Row × Kind) → Progress → Pricing
  pricing_at mode env to_close p = record {
    ledger = fill_ledger env mode (since_of to_close) p.db;
    mid_cache = [];
  }

  -- Pass 2 writes no position.
  book_orphan-positions :
      (position : Position) (order : Order) (mode : String) (commits : Bool) (t : Trade)
      (p : Progress)
      → (book_orphan position order (record_trade mode commits t p.db) p).db.positions
        ≡ p.db.positions
  unfolding record_trade add_trade
  book_orphan-positions position order mode commits t p = ground arith

  treat_orphan-positions :
      (mode : String) (env : Surroundings) (ex : Exchange) (confirmed : Bool)
      (why : Option HoldReason) (symbol : String) (position : Position) (p : Progress)
      → (treat_orphan mode env ex confirmed why symbol position p).db.positions ≡ p.db.positions
  unfolding treat_orphan close_orphan after_order record_trade add_trade
  treat_orphan-positions mode env ex confirmed (some why) symbol position p = refl
  treat_orphan-positions mode env ex false none symbol position p = refl
  treat_orphan-positions mode env ex true none symbol position p =
      elim (Option-cases (ex.send_order symbol (close_side position.side) position.size)) [
        | inl raises ↦ simp raises refl
        | inr (order, placed) ↦ simp placed (elim (Bool-cases (is_filled order.status)) [
          | inl closed ↦ simp closed (
              book_orphan-positions position order mode env.trade_commits
                (orphan_trade env position order)
                (resolve symbol (record p {
                  sent = p.sent ++ (symbol, close_side position.side, position.size) ∷ [];
                })))
          | inr rest ↦ simp rest refl
        ])
      ]

  treat_orphans-positions :
      (mode : String) (env : Surroundings) (ex : Exchange) (confirmed : Bool)
      (reasons : String → Option HoldReason) (l : List (String × Position)) (p : Progress)
      → (treat_orphans mode env ex confirmed reasons l p).db.positions ≡ p.db.positions
  unfolding treat_orphans
  treat_orphans-positions mode env ex confirmed reasons [] p = refl
  treat_orphans-positions mode env ex confirmed reasons ((symbol, position) ∷ l) p =
      treat_orphans-positions mode env ex confirmed reasons l
        (treat_orphan mode env ex confirmed (reasons symbol) symbol position p)
      ∙ treat_orphan-positions mode env ex confirmed (reasons symbol) symbol position p

  finish_pass-positions :
      (mode : String) (env : Surroundings) (ex : Exchange) (opts : Options) (rows : Dict (List Row))
      (positions : List Position) (p : Progress)
      → (finish_pass mode env ex opts rows positions p).db.positions ≡ p.db.positions
  unfolding finish_pass pass_2 treat_all
  finish_pass-positions mode env ex opts rows positions p =
      elim (Bool-cases (opts.close_exchange_orphans && not opts.dry_run)) [
        | inl closes ↦ simp closes (rw treat_orphans-positions refl)
        | inr leaves ↦ simp leaves refl
      ]

  -- Steps 3 and 4 write nothing and send nothing.
  abbrev pub SameTables : Progress → Progress → Type 0
  SameTables p q = (q.db ≡ p.db) × (q.sent ≡ p.sent)

  price_all-SameTables :
      (env : Surroundings) (l : List (Row × Kind)) (pricing : Pricing)
      (acc : List Planned × Progress)
      → SameTables acc.1 (price_all env l pricing acc).1
  unfolding price_all
  price_all-SameTables env [] pricing acc = (refl, refl)
  price_all-SameTables env ((r, kind) ∷ l) pricing acc =
      let (next, priced) = price_orphan_close env orphan_close r pricing in
      let after = plan-SameTables priced in
      let rest = price_all-SameTables env l next (plan r kind priced acc) in
      (rest.0 ∙ after.0, rest.1 ∙ after.1)
    where
      plan-SameTables :
          (priced : Option OrphanClosePrice) → SameTables acc.1 (plan r kind priced acc).1
      plan-SameTables none = (refl, refl)
      plan-SameTables (some priced) = (refl, refl)

  plan_all-Spares :
      (id : ℕ) (mode : String) (env : Surroundings) (to_close : List (Row × Kind)) (p : Progress)
      → Spares id to_close
      → Avoids id (plan_all mode env to_close p).0
  unfolding plan_all
  plan_all-Spares id mode env [] p h = tt
  plan_all-Spares id mode env (c ∷ cs) p h =
      price_all-Avoids id env (c ∷ cs) (pricing_at mode env (c ∷ cs) p) ([], p) h tt

  plan_closes-Spares :
      (id : ℕ) (mode : String) (env : Surroundings) (opts : Options) (to_close : List (Row × Kind))
      (p : Progress)
      → Spares id to_close
      → Avoids id (plan_closes mode env opts to_close p).0
  unfolding plan_closes
  plan_closes-Spares id mode env opts to_close p h = elim (Bool-cases opts.dry_run) [
    | inl dry ↦ simp dry tt
    | inr real ↦ simp real (plan_all-Spares id mode env to_close p h)
  ]

  plan_all-SameTables :
      (mode : String) (env : Surroundings) (to_close : List (Row × Kind)) (p : Progress)
      → SameTables p (plan_all mode env to_close p).1
  unfolding plan_all
  plan_all-SameTables mode env [] p = (refl, refl)
  plan_all-SameTables mode env (c ∷ cs) p =
      price_all-SameTables env (c ∷ cs) (pricing_at mode env (c ∷ cs) p) ([], p)

  pub plan_closes-SameTables :
      (mode : String) (env : Surroundings) (opts : Options) (to_close : List (Row × Kind))
      (p : Progress)
      → SameTables p (plan_closes mode env opts to_close p).1
  unfolding plan_closes
  plan_closes-SameTables mode env opts to_close p = elim (Bool-cases opts.dry_run) [
    | inl dry ↦ let (db, sent, closed) = note_paused-keeps to_close p in simp dry (db, sent)
    | inr real ↦ simp real (plan_all-SameTables mode env to_close p)
  ]

  -- Step 5 leaves a spared row as it is when the transaction begins, or before it.
  close_planned-Spares :
      (id : ℕ) (mode : String) (env : Surroundings) (planned : List Planned) (p : Progress)
      (rest : Progress → Progress)
      → Avoids id planned
      → ((q : Progress) → (rest q).db.positions ≡ q.db.positions)
      → find_row id (env.others p.db).positions ≡ find_row id p.db.positions
      → find_row id
          (commit_or_raise (env.others p.db) rest (close_planned mode env planned p)).db.positions
        ≡ find_row id p.db.positions
  unfolding close_planned
  close_planned-Spares id mode env [] p rest h keeps kept = rw keeps refl
  close_planned-Spares id mode env (c ∷ cs) p rest h keeps kept = elim (Bool-cases env.commits) [
    | inl commits ↦ simp commits (
        rw keeps
          (apply_all-Avoids mode env id (c ∷ cs) (record p { db = env.others p.db }) h ∙ kept))
    | inr raises ↦ simp raises kept
  ]

  proceed-Spares :
      (id : ℕ) (mode : String) (env : Surroundings) (ex : Exchange) (opts : Options)
      (rows : Dict (List Row)) (to_close : List (Row × Kind)) (positions : List Position)
      (p : Progress)
      → Spares id to_close
      → find_row id (env.others p.db).positions ≡ find_row id p.db.positions
      → find_row id (proceed mode env ex opts rows to_close positions p).db.positions
        ≡ find_row id p.db.positions
  unfolding proceed
  proceed-Spares id mode env ex opts rows to_close positions p h kept =
      let avoids = plan_closes-Spares id mode env opts to_close p h in
      let same = (plan_closes-SameTables mode env opts to_close p).0 in
      let planned = plan_closes mode env opts to_close p in
      subst
        (λ db.
          find_row id (env.others db).positions ≡ find_row id db.positions
          → find_row id
              (commit_or_raise (env.others db) (finish_pass mode env ex opts rows positions)
                (close_planned mode env planned.0 planned.1)).db.positions
            ≡ find_row id db.positions)
        same
        (close_planned-Spares id mode env planned.0 planned.1
          (finish_pass mode env ex opts rows positions) avoids
          (finish_pass-positions mode env ex opts rows positions))
        kept

  abbrev Spared : ℕ → Option (List (Row × Kind) × List Position) → Type 0
  Spared id none = Unit
  Spared id (some (to_close, _)) = Spares id to_close

  confirm_by-Spared :
      (id : ℕ) (read : Option (List Position)) (rows : List Row) (first : List Position)
      (candidates : List (Row × Kind))
      → ((second : List Position) → read ≡ some second → All (Backed id (by_symbol second)) rows)
      → Spared id (confirm_by read (rows_by_symbol rows) first candidates)
  confirm_by-Spared id read rows first [] backed = tt
  confirm_by-Spared id none rows first (c ∷ cs) backed = tt
  confirm_by-Spared id (some second) rows first (c ∷ cs) backed =
      rows_by_symbol-Spares id rows (by_symbol second) (backed second refl)

  confirm-Spared :
      (id : ℕ) (mode : String) (ex : Exchange) (db : Database) (first : List Position)
      → ((second : List Position)
          → ex.second_read ≡ some second
          → All (Backed id (by_symbol second)) (open_position_rows mode db))
      → Spared id (confirm ex (rows_of mode db) first)
  unfolding confirm
  confirm-Spared id mode ex db first backed =
      confirm_by-Spared id ex.second_read (open_position_rows mode db) first
        (classify_closes (rows_of mode db) (by_symbol first)) backed

  -- A row that the confirming read backs, and that no other writer changes meanwhile, is as it was
  -- when the pass ends, however it ends.
  pub find_row-reconcile_positions :
      (id : ℕ) (mode : String) (env : Surroundings) (ex : Exchange) (opts : Options) (db : Database)
      → ((second : List Position)
          → ex.second_read ≡ some second
          → All (Backed id (by_symbol second)) (open_position_rows mode db))
      → find_row id (env.others db).positions ≡ find_row id db.positions
      → find_row id (reconcile_positions mode env ex opts db).db.positions
        ≡ find_row id db.positions
  find_row-reconcile_positions id mode env ex opts db backed kept =
      reconcile_positions-cases (λ o. find_row id o.db.positions ≡ find_row id db.positions) mode
        env ex opts db (λ why r. refl)
        (λ to_close first positions r reads found fresh.
          proceed-Spares id mode env ex opts (rows_of mode db) to_close positions (only_read db r)
            (subst (Spared id) found (confirm-Spared id mode ex db first backed)) kept)
