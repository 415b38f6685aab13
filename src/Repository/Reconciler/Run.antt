-- ===== src/Repository/Reconciler/Run.antt =====
-- repo.py: `reconcile_positions`, its steps in order.
pub mod Quiet
pub mod Backed
pub mod Lone
pub mod Spared
use xupertrade.Dict.{Dict}
use xupertrade.Exchange.{Position, Side}
use xupertrade.Float.{Floats, Number}
use xupertrade.Prelude.{
  Bool, List, Option, Option-cases, String, [], false, if◌then◌else◌, inl, inr, length, none, not,
  refl, some, true, ◌&&◌, ◌∷◌, ◌≡◌,
}
use xupertrade.Repository.{Database, Row, open_position_rows}
use xupertrade.Repository.Closing.{Surroundings, fill_ledger}
use xupertrade.Repository.Reconciler.{
  Exchange, Kind, Options, Planned, Progress, ReconcileResult, by_symbol, classify_closes,
  close_planned, new_result, note_paused, price_all, rows_by_symbol, since_of,
}
use xupertrade.Repository.Reconciler.Orphans.{pass_2}

module _ ⦃N : Floats⦄ where
  -- How the pass ends: None of the result where the commit of step 5 raises.
  pub record Outcome : Type 0 where
    pub db : Database
    pub sent : List (String × Side × Number)
    pub closed : List (String × Number)
    pub result : Option ReconcileResult

  abbrev pub finished : Progress → Outcome
  finished p = record { db = p.db; sent = p.sent; closed = p.closed; result = some p.result }

  abbrev start : Database → Progress
  start db = record { db = db; sent = []; result = new_result; closed = [] }

  -- What skips the pass, and nothing else.
  abbrev pub skip_with : Bool → Progress → Outcome
  skip_with why p = finished (record p { result = record p.result { skipped = some why } })

  abbrev pub confirm_by :
      Option (List Position)
      → Dict (List Row)
      → List Position
      → List (Row × Kind)
      → Option (List (Row × Kind) × List Position)
  confirm_by second rows first [] = some ([], first)
  confirm_by none rows first (c ∷ cs) = none
  confirm_by (some second) rows first (c ∷ cs) =
      some (classify_closes rows (by_symbol second), second)

  -- The candidates that are left, and the positions they were found with; none where the
  -- confirming read, made if there are candidates, raises.
  unfoldable pub confirm :
      Exchange → Dict (List Row) → List Position → Option (List (Row × Kind) × List Position)
  unfolding classify_closes
  confirm ex rows first =
      confirm_by ex.second_read rows first (classify_closes rows (by_symbol first))

  -- Step 4, over the fills since the earliest candidate opened.
  unfoldable pub plan_all :
      String → Surroundings → List (Row × Kind) → Progress → List Planned × Progress
  unfolding price_all fill_ledger
  plan_all mode env [] p = ([], p)
  plan_all mode env (c ∷ cs) p =
      price_all env (c ∷ cs)
        (record { ledger = fill_ledger env mode (since_of (c ∷ cs)) p.db; mid_cache = [] }) ([], p)

  -- Steps 3 and 4: what is to be closed at which price.
  unfoldable pub plan_closes :
      String → Surroundings → Options → List (Row × Kind) → Progress → List Planned × Progress
  unfolding plan_all
  plan_closes mode env opts to_close p =
      if opts.dry_run then ([], note_paused to_close p) else plan_all mode env to_close p

  -- Step 6, which a dry run leaves out whatever it was asked.
  unfoldable pub finish_pass :
      String
      → Surroundings
      → Exchange
      → Options
      → Dict (List Row)
      → List Position
      → Progress
      → Progress
  unfolding pass_2
  finish_pass mode env ex opts rows positions p =
      if opts.close_exchange_orphans && not opts.dry_run
      then pass_2 mode env ex opts rows (by_symbol positions) p
      else p

  abbrev pub commit_or_raise : Database → (Progress → Progress) → Option Progress → Outcome
  commit_or_raise db rest none = record { db = db; sent = []; closed = []; result = none }
  commit_or_raise db rest (some p) = finished (rest p)

  -- Steps 3 to 6.
  unfoldable pub proceed :
      String
      → Surroundings
      → Exchange
      → Options
      → Dict (List Row)
      → List (Row × Kind)
      → List Position
      → Progress
      → Outcome
  unfolding plan_closes close_planned finish_pass
  proceed mode env ex opts rows to_close positions p =
      let (planned, noted) = plan_closes mode env opts to_close p in
      commit_or_raise (env.others p.db) (finish_pass mode env ex opts rows positions)
        (close_planned mode env planned noted)

  -- What follows the confirming read.
  abbrev act_on :
      String
      → Surroundings
      → Exchange
      → Options
      → Dict (List Row)
      → Progress
      → Option (List (Row × Kind) × List Position)
      → Outcome
  act_on mode env ex opts rows p none = skip_with true p
  act_on mode env ex opts rows p (some (to_close, positions)) =
      proceed mode env ex opts rows to_close positions
        (record p { result = record p.result { exchange_open = length positions } })

  -- The rows that the pass looks at.
  abbrev pub rows_of : String → Database → Dict (List Row)
  rows_of mode db = rows_by_symbol (open_position_rows mode db)

  abbrev on_first_read :
      String → Surroundings → Exchange → Options → Database → Option (List Position) → Outcome
  on_first_read mode env ex opts db none = skip_with false (start db)
  on_first_read mode env ex opts db (some first) =
      let p = start db in
      act_on mode env ex opts (rows_of mode db)
        (record p {
          result = record p.result {
            db_open = length (open_position_rows mode db);
            exchange_open = length first;
          };
        })
        (confirm ex (rows_of mode db) first)

  unfoldable pub reconcile_positions :
      String → Surroundings → Exchange → Options → Database → Outcome
  unfolding confirm proceed open_position_rows
  reconcile_positions mode env ex opts db = on_first_read mode env ex opts db ex.first_read

  abbrev counted : String → Database → List Position → ReconcileResult
  counted mode db positions = record new_result {
    db_open = length (open_position_rows mode db);
    exchange_open = length positions;
  }

  -- A progress that has done nothing but read.
  abbrev pub only_read : Database → ReconcileResult → Progress
  only_read db r = record { db = db; sent = []; result = r; closed = [] }

  -- A pass is skipped, or proceeds from what the reads answer.
  pub reconcile_positions-cases {ℓ} :
      (P : Outcome → Type ℓ) (mode : String) (env : Surroundings) (ex : Exchange) (opts : Options)
      (db : Database)
      → ((why : Bool) (r : ReconcileResult) → P (skip_with why (only_read db r)))
      → ((to_close : List (Row × Kind)) (first positions : List Position) (r : ReconcileResult)
          → ex.first_read ≡ some first
          → confirm ex (rows_of mode db) first ≡ some (to_close, positions)
          → r.skipped ≡ none
          → P (proceed mode env ex opts (rows_of mode db) to_close positions (only_read db r)))
      → P (reconcile_positions mode env ex opts db)
  unfolding reconcile_positions
  reconcile_positions-cases P mode env ex opts db skipped proceeds =
      elim (Option-cases ex.first_read) [
        | inl raises ↦ simp raises (skipped false new_result)
        | inr (first, reads) ↦
            simp reads (elim (Option-cases (confirm ex (rows_of mode db) first)) [
              | inl unread ↦ simp unread (skipped true (counted mode db first))
              | inr ((to_close, positions), found) ↦
                  simp found
                    (proceeds to_close first positions (counted mode db positions) reads found refl)
            ])
      ]
