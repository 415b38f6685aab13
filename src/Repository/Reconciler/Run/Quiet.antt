-- ===== src/Repository/Reconciler/Run/Quiet.antt =====
-- repo.py: the passes of `reconcile_positions` that change nothing.
use xupertrade.Dict.{Dict}
use xupertrade.Exchange.{Position}
use xupertrade.Float.{Floats}
use xupertrade.Prelude.{Bool-cases, List, String, [], inl, inr, refl, true, ◌∷◌, ◌≡◌}
use xupertrade.Repository.{Database, Row}
use xupertrade.Repository.Closing.{Surroundings}
use xupertrade.Repository.Reconciler.{
  Exchange, Kind, Options, Progress, close_planned, fail, note_paused, paused_note,
}
use xupertrade.Repository.Reconciler.Run.{
  Outcome, finished, only_read, plan_closes, proceed, reconcile_positions,
  reconcile_positions-cases, rows_of,
}

module _ ⦃N : Floats⦄ where
  -- Nothing was written, ordered or reported to a strategy.
  abbrev pub Untouched : Database → Outcome → Type 0
  Untouched db o = (o.db ≡ db) × (o.sent ≡ []) × (o.closed ≡ [])

  pub note_paused-keeps :
      (l : List (Row × Kind)) (p : Progress)
      → ((note_paused l p).db ≡ p.db)
        × ((note_paused l p).sent ≡ p.sent)
        × ((note_paused l p).closed ≡ p.closed)
  note_paused-keeps [] p = (refl, refl, refl)
  note_paused-keeps ((r, kind) ∷ l) p = note_paused-keeps l (fail (paused_note kind r) p)

  proceed-dry :
      (mode : String) (env : Surroundings) (ex : Exchange) (opts : Options) (rows : Dict (List Row))
      (to_close : List (Row × Kind)) (positions : List Position) (p : Progress)
      → opts.dry_run ≡ true
      → proceed mode env ex opts rows to_close positions p ≡ finished (note_paused to_close p)
  unfolding proceed plan_closes close_planned
  proceed-dry mode env ex opts rows to_close positions p dry =
      elim (Bool-cases opts.close_exchange_orphans) [
        | inl closes ↦ simp (dry, closes) refl
        | inr leaves ↦ simp (dry, leaves) refl
      ]

  -- A dry run changes nothing, whatever the reads answer.
  pub dry_run-Untouched :
      (mode : String) (env : Surroundings) (ex : Exchange) (opts : Options) (db : Database)
      → opts.dry_run ≡ true
      → Untouched db (reconcile_positions mode env ex opts db)
  dry_run-Untouched mode env ex opts db dry =
      reconcile_positions-cases (Untouched db) mode env ex opts db (λ why r. (refl, refl, refl))
        (λ to_close first positions r reads found fresh.
          rw
            (proceed-dry mode env ex opts (rows_of mode db) to_close positions (only_read db r) dry)
            (note_paused-keeps to_close (only_read db r)))
