-- ===== src/Repository/Reconciler/Run/Lone.antt =====
-- repo.py: the orders of pass 2 of `reconcile_positions`.
use xupertrade.Dict.{Dict}
use xupertrade.Exchange.{Order, Position, Side}
use xupertrade.Float.{Floats, Number}
use xupertrade.Prelude.{
  All, All-snoc, Bool, Bool-cases, List, Option, Option-cases, String, [], ap, arith, contains,
  false, inl, inr, length, length-append, none, not, refl, some, subst, sym, true, ℕ, ◌&&◌, ◌++◌,
  ◌+◌, ◌∙◌, ◌∷◌, ◌≡◌, ◌≤◌, ◌⊎◌,
}
use xupertrade.Repository.{Database, Row, record_trade}
use xupertrade.Repository.Closing.{Surroundings, close_row_priced}
use xupertrade.Repository.Reconciler.{
  Exchange, HoldReason, Kind, Options, Planned, Progress, apply_all, by_symbol, close_planned,
  is_told, note_closed, orphan_hold_reason,
}
use xupertrade.Repository.Reconciler.Orphans.{
  after_order, book_orphan, close_orphan, close_side, count_traded, is_filled, orphan_trade,
  orphans_of, pass_2, reasons_of, resolve, still_open, treat_all, treat_orphan, treat_orphans,
  unheld,
}
use xupertrade.Repository.Reconciler.Run.{
  commit_or_raise, finish_pass, only_read, plan_closes, proceed, reconcile_positions,
  reconcile_positions-cases, rows_of,
}
use xupertrade.Repository.Reconciler.Run.Spared.{plan_closes-SameTables}

module _ ⦃N : Floats⦄ where
  abbrev pub Sent : Type 0
  Sent = String × Side × Number

  book_orphan-sent :
      (position : Position) (order : Order) (written : Option Database) (p : Progress)
      → (book_orphan position order written p).sent ≡ p.sent
  book_orphan-sent position order none p = refl
  book_orphan-sent position order (some db) p = refl

  after_order-sent :
      (mode : String) (env : Surroundings) (symbol : String) (position : Position)
      (answer : Option Order) (p : Progress)
      → (after_order mode env symbol position answer p).sent ≡ p.sent
  unfolding after_order
  after_order-sent mode env symbol position none p = refl
  after_order-sent mode env symbol position (some order) p =
      elim (Bool-cases (is_filled order.status)) [
        | inl complete ↦ simp complete (
            book_orphan-sent position order
              (record_trade mode env.trade_commits (orphan_trade env position order) p.db)
              (resolve symbol p))
        | inr rest ↦ simp rest refl
      ]

  -- One round sends nothing, or, where nothing holds the orphan, one order.
  treat_orphan-cases {ℓ} :
      (P : List Sent → Type ℓ) (mode : String) (env : Surroundings) (ex : Exchange)
      (confirmed : Bool) (why : Option HoldReason) (symbol : String) (position : Position)
      (p : Progress)
      → P p.sent
      → (why ≡ none → P (p.sent ++ (symbol, close_side position.side, position.size) ∷ []))
      → P (treat_orphan mode env ex confirmed why symbol position p).sent
  unfolding treat_orphan close_orphan
  treat_orphan-cases P mode env ex confirmed (some why) symbol position p same one = same
  treat_orphan-cases P mode env ex false none symbol position p same one = same
  treat_orphan-cases P mode env ex true none symbol position p same one =
      rw after_order-sent (one refl)

  treat_orphans-few :
      (mode : String) (env : Surroundings) (ex : Exchange) (confirmed : Bool)
      (reasons : String → Option HoldReason) (l : List (String × Position)) (p : Progress)
      → length (treat_orphans mode env ex confirmed reasons l p).sent
        ≤ length p.sent + length (unheld reasons l)
  unfolding treat_orphans
  treat_orphans-few mode env ex confirmed reasons [] p = omega arith
  treat_orphans-few mode env ex confirmed reasons ((symbol, position) ∷ l) p =
      let next = treat_orphan mode env ex confirmed (reasons symbol) symbol position p in
      let step =
        treat_orphan-cases
          (λ s.
            length s + length (unheld reasons l)
            ≤ length p.sent + length (unheld reasons ((symbol, position) ∷ l)))
          mode env ex confirmed (reasons symbol) symbol position p (ground arith)
          (λ e.
            rw (e, length-append p.sent ((symbol, close_side position.side, position.size) ∷ []))
              (omega arith)) in
      omega (arith, treat_orphans-few mode env ex confirmed reasons l next, step)

  treat_orphans-All {κ} :
      (P : String → Type κ) (mode : String) (env : Surroundings) (ex : Exchange) (confirmed : Bool)
      (reasons : String → Option HoldReason) (l : List (String × Position)) (p : Progress)
      → ((symbol : String) → reasons symbol ≡ none → P symbol)
      → All (λ (s : Sent). P s.0) p.sent
      → All (λ (s : Sent). P s.0) (treat_orphans mode env ex confirmed reasons l p).sent
  unfolding treat_orphans
  treat_orphans-All P mode env ex confirmed reasons [] p free h = h
  treat_orphans-All P mode env ex confirmed reasons ((symbol, position) ∷ l) p free h =
      treat_orphans-All P mode env ex confirmed reasons l
        (treat_orphan mode env ex confirmed (reasons symbol) symbol position p) free
        (treat_orphan-cases (All (λ (s : Sent). P s.0)) mode env ex confirmed (reasons symbol)
          symbol position p h
          (λ e.
            All-snoc (λ (s : Sent). P s.0) p.sent (symbol, close_side position.side, position.size)
              h (free symbol e)))

  -- The orphans that nothing holds are on traded coins, and there is at most one.
  reason-none :
      (symbol : String) (n : ℕ) (told_why : Option String) (traded : List String)
      → orphan_hold_reason symbol n told_why traded ≡ none
      → (is_told told_why ≡ false) × (contains symbol traded ≡ true) × (n ≤ 1)
  unfolding orphan_hold_reason
  reason-none symbol n told_why traded e = ground arith

  unheld-traded :
      (traded : List String) (reasons : String → Option HoldReason) (l : List (String × Position))
      → ((symbol : String) → reasons symbol ≡ none → contains symbol traded ≡ true)
      → length (unheld reasons l) ≤ count_traded traded l
  unheld-traded traded reasons [] h = omega arith
  unheld-traded traded reasons ((symbol, position) ∷ l) h =
      ground (arith, h symbol, unheld-traded traded reasons l h)

  unheld-few :
      (n : ℕ) (reasons : String → Option HoldReason) (l : List (String × Position))
      → ((symbol : String) → reasons symbol ≡ none → n ≤ 1)
      → (length (unheld reasons l) ≡ 0) ⊎ (n ≤ 1)
  unheld-few n reasons [] h = inl refl
  unheld-few n reasons ((symbol, position) ∷ l) h = elim (Option-cases (reasons symbol)) [
    | inl free ↦ inr (h symbol free)
    | inr (why, held_back) ↦ rw held_back (unheld-few n reasons l h)
  ]

  apply_all-sent :
      (mode : String) (env : Surroundings) (l : List Planned) (p : Progress)
      → (apply_all mode env l p).sent ≡ p.sent
  unfolding apply_all
  apply_all-sent mode env [] p = refl
  apply_all-sent mode env ((r, kind, priced) ∷ l) p =
      apply_all-sent mode env l
        (note_closed kind priced (close_row_priced mode env r.id priced p.db) p)
      ∙ noted (close_row_priced mode env r.id priced p.db)
    where
      noted : (change : Database × Option Row) → (note_closed kind priced change p).sent ≡ p.sent
      noted (changed, none) = refl
      noted (changed, some r) = refl

  -- What an order of pass 2 needs, apart from its orphan.
  abbrev pub IsAllowed : Options → String → Type 0
  IsAllowed opts symbol =
      (opts.dry_run ≡ false)
      × (opts.close_exchange_orphans ≡ true)
      × (is_told opts.hold_orphans ≡ false)
      × (contains symbol opts.traded_symbols ≡ true)

  -- At most one order, and what it needs.
  abbrev pub AtMostOne : Options → List Sent → Type 0
  AtMostOne opts sent = (length sent ≤ 1) × All (λ (s : Sent). IsAllowed opts s.0) sent

  treat_orphans-AtMostOne :
      (mode : String) (env : Surroundings) (ex : Exchange) (opts : Options) (confirmed : Bool)
      (orphans : List (String × Position)) (p : Progress)
      → p.sent ≡ []
      → opts.dry_run ≡ false
      → opts.close_exchange_orphans ≡ true
      → AtMostOne opts
          (treat_orphans mode env ex confirmed (reasons_of opts orphans) orphans p).sent
  treat_orphans-AtMostOne mode env ex opts confirmed orphans p none_sent real closes =
      let n = count_traded opts.traded_symbols orphans in
      let reasons = reasons_of opts orphans in
      let free = λ (symbol : String). reason-none symbol n opts.hold_orphans opts.traded_symbols in
      (
        ground (
          arith,
          ap length none_sent,
          treat_orphans-few mode env ex confirmed reasons orphans p,
          unheld-traded opts.traded_symbols reasons orphans (λ symbol e. (free symbol e).1),
          unheld-few n reasons orphans (λ symbol e. (free symbol e).2),
        ),
        treat_orphans-All (IsAllowed opts) mode env ex confirmed reasons orphans p
            (λ symbol e. (real, closes, (free symbol e).0, (free symbol e).1))
            (subst (All (λ (s : Sent). IsAllowed opts s.0)) (sym none_sent) tt),
      )

  finish_pass-AtMostOne :
      (mode : String) (env : Surroundings) (ex : Exchange) (opts : Options) (rows : Dict (List Row))
      (positions : List Position) (p : Progress)
      → p.sent ≡ []
      → AtMostOne opts (finish_pass mode env ex opts rows positions p).sent
  unfolding finish_pass pass_2 treat_all
  finish_pass-AtMostOne mode env ex opts rows positions p none_sent =
      elim (Bool-cases (opts.close_exchange_orphans && not opts.dry_run)) [
        | inl closes ↦ simp closes (
            treat_orphans-AtMostOne mode env ex opts _
              (orphans_of (still_open mode rows p) (by_symbol positions)) _ none_sent (ground arith)
              (ground arith))
        | inr leaves ↦ simp (leaves, none_sent) (omega arith, tt)
      ]

  close_planned-AtMostOne :
      (mode : String) (env : Surroundings) (opts : Options) (db : Database)
      (finish : Progress → Progress) (l : List Planned) (p : Progress)
      → p.sent ≡ []
      → ((q : Progress) → q.sent ≡ [] → AtMostOne opts (finish q).sent)
      → AtMostOne opts (commit_or_raise db finish (close_planned mode env l p)).sent
  unfolding close_planned
  close_planned-AtMostOne mode env opts db finish [] p e few = few p e
  close_planned-AtMostOne mode env opts db finish (c ∷ cs) p e few = elim (Bool-cases env.commits) [
    | inl commits ↦ simp commits (
        few (apply_all mode env (c ∷ cs) (record p { db = env.others p.db }))
          (apply_all-sent mode env (c ∷ cs) (record p { db = env.others p.db }) ∙ e))
    | inr raises ↦ simp raises (omega arith, tt)
  ]

  proceed-AtMostOne :
      (mode : String) (env : Surroundings) (ex : Exchange) (opts : Options) (rows : Dict (List Row))
      (to_close : List (Row × Kind)) (positions : List Position) (p : Progress)
      → p.sent ≡ []
      → AtMostOne opts (proceed mode env ex opts rows to_close positions p).sent
  unfolding proceed
  proceed-AtMostOne mode env ex opts rows to_close positions p none_sent =
      let planned = plan_closes mode env opts to_close p in
      close_planned-AtMostOne mode env opts (env.others p.db)
        (finish_pass mode env ex opts rows positions) planned.0 planned.1
        ((plan_closes-SameTables mode env opts to_close p).1 ∙ none_sent)
        (finish_pass-AtMostOne mode env ex opts rows positions)

  -- A pass sends at most one order. One is sent only if the pass is no dry run, was asked to close
  -- orphans and has no reason to hold them all, and its coin is traded.
  pub reconcile_positions-AtMostOne :
      (mode : String) (env : Surroundings) (ex : Exchange) (opts : Options) (db : Database)
      → AtMostOne opts (reconcile_positions mode env ex opts db).sent
  reconcile_positions-AtMostOne mode env ex opts db =
      reconcile_positions-cases (λ o. AtMostOne opts o.sent) mode env ex opts db
        (λ why r. (omega arith, tt))
        (λ to_close first positions r reads found fresh.
          proceed-AtMostOne mode env ex opts (rows_of mode db) to_close positions (only_read db r)
            refl)
